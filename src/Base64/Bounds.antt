-- ===== src/Base64/Bounds.antt =====
-- What `b64_decode` writes, by groups of four characters, and that no store leaves the output.
use ximg.Prelude.{
  ℕ, ◌+◌, ◌*◌, ◌/◌, ◌≤◌, [], ◌∷◌, ◌++◌, some, ◌==◌, if◌then◌else◌, length, set, drop, Bytes, ◌≡◌,
  refl, ap, ◌∙◌, arith, length-set, length-append, sym,
}
use ximg.Prelude.Memory.{patch, length-patch, patch-append, patch-drop, pair_eq}
use ximg.Base64.{b64_int, j0, byte0, byte1, byte2, flush, b64_loop, b64_decode}

-- The bytes that four sextets stand for; 64 is the padding character.
abbrev pub quad : ℕ → ℕ → ℕ → ℕ → Bytes
quad s0 s1 s2 s3 =
    if s2 == 64
    then byte0 s0 s1 ∷ []
    else if s3 == 64
    then byte0 s0 s1 ∷ byte1 s1 s2 ∷ []
    else byte0 s0 s1 ∷ byte1 s1 s2 ∷ byte2 s2 s3 ∷ []

-- The decoded bytes: one group of four characters after another, an incomplete one ignored.
unfoldable pub decoded : Bytes → Bytes
decoded (c0 ∷ c1 ∷ c2 ∷ c3 ∷ cs) =
    quad (b64_int c0) (b64_int c1) (b64_int c2) (b64_int c3) ++ decoded cs
decoded _ = []

flush_lem :
    (s0 s1 s2 s3 k : ℕ) (out : Bytes)
    → k + 3 ≤ length out
    → flush s0 s1 s2 s3 k out ≡ some (k + length (quad s0 s1 s2 s3), patch out k (quad s0 s1 s2 s3))
unfolding flush
flush_lem s0 s1 s2 s3 k out h = ground (
  arith,
  length-set out (k + 0) (byte0 s0 s1),
  length-set (set out (k + 0) (byte0 s0 s1)) (k + 1) (byte1 s1 s2),
)

length-quad : (s0 s1 s2 s3 : ℕ) → length (quad s0 s1 s2 s3) ≤ 3
length-quad s0 s1 s2 s3 = ground arith

-- The decoded bytes fit three for four characters.
pub length-decoded : (cs : Bytes) → length (decoded cs) ≤ length cs / 4 * 3
unfolding decoded
length-decoded (c0 ∷ c1 ∷ c2 ∷ c3 ∷ cs) =
    let q = quad (b64_int c0) (b64_int c1) (b64_int c2) (b64_int c3) in
    omega (
      arith,
      length-append q (decoded cs),
      length-quad (b64_int c0) (b64_int c1) (b64_int c2) (b64_int c3),
      length-decoded cs,
    )
length-decoded [] = omega arith
length-decoded (c0 ∷ []) = omega arith
length-decoded (c0 ∷ c1 ∷ []) = omega arith
length-decoded (c0 ∷ c1 ∷ c2 ∷ []) = omega arith

b64_loop-decoded :
    (cs : Bytes) (k : ℕ) (out : Bytes)
    → k + length cs / 4 * 3 ≤ length out
    → b64_loop cs j0 k out ≡ some (k + length (decoded cs), patch out k (decoded cs))
unfolding decoded b64_loop
b64_loop-decoded [] k out h = ap some (pair_eq (omega arith) refl)
b64_loop-decoded (c0 ∷ []) k out h = ap some (pair_eq (omega arith) refl)
b64_loop-decoded (c0 ∷ c1 ∷ []) k out h = ap some (pair_eq (omega arith) refl)
b64_loop-decoded (c0 ∷ c1 ∷ c2 ∷ []) k out h = ap some (pair_eq (omega arith) refl)
b64_loop-decoded (c0 ∷ c1 ∷ c2 ∷ c3 ∷ cs) k out h =
    let q = quad (b64_int c0) (b64_int c1) (b64_int c2) (b64_int c3) in
    let len : length q ≤ 3 = length-quad (b64_int c0) (b64_int c1) (b64_int c2) (b64_int c3) in
    rw (flush_lem (b64_int c0) (b64_int c1) (b64_int c2) (b64_int c3) k out (omega arith)) (
      b64_loop-decoded cs (k + length q) (patch out k q) (omega (arith, length-patch q out k))
      ∙ ap some (
          pair_eq (omega (arith, length-append q (decoded cs)))
            (sym (patch-append q (decoded cs) out k))))

-- With room for three bytes to four characters, `b64_decode` makes no store outside the output,
-- returns the number of decoded bytes, and leaves those in front of the old rest of the output.
pub b64_decode-decoded :
    (text out : Bytes)
    → length text / 4 * 3 ≤ length out
    → b64_decode text out
      ≡ some (length (decoded text), decoded text ++ drop (length (decoded text)) out)
unfolding b64_decode
b64_decode-decoded text out h =
    b64_loop-decoded text 0 out (omega arith)
    ∙ ap some (
        pair_eq (omega arith)
          (patch-drop (decoded text) [] out (omega (arith, length-decoded text))))
