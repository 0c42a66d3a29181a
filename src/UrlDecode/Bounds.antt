-- ===== src/UrlDecode/Bounds.antt =====
-- What `url_decode` writes, and that no store leaves a destination as long as the text.
use ximg.Prelude.{
  ℕ, ◌+◌, ◌*◌, ◌<◌, ◌≤◌, true, false, ◌&&◌, [], ◌∷◌, ◌++◌, Option, some, ◌==◌, if◌then◌else◌,
  length, set, drop, Bytes, ◌≡◌, refl, ap, ◌∙◌, arith, length-set, lt→ltb, Bool-cases, inl, inr,
}
use ximg.Prelude.Memory.{patch, patch-drop, pair_eq, store, ◌>>=◌}
use ximg.UrlDecode.{isxdigit, xdigit_value, url_loop, url_decode}

-- The decoded text: `%` and two digits make a byte, a `%` with something else behind it is dropped,
-- and all else is copied.
unfoldable pub unescaped : Bytes → Bytes
unescaped [] = []
unescaped (c ∷ []) = c ∷ []
unescaped (c ∷ h ∷ []) =
    let rest = unescaped (h ∷ []) in
    if c == b'%' && (if h == 0 then false else true) then rest else c ∷ rest
unescaped (c ∷ h ∷ l ∷ rest) =
    let more = unescaped (h ∷ l ∷ rest) in
    let after = unescaped rest in
    if c == b'%' && (if h == 0 then false else true)
    then if isxdigit h && isxdigit l then (16 * xdigit_value h + xdigit_value l) ∷ after else more
    else c ∷ more

pub length-unescaped : (str : Bytes) → length (unescaped str) ≤ length str
unfolding unescaped
length-unescaped [] = omega arith
length-unescaped (c ∷ []) = omega arith
length-unescaped (c ∷ h ∷ []) = ground (arith, length-unescaped (h ∷ []))
length-unescaped (c ∷ h ∷ l ∷ rest) =
    ground (arith, length-unescaped (h ∷ l ∷ rest), length-unescaped rest)

-- One byte stored, and the rest of the loop known.
store_step :
    (dest : Bytes) (j v : ℕ) (f : Bytes → Option (ℕ × Bytes)) (bs : Bytes)
    → j < length dest
    → f (set dest j v) ≡ some (j + 1 + length bs, patch (set dest j v) (j + 1) bs)
    → (store dest j v >>= f) ≡ some (j + length (v ∷ bs), patch dest j (v ∷ bs))
store_step dest j v f bs h e =
    rw (lt→ltb j (length dest) h) (e ∙ ap some (pair_eq (omega arith) refl))

url_loop-unescaped :
    (str : Bytes) (j : ℕ) (dest : Bytes)
    → j + length str ≤ length dest
    → url_loop str j dest ≡ some (j + length (unescaped str), patch dest j (unescaped str))
unfolding url_loop unescaped
url_loop-unescaped [] j dest h = ap some (pair_eq (omega arith) refl)
url_loop-unescaped (c ∷ []) j dest h = ground arith
url_loop-unescaped (c ∷ h ∷ []) j dest fits =
    let more = url_loop-unescaped (h ∷ []) j dest (omega arith) in
    let later =
      url_loop-unescaped (h ∷ []) (j + 1) (set dest j c) (omega (arith, length-set dest j c)) in
    let copied =
      store_step dest j c (url_loop (h ∷ []) (j + 1)) (unescaped (h ∷ [])) (omega arith) later in
    elim (Bool-cases (c == b'%')) [
      | inl e ↦ elim (Bool-cases (h == 0)) [ inl z ↦ rw (e, z) copied | inr n ↦ rw (e, n) more ]
      | inr n ↦ rw n copied
    ]
url_loop-unescaped (c ∷ h ∷ l ∷ rest) j dest fits =
    let more = url_loop-unescaped (h ∷ l ∷ rest) j dest (omega arith) in
    let later =
      url_loop-unescaped (h ∷ l ∷ rest) (j + 1) (set dest j c)
        (omega (arith, length-set dest j c)) in
    let copied =
      store_step dest j c (url_loop (h ∷ l ∷ rest) (j + 1)) (unescaped (h ∷ l ∷ rest)) (omega arith)
        later in
    let v = 16 * xdigit_value h + xdigit_value l in
    let after =
      url_loop-unescaped rest (j + 1) (set dest j v) (omega (arith, length-set dest j v)) in
    let byte = store_step dest j v (url_loop rest (j + 1)) (unescaped rest) (omega arith) after in
    elim (Bool-cases (c == b'%')) [
      | inl e ↦ elim (Bool-cases (h == 0)) [
        | inl z ↦ rw (e, z) copied
        | inr n ↦ elim (Bool-cases (isxdigit h && isxdigit l)) [
          | inl x ↦ rw (e, n, x) byte
          | inr x ↦ rw (e, n, x) more
        ]
      ]
      | inr n ↦ rw n copied
    ]

-- With a destination as long as the text, `url_decode` makes no store outside it, returns the number
-- of decoded bytes, at most the length of the text, and leaves those in front of the old rest.
pub url_decode-unescaped :
    (str dest : Bytes)
    → length str ≤ length dest
    → (url_decode str dest
        ≡ some (length (unescaped str), unescaped str ++ drop (length (unescaped str)) dest))
      × (length (unescaped str) ≤ length str)
unfolding url_decode
url_decode-unescaped str dest h = (
  url_loop-unescaped str 0 dest (omega arith)
      ∙ ap some (
          pair_eq (omega arith)
            (patch-drop (unescaped str) [] dest (omega (arith, length-unescaped str)))),
  length-unescaped str,
)
