-- ===== src/Upload/Param.antt =====
-- src/xhttpd.c: the image in the parameter `base64`, as `base64_request_cb` decodes it.
use ximg.Prelude.{
  ℕ, ◌+◌, ◌*◌, ◌/◌, ◌%◌, ◌<◌, ◌≤◌, Bool, true, false, [], ◌∷◌, ◌++◌, Bytes, length, take, drop,
  replicate, Option, some, ltb, All, ◌≡◌, refl, ap, ◌∙◌, arith, length-replicate, take-append_self,
  ltb→lt, length-append,
}
use ximg.Prelude.Bits.{all_below, all_below_sound}
use ximg.Prelude.Memory.{◌>>=◌}
use ximg.Base64.{b64_decode}
use ximg.Base64.Bounds.{decoded, length-decoded, b64_decode-decoded}
use ximg.Base64.RoundTrip.{IsByte, digit, b64_encode, decoded-b64_encode}
use ximg.UrlDecode.{url_decode}
use ximg.UrlDecode.Bounds.{unescaped, url_decode-unescaped}
use ximg.UrlDecode.RoundTrip.{url_encode, unescaped-url_encode}

-- From `temp = malloc(...)` to the call of `b64_decode`: `length` and `buff`. New memory holds `fill`.
unfoldable pub decode_param : ℕ → Bytes → Option (ℕ × Bytes)
decode_param fill base64 = do
  (len, temp) ← url_decode base64 (replicate (length base64 + 1) fill)
  b64_decode (take len temp) (replicate (len / 4 * 3) fill)

-- The two decoders one behind the other, whatever the parameter holds.
decode_param_lem :
    (fill : ℕ) (base64 : Bytes)
    → let text = unescaped base64 in
      decode_param fill base64
      ≡ some (
        length (decoded text),
        decoded text ++ drop (length (decoded text)) (replicate (length text / 4 * 3) fill),
      )
unfolding decode_param
decode_param_lem fill base64 =
    let text = unescaped base64 in
    let room = length-replicate {A = ℕ} (length base64 + 1) fill in
    let first = url_decode-unescaped base64 (replicate (length base64 + 1) fill) (omega arith) in
    rw
      (
        first.0,
        take-append_self (length text) text
            (drop (length text) (replicate (length base64 + 1) fill)) refl,
      )
      (b64_decode-decoded text (replicate (length text / 4 * 3) fill)
        (omega (arith, length-replicate {A = ℕ} (length text / 4 * 3) fill)))

digit_table : all_below 64 (λ i. ltb (digit i) 256) ≡ true
unfolding all_below
digit_table = refl

digit-IsByte : (i : ℕ) → i < 64 → IsByte (digit i)
digit-IsByte i h = ltb→lt _ _ (all_below_sound 64 _ i digit_table h)

b64_encode-IsByte : (bs : Bytes) → All IsByte bs → All IsByte (b64_encode bs)
unfolding b64_encode
b64_encode-IsByte [] h = tt
b64_encode-IsByte (a ∷ []) h = (
  digit-IsByte (a / 4) (omega (arith, h.0)),
  (digit-IsByte (a % 4 * 16) (omega arith), (omega arith, (omega arith, tt))),
)
b64_encode-IsByte (a ∷ b ∷ []) h = (
  digit-IsByte (a / 4) (omega (arith, h.0)),
  (
    digit-IsByte (a % 4 * 16 + b / 16) (omega (arith, h.1.0)),
    (digit-IsByte (b % 16 * 4) (omega arith), (omega arith, tt)),
  ),
)
b64_encode-IsByte (a ∷ b ∷ c ∷ bs) h = (
  digit-IsByte (a / 4) (omega (arith, h.0)),
  (
    digit-IsByte (a % 4 * 16 + b / 16) (omega (arith, h.1.0)),
    (
      digit-IsByte (b % 16 * 4 + c / 64) (omega (arith, h.1.1.0)),
      (digit-IsByte (c % 64) (omega arith), b64_encode-IsByte bs h.1.1.1),
    ),
  ),
)

-- An image comes back from its Base64 encoding, percent-encoded by any encoder that does not keep the
-- percent sign: the decoded length is its length, and the buffer begins with its bytes.
pub decode_param-url_encode :
    (fill : ℕ) (keep : ℕ → Bool) (img : Bytes)
    → keep b'%' ≡ false
    → All IsByte img
    → (rest : Bytes) × (decode_param fill (url_encode keep (b64_encode img))
        ≡ some (length img, img ++ rest))
decode_param-url_encode fill keep img k h =
    let text = unescaped-url_encode keep (b64_encode img) k (b64_encode-IsByte img h) in
    let out = replicate (length (unescaped (url_encode keep (b64_encode img))) / 4 * 3) fill in
    (
      drop (length img) out,
      decode_param_lem fill (url_encode keep (b64_encode img))
          ∙ ap (λ (t : Bytes). some (length t, t ++ drop (length t) out))
              (ap decoded text ∙ decoded-b64_encode img h),
    )

-- Whatever the parameter `base64` holds, the two decoders make no store outside the memory that the
-- request allocates for them, and give a length that fits the second buffer.
pub decode_param_total :
    (fill : ℕ) (base64 : Bytes)
    → (len : ℕ) × (buff : Bytes) × (decode_param fill base64 ≡ some (len, buff))
      × (len ≤ length buff)
      × (len ≤ length base64 / 4 * 3)
decode_param_total fill base64 =
    let text = unescaped base64 in
    let bytes = decoded text in
    let shorter =
      url_decode-unescaped base64 (replicate (length base64 + 1) fill)
        (omega (arith, length-replicate {A = ℕ} (length base64 + 1) fill)) in
    (
      length bytes,
      _,
      decode_param_lem fill base64,
      omega
          (arith, length-append bytes (drop (length bytes) (replicate (length text / 4 * 3) fill))),
      omega (arith, length-decoded text, shorter.1),
    )
