-- ===== src/Base64/RoundTrip.antt =====
-- `b64_decode` undoes the Base64 encoding over the alphabet `b64_chr`.
use ximg.Prelude.{
  ℕ, ◌+◌, ◌*◌, ◌/◌, ◌%◌, ◌<◌, ◌≤◌, true, false, ◌&&◌, [], ◌∷◌, ◌++◌, some, ◌==◌, length, drop,
  Bytes, ◌≡◌, refl, ap, ◌∙◌, arith, get_or, bit_and, All, ==_iff, ap₂,
}
use ximg.Prelude.Bits.{all_below, all_below_sound}
use ximg.Base64.{b64_chr, b64_int, byte0, byte1, byte2, b64_decode}
use ximg.Base64.Bounds.{quad, decoded, b64_decode-decoded}

abbrev pub IsByte : ℕ → Type 0
IsByte b = b < 256

abbrev pub digit : ℕ → ℕ
digit i = get_or b64_chr i 0

-- The Base64 encoding: six bits to a character, the last group filled up by `=`.
unfoldable pub b64_encode : Bytes → Bytes
b64_encode [] = []
b64_encode (a ∷ []) = digit (a / 4) ∷ digit (a % 4 * 16) ∷ b'=' ∷ b'=' ∷ []
b64_encode (a ∷ b ∷ []) =
    digit (a / 4) ∷ digit (a % 4 * 16 + b / 16) ∷ digit (b % 16 * 4) ∷ b'=' ∷ []
b64_encode (a ∷ b ∷ c ∷ bs) =
    digit (a / 4)
    ∷ digit (a % 4 * 16 + b / 16)
    ∷ digit (b % 16 * 4 + c / 64)
    ∷ digit (c % 64)
    ∷ b64_encode bs

digit_table : all_below 64 (λ i. b64_int (digit i) == i) ≡ true
unfolding all_below b64_int
digit_table = refl

b64_int-digit : (i : ℕ) → i < 64 → b64_int (digit i) ≡ i
b64_int-digit i h = (==_iff _ i).0 (all_below_sound 64 _ i digit_table h)

mask_table :
    all_below 64 (λ s.
      bit_and s 255 == s
      && (bit_and s 0x30 == s / 16 * 16
          && (bit_and s 0x0F == s % 16
              && (bit_and s 0x3C == s / 4 * 4 && bit_and s 0x03 == s % 4))))
    ≡ true
unfolding all_below
mask_table = refl

-- The masks of the decoder, on a sextet.
record Masks (s : ℕ) : Type 0 where
  whole : bit_and s 255 ≡ s
  high : bit_and s 0x30 ≡ s / 16 * 16
  low : bit_and s 0x0F ≡ s % 16
  upper : bit_and s 0x3C ≡ s / 4 * 4
  lower : bit_and s 0x03 ≡ s % 4

masks : (s : ℕ) → s < 64 → Masks s
masks s h = ground (arith, all_below_sound 64 _ s mask_table h)

byte0_lem : (s0 s1 : ℕ) → s0 < 64 → s1 < 64 → byte0 s0 s1 ≡ s0 * 4 + s1 / 16
unfolding byte0
byte0_lem s0 s1 h0 h1 = omega (arith, (masks s0 h0).whole, (masks s1 h1).high)

byte1_lem : (s1 s2 : ℕ) → s1 < 64 → s2 < 64 → byte1 s1 s2 ≡ s1 % 16 * 16 + s2 / 4
unfolding byte1
byte1_lem s1 s2 h1 h2 = omega (arith, (masks s1 h1).low, (masks s2 h2).upper)

byte2_lem : (s2 s3 : ℕ) → s2 < 64 → s3 < 64 → byte2 s2 s3 ≡ s2 % 4 * 64 + s3
unfolding byte2
byte2_lem s2 s3 h2 h3 = omega (arith, (masks s2 h2).lower)

ne_pad : (s : ℕ) → s < 64 → (s == 64) ≡ false
ne_pad s h = ground arith

int_pad : b64_int b'=' ≡ 64
unfolding b64_int
int_pad = refl

-- The group for three bytes, for two and for one.
quad_three :
    (a b c : ℕ)
    → IsByte a × IsByte b × IsByte c
    → quad (a / 4) (a % 4 * 16 + b / 16) (b % 16 * 4 + c / 64) (c % 64) ≡ a ∷ b ∷ c ∷ []
quad_three a b c (ha, hb, hc) =
    rw
      (
        ne_pad (b % 16 * 4 + c / 64) (omega arith),
        ne_pad (c % 64) (omega arith),
        byte0_lem (a / 4) (a % 4 * 16 + b / 16) (omega arith) (omega arith),
        byte1_lem (a % 4 * 16 + b / 16) (b % 16 * 4 + c / 64) (omega arith) (omega arith),
        byte2_lem (b % 16 * 4 + c / 64) (c % 64) (omega arith) (omega arith),
      )
      (ap₂ ◌∷◌ (omega arith) (ap₂ ◌∷◌ (omega arith) (ap₂ ◌∷◌ (omega arith) refl)))

quad_two :
    (a b : ℕ)
    → IsByte a × IsByte b
    → quad (a / 4) (a % 4 * 16 + b / 16) (b % 16 * 4) 64 ≡ a ∷ b ∷ []
quad_two a b (ha, hb) =
    rw
      (
        ne_pad (b % 16 * 4) (omega arith),
        byte0_lem (a / 4) (a % 4 * 16 + b / 16) (omega arith) (omega arith),
        byte1_lem (a % 4 * 16 + b / 16) (b % 16 * 4) (omega arith) (omega arith),
      )
      (ap₂ ◌∷◌ (omega arith) (ap₂ ◌∷◌ (omega arith) refl))

quad_one : (a : ℕ) → IsByte a → quad (a / 4) (a % 4 * 16) 64 64 ≡ a ∷ []
quad_one a ha =
    rw (byte0_lem (a / 4) (a % 4 * 16) (omega arith) (omega arith)) (ap₂ ◌∷◌ (omega arith) refl)

pub decoded-b64_encode : (bs : Bytes) → All IsByte bs → decoded (b64_encode bs) ≡ bs
unfolding decoded b64_encode
decoded-b64_encode [] h = refl
decoded-b64_encode (a ∷ []) h =
    rw (b64_int-digit (a / 4) (omega arith), b64_int-digit (a % 4 * 16) (omega arith), int_pad)
      (ap (λ (q : Bytes). q ++ []) (quad_one a h.0))
decoded-b64_encode (a ∷ b ∷ []) h =
    rw
      (
        b64_int-digit (a / 4) (omega arith),
        b64_int-digit (a % 4 * 16 + b / 16) (omega arith),
        b64_int-digit (b % 16 * 4) (omega arith),
        int_pad,
      )
      (ap (λ (q : Bytes). q ++ []) (quad_two a b (h.0, h.1.0)))
decoded-b64_encode (a ∷ b ∷ c ∷ bs) h =
    rw
      (
        b64_int-digit (a / 4) (omega arith),
        b64_int-digit (a % 4 * 16 + b / 16) (omega arith),
        b64_int-digit (b % 16 * 4 + c / 64) (omega arith),
        b64_int-digit (c % 64) (omega arith),
      )
      (ap₂ ◌++◌ (quad_three a b c (h.0, h.1.0, h.1.1.0)) (decoded-b64_encode bs h.1.1.1))

-- `b64_decode` gives back every list of bytes from its Base64 encoding, in front of the old rest of
-- an output with room for three bytes to four characters.
pub b64_decode-b64_encode :
    (bs out : Bytes)
    → All IsByte bs
    → length (b64_encode bs) / 4 * 3 ≤ length out
    → b64_decode (b64_encode bs) out ≡ some (length bs, bs ++ drop (length bs) out)
b64_decode-b64_encode bs out h room =
    b64_decode-decoded (b64_encode bs) out room
    ∙ ap (λ (d : Bytes). some (length d, d ++ drop (length d) out)) (decoded-b64_encode bs h)
