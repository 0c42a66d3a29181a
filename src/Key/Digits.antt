-- ===== src/Key/Digits.antt =====
-- The text of a digest is a valid key, and its directories are numbers read from the digest.
use ximg.Prelude.{
  ℕ, zero, suc, ◌+◌, ◌*◌, ◌/◌, ◌%◌, ◌<◌, ◌≤◌, true, ◌&&◌, [], ◌∷◌, Bytes, length, drop, get_or, All,
  ◌==◌, ◌≡◌, refl, ◌∙◌, arith, ==_iff, bit_and,
}
use ximg.Prelude.Bits.{◌>>>◌, all_below, all_below_sound}
use ximg.Prelude.Masks.{bit_and-15}
use ximg.Key.{nibble_char, md5sum, is_key_char, key_prefix, is_md5, strtol16, str_hash}
use ximg.Text.{str_lcpy}
use ximg.UrlDecode.RoundTrip.{IsByte}
use ximg.UrlDecode.{isxdigit, xdigit_value}

nibble_table :
    all_below 16 (λ h.
      is_key_char (nibble_char h)
      && (isxdigit (nibble_char h) && xdigit_value (nibble_char h) == h))
    ≡ true
unfolding all_below isxdigit xdigit_value
nibble_table = refl

record IsNibble (h : ℕ) : Type 0 where
  key : is_key_char (nibble_char h) ≡ true
  hex : isxdigit (nibble_char h) ≡ true
  value : xdigit_value (nibble_char h) ≡ h

nibble : (h : ℕ) → h < 16 → IsNibble h
nibble h lt = ground (arith, all_below_sound 16 _ h nibble_table lt)

high_table : all_below 256 (λ v. (bit_and v 0xf0 >>> 4) == v / 16) ≡ true
unfolding all_below
high_table = refl

high_nibble : (v : ℕ) → IsByte v → bit_and v 0xf0 >>> 4 ≡ v / 16
high_nibble v h = (==_iff _ (v / 16)).0 (all_below_sound 256 _ v high_table h)

-- The text of one byte.
md5sum-cons :
    (v : ℕ) (vs : Bytes)
    → IsByte v
    → md5sum (v ∷ vs) ≡ nibble_char (v / 16) ∷ nibble_char (v % 16) ∷ md5sum vs
unfolding md5sum
md5sum-cons v vs h = rw (high_nibble v h, bit_and-15 v)

key_prefix-md5sum : (vs : Bytes) → All IsByte vs → key_prefix (md5sum vs) ≡ 2 * length vs
unfolding key_prefix
key_prefix-md5sum [] h = unfold md5sum in refl
key_prefix-md5sum (v ∷ vs) h =
    rw
      (
        md5sum-cons v vs h.0,
        (nibble (v / 16) (omega arith)).key,
        (nibble (v % 16) (omega arith)).key,
      )
      (omega (arith, key_prefix-md5sum vs h.1))

length-md5sum : (vs : Bytes) → length (md5sum vs) ≡ 2 * length vs
unfolding md5sum
length-md5sum [] = refl
length-md5sum (v ∷ vs) = omega (arith, length-md5sum vs)

get_or_end : (s : Bytes) (i : ℕ) → length s ≤ i → get_or s i 0 ≡ 0
get_or_end [] i h = refl
get_or_end (c ∷ s) zero h = absurd (omega arith)
get_or_end (c ∷ s) (suc i) h = get_or_end s i (omega arith)

strtol_three :
    (x y z : ℕ) (s : Bytes)
    → x < 16
    → y < 16
    → z < 16
    → str_hash (nibble_char x ∷ nibble_char y ∷ nibble_char z ∷ s) ≡ (x * 256 + y * 16 + z) / 4
unfolding str_hash strtol16 str_lcpy
strtol_three x y z s hx hy hz =
    let nx = nibble x hx in
    let ny = nibble y hy in
    let nz = nibble z hz in rw (nx.hex, ny.hex, nz.hex, nx.value, ny.value, nz.value) (omega arith)

-- For a digest of 16 bytes that begins with `a`, `b` and `c`, the text of 32 characters passes
-- `is_md5`, and the two directory numbers, both below 1024, are the first ten bits of the digest
-- and the ten bits behind its first twelve.
pub md5sum-is_md5 :
    (a b c : ℕ) (vs : Bytes)
    → All IsByte (a ∷ b ∷ c ∷ vs)
    → length vs ≡ 13
    → (is_md5 (md5sum (a ∷ b ∷ c ∷ vs)) ≡ true)
      × (str_hash (md5sum (a ∷ b ∷ c ∷ vs)) ≡ a * 4 + b / 64)
      × (str_hash (drop 3 (md5sum (a ∷ b ∷ c ∷ vs))) ≡ b % 16 * 64 + c / 4)
      × (a * 4 + b / 64 < 1024)
      × (b % 16 * 64 + c / 4 < 1024)
md5sum-is_md5 a b c vs h len = (
  valid,
  rw (md5sum-cons a (b ∷ c ∷ vs) h.0, md5sum-cons b (c ∷ vs) h.1.0)
      (strtol_three (a / 16) (a % 16) (b / 16) _ (omega arith) (omega arith) (omega arith)
        ∙ omega arith),
  rw (md5sum-cons a (b ∷ c ∷ vs) h.0, md5sum-cons b (c ∷ vs) h.1.0, md5sum-cons c vs h.1.1.0)
      (strtol_three (b % 16) (c / 16) (c % 16) _ (omega arith) (omega arith) (omega arith)
        ∙ omega arith),
  omega arith,
  omega arith,
)
  where
    valid : is_md5 (md5sum (a ∷ b ∷ c ∷ vs)) ≡ true
    valid =
        let text = md5sum (a ∷ b ∷ c ∷ vs) in
        let n : key_prefix text ≡ 32 = omega (arith, key_prefix-md5sum (a ∷ b ∷ c ∷ vs) h) in
        let size : length text ≤ 32 = omega (arith, length-md5sum (a ∷ b ∷ c ∷ vs)) in
        unfold is_md5 in rw (n, get_or_end text 32 size)
