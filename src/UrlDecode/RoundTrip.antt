-- ===== src/UrlDecode/RoundTrip.antt =====
-- `url_decode` undoes percent encoding, whichever bytes the encoder keeps.
use ximg.Prelude.{
  ℕ, ◌/◌, ◌%◌, ◌<◌, ◌≤◌, Bool, true, false, ◌&&◌, [], ◌∷◌, ◌++◌, some, ◌==◌, if◌then◌else◌, length,
  drop, Bytes, ◌≡◌, refl, ap, ◌∙◌, arith, get_or, All, ==_iff, codes, Bool-cases, inl, inr,
}
use ximg.Prelude.Bits.{all_below, all_below_sound}
use ximg.UrlDecode.{isxdigit, xdigit_value, url_decode}
use ximg.UrlDecode.Bounds.{unescaped, url_decode-unescaped}

abbrev pub IsByte : ℕ → Type 0
IsByte b = b < 256

abbrev hex_digit : ℕ → ℕ
hex_digit i = get_or (codes "0123456789ABCDEF") i 0

-- The bytes that `keep` accepts stand for themselves, and any other is `%` and two digits.
unfoldable pub url_encode : (ℕ → Bool) → Bytes → Bytes
url_encode keep [] = []
url_encode keep (b ∷ bs) =
    let rest = url_encode keep bs in
    if keep b then b ∷ rest else b'%' ∷ hex_digit (b / 16) ∷ hex_digit (b % 16) ∷ rest

hex_table :
    all_below 16 (λ i.
      isxdigit (hex_digit i)
      && (xdigit_value (hex_digit i) == i && (if hex_digit i == 0 then false else true)))
    ≡ true
unfolding all_below isxdigit xdigit_value
hex_table = refl

hex_digit_lem :
    (i : ℕ)
    → i < 16
    → (isxdigit (hex_digit i) ≡ true)
      × (xdigit_value (hex_digit i) ≡ i)
      × ((hex_digit i == 0) ≡ false)
hex_digit_lem i h = ground (arith, all_below_sound 16 _ i hex_table h)

unescaped-copy : (c : ℕ) (cs : Bytes) → (c == b'%') ≡ false → unescaped (c ∷ cs) ≡ c ∷ unescaped cs
unfolding unescaped
unescaped-copy c [] e = refl
unescaped-copy c (h ∷ []) e = rw e
unescaped-copy c (h ∷ l ∷ rest) e = rw e

unescaped-escape :
    (b : ℕ) (rest : Bytes)
    → IsByte b
    → unescaped (b'%' ∷ hex_digit (b / 16) ∷ hex_digit (b % 16) ∷ rest) ≡ b ∷ unescaped rest
unfolding unescaped
unescaped-escape b rest h =
    let hi = hex_digit_lem (b / 16) (omega arith) in
    let lo = hex_digit_lem (b % 16) (omega arith) in
    rw (hi.2, hi.0, lo.0, hi.1, lo.1) (ap (λ (x : ℕ). x ∷ unescaped rest) (omega arith))

pub unescaped-url_encode :
    (keep : ℕ → Bool) (bs : Bytes)
    → keep b'%' ≡ false
    → All IsByte bs
    → unescaped (url_encode keep bs) ≡ bs
unfolding unescaped url_encode
unescaped-url_encode keep [] k h = refl
unescaped-url_encode keep (b ∷ bs) k h = elim (Bool-cases (keep b)) [
  | inl e ↦
      let ne : (b == b'%') ≡ false = elim (Bool-cases (b == b'%')) [
        | inl same ↦ absurd (cc (ap keep ((==_iff b b'%').0 same)))
        | inr n ↦ n
      ] in
      rw e
        (unescaped-copy b (url_encode keep bs) ne ∙ ap (◌∷◌ b) (unescaped-url_encode keep bs k h.1))
  | inr e ↦ rw e (
      unescaped-escape b (url_encode keep bs) h.0 ∙ ap (◌∷◌ b) (unescaped-url_encode keep bs k h.1))
]

-- Every list of bytes comes back from its percent encoding, in front of the old rest of a
-- destination as long as the encoded text, if the encoder does not keep the percent sign.
pub url_decode-url_encode :
    (keep : ℕ → Bool) (bs dest : Bytes)
    → keep b'%' ≡ false
    → All IsByte bs
    → length (url_encode keep bs) ≤ length dest
    → url_decode (url_encode keep bs) dest ≡ some (length bs, bs ++ drop (length bs) dest)
url_decode-url_encode keep bs dest k h room =
    (url_decode-unescaped (url_encode keep bs) dest room).0
    ∙ ap (λ (d : Bytes). some (length d, d ++ drop (length d) dest))
        (unescaped-url_encode keep bs k h)
