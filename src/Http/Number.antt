-- ===== src/Http/Number.antt =====
-- `atoi` gives back every `int` from its decimal text.
use ximg.Prelude.{
  ℕ, suc, ◌+◌, ◌-◌, ◌*◌, ◌%◌, ◌^◌, ◌<◌, min, true, false, [], ◌∷◌, Bytes, All, ltb, ◌==◌, ◌≡◌, refl,
  ap, ◌∙◌, arith,
}
use ximg.Prelude.Int.{ℤ, pos, negsuc, IsInt}
use ximg.Access.{is_digit}
use ximg.Http.{atoi, signed, leading, skip_blanks, is_blank, int_of_pos, int_of_neg}
use ximg.Key.Gen.{digits, int_text}
use ximg.Key.Gen.Int.{IsDigit, read, digits-IsDigit, read-digits}

leading-read : (acc : ℕ) (s : Bytes) → All IsDigit s → leading acc s ≡ read acc s
unfolding leading
leading-read acc [] h = refl
leading-read acc (c ∷ s) h =
    let e : is_digit c ≡ true = ground (arith, h.0) in
    rw e (leading-read (acc * 10 + (c - 48)) s h.1)

skip_blanks-IsDigit : (s : Bytes) → All IsDigit s → skip_blanks s ≡ s
unfolding skip_blanks
skip_blanks-IsDigit [] h = refl
skip_blanks-IsDigit (c ∷ s) h = let e : is_blank c ≡ false = ground (arith, h.0) in rw e refl

pub int_of_pos_lem : (n : ℕ) → n < 2 ^ 31 → int_of_pos n ≡ pos n
unfolding int_of_pos
int_of_pos_lem n h =
    let same : n % 2 ^ 32 ≡ n = omega (arith, h) in
    let small : ltb n (2 ^ 31) ≡ true = ground (arith, h) in rw (same, small) refl

int_of_neg_lem : (n : ℕ) → n < 2 ^ 31 → int_of_neg (suc n) ≡ negsuc n
unfolding int_of_neg int_of_pos
int_of_neg_lem n h =
    let wrapped : (2 ^ 32 - suc n % 2 ^ 32) % 2 ^ 32 ≡ 2 ^ 32 - 1 - n = omega (arith, h) in
    let large : ltb (2 ^ 32 - 1 - n) (2 ^ 31) ≡ false = ground (arith, h) in
    let back : 2 ^ 32 - 1 - (2 ^ 32 - 1 - n) ≡ n = omega (arith, h) in
    rw (int_of_neg, int_of_pos, wrapped, large, back) refl

signed-IsDigit : (s : Bytes) → All IsDigit s → read 0 s < 2 ^ 31 → signed s ≡ pos (read 0 s)
unfolding signed
signed-IsDigit [] h less = refl
signed-IsDigit (c ∷ s) h less =
    let no_minus : (c == b'-') ≡ false = ground (arith, h.0) in
    let no_plus : (c == b'+') ≡ false = ground (arith, h.0) in
    let whole : min (leading 0 (c ∷ s)) (2 ^ 63 - 1) ≡ read 0 (c ∷ s) =
      omega (arith, leading-read 0 (c ∷ s) h, less) in
    rw (no_minus, no_plus, whole) (int_of_pos_lem (read 0 (c ∷ s)) less)

-- Every `int` is read back from its decimal text.
pub atoi-int_text : (n : ℤ) → IsInt n → atoi (int_text n) ≡ n
unfolding atoi int_text
atoi-int_text (pos n) h =
    let number : read 0 (digits 10 n) ≡ n = read-digits 10 n (omega (arith, h.0)) in
    let ds = digits-IsDigit 10 n in
    ap signed (skip_blanks-IsDigit (digits 10 n) ds)
    ∙ signed-IsDigit (digits 10 n) ds (omega (arith, number, h.0))
    ∙ ap pos number
atoi-int_text (negsuc n) h =
    let number : read 0 (digits 10 (suc n)) ≡ suc n = read-digits 10 (suc n) (omega (arith, h.1)) in
    let start : skip_blanks (b'-' ∷ digits 10 (suc n)) ≡ b'-' ∷ digits 10 (suc n) =
      unfold skip_blanks in refl in
    let whole : min (leading 0 (digits 10 (suc n))) (2 ^ 63) ≡ suc n =
      omega (arith, leading-read 0 (digits 10 (suc n)) (digits-IsDigit 10 (suc n)), number, h.1) in
    ap signed start ∙ (unfold signed in ap int_of_neg whole) ∙ int_of_neg_lem n (omega (arith, h.1))
