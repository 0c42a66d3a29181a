-- ===== src/Key/Gen/Int.antt =====
-- Numbers come back from their decimal texts, which hold digits and a sign only.
use ximg.Prelude.{
  ℕ, zero, suc, ◌+◌, ◌-◌, ◌*◌, ◌/◌, ◌%◌, ◌^◌, ◌<◌, ◌≤◌, false, [], ◌∷◌, ◌++◌, Bytes, All, ltb, ◌==◌,
  if◌then◌else◌, ◌≡◌, refl, sym, ap, ◌∙◌, arith, Bool-cases, inl, inr, ltb→lt, All-append,
}
use native.Mathlib.Nat.{div-lt_iff_lt-mul}
use ximg.Prelude.Int.{ℤ, pos, negsuc, IsInt}
use ximg.Key.Gen.{digits, int_text}

abbrev pub IsDigit : ℕ → Type 0
IsDigit c = (48 ≤ c) × (c ≤ 57)

abbrev pub read : ℕ → Bytes → ℕ
read acc [] = acc
read acc (c ∷ s) = read (acc * 10 + (c - 48)) s

read-append : (acc : ℕ) (s : Bytes) (c : ℕ) → read acc (s ++ (c ∷ [])) ≡ read acc s * 10 + (c - 48)
read-append acc [] c = refl
read-append acc (x ∷ s) c = read-append (acc * 10 + (x - 48)) s c

pub read-digits : (fuel n : ℕ) → n < 10 ^ fuel → read 0 (digits fuel n) ≡ n
unfolding digits
read-digits zero n h = omega arith
read-digits (suc fuel) n h = elim (Bool-cases (ltb n 10)) [
  | inl small ↦ rw small (omega arith)
  | inr big ↦
      let less : n / 10 < 10 ^ fuel =
        (div-lt_iff_lt-mul {k = 10} (omega arith)).1 (omega (arith, h)) in
      rw big (
        read-append 0 (digits fuel (n / 10)) (48 + n % 10)
        ∙ omega (arith, read-digits fuel (n / 10) less))
]

pub digits-IsDigit : (fuel n : ℕ) → All IsDigit (digits fuel n)
unfolding digits
digits-IsDigit zero n = tt
digits-IsDigit (suc fuel) n = elim (Bool-cases (ltb n 10)) [
  | inl small ↦ rw small ((omega arith, omega (arith, ltb→lt n 10 small)), tt)
  | inr big ↦ rw big (
      All-append IsDigit (digits fuel (n / 10)) ((48 + n % 10) ∷ []) (digits-IsDigit fuel (n / 10))
        (omega arith))
]

-- The number that a text with an optional sign stands for.
abbrev read_int : Bytes → ℤ
read_int [] = pos 0
read_int (c ∷ s) = if c == b'-' then negsuc (read 0 s - 1) else pos (read 0 (c ∷ s))

read_int-IsDigit : (s : Bytes) → All IsDigit s → read_int s ≡ pos (read 0 s)
read_int-IsDigit [] h = refl
read_int-IsDigit (c ∷ s) h = let e : (c == b'-') ≡ false = ground (arith, h.0) in rw e

pub read_int-int_text : (a : ℤ) → IsInt a → read_int (int_text a) ≡ a
unfolding int_text
read_int-int_text (pos n) h =
    read_int-IsDigit (digits 10 n) (digits-IsDigit 10 n)
    ∙ ap pos (read-digits 10 n (omega (arith, h.0)))
read_int-int_text (negsuc n) h =
    ap (λ (x : ℕ). negsuc (x - 1)) (read-digits 10 (suc n) (omega (arith, h.1)))
    ∙ ap negsuc (omega arith)

pub int_text_injective : (a b : ℤ) → IsInt a → IsInt b → int_text a ≡ int_text b → a ≡ b
int_text_injective a b ha hb e =
    sym (read_int-int_text a ha) ∙ ap read_int e ∙ read_int-int_text b hb

no_colon : (s : Bytes) → All IsDigit s → All (λ c. (c == b':') ≡ false) s
no_colon [] h = tt
no_colon (c ∷ s) h = (ground (arith, h.0), no_colon s h.1)

-- No colon in a number's text.
pub NoColon-int_text : (a : ℤ) → All (λ c. (c == b':') ≡ false) (int_text a)
unfolding int_text
NoColon-int_text (pos n) = no_colon (digits 10 n) (digits-IsDigit 10 n)
NoColon-int_text (negsuc n) = (refl, no_colon (digits 10 (suc n)) (digits-IsDigit 10 (suc n)))
