-- ===== src/Text/Search.antt =====
-- `strnstr` finds the first occurrence that lies within its length.
use ximg.Prelude.{
  ℕ, zero, suc, ◌+◌, ◌<◌, ◌≤◌, true, false, [], ◌∷◌, Bytes, length, drop, Option, none, some, ltb,
  ◌==◌, ◌≡◌, refl, subst, arith, Bool-cases, inl, inr, ltb→lt,
}
use ximg.Text.{starts_with, strnstr_loop, strnstr}

-- The result of a search for `find` in the first `slen` bytes of `s`.
abbrev pub IsFirst : Bytes → Bytes → ℕ → Option ℕ → Type 0
IsFirst s find slen none = (j : ℕ) → j + length find ≤ slen → starts_with (drop j s) find ≡ false
IsFirst s find slen (some i) =
    (i + length find ≤ slen)
    × (starts_with (drop i s) find ≡ true)
    × ((j : ℕ) → j < i → starts_with (drop j s) find ≡ false)

-- The same, counted from the index `base` of `s`.
abbrev IsFirstFrom : ℕ → Bytes → Bytes → ℕ → Option ℕ → Type 0
IsFirstFrom base s find slen none = IsFirst s find slen none
IsFirstFrom base s find slen (some i) = (k : ℕ) × (i ≡ base + k) × IsFirst s find slen (some k)

not_here :
    (c : ℕ) (find : Bytes) (sc : ℕ) (s : Bytes) (slen i : ℕ) (r : Option ℕ)
    → starts_with (sc ∷ s) (c ∷ find) ≡ false
    → IsFirstFrom (i + 1) s (c ∷ find) slen r
    → IsFirstFrom i (sc ∷ s) (c ∷ find) (suc slen) r
not_here c find sc s slen i none e h = λ j room. at j room
  where
    at :
        (j : ℕ)
        → j + suc (length find) ≤ suc slen
        → starts_with (drop j (sc ∷ s)) (c ∷ find) ≡ false
    at zero room = e
    at (suc j) room = h j (omega arith)
not_here c find sc s slen i (some x) e (k, place, (room, found, before)) =
    (suc k, omega arith, (omega arith, found, earlier))
  where
    earlier : (j : ℕ) → j < suc k → starts_with (drop j (sc ∷ s)) (c ∷ find) ≡ false
    earlier zero lt = e
    earlier (suc j) lt = before j (omega arith)

starts_with-nil : (j c : ℕ) (find : Bytes) → starts_with (drop j []) (c ∷ find) ≡ false
unfolding starts_with
starts_with-nil zero c find = refl
starts_with-nil (suc j) c find = refl

strnstr_loop-IsFirstFrom :
    (c : ℕ) (find s : Bytes) (slen i : ℕ)
    → IsFirstFrom i s (c ∷ find) slen (strnstr_loop c find s slen i)
unfolding strnstr_loop
strnstr_loop-IsFirstFrom c find [] slen i = λ j room. starts_with-nil j c find
strnstr_loop-IsFirstFrom c find (sc ∷ s) zero i = λ j room. absurd (omega arith)
strnstr_loop-IsFirstFrom c find (sc ∷ s) (suc slen) i =
    let later = strnstr_loop-IsFirstFrom c find s slen (i + 1) in
    elim (Bool-cases (sc == c)) [
      | inl same ↦ rw same (elim (Bool-cases (ltb slen (length find))) [
        | inl short ↦ rw short (λ j room. absurd (omega (arith, ltb→lt slen (length find) short)))
        | inr long ↦ rw long (elim (Bool-cases (starts_with s find)) [
          | inl found ↦
              rw found
                (0, omega arith, (ground arith, rw (same, found), λ j lt. absurd (omega arith)))
          | inr other ↦ rw other (not_here c find sc s slen i _ (rw (same, other)) later)
        ])
      ])
      | inr differs ↦ rw differs (not_here c find sc s slen i _ (rw differs) later)
    ]

from_start :
    (s : Bytes) (find : Bytes) (slen : ℕ) (r : Option ℕ)
    → IsFirstFrom 0 s find slen r
    → IsFirst s find slen r
from_start s find slen none h = h
from_start s find slen (some i) (k, e, found) =
    let same : k ≡ i = omega arith in subst (λ (x : ℕ). IsFirst s find slen (some x)) same found

-- The result of `strnstr` is the first place where the text is found within `slen` bytes, and no
-- place if the text is nowhere within them.
pub strnstr-IsFirst :
    (s : Bytes) (find : Bytes) (slen : ℕ) → IsFirst s find slen (strnstr s find slen)
unfolding strnstr
strnstr-IsFirst s [] slen = (omega arith, refl, λ j lt. absurd (omega arith))
strnstr-IsFirst s (c ∷ find) slen =
    from_start s (c ∷ find) slen (strnstr_loop c find s slen 0)
      (strnstr_loop-IsFirstFrom c find s slen 0)
