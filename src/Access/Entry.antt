-- ===== src/Access/Entry.antt =====
-- One entry of the rules' text: where it ends, and the rule that is read from it.
use ximg.Prelude.{
  ℕ, zero, suc, ◌+◌, ◌-◌, ◌<◌, ◌≤◌, Bool, false, List, [], ◌∷◌, ◌++◌, Bytes, length, drop, get_or,
  Option, none, some, ◌==◌, if◌then◌else◌, codes, ◌≡◌, refl, ap, ◌∙◌, arith, Bool-cases,
  Option-cases, inl, inr, take-append_self, drop-append_self, drop-append_le, length-drop, ==_iff,
}
use ximg.Prelude.Memory.{◌>>=◌}
use ximg.Text.{starts_with}
use ximg.Access.{Rule, zimg_strlchr, zimg_inet_addr, stor, range_rule, strchr_from, entry_rule}

-- The texts between the semicolons.
abbrev cons_first : ℕ → List Bytes → List Bytes
cons_first c [] = (c ∷ []) ∷ []
cons_first c (e ∷ es) = (c ∷ e) ∷ es

abbrev pub entries : Bytes → List Bytes
entries [] = [] ∷ []
entries (c ∷ s) = let rest = entries s in if c == b';' then [] ∷ rest else cons_first c rest

-- The rule that an entry stands for: `all`, or a network, behind the first blank; the entry denies
-- if it begins with a `d`.
unfoldable pub rule_of : Bytes → Option Rule
rule_of e = do
  space ← zimg_strlchr e b' '
  let rule : Rule = record { mask = 0; addr = 0; deny = get_or e 0 0 == b'd' }
  let range = drop (space + 1) e
  range_rule range (starts_with range (codes "all")) rule

-- The first entry of a text and what is behind its semicolon.
pub data Cut (s : Bytes) : Type 0 where
  last : zimg_strlchr s b';' ≡ none → entries s ≡ s ∷ [] → Cut s
  more :
      (e s' : Bytes)
      → s ≡ e ++ (b';' ∷ s')
      → zimg_strlchr s b';' ≡ some (length e)
      → entries s ≡ e ∷ entries s'
      → Cut s

Cut-next : (c : ℕ) (s : Bytes) → (c == b';') ≡ false → Cut s → Cut (c ∷ s)
unfolding zimg_strlchr
Cut-next c s n (last none_in es) = last (rw (n, none_in)) (rw (n, es))
Cut-next c s n (more e s' split found es) =
    more (c ∷ e) s' (ap (◌∷◌ c) split) (rw (n, found) (ap some (omega arith))) (rw (n, es))

pub cut : (s : Bytes) → Cut s
unfolding zimg_strlchr
cut [] = last refl refl
cut (c ∷ s) = elim (Bool-cases (c == b';')) [
  | inl e ↦ more [] s (ap (λ (x : ℕ). x ∷ s) ((==_iff c b';').0 e)) (rw e) (rw e)
  | inr n ↦ Cut-next c s n (cut s)
]

-- A character found in a text is found at the same place of a longer text.
strlchr_longer :
    (e rest : Bytes) (c i : ℕ)
    → zimg_strlchr e c ≡ some i
    → (zimg_strlchr (e ++ rest) c ≡ some i) × (i < length e)
unfolding zimg_strlchr
strlchr_longer [] rest c i h = cc
strlchr_longer (x ∷ e) rest c i h = elim (Bool-cases (x == c)) [
  | inl same ↦ rw same (ground arith)
  | inr n ↦ elim (Option-cases (zimg_strlchr e c)) [
    | inl none_in ↦ ground arith
    | inr (k, found) ↦
        let (there, lt) = strlchr_longer e rest c k found in rw (n, there) (ground arith)
  ]
]

-- A character that is not in a text is found behind it only.
strlchr_behind :
    (e rest : Bytes) (c i : ℕ)
    → zimg_strlchr e c ≡ none
    → zimg_strlchr (e ++ rest) c ≡ some i
    → length e ≤ i
unfolding zimg_strlchr
strlchr_behind [] rest c i h found = omega arith
strlchr_behind (x ∷ e) rest c i h found = elim (Option-cases (zimg_strlchr e c)) [
  | inl none_in ↦ elim (Option-cases (zimg_strlchr (e ++ rest) c)) [
    | inl no_more ↦ ground arith
    | inr (k, at) ↦ ground (arith, strlchr_behind e rest c k none_in at)
  ]
  | inr (k, at) ↦ ground arith
]

drop_into : (pre ys : Bytes) (m n : ℕ) → m ≡ length pre + n → drop m (pre ++ ys) ≡ drop n ys
drop_into [] ys m n h = let e : m ≡ n = omega arith in rw e
drop_into (p ∷ pre) ys zero n h = absurd (omega arith)
drop_into (p ∷ pre) ys (suc m) n h = drop_into pre ys m n (omega arith)

get_or_into : (pre ys : Bytes) → get_or (pre ++ ys) (length pre) 0 ≡ get_or ys 0 0
get_or_into [] ys = refl
get_or_into (p ∷ pre) ys = get_or_into pre ys

starts_with_longer :
    (x rest f : Bytes) → length f ≤ length x → starts_with (x ++ rest) f ≡ starts_with x f
unfolding starts_with
starts_with_longer [] rest [] h = refl
starts_with_longer (c ∷ x) rest [] h = refl
starts_with_longer [] rest (g ∷ f) h = absurd (omega arith)
starts_with_longer (c ∷ x) rest (g ∷ f) h = rw (starts_with_longer x rest f (omega arith))

range_rule-nil : (is_all : Bool) (rule : Rule) → range_rule [] is_all rule ≡ none
unfolding range_rule stor zimg_inet_addr zimg_strlchr
range_rule-nil is_all rule = refl

-- The flag counts only where the range has three bytes.
range_rule_longer :
    (range rest f : Bytes) (rule : Rule)
    → length f ≡ 3
    → range_rule range (starts_with (range ++ rest) f) rule
      ≡ range_rule range (starts_with range f) rule
unfolding range_rule
range_rule_longer range rest f rule len = elim (Bool-cases (length range == 3)) [
  | inl three ↦ rw (three, starts_with_longer range rest f (ground arith))
  | inr other ↦ rw other
]

module _ (pre e rest : Bytes) where
  abbrev pub mem : Bytes
  mem = pre ++ (e ++ rest)

  abbrev shifted : Option ℕ → Option ℕ
  shifted found = elim found [ none ↦ none | some i ↦ some (length pre + i) ]

  strchr_from-pre : (c : ℕ) → strchr_from mem (length pre) c ≡ shifted (zimg_strlchr (e ++ rest) c)
  strchr_from-pre c =
      ap (λ (m : Bytes). shifted (zimg_strlchr m c))
        (drop-append_self (length pre) pre (e ++ rest) refl)

  first_byte : (i : ℕ) → i < length e → get_or mem (length pre) 0 ≡ get_or e 0 0
  first_byte i h = get_or_into pre (e ++ rest) ∙ nonempty e h
    where
      nonempty : (x : Bytes) → i < length x → get_or (x ++ rest) 0 0 ≡ get_or x 0 0
      nonempty [] h = absurd (omega arith)
      nonempty (b ∷ x) h = refl

  -- A blank within the entry.
  entry_rule_blank :
      (i : ℕ)
      → zimg_strlchr e b' ' ≡ some i
      → entry_rule mem (length pre) (length pre + length e) ≡ rule_of e
  unfolding entry_rule rule_of
  entry_rule_blank i found =
      let (there, lt) = strlchr_longer e rest b' ' i found in
      let range = drop (i + 1) e in
      let behind : drop (length pre + i + 1) mem ≡ range ++ rest =
        drop_into pre (e ++ rest) _ (i + 1) (omega arith)
        ∙ drop-append_le (i + 1) e rest (omega arith) in
      let size : length pre + length e - (length pre + i + 1) ≡ length range =
        omega (arith, length-drop (i + 1) e) in
      let at : strchr_from mem (length pre) b' ' ≡ some (length pre + i) =
        strchr_from-pre b' ' ∙ ap shifted there in
      rw (at, behind, size, take-append_self (length range) range rest refl, first_byte i lt, found)
        (range_rule_longer range rest (codes "all") _ refl)

  -- No blank within it: one found behind it leaves an empty range.
  entry_rule_no_blank :
      zimg_strlchr e b' ' ≡ none → entry_rule mem (length pre) (length pre + length e) ≡ rule_of e
  unfolding entry_rule rule_of
  entry_rule_no_blank none_in = elim (Option-cases (zimg_strlchr (e ++ rest) b' ')) [
    | inl nowhere ↦
        let at : strchr_from mem (length pre) b' ' ≡ none =
          strchr_from-pre b' ' ∙ ap shifted nowhere in
        rw (at, none_in)
    | inr (i, found) ↦
        let at : strchr_from mem (length pre) b' ' ≡ some (length pre + i) =
          strchr_from-pre b' ' ∙ ap shifted found in
        let size : length pre + length e - (length pre + i + 1) ≡ 0 =
          omega (arith, strlchr_behind e rest b' ' i none_in found) in
        rw (at, size, none_in) (range_rule-nil _ _)
  ]

  -- An entry is read as it would be alone, whatever stands in front of it and behind.
  pub entry_rule-rule_of : entry_rule mem (length pre) (length pre + length e) ≡ rule_of e
  entry_rule-rule_of = elim (Option-cases (zimg_strlchr e b' ')) [
    | inl none_in ↦ entry_rule_no_blank none_in
    | inr (i, found) ↦ entry_rule_blank i found
  ]
