-- ===== src/Access/Decision.antt =====
-- `zimg_access_inet` on the rules of a text: which entry decides.
use mathlib.Core.List.{filter_map, reverse, reverse_aux}
use ximg.Prelude.{
  ℕ, ◌≤◌, Bool, false, List, [], ◌∷◌, Bytes, length, Option, none, some, ◌==◌, if◌then◌else◌,
  bit_and, ◌≡◌, refl, ◌∙◌, arith, Bool-cases, Option-cases, inl, inr,
}
use ximg.Access.{
  Rule, AccessConf, Verdict, ok, forbidden, access_loop, zimg_access_inet, conf_get_rules,
}
use ximg.Access.Entry.{entries, rule_of}
use ximg.Access.Config.{conf_get_rules-entries}

abbrev pub covers : Rule → ℕ → Bool
covers r addr = bit_and addr r.mask == r.addr

abbrev pub verdict : Rule → Verdict
verdict r = if r.deny then forbidden else ok

-- The last rule of a list that covers an address.
abbrev pub last_covering : List Rule → ℕ → Option Rule
last_covering [] addr = none
last_covering (r ∷ rs) addr = elim (last_covering rs addr) [
  | some q ↦ some q
  | none ↦ if covers r addr then some r else none
]

-- With no rule all is allowed; else the last rule that covers the address decides, and an address
-- that no rule covers is refused.
abbrev pub decision : List Rule → ℕ → Verdict
decision [] addr = ok
decision (r ∷ rs) addr = elim (last_covering (r ∷ rs) addr) [
  | some q ↦ verdict q
  | none ↦ forbidden
]

abbrev or_else : Option Rule → Verdict → Verdict
or_else (some q) v = verdict q
or_else none v = v

access_loop-reverse_aux :
    (rs acc : List Rule) (addr : ℕ)
    → access_loop (reverse_aux rs acc) addr ≡ or_else (last_covering rs addr) (access_loop acc addr)
unfolding access_loop
access_loop-reverse_aux [] acc addr = refl
access_loop-reverse_aux (r ∷ rs) acc addr =
    access_loop-reverse_aux rs (r ∷ acc) addr ∙ elim (Option-cases (last_covering rs addr)) [
      | inl none_of ↦ rw none_of (elim (Bool-cases (covers r addr)) [ inl e ↦ rw e | inr e ↦ rw e ])
      | inr (q, found) ↦ rw found
    ]

length-reverse_aux : (rs acc : List Rule) → length acc ≤ length (reverse_aux rs acc)
length-reverse_aux [] acc = omega arith
length-reverse_aux (r ∷ rs) acc = omega (arith, length-reverse_aux rs (r ∷ acc))

access-decision :
    (rs : List Rule) (conf : AccessConf) (addr : ℕ)
    → conf.rules ≡ reverse rs
    → zimg_access_inet conf addr ≡ decision rs addr
unfolding zimg_access_inet
access-decision [] conf addr e = rw e
access-decision (r ∷ rs) conf addr e =
    let some_in : (length (reverse_aux rs (r ∷ [])) == 0) ≡ false =
      ground (arith, length-reverse_aux rs (r ∷ [])) in
    rw (e, some_in)
      (access_loop-reverse_aux (r ∷ rs) [] addr
        ∙ unfold access_loop in by_option (last_covering (r ∷ rs) addr))
  where
    by_option :
        (o : Option Rule) → or_else o forbidden ≡ (elim o [ some q ↦ verdict q | none ↦ forbidden ])
    by_option none = refl
    by_option (some q) = refl

-- Where a NUL follows the copied text of the configuration in memory, the decision is that of its readable
-- entries: the last one that covers the address decides by its mode; with no readable entry every
-- address is allowed, and with some, one that none covers is refused.
pub conf_access-decision :
    (acc_str : Bytes) (addr : ℕ)
    → (conf : AccessConf) × (conf_get_rules acc_str [] ≡ some conf)
      × (zimg_access_inet conf addr ≡ decision (filter_map rule_of (entries acc_str)) addr)
conf_access-decision acc_str addr =
    let (conf, e, rules) = conf_get_rules-entries acc_str in
    (conf, e, access-decision (filter_map rule_of (entries acc_str)) conf addr rules)
