-- ===== src/Access/Config.antt =====
-- `conf_get_rules` against a reading of the text that splits it at `;` first.
use mathlib.Core.List.{
  filter_map, filter_map-cons-none, filter_map-cons-some, reverse, reverse_aux, reverse_aux-eq,
}
use ximg.Prelude.{
  ℕ, zero, suc, ◌+◌, ◌<◌, ◌≤◌, true, false, List, [], ◌∷◌, ◌++◌, Bytes, length, Option, none, some,
  leb, ◌≡◌, refl, sym, ap, ◌∙◌, arith, Option-cases, inl, inr, append-nil, append_assoc,
  length-append, drop-append_self,
}
use ximg.Access.{
  Rule, AccessConf, zimg_strlchr, strchr_from, entry_rule, add_rule, rules_loop, conf_get_rules,
}
use ximg.Access.Entry.{entries, rule_of, last, more, cut, entry_rule-rule_of}

abbrev add_all : AccessConf → List Bytes → AccessConf
add_all conf [] = conf
add_all conf (e ∷ es) = add_all (add_rule conf (rule_of e)) es

abbrev pub stop_of : Option ℕ → ℕ → ℕ
stop_of found acc_len = elim found [ none ↦ acc_len | some i ↦ i ]

abbrev placed : ℕ → Option ℕ → Option ℕ
placed k found = elim found [ none ↦ none | some i ↦ some (k + i) ]

-- One round of the loop within the text.
rules_loop-suc :
    (fuel : ℕ) (mem : Bytes) (acc_len start stop : ℕ) (conf : AccessConf)
    → start ≤ acc_len
    → stop_of (strchr_from mem start b';') acc_len ≡ stop
    → rules_loop (suc fuel) mem acc_len start conf
      ≡ rules_loop fuel mem acc_len (stop + 1) (add_rule conf (entry_rule mem start stop))
unfolding rules_loop
rules_loop-suc fuel mem acc_len start stop conf h e =
    let within : leb start acc_len ≡ true = ground arith in
    rw within (
      ap (λ (s : ℕ). rules_loop fuel mem acc_len (s + 1) (add_rule conf (entry_rule mem start s)))
        e)

rules_loop-past :
    (fuel : ℕ) (mem : Bytes) (acc_len : ℕ) (conf : AccessConf)
    → rules_loop (suc fuel) mem acc_len (acc_len + 1) conf ≡ some conf
unfolding rules_loop
rules_loop-past fuel mem acc_len conf =
    let past : leb (acc_len + 1) acc_len ≡ false = ground arith in rw past

-- Where the entry at the end of `pre` stops.
pub stop_at :
    (pre s : Bytes) (found : Option ℕ) (acc_len : ℕ)
    → zimg_strlchr s b';' ≡ found
    → stop_of (strchr_from (pre ++ s) (length pre) b';') acc_len
      ≡ (elim found [ none ↦ acc_len | some i ↦ length pre + i ])
stop_at pre s none acc_len e =
    ap (λ (m : Bytes). stop_of (placed (length pre) (zimg_strlchr m b';')) acc_len)
      (drop-append_self (length pre) pre s refl)
    ∙ ap (λ (o : Option ℕ). stop_of (placed (length pre) o) acc_len) e
stop_at pre s (some i) acc_len e =
    ap (λ (m : Bytes). stop_of (placed (length pre) (zimg_strlchr m b';')) acc_len)
      (drop-append_self (length pre) pre s refl)
    ∙ ap (λ (o : Option ℕ). stop_of (placed (length pre) o) acc_len) e

rules_loop-add_all :
    (fuel : ℕ) (pre s : Bytes) (conf : AccessConf)
    → length s + 1 < fuel
    → rules_loop fuel (pre ++ s) (length pre + length s) (length pre) conf
      ≡ some (add_all conf (entries s))
rules_loop-add_all zero pre s conf h = absurd (omega arith)
rules_loop-add_all (suc zero) pre s conf h = absurd (omega arith)
rules_loop-add_all (suc (suc fuel)) pre s conf h = elim (cut s) [
  | last none_in es ↦
      let rule : entry_rule (pre ++ s) (length pre) (length pre + length s) ≡ rule_of s =
        rw append-nil at (entry_rule-rule_of pre s []) in
      rules_loop-suc (suc fuel) (pre ++ s) _ (length pre) _ conf (omega arith)
        (stop_at pre s none _ none_in)
      ∙ rules_loop-past fuel (pre ++ s) (length pre + length s) _
      ∙ ap some (rw es (ap (add_rule conf) rule))
  | more e s' split found es ↦
      let front = pre ++ (e ++ (b';' ∷ [])) in
      let text : pre ++ s ≡ front ++ s' = ap (◌++◌ pre) split ∙ simp append_assoc in
      let len_s = ap length split ∙ length-append e (b';' ∷ s') in
      let len_front = length-append pre (e ++ (b';' ∷ [])) in
      let len_e = length-append e (b';' ∷ []) in
      let next : length pre + length e + 1 ≡ length front = omega arith in
      let size : length pre + length s ≡ length front + length s' = omega arith in
      let rule : entry_rule (pre ++ s) (length pre) (length pre + length e) ≡ rule_of e =
        rw split (entry_rule-rule_of pre e (b';' ∷ s')) in
      let later : rules_loop (suc fuel) (pre ++ s) (length pre + length s)
            (length pre + length e + 1)
            (add_rule conf (entry_rule (pre ++ s) (length pre) (length pre + length e)))
          ≡ some (add_all conf (entries s)) =
        rw (rule, text, next, size, es)
          (rules_loop-add_all (suc fuel) front s' (add_rule conf (rule_of e)) (omega arith)) in
      rules_loop-suc (suc fuel) (pre ++ s) _ (length pre) _ conf (omega arith)
        (stop_at pre s (some (length e)) _ found)
      ∙ later
]

-- The rules and their number, with the newest rule first.
add_all-rules :
    (es : List Bytes) (conf : AccessConf)
    → (add_all conf es).rules ≡ reverse_aux (filter_map rule_of es) conf.rules
add_all-rules [] conf = unfold filter_map in refl
add_all-rules (e ∷ es) conf = elim (Option-cases (rule_of e)) [
  | inl none_of ↦
      ap (λ (o : Option Rule). (add_all (add_rule conf o) es).rules) none_of
      ∙ add_all-rules es conf
      ∙ ap (λ (l : List Rule). reverse_aux l conf.rules)
          (sym (filter_map-cons-none rule_of e es none_of))
  | inr (r, found) ↦
      ap (λ (o : Option Rule). (add_all (add_rule conf o) es).rules) found
      ∙ add_all-rules es (add_rule conf (some r))
      ∙ ap (λ (l : List Rule). reverse_aux l conf.rules)
          (sym (filter_map-cons-some rule_of e es found))
]

-- Where a NUL follows the copied text in memory, `conf_get_rules` ends with one rule for each entry
-- between semicolons that can be read, the last entry's rule first; an entry with no blank, or with a
-- network that cannot be read, is left out.
pub conf_get_rules-entries :
    (acc_str : Bytes)
    → (conf : AccessConf) × (conf_get_rules acc_str [] ≡ some conf)
      × (conf.rules ≡ reverse (filter_map rule_of (entries acc_str)))
unfolding conf_get_rules
conf_get_rules-entries acc_str =
    let start : AccessConf = record { n = 0; rules = [] } in
    (
      add_all start (entries acc_str),
      rw append-nil (
          let e : 0 + length acc_str ≡ length acc_str = omega arith in
          rw e at (rules_loop-add_all (length acc_str + 2) [] acc_str start (omega arith))),
      add_all-rules (entries acc_str) start
          ∙ reverse_aux-eq (filter_map rule_of (entries acc_str)) []
          ∙ append-nil _,
    )
