-- ===== src/Upload/Form.antt =====
-- src/xhttpd.c: `x_multipart_parse` in front of the call of `result2json`, the boundary from the content
-- type and the parse of the body. `none` is a step from the NULL pointer of `strchr`. Memory is always given.
use ximg.Prelude.{
  ℕ, ◌+◌, ◌^◌, ◌<◌, Bool, true, false, ◌⊎◌, ◌||◌, [], ◌∷◌, ◌++◌, Bytes, length, take, drop, get_or,
  Option, none, some, ◌==◌, if◌then◌else◌, codes, ◌≡◌, refl, ap, ◌∙◌, arith, Bool-cases,
  Option-cases, inl, inr, take-append_self,
}
use ximg.Prelude.Memory.{◌>>=◌}
use ximg.Text.{starts_with}
use ximg.Access.{zimg_strlchr}
use ximg.Multipart.{x_multipart_parser_init, x_multipart_parser_execute}
use ximg.Upload.{Upload, upload_callbacks}
use ximg.Upload.Tally.{IsTallied, fresh, x_multipart_parser_execute-IsTallied}

-- `strstr(s, find) != 0`
unfoldable pub occurs : Bytes → Bytes → Bool
occurs find [] = starts_with [] find
occurs find (c ∷ s) = starts_with (c ∷ s) find || occurs find s

-- `strpbrk(s, ",;")`
unfoldable pub find_break : Bytes → Option ℕ
find_break [] = none
find_break (c ∷ s) =
    let later = find_break s in
    if c == b',' || c == b';' then some 0 else elim later [ none ↦ none | some k ↦ some (k + 1) ]

-- From the test of the first character on: the boundary, or `none` where the closing quote is missing.
unfoldable pub boundary_text : Bytes → Option Bytes
boundary_text text =
    if get_or text 0 0 == b'"'
    then elim (zimg_strlchr (drop 1 text) b'"') [
      | none ↦ none
      | some k ↦ some (take k (drop 1 text))
    ]
    else elim (find_break text) [ none ↦ some text | some k ↦ some (take k text) ]

-- `boundaryPattern`; the inner `none` is the error 6.
unfoldable pub boundary_pattern : Bytes → Option (Option Bytes)
boundary_pattern content_type =
    if occurs (codes "boundary") content_type
    then (do
      i ← zimg_strlchr content_type b'='
      some (elim (boundary_text (drop (i + 1) content_type)) [
        | none ↦ none
        | some text ↦ some (codes "--" ++ text)
      ]))
    else some none

-- `err_no` 6; the results of the upload; or an access of a callback outside of the body's memory.
pub data FormResult (S : Type 0) : Type 0 where
  refused_form : ℕ → FormResult S
  parsed_form : Upload S → FormResult S
  faulted_form : FormResult S

-- Up to the call of `result2json`.
unfoldable pub parse_form :
    {S : Type 0}
    → (S → Bytes → S × Option Bytes)
    → (Bytes → Bool)
    → Bytes
    → Bytes
    → Bytes
    → S
    → Option (FormResult S)
parse_form save_img is_img content_type buff beyond storage = do
  pattern ← boundary_pattern content_type
  elim pattern [
    | none ↦ some (refused_form 6)
    | some p ↦ (do
      r ←
          x_multipart_parser_execute (upload_callbacks save_img is_img) buff
            (x_multipart_parser_init p) (fresh (buff ++ beyond) storage)
      some (if r.data_of.faulted then faulted_form else parsed_form r.data_of))
  ]

-- The error is 6, and the results of a form agree with the counts, if it was parsed.
abbrev pub IsAnswered : {S : Type 0} → ℕ → FormResult S → Type 0
IsAnswered size (refused_form n) = n ≡ 6
IsAnswered size (parsed_form u) = IsTallied size u
IsAnswered size faulted_form = Unit

calm-IsTallied :
    {S : Type 0} {size : ℕ} {u : Upload S}
    → (u.faulted ≡ true) ⊎ IsTallied size u
    → u.faulted ≡ false
    → IsTallied size u
calm-IsTallied (inl faulted) calm = cc
calm-IsTallied (inr tallied) calm = tallied

-- For a content type with a `=` and a body below 2 ^ 64 bytes, and for any `save_img` and `is_img`,
-- `x_multipart_parse` comes to the error 6, or to its call of `result2json` with results that agree with
-- the counts, unless a callback accesses something outside of the body's memory.
pub parse_form-IsAnswered :
    {S : Type 0} (save_img : S → Bytes → S × Option Bytes) (is_img : Bytes → Bool)
    (content_type buff beyond : Bytes) (storage : S) (i : ℕ)
    → zimg_strlchr content_type b'=' ≡ some i
    → length buff < 2 ^ 64
    → (r : FormResult S) × (parse_form save_img is_img content_type buff beyond storage ≡ some r)
      × IsAnswered (length buff) r
unfolding parse_form boundary_pattern
parse_form-IsAnswered save_img is_img content_type buff beyond storage i e small =
    elim (Bool-cases (occurs (codes "boundary") content_type)) [
      | inr absent ↦ rw absent (refused_form 6, refl, refl)
      | inl found ↦
          rw (found, e)
            (elim (Option-cases (boundary_text (drop (i + 1) content_type))) [
              | inl no_quote ↦ rw no_quote (refused_form 6, refl, refl)
              | inr (text, has_text) ↦
                  let (r, ran, tallied) =
                    x_multipart_parser_execute-IsTallied save_img is_img (codes "--" ++ text) buff
                      beyond storage small (omega arith) in
                  elim (Bool-cases r.data_of.faulted) [
                    | inl faulted ↦ rw (has_text, ran, faulted) (faulted_form, refl, tt)
                    | inr calm ↦
                        rw (has_text, ran, calm)
                          (parsed_form r.data_of, refl, calm-IsTallied tallied calm)
                  ]
            ])
    ]

find_break-absent :
    (b rest : Bytes) → find_break b ≡ none → find_break (b ++ (b';' ∷ rest)) ≡ some (length b)
unfolding find_break
find_break-absent [] rest e = refl
find_break-absent (c ∷ b) rest e = elim (Bool-cases (c == b',' || c == b';')) [
  | inl hit ↦ absurd (cc (rw hit at e))
  | inr miss ↦ elim (Option-cases (find_break b)) [
    | inl none_in ↦ rw (miss, find_break-absent b rest none_in) (ap some (omega arith))
    | inr (k, some_in) ↦ absurd (cc (rw (miss, some_in) at e))
  ]
]

strlchr-quote :
    (b rest : Bytes)
    → zimg_strlchr b b'"' ≡ none
    → zimg_strlchr (b ++ (b'"' ∷ rest)) b'"' ≡ some (length b)
unfolding zimg_strlchr
strlchr-quote [] rest h = refl
strlchr-quote (x ∷ b) rest h = elim (Option-cases (zimg_strlchr b b'"')) [
  | inl e ↦ ground (arith, strlchr-quote b rest e)
  | inr (i, e) ↦ ground arith
]

abbrev pub form_type : Bytes → Bytes
form_type text = codes "multipart/form-data; boundary=" ++ text

-- The text with two hyphens in front.
abbrev pattern_of : Option Bytes → Option Bytes
pattern_of none = none
pattern_of (some b) = some (codes "--" ++ b)

boundary_pattern_lem :
    (text : Bytes) → boundary_pattern (form_type text) ≡ some (pattern_of (boundary_text text))
unfolding boundary_pattern occurs starts_with zimg_strlchr
boundary_pattern_lem text = elim (Option-cases (boundary_text text)) [
  | inl e ↦ rw e
  | inr (t, e) ↦ rw e
]

pattern_lem :
    (text : Bytes) (o : Option Bytes)
    → boundary_text text ≡ o
    → boundary_pattern (form_type text) ≡ some (pattern_of o)
pattern_lem text o e = boundary_pattern_lem text ∙ ap (λ (x : Option Bytes). some (pattern_of x)) e

-- The boundary of a form's content type: up to a semicolon if it is not quoted, else up to the closing
-- quote; with no closing quote the form is refused. The pattern has two hyphens in front.
pub boundary_pattern-form_type :
    (b rest : Bytes)
    → (get_or (b ++ (b';' ∷ rest)) 0 0 == b'"') ≡ false
    → find_break b ≡ none
    → zimg_strlchr b b'"' ≡ none
    → (boundary_pattern (form_type (b ++ (b';' ∷ rest))) ≡ some (some (codes "--" ++ b)))
      × (boundary_pattern (form_type (b'"' ∷ b ++ (b'"' ∷ rest))) ≡ some (some (codes "--" ++ b)))
      × (boundary_pattern (form_type (b'"' ∷ b)) ≡ some none)
boundary_pattern-form_type b rest bare no_break no_quote = (
  pattern_lem (b ++ (b';' ∷ rest)) (some b) unquoted,
  pattern_lem (b'"' ∷ b ++ (b'"' ∷ rest)) (some b) quoted,
  pattern_lem (b'"' ∷ b) none unclosed,
)
  where
    unquoted : boundary_text (b ++ (b';' ∷ rest)) ≡ some b
    unquoted =
        unfold boundary_text in
        rw (bare, find_break-absent b rest no_break)
          (ap some (take-append_self (length b) b (b';' ∷ rest) refl))

    quoted : boundary_text (b'"' ∷ b ++ (b'"' ∷ rest)) ≡ some b
    quoted =
        unfold boundary_text in
        rw (strlchr-quote b rest no_quote)
          (ap some (take-append_self (length b) b (b'"' ∷ rest) refl))

    unclosed : boundary_text (b'"' ∷ b) ≡ none
    unclosed = unfold boundary_text in rw no_quote
