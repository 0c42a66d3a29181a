-- ===== src/Http/Headers/Printed.antt =====
-- `conf_get_headers` reads back the text of a list of headers.
use mathlib.Core.List.{reverse, reverse_aux, reverse_aux-eq}
use ximg.Prelude.{
  ℕ, zero, suc, ◌+◌, ◌-◌, ◌<◌, ◌≤◌, true, false, ◌||◌, List, [], ◌∷◌, ◌++◌, Bytes, All, length,
  take, drop, Option, none, some, leb, ◌==◌, ◌≡◌, refl, ap, ◌∙◌, arith, Bool-cases, Option-cases,
  inl, inr, append-nil, append_assoc, length-append, take-append_self, drop-append_self,
}
use ximg.Prelude.Memory.{◌>>=◌}
use ximg.Access.{zimg_strlchr, strchr_from}
use ximg.Access.Config.{stop_at}
use ximg.Http.Headers.{key_size, value_size, copy_header, add_entry, headers_loop, conf_get_headers}
use ximg.Text.{size_sub}

-- A text without the byte `c`.
abbrev pub IsFree : ℕ → Bytes → Type 0
IsFree c s = zimg_strlchr s c ≡ none

-- A header that fits the arrays, and that a colon and a semicolon can close.
pub record IsHeader (h : Bytes × Bytes) : Type 0 where
  pub key_open : IsFree b':' h.0
  pub key_whole : IsFree b';' h.0
  pub value_whole : IsFree b';' h.1
  pub key_fits : length h.0 < key_size
  pub value_fits : length h.1 < value_size

abbrev pub header_text : Bytes × Bytes → Bytes
header_text (key, value) = key ++ (b':' ∷ value)

-- The headers with semicolons between them.
abbrev pub headers_text : List (Bytes × Bytes) → Bytes
headers_text [] = []
headers_text (h ∷ []) = header_text h
headers_text (h ∷ (h' ∷ hs)) = header_text h ++ (b';' ∷ headers_text (h' ∷ hs))

IsFree-tail : (x : ℕ) (s : Bytes) (c : ℕ) → IsFree c (x ∷ s) → ((x == c) ≡ false) × IsFree c s
unfolding zimg_strlchr
IsFree-tail x s c free = elim (Bool-cases (x == c)) [
  | inl here ↦ let bad : ◌≡◌ {A = Option ℕ} (some 0) none = rw here at free in cc
  | inr other ↦ elim (Option-cases (zimg_strlchr s c)) [
    | inl no_more ↦ (other, no_more)
    | inr (k, found) ↦ let bad : some (k + 1) ≡ none = rw (other, found) at free in cc
  ]
]

-- The first `c` stands behind a text without it.
strlchr-append :
    (s rest : Bytes) (c : ℕ) → IsFree c s → zimg_strlchr (s ++ (c ∷ rest)) c ≡ some (length s)
unfolding zimg_strlchr
strlchr-append [] rest c free = let same : (c == c) ≡ true = ground arith in rw same refl
strlchr-append (x ∷ s) rest c free =
    let (other, free_s) = IsFree-tail x s c free in
    rw (other, strlchr-append s rest c free_s) (ap some (omega arith))

append-IsFree : (s t : Bytes) (c : ℕ) → IsFree c s → IsFree c t → IsFree c (s ++ t)
unfolding zimg_strlchr
append-IsFree [] t c free free' = free'
append-IsFree (x ∷ s) t c free free' =
    let (other, free_s) = IsFree-tail x s c free in
    rw (other, append-IsFree s t c free_s free') refl

header-IsFree : (h : Bytes × Bytes) → IsHeader h → IsFree b';' (header_text h)
unfolding zimg_strlchr
header-IsFree (key, value) ok =
    append-IsFree key (b':' ∷ value) b';' ok.key_whole (rw ok.value_whole refl)

-- The two copies, where the entry `key:value` stands behind `pre`.
module _ (pre key value rest : Bytes) (ok : IsHeader (key, value)) where
  abbrev mem : Bytes
  mem = pre ++ ((key ++ (b':' ∷ value)) ++ rest)

  at_key : drop (length pre) mem ≡ (key ++ (b':' ∷ value)) ++ rest
  at_key = drop-append_self (length pre) pre _ refl

  at_value : drop (length pre + length key + 1) mem ≡ value ++ rest
  at_value =
      let front = pre ++ (key ++ (b':' ∷ [])) in
      let regroup : mem ≡ front ++ (value ++ rest) = simp append_assoc in
      let size : length pre + length key + 1 ≡ length front =
        omega (arith, length-append pre (key ++ (b':' ∷ [])), length-append key (b':' ∷ [])) in
      ap (drop (length pre + length key + 1)) regroup
      ∙ drop-append_self _ front (value ++ rest) size

  append_key : take (length key) ((key ++ (b':' ∷ value)) ++ rest) ≡ key
  append_key =
      ap (take (length key)) (append_assoc key (b':' ∷ value) rest)
      ∙ take-append_self (length key) key _ refl

  copy_header_lem :
      copy_header mem
        (length pre)
        (length pre + length key + 1)
        (length pre + length (header_text (key, value)))
      ≡ some (key, value)
  unfolding copy_header
  copy_header_lem =
      let fits = ok.key_fits in
      let fits' = ok.value_fits in
      let whole = length-append key (b':' ∷ value) in
      let key_len : size_sub (length pre + length key + 1 - 1) (length pre) ≡ length key =
        omega arith in
      let value_len : size_sub (length pre + length (key ++ (b':' ∷ value)))
            (length pre + length key + 1)
          ≡ length value =
        omega arith in
      let small : (leb key_size (length key) || leb value_size (length value)) ≡ false =
        ground arith in
      let key_text : take (length key) ((key ++ (b':' ∷ value)) ++ rest) ≡ key = append_key in
      rw
        (
          key_len,
          value_len,
          small,
          at_key,
          at_value,
          key_text,
          take-append_self (length value) value rest refl,
        )
        refl

  -- Such an entry gives its header.
  add_entry_lem :
      (headers : List (Bytes × Bytes))
      → add_entry mem (length pre) (length pre + length (header_text (key, value))) headers
        ≡ some ((key, value) ∷ headers)
  unfolding add_entry
  add_entry_lem headers =
      let text : (key ++ (b':' ∷ value)) ++ rest ≡ key ++ (b':' ∷ (value ++ rest)) =
        simp append_assoc in
      let found : zimg_strlchr (drop (length pre) mem) b':' ≡ some (length key) =
        ap (λ m. zimg_strlchr m b':') (at_key ∙ text)
        ∙ strlchr-append key (value ++ rest) b':' ok.key_open in
      rw (add_entry, found, copy_header_lem) refl

-- One round of the loop within the text.
headers_loop-suc :
    (fuel : ℕ) (mem : Bytes) (hdr_len start stop : ℕ) (headers more : List (Bytes × Bytes))
    → start ≤ hdr_len
    → (elim (strchr_from mem start b';') [ none ↦ hdr_len | some i ↦ i ]) ≡ stop
    → add_entry mem start stop headers ≡ some more
    → headers_loop (suc fuel) mem hdr_len start headers
      ≡ headers_loop fuel mem hdr_len (stop + 1) more
unfolding headers_loop
headers_loop-suc fuel mem hdr_len start stop headers more h e added =
    let within : leb start hdr_len ≡ true = ground arith in
    rw within (
      ap (λ s. add_entry mem start s headers >>= (λ hs. headers_loop fuel mem hdr_len (s + 1) hs)) e
      ∙ ap (λ o. o >>= (λ hs. headers_loop fuel mem hdr_len (stop + 1) hs)) added)

headers_loop_past :
    (fuel : ℕ) (mem : Bytes) (hdr_len : ℕ) (headers : List (Bytes × Bytes))
    → headers_loop (suc fuel) mem hdr_len (hdr_len + 1) headers ≡ some headers
unfolding headers_loop
headers_loop_past fuel mem hdr_len headers =
    let past : leb (hdr_len + 1) hdr_len ≡ false = ground arith in rw past

headers_loop-headers_text :
    (fuel : ℕ) (pre : Bytes) (h : Bytes × Bytes) (hs headers : List (Bytes × Bytes))
    → All IsHeader (h ∷ hs)
    → length (headers_text (h ∷ hs)) + 1 < fuel
    → headers_loop fuel
        (pre ++ headers_text (h ∷ hs))
        (length pre + length (headers_text (h ∷ hs)))
        (length pre)
        headers
      ≡ some (reverse_aux (h ∷ hs) headers)
headers_loop-headers_text zero pre h hs headers ok enough = absurd (omega arith)
headers_loop-headers_text (suc zero) pre h hs headers ok enough = absurd (omega arith)
headers_loop-headers_text (suc (suc fuel)) pre h [] headers (ok, rest) enough =
    let text = header_text h in
    let added : add_entry (pre ++ text) (length pre) (length pre + length text) headers
        ≡ some (h ∷ headers) =
      rw append-nil at (add_entry_lem pre h.0 h.1 [] ok headers) in
    headers_loop-suc (suc fuel) (pre ++ text) _ (length pre) (length pre + length text) headers
      (h ∷ headers) (omega arith) (stop_at pre text none _ (header-IsFree h ok)) added
    ∙ headers_loop_past fuel (pre ++ text) (length pre + length text) (h ∷ headers)
headers_loop-headers_text (suc (suc fuel)) pre h (h' ∷ hs) headers (ok, rest) enough =
    let text = header_text h in
    let more = headers_text (h' ∷ hs) in
    let front = pre ++ (text ++ (b';' ∷ [])) in
    let split : pre ++ (text ++ (b';' ∷ more)) ≡ front ++ more = simp append_assoc in
    let len = length-append text (b';' ∷ more) in
    let next : length pre + length text + 1 ≡ length front =
      omega (arith, length-append pre (text ++ (b';' ∷ [])), length-append text (b';' ∷ [])) in
    let size : length pre + length (text ++ (b';' ∷ more)) ≡ length front + length more =
      omega arith in
    let later : headers_loop (suc fuel) (pre ++ (text ++ (b';' ∷ more)))
          (length pre + length (text ++ (b';' ∷ more))) (length pre + length text + 1) (h ∷ headers)
        ≡ some (reverse_aux (h ∷ (h' ∷ hs)) headers) =
      rw (split, next, size)
        (headers_loop-headers_text (suc fuel) front h' hs (h ∷ headers) rest (omega arith)) in
    headers_loop-suc (suc fuel) (pre ++ (text ++ (b';' ∷ more))) _ (length pre)
      (length pre + length text) headers (h ∷ headers) (omega arith)
      (stop_at pre (text ++ (b';' ∷ more)) (some (length text)) _
        (strlchr-append text more b';' (header-IsFree h ok)))
      (add_entry_lem pre h.0 h.1 (b';' ∷ more) ok headers)
    ∙ later

-- Where a NUL follows the copied text in memory, `conf_get_headers` reads back the text `key:value;...` of
-- a list of headers, the last one first: for keys below 128 characters without a colon or a semicolon
-- and values below 512 characters without a semicolon.
pub conf_get_headers-headers_text :
    (hs : List (Bytes × Bytes))
    → All IsHeader hs
    → conf_get_headers (headers_text hs) [] ≡ some (reverse hs)
unfolding conf_get_headers
conf_get_headers-headers_text [] ok = unfold headers_loop add_entry zimg_strlchr in refl
conf_get_headers-headers_text (h ∷ hs) ok =
    let text = headers_text (h ∷ hs) in
    let e : 0 + length text ≡ length text = omega arith in
    rw append-nil (
      rw e at (headers_loop-headers_text (length text + 2) [] h hs [] ok (omega arith))
      ∙ ap some (reverse_aux-eq (h ∷ hs) [] ∙ append-nil _))
