-- ===== src/Upload/Page/Listed.antt =====
-- The page that a form is answered with, against the list of results that src/xhttpd.c makes of the same
-- calls.
use ximg.Prelude.{
  ℕ, ◌+◌, Bool, true, false, not, ◌&&◌, List, [], ◌∷◌, ◌++◌, Bytes, take, drop, get_or, set, Option,
  leb, length, ltb, ◌==◌, if◌then◌else◌, codes, ◌≡◌, refl, sym, ap, ◌∙◌, Bool-cases, Option-cases,
  inl, inr, append-nil, append_assoc,
}
use ximg.Prelude.Int.{ℤ}
use ximg.Text.{size_sub, strnchr, strnstr, get_type}
use ximg.Upload.{
  ImgInfo, Upload, accepted, refused, c_string, check_type, quoted_name, refuse_type, print_value,
  x_on_header_value, save_part, x_on_chunk_data,
}
use ximg.Upload.Page.{
  Page, wrong_type, not_saved, was_saved, page_type, page_name, page_refuse, page_value,
  on_header_value, page_save, on_chunk_data, Call, header, chunk, print_all,
}

-- What the callbacks say of a part.
pub data Notice : Type 0 where
  type_refused : Bytes → Notice
  save_failed : Notice
  saved : ℕ → Bytes → Notice

abbrev pub info_of : Notice → ImgInfo
info_of (type_refused filename) = refused (codes "File type is not supported!")
info_of save_failed = refused (codes "File save failed!")
info_of (saved size md5) = accepted size md5

abbrev pub paragraph : ℤ → Notice → Bytes
paragraph port (type_refused filename) = wrong_type filename
paragraph port save_failed = not_saved
paragraph port (saved size md5) = was_saved port md5

-- The text of the notices in their order, and the list from its head on, which is the newest.
abbrev pub paragraphs : ℤ → List Notice → Bytes
paragraphs port [] = []
paragraphs port (n ∷ notices) = paragraph port n ++ paragraphs port notices

abbrev pub listed : List Notice → List ImgInfo → List ImgInfo
listed [] infos = infos
listed (n ∷ notices) infos = listed notices (info_of n ∷ infos)

-- A page as an upload with a list in place of the text.
abbrev pub as_upload : {S : Type 0} → Page S → List ImgInfo → Upload S
as_upload p infos = record {
  partno = p.partno;
  succno = p.succno;
  check_name = p.check_name;
  infos = infos;
  mem = p.mem;
  storage = p.storage;
  faulted = p.faulted;
}

module _ {S : Type 0} (save_img : S → Bytes → S × Option Bytes) (is_img : Bytes → Bool)
    (port : ℤ) where
  -- The callbacks of src/xhttpd.c on the same calls.
  abbrev pub list_all : List Call → Upload S → Upload S
  list_all [] u = u
  list_all (header at len ∷ calls) u = list_all calls (x_on_header_value is_img at len u)
  list_all (chunk at len ∷ calls) u = list_all calls (x_on_chunk_data save_img at len u)

  -- From `p` with the list `infos`, the page `p'` and the upload `u'` got the same notices.
  abbrev IsStep : Page S → List ImgInfo → Page S → Upload S → Type 0
  IsStep p infos p' u' =
      (notices : List Notice) × (u' ≡ as_upload p' (listed notices infos))
      × (p'.page ≡ p.page ++ paragraphs port notices)

  quiet-IsStep :
      (p p' : Page S) (infos : List ImgInfo) (u' : Upload S)
      → u' ≡ as_upload p' infos
      → p'.page ≡ p.page
      → IsStep p infos p' u'
  quiet-IsStep p p' infos u' same text = ([], same, text ∙ sym (append-nil p.page))

  one-IsStep :
      (p p' : Page S) (infos : List ImgInfo) (u' : Upload S) (n : Notice)
      → u' ≡ as_upload p' (info_of n ∷ infos)
      → p'.page ≡ p.page ++ paragraph port n
      → IsStep p infos p' u'
  one-IsStep p p' infos u' n same text =
      (n ∷ [], same, text ∙ ap (◌++◌ p.page) (sym (append-nil (paragraph port n))))

  page_type-quiet :
      (name nameend : ℕ) (p : Page S) (infos : List ImgInfo)
      → (check_type is_img name nameend (as_upload p infos)
          ≡ as_upload (page_type is_img name nameend p) infos)
        × ((page_type is_img name nameend p).page ≡ p.page)
  unfolding check_type page_type
  page_type-quiet name nameend p infos =
      elim (Option-cases (get_type (c_string (drop name (set p.mem nameend 0))))) [
        | inl e ↦ rw (check_type, page_type, e) (refl, refl)
        | inr (t, e) ↦ rw (check_type, page_type, e) (refl, refl)
      ]

  page_name-quiet :
      (name left : ℕ) (p : Page S) (infos : List ImgInfo)
      → (quoted_name is_img name left (as_upload p infos)
          ≡ as_upload (page_name is_img name left p) infos)
        × ((page_name is_img name left p).page ≡ p.page)
  unfolding quoted_name page_name
  page_name-quiet name left p infos = elim (Option-cases (strnchr (drop name p.mem) b'"' left)) [
    | inl e ↦ rw (quoted_name, page_name, e) (refl, refl)
    | inr (found, e) ↦ elim (Option-cases found) [
      | inl e' ↦ rw (quoted_name, page_name, e, e') (refl, refl)
      | inr (k, e') ↦ rw (quoted_name, page_name, e, e') (page_type-quiet name (name + k) p infos)
    ]
  ]

  if-IsStep :
      (b : Bool) (p : Page S) (infos : List ImgInfo) (p₁ p₂ : Page S) (u₁ u₂ : Upload S)
      → IsStep p infos p₁ u₁
      → IsStep p infos p₂ u₂
      → IsStep p infos (if b then p₁ else p₂) (if b then u₁ else u₂)
  if-IsStep true p infos p₁ p₂ u₁ u₂ first second = first
  if-IsStep false p infos p₁ p₂ u₁ u₂ first second = second

  page_refuse-IsStep :
      (name : ℕ) (p : Page S) (infos : List ImgInfo)
      → IsStep p infos (page_refuse name p) (refuse_type name (as_upload p infos))
  unfolding refuse_type page_refuse
  page_refuse-IsStep name p infos =
      if-IsStep (leb (length p.mem) name) p infos _ _ _ _ (quiet-IsStep p _ infos _ refl refl) (
        if-IsStep (not (get_or p.mem name 0 == 0) && p.check_name) p infos _ _ _ _
          (one-IsStep p _ infos _ (type_refused (c_string (drop name p.mem))) refl refl)
          (quiet-IsStep p p infos _ refl refl))

  -- The end of both callbacks.
  value-IsStep :
      (at : ℕ) (p p' : Page S) (infos : List ImgInfo) (u' : Upload S)
      → IsStep p infos p' u'
      → IsStep p infos (page_value at p') (print_value at u')
  unfolding print_value page_value
  value-IsStep at p p' infos u' (notices, same, text) = rw same (
      if-IsStep (length (c_string (drop at p'.mem)) == length (drop at p'.mem)) p infos _ _ _ _
        (notices, refl, text) (notices, refl, text))

  named-IsStep :
      (name : ℕ) (p p' : Page S) (infos : List ImgInfo) (u' : Upload S)
      → (u' ≡ as_upload p' infos) × (p'.page ≡ p.page)
      → IsStep p infos (page_refuse name p') (refuse_type name u')
  named-IsStep name p p' infos u' (same, text) =
      let (notices, same', text') = page_refuse-IsStep name p' infos in
      (
        notices,
        ap (refuse_type name) same ∙ same',
        text' ∙ ap (λ t. t ++ paragraphs port notices) text,
      )

  header-IsStep :
      (at len : ℕ) (p : Page S) (infos : List ImgInfo)
      → IsStep p infos
          (on_header_value is_img at len p)
          (x_on_header_value is_img at len (as_upload p infos))
  unfolding x_on_header_value on_header_value
  header-IsStep at len p infos =
      value-IsStep at p _ infos _
        (elim (Option-cases (strnstr (c_string (drop at p.mem)) (codes "filename=") len)) [
          | inl e ↦ rw e (quiet-IsStep p p infos _ refl refl)
          | inr (k, e) ↦ elim (Bool-cases (get_or p.mem (at + k + 9) 0 == b'"')) [
            | inr plain ↦ rw (e, plain) (page_refuse-IsStep (at + k + 9) p infos)
            | inl quoted ↦
                rw (e, quoted)
                  (named-IsStep (at + k + 9 + 1) p _ infos _
                    (page_name-quiet (at + k + 9 + 1) (size_sub len (k + 9 + 1)) p infos))
          ]
        ])

  page_save-IsStep :
      (at len : ℕ) (p : Page S) (infos : List ImgInfo)
      → IsStep p infos
          (page_save save_img port at len p)
          (save_part save_img at len (as_upload p infos))
  unfolding save_part page_save
  page_save-IsStep at len p infos =
      let r = save_img p.storage (take len (drop at p.mem)) in
      elim (Option-cases r.1) [
        | inl e ↦ rw (save_part, page_save, e) (one-IsStep p _ infos _ save_failed refl refl)
        | inr (md5, e) ↦
            rw (save_part, page_save, e) (one-IsStep p _ infos _ (saved len md5) refl refl)
      ]

  chunk-IsStep :
      (at len : ℕ) (p : Page S) (infos : List ImgInfo)
      → IsStep p infos
          (on_chunk_data save_img port at len p)
          (x_on_chunk_data save_img at len (as_upload p infos))
  unfolding x_on_chunk_data on_chunk_data
  chunk-IsStep at len p infos =
      let counted : Page S = record p { partno = p.partno + 1 } in
      if-IsStep p.check_name p infos _ _ _ _ (quiet-IsStep p _ infos _ refl refl) (
        if-IsStep (ltb len 1) p infos _ _ _ _ (quiet-IsStep p counted infos _ refl refl)
          (page_save-IsStep at len counted infos))

  listed-append :
      (ns ms : List Notice) (infos : List ImgInfo)
      → listed ms (listed ns infos) ≡ listed (ns ++ ms) infos
  listed-append [] ms infos = refl
  listed-append (n ∷ ns) ms infos = listed-append ns ms (info_of n ∷ infos)

  paragraphs-append :
      (ns ms : List Notice) → paragraphs port (ns ++ ms) ≡ paragraphs port ns ++ paragraphs port ms
  paragraphs-append [] ms = refl
  paragraphs-append (n ∷ ns) ms =
      ap (◌++◌ (paragraph port n)) (paragraphs-append ns ms)
      ∙ sym (append_assoc (paragraph port n) (paragraphs port ns) (paragraphs port ms))

  then-IsStep :
      (p p' : Page S) (infos : List ImgInfo) (u' : Upload S) (calls : List Call)
      → IsStep p infos p' u'
      → ((l : List ImgInfo)
          → IsStep p' l (print_all save_img is_img port calls p') (list_all calls (as_upload p' l)))
      → IsStep p infos (print_all save_img is_img port calls p') (list_all calls u')
  then-IsStep p p' infos u' calls (ns, same, text) more =
      let (ms, same', text') = more (listed ns infos) in
      let p'' = print_all save_img is_img port calls p' in
      (
        ns ++ ms,
        ap (list_all calls) same ∙ same' ∙ ap (as_upload p'') (listed-append ns ms infos),
        text'
            ∙ ap (λ t. t ++ paragraphs port ms) text
            ∙ append_assoc p.page (paragraphs port ns) (paragraphs port ms)
            ∙ ap (◌++◌ p.page) (sym (paragraphs-append ns ms)),
      )

  -- On any calls of a parser, the callbacks of src/zhttpd.c and those of src/xhttpd.c do the same: the counts, the
  -- mark of a refused name, the memory, the storage and whether a call went outside of the memory agree, and there are notices of which the page
  -- has one paragraph each, in their order, behind what it had, and the list one result each, the
  -- newest first, in front of what it had.
  pub print_all-IsStep :
      (calls : List Call) (p : Page S) (infos : List ImgInfo)
      → (notices : List Notice) × (list_all calls (as_upload p infos)
          ≡ as_upload (print_all save_img is_img port calls p) (listed notices infos))
        × ((print_all save_img is_img port calls p).page ≡ p.page ++ paragraphs port notices)
  print_all-IsStep [] p infos = quiet-IsStep p p infos _ refl refl
  print_all-IsStep (header at len ∷ calls) p infos =
      then-IsStep p (on_header_value is_img at len p) infos _ calls (header-IsStep at len p infos)
        (print_all-IsStep calls (on_header_value is_img at len p))
  print_all-IsStep (chunk at len ∷ calls) p infos =
      then-IsStep p (on_chunk_data save_img port at len p) infos _ calls
        (chunk-IsStep at len p infos)
        (print_all-IsStep calls (on_chunk_data save_img port at len p))
