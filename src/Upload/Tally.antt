-- ===== src/Upload/Tally.antt =====
-- What an upload's counts and its list of results say about each other.
use ximg.Prelude.{
  ℕ, ◌+◌, ◌^◌, ◌<◌, ◌≤◌, Bool, true, leb, ◌⊎◌, false, not, ◌&&◌, List, [], ◌∷◌, ◌++◌, Bytes, length,
  take, drop, get_or, set, Option, some, ltb, ◌==◌, if◌then◌else◌, All, codes, ◌≡◌, refl, arith,
  Bool-cases, Option-cases, inl, inr,
}
use ximg.Text.{strnchr, strnstr, get_type}
use ximg.Multipart.{
  header_field, header_value, chunk_data, part_data_begin, headers_complete, part_data_end,
  body_end, Returned, x_multipart_parser_init, x_multipart_parser_execute,
}
use ximg.Multipart.Valid.{IsKept}
use ximg.Multipart.Total.{x_multipart_parser_init-IsValid, x_multipart_parser_execute-IsDone}
use ximg.Upload.{
  ImgInfo, Upload, c_string, check_type, quoted_name, refuse_type, print_value, x_on_header_value,
  save_part, x_on_chunk_data, upload_callbacks,
}

abbrev pub count_saved : List ImgInfo → ℕ
count_saved [] = 0
count_saved (info ∷ infos) = if info.code == 200 then 1 + count_saved infos else count_saved infos

-- The results agree with the counts: as many images saved as `succno` says, no more than there were
-- parts, and no image larger than the body of `size` bytes.
pub record IsTallied {S : Type 0} (size : ℕ) (u : Upload S) : Type 0 where
  pub saved : count_saved u.infos ≡ u.succno
  pub within : u.succno ≤ u.partno
  pub sizes : All (λ info. info.size ≤ size) u.infos

module _ {S : Type 0} (save_img : S → Bytes → S × Option Bytes) (is_img : Bytes → Bool)
    (size : ℕ) where
  check_type-IsTallied :
      (name nameend : ℕ) (u : Upload S)
      → IsTallied size u
      → IsTallied size (check_type is_img name nameend u)
  unfolding check_type
  check_type-IsTallied name nameend u t =
      elim (Option-cases (get_type (c_string (drop name (set u.mem nameend 0))))) [
        | inl e ↦
            rw (check_type, e) (record { saved = t.saved; within = t.within; sizes = t.sizes })
        | inr (x, e) ↦
            rw (check_type, e) (record { saved = t.saved; within = t.within; sizes = t.sizes })
      ]

  if-IsTallied :
      (b : Bool) (u v : Upload S)
      → IsTallied size u
      → IsTallied size v
      → IsTallied size (if b then u else v)
  if-IsTallied true u v t s = t
  if-IsTallied false u v t s = s

  fault-IsTallied : (u : Upload S) → IsTallied size u → IsTallied size (record u { faulted = true })
  fault-IsTallied u t = record { saved = t.saved; within = t.within; sizes = t.sizes }

  quoted_name-IsTallied :
      (name left : ℕ) (u : Upload S)
      → IsTallied size u
      → IsTallied size (quoted_name is_img name left u)
  unfolding quoted_name
  quoted_name-IsTallied name left u t = elim (Option-cases (strnchr (drop name u.mem) b'"' left)) [
    | inl e ↦ rw (quoted_name, e) (record { saved = t.saved; within = t.within; sizes = t.sizes })
    | inr (found, e) ↦ elim (Option-cases found) [
      | inl e' ↦
          rw (quoted_name, e, e') (record { saved = t.saved; within = t.within; sizes = t.sizes })
      | inr (k, e') ↦ rw (quoted_name, e, e') (check_type-IsTallied name (name + k) u t)
    ]
  ]

  refuse_type-IsTallied :
      (name : ℕ) (u : Upload S) → IsTallied size u → IsTallied size (refuse_type name u)
  unfolding refuse_type
  refuse_type-IsTallied name u t =
      if-IsTallied (leb (length u.mem) name) _ _ (fault-IsTallied u t) (
        if-IsTallied (not (get_or u.mem name 0 == 0) && u.check_name) _ _
          (record { saved = t.saved; within = t.within; sizes = (omega arith, t.sizes) }) t)

  print_value-IsTallied :
      (at : ℕ) (u : Upload S) → IsTallied size u → IsTallied size (print_value at u)
  unfolding print_value
  print_value-IsTallied at u t =
      if-IsTallied (length (c_string (drop at u.mem)) == length (drop at u.mem)) _ _
        (fault-IsTallied u t) t

  header_value-IsTallied :
      (at len : ℕ) (u : Upload S)
      → IsTallied size u
      → IsTallied size (x_on_header_value is_img at len u)
  unfolding x_on_header_value
  header_value-IsTallied at len u t =
      print_value-IsTallied at _
        (elim (Option-cases (strnstr (c_string (drop at u.mem)) (codes "filename=") len)) [
          | inl e ↦ rw e t
          | inr (k, e) ↦ rw e (elim (Bool-cases (get_or u.mem (at + k + 9) 0 == b'"')) [
            | inl q ↦ rw q (refuse_type-IsTallied _ _ (quoted_name-IsTallied _ _ u t))
            | inr q ↦ rw q (refuse_type-IsTallied _ u t)
          ])
        ])

  save_part-IsTallied :
      (at len : ℕ) (u : Upload S)
      → len ≤ size
      → count_saved u.infos ≡ u.succno
      → u.succno < u.partno
      → All (λ info. info.size ≤ size) u.infos
      → IsTallied size (save_part save_img at len u)
  unfolding save_part
  save_part-IsTallied at len u fits saved within sizes =
      elim (Option-cases (save_img u.storage (take len (drop at u.mem))).1) [
        | inl e ↦
            rw (save_part, e)
              (record { saved = saved; within = omega arith; sizes = (omega arith, sizes) })
        | inr (md5, e) ↦
            rw (save_part, e)
              (record { saved = omega (arith, saved); within = omega arith; sizes = (fits, sizes) })
      ]

  chunk_data-IsTallied :
      (at len : ℕ) (u : Upload S)
      → len ≤ size
      → IsTallied size u
      → IsTallied size (x_on_chunk_data save_img at len u)
  unfolding x_on_chunk_data
  chunk_data-IsTallied at len u fits t = elim (Bool-cases u.check_name) [
    | inl e ↦ rw e (record { saved = t.saved; within = omega (arith, t.within); sizes = t.sizes })
    | inr e ↦ rw e (elim (Bool-cases (ltb len 1)) [
      | inl none_in ↦
          rw none_in (record { saved = t.saved; within = omega (arith, t.within); sizes = t.sizes })
      | inr some_in ↦
          rw some_in (save_part-IsTallied at len _ fits t.saved (omega (arith, t.within)) t.sizes)
    ])
  ]

  upload_callbacks-IsTallied : IsKept (upload_callbacks save_img is_img) (IsTallied size) size
  unfolding upload_callbacks
  upload_callbacks-IsTallied (header_value at len) u place t = header_value-IsTallied at len u t
  upload_callbacks-IsTallied (chunk_data at len) u place t =
      chunk_data-IsTallied at len u (omega arith) t
  upload_callbacks-IsTallied (header_field at len) u place t = t
  upload_callbacks-IsTallied part_data_begin u place t = t
  upload_callbacks-IsTallied headers_complete u place t = t
  upload_callbacks-IsTallied part_data_end u place t = t
  upload_callbacks-IsTallied body_end u place t = t

-- The state before the body is parsed.
abbrev pub fresh : {S : Type 0} → Bytes → S → Upload S
fresh mem storage = record {
  partno = 0;
  succno = 0;
  check_name = false;
  infos = [];
  mem = mem;
  storage = storage;
  faulted = false;
}

-- For any `save_img` and `is_img`, the body of an upload, below 2 ^ 64 bytes and with a boundary that is
-- not empty, is parsed to an end with no access of the parser outside its memory, and either a callback
-- has accessed something outside of the body's memory, or the results agree with the counts: `succno` is the number of results with the code 200, it is at most `partno`, and
-- no result has a size above the body's length.
pub x_multipart_parser_execute-IsTallied :
    {S : Type 0} (save_img : S → Bytes → S × Option Bytes) (is_img : Bytes → Bool)
    (boundary buff beyond : Bytes) (storage : S)
    → length buff < 2 ^ 64
    → 0 < length boundary
    → (r : Returned (Upload S)) × (x_multipart_parser_execute
          (upload_callbacks save_img is_img)
          buff
          (x_multipart_parser_init boundary)
          (fresh (buff ++ beyond) storage)
        ≡ some r)
      × ((r.data_of.faulted ≡ true) ⊎ IsTallied (length buff) r.data_of)
x_multipart_parser_execute-IsTallied save_img is_img boundary buff beyond storage small some_in =
    let (r, e, done) =
      x_multipart_parser_execute-IsDone (upload_callbacks save_img is_img) (IsTallied (length buff))
        buff _ (x_multipart_parser_init boundary) (fresh (buff ++ beyond) storage) small
        (upload_callbacks-IsTallied save_img is_img (length buff))
        (x_multipart_parser_init-IsValid boundary some_in)
        (record { saved = refl; within = omega arith; sizes = tt }) in
    (r, e, inr done.1)
