-- ===== src/Upload/Page.antt =====
-- src/zhttpd.c: the callbacks `on_header_value` and `on_chunk_data`, which print the results of a form as a
-- page.
pub mod Listed
use ximg.Prelude.{
  ℕ, ◌+◌, Bool, true, false, not, ◌&&◌, List, [], ◌∷◌, ◌++◌, Bytes, take, drop, get_or, set, Option,
  none, some, leb, length, ltb, ◌==◌, if◌then◌else◌, codes,
}
use ximg.Prelude.Int.{ℤ}
use ximg.Key.Gen.{int_text}
use ximg.Text.{size_sub, strnchr, strnstr, get_type}
use ximg.Upload.{c_string}

-- `mp_arg_t` and what the callbacks change besides: `page` is `buffer_out` of the request and
-- `faulted` as in `Upload`.
pub record Page (S : Type 0) : Type 0 where
  pub partno : ℕ
  pub succno : ℕ
  pub check_name : Bool
  pub page : Bytes
  pub mem : Bytes
  pub storage : S
  pub faulted : Bool

abbrev pub wrong_type : Bytes → Bytes
wrong_type filename =
    codes "<h1>File: " ++ (filename ++ codes "</h1>\n<p>File type is not supported!</p>\n")

abbrev pub not_saved : Bytes
not_saved = codes "<h1>Failed!</h1>\n<p>File save failed!</p>\n"

abbrev pub was_saved : ℤ → Bytes → Bytes
was_saved port md5 =
    codes "<h1>MD5: "
    ++ (md5
        ++ (codes
              "</h1>\nImage upload successfully! You can get this image via this address:<br/><br/>\n<a href=\"/"
            ++ (md5
                ++ (codes "\">http://yourhostname:"
                    ++ (int_text port
                        ++ (codes "/"
                            ++ (md5
                                ++ codes
                                    "</a>?w=width&h=height&g=isgray&x=position_x&y=position_y&r=rotate&q=quality&f=format\n")))))))

-- The branch with a closing quote.
unfoldable pub page_type : {S : Type 0} → (Bytes → Bool) → ℕ → ℕ → Page S → Page S
page_type is_img name nameend p =
    let mem = set p.mem nameend 0 in
    elim (get_type (c_string (drop name mem))) [
      | none ↦ record p { mem = mem; check_name = true }
      | some file_type ↦ record p {
        mem = mem;
        check_name = if is_img file_type then p.check_name else true;
      }
    ]

-- The block under `if (filename[0] == '\"')`, behind `filename++`.
unfoldable pub page_name : {S : Type 0} → (Bytes → Bool) → ℕ → ℕ → Page S → Page S
unfolding page_type
page_name is_img name left p = elim (strnchr (drop name p.mem) b'"' left) [
  | none ↦ record p { faulted = true }
  | some found ↦ elim found [
    | none ↦ record p { check_name = true }
    | some k ↦ page_type is_img name (name + k) p
  ]
]

-- The lines from `if (filename[0] != '\0' && ...` on.
unfoldable pub page_refuse : {S : Type 0} → ℕ → Page S → Page S
page_refuse name p =
    if leb (length p.mem) name
    then record p { faulted = true }
    else if not (get_or p.mem name 0 == 0) && p.check_name
    then record p { page = p.page ++ wrong_type (c_string (drop name p.mem)) }
    else p

-- The end: `snprintf` reads `at` up to a NUL.
unfoldable pub page_value : {S : Type 0} → ℕ → Page S → Page S
page_value at p =
    if length (c_string (drop at p.mem)) == length (drop at p.mem)
    then record p { faulted = true }
    else p

unfoldable pub on_header_value : {S : Type 0} → (Bytes → Bool) → ℕ → ℕ → Page S → Page S
unfolding page_name page_refuse page_value
on_header_value is_img at len p =
    page_value at (elim (strnstr (c_string (drop at p.mem)) (codes "filename=") len) [
      | none ↦ p
      | some k ↦
          let name = at + k + 9 in
          if get_or p.mem name 0 == b'"'
          then page_refuse (name + 1) (page_name is_img (name + 1) (size_sub len (k + 9 + 1)) p)
          else page_refuse name p
    ])

-- The call of `save_img` and what stands behind it.
unfoldable pub page_save :
    {S : Type 0} → (S → Bytes → S × Option Bytes) → ℤ → ℕ → ℕ → Page S → Page S
page_save save_img port at len p =
    let r = save_img p.storage (take len (drop at p.mem)) in
    elim r.1 [
      | none ↦ record p { storage = r.0; page = p.page ++ not_saved }
      | some md5 ↦ record p {
        storage = r.0;
        succno = p.succno + 1;
        page = p.page ++ was_saved port md5;
      }
    ]

unfoldable pub on_chunk_data :
    {S : Type 0} → (S → Bytes → S × Option Bytes) → ℤ → ℕ → ℕ → Page S → Page S
unfolding page_save
on_chunk_data save_img port at len p =
    let counted = record p { partno = p.partno + 1 } in
    if p.check_name
    then record counted { check_name = false }
    else if ltb len 1
    then counted
    else page_save save_img port at len counted

-- A call that a parser makes of one of the two, with its `at` and `length`.
pub data Call : Type 0 where
  header chunk : ℕ → ℕ → Call

module _ {S : Type 0} (save_img : S → Bytes → S × Option Bytes) (is_img : Bytes → Bool)
    (port : ℤ) where
  abbrev pub print_all : List Call → Page S → Page S
  print_all [] p = p
  print_all (header at len ∷ calls) p = print_all calls (on_header_value is_img at len p)
  print_all (chunk at len ∷ calls) p = print_all calls (on_chunk_data save_img port at len p)
