-- ===== src/Upload.antt =====
-- src/xhttpd.c: the callbacks of an upload, `x_on_header_value` and `x_on_chunk_data`. `save_img`
-- works on the storage, a state of its own, and `is_img` asks a Lua script: both are arguments.
pub mod Tally
pub mod Param
pub mod Form
pub mod Page
use ximg.Prelude.{
  ℕ, ◌+◌, ◌-◌, Bool, true, false, not, ◌&&◌, List, [], ◌∷◌, Bytes, length, take, drop, get_or, set,
  Option, none, some, leb, ltb, ◌==◌, if◌then◌else◌, codes,
}
use ximg.Text.{size_sub, strnchr, strnstr, get_type}
use ximg.Multipart.{Event, header_value, chunk_data, Handler}

pub record ImgInfo : Type 0 where
  pub code : ℕ
  pub size : ℕ
  pub height : ℕ
  pub width : ℕ
  pub md5 : Bytes
  pub msg : Bytes

-- `mp_arg_t` and what the callbacks change besides: `check_name` is `true` for -1 and `false` for 0,
-- `infos` the linked list from its head, `mem` the memory from the body's buffer on, `storage` the state
-- of `save_img`. `faulted` tells whether a call has read or written outside of `mem`: what the others are
-- behind such a call says nothing of the program.
pub record Upload (S : Type 0) : Type 0 where
  pub partno : ℕ
  pub succno : ℕ
  pub check_name : Bool
  pub infos : List ImgInfo
  pub mem : Bytes
  pub storage : S
  pub faulted : Bool

-- The C string in a memory: the bytes in front of the first NUL.
unfoldable pub c_string : Bytes → Bytes
c_string [] = []
c_string (c ∷ mem) = if c == 0 then [] else c ∷ c_string mem

abbrev pub refused : Bytes → ImgInfo
refused msg = record { code = 201; size = 0; height = 0; width = 0; md5 = []; msg = msg }

abbrev pub accepted : ℕ → Bytes → ImgInfo
accepted size md5 = record {
  code = 200;
  size = size;
  height = 0;
  width = 0;
  md5 = md5;
  msg = codes "ok";
}

-- The branch with a closing quote, at the index `nameend`: the file's name is closed by a NUL, and its
-- type is checked.
unfoldable pub check_type : {S : Type 0} → (Bytes → Bool) → ℕ → ℕ → Upload S → Upload S
check_type is_img name nameend u =
    let mem = set u.mem nameend 0 in
    elim (get_type (c_string (drop name mem))) [
      | none ↦ record u { mem = mem; check_name = true }
      | some file_type ↦ record u {
        mem = mem;
        check_name = if is_img file_type then u.check_name else true;
      }
    ]

-- The block under `if (filename[0] == '\"')`, behind `filename++`: `name` is the index of `filename`,
-- and `left` what is left of `length`.
unfoldable pub quoted_name : {S : Type 0} → (Bytes → Bool) → ℕ → ℕ → Upload S → Upload S
quoted_name is_img name left u = elim (strnchr (drop name u.mem) b'"' left) [
  | none ↦ record u { faulted = true }
  | some found ↦ elim found [
    | none ↦ record u { check_name = true }
    | some k ↦ check_type is_img name (name + k) u
  ]
]

-- The lines from `if (filename[0] != '\0' && ...` on.
unfoldable pub refuse_type : {S : Type 0} → ℕ → Upload S → Upload S
refuse_type name u =
    if leb (length u.mem) name
    then record u { faulted = true }
    else if not (get_or u.mem name 0 == 0) && u.check_name
    then record u { infos = refused (codes "File type is not supported!") ∷ u.infos }
    else u

-- The end: `snprintf` reads `at` up to a NUL, whatever the size of its buffer.
unfoldable pub print_value : {S : Type 0} → ℕ → Upload S → Upload S
print_value at u =
    if length (c_string (drop at u.mem)) == length (drop at u.mem)
    then record u { faulted = true }
    else u

-- A read of `filename[0]` behind the memory gives 0 in the test for the quote, and is seen by
-- `refuse_type`.
unfoldable pub x_on_header_value : {S : Type 0} → (Bytes → Bool) → ℕ → ℕ → Upload S → Upload S
x_on_header_value is_img at len u =
    print_value at (elim (strnstr (c_string (drop at u.mem)) (codes "filename=") len) [
      | none ↦ u
      | some k ↦
          let name = at + k + 9 in
          if get_or u.mem name 0 == b'"'
          then refuse_type (name + 1) (quoted_name is_img (name + 1) (size_sub len (k + 9 + 1)) u)
          else refuse_type name u
    ])

-- The call of `save_img` and what stands behind it.
unfoldable pub save_part :
    {S : Type 0} → (S → Bytes → S × Option Bytes) → ℕ → ℕ → Upload S → Upload S
save_part save_img at len u =
    let r = save_img u.storage (take len (drop at u.mem)) in
    elim r.1 [
      | none ↦ record u { storage = r.0; infos = refused (codes "File save failed!") ∷ u.infos }
      | some md5 ↦ record u {
        storage = r.0;
        succno = u.succno + 1;
        infos = accepted len md5 ∷ u.infos;
      }
    ]

unfoldable pub x_on_chunk_data :
    {S : Type 0} → (S → Bytes → S × Option Bytes) → ℕ → ℕ → Upload S → Upload S
x_on_chunk_data save_img at len u =
    let counted = record u { partno = u.partno + 1 } in
    if u.check_name
    then record counted { check_name = false }
    else if ltb len 1
    then counted
    else save_part save_img at len counted

-- The callbacks that main.c sets; both always return 0.
unfoldable pub upload_callbacks :
    {S : Type 0} → (S → Bytes → S × Option Bytes) → (Bytes → Bool) → Handler (Upload S)
upload_callbacks save_img is_img (header_value at len) u =
    (x_on_header_value is_img at len u, false)
upload_callbacks save_img is_img (chunk_data at len) u = (x_on_chunk_data save_img at len u, false)
upload_callbacks save_img is_img _ u = (u, false)
