-- ===== src/FileSystem.antt =====
-- src/zutil.c: the functions on files and directories. The calls of the system are an argument, and `W`
-- is the state of everything outside of the program. A result 1 is `true` and -1 is `false`.
pub mod Levels
use ximg.Prelude.{
  leb, ℕ, zero, suc, ◌+◌, ◌-◌, Bool, true, false, not, ◌&&◌, ◌||◌, List, [], ◌∷◌, ◌++◌, Bytes,
  length, get_or, Option, none, some, ◌==◌, if◌then◌else◌, codes,
}
use ximg.Prelude.Int.{ℤ, pos, negsuc, ◌==ℤ◌}
use ximg.Text.{str_lcpy, str_lcat, starts_with, get_file_path}

pub data Kind : Type 0 where
  regular directory special : Kind

-- The calls of the system. `opendir` gives the names in the order in which `readdir` reads them, or none.
pub record System (W : Type 0) : Type 0 where
  pub stat : W → Bytes → Option Kind
  pub access : W → Bytes → Bool
  pub mkdir : W → Bytes → W × Bool
  pub remove : W → Bytes → W
  pub opendir : W → Bytes → Option (List Bytes)
  pub rmdir : W → Bytes → W × Bool

abbrev pub is_regular : Option Kind → Bool
is_regular none = false
is_regular (some regular) = true
is_regular (some directory) = false
is_regular (some special) = false

abbrev pub is_directory : Option Kind → Bool
is_directory none = false
is_directory (some regular) = false
is_directory (some directory) = true
is_directory (some special) = false

unfoldable pub is_file : {W : Type 0} → System W → W → Bytes → Bool
is_file sys w filename = is_regular (sys.stat w filename)

unfoldable pub is_dir : {W : Type 0} → System W → W → Bytes → Bool
is_dir sys w path = is_directory (sys.stat w path)

-- `strcmp(s, t) == 0`
abbrev pub same_text : Bytes → Bytes → Bool
same_text s t = length s == length t && starts_with s t

unfoldable pub is_special_dir : Bytes → Bool
is_special_dir path = same_text path (codes ".") || same_text path (codes "..")

unfoldable pub mk_dir : {W : Type 0} → System W → W → Bytes → W × Bool
mk_dir sys w path = if sys.access w path then (w, false) else sys.mkdir w path

-- One level of `mk_dirs`, where the text is cut at a slash.
unfoldable pub make_level : {W : Type 0} → System W → W → Bytes → W × Bool
make_level sys w tmp = if sys.access w tmp then (w, true) else sys.mkdir w tmp

-- `tmp[i]`, which is `c`, in the loop of `mk_dirs`.
unfoldable pub make_at : {W : Type 0} → System W → W → Bytes → ℕ → W × Bool
unfolding make_level
make_at sys w front c = if c == b'/' then make_level sys w front else (w, true)

-- The loop of `mk_dirs`: `front` is the text in front of `tmp[i]`.
unfoldable pub mk_dirs_loop : {W : Type 0} → System W → W → Bytes → Bytes → W × Bool
unfolding make_at
mk_dirs_loop sys w front [] = (w, true)
mk_dirs_loop sys w front (c ∷ rest) =
    let level = make_at sys w front c in
    let more = mk_dirs_loop sys level.0 (front ++ (c ∷ [])) rest in
    if level.1 then more else (level.0, false)

-- `tmp` with a slash at its end. With an empty path the code reads in front of it.
unfoldable pub with_slash : Bytes → Bytes
with_slash dir =
    let tmp = str_lcpy dir 256 in
    if get_or tmp (length tmp - 1) 0 == b'/' then tmp else str_lcat tmp (b'/' ∷ []) 256

-- The loop begins behind the first character.
abbrev pub from_second : {W : Type 0} → System W → W → Bytes → W × Bool
from_second sys w [] = (w, true)
from_second sys w (c ∷ rest) = mk_dirs_loop sys w (c ∷ []) rest

unfoldable pub mk_dirs : {W : Type 0} → System W → W → Bytes → W × Bool
unfolding mk_dirs_loop with_slash
mk_dirs sys w dir = from_second sys w (with_slash dir)

-- The text up to its last slash, with it; `found` is the one so far, and `front` all that was read.
unfoldable pub up_to_slash : Bytes → Bytes → Bytes → Bytes
up_to_slash found front [] = found
up_to_slash found front (c ∷ s) =
    let read = front ++ (c ∷ []) in up_to_slash (if c == b'/' then read else found) read s

-- `str_lcpy` leaves out the last character. The array `str` has 256 bytes, and the NUL is written behind as
-- many as `filename` has: none is a store outside of it.
unfoldable pub mk_dirf : {W : Type 0} → System W → W → Bytes → Option (W × Bool)
unfolding up_to_slash mk_dirs
mk_dirf sys w filename =
    let str = up_to_slash [] [] (str_lcpy filename (length filename)) in
    if sys.access w filename
    then some (w, true)
    else if leb 256 (length filename)
    then none
    else some (if length str == 0 then (w, true) else mk_dirs sys w str)

-- The loop over the entries of `path`: `ret` is the result so far, and `delete` the call of `delete_file`.
unfoldable pub delete_entries :
    {W : Type 0} → (W → Bytes → W × ℤ) → Bytes → W → List Bytes → ℤ → W × ℤ
unfolding is_special_dir
delete_entries delete path w [] ret = (w, ret)
delete_entries delete path w (d_name ∷ names) ret =
    let next = if is_special_dir d_name then (w, ret) else delete w (get_file_path path d_name) in
    let more = delete_entries delete path next.0 names next.1 in
    if not (is_special_dir d_name) && next.1 ==ℤ negsuc 0 then next else more

-- What `rmdir` returns: 0 or -1.
abbrev pub rmdir_result : Bool → ℤ
rmdir_result done = if done then pos 0 else negsuc 0

-- On fuel, one for each level of directories; with none left the result is -1.
unfoldable pub delete_file : {W : Type 0} → System W → ℕ → W → Bytes → W × ℤ
unfolding is_file is_dir delete_entries
delete_file sys zero w path = (w, negsuc 0)
delete_file sys (suc fuel) w path =
    let delete = delete_file sys fuel in
    let file = is_file sys w path in
    let w1 = if file then sys.remove w path else w in
    let ret = if file then pos 1 else negsuc 0 in
    if is_dir sys w1 path
    then elim (sys.opendir w1 path) [
      | none ↦ (w1, ret)
      | some names ↦
          let r = delete_entries delete path w1 names (pos 1) in
          let gone = sys.rmdir r.0 path in
          if r.1 ==ℤ pos 1 then (gone.0, rmdir_result gone.1) else r
    ]
    else (w1, ret)
