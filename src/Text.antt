-- ===== src/Text.antt =====
-- src/zutil.c: the helpers on C strings. A C string is the list of its bytes in front of the NUL, and
-- a pointer into it is the number of bytes in front of it.
pub mod Search
pub mod Copy
use ximg.Prelude.{
  ℕ, zero, suc, ◌+◌, ◌-◌, ◌%◌, ◌^◌, Bool, true, false, ◌&&◌, ◌||◌, List, [], ◌∷◌, ◌++◌, Bytes,
  length, take, drop, get_or, Option, none, some, leb, ltb, ◌==◌, if◌then◌else◌,
}

-- `size_t` wraps.
abbrev pub size_sub : ℕ → ℕ → ℕ
size_sub a b = (a + 2 ^ 64 - b) % 2 ^ 64

-- The loop on `n--`. It does not stop at a NUL; `p` is the memory from the pointer on. `none` is a read
-- behind it, and the inner `none` the result 0.
unfoldable pub strnchr : Bytes → ℕ → ℕ → Option (Option ℕ)
strnchr p c zero = some none
strnchr [] c (suc n) = none
strnchr (x ∷ p) c (suc n) =
    let later = strnchr p c n in
    if x == c then some (some 0) else elim later [
      | none ↦ none
      | some found ↦ some (elim found [ none ↦ none | some i ↦ some (i + 1) ])
    ]

-- `strncmp(s, find, strlen(find)) == 0`
unfoldable pub starts_with : Bytes → Bytes → Bool
starts_with s [] = true
starts_with [] (f ∷ fs) = false
starts_with (c ∷ s) (f ∷ fs) = c == f && starts_with s fs

-- The two loops of `strnstr` at `s`, looking for `c` with `find` behind it; `i` is the index of `s`.
unfoldable pub strnstr_loop : ℕ → Bytes → Bytes → ℕ → ℕ → Option ℕ
unfolding starts_with
strnstr_loop c find [] slen i = none
strnstr_loop c find (sc ∷ s) zero i = none
strnstr_loop c find (sc ∷ s) (suc slen) i =
    let later = strnstr_loop c find s slen (i + 1) in
    if sc == c
    then if ltb slen (length find) then none else if starts_with s find then some i else later
    else later

unfoldable pub strnstr : Bytes → Bytes → ℕ → Option ℕ
unfolding strnstr_loop
strnstr s [] slen = some 0
strnstr s (c ∷ find) slen = strnstr_loop c find s slen 0

-- What `dst` holds after the call.
unfoldable pub str_lcpy : Bytes → ℕ → Bytes
str_lcpy src size = take (size_sub size 1) src

unfoldable pub str_lcat : Bytes → Bytes → ℕ → Bytes
str_lcat dst src size =
    let room = size_sub size (length dst + 1) in if room == 0 then dst else dst ++ take room src

-- The loop of `get_type` behind the first `.`: the text behind the last one.
unfoldable pub last_type : Bytes → Bytes → Bytes
last_type found [] = found
last_type found (c ∷ s) = last_type (if c == b'.' then s else found) s

-- `strchr(filename, '.')`, and the text behind it.
unfoldable pub after_dot : Bytes → Option Bytes
after_dot [] = none
after_dot (c ∷ s) = if c == b'.' then some s else after_dot s

-- `none` is the result -1; else what is copied to `type`.
unfoldable pub get_type : Bytes → Option Bytes
unfolding after_dot last_type str_lcpy
get_type filename = elim (after_dot filename) [
  | none ↦ none
  | some s ↦ some (str_lcpy (last_type s s) 32)
]

abbrev pub path_max_size : ℕ
path_max_size = 512

-- What `file_path` holds after the call. With an empty path the code reads in front of it.
unfoldable pub get_file_path : Bytes → Bytes → Bytes
get_file_path path file_name =
    let dir =
      if get_or path (length path - 1) 0 == b'/'
      then path
      else str_lcat path (b'/' ∷ []) path_max_size in
    str_lcat dir file_name path_max_size
