-- ===== src/Http/Headers.antt =====
-- src/zhttpd.c: `conf_get_headers`, the headers of the configuration. Memory is always given.
pub mod Printed
use ximg.Prelude.{
  ℕ, zero, suc, ◌+◌, ◌-◌, Bool, ◌||◌, List, [], ◌∷◌, ◌++◌, Bytes, length, take, drop, Option, none,
  some, leb, if◌then◌else◌,
}
use ximg.Prelude.Memory.{◌>>=◌}
use ximg.Access.{zimg_strlchr, strchr_from}
use ximg.Text.{size_sub}

-- The sizes of `key` and `value`.
abbrev pub key_size : ℕ
key_size = 128

abbrev pub value_size : ℕ
value_size = 512

-- The two calls of `strncpy` into an entry of zeros; `value` is the index behind the colon. It is none
-- where one writes behind its array, or leaves no NUL in it.
unfoldable pub copy_header : Bytes → ℕ → ℕ → ℕ → Option (Bytes × Bytes)
copy_header mem key value stop =
    let key_len = size_sub (value - 1) key in
    let value_len = size_sub stop value in
    if leb key_size key_len || leb value_size value_len
    then none
    else some (take key_len (drop key mem), take value_len (drop value mem))

-- The list after one entry, with the new header in front.
unfoldable pub add_entry : Bytes → ℕ → ℕ → List (Bytes × Bytes) → Option (List (Bytes × Bytes))
unfolding copy_header
add_entry mem start stop headers = elim (strchr_from mem start b':') [
  | none ↦ some headers
  | some value ↦ (do header ← copy_header mem start (value + 1) stop; some (header ∷ headers))
]

-- The loop over the entries at `start`, on fuel. `mem` is the copied text of `hdr_len` bytes and what
-- the heap holds behind it up to a NUL: `hdr` itself is not closed by one.
unfoldable pub headers_loop :
    ℕ → Bytes → ℕ → ℕ → List (Bytes × Bytes) → Option (List (Bytes × Bytes))
unfolding add_entry
headers_loop zero mem hdr_len start headers = none
headers_loop (suc fuel) mem hdr_len start headers =
    let stop : ℕ = elim (strchr_from mem start b';') [ none ↦ hdr_len | some i ↦ i ] in
    let rest = (do
      more ← add_entry mem start stop headers
      headers_loop fuel mem hdr_len (stop + 1) more) in
    if leb start hdr_len then rest else some headers

-- `beyond` is the heap behind `hdr`.
unfoldable pub conf_get_headers : Bytes → Bytes → Option (List (Bytes × Bytes))
unfolding headers_loop
conf_get_headers hdr_str beyond =
    headers_loop (length hdr_str + 2) (hdr_str ++ beyond) (length hdr_str) 0 []
