-- ===== src/Text/Copy.antt =====
-- How far `str_lcat` and `get_file_path` write, and what they leave in the destination.
use ximg.Prelude.{
  ℕ, ◌+◌, ◌-◌, ◌%◌, ◌^◌, ◌<◌, ◌≤◌, false, [], ◌∷◌, ◌++◌, Bytes, length, take, get_or, ◌==◌,
  if◌then◌else◌, ◌≡◌, ap, ◌∙◌, arith, Bool-cases, inl, inr, ==_iff, append-nil, length-append,
  length-take, take_all,
}
use ximg.Text.{str_lcat, get_file_path, path_max_size}

-- With room in the destination `str_lcat` appends as much as fits in front of the NUL.
pub str_lcat-take :
    (dst src : Bytes) (size : ℕ)
    → length dst < size
    → size < 2 ^ 64
    → str_lcat dst src size ≡ dst ++ take (size - (length dst + 1)) src
unfolding str_lcat
str_lcat-take dst src size room small =
    let e : (size + 2 ^ 64 - (length dst + 1)) % 2 ^ 64 ≡ size - (length dst + 1) = omega arith in
    rw e (elim (Bool-cases (size - (length dst + 1) == 0)) [
      | inl full ↦
          let z = (==_iff (size - (length dst + 1)) 0).0 full in rw (full, z) (rw append-nil)
      | inr more ↦ rw more
    ])

length-str_lcat :
    (dst src : Bytes) (size : ℕ)
    → length dst < size
    → size < 2 ^ 64
    → length (str_lcat dst src size) < size
length-str_lcat dst src size room small = omega (
  arith,
  ap length (str_lcat-take dst src size room small),
  length-append dst (take (size - (length dst + 1)) src),
  length-take (size - (length dst + 1)) src,
)

-- A destination that is already as long as `size` is appended to: the room left is computed in
-- `size_t` and wraps, so all of a shorter source is written behind the end.
pub str_lcat_overflow :
    (dst src : Bytes) (size : ℕ)
    → size ≤ length dst
    → length dst + length src + 1 < 2 ^ 64
    → str_lcat dst src size ≡ dst ++ src
unfolding str_lcat
str_lcat_overflow dst src size full small =
    let room = (size + 2 ^ 64 - (length dst + 1)) % 2 ^ 64 in
    let e : (room == 0) ≡ false = ground arith in
    rw e (ap (◌++◌ dst) (take_all room src (omega arith)))

-- The directory with its closing slash.
abbrev pub as_dir : Bytes → Bytes
as_dir path = if get_or path (length path - 1) 0 == b'/' then path else path ++ (b'/' ∷ [])

pub length-get_file_path :
    (path file_name : Bytes)
    → length path < path_max_size
    → length (get_file_path path file_name) < path_max_size
unfolding get_file_path
length-get_file_path path file_name fits =
    elim (Bool-cases (get_or path (length path - 1) 0 == b'/')) [
      | inl slash ↦ rw slash (length-str_lcat path file_name path_max_size fits (omega arith))
      | inr bare ↦
          let dir_fits = length-str_lcat path (b'/' ∷ []) path_max_size fits (omega arith) in
          rw bare (
            length-str_lcat (str_lcat path (b'/' ∷ []) path_max_size) file_name path_max_size
              dir_fits (omega arith))
    ]

-- Where path, slash and name fit `PATH_MAX_SIZE` with the NUL, `get_file_path` gives these three, the
-- slash only if the path does not end in one.
pub get_file_path-as_dir :
    (path file_name : Bytes)
    → length (as_dir path) + length file_name < path_max_size
    → get_file_path path file_name ≡ as_dir path ++ file_name
unfolding get_file_path
get_file_path-as_dir path file_name room =
    elim (Bool-cases (get_or path (length path - 1) 0 == b'/')) [
      | inl slash ↦
          let fits : length path + length file_name < path_max_size = rw slash at room in
          rw slash (
            str_lcat-take path file_name path_max_size (omega arith) (omega arith)
            ∙ ap (◌++◌ path) (take_all _ file_name (omega arith)))
      | inr bare ↦
          let dir = path ++ (b'/' ∷ []) in
          let len = length-append path (b'/' ∷ []) in
          let fits : length dir + length file_name < path_max_size = rw bare at room in
          let e : str_lcat path (b'/' ∷ []) path_max_size ≡ dir =
            str_lcat-take path (b'/' ∷ []) path_max_size (omega arith) (omega arith)
            ∙ ap (◌++◌ path) (take_all _ (b'/' ∷ []) (omega arith)) in
          rw (bare, e)
            (str_lcat-take dir file_name path_max_size (omega arith) (omega arith)
              ∙ ap (◌++◌ dir) (take_all _ file_name (omega arith)))
    ]
