-- ===== src/Key/Gen.antt =====
-- src/zutil.c: `gen_key`, and the choice of the cache key in `get_img` (src/zimg.c) and
-- `get_img_mode_db` (src/zdb.c). `snprintf` with the size 128 keeps 127 bytes.
pub mod Int
pub mod Injective
pub mod Original
use ximg.Prelude.{
  ℕ, zero, suc, ◌+◌, ◌-◌, ◌*◌, ◌/◌, ◌%◌, ◌&&◌, Bool, List, [], ◌∷◌, ◌++◌, Bytes, take, Option, none,
  some, ltb, ◌==◌, if◌then◌else◌,
}
use ximg.Prelude.Int.{ℤ, pos, negsuc, ◌==ℤ◌}
use ximg.Text.{str_lcpy}
use ximg.Settings.{ZimgReq, Settings, cache_key_size}

-- The decimal digits of a number below `10 ^ fuel`.
unfoldable pub digits : ℕ → ℕ → Bytes
digits zero n = []
digits (suc fuel) n =
    let front = digits fuel (n / 10) in
    if ltb n 10 then (b'0' + n) ∷ [] else front ++ ((b'0' + n % 10) ∷ [])

-- `%d`: an `int` has at most ten digits.
unfoldable pub int_text : ℤ → Bytes
int_text (pos n) = digits 10 n
int_text (negsuc n) = b'-' ∷ digits 10 (suc n)

-- `snprintf(key, CACHE_KEY_SIZE, "%s", s)`
abbrev pub clip : Bytes → Bytes
clip s = take 127 s

-- The loop over the `argc - 1` numbers.
unfoldable pub gen_key_loop : Bytes → List ℤ → Bytes
gen_key_loop key [] = key
gen_key_loop key (argv ∷ rest) = gen_key_loop (clip (clip (key ++ (b':' ∷ int_text argv)))) rest

-- `gen_key(key, md5, argc, ...)`: with no number there is no format either.
unfoldable pub gen_key : Bytes → List ℤ → Bytes → Bytes
gen_key md5 [] fmt = clip md5
gen_key md5 (argv ∷ rest) fmt = clip (clip (gen_key_loop (clip md5) (argv ∷ rest) ++ (b':' ∷ fmt)))

abbrev pub is_zero : ℤ → Bool
is_zero n = n ==ℤ pos 0

-- The numbers that `get_img` passes.
abbrev pub key_args : ZimgReq → List ℤ
key_args r = r.width ∷ r.height ∷ r.proportion ∷ r.gray ∷ r.x ∷ r.y ∷ r.rotate ∷ r.quality ∷ []

-- The branch without a script.
unfoldable pub plain_key : ZimgReq → Bytes
plain_key r =
    if is_zero r.proportion && (is_zero r.width && is_zero r.height)
    then str_lcpy r.md5 cache_key_size
    else gen_key r.md5 (key_args r) r.fmt

unfoldable pub rsp_cache_key : Settings → ZimgReq → Bytes
rsp_cache_key st r = elim r.file_type [
  | none ↦ plain_key r
  | some t ↦ if st.script_on == 1 then clip (r.md5 ++ (b':' ∷ t)) else plain_key r
]
