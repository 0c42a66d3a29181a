-- ===== src/Images.antt =====
-- src/zimg.c: `new_img` and `save_img`, with the calls on files, of src/zutil.c and of MagickWand that
-- they and the handlers of images make. A result 1 is `true` and -1 is `false`.
pub mod Parts
pub mod Order
pub mod Disk
pub mod Database
pub mod Quiet
pub mod OnDisk
pub mod RoundTrip
pub mod Saved
pub mod Served
use ximg.Prelude.{
  ℕ, ◌+◌, ◌-◌, Bool, true, false, not, ◌&&◌, ◌||◌, List, [], ◌∷◌, ◌++◌, Bytes, length, take, drop,
  Option, none, some, leb, ltb, ◌==◌, if◌then◌else◌, codes,
}
use ximg.Prelude.Int.{ℤ, pos, negsuc}
use ximg.Cache.{CacheClient, set_cache_bin}
use ximg.Db.{DbClient, exist_db, save_img_db}
use ximg.Http.{md5_text}
use ximg.Key.{str_hash}
use ximg.Key.Gen.{int_text}
use ximg.Settings.{ZimgReq, Settings, cache_max_size}

-- The calls of the system, and the functions of zutil.c that walk over directories. A file descriptor
-- is a number. `write` and `read` give none for -1.
pub record Files (W : Type 0) : Type 0 where
  pub is_dir : W → Bytes → Bool
  pub is_file : W → Bytes → Bool
  pub mk_dirs : W → Bytes → W × Bool
  pub delete_file : W → Bytes → W × Bool
  pub open_write : W → Bytes → W × Option ℕ
  pub open_read : W → Bytes → W × Option ℕ
  pub flock_ex : W → ℕ → W × Bool
  pub flock_un : W → ℕ → W
  pub st_size : W → ℕ → ℕ
  pub write : W → ℕ → Bytes → W × Option ℕ
  pub read : W → ℕ → ℕ → W × Option Bytes
  pub close : W → ℕ → W

-- What a thread works with: its connections, and the system.
pub record Thread (W : Type 0) : Type 0 where
  pub settings : Settings
  pub cache : CacheClient W
  pub db : DbClient W
  pub files : Files W

-- The results of `convert` and `lua_convert`: -1, 0 and the others.
pub data Converted : Type 0 where
  failed unchanged changed : Converted

-- The calls of MagickWand on the wand `M`, and the two conversions on it. A blob that is not given is
-- NULL.
pub record Magick (W M : Type 0) : Type 0 where
  pub new_magick_wand : W → Option M
  pub read_image_blob : M → Bytes → M × Bool
  pub read_image : W → M → Bytes → M × Bool
  pub get_image_length : M → ℕ
  pub reset_iterator : M → M
  pub get_image_blob : M → Option Bytes
  pub convert : Settings → ZimgReq → M → M × Converted
  pub lua_convert : Settings → ZimgReq → M → M × Converted
  pub info_text : M → Bytes

-- `snprintf(path, 512, ...)`
abbrev pub clip_path : Bytes → Bytes
clip_path s = take 511 s

-- "%s/%d/%d/%s" with the levels from the two parts of the key.
unfoldable pub whole_path : Settings → Bytes → Bytes
whole_path st md5 =
    let level = λ (s : Bytes). int_text (pos (str_hash s)) in
    clip_path (st.img_path ++ (b'/' ∷ (level md5 ++ (b'/' ∷ (level (drop 3 md5) ++ (b'/' ∷ md5))))))

unfoldable pub orig_path : Settings → Bytes → Bytes
unfolding whole_path
orig_path st md5 = clip_path (whole_path st md5 ++ codes "/0*0")

-- From the lock on, for the descriptor `fd`: whether all is written. With a lock or a write that fails
-- the file stays empty or short.
unfoldable pub write_locked : {W : Type 0} → Files W → W → ℕ → Bytes → W × Bool
write_locked files w fd buff =
    let lock = files.flock_ex w fd in
    let wlen = files.write lock.0 fd buff in
    if lock.1
    then elim wlen.1 [
      | none ↦ (wlen.0, false)
      | some n ↦ if ltb n (length buff) then (wlen.0, false) else (files.flock_un wlen.0 fd, true)
    ]
    else (lock.0, false)

unfoldable pub new_img : {W : Type 0} → Files W → W → Bytes → Bytes → W × Bool
new_img files w buff save_name =
    let fd = files.open_write w save_name in
    elim fd.1 [
      | none ↦ (fd.0, false)
      | some n ↦ let r = write_locked files fd.0 n buff in (files.close r.0 n, r.1)
    ]

-- The label `cache` and what stands behind it.
unfoldable pub cache_saved : {W : Type 0} → Thread W → W → Bytes → Bytes → W × Bool
cache_saved thr w md5 buff =
    if ltb (length buff) cache_max_size
    then ((set_cache_bin thr.cache w md5 buff).0, true)
    else (w, true)

-- From `snprintf(save_name, ...)` on.
unfoldable pub save_orig : {W : Type 0} → Thread W → W → Bytes → Bytes → W × Bool
unfolding orig_path cache_saved new_img
save_orig thr w md5 buff =
    let name = orig_path thr.settings md5 in
    let r = new_img thr.files w buff name in
    if thr.files.is_file w name
    then cache_saved thr w md5 buff
    else if r.1
    then cache_saved thr r.0 md5 buff
    else (r.0, false)

-- The part for the disk.
unfoldable pub save_disk : {W : Type 0} → Thread W → W → Bytes → Bytes → W × Bool
unfolding whole_path save_orig
save_disk thr w md5 buff =
    let path = whole_path thr.settings md5 in
    let r = thr.files.mk_dirs w path in
    if thr.files.is_dir w path
    then save_orig thr w md5 buff
    else if r.1
    then save_orig thr r.0 md5 buff
    else (r.0, false)

-- The part for the other modes.
unfoldable pub save_db : {W : Type 0} → Thread W → W → Bytes → Bytes → W × Bool
save_db thr w md5 buff =
    let found = exist_db thr.db w md5 in
    if found.1 then (found.0, true) else save_img_db thr.db found.0 md5 buff

-- The result, and the key that is left in `md5`. The modes of the settings and of the database client
-- are one field of the program.
unfoldable pub save_img : {W : Type 0} → Thread W → W → Bytes → (W × Bool) × Bytes
unfolding save_db save_disk
save_img thr w buff =
    let sum = md5_text buff in
    if not (thr.settings.mode == 1)
    then (save_db thr w sum buff, sum)
    else (save_disk thr w sum buff, sum)
