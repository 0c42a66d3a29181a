-- ===== src/Images/Database.antt =====
-- src/zdb.c: `get_img_mode_db`, `admin_img_mode_db` and `info_img_mode_db`, which serve the images of a
-- database. Memory is always given, and `free` and the wand's end are left out.
use ximg.Prelude.{Bool, true, false, ◌&&◌, Bytes, Option, none, some, if◌then◌else◌}
use ximg.Prelude.Int.{ℤ, pos, ◌==ℤ◌}
use ximg.Cache.{find_cache_bin}
use ximg.Db.{exist_db, get_img_db, save_img_db, del_db}
use ximg.Http.{Request, Response, add_text}
use ximg.Images.{Thread, Magick, Converted, failed, unchanged, changed}
use ximg.Images.Disk.{command_done}
use ximg.Images.Parts.{run_convert, wants_save, cache_small, fail, with_world, serve}
use ximg.Key.Gen.{rsp_cache_key}
use ximg.Settings.{ZimgReq, Settings, cache_key_size}
use ximg.Text.{str_lcpy}

-- `goto err` with the value that `result` has there, or the flag `to_save` with the bytes.
pub data Made : Type 0 where
  refused : ℤ → Made
  made : Bool → Bytes → Made

-- The original image, from the cache or else the database, which is then cached where it is small.
unfoldable pub find_orig : {W : Type 0} → Thread W → W → Bytes → W × Option Bytes
find_orig thr w md5 =
    let hit = find_cache_bin thr.cache w md5 in
    let got = get_img_db thr.db hit.0 md5 in
    elim hit.1 [
      | some orig_buff ↦ (hit.0, some orig_buff)
      | none ↦ elim got.1 [
        | none ↦ (got.0, none)
        | some orig_buff ↦ (cache_small thr.cache got.0 md5 orig_buff, some orig_buff)
      ]
    ]

unfoldable pub blob_of : {W M : Type 0} → Magick W M → Bool → ℤ → M → Made
blob_of mg to_save result im = elim (mg.get_image_blob im) [
  | none ↦ refused result
  | some buff ↦ made to_save buff
]

-- `result` is what the conversion returned.
unfoldable pub converted : {W M : Type 0} → Magick W M → M × Converted → Made
converted mg (im, failed) = refused fail
converted mg (im, unchanged) = blob_of mg false (pos 0) im
converted mg (im, changed) = blob_of mg true (pos 1) im

-- From `MagickReadImageBlob` on; its MagickFalse is 0.
unfoldable pub make_from :
    {W M : Type 0} → Magick W M → Settings → ZimgReq → M → Option Bytes → Made
make_from mg st zr im none = refused fail
make_from mg st zr im (some orig_buff) =
    let opened = mg.read_image_blob im orig_buff in
    if opened.1 then converted mg (run_convert mg st zr opened.0) else refused (pos 0)

unfoldable pub make_img : {W M : Type 0} → Thread W → Magick W M → W → ZimgReq → W × Made
make_img thr mg w zr = elim (mg.new_magick_wand w) [
  | none ↦ (w, refused fail)
  | some im ↦ let orig = find_orig thr w zr.md5 in (orig.0, make_from mg thr.settings zr im orig.1)
]

-- The save behind `evbuffer_add`.
unfoldable pub save_made : {W : Type 0} → Thread W → W → ZimgReq → Bool → Bytes → W
save_made thr w zr to_save buff =
    if to_save && wants_save thr.settings zr
    then (save_img_db thr.db w (rsp_cache_key thr.settings zr) buff).0
    else w

-- From behind the conversion to the end. A 304 skips the save.
unfoldable pub finish :
    {W : Type 0} → Thread W → ZimgReq → Request → Response → W × Made → W × Response × ℤ
finish thr zr req r (w, refused result) = (w, r, result)
finish thr zr req r (w, made to_save buff) =
    let st = thr.settings in
    let cached = cache_small thr.cache w (rsp_cache_key st zr) buff in
    let served = serve st req buff r in
    if served.1 ==ℤ pos 2
    then with_world cached served
    else with_world (save_made thr cached zr to_save buff) served

unfoldable pub get_img_mode_db :
    {W M : Type 0} → Thread W → Magick W M → W → ZimgReq → Request → Response → W × Response × ℤ
get_img_mode_db thr mg w zr req r =
    let st = thr.settings in
    let key = rsp_cache_key st zr in
    let found = exist_db thr.db w zr.md5 in
    let hit = find_cache_bin thr.cache found.0 key in
    let got = get_img_db thr.db hit.0 key in
    if found.1
    then elim hit.1 [
      | some buff ↦ with_world hit.0 (serve st req buff r)
      | none ↦ elim got.1 [
        | some buff ↦ with_world (cache_small thr.cache got.0 key buff) (serve st req buff r)
        | none ↦ finish thr zr req r (make_img thr mg got.0 zr)
      ]
    ]
    else (found.0, r, fail)

-- `result` keeps the 1 of `exist_db` unless it is set.
unfoldable pub admin_img_mode_db :
    {W : Type 0} → Thread W → W → Bytes → ℤ → Response → W × Response × ℤ
admin_img_mode_db thr w md5 t r =
    let cache_key = str_lcpy md5 cache_key_size in
    let found = exist_db thr.db w cache_key in
    let gone = del_db thr.db found.0 cache_key in
    if found.1
    then if t ==ℤ pos 1
      then if gone.1 then (gone.0, command_done md5 t r, pos 1) else (gone.0, r, pos 1)
      else (found.0, r, pos 1)
    else (found.0, r, pos 2)

unfoldable pub info_img_mode_db :
    {W M : Type 0} → Thread W → Magick W M → W → Bytes → Response → W × Response × ℤ
info_img_mode_db thr mg w md5 r =
    let got = get_img_db thr.db w md5 in
    elim got.1 [
      | none ↦ (got.0, r, pos 0)
      | some orig_buff ↦ elim (mg.new_magick_wand got.0) [
        | none ↦ (got.0, r, fail)
        | some im ↦
            let opened = mg.read_image_blob im orig_buff in
            if opened.1
            then (got.0, add_text (mg.info_text opened.0) r, pos 1)
            else (got.0, r, fail)
      ]
    ]
