-- ===== src/Images/Disk.antt =====
-- src/zimg.c: `get_img`, `admin_img` and `info_img`, which serve the images of the disk. Memory is always
-- given, and `free` and the wand's end are left out.
use ximg.Prelude.{
  ℕ, Bool, true, false, ◌&&◌, [], ◌∷◌, ◌++◌, Bytes, length, take, replicate, Option, none, some,
  ltb, ◌==◌, if◌then◌else◌, codes,
}
use ximg.Prelude.Int.{ℤ, pos, ◌==ℤ◌}
use ximg.Cache.{find_cache_bin, set_cache_bin, del_cache}
use ximg.Http.{Request, Response, add_text, add_type}
use ximg.Images.{
  Files, Thread, Magick, Converted, failed, unchanged, changed, clip_path, whole_path, orig_path,
  new_img,
}
use ximg.Images.Parts.{
  is_original, run_convert, wants_save, cache_small, fail, with_world, serve, command_page,
}
use ximg.Key.Gen.{int_text, rsp_cache_key}
use ximg.Settings.{ZimgReq, Settings, cache_max_size}

-- `name`, of at most 127 bytes.
unfoldable pub image_name : ZimgReq → Bytes
image_name zr = take 127 (
    int_text zr.width
    ++ (b'*'
        ∷ (int_text zr.height
            ++ (codes "_p"
                ++ (int_text zr.proportion
                    ++ (codes "_g"
                        ++ (int_text zr.gray
                            ++ (b'_'
                                ∷ (int_text zr.x
                                    ++ (b'*'
                                        ∷ (int_text zr.y
                                            ++ (codes "_r"
                                                ++ (int_text zr.rotate
                                                    ++ (codes "_q"
                                                        ++ (int_text zr.quality
                                                            ++ (b'.' ∷ zr.fmt))))))))))))))))

unfoldable pub plain_path : Settings → ZimgReq → Bytes
plain_path st zr =
    if is_original zr
    then orig_path st zr.md5
    else clip_path (whole_path st zr.md5 ++ (b'/' ∷ image_name zr))

unfoldable pub rsp_path : Settings → ZimgReq → Bytes
rsp_path st zr = elim zr.file_type [
  | none ↦ plain_path st zr
  | some t ↦
      if st.script_on == 1
      then clip_path (whole_path st zr.md5 ++ (codes "/t_" ++ t))
      else plain_path st zr
]

-- The original image read from its file, and cached where it is small.
unfoldable pub orig_from_disk :
    {W M : Type 0} → Thread W → Magick W M → W → ZimgReq → M → W × Option M
orig_from_disk thr mg w zr im =
    let opened = mg.read_image w im (orig_path thr.settings zr.md5) in
    let back = mg.reset_iterator opened.0 in
    if opened.1
    then if ltb (mg.get_image_length opened.0) cache_max_size
      then elim (mg.get_image_blob back) [
        | none ↦ (w, none)
        | some new_buff ↦ ((set_cache_bin thr.cache w zr.md5 new_buff).0, some back)
      ]
      else (w, some opened.0)
    else (w, none)

-- The original image in the wand, from the cache where it is there and can be read.
unfoldable pub load_orig : {W M : Type 0} → Thread W → Magick W M → W → ZimgReq → M → W × Option M
load_orig thr mg w zr im =
    let hit = find_cache_bin thr.cache w zr.md5 in
    elim hit.1 [
      | none ↦ orig_from_disk thr mg hit.0 zr im
      | some orig_buff ↦
          let opened = mg.read_image_blob im orig_buff in
          if opened.1
          then (hit.0, some opened.0)
          else orig_from_disk thr mg (del_cache thr.cache hit.0 zr.md5).0 zr opened.0
    ]

-- The flag `to_save` with the bytes, or the label `err`.
abbrev pub Made : Type 0
Made = Option (Bool × Bytes)

unfoldable pub blob_of : {W M : Type 0} → Magick W M → Bool → M → Made
blob_of mg to_save im = elim (mg.get_image_blob im) [
  | none ↦ none
  | some buff ↦ some (to_save, buff)
]

unfoldable pub converted : {W M : Type 0} → Magick W M → M × Converted → Made
converted mg (im, failed) = none
converted mg (im, unchanged) = blob_of mg false im
converted mg (im, changed) = blob_of mg true im

-- The branch where the file of the response cannot be opened.
unfoldable pub make_img : {W M : Type 0} → Thread W → Magick W M → W → ZimgReq → W × Made
make_img thr mg w zr = elim (mg.new_magick_wand w) [
  | none ↦ (w, none)
  | some im ↦
      let loaded = load_orig thr mg w zr im in
      elim loaded.1 [
        | none ↦ (loaded.0, none)
        | some orig ↦ (loaded.0, converted mg (run_convert mg thr.settings zr orig))
      ]
]

-- The branch where it is open.
unfoldable pub read_img : {W : Type 0} → Files W → W → ℕ → W × Made
read_img files w fd =
    let len = files.st_size w fd in
    let got = files.read w fd len in
    if len == 0 then (w, none) else elim got.1 [
      | none ↦ (got.0, none)
      | some buff ↦ if ltb (length buff) len then (got.0, none) else (got.0, some (false, buff))
    ]

-- From the save of a new image to the end, without `close`.
unfoldable pub finish :
    {W : Type 0} → Thread W → ZimgReq → Request → Response → W × Made → W × Response × ℤ
finish thr zr req r (w, none) = (w, r, fail)
finish thr zr req r (w, some (to_save, buff)) =
    let st = thr.settings in
    let saved =
      if to_save && wants_save st zr then (new_img thr.files w buff (rsp_path st zr)).0 else w in
    with_world (cache_small thr.cache saved (rsp_cache_key st zr) buff) (serve st req buff r)

-- From `open(rsp_path, O_RDONLY)` on.
unfoldable pub get_missed :
    {W M : Type 0} → Thread W → Magick W M → W → ZimgReq → Request → Response → W × Response × ℤ
get_missed thr mg w zr req r =
    let fd = thr.files.open_read w (rsp_path thr.settings zr) in
    elim fd.1 [
      | none ↦ finish thr zr req r (make_img thr mg fd.0 zr)
      | some n ↦
          let done = finish thr zr req r (read_img thr.files fd.0 n) in
          (thr.files.close done.0 n, done.1, done.2)
    ]

unfoldable pub get_img :
    {W M : Type 0} → Thread W → Magick W M → W → ZimgReq → Request → Response → W × Response × ℤ
get_img thr mg w zr req r =
    let st = thr.settings in
    let hit = find_cache_bin thr.cache w (rsp_cache_key st zr) in
    if thr.files.is_dir w (whole_path st zr.md5)
    then elim hit.1 [
      | none ↦ get_missed thr mg hit.0 zr req r
      | some buff ↦ with_world hit.0 (serve st req buff r)
    ]
    else (w, r, fail)

-- The page that a command that is done answers with.
unfoldable pub command_done : Bytes → ℤ → Response → Response
command_done md5 t r = add_type (codes "text/html") (
    add_text
      (command_page (replicate 17 b' ') (codes "Admin Command Successful!") md5 (int_text t) []) r)

unfoldable pub admin_img : {W : Type 0} → Thread W → W → Bytes → ℤ → Response → W × Response × ℤ
admin_img thr w md5 t r =
    let path = whole_path thr.settings md5 in
    let gone = thr.files.delete_file w path in
    if thr.files.is_dir w path
    then if t ==ℤ pos 1
      then if gone.1 then (gone.0, command_done md5 t r, pos 1) else (gone.0, r, fail)
      else (w, r, fail)
    else (w, r, pos 2)

unfoldable pub info_img :
    {W M : Type 0} → Thread W → Magick W M → W → Bytes → Response → Response × ℤ
info_img thr mg w md5 r =
    if thr.files.is_dir w (whole_path thr.settings md5)
    then elim (mg.new_magick_wand w) [
      | none ↦ (r, fail)
      | some im ↦
          let opened = mg.read_image w im (orig_path thr.settings md5) in
          if opened.1 then (add_text (mg.info_text opened.0) r, pos 1) else (r, fail)
    ]
    else (r, pos 0)
