-- ===== src/Images/Quiet.antt =====
-- The functions for images send no reply: they leave that to the handlers.
use ximg.Prelude.{
  Bool, Bytes, Option, none, some, ◌≡◌, refl, arith, Bool-cases, Option-cases, inl, inr,
}
use ximg.Prelude.Int.{ℤ, pos, ◌==ℤ◌}
use ximg.Cache.{find_cache_bin}
use ximg.Db.{exist_db, get_img_db}
use ximg.Http.{Request, Response, zimg_etag_set}
use ximg.Images.{Thread, Magick, whole_path}
use ximg.Images.Database
use ximg.Images.Database.{Made, refused, made, get_img_mode_db, admin_img_mode_db, info_img_mode_db}
use ximg.Images.Disk.{
  finish, get_missed, get_img, admin_img, info_img, make_img, read_img, rsp_path, command_done,
}
use ximg.Images.Parts.{serve}
use ximg.Key.Gen.{rsp_cache_key}
use ximg.Settings.{ZimgReq, Settings}

zimg_etag_set-replies :
    (req : Request) (buff : Bytes) (r : Response) → (zimg_etag_set req buff r).0.replies ≡ r.replies
unfolding zimg_etag_set
zimg_etag_set-replies req buff r = ground arith

serve-replies :
    (st : Settings) (req : Request) (buff : Bytes) (r : Response)
    → (serve st req buff r).0.replies ≡ r.replies
unfolding serve
serve-replies st req buff r = ground (arith, zimg_etag_set-replies req buff r)

module _ {W M : Type 0} (thr : Thread W) (mg : Magick W M) where
  finish-replies :
      (z : ZimgReq) (req : Request) (r : Response) (done : W × Option (Bool × Bytes))
      → (finish thr z req r done).1.replies ≡ r.replies
  unfolding finish
  finish-replies z req r (w, none) = refl
  finish-replies z req r (w, some (to_save, buff)) = serve-replies thr.settings req buff r

  get_missed-replies :
      (w : W) (z : ZimgReq) (req : Request) (r : Response)
      → (get_missed thr mg w z req r).1.replies ≡ r.replies
  unfolding get_missed
  get_missed-replies w z req r =
      elim (Option-cases (thr.files.open_read w (rsp_path thr.settings z)).1) [
        | inl e ↦
            rw (get_missed, e)
              (finish-replies z req r
                (make_img thr mg (thr.files.open_read w (rsp_path thr.settings z)).0 z))
        | inr (n, e) ↦
            rw (get_missed, e)
              (finish-replies z req r
                (read_img thr.files (thr.files.open_read w (rsp_path thr.settings z)).0 n))
      ]

  pub get_img-replies :
      (w : W) (z : ZimgReq) (req : Request) (r : Response)
      → (get_img thr mg w z req r).1.replies ≡ r.replies
  unfolding get_img
  get_img-replies w z req r =
      let hit = find_cache_bin thr.cache w (rsp_cache_key thr.settings z) in
      elim (Bool-cases (thr.files.is_dir w (whole_path thr.settings z.md5))) [
        | inr e ↦ rw (get_img, e) refl
        | inl e ↦ elim (Option-cases hit.1) [
          | inl e' ↦ rw (get_img, e, e') (get_missed-replies hit.0 z req r)
          | inr (buff, e') ↦ rw (get_img, e, e') (serve-replies thr.settings req buff r)
        ]
      ]

  pub admin_img-replies :
      (w : W) (md5 : Bytes) (t : ℤ) (r : Response) → (admin_img thr w md5 t r).1.replies ≡ r.replies
  unfolding admin_img command_done
  admin_img-replies w md5 t r = ground arith

  pub info_img-replies :
      (w : W) (md5 : Bytes) (r : Response) → (info_img thr mg w md5 r).0.replies ≡ r.replies
  unfolding info_img
  info_img-replies w md5 r = ground arith

  db_finish-replies :
      (z : ZimgReq) (req : Request) (r : Response) (done : W × Made)
      → (Database.finish thr z req r done).1.replies ≡ r.replies
  unfolding Database.finish
  db_finish-replies z req r (w, refused n) = refl
  db_finish-replies z req r (w, made to_save buff) =
      elim (Bool-cases ((serve thr.settings req buff r).1 ==ℤ pos 2)) [
        | inl e ↦ rw (Database.finish, e) (serve-replies thr.settings req buff r)
        | inr e ↦ rw (Database.finish, e) (serve-replies thr.settings req buff r)
      ]

  pub get_img_mode_db-replies :
      (w : W) (z : ZimgReq) (req : Request) (r : Response)
      → (get_img_mode_db thr mg w z req r).1.replies ≡ r.replies
  unfolding get_img_mode_db
  get_img_mode_db-replies w z req r =
      let key = rsp_cache_key thr.settings z in
      let found = exist_db thr.db w z.md5 in
      let hit = find_cache_bin thr.cache found.0 key in
      let got = get_img_db thr.db hit.0 key in
      elim (Bool-cases found.1) [
        | inr e ↦ rw (get_img_mode_db, e) refl
        | inl e ↦ elim (Option-cases hit.1) [
          | inr (buff, e') ↦ rw (get_img_mode_db, e, e') (serve-replies thr.settings req buff r)
          | inl e' ↦ elim (Option-cases got.1) [
            | inr (buff, e'') ↦
                rw (get_img_mode_db, e, e', e'') (serve-replies thr.settings req buff r)
            | inl e'' ↦
                rw (get_img_mode_db, e, e', e'')
                  (db_finish-replies z req r (Database.make_img thr mg got.0 z))
          ]
        ]
      ]

  pub admin_img_mode_db-replies :
      (w : W) (md5 : Bytes) (t : ℤ) (r : Response)
      → (admin_img_mode_db thr w md5 t r).1.replies ≡ r.replies
  unfolding admin_img_mode_db command_done
  admin_img_mode_db-replies w md5 t r = ground arith

  pub info_img_mode_db-replies :
      (w : W) (md5 : Bytes) (r : Response) → (info_img_mode_db thr mg w md5 r).1.replies ≡ r.replies
  unfolding info_img_mode_db
  info_img_mode_db-replies w md5 r = ground arith
