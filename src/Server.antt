-- ===== src/Server.antt =====
-- src/main.c: the choice of the functions that the handlers call, by `settings.mode`, and the server that
-- has them.
pub mod Routes
use ximg.Prelude.{◌==◌, if◌then◌else◌, Bool-cases, inl, inr}
use ximg.Http.{Request, Response, Server}
use ximg.Http.Admin.{admin_request_cb}
use ximg.Http.Admin.Once.{admin_request_cb-Answered, info_request_cb-Replied}
use ximg.Http.Get.{get_request_cb}
use ximg.Http.Get.Once.{get_request_cb-Answered}
use ximg.Http.Info.{info_request_cb}
use ximg.Http.Post.Once.{Fits}
use ximg.Http.Replied.{Replied, Answered}
use ximg.Images.{Thread, Magick, save_img}
use ximg.Images.Database.{get_img_mode_db, admin_img_mode_db, info_img_mode_db}
use ximg.Images.Disk.{get_img, admin_img, info_img}
use ximg.Images.Quiet.{
  get_img-replies, admin_img-replies, info_img-replies, get_img_mode_db-replies,
  admin_img_mode_db-replies, info_img_mode_db-replies,
}
use ximg.Images.Parts.{with_world}

-- `base` with the functions of the mode.
unfoldable pub set_callback : {W M : Type 0} → Thread W → Magick W M → Server W → Server W
set_callback thr mg base =
    let st = thr.settings in
    record base {
      settings = st;
      save_img = save_img thr;
      get_img = λ w z req r.
          if st.mode == 1 then get_img thr mg w z req r else get_img_mode_db thr mg w z req r;
      admin_img = λ w md5 t r.
          if st.mode == 1 then admin_img thr w md5 t r else admin_img_mode_db thr w md5 t r;
      info_img = λ w md5 r.
          if st.mode == 1
          then with_world w (info_img thr mg w md5 r)
          else info_img_mode_db thr mg w md5 r;
    }

-- In every mode, whatever the files, the databases, the cache and the images are, each of the three
-- handlers answers a request once, with one of the codes 200, 304, 403 and 404, where a body that is
-- posted fits its Content-Length and the boundary of a form has its `=`.
pub set_callback-Answered :
    {W M : Type 0} (thr : Thread W) (mg : Magick W M) (base : Server W) (w : W) (req : Request)
    (r : Response)
    → Fits req
    → Answered r (get_request_cb (set_callback thr mg base) w req r)
      × Answered r (admin_request_cb (set_callback thr mg base) w req r)
      × Replied r (info_request_cb (set_callback thr mg base) w req r).1
unfolding set_callback
set_callback-Answered thr mg base w req r fits =
    let s = set_callback thr mg base in
    elim (Bool-cases (thr.settings.mode == 1)) [
      | inl disk ↦ (
        get_request_cb-Answered s (λ w z req r. rw disk (get_img-replies thr mg w z req r)) w req r
            fits,
        admin_request_cb-Answered s (λ w md5 t r. rw disk (admin_img-replies thr mg w md5 t r)) w
            req r fits,
        info_request_cb-Replied s (λ w md5 r. rw disk (info_img-replies thr mg w md5 r)) w req r,
      )
      | inr db ↦ (
        get_request_cb-Answered s (λ w z req r. rw db (get_img_mode_db-replies thr mg w z req r)) w
            req r fits,
        admin_request_cb-Answered s
            (λ w md5 t r. rw db (admin_img_mode_db-replies thr mg w md5 t r)) w req r fits,
        info_request_cb-Replied s (λ w md5 r. rw db (info_img_mode_db-replies thr mg w md5 r)) w req
            r,
      )
    ]
