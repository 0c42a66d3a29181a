-- ===== src/Http/Admin/Once.antt =====
-- `admin_request_cb` and `info_request_cb` answer every request once.
use ximg.Prelude.{
  Bytes, Option, none, some, ◌==◌, codes, ◌≡◌, refl, ◌∙◌, Bool-cases, Option-cases, inl, inr,
}
use ximg.Prelude.Int.{ℤ, pos, negsuc, ◌==ℤ◌}
use ximg.Http.{
  Request, Response, Server, method_of, method_get, method_post, access_check, client,
  reply_notfound,
}
use ximg.Http.Admin.{
  admin_command, admin_path, admin_checked, admin_request_cb, command_type, admin_result,
  command_failed, default_admin,
}
use ximg.Http.Info.{answer_info, info_query, info_request_cb}
use ximg.Http.Post.Once.{Fits, post_request_cb-Answered}
use ximg.Http.Replied.{
  Verdict-cases, Replied, Answered, one_more, reply_notfound-Replied, reply_forbidden-Replied,
  reply_favicon-Replied, reply_page-Replied, reply_error-Replied,
}
use ximg.Key.{is_md5}
use ximg.Text.{str_lcpy}
use ximg.Upload.Form.{occurs}

admin_result-replies :
    (md5 : Bytes) (t n : ℤ) (r : Response) → (admin_result md5 t n r).replies ≡ r.replies
unfolding admin_result command_failed
admin_result-replies md5 t n r = elim (Bool-cases (n ==ℤ negsuc 0)) [
  | inl e ↦ rw e refl
  | inr e ↦ elim (Bool-cases (n ==ℤ pos 2)) [ inl e' ↦ rw (e, e') refl | inr e' ↦ rw (e, e') refl ]
]

module _ {W : Type 0} (s : Server W)
    (quiet : (w : W) (md5 : Bytes) (t : ℤ) (r : Response)
      → (s.admin_img w md5 t r).1.replies ≡ r.replies) where
  admin_command-Replied :
      (w : W) (find : Bytes → Option Bytes) (r : Response) → Replied r (admin_command s w find r).1
  unfolding admin_command
  admin_command-Replied w find r = elim (Option-cases (find (codes "md5"))) [
    | inl e ↦ rw (admin_command, e) (reply_notfound-Replied s.settings r r refl)
    | inr (str_md5, e) ↦ elim (Bool-cases (is_md5 (str_lcpy str_md5 33))) [
      | inr no_key ↦ rw (admin_command, e, no_key) (reply_notfound-Replied s.settings r r refl)
      | inl key ↦
          let md5 = str_lcpy str_md5 33 in
          let t = command_type find in
          let done = s.admin_img w md5 t r in
          rw (admin_command, e, key)
            (200, one_more 200 (admin_result-replies md5 t done.2 done.1 ∙ quiet w md5 t r), refl)
    ]
  ]

  admin_checked-Replied :
      (w : W) (req : Request) (r : Response) → Replied r (admin_checked s w req r).1
  unfolding admin_checked admin_path
  admin_checked-Replied w req r =
      elim (Verdict-cases (access_check s.settings.admin_access (client s.inet_aton req))) [
        | inr e ↦ rw (admin_checked, e) (reply_forbidden-Replied s.settings r)
        | inl e ↦ elim (Bool-cases (occurs (codes "favicon.ico") req.path)) [
          | inl icon ↦ rw (admin_checked, e, icon) (reply_favicon-Replied s.settings r)
          | inr no_icon ↦ elim (Option-cases req.query) [
            | inl q ↦
                rw (admin_checked, e, admin_path, no_icon, q)
                  (reply_page-Replied s.settings default_admin (s.admin_page w) r)
            | inr (find, q) ↦
                rw (admin_checked, e, admin_path, no_icon, q) (admin_command-Replied w find r)
          ]
        ]
      ]

  -- With an `admin_img` that leaves the reply to the handler, every request whose body fits is answered
  -- once, with one of the codes 200, 304, 403 and 404.
  pub admin_request_cb-Answered :
      (w : W) (req : Request) (r : Response) → Fits req → Answered r (admin_request_cb s w req r)
  unfolding admin_request_cb
  admin_request_cb-Answered w req r fits = elim (Bool-cases (method_of req == method_post)) [
    | inl post ↦ rw post (post_request_cb-Answered s w req r fits)
    | inr other ↦ elim (Bool-cases (method_of req == method_get)) [
      | inl get ↦
          rw (other, get)
            (
              (admin_checked s w req r).0,
              (admin_checked s w req r).1,
              refl,
              admin_checked-Replied w req r,
            )
      | inr none_of ↦
          rw (other, none_of)
            (w, reply_notfound s.settings r, refl, reply_notfound-Replied s.settings r r refl)
    ]
  ]

module _ {W : Type 0} (s : Server W) where
  answer_info-Replied :
      (r : Response) (done : W × Response × ℤ)
      → done.1.replies ≡ r.replies
      → Replied r (answer_info s done).1
  unfolding answer_info
  answer_info-Replied r (w, q, n) e = elim (Bool-cases (n ==ℤ pos 0)) [
    | inl lost ↦ rw (answer_info, lost) (reply_error-Replied s 9 r q e)
    | inr found ↦ elim (Bool-cases (n ==ℤ negsuc 0)) [
      | inl bad ↦ rw (answer_info, found, bad) (reply_error-Replied s 0 r q e)
      | inr good ↦ rw (answer_info, found, good) (200, one_more 200 e, refl)
    ]
  ]

  info_query-Replied :
      ((w : W) (md5 : Bytes) (r : Response) → (s.info_img w md5 r).1.replies ≡ r.replies)
      → (w : W) (query : Option (Bytes → Option Bytes)) (r : Response)
      → Replied r (info_query s w query r).1
  unfolding info_query
  info_query-Replied quiet w none r = reply_error-Replied s 8 r r refl
  info_query-Replied quiet w (some find) r = elim (Option-cases (find (codes "md5"))) [
    | inl e ↦ rw (info_query, e) (reply_error-Replied s 8 r r refl)
    | inr (str_md5, e) ↦ elim (Bool-cases (is_md5 (str_lcpy str_md5 33))) [
      | inr no_key ↦ rw (info_query, e, no_key) (reply_error-Replied s 8 r r refl)
      | inl key ↦
          let md5 = str_lcpy str_md5 33 in
          rw (info_query, e, key) (answer_info-Replied r (s.info_img w md5 r) (quiet w md5 r))
    ]
  ]

  -- With an `info_img` that leaves the reply to the handler, every request is answered once, with one of
  -- the codes 200, 304, 403 and 404.
  pub info_request_cb-Replied :
      ((w : W) (md5 : Bytes) (r : Response) → (s.info_img w md5 r).1.replies ≡ r.replies)
      → (w : W) (req : Request) (r : Response) → Replied r (info_request_cb s w req r).1
  unfolding info_request_cb
  info_request_cb-Replied quiet w req r = elim (Bool-cases (method_of req == method_get)) [
    | inl get ↦ rw get (info_query-Replied quiet w req.query r)
    | inr other ↦ rw other (reply_error-Replied s 2 r r refl)
  ]
