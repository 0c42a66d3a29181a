-- ===== src/Http/Get/Once.antt =====
-- `get_request_cb` answers every request once.
use ximg.Prelude.{◌&&◌, Bytes, length, get_or, ◌==◌, codes, ◌≡◌, refl, ◌∙◌, Bool-cases, inl, inr}
use ximg.Prelude.Int.{ℤ, pos, negsuc, ◌==ℤ◌}
use ximg.Http.{
  Request, Response, Server, method_of, method_get, method_post, access_check, client,
  reply_notfound,
}
use ximg.Http.Get.{
  answer_img, get_key, get_path, get_checked, get_request_cb, key_of, asked, default_root,
}
use ximg.Http.Post.Once.{Fits, post_request_cb-Answered}
use ximg.Http.Replied.{
  Verdict-cases, Replied, Answered, one_more, zimg_headers_add-replies, reply_notfound-Replied,
  reply_forbidden-Replied, reply_favicon-Replied, reply_page-Replied,
}
use ximg.Key.{is_md5}
use ximg.Settings.{ZimgReq, Settings}
use ximg.Upload.Form.{occurs}

-- The function for images leaves the reply to the handler.
abbrev pub LeavesReply :
    {W : Type 0} → (W → ZimgReq → Request → Response → W × Response × ℤ) → Type 0
LeavesReply {W} f =
    (w : W) (z : ZimgReq) (req : Request) (r : Response) → (f w z req r).1.replies ≡ r.replies

answer_img-Replied :
    {W : Type 0} (st : Settings) (r : Response) (done : W × Response × ℤ)
    → done.1.replies ≡ r.replies
    → Replied r (answer_img st done).1
unfolding answer_img
answer_img-Replied st r (w, q, n) e = elim (Bool-cases (n ==ℤ negsuc 0)) [
  | inl lost ↦ rw (answer_img, lost) (reply_notfound-Replied st r q e)
  | inr found ↦ elim (Bool-cases (n ==ℤ pos 2)) [
    | inl same ↦ rw (answer_img, found, same) (304, one_more 304 e, refl)
    | inr other ↦
        rw (answer_img, found, other)
          (200, one_more 200 (zimg_headers_add-replies st.headers _ ∙ e), refl)
  ]
]

module _ {W : Type 0} (s : Server W) (quiet : LeavesReply s.get_img) where
  get_key-Replied :
      (w : W) (req : Request) (md5 : Bytes) (r : Response) → Replied r (get_key s w req md5 r).1
  unfolding get_key
  get_key-Replied w req md5 r = elim (Bool-cases (is_md5 md5)) [
    | inl key ↦
        let done = s.get_img w (asked s.settings md5 req.query) req r in
        rw key
          (answer_img-Replied s.settings r done (quiet w (asked s.settings md5 req.query) req r))
    | inr other ↦ rw other (reply_notfound-Replied s.settings r r refl)
  ]

  get_path-Replied : (w : W) (req : Request) (r : Response) → Replied r (get_path s w req r).1
  unfolding get_path
  get_path-Replied w req r =
      elim (Bool-cases (length req.path == 1 && get_or req.path 0 0 == b'/')) [
        | inl root ↦ rw root (reply_page-Replied s.settings default_root (s.root_page w) r)
        | inr other ↦ elim (Bool-cases (occurs (codes "favicon.ico") req.path)) [
          | inl icon ↦ rw (other, icon) (reply_favicon-Replied s.settings r)
          | inr no_icon ↦ elim (Bool-cases (occurs (codes "..") req.path)) [
            | inl up ↦ rw (other, no_icon, up) (reply_forbidden-Replied s.settings r)
            | inr down ↦ rw (other, no_icon, down) (get_key-Replied w req (key_of req.path) r)
          ]
        ]
      ]

  get_checked-Replied : (w : W) (req : Request) (r : Response) → Replied r (get_checked s w req r).1
  unfolding get_checked
  get_checked-Replied w req r =
      elim (Verdict-cases (access_check s.settings.down_access (client s.inet_aton req))) [
        | inl e ↦ rw (get_checked, e) (get_path-Replied w req r)
        | inr e ↦ rw (get_checked, e) (reply_forbidden-Replied s.settings r)
      ]

  -- With a `get_img` that leaves the reply to the handler, every request whose body fits is answered once,
  -- with one of the codes 200, 304, 403 and 404, whatever its method, path, parameters and headers.
  pub get_request_cb-Answered :
      (w : W) (req : Request) (r : Response) → Fits req → Answered r (get_request_cb s w req r)
  unfolding get_request_cb
  get_request_cb-Answered w req r fits = elim (Bool-cases (method_of req == method_post)) [
    | inl post ↦ rw post (post_request_cb-Answered s w req r fits)
    | inr other ↦ elim (Bool-cases (method_of req == method_get)) [
      | inl get ↦
          rw (other, get)
            (
              (get_checked s w req r).0,
              (get_checked s w req r).1,
              refl,
              get_checked-Replied w req r,
            )
      | inr none_of ↦
          rw (other, none_of)
            (w, reply_notfound s.settings r, refl, reply_notfound-Replied s.settings r r refl)
    ]
  ]
