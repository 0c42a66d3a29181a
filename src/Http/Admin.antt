-- ===== src/Http/Admin.antt =====
-- src/zhttpd.c: `admin_request_cb`. `none` is as in `post_request_cb`.
pub mod Guard
pub mod Once
use ximg.Prelude.{
  ℕ, ◌+◌, Bool, true, false, [], ◌∷◌, ◌++◌, Bytes, replicate, Option, none, some, ◌==◌,
  if◌then◌else◌, codes,
}
use ximg.Prelude.Int.{ℤ, pos, negsuc, ◌==ℤ◌}
use ximg.Access.{Verdict, ok, forbidden}
use ximg.Http.{
  Request, Response, Server, method_of, method_get, method_post, client, access_check, atoi, res_ok,
  send_reply, add_text, add_type, add_server, reply_forbidden, reply_notfound, reply_favicon,
  reply_page,
}
use ximg.Http.Post.{post_request_cb}
use ximg.Images.Parts.{command_page}
use ximg.Key.{is_md5}
use ximg.Key.Gen.{int_text}
use ximg.Settings.{Settings}
use ximg.Text.{str_lcpy}
use ximg.Upload.Form.{occurs}

-- The page of a command that failed, with the reason.
unfoldable pub command_failed : Bytes → ℤ → Bytes → Response → Response
command_failed md5 t last r = add_type (codes "text/html") (
    add_text
      (command_page (replicate 13 b' ') (codes "Admin Command Failed!") md5 (int_text t)
        (last ∷ []))
      r)

-- What stands behind `settings.admin_img`, up to the reply.
unfoldable pub admin_result : Bytes → ℤ → ℤ → Response → Response
unfolding command_failed
admin_result md5 t admin_img_rst r =
    if admin_img_rst ==ℤ negsuc 0
    then command_failed md5 t (codes "<p>Command Failed.</p>") r
    else if admin_img_rst ==ℤ pos 2
    then command_failed md5 t (codes "<p>Image Not Found.</p>") r
    else r

abbrev pub answer_admin : {W : Type 0} → Settings → Bytes → ℤ → W × Response × ℤ → W × Response
answer_admin st md5 t (w, r, rst) =
    (w, send_reply res_ok (add_server st (admin_result md5 t rst r)))

-- The parameter `t`, 0 with none.
unfoldable pub command_type : (Bytes → Option Bytes) → ℤ
command_type find = elim (find (codes "t")) [ none ↦ pos 0 | some str_t ↦ atoi str_t ]

-- From the parameter `md5` on; the buffer has 33 bytes.
unfoldable pub admin_command :
    {W : Type 0} → Server W → W → (Bytes → Option Bytes) → Response → W × Response
unfolding admin_result command_type
admin_command s w find r = elim (find (codes "md5")) [
  | none ↦ (w, reply_notfound s.settings r)
  | some str_md5 ↦
      let md5 = str_lcpy str_md5 33 in
      let t = command_type find in
      if is_md5 md5
      then answer_admin s.settings md5 t (s.admin_img w md5 t r)
      else (w, reply_notfound s.settings r)
]

abbrev pub default_admin : Bytes
default_admin = codes "<html>\n<body>\n<h1>\nWelcome To zimg Admin!</h1>\n</body>\n</html>\n"

-- From the reading of the path on.
unfoldable pub admin_path : {W : Type 0} → Server W → W → Request → Response → W × Response
unfolding admin_command
admin_path s w req r =
    if occurs (codes "favicon.ico") req.path
    then (w, reply_favicon s.settings r)
    else elim req.query [
      | none ↦ (w, reply_page s.settings default_admin (s.admin_page w) r)
      | some find ↦ admin_command s w find r
    ]

unfoldable pub admin_checked : {W : Type 0} → Server W → W → Request → Response → W × Response
unfolding admin_path
admin_checked s w req r = elim (access_check s.settings.admin_access (client s.inet_aton req)) [
  | forbidden ↦ (w, reply_forbidden s.settings r)
  | ok ↦ admin_path s w req r
]

unfoldable pub admin_request_cb :
    {W : Type 0} → Server W → W → Request → Response → Option (W × Response)
unfolding admin_checked
admin_request_cb s w req r =
    if method_of req == method_post
    then post_request_cb s w req r
    else if method_of req == method_get
    then some (admin_checked s w req r)
    else some (w, reply_notfound s.settings r)
