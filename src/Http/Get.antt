-- ===== src/Http/Get.antt =====
-- src/zhttpd.c: `get_request_cb`, and `asked`, the image request that it makes from the parameters.
pub mod Once
pub mod Guard
pub mod Asked
use ximg.Prelude.{
  ℕ, ◌+◌, Bool, true, false, not, ◌&&◌, ◌||◌, [], ◌∷◌, ◌++◌, Bytes, length, drop, get_or, Option,
  none, some, ltb, ◌==◌, if◌then◌else◌, codes,
}
use ximg.Prelude.Int.{ℤ, pos, negsuc, ◌==ℤ◌}
use ximg.Access.{Verdict, ok, forbidden}
use ximg.Http.{
  Request, Response, Server, method_of, method_get, method_post, client, access_check, atoi, res_ok,
  res_notmod, send_reply, add_type, add_server, zimg_headers_add, reply_forbidden, reply_notfound,
  reply_favicon, reply_page,
}
use ximg.Http.Post.{post_request_cb}
use ximg.Key.{is_md5}
use ximg.Settings.{ZimgReq, Settings}
use ximg.Upload.Form.{occurs}

-- A parameter as a number, or its default.
unfoldable pub int_param : (Bytes → Option Bytes) → Bytes → ℤ → ℤ
int_param find name default = elim (find name) [ none ↦ default | some text ↦ atoi text ]

-- The request with the values in front of the parameters.
unfoldable pub default_req : Settings → Bytes → ZimgReq
default_req st md5 = record {
  md5 = md5;
  file_type = none;
  width = pos 0;
  height = pos 0;
  proportion = pos 1;
  gray = pos 0;
  x = negsuc 0;
  y = negsuc 0;
  rotate = pos 0;
  quality = pos 0;
  fmt = st.format;
  sv = 0;
}

-- The block under `settings.disable_args != 1`.
unfoldable pub with_args : Settings → (Bytes → Option Bytes) → ZimgReq → ZimgReq
with_args st find z =
    let x = int_param find (codes "x") (negsuc 0) in
    let y = int_param find (codes "y") (negsuc 0) in
    if st.disable_args == 1 then z else record z {
      width = int_param find (codes "w") (pos 0);
      height = int_param find (codes "h") (pos 0);
      proportion =
          if x ==ℤ negsuc 0 && y ==ℤ negsuc 0 then int_param find (codes "p") (pos 1) else pos 1;
      gray = int_param find (codes "g") (pos 0);
      x = x;
      y = y;
      rotate = int_param find (codes "r") (pos 0);
      quality = int_param find (codes "q") (pos 0);
      fmt = elim (find (codes "f")) [ none ↦ st.format | some f ↦ f ];
    }

unfoldable pub with_type : Settings → (Bytes → Option Bytes) → ZimgReq → ZimgReq
with_type st find z = if st.disable_type == 1 then z else record z { file_type = find (codes "t") }

-- The settings' quality in place of 0.
unfoldable pub with_quality : Settings → ZimgReq → ZimgReq
with_quality st z = record z { quality = if z.quality ==ℤ pos 0 then st.quality else z.quality }

unfoldable pub asked : Settings → Bytes → Option (Bytes → Option Bytes) → ZimgReq
unfolding default_req with_args with_type with_quality
asked st md5 none = with_quality st (record (default_req st md5) { sv = 1 })
asked st md5 (some find) =
    with_quality st (with_type st find (with_args st find (default_req st md5)))

-- What stands behind `settings.get_img`.
unfoldable pub answer_img : {W : Type 0} → Settings → W × Response × ℤ → W × Response
answer_img st (w, r, get_img_rst) =
    if get_img_rst ==ℤ negsuc 0
    then (w, reply_notfound st r)
    else if get_img_rst ==ℤ pos 2
    then (w, send_reply res_notmod r)
    else (
      w,
      send_reply res_ok
          (zimg_headers_add st.headers (add_type (codes "image/jpeg") (add_server st r))),
    )

-- From `is_md5` on.
unfoldable pub get_key : {W : Type 0} → Server W → W → Request → Bytes → Response → W × Response
get_key s w req md5 r =
    if is_md5 md5
    then answer_img s.settings (s.get_img w (asked s.settings md5 req.query) req r)
    else (w, reply_notfound s.settings r)

-- The path without its first slash.
unfoldable pub key_of : Bytes → Bytes
key_of uri = if get_or uri 0 0 == b'/' then drop 1 uri else uri

abbrev pub default_root : Bytes
default_root = codes "<html>\n<body>\n<h1>\nWelcome To zimg World!</h1>\n</body>\n</html>\n"

-- From the reading of the path on.
unfoldable pub get_path : {W : Type 0} → Server W → W → Request → Response → W × Response
unfolding key_of get_key
get_path s w req r =
    let uri = req.path in
    if length uri == 1 && get_or uri 0 0 == b'/'
    then (w, reply_page s.settings default_root (s.root_page w) r)
    else if occurs (codes "favicon.ico") uri
    then (w, reply_favicon s.settings r)
    else if occurs (codes "..") uri
    then (w, reply_forbidden s.settings r)
    else get_key s w req (key_of uri) r

-- The check of the address, and what stands behind it.
unfoldable pub get_checked : {W : Type 0} → Server W → W → Request → Response → W × Response
unfolding get_path
get_checked s w req r = elim (access_check s.settings.down_access (client s.inet_aton req)) [
  | forbidden ↦ (w, reply_forbidden s.settings r)
  | ok ↦ get_path s w req r
]

-- `none` is a store outside the buffer or a step from NULL, in `post_request_cb`.
unfoldable pub get_request_cb :
    {W : Type 0} → Server W → W → Request → Response → Option (W × Response)
unfolding get_checked
get_request_cb s w req r =
    if method_of req == method_post
    then post_request_cb s w req r
    else if method_of req == method_get
    then some (get_checked s w req r)
    else some (w, reply_notfound s.settings r)
