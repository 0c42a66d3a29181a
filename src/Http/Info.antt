-- ===== src/Http/Info.antt =====
-- src/zhttpd.c: `info_request_cb`.
use ximg.Prelude.{Bytes, Option, none, some, ◌==◌, if◌then◌else◌, codes}
use ximg.Prelude.Int.{ℤ, pos, negsuc, ◌==ℤ◌}
use ximg.Http.{
  Request, Response, Server, method_of, method_get, res_ok, send_reply, add_type, add_server,
  reply_error,
}
use ximg.Key.{is_md5}
use ximg.Text.{str_lcpy}

-- What stands behind `settings.info_img`.
unfoldable pub answer_info : {W : Type 0} → Server W → W × Response × ℤ → W × Response
answer_info s (w, r, info_img_rst) =
    if info_img_rst ==ℤ pos 0
    then (w, reply_error s 9 r)
    else if info_img_rst ==ℤ negsuc 0
    then (w, reply_error s 0 r)
    else (w, send_reply res_ok (add_type (codes "application/json") (add_server s.settings r)))

-- From the parameters on; the buffer has 33 bytes.
unfoldable pub info_query :
    {W : Type 0} → Server W → W → Option (Bytes → Option Bytes) → Response → W × Response
unfolding answer_info
info_query s w none r = (w, reply_error s 8 r)
info_query s w (some find) r = elim (find (codes "md5")) [
  | none ↦ (w, reply_error s 8 r)
  | some str_md5 ↦
      let md5 = str_lcpy str_md5 33 in
      if is_md5 md5 then answer_info s (s.info_img w md5 r) else (w, reply_error s 8 r)
]

unfoldable pub info_request_cb : {W : Type 0} → Server W → W → Request → Response → W × Response
unfolding info_query
info_request_cb s w req r =
    if method_of req == method_get then info_query s w req.query r else (w, reply_error s 2 r)
