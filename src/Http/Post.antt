-- ===== src/Http/Post.antt =====
-- src/zhttpd.c: `post_request_cb` with `binary_parse` and `multipart_parse`. `none` is a store outside
-- of the buffer, or a step from the NULL of `strchr`. Memory is always given.
pub mod Once
use ximg.Prelude.{
  ℕ, ◌+◌, Bool, true, false, not, ◌&&◌, ◌||◌, [], ◌∷◌, ◌++◌, Bytes, length, take, drop, get_or,
  Option, none, some, ltb, ◌==◌, if◌then◌else◌, codes,
}
use ximg.Prelude.Int.{ℤ, pos, negsuc, ◌==ℤ◌, ltb_ℤ, pos_part}
use ximg.Prelude.Memory.{◌>>=◌}
use ximg.Access.{Verdict, ok, forbidden}
use ximg.Http.{
  Request, Response, Server, method_of, method_post, client, access_check, atoi, res_ok, send_reply,
  add_text, add_type, add_server, json_return, saved_json, reply_error,
}
use ximg.Upload.Form.{occurs, boundary_pattern}

-- The result `err_no`: none for -1.
unfoldable pub binary_parse :
    {W : Type 0} → Server W → W → Bytes → Bytes → ℕ → Response → W × Response × Option ℕ
binary_parse s w content_type buff post_size r =
    let saved = s.save_img w (take post_size buff) in
    if s.is_img content_type
    then if saved.0.1
      then (saved.0.0, json_return s (saved_json saved.1 post_size) r, none)
      else (saved.0.0, r, some 0)
    else (w, r, some 1)

abbrev pub form_head : Bytes
form_head = codes "<html>\n<head>\n<title>Upload Result</title>\n</head>\n<body>\n"

-- What stands behind `multipart_parser_free`.
unfoldable pub form_end : ℕ → Response → Response
form_end succno r =
    let counted = if succno == 0 then add_text (codes "<h1>Upload Failed!</h1>\n") r else r in
    add_type (codes "text/html") (add_text (codes "</body>\n</html>\n") counted)

-- From the boundary on.
unfoldable pub form_body :
    {W : Type 0} → Server W → W → Option Bytes → Bytes → Response → W × Response × Option ℕ
form_body s w none body r = (w, r, some 6)
form_body s w (some pattern) body r = elim (s.form_parse w pattern body) [
  | none ↦ (w, r, some 0)
  | some (w', succno, text) ↦ (w', form_end succno (add_text text r), none)
]

unfoldable pub multipart_parse :
    {W : Type 0} → Server W → W → Bytes → Bytes → ℕ → Response → Option (W × Response × Option ℕ)
unfolding form_body
multipart_parse s w content_type buff post_size r = do
  pattern ← boundary_pattern content_type
  some (form_body s w pattern (take post_size buff) (add_text form_head r))

-- The end behind `binary_parse`.
unfoldable pub end_binary : {W : Type 0} → Server W → W × Response × Option ℕ → W × Response
end_binary s (w, r, none) = (w, send_reply res_ok (add_server s.settings r))
end_binary s (w, r, some err_no) = (w, reply_error s err_no r)

-- The end behind `multipart_parse`, where `ret_json` is 0.
unfoldable pub end_form : {W : Type 0} → Server W → W × Response × Option ℕ → W × Response
end_form s (w, r, none) = (w, send_reply res_ok (add_server s.settings r))
end_form s (w, r, some err_no) = (
  w,
  send_reply res_ok (
      add_server s.settings (
        add_type (codes "text/html") (add_text (codes "<h1>Upload Failed!</h1></body></html>") r))),
)

-- From the copy of the body into `buff` on. The first `evbuffer_remove` takes the whole body.
unfoldable pub post_body :
    {W : Type 0} → Server W → W → Request → Bytes → ℕ → Response → Option (W × Response)
unfolding multipart_parse binary_parse end_form end_binary
post_body s w req content_type post_size r =
    let buff = req.buffer_in ++ drop (length req.buffer_in) (s.fresh post_size) in
    if length req.buffer_in == 0 || not req.drains
    then some (w, reply_error s 4 r)
    else if ltb post_size (length req.buffer_in)
    then none
    else if occurs (codes "multipart/form-data") content_type
    then (do done ← multipart_parse s w content_type buff post_size r; some (end_form s done))
    else some (end_binary s (binary_parse s w content_type buff post_size r))

-- From the reading of the headers on.
unfoldable pub post_headers :
    {W : Type 0} → Server W → W → Request → Response → Option (W × Response)
unfolding post_body
post_headers s w req r = elim (req.headers_in (codes "Content-Length")) [
  | none ↦ some (w, reply_error s 5 r)
  | some content_len ↦
      let post_size = atoi content_len in
      if not (ltb_ℤ (pos 0) post_size)
      then some (w, reply_error s 5 r)
      else if ltb_ℤ s.settings.max_size post_size
      then some (w, reply_error s 7 r)
      else elim (req.headers_in (codes "Content-Type")) [
        | none ↦ some (w, reply_error s 6 r)
        | some content_type ↦ post_body s w req content_type (pos_part post_size) r
      ]
]

unfoldable pub post_request_cb :
    {W : Type 0} → Server W → W → Request → Response → Option (W × Response)
unfolding post_headers
post_request_cb s w req r =
    if method_of req == method_post
    then elim (access_check s.settings.up_access (client s.inet_aton req)) [
      | forbidden ↦ some (w, reply_error s 3 r)
      | ok ↦ post_headers s w req r
    ]
    else some (w, reply_error s 2 r)
