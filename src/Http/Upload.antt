-- ===== src/Http/Upload.antt =====
-- src/xhttpd.c: `post_upload_request_cb` with `x_binary_parse` and `x_multipart_parse`, and
-- `base64_request_cb`; src/xutil.c: `operatorInfo` and `result2json`. `none` is an access outside of a
-- buffer or of a freed node, or a step from the NULL of `strchr`. Memory is always given.
pub mod Once
pub mod Param
use ximg.Prelude.{
  ℕ, ◌+◌, ◌-◌, Bool, true, false, not, ◌&&◌, ◌||◌, List, [], ◌∷◌, ◌++◌, Bytes, length, take, drop,
  Option, none, some, ltb, ◌==◌, if◌then◌else◌, codes,
}
use ximg.Prelude.Int.{ℤ, pos, negsuc, ◌==ℤ◌, ltb_ℤ, pos_part}
use ximg.Prelude.Memory.{◌>>=◌}
use ximg.Access.{Verdict, ok, forbidden}
use ximg.Http.{
  Request, Response, Server, Json, number, string, object, array, Members, end, member, Items,
  empty, item, method_of, method_post, client, access_check, atoi, res_ok, send_reply, add_text,
  add_type, add_server,
}
use ximg.Upload.{ImgInfo, Upload, accepted}
use ximg.Upload.Form.{occurs, FormResult, refused_form, parsed_form, faulted_form, parse_form}
use ximg.Upload.Param.{decode_param}

-- `operatorInfo`
abbrev pub info_json : ImgInfo → Json
info_json info = object (
    member (codes "code") (number (pos info.code)) (
      member (codes "size") (number (pos info.size)) (
        member (codes "md5") (string info.md5) (
          member (codes "msg") (string info.msg) (
            member (codes "width") (number (pos info.width))
              (member (codes "height") (number (pos info.height)) end))))))

-- `operatorLinkedList` with it, from the head on.
abbrev pub infos_json : List ImgInfo → Items
infos_json [] = empty
infos_json (info ∷ infos) = item (info_json info) (infos_json infos)

-- What `result2json` prints; the list is never NULL.
abbrev pub result_json : List ImgInfo → Json
result_json infos = object (
    member (codes "code") (number (pos 200)) (member (codes "data") (array (infos_json infos)) end))

-- `result2json`: behind the text, `freeLinkedList` reads each node that it has freed.
unfoldable pub result2json : {W : Type 0} → Server W → List ImgInfo → Option Bytes
result2json s [] = some (s.print_unformatted (result_json []))
result2json s (info ∷ infos) =
    if s.keeps_freed then some (s.print_unformatted (result_json (info ∷ infos))) else none

-- The JSON of the results, with its type. It has no percent sign, so it is its own format.
unfoldable pub add_results : {W : Type 0} → Server W → List ImgInfo → Response → Option Response
unfolding result2json
add_results s infos r = do
  text ← result2json s infos
  some (add_type (codes "application/json") (add_text text r))

-- The ends at `forbidden` and `err`: the results of no image.
unfoldable pub reply_results :
    {W : Type 0} → Server W → W → List ImgInfo → Response → Option (W × Response)
unfolding add_results
reply_results s w infos r = do
  q ← add_results s infos r
  some (w, send_reply res_ok (add_server s.settings q))

-- The result `err_no`: none for -1.
unfoldable pub x_binary_parse :
    {W : Type 0} → Server W → W → Bytes → Bytes → ℕ → Response → Option (W × Response × Option ℕ)
x_binary_parse s w content_type buff post_size r =
    let saved = s.save_img w (take post_size buff) in
    if s.is_img content_type
    then if saved.0.1
      then (do q ← add_results s (accepted post_size saved.1 ∷ []) r; some (saved.0.0, q, none))
      else some (saved.0.0, r, some 0)
    else some (w, r, some 1)

-- `save_img` as the callbacks call it: the key, or none for -1.
abbrev pub save_key : {W : Type 0} → Server W → W → Bytes → W × Option Bytes
save_key s w buff =
    let saved = s.save_img w buff in (saved.0.0, if saved.0.1 then some saved.1 else none)

-- The end of `x_multipart_parse`, from `result2json` on.
unfoldable pub form_results :
    {W : Type 0} → Server W → W → Response → FormResult W → Option (W × Response × Option ℕ)
form_results s w r (refused_form n) = some (w, r, some n)
form_results s w r faulted_form = none
form_results s w r (parsed_form u) = do q ← add_results s u.infos r; some (u.storage, q, none)

unfoldable pub x_multipart_parse :
    {W : Type 0}
    → Server W
    → W
    → Bytes
    → Bytes
    → Bytes
    → Response
    → Option (W × Response × Option ℕ)
unfolding form_results
x_multipart_parse s w content_type buff beyond r = do
  form ← parse_form (save_key s) s.is_img content_type buff beyond w
  form_results s w r form

-- The end behind the two parsers.
unfoldable pub end_upload :
    {W : Type 0} → Server W → W × Response × Option ℕ → Option (W × Response)
unfolding reply_results
end_upload s (w, r, none) = some (w, send_reply res_ok (add_server s.settings r))
end_upload s (w, r, some err_no) = reply_results s w [] r

-- `buff` with the body in it.
abbrev pub body_memory : {W : Type 0} → Server W → Request → ℕ → Bytes
body_memory s req post_size = req.buffer_in ++ drop (length req.buffer_in) (s.fresh post_size)

-- From the copy of the body into `buff` on. The first `evbuffer_remove` takes the whole body.
unfoldable pub upload_body :
    {W : Type 0} → Server W → W → Request → Bytes → ℕ → Response → Option (W × Response)
unfolding reply_results x_binary_parse x_multipart_parse end_upload
upload_body s w req content_type post_size r =
    let buff = body_memory s req post_size in
    if length req.buffer_in == 0 || not req.drains
    then reply_results s w [] r
    else if ltb post_size (length req.buffer_in)
    then none
    else if occurs (codes "multipart/form-data") content_type
    then (do
      done ← x_multipart_parse s w content_type (take post_size buff) (drop post_size buff) r
      end_upload s done)
    else (do done ← x_binary_parse s w content_type buff post_size r; end_upload s done)

-- From the reading of the headers on.
unfoldable pub upload_headers :
    {W : Type 0} → Server W → W → Request → Response → Option (W × Response)
unfolding upload_body
upload_headers s w req r = elim (req.headers_in (codes "Content-Length")) [
  | none ↦ reply_results s w [] r
  | some content_len ↦
      let post_size = atoi content_len in
      if not (ltb_ℤ (pos 0) post_size) || ltb_ℤ s.settings.max_size post_size
      then reply_results s w [] r
      else elim (req.headers_in (codes "Content-Type")) [
        | none ↦ reply_results s w [] r
        | some content_type ↦ upload_body s w req content_type (pos_part post_size) r
      ]
]

unfoldable pub post_upload_request_cb :
    {W : Type 0} → Server W → W → Request → Response → Option (W × Response)
unfolding upload_headers
post_upload_request_cb s w req r =
    if method_of req == method_post
    then elim (access_check s.settings.up_access (client s.inet_aton req)) [
      | forbidden ↦ reply_results s w [] r
      | ok ↦ upload_headers s w req r
    ]
    else reply_results s w [] r

-- From the call of `save_img` on.
unfoldable pub save_decoded :
    {W : Type 0} → Server W → W → Bytes → ℕ → Response → Option (W × Response)
unfolding reply_results
save_decoded s w buff length r =
    let saved = s.save_img w (take length buff) in
    if saved.0.1
    then reply_results s saved.0.0 (accepted length saved.1 ∷ []) r
    else reply_results s saved.0.0 [] r

-- From the parameters on; new memory holds `fill`.
unfoldable pub base64_query :
    {W : Type 0}
    → Server W
    → ℕ
    → W
    → Option (Bytes → Option Bytes)
    → Response
    → Option (W × Response)
unfolding save_decoded
base64_query s fill w none r = reply_results s w [] r
base64_query s fill w (some find) r = elim (find (codes "base64")) [
  | none ↦ reply_results s w [] r
  | some base64 ↦ (do (length, buff) ← decode_param fill base64; save_decoded s w buff length r)
]

unfoldable pub base64_request_cb :
    {W : Type 0} → Server W → ℕ → W → Request → Response → Option (W × Response)
unfolding base64_query
base64_request_cb s fill w req r =
    if method_of req == method_post
    then base64_query s fill w req.query r
    else reply_results s w [] r
