-- ===== src/Http/Upload/Once.antt =====
-- The two handlers of uploads answer every request once.
use ximg.Prelude.{
  ℕ, ◌≤◌, ◌<◌, ◌^◌, false, not, ◌||◌, [], ◌∷◌, Bytes, List, length, take, drop, Option, none, some,
  ltb, ◌==◌, codes, ◌≡◌, ◌≢◌, ap, ◌∙◌, true, refl, arith, Bool-cases, Option-cases, inl, inr,
  length-take,
}
use ximg.Prelude.Int.{pos, pos_part, ltb_ℤ}
use ximg.Access.{zimg_strlchr}
use ximg.Http.{Request, Response, Server, atoi, method_of, method_post, access_check, client}
use ximg.Http.Replied.{Verdict-cases, Answered, one_more}
use ximg.Http.Upload.{
  result_json, result2json, add_results, reply_results, x_binary_parse, save_key, form_results,
  x_multipart_parse, end_upload, body_memory, upload_body, upload_headers, post_upload_request_cb,
  save_decoded, base64_query, base64_request_cb,
}
use ximg.Upload.{ImgInfo, accepted}
use ximg.Upload.Form.{
  occurs, FormResult, refused_form, parsed_form, faulted_form, parse_form, parse_form-IsAnswered,
}
use ximg.Upload.Param.{decode_param_total}

-- The body is no longer than its Content-Length says, which is below 2 ^ 64, a content type has a `=`, and
-- a form is parsed with no access of a callback outside of the body's memory.
pub record FitsUpload {W : Type 0} (s : Server W) (w : W) (req : Request) : Type 0 where
  pub short :
      (text : Bytes)
      → req.headers_in (codes "Content-Length") ≡ some text
      → length req.buffer_in ≤ pos_part (atoi text)
  pub small :
      (text : Bytes)
      → req.headers_in (codes "Content-Length") ≡ some text
      → pos_part (atoi text) < 2 ^ 64
  pub bounded :
      (text : Bytes)
      → req.headers_in (codes "Content-Type") ≡ some text
      → (i : ℕ) × (zimg_strlchr text b'=' ≡ some i)
  pub calm :
      (ct text : Bytes)
      → req.headers_in (codes "Content-Type") ≡ some ct
      → req.headers_in (codes "Content-Length") ≡ some text
      → (let size = pos_part (atoi text) in
          let buff = body_memory s req size in
          parse_form (save_key s) s.is_img ct (take size buff) (drop size buff) w
          ≢ some faulted_form)

-- The upload's result is there, and nothing was replied yet.
abbrev Pending : {W : Type 0} → Response → Option (W × Response × Option ℕ) → Type 0
Pending {W} r o = (done : W × Response × Option ℕ) × (o ≡ some done) × (done.1.replies ≡ r.replies)

module _ {W : Type 0} (s : Server W) (keeps : s.keeps_freed ≡ true) where
  -- What is printed for a list of results.
  pub result2json-some :
      (infos : List ImgInfo) → result2json s infos ≡ some (s.print_unformatted (result_json infos))
  unfolding result2json
  result2json-some [] = refl
  result2json-some (info ∷ infos) = rw keeps refl

  pub reply_results-Answered :
      (w : W) (infos : List ImgInfo) (r q : Response)
      → q.replies ≡ r.replies
      → Answered r (reply_results s w infos q)
  unfolding reply_results add_results
  reply_results-Answered w infos r q e =
      rw (result2json-some infos) (w, _, refl, (200, one_more 200 e, refl))

  no_results-Answered : (w : W) (r : Response) → Answered r (reply_results s w [] r)
  no_results-Answered w r = reply_results-Answered w [] r r refl

  x_binary_parse-Pending :
      (w : W) (ct buff : Bytes) (size : ℕ) (r : Response)
      → Pending r (x_binary_parse s w ct buff size r)
  unfolding x_binary_parse add_results
  x_binary_parse-Pending w ct buff size r =
      let saved = s.save_img w (take size buff) in
      elim (Bool-cases (s.is_img ct)) [
        | inr no_image ↦ rw no_image (_, refl, refl)
        | inl image ↦ elim (Bool-cases saved.0.1) [
          | inl done ↦
              rw (image, done, result2json-some (accepted size saved.1 ∷ [])) (_, refl, refl)
          | inr unsaved ↦ rw (image, unsaved) (_, refl, refl)
        ]
      ]

  form_results-Pending :
      (w : W) (r : Response) (form : FormResult W)
      → form ≢ faulted_form
      → Pending r (form_results s w r form)
  unfolding form_results add_results
  form_results-Pending w r (refused_form n) calm = (_, refl, refl)
  form_results-Pending w r (parsed_form u) calm = rw (result2json-some u.infos) (_, refl, refl)
  form_results-Pending w r faulted_form calm = absurd (calm refl)

  end_upload-Answered :
      (r : Response) (done : W × Response × Option ℕ)
      → done.1.replies ≡ r.replies
      → Answered r (end_upload s done)
  unfolding end_upload
  end_upload-Answered r (w, q, none) e = (w, _, refl, (200, one_more 200 e, refl))
  end_upload-Answered r (w, q, some n) e = reply_results-Answered w [] r q e

  x_multipart_parse-Pending :
      (w : W) (ct buff beyond : Bytes) (i : ℕ) (r : Response)
      → zimg_strlchr ct b'=' ≡ some i
      → length buff < 2 ^ 64
      → parse_form (save_key s) s.is_img ct buff beyond w ≢ some faulted_form
      → Pending r (x_multipart_parse s w ct buff beyond r)
  unfolding x_multipart_parse
  x_multipart_parse-Pending w ct buff beyond i r bounded small calm =
      let (form, ran, tallied) =
        parse_form-IsAnswered (save_key s) s.is_img ct buff beyond w i bounded small in
      rw ran (form_results-Pending w r form (λ e. calm (ran ∙ ap some e)))

  upload_body-Answered :
      (w : W) (req : Request) (ct : Bytes) (size i : ℕ) (r : Response)
      → length req.buffer_in ≤ size
      → size < 2 ^ 64
      → zimg_strlchr ct b'=' ≡ some i
      → (let buff = body_memory s req size in
          parse_form (save_key s) s.is_img ct (take size buff) (drop size buff) w
          ≢ some faulted_form)
      → Answered r (upload_body s w req ct size r)
  unfolding upload_body
  upload_body-Answered w req ct size i r short small bounded calm =
      let buff = body_memory s req size in
      let fits : ltb size (length req.buffer_in) ≡ false = ground (arith, short) in
      elim (Bool-cases (length req.buffer_in == 0 || not req.drains)) [
        | inl empty ↦ rw empty (no_results-Answered w r)
        | inr full ↦ elim (Bool-cases (occurs (codes "multipart/form-data") ct)) [
          | inr binary ↦
              let (done, ran, quiet) = x_binary_parse-Pending w ct buff size r in
              rw (full, fits, binary, ran) (end_upload-Answered r done quiet)
          | inl form ↦
              let (done, ran, quiet) =
                x_multipart_parse-Pending w ct (take size buff) (drop size buff) i r bounded
                  (omega (arith, length-take size buff, small)) calm in
              rw (full, fits, form, ran) (end_upload-Answered r done quiet)
        ]
      ]

  upload_headers-Answered :
      (w : W) (req : Request) (r : Response)
      → FitsUpload s w req
      → Answered r (upload_headers s w req r)
  unfolding upload_headers
  upload_headers-Answered w req r fits =
      elim (Option-cases (req.headers_in (codes "Content-Length"))) [
        | inl e ↦ rw (upload_headers, e) (no_results-Answered w r)
        | inr (text, e) ↦
            elim (Bool-cases
              (not (ltb_ℤ (pos 0) (atoi text)) || ltb_ℤ s.settings.max_size (atoi text))) [
                | inl refused ↦ rw (upload_headers, e, refused) (no_results-Answered w r)
                | inr taken ↦ elim (Option-cases (req.headers_in (codes "Content-Type"))) [
                  | inl no_type ↦ rw (upload_headers, e, taken, no_type) (no_results-Answered w r)
                  | inr (ct, typed) ↦
                      let (i, at_i) = fits.bounded ct typed in
                      rw (upload_headers, e, taken, typed)
                        (upload_body-Answered w req ct (pos_part (atoi text)) i r
                          (fits.short text e) (fits.small text e) at_i (fits.calm ct text typed e))
                ]
              ]
      ]

  post_upload_request_cb-Answered :
      (w : W) (req : Request) (r : Response)
      → FitsUpload s w req
      → Answered r (post_upload_request_cb s w req r)
  unfolding post_upload_request_cb
  post_upload_request_cb-Answered w req r fits = elim (Bool-cases (method_of req == method_post)) [
    | inr other ↦ rw other (no_results-Answered w r)
    | inl post ↦ elim (Verdict-cases (access_check s.settings.up_access (client s.inet_aton req))) [
      | inl e ↦ rw (post, e) (upload_headers-Answered w req r fits)
      | inr e ↦ rw (post, e) (no_results-Answered w r)
    ]
  ]

  save_decoded-Answered :
      (w : W) (buff : Bytes) (len : ℕ) (r : Response) → Answered r (save_decoded s w buff len r)
  unfolding save_decoded
  save_decoded-Answered w buff len r =
      let saved = s.save_img w (take len buff) in
      elim (Bool-cases saved.0.1) [
        | inl done ↦ rw done (reply_results-Answered saved.0.0 (accepted len saved.1 ∷ []) r r refl)
        | inr unsaved ↦ rw unsaved (no_results-Answered saved.0.0 r)
      ]

  base64_request_cb-Answered :
      (fill : ℕ) (w : W) (req : Request) (r : Response)
      → Answered r (base64_request_cb s fill w req r)
  unfolding base64_request_cb base64_query
  base64_request_cb-Answered fill w req r = elim (Bool-cases (method_of req == method_post)) [
    | inr other ↦ rw other (no_results-Answered w r)
    | inl post ↦ elim (Option-cases req.query) [
      | inl e ↦ rw (post, e) (no_results-Answered w r)
      | inr (find, e) ↦ elim (Option-cases (find (codes "base64"))) [
        | inl e' ↦ rw (post, e, base64_query, e') (no_results-Answered w r)
        | inr (base64, e') ↦
            let (len, buff, decoded, room, bound) = decode_param_total fill base64 in
            rw (post, e, base64_query, e', decoded) (save_decoded-Answered w buff len r)
      ]
    ]
  ]

  -- For any `save_img`, `is_img` and settings, both handlers of uploads answer a request once, with no access
  -- outside of a buffer: the one for forms and files where the body is no longer than its Content-Length,
  -- a content type has a `=`, and no callback of a form goes outside of the body's memory; the one for
  -- Base64 whatever the request is. Both where a freed node keeps its contents.
  pub uploads-Answered :
      (fill : ℕ) (w : W) (req : Request) (r : Response)
      → FitsUpload s w req
      → Answered r (post_upload_request_cb s w req r)
        × Answered r (base64_request_cb s fill w req r)
  uploads-Answered fill w req r fits =
      (post_upload_request_cb-Answered w req r fits, base64_request_cb-Answered fill w req r)
