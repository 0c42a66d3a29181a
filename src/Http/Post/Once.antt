-- ===== src/Http/Post/Once.antt =====
-- `post_request_cb` answers every request whose body fits, once.
use ximg.Prelude.{
  ℕ, ◌≤◌, false, not, ◌||◌, ◌++◌, Bytes, length, take, drop, Option, none, some, ltb, ◌==◌, codes,
  ◌≡◌, ◌≢◌, refl, arith, Bool-cases, Option-cases, inl, inr,
}
use ximg.Prelude.Int.{pos, pos_part, ltb_ℤ}
use ximg.Http.{
  Request, Response, Server, atoi, method_of, method_post, access_check, client, reply_error,
  json_return, add_text,
}
use ximg.Http.Post.{
  binary_parse, multipart_parse, form_body, form_end, form_head, end_binary, end_form, post_body,
  post_headers, post_request_cb,
}
use ximg.Http.Replied.{Verdict-cases, Replied, Answered, one_more, reply_error-Replied}
use ximg.Upload.Form.{occurs, boundary_pattern}

-- The body is no longer than its Content-Length says, and the boundary of a form has its `=`.
pub record Fits (req : Request) : Type 0 where
  pub short :
      (text : Bytes)
      → req.headers_in (codes "Content-Length") ≡ some text
      → length req.buffer_in ≤ pos_part (atoi text)
  pub bounded :
      (text : Bytes)
      → req.headers_in (codes "Content-Type") ≡ some text
      → boundary_pattern text ≢ none

module _ {W : Type 0} (s : Server W) where
  some-Answered : (r : Response) (p : W × Response) → Replied r p.1 → Answered r (some p)
  some-Answered r p h = (p.0, p.1, refl, h)

  reply_error-Answered : (w : W) (n : ℕ) (r : Response) → Answered r (some (w, reply_error s n r))
  reply_error-Answered w n r =
      some-Answered r (w, reply_error s n r) (reply_error-Replied s n r r refl)

  binary_parse-replies :
      (w : W) (ct buff : Bytes) (size : ℕ) (r : Response)
      → (binary_parse s w ct buff size r).1.replies ≡ r.replies
  unfolding binary_parse json_return
  binary_parse-replies w ct buff size r = elim (Bool-cases (s.is_img ct)) [
    | inr no_image ↦ rw no_image refl
    | inl image ↦ elim (Bool-cases (s.save_img w (take size buff)).0.1) [
      | inl saved ↦ rw (image, saved) refl
      | inr unsaved ↦ rw (image, unsaved) refl
    ]
  ]

  end_binary-Replied :
      (r : Response) (done : W × Response × Option ℕ)
      → done.1.replies ≡ r.replies
      → Replied r (end_binary s done).1
  unfolding end_binary
  end_binary-Replied r (w, q, none) e = (200, one_more 200 e, refl)
  end_binary-Replied r (w, q, some n) e = reply_error-Replied s n r q e

  form_body-replies :
      (w : W) (pattern : Option Bytes) (body : Bytes) (r : Response)
      → (form_body s w pattern body r).1.replies ≡ r.replies
  unfolding form_body form_end
  form_body-replies w none body r = refl
  form_body-replies w (some pattern) body r = elim (Option-cases (s.form_parse w pattern body)) [
    | inl e ↦ rw (form_body, e) refl
    | inr ((w', succno, text), e) ↦ elim (Bool-cases (succno == 0)) [
      | inl zero ↦ rw (form_body, e, zero) refl
      | inr more ↦ rw (form_body, e, more) refl
    ]
  ]

  end_form-Replied :
      (r : Response) (done : W × Response × Option ℕ)
      → done.1.replies ≡ r.replies
      → Replied r (end_form s done).1
  unfolding end_form
  end_form-Replied r (w, q, none) e = (200, one_more 200 e, refl)
  end_form-Replied r (w, q, some n) e = (200, one_more 200 e, refl)

  post_body-Answered :
      (w : W) (req : Request) (ct : Bytes) (size : ℕ) (r : Response)
      → length req.buffer_in ≤ size
      → boundary_pattern ct ≢ none
      → Answered r (post_body s w req ct size r)
  unfolding post_body multipart_parse
  post_body-Answered w req ct size r short bounded =
      let buff = req.buffer_in ++ drop (length req.buffer_in) (s.fresh size) in
      let fits : ltb size (length req.buffer_in) ≡ false = ground (arith, short) in
      elim (Bool-cases (length req.buffer_in == 0 || not req.drains)) [
        | inl empty ↦ rw empty (reply_error-Answered w 4 r)
        | inr full ↦ elim (Bool-cases (occurs (codes "multipart/form-data") ct)) [
          | inr binary ↦
              rw (full, fits, binary)
                (some-Answered r (end_binary s (binary_parse s w ct buff size r)) (
                  end_binary-Replied r (binary_parse s w ct buff size r)
                    (binary_parse-replies w ct buff size r)))
          | inl form ↦ elim (Option-cases (boundary_pattern ct)) [
            | inl e ↦ absurd (bounded e)
            | inr (pattern, e) ↦
                let done = form_body s w pattern (take size buff) (add_text form_head r) in
                rw (full, fits, form, e)
                  (some-Answered r (end_form s done) (
                    end_form-Replied r done
                      (form_body-replies w pattern (take size buff) (add_text form_head r))))
          ]
        ]
      ]

  post_headers-Answered :
      (w : W) (req : Request) (r : Response) → Fits req → Answered r (post_headers s w req r)
  unfolding post_headers
  post_headers-Answered w req r fits =
      elim (Option-cases (req.headers_in (codes "Content-Length"))) [
        | inl e ↦ rw (post_headers, e) (reply_error-Answered w 5 r)
        | inr (text, e) ↦ elim (Bool-cases (ltb_ℤ (pos 0) (atoi text))) [
          | inr empty ↦ rw (post_headers, e, empty) (reply_error-Answered w 5 r)
          | inl some_size ↦ elim (Bool-cases (ltb_ℤ s.settings.max_size (atoi text))) [
            | inl large ↦ rw (post_headers, e, some_size, large) (reply_error-Answered w 7 r)
            | inr small ↦ elim (Option-cases (req.headers_in (codes "Content-Type"))) [
              | inl no_type ↦
                  rw (post_headers, e, some_size, small, no_type) (reply_error-Answered w 6 r)
              | inr (ct, typed) ↦
                  rw (post_headers, e, some_size, small, typed)
                    (post_body-Answered w req ct (pos_part (atoi text)) r (fits.short text e)
                      (fits.bounded ct typed))
            ]
          ]
        ]
      ]

  -- A request whose body fits is answered once, with one of the codes 200, 304, 403 and 404, and no store
  -- is outside of the buffer.
  pub post_request_cb-Answered :
      (w : W) (req : Request) (r : Response) → Fits req → Answered r (post_request_cb s w req r)
  unfolding post_request_cb
  post_request_cb-Answered w req r fits = elim (Bool-cases (method_of req == method_post)) [
    | inr other ↦ rw other (reply_error-Answered w 2 r)
    | inl post ↦ elim (Verdict-cases (access_check s.settings.up_access (client s.inet_aton req))) [
      | inl e ↦ rw (post, e) (post_headers-Answered w req r fits)
      | inr e ↦ rw (post, e) (reply_error-Answered w 3 r)
    ]
  ]
