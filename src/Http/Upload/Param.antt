-- ===== src/Http/Upload/Param.antt =====
-- An image that is uploaded as text is saved with just its bytes.
use ximg.Prelude.{
  ℕ, Bool, true, false, [], ◌∷◌, ◌++◌, Bytes, All, Option, some, ◌==◌, if◌then◌else◌, codes, ◌≡◌,
}
use ximg.Base64.RoundTrip.{IsByte, b64_encode}
use ximg.Http.{
  Request, Response, Server, Json, number, string, object, array, end, member, Items, empty, item,
  method_of, method_post,
}
use ximg.Prelude.Int.{pos}
use ximg.UrlDecode.RoundTrip.{url_encode}

-- A POST whose query has the image, encoded, under `base64`.
pub record Carries (req : Request) (img : Bytes) : Type 0 where
  pub keep : ℕ → Bool
  pub escapes : keep b'%' ≡ false
  pub bytes : All IsByte img
  pub post : (method_of req == method_post) ≡ true
  pub find : Bytes → Option Bytes
  pub query : req.query ≡ some find
  pub has_img : find (codes "base64") ≡ some (url_encode keep (b64_encode img))

-- The JSON of one image that was saved, and of none.
abbrev saved_items : Bytes → ℕ → Items
saved_items md5 size =
    item
      (object (
        member (codes "code") (number (pos 200)) (
          member (codes "size") (number (pos size)) (
            member (codes "md5") (string md5) (
              member (codes "msg") (string (codes "ok")) (
                member (codes "width") (number (pos 0))
                  (member (codes "height") (number (pos 0)) end)))))))
      empty

abbrev pub saved_data : Bool → Bytes → ℕ → Json
saved_data saved md5 size = object (
    member (codes "code") (number (pos 200))
      (member (codes "data") (array (if saved then saved_items md5 size else empty)) end))

-- The answer with a text of JSON.
abbrev pub json_reply : Bytes → Bytes → Response → Response
json_reply server_name text r = record {
  buffer_out = r.buffer_out ++ text;
  headers_out =
      (r.headers_out ++ ((codes "Content-Type", codes "application/json") ∷ []))
      ++ ((codes "Server", server_name) ∷ []);
  replies = r.replies ++ (200 ∷ []);
}

module _ {W : Type 0} (s : Server W) (keeps : s.keeps_freed ≡ true) (fill : ℕ) (w : W)
    (req : Request) (r : Response) where
  -- What the request is answered with for an image.
  abbrev answer : Bool → Bytes → ℕ → Response
  answer saved md5 size =
      json_reply s.settings.server_name (s.print_unformatted (saved_data saved md5 size)) r
