-- ===== src/Tests/Upload.antt =====
-- The theorems on the handlers of uploads at concrete requests.
use ximg.Prelude.{ℕ, Bool, false, Bytes, Option, none, some, if◌then◌else◌, codes}
use ximg.Base64.RoundTrip.{b64_encode}
use ximg.Http.{Request, Server}
use ximg.Tests.Store.{image, plain_request, eqb}
use ximg.UrlDecode.RoundTrip.{url_encode}

-- A file of three bytes.
abbrev file_request : Request
file_request = record plain_request {
  method = 2;
  path = codes "/upload";
  headers_in = λ name.
      if eqb name (codes "Content-Length")
      then some (codes "3")
      else if eqb name (codes "Content-Type")
      then some (codes "image/jpeg; q=1")
      else none;
  buffer_in = codes "abc";
}

-- Nothing but the digits and letters is kept.
abbrev keep_none : ℕ → Bool
keep_none c = false

abbrev text_query : Bytes → Option Bytes
text_query name =
    if eqb name (codes "base64") then some (url_encode keep_none (b64_encode image)) else none

abbrev text_request : Request
text_request = record plain_request { method = 2; path = codes "/base64"; query = some text_query }
