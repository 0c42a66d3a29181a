-- ===== src/Http.antt =====
-- src/zhttpd.c: the parts of a request that the code reads and of its response that the code writes,
-- `atoi` of the C library, the headers of the configuration and the entity tag. `W` in the modules below
-- is the state of everything outside of the program.
pub mod Number
pub mod Replied
pub mod Get
pub mod Admin
pub mod Info
pub mod Post
pub mod Upload
pub mod Headers
use ximg.Prelude.{
  ℕ, zero, suc, ◌+◌, ◌-◌, ◌*◌, ◌/◌, ◌%◌, ◌^◌, min, Bool, true, false, not, ◌&&◌, ◌||◌, List, [],
  ◌∷◌, ◌++◌, Bytes, length, take, replicate, Option, none, some, leb, ltb, ◌==◌, if◌then◌else◌,
  codes, get_or,
}
use ximg.Prelude.Int.{ℤ, pos, negsuc}
use ximg.Text.{starts_with}
use ximg.Access.{AccessConf, Verdict, ok, forbidden, zimg_access_inet, is_digit}
use ximg.Md5.{md5_init, md5_append, md5_finish}
use ximg.Key.{md5sum}
use ximg.Settings.{Settings, ZimgReq}

-- The buffer, the headers and the codes of the replies that were sent.
pub record Response : Type 0 where
  pub buffer_out : Bytes
  pub headers_out : List (Bytes × Bytes)
  pub replies : List ℕ

-- The values that the code builds with cJSON.
mutual
  pub data Json : Type 0 where
    bool : Bool → Json
    number : ℤ → Json
    string : Bytes → Json
    object : Members → Json
    array : Items → Json

  pub data Members : Type 0 where
    end : Members
    member : Bytes → Json → Members → Members

  pub data Items : Type 0 where
    empty : Items
    item : Json → Items → Items

-- `sin_addr` is the client's address in network order; `query` is NULL without a query, else
-- `evhtp_kv_find` on it; `drains` tells whether `evbuffer_remove` succeeds on the body `buffer_in`.
pub record Request : Type 0 where
  pub method : ℕ
  pub sin_addr : ℕ
  pub headers_in : Bytes → Option Bytes
  pub path : Bytes
  pub query : Option (Bytes → Option Bytes)
  pub buffer_in : Bytes
  pub drains : Bool

-- The settings, the functions that they point to, and the calls of the handlers. A page is none where
-- `open` or `fstat` fails. `fresh` is what `malloc` gives, with what lies behind it, and
-- `keeps_freed` tells whether a node still has its contents once `free` was called on it. `form_parse` is multipart_parser.c from
-- `multipart_parser_init` to `multipart_parser_free` with the callbacks `on_header_value` and
-- `on_chunk_data`: none where it cannot start, else `succno` and the text that the callbacks printed.
pub record Server (W : Type 0) : Type 0 where
  pub settings : Settings
  pub get_img : W → ZimgReq → Request → Response → W × Response × ℤ
  pub admin_img : W → Bytes → ℤ → Response → W × Response × ℤ
  pub info_img : W → Bytes → Response → W × Response × ℤ
  pub save_img : W → Bytes → (W × Bool) × Bytes
  pub is_img : Bytes → Bool
  pub inet_aton : Bytes → Option ℕ
  pub root_page : W → Option Bytes
  pub admin_page : W → Option Bytes
  pub print_unformatted : Json → Bytes
  pub fresh : ℕ → Bytes
  pub keeps_freed : Bool
  pub form_parse : W → Bytes → Bytes → Option (W × ℕ × Bytes)

-- `evbuffer_add_printf`, and `evbuffer_add_file` with the bytes of the file
abbrev pub add_text : Bytes → Response → Response
add_text text r = record r { buffer_out = r.buffer_out ++ text }

-- `evhtp_headers_add_header` of `evhtp_header_new`
abbrev pub add_header : Bytes → Bytes → Response → Response
add_header key value r = record r { headers_out = r.headers_out ++ ((key, value) ∷ []) }

-- `evhtp_send_reply`
abbrev pub send_reply : ℕ → Response → Response
send_reply code r = record r { replies = r.replies ++ (code ∷ []) }

abbrev pub res_ok : ℕ
res_ok = 200

abbrev pub res_notmod : ℕ
res_notmod = 304

abbrev pub res_forbidden : ℕ
res_forbidden = 403

abbrev pub res_notfound : ℕ
res_notfound = 404

-- `isspace`
abbrev pub is_blank : ℕ → Bool
is_blank c = c == 32 || (leb 9 c && leb c 13)

unfoldable pub skip_blanks : Bytes → Bytes
skip_blanks [] = []
skip_blanks (c ∷ s) = if is_blank c then skip_blanks s else c ∷ s

-- The number that the leading digits stand for.
unfoldable pub leading : ℕ → Bytes → ℕ
leading acc [] = acc
leading acc (c ∷ s) =
    let more = leading (acc * 10 + (c - b'0')) s in if is_digit c then more else acc

-- A `long` that becomes an `int`: `n`, or minus `n`.
unfoldable pub int_of_pos : ℕ → ℤ
int_of_pos n = let m = n % 2 ^ 32 in if ltb m (2 ^ 31) then pos m else negsuc (2 ^ 32 - 1 - m)

unfoldable pub int_of_neg : ℕ → ℤ
unfolding int_of_pos
int_of_neg n = int_of_pos (2 ^ 32 - n % 2 ^ 32)

-- `atoi`: `strtol` with base 10, which stops at the range of a `long`, as an `int`.
unfoldable pub signed : Bytes → ℤ
unfolding leading int_of_pos int_of_neg
signed [] = pos 0
signed (c ∷ s) =
    if c == b'-'
    then int_of_neg (min (leading 0 s) (2 ^ 63))
    else if c == b'+'
    then int_of_pos (min (leading 0 s) (2 ^ 63 - 1))
    else int_of_pos (min (leading 0 (c ∷ s)) (2 ^ 63 - 1))

unfoldable pub atoi : Bytes → ℤ
unfolding skip_blanks signed
atoi s = signed (skip_blanks s)

-- The index of `POST` and `GET` in `method_strmap`.
abbrev pub method_get : ℕ
method_get = 0

abbrev pub method_post : ℕ
method_post = 2

-- `req_method` behind its bound.
abbrev pub method_of : Request → ℕ
method_of req = if leb 16 req.method then 16 else req.method

-- `ss->sin_addr` behind the test of `X-Forwarded-For`; `inet_aton` gives none for 0.
unfoldable pub client : (Bytes → Option ℕ) → Request → ℕ
client inet_aton req = elim (req.headers_in (codes "X-Forwarded-For")) [
  | none ↦ req.sin_addr
  | some xff_address ↦ elim (inet_aton xff_address) [ none ↦ req.sin_addr | some addr ↦ addr ]
]

-- The check of an access that may be NULL: `ok` with none.
unfoldable pub access_check : Option AccessConf → ℕ → Verdict
access_check none addr = ok
access_check (some conf) addr = zimg_access_inet conf addr

-- `zimg_headers_add`
unfoldable pub add_headers : List (Bytes × Bytes) → Response → Response
add_headers [] r = r
add_headers ((key, value) ∷ headers) r = add_headers headers (add_header key value r)

unfoldable pub zimg_headers_add : Option (List (Bytes × Bytes)) → Response → Response
unfolding add_headers
zimg_headers_add none r = r
zimg_headers_add (some headers) r = add_headers headers r

abbrev pub add_server : Settings → Response → Response
add_server st r = add_header (codes "Server") st.server_name r

abbrev pub add_type : Bytes → Response → Response
add_type value r = add_header (codes "Content-Type") value r

-- The three calls of md5.c and the loop behind them. The context's buffer starts with zeros here; the
-- digest does not depend on it.
unfoldable pub md5_text : Bytes → Bytes
md5_text buff = md5sum (md5_finish (md5_append (md5_init (replicate 64 0)) buff))

-- The result 2 is `true`. The tag has 32 characters and no NUL.
unfoldable pub zimg_etag_set : Request → Bytes → Response → Response × Bool
zimg_etag_set req buff r =
    let tag = md5_text buff in
    elim (req.headers_in (codes "If-None-Match")) [
      | none ↦ (add_header (codes "Etag") tag r, false)
      | some etag_var ↦
          if starts_with etag_var tag then (r, true) else (add_header (codes "Etag") tag r, false)
    ]

-- The end of the handlers at `forbidden` and `err`, for the handlers of pages.
unfoldable pub reply_forbidden : Settings → Response → Response
reply_forbidden st r = send_reply res_forbidden (
    add_type (codes "text/html")
      (add_server st (add_text (codes "<html><body><h1>403 Forbidden!</h1></body></html>") r)))

unfoldable pub reply_notfound : Settings → Response → Response
reply_notfound st r = send_reply res_notfound (
    add_type (codes "text/html")
      (add_server st (add_text (codes "<html><body><h1>404 Not Found!</h1></body></html>") r)))

-- The branch of `favicon.ico`.
unfoldable pub reply_favicon : Settings → Response → Response
reply_favicon st r =
    send_reply res_ok (zimg_headers_add st.headers (add_type (codes "text/html") (add_server st r)))

-- The branches of the two root pages: `page` is the file, none where `open` or `fstat` fails.
unfoldable pub reply_page : Settings → Bytes → Option Bytes → Response → Response
reply_page st default page r = send_reply res_ok (
    add_type (codes "text/html")
      (add_server st (add_text (elim page [ none ↦ default | some file ↦ file ]) r)))

-- `post_error_list`
abbrev pub post_error_list : List Bytes
post_error_list =
    codes "Internal error."
    ∷ codes "File type not support."
    ∷ codes "Request method error."
    ∷ codes "Access error."
    ∷ codes "Request body parse error."
    ∷ codes "Content-Length error."
    ∷ codes "Content-Type error."
    ∷ codes "File too large."
    ∷ codes "Request url illegal."
    ∷ codes "Image not existed."
    ∷ []

-- The JSON of `json_return`, for an image that was saved and for an error.
abbrev pub saved_json : Bytes → ℕ → Json
saved_json md5sum post_size = object (
    member (codes "ret") (bool true) (
      member (codes "info")
        (object (
          member (codes "md5") (string md5sum)
            (member (codes "size") (number (pos post_size)) end)))
        end))

abbrev pub error_json : ℕ → Json
error_json err_no = object (
    member (codes "ret") (bool false) (
      member (codes "error")
        (object (
          member (codes "code") (number (pos err_no))
            (member (codes "message") (string (get_or post_error_list err_no [])) end)))
        end))

unfoldable pub json_return : {W : Type 0} → Server W → Json → Response → Response
json_return s json r = add_type (codes "application/json") (add_text (s.print_unformatted json) r)

-- The end at `err` with JSON.
unfoldable pub reply_error : {W : Type 0} → Server W → ℕ → Response → Response
unfolding json_return
reply_error s err_no r =
    send_reply res_ok (add_server s.settings (json_return s (error_json err_no) r))
