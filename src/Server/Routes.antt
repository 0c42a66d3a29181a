-- ===== src/Server/Routes.antt =====
-- src/main.c: the callbacks that `main` sets for the paths; src/zhttpd.c: the two small ones. With them, the
-- answer to any request.
use ximg.Prelude.{
  ℕ, zero, suc, ◌||◌, Bool, List, [], ◌∷◌, Bytes, length, drop, Option, none, some, ◌==◌,
  if◌then◌else◌, codes,
}
use ximg.Http.{Request, Response, Server, res_ok, send_reply, add_text, add_type, add_server}
use ximg.Http.Admin.{admin_request_cb}
use ximg.Http.Get.{get_request_cb}
use ximg.Http.Info.{info_request_cb}
use ximg.Http.Post.{post_request_cb}
use ximg.Http.Replied.{Replied}
use ximg.Http.Upload.{post_upload_request_cb, base64_request_cb}

pub data Callback : Type 0 where
  dump upload admin info echo base64 up : Callback

-- The calls of `evhtp_set_cb`.
abbrev pub routes : List (Bytes × Callback)
routes =
    (codes "/dump", dump)
    ∷ (codes "/upload", upload)
    ∷ (codes "/admin", admin)
    ∷ (codes "/info", info)
    ∷ (codes "/echo", echo)
    ∷ (codes "/base64", base64)
    ∷ (codes "/up", up)
    ∷ []

-- The loop of `dump_request_cb` over the body, seven bytes at a time: whether it has ended within the
-- given number of turns.
unfoldable pub dump_loop : ℕ → Bool → Bytes → Bool
dump_loop zero drains body = length body == 0
dump_loop (suc turns) drains body =
    let more = dump_loop turns drains (if drains then drop 7 body else body) in
    length body == 0 || more

-- `dump_text` is what the calls in front of the loop print, and none a loop that does not end: as many turns
-- as the body has bytes are enough for one that does.
unfoldable pub dump_request_cb :
    {W : Type 0} → Server W → (Request → Bytes) → W → Request → Response → Option (W × Response)
unfolding dump_loop
dump_request_cb s dump_text w req r =
    if dump_loop (length req.buffer_in) req.drains req.buffer_in
    then some (
      w,
      send_reply res_ok
          (add_type (codes "text/plain") (add_server s.settings (add_text (dump_text req) r))),
    )
    else none

unfoldable pub echo_cb : {W : Type 0} → Server W → W → Request → Response → W × Response
echo_cb s w req r = (
  w,
  send_reply res_ok (
      add_type (codes "text/html") (
        add_server s.settings
          (add_text (codes "<html><body><h1>it's works!</h1></body></html>") r))),
)

-- What the library calls for a request: `find` is its choice among the callbacks that are set, and without
-- one it calls the general callback.
unfoldable pub dispatch :
    {W : Type 0}
    → Server W
    → (List (Bytes × Callback) → Request → Option Callback)
    → (Request → Bytes)
    → ℕ
    → W
    → Request
    → Response
    → Option (W × Response)
unfolding dump_request_cb echo_cb
dispatch s find dump_text fill w req r = elim (find routes req) [
  | none ↦ get_request_cb s w req r
  | some dump ↦ dump_request_cb s dump_text w req r
  | some upload ↦ post_request_cb s w req r
  | some admin ↦ admin_request_cb s w req r
  | some info ↦ some (info_request_cb s w req r)
  | some echo ↦ some (echo_cb s w req r)
  | some base64 ↦ base64_request_cb s fill w req r
  | some up ↦ post_upload_request_cb s w req r
]
