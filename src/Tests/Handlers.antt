-- ===== src/Tests/Handlers.antt =====
-- The theorems on the handlers at concrete requests.
use ximg.Prelude.{
  true, Bytes, Option, none, some, if◌then◌else◌, codes, replicate, ◌≡◌, ◌⊎◌, refl, inl, arith,
}
use ximg.Prelude.Int.{pos, negsuc}
use ximg.Http.{Request, Response, Server}
use ximg.Http.Admin.{admin_request_cb}
use ximg.Http.Admin.Guard.{IsCommand, admin_request_cb-Guarded}
use ximg.Http.Get.{asked, get_request_cb}
use ximg.Http.Get.Asked.{Names, IsAskable, asked-Names}
use ximg.Http.Get.Guard.{Guarded, get_request_cb-Guarded}
use ximg.Key.Gen.{int_text}
use ximg.Server.{set_callback}
use ximg.Tests.Store.{
  World, conf, thread, magick, image_key, one_image, nothing_sent, plain_request, small_req, eqb,
}

abbrev pub base : Server World
base = record {
  settings = conf;
  get_img = λ w z req r. (w, r, pos 1);
  admin_img = λ w md5 t r. (w, r, pos 1);
  info_img = λ w md5 r. (w, r, pos 1);
  save_img = λ w buff. ((w, true), buff);
  is_img = λ t. true;
  inet_aton = λ t. none;
  root_page = λ w. none;
  admin_page = λ w. none;
  print_unformatted = λ j. codes "{}";
  fresh = λ n. replicate n 0;
  keeps_freed = true;
  form_parse = λ w pattern body. none;
}

abbrev query : Bytes → Option Bytes
query name =
    if eqb name (codes "md5")
    then some image_key
    else if eqb name (codes "t")
    then some (codes "1")
    else none

abbrev admin_request : Request
admin_request = record plain_request { path = codes "/admin"; query = some query }

-- A body of three bytes with its headers.
abbrev post_request : Request
post_request = record plain_request {
  method = 2;
  path = codes "/upload";
  headers_in = λ name.
      if eqb name (codes "Content-Length")
      then some (codes "3")
      else if eqb name (codes "Content-Type")
      then some (codes "jpeg")
      else none;
  buffer_in = codes "abc";
}

get_request_cb-Guarded_example :
    (result : World × Response) × (get_request_cb
        (set_callback thread magick base)
        one_image
        plain_request
        nothing_sent
      ≡ some result)
    × Guarded (set_callback thread magick base) one_image plain_request nothing_sent result
get_request_cb-Guarded_example =
    get_request_cb-Guarded (set_callback thread magick base) one_image plain_request nothing_sent
      refl

admin_request_cb-Guarded_example :
    (result : World × Response) × (admin_request_cb
        (set_callback thread magick base)
        one_image
        admin_request
        nothing_sent
      ≡ some result)
    × ((result.0 ≡ one_image)
        ⊎ IsCommand (set_callback thread magick base) one_image admin_request nothing_sent result)
admin_request_cb-Guarded_example =
    admin_request_cb-Guarded (set_callback thread magick base) one_image admin_request nothing_sent
      refl

-- A query that names the values of `small_req`.
abbrev small_query : Bytes → Option Bytes
small_query name =
    if eqb name (codes "w")
    then some (int_text (pos 90))
    else if eqb name (codes "h")
    then some (int_text (pos 0))
    else if eqb name (codes "p")
    then some (int_text (pos 1))
    else if eqb name (codes "g")
    then some (int_text (pos 0))
    else if eqb name (codes "x")
    then some (int_text (negsuc 0))
    else if eqb name (codes "y")
    then some (int_text (negsuc 0))
    else if eqb name (codes "r")
    then some (int_text (pos 0))
    else if eqb name (codes "q")
    then some (int_text (pos 75))
    else if eqb name (codes "f")
    then some (codes "jpeg")
    else none

asked-Names_example : asked conf image_key (some small_query) ≡ small_req
asked-Names_example = asked-Names conf small_query small_req names askable refl refl
  where
    names : Names small_query small_req
    names = record {
      w = refl;
      h = refl;
      p = refl;
      g = refl;
      x = refl;
      y = refl;
      r = refl;
      q = refl;
      f = refl;
      t = refl;
    }

    askable : IsAskable small_req
    askable = record {
      width = (omega arith, omega arith);
      height = (omega arith, omega arith);
      proportion = (omega arith, omega arith);
      gray = (omega arith, omega arith);
      x = (omega arith, omega arith);
      y = (omega arith, omega arith);
      rotate = (omega arith, omega arith);
      quality = (omega arith, omega arith);
      some_quality = refl;
      position = inl refl;
      no_sv = refl;
    }
