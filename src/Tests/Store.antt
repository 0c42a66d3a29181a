-- ===== src/Tests/Store.antt =====
-- A world of two maps, one behind a beansdb server and one behind a cache, and the theorems on images
-- and keys at concrete inputs.
use ximg.Prelude.{
  ◌&&◌, not, Bool, true, false, [], ◌∷◌, Bytes, length, All, Option, none, some, ◌==◌,
  if◌then◌else◌, codes, ◌≡◌, ◌≢◌, refl, sym, ap₂, ◌∙◌, arith, inl, inr, Bool-cases,
}
use ximg.Prelude.Int.{pos, negsuc}
use ximg.Cache.{
  Memcached, MemcachedReturn, success, notfound, value_of, CacheClient, find_cache_bin,
  set_cache_bin,
}
use ximg.Cache.Contents.{cache_calls, cache_calls-IsCache}
use ximg.Db.{
  DbClient, exist_db, exist_beansdb, get_img_db, save_img_db, get_img_beansdb, save_img_beansdb,
}
use ximg.Db.Contract.{View, IsMemcached, IsReplied, IsCache, IsStore, calls_of}
use ximg.Db.Refines.{by_beansdb, calls_of-IsStore}
use ximg.Http.{md5_text, Request, Response}
use ximg.Http.Get.{asked, default_req, with_quality}
use ximg.Images.{Files, Thread, Magick, changed, save_img}
use ximg.Images.Database.{get_img_mode_db}
use ximg.Images.Order.{Backed, InOrder}
use ximg.Images.Parts.{serve, IsSent, with_world}
use ximg.Images.Saved.{Addressed, save_img-Addressed}
use ximg.Images.Served.{get_img_mode_db-InOrder, get_img_mode_db-IsOriginal}
use ximg.Key.{is_md5, key_prefix, md5sum}
use ximg.Key.Gen.{rsp_cache_key, plain_key, int_text, key_args, digits}
use ximg.Key.Gen.Injective.{
  AsksSame, IsKeyed, args_tail, rsp_cache_key-AsksSame, rsp_cache_key_clash,
}
use ximg.Md5.{
  md5_init, md5_append, md5_finish, md5_process, initial, full_blocks, add_count, append_blocks,
  append_at,
}
use ximg.Settings.{ZimgReq, Settings}

abbrev pub eqb : Bytes → Bytes → Bool
eqb [] [] = true
eqb [] (d ∷ t) = false
eqb (c ∷ s) [] = false
eqb (c ∷ s) (d ∷ t) = c == d && eqb s t

pub eqb_eq : (s t : Bytes) → eqb s t ≡ true → s ≡ t
eqb_eq [] [] e = refl
eqb_eq [] (d ∷ t) e = cc
eqb_eq (c ∷ s) [] e = cc
eqb_eq (c ∷ s) (d ∷ t) e =
    let first : c ≡ d = ground (arith, e) in
    let rest : eqb s t ≡ true = ground (arith, e) in ap₂ ◌∷◌ first (eqb_eq s t rest)

pub eqb_refl : (s : Bytes) → eqb s s ≡ true
eqb_refl [] = refl
eqb_refl (c ∷ s) = ground (arith, eqb_refl s)

abbrev pub Map : Type 0
Map = Bytes → Option Bytes

abbrev pub put : Bytes → Option Bytes → Map → Map
put k v m = λ j. if eqb j k then v else m j

pub put_same : (k : Bytes) (v : Option Bytes) (m : Map) → put k v m k ≡ v
put_same k v m = rw (eqb_refl k)

put_other : (k : Bytes) (v : Option Bytes) (m : Map) (j : Bytes) → j ≢ k → put k v m j ≡ m j
put_other k v m j ne = elim (Bool-cases (eqb j k)) [
  | inl e ↦ absurd (ne (eqb_eq j k e))
  | inr e ↦ rw e
]

-- The database and the cache.
abbrev pub World : Type 0
World = Map × Map

abbrev pub db_view : View World
db_view w = w.0

abbrev pub cache_view : View World
cache_view w = w.1

abbrev pub found : Option Bytes → MemcachedReturn × Option Bytes
found none = (notfound, none)
found (some v) = (success, some v)

abbrev pub beansdb_server : Memcached World
beansdb_server = record {
  memcached_get = λ w key. (w, (found (w.0 key)).0, (found (w.0 key)).1);
  memcached_set = λ w key v. ((put key (some v) w.0, w.1), success);
  memcached_delete = λ w key. ((put key none w.0, w.1), success);
}

abbrev pub cache_server : Memcached World
cache_server = record {
  memcached_get = λ w key. (w, (found (w.1 key)).0, (found (w.1 key)).1);
  memcached_set = λ w key v. ((w.0, put key (some v) w.1), success);
  memcached_delete = λ w key. ((w.0, put key none w.1), success);
}

found_value : (o : Option Bytes) (v : Bytes) → (found o).1 ≡ some v → o ≡ some v
found_value none v e = cc
found_value (some u) v e = e

found_empty : (o : Option Bytes) → (found o).0 ≡ success → (found o).1 ≡ none → o ≡ some []
found_empty none done e = cc
found_empty (some u) done e = cc

beansdb_server-IsReplied : IsReplied beansdb_server db_view
beansdb_server-IsReplied = record {
  set_done = λ w key v e. put_same key (some v) w.0;
  delete_done = λ w key e. put_same key none w.0;
}

pub cache_server-IsReplied : IsReplied cache_server cache_view
cache_server-IsReplied = record {
  set_done = λ w key v e. put_same key (some v) w.1;
  delete_done = λ w key e. put_same key none w.1;
}

beansdb_server-IsMemcached : IsMemcached beansdb_server db_view
beansdb_server-IsMemcached = record {
  get_kept = λ w key j. refl;
  get_value = λ w key v done whole. found_value (w.0 key) v whole;
  get_empty = λ w key done no_value. found_empty (w.0 key) done no_value;
  set_kept = λ w key v j ne. put_other key (some v) w.0 j ne;
  set_whole = λ w key v. inr (put_same key (some v) w.0);
  delete_kept = λ w key j ne. put_other key none w.0 j ne;
}

pub cache_server-IsMemcached : IsMemcached cache_server cache_view
cache_server-IsMemcached = record {
  get_kept = λ w key j. refl;
  get_value = λ w key v done whole. found_value (w.1 key) v whole;
  get_empty = λ w key done no_value. found_empty (w.1 key) done no_value;
  set_kept = λ w key v j ne. put_other key (some v) w.1 j ne;
  set_whole = λ w key v. inr (put_same key (some v) w.1);
  delete_kept = λ w key j ne. put_other key none w.1 j ne;
}

abbrev pub db_client : DbClient World
db_client = record { mode = 2; beansdb_conn = some beansdb_server; ssdb_conn = none }

abbrev pub cache_client : CacheClient World
cache_client = record { cache_on = true; cache_conn = some cache_server }

pub calls_of-IsStore_example : IsStore (calls_of db_client) db_view
calls_of-IsStore_example =
    calls_of-IsStore db_client db_view
      (by_beansdb refl (beansdb_server-IsMemcached, beansdb_server-IsReplied))

cache_client-IsCache : IsCache (cache_calls cache_client) cache_view
cache_client-IsCache =
    cache_calls-IsCache cache_view true (some cache_server) cache_server-IsMemcached

abbrev pub conf : Settings
conf = record {
  server_name = codes "zimg";
  headers = none;
  etag = 0;
  up_access = none;
  down_access = none;
  admin_access = none;
  cache_on = true;
  disable_args = 0;
  disable_type = 0;
  disable_zoom_up = 0;
  script_on = 0;
  format = codes "jpeg";
  quality = pos 75;
  mode = 2;
  save_new = 1;
  max_size = pos 1000;
  img_path = codes "./img";
}

-- No file is there, and none can be made.
abbrev pub no_files : Files World
no_files = record {
  is_dir = λ w path. false;
  is_file = λ w path. false;
  mk_dirs = λ w path. (w, false);
  delete_file = λ w path. (w, false);
  open_write = λ w path. (w, none);
  open_read = λ w path. (w, none);
  flock_ex = λ w fd. (w, true);
  flock_un = λ w fd. w;
  st_size = λ w fd. 0;
  write = λ w fd buff. (w, none);
  read = λ w fd len. (w, none);
  close = λ w fd. w;
}

abbrev pub thread : Thread World
thread = record { settings = conf; cache = cache_client; db = db_client; files = no_files }

-- A wand that holds the bytes, and whose conversion adds one.
abbrev pub magick : Magick World Bytes
magick = record {
  new_magick_wand = λ w. some [];
  read_image_blob = λ im blob. (blob, true);
  read_image = λ w im path. (im, false);
  get_image_length = λ im. length im;
  reset_iterator = λ im. im;
  get_image_blob = λ im. some im;
  convert = λ st z im. (b'c' ∷ im, changed);
  lua_convert = λ st z im. (b'l' ∷ im, changed);
  info_text = λ im. im;
}

abbrev pub image : Bytes
image = codes "abc"

abbrev pub image_key : Bytes
image_key = codes "900150983cd24fb0d6963f7d28e17f72"

abbrev pub empty_world : World
empty_world = (λ k. none, λ k. none)

-- The image is in the database, and the cache is empty.
abbrev pub one_image : World
one_image = (put image_key (some image) (λ k. none), λ k. none)

abbrev pub nothing_sent : Response
nothing_sent = record { buffer_out = []; headers_out = []; replies = [] }

abbrev pub plain_request : Request
plain_request = record {
  method = 0;
  sin_addr = 0;
  headers_in = λ name. none;
  path = b'/' ∷ image_key;
  query = none;
  buffer_in = [];
  drains = true;
}

pub md5_image : md5_text image ≡ image_key
unfolding md5_text md5sum md5_finish md5_append append_at append_blocks add_count full_blocks
    md5_process initial md5_init
md5_image = refl

save_img-Addressed_example :
    let r = save_img thread empty_world image in
    (r.1 ≡ md5_text image)
    × ((j : Bytes) → j ≢ r.1 → r.0.0.0 j ≡ none)
    × Addressed db_view r.0.0
    × (r.0.1 ≡ true → r.0.0.0 r.1 ≢ none)
save_img-Addressed_example =
    save_img-Addressed thread db_view empty_world image refl calls_of-IsStore_example
      (λ k v key e. cc)

some_found :
    (w : World) (key : Bytes)
    → w.0 key ≢ none
    → value_of (found (w.0 key)).0 (found (w.0 key)).1 ≢ none
some_found w key here gone = here (none_found (w.0 key) gone)
  where
    none_found : (o : Option Bytes) → value_of (found o).0 (found o).1 ≡ none → o ≡ none
    none_found none e = refl
    none_found (some v) e = cc

thread-Backed : Backed thread db_view cache_view
unfolding exist_db exist_beansdb get_img_db get_img_beansdb save_img_db save_img_beansdb
    find_cache_bin set_cache_bin
thread-Backed = record {
  db = calls_of-IsStore_example;
  cache = cache_client-IsCache;
  exist_apart = λ w key j. refl;
  get_apart = λ w key j. refl;
  save_apart = λ w key v j. refl;
  find_apart = λ w key j. refl;
  set_apart = λ w key v j. refl;
  steady = some_found;
}

one_image-InOrder : InOrder db_view cache_view one_image
one_image-InOrder = record { db = addressed; cache = λ k v key e. cc }
  where
    addressed : Addressed db_view one_image
    addressed k v key e = elim (Bool-cases (eqb k image_key)) [
      | inl same ↦
          let value : some image ≡ some v = rw same at e in
          let v_eq : image ≡ v = cc in rw (sym v_eq) (md5_image ∙ sym (eqb_eq k image_key same))
      | inr other ↦ let bad : none ≡ some v = rw other at e in cc
    ]

-- The request of a client that gives no parameters, and the one for the original.
abbrev sized_req : ZimgReq
sized_req = asked conf image_key none

abbrev pub original_req : ZimgReq
original_req = record {
  md5 = image_key;
  file_type = none;
  width = pos 0;
  height = pos 0;
  proportion = pos 0;
  gray = pos 0;
  x = negsuc 0;
  y = negsuc 0;
  rotate = pos 0;
  quality = pos 75;
  fmt = codes "jpeg";
  sv = 0;
}

get_img_mode_db-InOrder_example :
    InOrder db_view cache_view
      (get_img_mode_db thread magick one_image sized_req plain_request nothing_sent).0
unfolding asked default_req with_quality
get_img_mode_db-InOrder_example =
    get_img_mode_db-InOrder thread magick db_view cache_view thread-Backed one_image sized_req
      plain_request nothing_sent refl one_image-InOrder

get_img_mode_db-IsOriginal_example :
    let result = get_img_mode_db thread magick one_image original_req plain_request nothing_sent in
    (v : Bytes) × (md5_text v ≡ image_key)
    × (result ≡ with_world result.0 (serve conf plain_request v nothing_sent))
    × IsSent v plain_request nothing_sent (result.1, result.2)
unfolding is_md5 key_prefix exist_db exist_beansdb
get_img_mode_db-IsOriginal_example =
    get_img_mode_db-IsOriginal thread magick db_view cache_view thread-Backed one_image original_req
      plain_request nothing_sent refl refl (record { no_script = refl; plain = refl })
      one_image-InOrder refl

-- Two requests for one image, of which the second has a type.
abbrev scripted_conf : Settings
scripted_conf = record conf { script_on = 1 }

abbrev pub small_req : ZimgReq
small_req = record original_req { width = pos 90; proportion = pos 1 }

abbrev typed_req : ZimgReq
typed_req = record original_req { file_type = some (args_tail (key_args small_req) small_req.fmt) }

-- No colon, by a test.
abbrev colon_free : Bytes → Bool
colon_free [] = true
colon_free (c ∷ s) = not (c == b':') && colon_free s

colon_free_lem : (s : Bytes) → colon_free s ≡ true → All (λ c. (c == b':') ≡ false) s
colon_free_lem [] e = tt
colon_free_lem (c ∷ s) e =
    let rest : colon_free s ≡ true = ground (arith, e) in (ground (arith, e), colon_free_lem s rest)

rsp_cache_key-AsksSame_example : AsksSame small_req (record small_req { sv = 1 })
unfolding int_text digits rsp_cache_key plain_key
rsp_cache_key-AsksSame_example =
    rsp_cache_key-AsksSame conf small_req (record small_req { sv = 1 }) refl small-IsKeyed
      more-IsKeyed refl
  where
    small-IsKeyed : IsKeyed small_req
    small-IsKeyed = record {
      md5_no_colon = colon_free_lem image_key refl;
      ints = omega arith;
      fits = omega arith;
    }

    more-IsKeyed : IsKeyed (record small_req { sv = 1 })
    more-IsKeyed = record {
      md5_no_colon = colon_free_lem image_key refl;
      ints = omega arith;
      fits = omega arith;
    }

rsp_cache_key_clash_example :
    rsp_cache_key scripted_conf typed_req ≡ rsp_cache_key scripted_conf small_req
rsp_cache_key_clash_example =
    rsp_cache_key_clash scripted_conf small_req typed_req refl refl refl refl refl
