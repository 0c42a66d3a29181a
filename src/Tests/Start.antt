-- ===== src/Tests/Start.antt =====
-- The theorems on the start of the server and on its configuration at concrete inputs.
use ximg.Prelude.{true, [], ◌∷◌, List, Bytes, Option, none, some, codes, ◌≡◌, ◌≢◌, refl, arith}
use ximg.Prelude.Int.{pos}
use ximg.Access.{zimg_strlchr}
use ximg.Cache.{Memcached, success, find_cache, set_cache, text_of, value_of}
use ximg.Cache.Text.{find_cache-set_cache}
use ximg.FileSystem.{is_file, is_dir, mk_dirf}
use ximg.Text.{str_lcpy, str_lcat}
use ximg.Http.Headers.{conf_get_headers}
use ximg.Http.Headers.Printed.{IsHeader, conf_get_headers-headers_text}
use ximg.Start.{Lua, settings_init, load_conf}
use ximg.Start.Main.{Machine, main}
use ximg.Start.Ready.{IsMachine, IsReady, main-IsReady}
use ximg.Tests.FileSystem.{Paths, listed, listed-IsMaking, listed_seen, conf_name}
use ximg.Tests.Store.{
  World, cache_server, cache_server-IsMemcached, cache_server-IsReplied, cache_view, empty_world,
  found,
}

abbrev two_headers : List (Bytes × Bytes)
two_headers = (codes "X-Name", codes "zimg:4") ∷ (codes "Cache-Control", codes "max-age=60") ∷ []

conf_get_headers-headers_text_example :
    conf_get_headers (codes "X-Name:zimg:4;Cache-Control:max-age=60") []
    ≡ some ((codes "Cache-Control", codes "max-age=60") ∷ (codes "X-Name", codes "zimg:4") ∷ [])
unfolding zimg_strlchr
conf_get_headers-headers_text_example =
    conf_get_headers-headers_text two_headers (first, (second, tt))
  where
    first : IsHeader (codes "X-Name", codes "zimg:4")
    first = record {
      key_open = refl;
      key_whole = refl;
      value_whole = refl;
      key_fits = omega arith;
      value_fits = omega arith;
    }

    second : IsHeader (codes "Cache-Control", codes "max-age=60")
    second = record {
      key_open = refl;
      key_whole = refl;
      value_whole = refl;
      key_fits = omega arith;
      value_fits = omega arith;
    }

-- A configuration that sets nothing, and a machine where every call is a success.
abbrev empty_lua : Lua
empty_lua = record { number = λ name. none; text = λ name. none }

abbrev silent_server : Memcached Paths
silent_server = record {
  memcached_get = λ w key. (w, success, none);
  memcached_set = λ w key value. (w, success);
  memcached_delete = λ w key. (w, success);
}

abbrev machine : Machine Paths
machine = record {
  sys = listed;
  cores = pos 4;
  project_version = codes "1.0";
  load_file = λ w p. some empty_lua;
  beyond = λ name. [];
  bind_check = λ w port. true;
  daemon = λ w. (w, true);
  log_init = λ w name. w;
  connect = λ server. silent_server;
  redis_connect = λ w ip port. (w, true);
}

machine-IsMachine : IsMachine machine
machine-IsMachine = record {
  making = listed-IsMaking;
  seen = listed_seen;
  daemon_stays = λ w p h. h;
  log_stays = λ w name p h. h;
  set_stays = λ w server key value p h. h;
  redis_stays = λ w ip port p h. h;
}

main-IsReady_example :
    IsReady machine
      (codes "./img" ∷ codes "./log" ∷ codes "." ∷ [])
      (settings_init (pos 4) (codes "1.0"))
unfolding main is_file load_conf settings_init mk_dirf str_lcpy is_dir str_lcat
main-IsReady_example =
    main-IsReady machine machine-IsMachine [] (conf_name ∷ [])
      (codes "./img" ∷ codes "./log" ∷ codes "." ∷ []) (settings_init (pos 4) (codes "1.0")) refl

cache_steady :
    (w : World) (key : Bytes)
    → cache_view w key ≢ none
    → value_of (found (w.1 key)).0 (found (w.1 key)).1 ≢ none
cache_steady w key here gone = here (none_found (w.1 key) gone)
  where
    none_found : (o : Option Bytes) → value_of (found o).0 (found o).1 ≡ none → o ≡ none
    none_found none e = refl
    none_found (some v) e = cc

find_cache-set_cache_example :
    (w' : World) × (find_cache
        (some cache_server)
        (set_cache (some cache_server) empty_world (codes "k") (codes "0123456789")).0
        (codes "k")
      ≡ some (w', some (codes "0123456")))
unfolding text_of set_cache
find_cache-set_cache_example =
    find_cache-set_cache cache_server cache_view cache_server-IsMemcached cache_server-IsReplied
      cache_steady empty_world (codes "k") b'0' (codes "123456789") refl refl
