-- ===== src/Cache/Contents.antt =====
-- The cache keeps the contract of a cache: a client that is switched on and connected works on the
-- server, and any other client does nothing.
use ximg.Prelude.{Bool, true, false, Option, none, some, if◌then◌else◌, refl, inl}
use ximg.Cache.{Memcached, CacheClient, exist_cache, find_cache_bin, set_cache_bin, del_cache}
use ximg.Db.Contract.{View, Calls, IsMemcached, IsCache}
use ximg.Db.Refines.{value_of-view, is_success-view}

-- The operations of the cache, as those of a store.
abbrev pub cache_calls : {W : Type 0} → CacheClient W → Calls W
cache_calls c = record {
  get_img = find_cache_bin c;
  exist_img = exist_cache c;
  save_img = set_cache_bin c;
  del_img = del_cache c;
}

-- The connection that is used.
abbrev pub live_conn : {W : Type 0} → CacheClient W → Option (Memcached W)
live_conn c = if c.cache_on then c.cache_conn else none

module _ {W : Type 0} (view : View W) where
  abbrev pub CacheOk : Option (Memcached W) → Type 0
  CacheOk none = Unit {0}
  CacheOk (some memc) = IsMemcached memc view

  abbrev idle_calls : Calls W
  idle_calls = record {
    get_img = λ w key. (w, none);
    exist_img = λ w key. (w, false);
    save_img = λ w key v. (w, false);
    del_img = λ w key. (w, false);
  }

  idle_calls-IsCache : IsCache idle_calls view
  idle_calls-IsCache = record {
    get_kept = λ w key j. refl;
    get_value = λ w key v e. cc;
    exist_kept = λ w key j. refl;
    exist_found = λ w key e. cc;
    save_kept = λ w key v j ne. refl;
    save_whole = λ w key v. inl refl;
    del_kept = λ w key j ne. refl;
  }

  -- A client whose server keeps its data keeps the contract of a cache, and so does one that is switched
  -- off or not connected: what it finds is in the view, other keys keep their values, and a write is done
  -- whole or not at all.
  pub cache_calls-IsCache :
      (on : Bool) (conn : Option (Memcached W))
      → let c : CacheClient W = record { cache_on = on; cache_conn = conn } in
        CacheOk (live_conn c) → IsCache (cache_calls c) view
  unfolding find_cache_bin exist_cache set_cache_bin del_cache
  cache_calls-IsCache true none ok = idle_calls-IsCache
  cache_calls-IsCache true (some memc) ok = record {
    get_kept = ok.get_kept;
    get_value = λ w key v e. value_of-view memc view ok w key v e;
    exist_kept = ok.get_kept;
    exist_found = λ w key e. is_success-view memc view ok w key e;
    save_kept = ok.set_kept;
    save_whole = ok.set_whole;
    del_kept = ok.delete_kept;
  }
  cache_calls-IsCache false conn ok = idle_calls-IsCache
