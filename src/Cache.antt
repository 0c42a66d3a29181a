-- ===== src/Cache.antt =====
-- src/zcache.c: the client of the memcached server. `W` is the state of everything outside of the
-- program; the library's calls are an argument. A result 1 is `true` and -1 is `false`.
pub mod Contents
pub mod Text
use ximg.Text.{str_lcpy}
use ximg.Prelude.{◌∷◌, ◌==◌, Bool, true, false, [], Bytes, Option, none, some, if◌then◌else◌}

-- `memcached_return`; all values that the code only prints are `other`.
pub data MemcachedReturn : Type 0 where
  success notfound connection_failure other : MemcachedReturn

-- The calls of libmemcached on one connection. A value that is not given is NULL.
pub record Memcached (W : Type 0) : Type 0 where
  pub memcached_get : W → Bytes → W × MemcachedReturn × Option Bytes
  pub memcached_set : W → Bytes → Bytes → W × MemcachedReturn
  pub memcached_delete : W → Bytes → W × MemcachedReturn

abbrev pub is_success : MemcachedReturn → Bool
is_success success = true
is_success notfound = false
is_success connection_failure = false
is_success other = false

-- `cache_conn` of a thread with the setting `cache_on`.
pub record CacheClient (W : Type 0) : Type 0 where
  pub cache_on : Bool
  pub cache_conn : Option (Memcached W)

-- The two tests in front of every call, and the call.
abbrev pub with_conn : {W A : Type 0} → CacheClient W → A → (Memcached W → A) → A
with_conn c refused call =
    if c.cache_on then elim c.cache_conn [ none ↦ refused | some memc ↦ call memc ] else refused

abbrev pub answer : {W : Type 0} → W × MemcachedReturn → W × Bool
answer r = (r.0, is_success r.1)

unfoldable pub exist_cache : {W : Type 0} → CacheClient W → W → Bytes → W × Bool
exist_cache c w key =
    with_conn c (w, false) (λ memc. let r = memc.memcached_get w key in (r.0, is_success r.1))

-- The value pointer is set where the call is made, whatever it returns; on a success with no value it
-- is NULL and the length 0, which is the empty value.
abbrev pub value_of : MemcachedReturn → Option Bytes → Option Bytes
value_of success none = some []
value_of success (some value) = some value
value_of notfound value = none
value_of connection_failure value = none
value_of other value = none

unfoldable pub find_cache_bin : {W : Type 0} → CacheClient W → W → Bytes → W × Option Bytes
find_cache_bin c w key =
    with_conn c (w, none) (λ memc. let r = memc.memcached_get w key in (r.0, value_of r.1 r.2))

unfoldable pub set_cache_bin : {W : Type 0} → CacheClient W → W → Bytes → Bytes → W × Bool
set_cache_bin c w key value =
    with_conn c (w, false) (λ memc. answer (memc.memcached_set w key value))

unfoldable pub del_cache : {W : Type 0} → CacheClient W → W → Bytes → W × Bool
del_cache c w key = with_conn c (w, false) (λ memc. answer (memc.memcached_delete w key))

-- The bytes in front of the first NUL.
unfoldable pub text_of : Bytes → Bytes
text_of [] = []
text_of (c ∷ s) = let rest = text_of s in if c == 0 then [] else c ∷ rest

-- The values are C strings here. A success with no value is read at NULL, which is none; `value` is a
-- pointer, so `sizeof(value)` is 8.
unfoldable pub find_cache :
    {W : Type 0} → Option (Memcached W) → W → Bytes → Option (W × Option Bytes)
unfolding text_of
find_cache none w key = some (w, none)
find_cache (some memc) w key =
    let r = memc.memcached_get w key in
    if is_success r.1
    then elim r.2 [ none ↦ none | some pvalue ↦ some (r.0, some (str_lcpy (text_of pvalue) 8)) ]
    else some (r.0, none)

unfoldable pub set_cache : {W : Type 0} → Option (Memcached W) → W → Bytes → Bytes → W × Bool
unfolding text_of
set_cache none w key value = (w, false)
set_cache (some memc) w key value = answer (memc.memcached_set w key (text_of value))
