-- ===== src/Db.antt =====
-- src/zdb.c: the database clients and the choice between them. `W` is the state of everything outside
-- of the program, and the calls of the two libraries are arguments. A result 1 is `true`, -1 `false`.
pub mod Contract
pub mod Refines
use ximg.Prelude.{
  ℕ, ◌+◌, Bool, true, false, not, ◌&&◌, [], ◌∷◌, Bytes, Option, none, some, leb, ◌==◌,
  if◌then◌else◌, codes,
}
use ximg.Cache.{Memcached, MemcachedReturn, is_success, value_of, answer}

-- The replies of hiredis that the code uses.
pub data RedisReply : Type 0 where
  reply_string reply_status : Bytes → RedisReply
  reply_integer : ℕ → RedisReply
  reply_nil reply_other : RedisReply

-- `redisCommand` on one connection, for each command that the code sends; `none` is NULL. A NULL for
-- EXISTS or DEL is not in the model: there the code gives it to `freeReplyObject`, which follows it.
pub record Redis (W : Type 0) : Type 0 where
  pub get : W → Bytes → W × Option RedisReply
  pub set_value : W → Bytes → Bytes → W × Option RedisReply
  pub exists : W → Bytes → W × RedisReply
  pub del : W → Bytes → W × RedisReply

-- `settings.mode` and the connections of a thread.
pub record DbClient (W : Type 0) : Type 0 where
  pub mode : ℕ
  pub beansdb_conn : Option (Memcached W)
  pub ssdb_conn : Option (Redis W)

unfoldable pub get_img_beansdb : {W : Type 0} → Option (Memcached W) → W → Bytes → W × Option Bytes
get_img_beansdb none w key = (w, none)
get_img_beansdb (some memc) w key = let r = memc.memcached_get w key in (r.0, value_of r.1 r.2)

-- The value in the reply to GET.
abbrev pub string_of : Option RedisReply → Option Bytes
string_of none = none
string_of (some (reply_string s)) = some s
string_of (some (reply_status s)) = none
string_of (some (reply_integer n)) = none
string_of (some reply_nil) = none
string_of (some reply_other) = none

unfoldable pub get_img_ssdb : {W : Type 0} → Option (Redis W) → W → Bytes → W × Option Bytes
get_img_ssdb none w key = (w, none)
get_img_ssdb (some c) w key = let r = c.get w key in (r.0, string_of r.1)

unfoldable pub get_img_db : {W : Type 0} → DbClient W → W → Bytes → W × Option Bytes
get_img_db db w key =
    if db.mode == 2
    then get_img_beansdb db.beansdb_conn w key
    else if db.mode == 3
    then get_img_ssdb db.ssdb_conn w key
    else (w, none)

unfoldable pub save_img_beansdb : {W : Type 0} → Option (Memcached W) → W → Bytes → Bytes → W × Bool
save_img_beansdb none w key value = (w, false)
save_img_beansdb (some memc) w key value = answer (memc.memcached_set w key value)

-- `tolower`
abbrev pub lower : ℕ → ℕ
lower c = if leb b'A' c && leb c b'Z' then c + 32 else c

-- `strcasecmp(s, t) == 0`
unfoldable pub same_letters : Bytes → Bytes → Bool
same_letters [] [] = true
same_letters [] (d ∷ t) = false
same_letters (c ∷ s) [] = false
same_letters (c ∷ s) (d ∷ t) = lower c == lower d && same_letters s t

abbrev pub is_ok : Option RedisReply → Bool
is_ok none = false
is_ok (some (reply_string s)) = false
is_ok (some (reply_status s)) = same_letters s (codes "OK")
is_ok (some (reply_integer n)) = false
is_ok (some reply_nil) = false
is_ok (some reply_other) = false

unfoldable pub save_img_ssdb : {W : Type 0} → Option (Redis W) → W → Bytes → Bytes → W × Bool
save_img_ssdb none w key value = (w, false)
save_img_ssdb (some c) w key value = let r = c.set_value w key value in (r.0, is_ok r.1)

unfoldable pub save_img_db : {W : Type 0} → DbClient W → W → Bytes → Bytes → W × Bool
save_img_db db w key value =
    if db.mode == 2
    then save_img_beansdb db.beansdb_conn w key value
    else if db.mode == 3
    then save_img_ssdb db.ssdb_conn w key value
    else (w, false)

unfoldable pub exist_beansdb : {W : Type 0} → Option (Memcached W) → W → Bytes → W × Bool
exist_beansdb none w key = (w, false)
exist_beansdb (some memc) w key = let r = memc.memcached_get w key in (r.0, is_success r.1)

abbrev pub is_one : RedisReply → Bool
is_one (reply_string s) = false
is_one (reply_status s) = false
is_one (reply_integer n) = n == 1
is_one reply_nil = false
is_one reply_other = false

unfoldable pub exist_ssdb : {W : Type 0} → Option (Redis W) → W → Bytes → W × Bool
exist_ssdb none w key = (w, false)
exist_ssdb (some c) w key = let r = c.exists w key in (r.0, is_one r.1)

unfoldable pub exist_db : {W : Type 0} → DbClient W → W → Bytes → W × Bool
exist_db db w key =
    if db.mode == 2
    then exist_beansdb db.beansdb_conn w key
    else if db.mode == 3
    then exist_ssdb db.ssdb_conn w key
    else (w, false)

unfoldable pub del_beansdb : {W : Type 0} → Option (Memcached W) → W → Bytes → W × Bool
del_beansdb none w key = (w, false)
del_beansdb (some memc) w key = answer (memc.memcached_delete w key)

unfoldable pub del_ssdb : {W : Type 0} → Option (Redis W) → W → Bytes → W × Bool
del_ssdb none w key = (w, false)
del_ssdb (some c) w key = let r = c.del w key in (r.0, is_one r.1)

unfoldable pub del_db : {W : Type 0} → DbClient W → W → Bytes → W × Bool
del_db db w key =
    if db.mode == 2
    then del_beansdb db.beansdb_conn w key
    else if db.mode == 3
    then del_ssdb db.ssdb_conn w key
    else (w, false)
