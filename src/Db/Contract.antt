-- ===== src/Db/Contract.antt =====
-- What a store of images promises, and what the servers behind it are taken to do: a view of the
-- outside world as a map from keys to values.
use ximg.Prelude.{[], Bool, true, Bytes, Option, none, some, ◌≡◌, ◌≢◌, ◌⊎◌}
use ximg.Cache.{Memcached, success}
use ximg.Db.{
  reply_string, reply_status, reply_integer, Redis, DbClient, get_img_db, save_img_db, exist_db,
  del_db,
}

abbrev pub View : Type 0 → Type 0
View W = W → Bytes → Option Bytes

-- All keys but one have their old values.
abbrev pub OthersKept : {W : Type 0} → View W → Bytes → W → W → Type 0
OthersKept view key w w' = (j : Bytes) → j ≢ key → view w' j ≡ view w j

abbrev pub AllKept : {W : Type 0} → View W → W → W → Type 0
AllKept view w w' = (j : Bytes) → view w' j ≡ view w j

-- A write is done whole or not at all.
abbrev pub Whole : {W : Type 0} → View W → Bytes → Bytes → W → W → Type 0
Whole view key v w w' = (view w' key ≡ view w key) ⊎ (view w' key ≡ some v)

-- A server of the memcached protocol that keeps what it is given. A value that comes with the code of a
-- success is the one that it has, and no value the empty one. A set may have changed its key or not.
pub record IsMemcached {W : Type 0} (memc : Memcached W) (view : View W) : Type 0 where
  pub get_kept : (w : W) (key : Bytes) → AllKept view w (memc.memcached_get w key).0
  pub get_value :
      (w : W) (key v : Bytes)
      → (memc.memcached_get w key).1 ≡ success
      → (memc.memcached_get w key).2 ≡ some v
      → view w key ≡ some v
  pub get_empty :
      (w : W) (key : Bytes)
      → (memc.memcached_get w key).1 ≡ success
      → (memc.memcached_get w key).2 ≡ none
      → view w key ≡ some []
  pub set_kept : (w : W) (key v : Bytes) → OthersKept view key w (memc.memcached_set w key v).0
  pub set_whole : (w : W) (key v : Bytes) → Whole view key v w (memc.memcached_set w key v).0
  pub delete_kept : (w : W) (key : Bytes) → OthersKept view key w (memc.memcached_delete w key).0

-- The code of a success comes from the server: so it is for beansdb, and not for the connection of the
-- cache, which does not wait for replies.
pub record IsReplied {W : Type 0} (memc : Memcached W) (view : View W) : Type 0 where
  pub set_done :
      (w : W) (key v : Bytes)
      → (memc.memcached_set w key v).1 ≡ success
      → view (memc.memcached_set w key v).0 key ≡ some v
  pub delete_done :
      (w : W) (key : Bytes)
      → (memc.memcached_delete w key).1 ≡ success
      → view (memc.memcached_delete w key).0 key ≡ none

-- A server of the redis protocol, such as ssdb: GET replies with the value as a string, SET with a status
-- where it is done, EXISTS and DEL with the number of keys that were found.
pub record IsRedis {W : Type 0} (c : Redis W) (view : View W) : Type 0 where
  pub get_kept : (w : W) (key : Bytes) → AllKept view w (c.get w key).0
  pub get_value :
      (w : W) (key v : Bytes) → (c.get w key).1 ≡ some (reply_string v) → view w key ≡ some v
  pub exists_kept : (w : W) (key : Bytes) → AllKept view w (c.exists w key).0
  pub exists_one : (w : W) (key : Bytes) → (c.exists w key).1 ≡ reply_integer 1 → view w key ≢ none
  pub set_kept : (w : W) (key v : Bytes) → OthersKept view key w (c.set_value w key v).0
  pub set_whole : (w : W) (key v : Bytes) → Whole view key v w (c.set_value w key v).0
  pub set_done :
      (w : W) (key v s : Bytes)
      → (c.set_value w key v).1 ≡ some (reply_status s)
      → view (c.set_value w key v).0 key ≡ some v
  pub del_kept : (w : W) (key : Bytes) → OthersKept view key w (c.del w key).0
  pub del_done :
      (w : W) (key : Bytes) → (c.del w key).1 ≡ reply_integer 1 → view (c.del w key).0 key ≡ none

-- The four operations of a store as one record.
pub record Calls (W : Type 0) : Type 0 where
  pub get_img : W → Bytes → W × Option Bytes
  pub exist_img : W → Bytes → W × Bool
  pub save_img : W → Bytes → Bytes → W × Bool
  pub del_img : W → Bytes → W × Bool

-- What the rest of the program may take of the four operations, whichever database is behind them.
pub record IsStore {W : Type 0} (c : Calls W) (view : View W) : Type 0 where
  pub get_kept : (w : W) (key : Bytes) → AllKept view w (c.get_img w key).0
  pub get_value : (w : W) (key v : Bytes) → (c.get_img w key).1 ≡ some v → view w key ≡ some v
  pub exist_kept : (w : W) (key : Bytes) → AllKept view w (c.exist_img w key).0
  pub exist_found : (w : W) (key : Bytes) → (c.exist_img w key).1 ≡ true → view w key ≢ none
  pub save_kept : (w : W) (key v : Bytes) → OthersKept view key w (c.save_img w key v).0
  pub save_whole : (w : W) (key v : Bytes) → Whole view key v w (c.save_img w key v).0
  pub save_done :
      (w : W) (key v : Bytes)
      → (c.save_img w key v).1 ≡ true
      → view (c.save_img w key v).0 key ≡ some v
  pub del_kept : (w : W) (key : Bytes) → OthersKept view key w (c.del_img w key).0
  pub del_done :
      (w : W) (key : Bytes) → (c.del_img w key).1 ≡ true → view (c.del_img w key).0 key ≡ none

-- What it may take of a cache: a success of a write says nothing.
pub record IsCache {W : Type 0} (c : Calls W) (view : View W) : Type 0 where
  pub get_kept : (w : W) (key : Bytes) → AllKept view w (c.get_img w key).0
  pub get_value : (w : W) (key v : Bytes) → (c.get_img w key).1 ≡ some v → view w key ≡ some v
  pub exist_kept : (w : W) (key : Bytes) → AllKept view w (c.exist_img w key).0
  pub exist_found : (w : W) (key : Bytes) → (c.exist_img w key).1 ≡ true → view w key ≢ none
  pub save_kept : (w : W) (key v : Bytes) → OthersKept view key w (c.save_img w key v).0
  pub save_whole : (w : W) (key v : Bytes) → Whole view key v w (c.save_img w key v).0
  pub del_kept : (w : W) (key : Bytes) → OthersKept view key w (c.del_img w key).0

-- The operations that a thread's client offers.
abbrev pub calls_of : {W : Type 0} → DbClient W → Calls W
calls_of db = record {
  get_img = get_img_db db;
  exist_img = exist_db db;
  save_img = save_img_db db;
  del_img = del_db db;
}
