-- ===== src/Db/Refines.antt =====
-- Both databases implement the contract of a store, through the choice by `settings.mode`.
use ximg.Prelude.{
  true, false, [], Bytes, Option, none, some, ◌==◌, ◌≡◌, ◌≢◌, ◌⊎◌, refl, sym, ap, ◌∙◌, inl, inr,
  subst, Option-cases, ==_iff,
}
use ximg.Cache.{
  Memcached, MemcachedReturn, success, notfound, connection_failure, other, is_success, value_of,
}
use ximg.Db.{
  RedisReply, reply_string, reply_status, reply_integer, reply_nil, reply_other, string_of, is_ok,
  is_one, Redis, DbClient, get_img_beansdb, get_img_ssdb, save_img_beansdb, save_img_ssdb,
  exist_beansdb, exist_ssdb, del_beansdb, del_ssdb, get_img_db, save_img_db, exist_db, del_db,
}
use ximg.Db.Contract.{View, IsMemcached, IsReplied, IsRedis, Calls, IsStore, calls_of}

-- A connection that is open leads to a server that keeps its data.
abbrev pub BeansdbOk : {W : Type 0} → Option (Memcached W) → View W → Type 0
BeansdbOk none view = Unit {0}
BeansdbOk (some memc) view = IsMemcached memc view × IsReplied memc view

abbrev pub SsdbOk : {W : Type 0} → Option (Redis W) → View W → Type 0
SsdbOk none view = Unit {0}
SsdbOk (some c) view = IsRedis c view

-- The database that the mode chooses keeps its data; with another mode there is none.
pub data IsBacked {W : Type 0} (db : DbClient W) (view : View W) : Type 0 where
  by_beansdb : (db.mode == 2) ≡ true → BeansdbOk db.beansdb_conn view → IsBacked db view
  by_ssdb :
      (db.mode == 2) ≡ false → (db.mode == 3) ≡ true → SsdbOk db.ssdb_conn view → IsBacked db view
  by_none : (db.mode == 2) ≡ false → (db.mode == 3) ≡ false → IsBacked db view

-- What the program's tests of the replies find.
pub is_success_inv : (rc : MemcachedReturn) → is_success rc ≡ true → rc ≡ success
is_success_inv success e = refl
is_success_inv notfound e = cc
is_success_inv connection_failure e = cc
is_success_inv other e = cc

pub value_of_inv :
    (rc : MemcachedReturn) (o : Option Bytes) (v : Bytes)
    → value_of rc o ≡ some v
    → (rc ≡ success) × ((o ≡ some v) ⊎ ((o ≡ none) × (v ≡ [])))
value_of_inv success none v e = (refl, inr (refl, cc))
value_of_inv success (some u) v e = (refl, inl e)
value_of_inv notfound o v e = cc
value_of_inv connection_failure o v e = cc
value_of_inv other o v e = cc

string_of_inv :
    (o : Option RedisReply) (v : Bytes) → string_of o ≡ some v → o ≡ some (reply_string v)
string_of_inv none v e = cc
string_of_inv (some (reply_string s)) v e =
    let same : s ≡ v = cc in ap (λ t. some (reply_string t)) same
string_of_inv (some (reply_status s)) v e = cc
string_of_inv (some (reply_integer n)) v e = cc
string_of_inv (some reply_nil) v e = cc
string_of_inv (some reply_other) v e = cc

is_ok_inv : (o : Option RedisReply) → is_ok o ≡ true → (s : Bytes) × (o ≡ some (reply_status s))
is_ok_inv none e = cc
is_ok_inv (some (reply_string s)) e = cc
is_ok_inv (some (reply_status s)) e = (s, refl)
is_ok_inv (some (reply_integer n)) e = cc
is_ok_inv (some reply_nil) e = cc
is_ok_inv (some reply_other) e = cc

is_one_inv : (reply : RedisReply) → is_one reply ≡ true → reply ≡ reply_integer 1
is_one_inv (reply_string s) e = cc
is_one_inv (reply_status s) e = cc
is_one_inv (reply_integer n) e = ap reply_integer ((==_iff n 1).0 e)
is_one_inv reply_nil e = cc
is_one_inv reply_other e = cc

module _ {W : Type 0} (memc : Memcached W) (view : View W) (ok : IsMemcached memc view) where
  pub value_of-view :
      (w : W) (key v : Bytes)
      → value_of (memc.memcached_get w key).1 (memc.memcached_get w key).2 ≡ some v
      → view w key ≡ some v
  value_of-view w key v e =
      let (done, got) =
        value_of_inv (memc.memcached_get w key).1 (memc.memcached_get w key).2 v e in
      elim got [
        | inl whole ↦ ok.get_value w key v done whole
        | inr (no_value, empty) ↦ ok.get_empty w key done no_value ∙ ap some (sym empty)
      ]

  pub is_success-view :
      (w : W) (key : Bytes) → is_success (memc.memcached_get w key).1 ≡ true → view w key ≢ none
  is_success-view w key e =
      let done = is_success_inv (memc.memcached_get w key).1 e in
      elim (Option-cases (memc.memcached_get w key).2) [
        | inl no_value ↦ let here = ok.get_empty w key done no_value in λ absent. cc
        | inr (v, whole) ↦ let here = ok.get_value w key v done whole in λ absent. cc
      ]

module _ {W : Type 0} (view : View W) where
  -- No connection: nothing is done.
  abbrev pub idle : Calls W
  idle = record {
    get_img = λ w key. (w, none);
    exist_img = λ w key. (w, false);
    save_img = λ w key v. (w, false);
    del_img = λ w key. (w, false);
  }

  pub idle-IsStore : IsStore idle view
  idle-IsStore = record {
    get_kept = λ w key j. refl;
    get_value = λ w key v e. cc;
    exist_kept = λ w key j. refl;
    exist_found = λ w key e. cc;
    save_kept = λ w key v j ne. refl;
    save_whole = λ w key v. inl refl;
    save_done = λ w key v e. cc;
    del_kept = λ w key j ne. refl;
    del_done = λ w key e. cc;
  }

  abbrev pub beansdb : Option (Memcached W) → Calls W
  beansdb conn = record {
    get_img = get_img_beansdb conn;
    exist_img = exist_beansdb conn;
    save_img = save_img_beansdb conn;
    del_img = del_beansdb conn;
  }

  abbrev ssdb : Option (Redis W) → Calls W
  ssdb conn = record {
    get_img = get_img_ssdb conn;
    exist_img = exist_ssdb conn;
    save_img = save_img_ssdb conn;
    del_img = del_ssdb conn;
  }

  pub beansdb-IsStore :
      (conn : Option (Memcached W)) → BeansdbOk conn view → IsStore (beansdb conn) view
  unfolding get_img_beansdb exist_beansdb save_img_beansdb del_beansdb
  beansdb-IsStore none ok = idle-IsStore
  beansdb-IsStore (some memc) (ok, replied) = record {
    get_kept = ok.get_kept;
    get_value = λ w key v e. value_of-view memc view ok w key v e;
    exist_kept = ok.get_kept;
    exist_found = λ w key e. is_success-view memc view ok w key e;
    save_kept = ok.set_kept;
    save_whole = ok.set_whole;
    save_done =
        λ w key v e. replied.set_done w key v (is_success_inv (memc.memcached_set w key v).1 e);
    del_kept = ok.delete_kept;
    del_done =
        λ w key e. replied.delete_done w key (is_success_inv (memc.memcached_delete w key).1 e);
  }

  ssdb-IsStore : (conn : Option (Redis W)) → SsdbOk conn view → IsStore (ssdb conn) view
  unfolding get_img_ssdb exist_ssdb save_img_ssdb del_ssdb
  ssdb-IsStore none ok = idle-IsStore
  ssdb-IsStore (some c) ok = record {
    get_kept = ok.get_kept;
    get_value = λ w key v e. ok.get_value w key v (string_of_inv (c.get w key).1 v e);
    exist_kept = ok.exists_kept;
    exist_found = λ w key e. ok.exists_one w key (is_one_inv (c.exists w key).1 e);
    save_kept = ok.set_kept;
    save_whole = ok.set_whole;
    save_done = λ w key v e.
        let (s, status) = is_ok_inv (c.set_value w key v).1 e in ok.set_done w key v s status;
    del_kept = ok.del_kept;
    del_done = λ w key e. ok.del_done w key (is_one_inv (c.del w key).1 e);
  }

-- The client's four operations are those of the database that the mode chooses.
module _ {W : Type 0} (db : DbClient W) (view : View W) where
  calls_of-beansdb : (db.mode == 2) ≡ true → calls_of db ≡ beansdb view db.beansdb_conn
  unfolding get_img_db exist_db save_img_db del_db
  calls_of-beansdb e =
      let get_img_eq : (w : W) (key : Bytes)
          → get_img_db db w key ≡ get_img_beansdb db.beansdb_conn w key =
        λ w key. rw e refl in
      let exist_img_eq : (w : W) (key : Bytes)
          → exist_db db w key ≡ exist_beansdb db.beansdb_conn w key =
        λ w key. rw e refl in
      let save_img_eq : (w : W) (key v : Bytes)
          → save_img_db db w key v ≡ save_img_beansdb db.beansdb_conn w key v =
        λ w key v. rw e refl in
      let del_img_eq : (w : W) (key : Bytes) → del_db db w key ≡ del_beansdb db.beansdb_conn w key =
        λ w key. rw e refl in
      λ i. record {
        get_img = λ w key. get_img_eq w key i;
        exist_img = λ w key. exist_img_eq w key i;
        save_img = λ w key v. save_img_eq w key v i;
        del_img = λ w key. del_img_eq w key i;
      }

  calls_of-ssdb :
      (db.mode == 2) ≡ false → (db.mode == 3) ≡ true → calls_of db ≡ ssdb view db.ssdb_conn
  unfolding get_img_db exist_db save_img_db del_db
  calls_of-ssdb e e' =
      let get_img_eq : (w : W) (key : Bytes)
          → get_img_db db w key ≡ get_img_ssdb db.ssdb_conn w key =
        λ w key. rw (e, e') refl in
      let exist_img_eq : (w : W) (key : Bytes) → exist_db db w key ≡ exist_ssdb db.ssdb_conn w key =
        λ w key. rw (e, e') refl in
      let save_img_eq : (w : W) (key v : Bytes)
          → save_img_db db w key v ≡ save_img_ssdb db.ssdb_conn w key v =
        λ w key v. rw (e, e') refl in
      let del_img_eq : (w : W) (key : Bytes) → del_db db w key ≡ del_ssdb db.ssdb_conn w key =
        λ w key. rw (e, e') refl in
      λ i. record {
        get_img = λ w key. get_img_eq w key i;
        exist_img = λ w key. exist_img_eq w key i;
        save_img = λ w key v. save_img_eq w key v i;
        del_img = λ w key. del_img_eq w key i;
      }

  calls_of-idle : (db.mode == 2) ≡ false → (db.mode == 3) ≡ false → calls_of db ≡ idle view
  unfolding get_img_db exist_db save_img_db del_db
  calls_of-idle e e' =
      let get_img_eq : (w : W) (key : Bytes) → get_img_db db w key ≡ (w, none) =
        λ w key. rw (e, e') refl in
      let exist_img_eq : (w : W) (key : Bytes) → exist_db db w key ≡ (w, false) =
        λ w key. rw (e, e') refl in
      let save_img_eq : (w : W) (key v : Bytes) → save_img_db db w key v ≡ (w, false) =
        λ w key v. rw (e, e') refl in
      let del_img_eq : (w : W) (key : Bytes) → del_db db w key ≡ (w, false) =
        λ w key. rw (e, e') refl in
      λ i. record {
        get_img = λ w key. get_img_eq w key i;
        exist_img = λ w key. exist_img_eq w key i;
        save_img = λ w key v. save_img_eq w key v i;
        del_img = λ w key. del_img_eq w key i;
      }

-- Whichever database the mode chooses, if it keeps its data, and never gives a NULL reply to EXISTS or DEL,
-- then the four operations of the client are
-- those of a store: what they find is in the store, what they report as saved or deleted is so, and
-- other keys keep their values. With any other mode, or with no connection, they do nothing.
pub calls_of-IsStore :
    {W : Type 0} (db : DbClient W) (view : View W) → IsBacked db view → IsStore (calls_of db) view
calls_of-IsStore db view (by_beansdb e ok) =
    subst (λ c. IsStore c view) (sym (calls_of-beansdb db view e))
      (beansdb-IsStore view db.beansdb_conn ok)
calls_of-IsStore db view (by_ssdb e e' ok) =
    subst (λ c. IsStore c view) (sym (calls_of-ssdb db view e e'))
      (ssdb-IsStore view db.ssdb_conn ok)
calls_of-IsStore db view (by_none e e') =
    subst (λ c. IsStore c view) (sym (calls_of-idle db view e e')) (idle-IsStore view)
