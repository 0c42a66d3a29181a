-- ===== src/Images/Order.antt =====
-- The database and the cache in order: the steps that `get_img_mode_db` takes keep them so.
use ximg.Prelude.{
  true, Bytes, length, none, some, ltb, ◌≡◌, ◌≢◌, sym, subst, ◌∙◌, inl, inr, Bool-cases,
}
use ximg.Cache.{find_cache_bin, set_cache_bin}
use ximg.Cache.Contents.{cache_calls}
use ximg.Db.{exist_db, get_img_db, save_img_db}
use ximg.Db.Contract.{View, AllKept, IsStore, IsCache, calls_of}
use ximg.Http.{md5_text}
use ximg.Images.{Thread}
use ximg.Images.Parts.{cache_small}
use ximg.Images.Saved.{Addressed, kept-Addressed, write-Addressed}
use ximg.Key.{is_md5}
use ximg.Key.Gen.{rsp_cache_key}
use ximg.Settings.{ZimgReq, cache_max_size}

-- The database and the cache keep the contract of a store, neither changes the other, and the database
-- gives every value that it has.
pub record Backed {W : Type 0} (thr : Thread W) (view cview : View W) : Type 0 where
  pub db : IsStore (calls_of thr.db) view
  pub cache : IsCache (cache_calls thr.cache) cview
  pub exist_apart : (w : W) (key : Bytes) → AllKept cview w (exist_db thr.db w key).0
  pub get_apart : (w : W) (key : Bytes) → AllKept cview w (get_img_db thr.db w key).0
  pub save_apart : (w : W) (key v : Bytes) → AllKept cview w (save_img_db thr.db w key v).0
  pub find_apart : (w : W) (key : Bytes) → AllKept view w (find_cache_bin thr.cache w key).0
  pub set_apart : (w : W) (key v : Bytes) → AllKept view w (set_cache_bin thr.cache w key v).0
  pub steady : (w : W) (key : Bytes) → view w key ≢ none → (get_img_db thr.db w key).1 ≢ none

-- Every key of an image has an image with that digest, in the database and in the cache.
pub record InOrder {W : Type 0} (view cview : View W) (w : W) : Type 0 where
  pub db : Addressed view w
  pub cache : Addressed cview w

module _ {W : Type 0} (thr : Thread W) (view cview : View W) (ok : Backed thr view cview) where
  pub exist-InOrder :
      (w : W) (key : Bytes) → InOrder view cview w → InOrder view cview (exist_db thr.db w key).0
  exist-InOrder w key h = record {
    db = kept-Addressed view w _ (ok.db.exist_kept w key) h.db;
    cache = kept-Addressed cview w _ (ok.exist_apart w key) h.cache;
  }

  pub get-InOrder :
      (w : W) (key : Bytes) → InOrder view cview w → InOrder view cview (get_img_db thr.db w key).0
  get-InOrder w key h = record {
    db = kept-Addressed view w _ (ok.db.get_kept w key) h.db;
    cache = kept-Addressed cview w _ (ok.get_apart w key) h.cache;
  }

  pub find-InOrder :
      (w : W) (key : Bytes)
      → InOrder view cview w
      → InOrder view cview (find_cache_bin thr.cache w key).0
  find-InOrder w key h = record {
    db = kept-Addressed view w _ (ok.find_apart w key) h.db;
    cache = kept-Addressed cview w _ (ok.cache.get_kept w key) h.cache;
  }

  pub cache_small-InOrder :
      (w : W) (key buff : Bytes)
      → (is_md5 key ≡ true → md5_text buff ≡ key)
      → InOrder view cview w
      → InOrder view cview (cache_small thr.cache w key buff)
  unfolding cache_small
  cache_small-InOrder w key buff fits h = elim (Bool-cases (ltb (length buff) cache_max_size)) [
    | inr large ↦ rw large h
    | inl small ↦ rw small (record {
      db = kept-Addressed view w _ (ok.set_apart w key buff) h.db;
      cache =
          write-Addressed cview w _ key buff (ok.cache.save_kept w key buff)
            (ok.cache.save_whole w key buff) fits h.cache;
    })
  ]

  pub save-InOrder :
      (w : W) (key buff : Bytes)
      → (is_md5 key ≡ true → md5_text buff ≡ key)
      → InOrder view cview w
      → InOrder view cview (save_img_db thr.db w key buff).0
  save-InOrder w key buff fits h = record {
    db =
        write-Addressed view w _ key buff (ok.db.save_kept w key buff) (ok.db.save_whole w key buff)
          fits h.db;
    cache = kept-Addressed cview w _ (ok.save_apart w key buff) h.cache;
  }

  -- A value that was found in the cache or in the database stands for its key.
  pub found_in_cache :
      (w : W) (key v : Bytes)
      → InOrder view cview w
      → (find_cache_bin thr.cache w key).1 ≡ some v
      → is_md5 key ≡ true
      → md5_text v ≡ key
  found_in_cache w key v h e is_key = h.cache key v is_key (ok.cache.get_value w key v e)

  pub found_in_db :
      (w : W) (key v : Bytes)
      → InOrder view cview w
      → (get_img_db thr.db w key).1 ≡ some v
      → is_md5 key ≡ true
      → md5_text v ≡ key
  found_in_db w key v h e is_key = h.db key v is_key (ok.db.get_value w key v e)

  pub found_where :
      (w : W) (z : ZimgReq)
      → rsp_cache_key thr.settings z ≡ z.md5
      → (exist_db thr.db w z.md5).1 ≡ true
      → (let key = rsp_cache_key thr.settings z in
          let hit = find_cache_bin thr.cache (exist_db thr.db w z.md5).0 key in
          (get_img_db thr.db hit.0 key).1 ≢ none)
  found_where w z same e absent =
      let key = rsp_cache_key thr.settings z in
      let found = exist_db thr.db w z.md5 in
      let hit = find_cache_bin thr.cache found.0 key in
      let kept : view hit.0 key ≡ view w key =
        ok.find_apart found.0 key key ∙ ok.db.exist_kept w z.md5 key in
      ok.steady hit.0 key
        (λ gone. ok.db.exist_found w z.md5 e (subst (λ k. view w k ≡ none) same (sym kept ∙ gone)))
        absent
