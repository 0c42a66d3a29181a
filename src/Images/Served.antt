-- ===== src/Images/Served.antt =====
-- `get_img_mode_db`: what it answers for an original image, and that it keeps the database and the
-- cache in order.
use ximg.Prelude.{
  ◌&&◌, Bool, true, false, Bytes, length, ◌≡◌, refl, ap, ◌∙◌, inl, inr, Bool-cases, Option-cases,
}
use ximg.Prelude.Int.{pos, ◌==ℤ◌}
use ximg.Cache.{find_cache_bin}
use ximg.Db.{exist_db, get_img_db}
use ximg.Db.Contract.{View}
use ximg.Http.{md5_text, Request, Response}
use ximg.Images.{Thread, Magick}
use ximg.Images.Database.{
  Made, refused, made, find_orig, make_img, save_made, finish, get_img_mode_db,
}
use ximg.Images.Order.{
  Backed, InOrder, exist-InOrder, get-InOrder, find-InOrder, cache_small-InOrder, save-InOrder,
  found_in_cache, found_in_db, found_where,
}
use ximg.Images.Parts.{serve, serve-IsSent, IsSent, with_world, wants_save}
use ximg.Key.{is_md5}
use ximg.Key.Gen.{rsp_cache_key}
use ximg.Key.Gen.Original.{IsOriginal, rsp_cache_key-cases, rsp_cache_key-IsOriginal}
use ximg.Settings.{ZimgReq}

module _ {W M : Type 0} (thr : Thread W) (mg : Magick W M) (view cview : View W)
    (ok : Backed thr view cview) where
  find_orig-InOrder :
      (w : W) (md5 : Bytes) → InOrder view cview w → InOrder view cview (find_orig thr w md5).0
  unfolding find_orig
  find_orig-InOrder w md5 h =
      let hit = find_cache_bin thr.cache w md5 in
      let got = get_img_db thr.db hit.0 md5 in
      let after = find-InOrder thr view cview ok w md5 h in
      let later = get-InOrder thr view cview ok hit.0 md5 after in
      elim (Option-cases hit.1) [
        | inr (buff, e) ↦ rw (find_orig, e) after
        | inl e ↦ elim (Option-cases got.1) [
          | inl e' ↦ rw (find_orig, e, e') later
          | inr (buff, e') ↦
              rw (find_orig, e, e')
                (cache_small-InOrder thr view cview ok got.0 md5 buff
                  (found_in_db thr view cview ok hit.0 md5 buff after e') later)
        ]
      ]

  make_img-InOrder :
      (w : W) (z : ZimgReq) → InOrder view cview w → InOrder view cview (make_img thr mg w z).0
  unfolding make_img
  make_img-InOrder w z h = elim (Option-cases (mg.new_magick_wand w)) [
    | inl e ↦ rw (make_img, e) h
    | inr (im, e) ↦ rw (make_img, e) (find_orig-InOrder w z.md5 h)
  ]

  save_made-InOrder :
      (w : W) (z : ZimgReq) (to_save : Bool) (buff : Bytes)
      → is_md5 (rsp_cache_key thr.settings z) ≡ false
      → InOrder view cview w
      → InOrder view cview (save_made thr w z to_save buff)
  unfolding save_made
  save_made-InOrder w z to_save buff no_key h =
      elim (Bool-cases (to_save && wants_save thr.settings z)) [
        | inr e ↦ rw (save_made, e) h
        | inl e ↦ rw (save_made, e) (save-InOrder thr view cview ok w _ buff (λ key. cc) h)
      ]

  finish-InOrder :
      (z : ZimgReq) (req : Request) (r : Response) (w : W) (m : Made)
      → is_md5 (rsp_cache_key thr.settings z) ≡ false
      → InOrder view cview w
      → InOrder view cview (finish thr z req r (w, m)).0
  unfolding finish
  finish-InOrder z req r w (refused n) no_key h = h
  finish-InOrder z req r w (made to_save buff) no_key h =
      let cached =
        cache_small-InOrder thr view cview ok w (rsp_cache_key thr.settings z) buff (λ key. cc) h in
      elim (Bool-cases ((serve thr.settings req buff r).1 ==ℤ pos 2)) [
        | inl e ↦ rw (finish, e) cached
        | inr e ↦ rw (finish, e) (save_made-InOrder _ z to_save buff no_key cached)
      ]

  -- With a database and a cache that keep their data and a database that gives every value it has, the
  -- answer to any request for an image leaves both in order: under a key of an image stands only an
  -- image with that digest, whatever the conversion makes and wherever it fails.
  pub get_img_mode_db-InOrder :
      (w : W) (z : ZimgReq) (req : Request) (r : Response)
      → length z.md5 ≡ 32
      → InOrder view cview w
      → InOrder view cview (get_img_mode_db thr mg w z req r).0
  unfolding get_img_mode_db
  get_img_mode_db-InOrder w z req r len h =
      let key = rsp_cache_key thr.settings z in
      let found = exist_db thr.db w z.md5 in
      let hit = find_cache_bin thr.cache found.0 key in
      let got = get_img_db thr.db hit.0 key in
      let first = exist-InOrder thr view cview ok w z.md5 h in
      let second = find-InOrder thr view cview ok found.0 key first in
      let third = get-InOrder thr view cview ok hit.0 key second in
      elim (Bool-cases found.1) [
        | inr e ↦ rw (get_img_mode_db, e) first
        | inl e ↦ elim (Option-cases hit.1) [
          | inr (buff, e') ↦ rw (get_img_mode_db, e, e') second
          | inl e' ↦ elim (Option-cases got.1) [
            | inr (buff, e'') ↦
                rw (get_img_mode_db, e, e', e'')
                  (cache_small-InOrder thr view cview ok got.0 key buff
                    (found_in_db thr view cview ok hit.0 key buff second e'') third)
            | inl e'' ↦ elim (rsp_cache_key-cases thr.settings z len) [
              | inl (original, same) ↦ absurd (found_where thr view cview ok w z same e e'')
              | inr no_key ↦
                  rw (get_img_mode_db, e, e', e'')
                    (finish-InOrder z req r _ _ no_key (make_img-InOrder got.0 z third))
            ]
          ]
        ]
      ]

  -- Under the same conditions, a request for the original image of a key that the database has is answered
  -- with bytes `v` whose digest is that key, as `serve` does, and never with a conversion: with the result 1
  -- and `v` at the end of the buffer, or with the result 2 and the buffer as it was, where `If-None-Match`
  -- starts with the digest of `v`.
  pub get_img_mode_db-IsOriginal :
      (w : W) (z : ZimgReq) (req : Request) (r : Response)
      → length z.md5 ≡ 32
      → is_md5 z.md5 ≡ true
      → IsOriginal thr.settings z
      → InOrder view cview w
      → (exist_db thr.db w z.md5).1 ≡ true
      → (let result = get_img_mode_db thr mg w z req r in
          (v : Bytes) × (md5_text v ≡ z.md5)
          × (result ≡ with_world result.0 (serve thr.settings req v r))
          × IsSent v req r (result.1, result.2))
  unfolding get_img_mode_db
  get_img_mode_db-IsOriginal w z req r len is_key original h e =
      let key = rsp_cache_key thr.settings z in
      let same = rsp_cache_key-IsOriginal thr.settings z len original in
      let key_ok : is_md5 key ≡ true = ap is_md5 same ∙ is_key in
      let found = exist_db thr.db w z.md5 in
      let hit = find_cache_bin thr.cache found.0 key in
      let got = get_img_db thr.db hit.0 key in
      let first = exist-InOrder thr view cview ok w z.md5 h in
      let second = find-InOrder thr view cview ok found.0 key first in
      elim (Option-cases hit.1) [
        | inr (buff, e') ↦
            rw (get_img_mode_db, e, e')
              (
                buff,
                found_in_cache thr view cview ok found.0 key buff first e' key_ok ∙ same,
                refl,
                serve-IsSent thr.settings req buff r,
              )
        | inl e' ↦ elim (Option-cases got.1) [
          | inl e'' ↦ absurd (found_where thr view cview ok w z same e e'')
          | inr (buff, e'') ↦
              rw (get_img_mode_db, e, e', e'')
                (
                  buff,
                  found_in_db thr view cview ok hit.0 key buff second e'' key_ok ∙ same,
                  refl,
                  serve-IsSent thr.settings req buff r,
                )
        ]
      ]
