-- ===== src/Images/Saved.antt =====
-- `save_img` with a database: an image is kept under the digest of its bytes.
use ximg.Prelude.{
  true, false, Bytes, none, some, ◌==◌, ◌≡◌, ◌≢◌, refl, sym, subst, ◌∙◌, inl, inr, Bool-cases,
  bytes_discrete,
}
use ximg.Db.{exist_db, save_img_db}
use ximg.Db.Contract.{View, OthersKept, AllKept, Whole, IsStore, calls_of}
use ximg.Http.{md5_text}
use ximg.Images.{Thread, save_db, save_img}
use ximg.Key.{is_md5}

-- Under a key that is the text of a digest stands only an image with that digest.
abbrev pub Addressed : {W : Type 0} → View W → W → Type 0
Addressed view w = (k v : Bytes) → is_md5 k ≡ true → view w k ≡ some v → md5_text v ≡ k

module _ {W : Type 0} (view : View W) where
  pub kept-Addressed : (w w' : W) → AllKept view w w' → Addressed view w → Addressed view w'
  kept-Addressed w w' kept h k v key e = h k v key (sym (kept k) ∙ e)

  -- A write of a value that stands for its key, or under a key that is no digest.
  pub write-Addressed :
      (w w' : W) (key buff : Bytes)
      → OthersKept view key w w'
      → Whole view key buff w w'
      → (is_md5 key ≡ true → md5_text buff ≡ key)
      → Addressed view w
      → Addressed view w'
  write-Addressed w w' key buff others whole fits h k v is_key e = elim (bytes_discrete k key) [
    | no ne ↦ h k v is_key (sym (others k ne) ∙ e)
    | yes same ↦ elim whole [
      | inl old ↦ h k v is_key (
          subst (λ j. view w j ≡ some v) (sym same)
            (sym old ∙ subst (λ j. view w' j ≡ some v) same e))
      | inr new ↦
          let value : some buff ≡ some v = sym new ∙ subst (λ j. view w' j ≡ some v) same e in
          let eq : buff ≡ v = cc in
          subst (λ x. md5_text x ≡ k) eq
            (fits (subst (λ j. is_md5 j ≡ true) same is_key) ∙ sym same)
    ]
  ]

-- With a database that keeps its data, `save_img` leaves the digest of the bytes as the key, changes no
-- other key, keeps every image under its digest, and where it reports a success the database has an
-- image under the key. If the key is that of a digest, the image has it.
pub save_img-Addressed :
    {W : Type 0} (thr : Thread W) (view : View W) (w : W) (buff : Bytes)
    → (thr.settings.mode == 1) ≡ false
    → IsStore (calls_of thr.db) view
    → Addressed view w
    → (let r = save_img thr w buff in
        (r.1 ≡ md5_text buff)
        × OthersKept view r.1 w r.0.0
        × Addressed view r.0.0
        × (r.0.1 ≡ true → view r.0.0 r.1 ≢ none))
unfolding save_img save_db
save_img-Addressed thr view w buff mode ok h =
    let sum = md5_text buff in
    let found = exist_db thr.db w sum in
    let kept = ok.exist_kept w sum in
    let before = kept-Addressed view w found.0 kept h in
    elim (Bool-cases found.1) [
      | inl e ↦
          rw (mode, e)
            (
              refl,
              λ j ne. kept j,
              before,
              λ done absent. ok.exist_found w sum e (sym (kept sum) ∙ absent),
            )
      | inr e ↦
          rw (mode, e)
            (
              refl,
              λ j ne. ok.save_kept found.0 sum buff j ne ∙ kept j,
              write-Addressed view found.0 (save_img_db thr.db found.0 sum buff).0 sum buff
                  (ok.save_kept found.0 sum buff) (ok.save_whole found.0 sum buff) (λ key. refl)
                  before,
              λ done absent. let v = ok.save_done found.0 sum buff done in cc,
            )
    ]
