-- ===== src/Images/RoundTrip.antt =====
-- Images on the disk with no cache: `save_img` and then `get_img`.
use ximg.Prelude.{
  ℕ, Bool, true, false, if◌then◌else◌, ap, ◌∷◌, Bytes, none, some, ◌==◌, ◌≡◌, refl, sym, subst, ◌∙◌,
  arith, inl, inr, Bool-cases, Option-cases,
}
use ximg.Prelude.Int.{ℤ}
use ximg.Cache.{find_cache_bin, set_cache_bin}
use ximg.Http.{md5_text, Request, Response}
use ximg.Images.{
  Thread, Magick, whole_path, orig_path, new_img, cache_saved, save_orig, save_disk, save_img,
}
use ximg.Images.Disk.{Made, image_name, rsp_path, plain_path, read_img, finish, get_missed, get_img}
use ximg.Images.OnDisk.{DiskView, IsDisk, new_img-written, new_img_dirs, read_img-content}
use ximg.Images.Parts.{serve, serve-IsSent, IsSent, cache_small, is_original}
use ximg.Key.Gen.{rsp_cache_key}
use ximg.Key.Gen.Original.{IsOriginal}
use ximg.Settings.{ZimgReq, Settings}

-- The response's path of a request for the original.
rsp_path-IsOriginal :
    (st : Settings) (z : ZimgReq) → IsOriginal st z → rsp_path st z ≡ orig_path st z.md5
unfolding rsp_path plain_path image_name
rsp_path-IsOriginal st z o =
    let original : is_original z ≡ true = ground (arith, o.plain) in
    elim (Option-cases z.file_type) [
      | inl e ↦
          let same : rsp_path st z ≡ plain_path st z = rw (rsp_path, e) refl in
          same ∙ rw original refl
      | inr (t, e) ↦
          let no_script : (st.script_on == 1) ≡ false = rw e at o.no_script in
          let same : rsp_path st z ≡ plain_path st z = rw (rsp_path, e, no_script) refl in
          same ∙ rw original refl
    ]

module _ {W M : Type 0} (thr : Thread W) (mg : Magick W M) (disk : DiskView W)
    (ok : IsDisk thr.files disk) (no_cache : thr.cache.cache_on ≡ false) where
  cache_saved_lem : (w : W) (md5 buff : Bytes) → cache_saved thr w md5 buff ≡ (w, true)
  unfolding cache_saved set_cache_bin
  cache_saved_lem w md5 buff = rw no_cache (ground arith)

  cache_small_lem : (w : W) (key buff : Bytes) → cache_small thr.cache w key buff ≡ w
  unfolding cache_small set_cache_bin
  cache_small_lem w key buff = rw no_cache (ground arith)

  -- The file and the directory of an image that was saved.
  abbrev IsSaved : W → Bytes → Bytes → Type 0
  IsSaved w md5 img =
      (disk.content w (orig_path thr.settings md5) ≡ some img)
      × (thr.files.is_dir w (whole_path thr.settings md5) ≡ true)

  save_orig-IsSaved :
      (w : W) (md5 img : Bytes)
      → thr.files.is_file w (orig_path thr.settings md5) ≡ false
      → thr.files.is_dir w (whole_path thr.settings md5) ≡ true
      → (save_orig thr w md5 img).1 ≡ true
      → IsSaved (save_orig thr w md5 img).0 md5 img
  unfolding save_orig
  save_orig-IsSaved w md5 img no_file dir done =
      let name = orig_path thr.settings md5 in
      elim (Bool-cases (new_img thr.files w img name).1) [
        | inr e ↦ let bad : false ≡ true = rw (save_orig, no_file, e) at done in cc
        | inl e ↦
            rw (save_orig, no_file, e, cache_saved_lem)
              (
                new_img-written thr.files disk ok w img name e,
                new_img_dirs thr.files disk ok w img name (whole_path thr.settings md5) dir,
              )
      ]

  -- The state once the directory was looked for, and made where it was not there.
  abbrev with_dir : W → Bytes → W
  with_dir w md5 =
      let path = whole_path thr.settings md5 in
      if thr.files.is_dir w path then w else (thr.files.mk_dirs w path).0

  save_disk-IsSaved :
      (w : W) (md5 img : Bytes)
      → thr.files.is_dir (with_dir w md5) (whole_path thr.settings md5) ≡ true
      → thr.files.is_file (with_dir w md5) (orig_path thr.settings md5) ≡ false
      → (save_disk thr w md5 img).1 ≡ true
      → IsSaved (save_disk thr w md5 img).0 md5 img
  unfolding save_disk
  save_disk-IsSaved w md5 img dir no_file done =
      let path = whole_path thr.settings md5 in
      let name = orig_path thr.settings md5 in
      let made = thr.files.mk_dirs w path in
      elim (Bool-cases (thr.files.is_dir w path)) [
        | inl e ↦
            let fresh : thr.files.is_file w name ≡ false = rw e at no_file in
            rw (save_disk, e) (save_orig-IsSaved w md5 img fresh e (rw (save_disk, e) at done))
        | inr e ↦ elim (Bool-cases made.1) [
          | inr e' ↦ let bad : false ≡ true = rw (save_disk, e, e') at done in cc
          | inl e' ↦
              let fresh : thr.files.is_file made.0 name ≡ false = rw e at no_file in
              let here : thr.files.is_dir made.0 path ≡ true = rw e at dir in
              rw (save_disk, e, e')
                (save_orig-IsSaved made.0 md5 img fresh here (rw (save_disk, e, e') at done))
        ]
      ]

  -- The response and the result are those of serving `buff`.
  abbrev IsServed : Bytes → Request → Response → W × Response × ℤ → Type 0
  IsServed buff req r result =
      (result.1 ≡ (serve thr.settings req buff r).0)
      × (result.2 ≡ (serve thr.settings req buff r).1)

  finish-IsServed :
      (z : ZimgReq) (req : Request) (r : Response) (buff : Bytes) (done : W × Made)
      → done.1 ≡ some (false, buff)
      → IsServed buff req r (finish thr z req r done)
  unfolding finish
  finish-IsServed z req r buff (w, none) e = cc
  finish-IsServed z req r buff (w, some (to_save, got)) e =
      let same : got ≡ buff = cc in rw same (refl, refl)

  IsServed-IsSent :
      (buff : Bytes) (req : Request) (r : Response) (result : W × Response × ℤ)
      → IsServed buff req r result
      → IsSent buff req r (result.1, result.2)
  IsServed-IsSent buff req r result (response, code) =
      rw (response, code) (serve-IsSent thr.settings req buff r)

  get_missed-IsServed :
      (w : W) (z : ZimgReq) (req : Request) (r : Response) (c : ℕ) (cs : Bytes)
      → IsOriginal thr.settings z
      → disk.content w (orig_path thr.settings z.md5) ≡ some (c ∷ cs)
      → IsServed (c ∷ cs) req r (get_missed thr mg w z req r)
  unfolding get_missed
  get_missed-IsServed w z req r c cs original content =
      let name = rsp_path thr.settings z in
      let here : disk.content w name ≡ some (c ∷ cs) =
        subst (λ p. disk.content w p ≡ some (c ∷ cs))
          (sym (rsp_path-IsOriginal thr.settings z original)) content in
      let (fd, opened, at_path, still) = ok.open_read_done w name (c ∷ cs) here in
      let read =
        read_img-content thr.files disk ok (thr.files.open_read w name).0 name c cs fd at_path
          still in
      rw (get_missed, opened)
        (finish-IsServed z req r (c ∷ cs) (read_img thr.files (thr.files.open_read w name).0 fd)
          read)

  get_img-IsServed :
      (w : W) (z : ZimgReq) (req : Request) (r : Response) (c : ℕ) (cs : Bytes)
      → IsOriginal thr.settings z
      → IsSaved w z.md5 (c ∷ cs)
      → IsServed (c ∷ cs) req r (get_img thr mg w z req r)
  unfolding get_img
  get_img-IsServed w z req r c cs original (content, dir) =
      let hit = find_cache_bin thr.cache w (rsp_cache_key thr.settings z) in
      let missed : hit.1 ≡ none = unfold find_cache_bin in rw no_cache refl in
      let same : hit.0 ≡ w = unfold find_cache_bin in rw no_cache refl in
      rw (get_img, dir, missed)
        (get_missed-IsServed hit.0 z req r c cs original (
          subst (λ v. disk.content v (orig_path thr.settings z.md5) ≡ some (c ∷ cs)) (sym same)
            content))

  save_img_there :
      (w : W) (img : Bytes) (c : ℕ) (cs : Bytes)
      → (thr.settings.mode == 1) ≡ true
      → IsSaved w (md5_text img) (c ∷ cs)
      → (save_img thr w img).0 ≡ (w, true)
  unfolding save_img save_disk save_orig
  save_img_there w img c cs mode (content, dir) =
      let file = ok.file w (orig_path thr.settings (md5_text img)) (λ e. cc) in
      rw (mode, dir, file) (cache_saved_lem w (md5_text img) img)

  -- On the disk and with no cache, an image that is not empty and not yet there comes back: if `save_img`
  -- reports a success, then every request for the original of the digest of its bytes is answered as
  -- `serve` does with just those bytes: with the result 1 and the bytes at the end of the buffer, or with
  -- the result 2 and the buffer as it was, where `If-None-Match` starts with their digest. The directory
  -- is there once it was looked for and made where it was not, and the file is not.
  pub get_img-save_img :
      (w : W) (c : ℕ) (cs : Bytes) (z : ZimgReq) (req : Request) (r : Response)
      → (thr.settings.mode == 1) ≡ true
      → z.md5 ≡ md5_text (c ∷ cs)
      → IsOriginal thr.settings z
      → thr.files.is_dir (with_dir w z.md5) (whole_path thr.settings z.md5) ≡ true
      → thr.files.is_file (with_dir w z.md5) (orig_path thr.settings z.md5) ≡ false
      → (save_img thr w (c ∷ cs)).0.1 ≡ true
      → (let result = get_img thr mg (save_img thr w (c ∷ cs)).0.0 z req r in
          (result.1 ≡ (serve thr.settings req (c ∷ cs) r).0)
          × (result.2 ≡ (serve thr.settings req (c ∷ cs) r).1)
          × IsSent (c ∷ cs) req r (result.1, result.2))
  unfolding save_img
  get_img-save_img w c cs z req r mode key original dir no_file done =
      let sum = md5_text (c ∷ cs) in
      let saved =
        save_disk-IsSaved w sum (c ∷ cs)
          (subst (λ k. thr.files.is_dir (with_dir w k) (whole_path thr.settings k) ≡ true) key dir)
          (subst (λ k. thr.files.is_file (with_dir w k) (orig_path thr.settings k) ≡ false) key
            no_file)
          (rw mode at done) in
      let after = (save_disk thr w sum (c ∷ cs)).0 in
      let (response, code) =
        get_img-IsServed after z req r c cs original
          (subst (λ k. IsSaved after k (c ∷ cs)) (sym key) saved) in
      rw mode (
        response,
        code,
        IsServed-IsSent (c ∷ cs) req r (get_img thr mg after z req r) (response, code),
      )

  -- An image that is there is not written again, whatever its file holds: for any `c ∷ cs` that the file of
  -- `img` holds, in a directory that is there, `save_img` reports a success and changes nothing, and every
  -- request for the original of that key is then answered with `c ∷ cs` and not with `img`, also where
  -- `c ∷ cs` is the first part of `img` that an earlier write has left.
  pub save_img_unrepaired :
      (w : W) (img : Bytes) (c : ℕ) (cs : Bytes) (z : ZimgReq) (req : Request) (r : Response)
      → (thr.settings.mode == 1) ≡ true
      → z.md5 ≡ md5_text img
      → IsOriginal thr.settings z
      → IsSaved w z.md5 (c ∷ cs)
      → (let result = get_img thr mg (save_img thr w img).0.0 z req r in
          ((save_img thr w img).0 ≡ (w, true)) × IsSent (c ∷ cs) req r (result.1, result.2))
  save_img_unrepaired w img c cs z req r mode key original there =
      let same = save_img_there w img c cs mode (subst (λ k. IsSaved w k (c ∷ cs)) key there) in
      let (sent, code) = get_img-IsServed w z req r c cs original there in
      (
        same,
        subst
            (λ v.
              IsSent (c ∷ cs) req r ((get_img thr mg v z req r).1, (get_img thr mg v z req r).2))
            (ap (λ (p : W × Bool). p.0) (sym same))
            (IsServed-IsSent (c ∷ cs) req r (get_img thr mg w z req r) (sent, code)),
      )
