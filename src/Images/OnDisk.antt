-- ===== src/Images/OnDisk.antt =====
-- The files of the disk: an image that `save_img` writes is the one that `get_img` serves.
use ximg.Prelude.{
  ℕ, true, false, [], ◌∷◌, Bytes, length, take, Option, none, some, ltb, ◌≡◌, ◌≢◌, ap, ◌∙◌, arith,
  inl, inr, Bool-cases, Option-cases, take_all,
}
use ximg.Images.{Files, write_locked, new_img}
use ximg.Images.Disk.{read_img}

-- The contents of the files, and the paths of the open descriptors.
pub record DiskView (W : Type 0) : Type 0 where
  pub content : W → Bytes → Option Bytes
  pub path_of : W → ℕ → Option Bytes

-- A call that leaves the contents, the directories and the open descriptors as they are.
pub record IsQuiet {W : Type 0} (files : Files W) (disk : DiskView W) (w w' : W) : Type 0 where
  pub contents : (p : Bytes) → disk.content w' p ≡ disk.content w p
  pub dirs : (p : Bytes) → files.is_dir w p ≡ true → files.is_dir w' p ≡ true
  pub paths : (fd : ℕ) → disk.path_of w' fd ≡ disk.path_of w fd

-- What the code relies on of the system's calls on files. A file that is opened to be written is emptied,
-- and a file that is there can be opened and is read whole.
pub record IsDisk {W : Type 0} (files : Files W) (disk : DiskView W) : Type 0 where
  pub file : (w : W) (p : Bytes) → disk.content w p ≢ none → files.is_file w p ≡ true
  pub open_write_path :
      (w : W) (p : Bytes) (fd : ℕ)
      → (files.open_write w p).1 ≡ some fd
      → disk.path_of (files.open_write w p).0 fd ≡ some p
  pub open_write_empty :
      (w : W) (p : Bytes) (fd : ℕ)
      → (files.open_write w p).1 ≡ some fd
      → disk.content (files.open_write w p).0 p ≡ some []
  pub open_write_dirs :
      (w : W) (p d : Bytes)
      → files.is_dir w d ≡ true
      → files.is_dir (files.open_write w p).0 d ≡ true
  pub flock_ex_quiet : (w : W) (fd : ℕ) → IsQuiet files disk w (files.flock_ex w fd).0
  pub flock_un_quiet : (w : W) (fd : ℕ) → IsQuiet files disk w (files.flock_un w fd)
  pub write_done :
      (w : W) (p : Bytes) (fd n : ℕ) (buff : Bytes)
      → disk.path_of w fd ≡ some p
      → disk.content w p ≡ some []
      → (files.write w fd buff).1 ≡ some n
      → disk.content (files.write w fd buff).0 p ≡ some (take n buff)
  pub write_dirs :
      (w : W) (fd : ℕ) (buff d : Bytes)
      → files.is_dir w d ≡ true
      → files.is_dir (files.write w fd buff).0 d ≡ true
  pub close_contents :
      (w : W) (fd : ℕ) (p : Bytes) → disk.content (files.close w fd) p ≡ disk.content w p
  pub close_dirs :
      (w : W) (fd : ℕ) (d : Bytes)
      → files.is_dir w d ≡ true
      → files.is_dir (files.close w fd) d ≡ true
  pub open_read_done :
      (w : W) (p c : Bytes)
      → disk.content w p ≡ some c
      → (fd : ℕ) × ((files.open_read w p).1 ≡ some fd)
        × (disk.path_of (files.open_read w p).0 fd ≡ some p)
        × (disk.content (files.open_read w p).0 p ≡ some c)
  pub size :
      (w : W) (p c : Bytes) (fd : ℕ)
      → disk.path_of w fd ≡ some p
      → disk.content w p ≡ some c
      → files.st_size w fd ≡ length c
  pub read_done :
      (w : W) (p c : Bytes) (fd : ℕ)
      → disk.path_of w fd ≡ some p
      → disk.content w p ≡ some c
      → (files.read w fd (length c)).1 ≡ some c

module _ {W : Type 0} (files : Files W) (disk : DiskView W) (ok : IsDisk files disk) where
  write_locked-written :
      (w : W) (fd : ℕ) (buff p : Bytes)
      → disk.path_of w fd ≡ some p
      → disk.content w p ≡ some []
      → (write_locked files w fd buff).1 ≡ true
      → disk.content (write_locked files w fd buff).0 p ≡ some buff
  unfolding write_locked
  write_locked-written w fd buff p at_p empty done =
      let lock = files.flock_ex w fd in
      let quiet = ok.flock_ex_quiet w fd in
      let wlen = files.write lock.0 fd buff in
      elim (Bool-cases lock.1) [
        | inr e ↦ let bad : false ≡ true = rw (write_locked, e) at done in cc
        | inl e ↦ elim (Option-cases wlen.1) [
          | inl e' ↦ let bad : false ≡ true = rw (write_locked, e, e') at done in cc
          | inr (n, e') ↦ elim (Bool-cases (ltb n (length buff))) [
            | inl e'' ↦ let bad : false ≡ true = rw (write_locked, e, e', e'') at done in cc
            | inr e'' ↦
                let whole : take n buff ≡ buff = take_all n buff (ground (arith, e'')) in
                let written =
                  ok.write_done lock.0 p fd n buff (quiet.paths fd ∙ at_p)
                    (quiet.contents p ∙ empty) e' in
                rw (write_locked, e, e', e'')
                  ((ok.flock_un_quiet wlen.0 fd).contents p ∙ written ∙ ap some whole)
          ]
        ]
      ]

  -- What a success of `new_img` says.
  pub new_img-written :
      (w : W) (buff p : Bytes)
      → (new_img files w buff p).1 ≡ true
      → disk.content (new_img files w buff p).0 p ≡ some buff
  unfolding new_img
  new_img-written w buff p done = elim (Option-cases (files.open_write w p).1) [
    | inl e ↦ let bad : false ≡ true = rw (new_img, e) at done in cc
    | inr (fd, e) ↦
        let opened = (files.open_write w p).0 in
        let locked : (write_locked files opened fd buff).1 ≡ true = rw (new_img, e) at done in
        rw (new_img, e)
          (ok.close_contents (write_locked files opened fd buff).0 fd p
            ∙ write_locked-written opened fd buff p (ok.open_write_path w p fd e)
                (ok.open_write_empty w p fd e) locked)
  ]

  write_locked_dirs :
      (w : W) (fd : ℕ) (buff d : Bytes)
      → files.is_dir w d ≡ true
      → files.is_dir (write_locked files w fd buff).0 d ≡ true
  unfolding write_locked
  write_locked_dirs w fd buff d h =
      let lock = files.flock_ex w fd in
      let locked = (ok.flock_ex_quiet w fd).dirs d h in
      let wlen = files.write lock.0 fd buff in
      let written = ok.write_dirs lock.0 fd buff d locked in
      elim (Bool-cases lock.1) [
        | inr e ↦ rw (write_locked, e) locked
        | inl e ↦ elim (Option-cases wlen.1) [
          | inl e' ↦ rw (write_locked, e, e') written
          | inr (n, e') ↦ elim (Bool-cases (ltb n (length buff))) [
            | inl e'' ↦ rw (write_locked, e, e', e'') written
            | inr e'' ↦ rw (write_locked, e, e', e'') ((ok.flock_un_quiet wlen.0 fd).dirs d written)
          ]
        ]
      ]

  pub new_img_dirs :
      (w : W) (buff p d : Bytes)
      → files.is_dir w d ≡ true
      → files.is_dir (new_img files w buff p).0 d ≡ true
  unfolding new_img
  new_img_dirs w buff p d h = elim (Option-cases (files.open_write w p).1) [
    | inl e ↦ rw (new_img, e) (ok.open_write_dirs w p d h)
    | inr (fd, e) ↦
        rw (new_img, e)
          (ok.close_dirs _ fd d
            (write_locked_dirs (files.open_write w p).0 fd buff d (ok.open_write_dirs w p d h)))
  ]

  -- A file that is there is read whole, if it is not empty.
  pub read_img-content :
      (w : W) (p : Bytes) (c : ℕ) (cs : Bytes) (fd : ℕ)
      → disk.path_of w fd ≡ some p
      → disk.content w p ≡ some (c ∷ cs)
      → (read_img files w fd).1 ≡ some (false, c ∷ cs)
  unfolding read_img
  read_img-content w p c cs fd at_p here =
      let size = ok.size w p (c ∷ cs) fd at_p here in
      let got = ok.read_done w p (c ∷ cs) fd at_p here in rw (read_img, size, got) (ground arith)
