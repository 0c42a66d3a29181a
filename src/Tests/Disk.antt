-- ===== src/Tests/Disk.antt =====
-- A disk with a map of contents and one descriptor, and the theorems on images on the disk there.
use ximg.Prelude.{
  ℕ, Bool, true, false, [], ◌∷◌, Bytes, Option, none, some, length, take, codes, ◌≡◌, ◌≢◌, refl,
  subst, sym, arith, take_all,
}
use ximg.Cache.{CacheClient, set_cache_bin}
use ximg.Db.{DbClient}
use ximg.Http.{md5_text}
use ximg.Images.{
  Files, Thread, Magick, changed, orig_path, save_img, save_disk, save_orig, new_img, write_locked,
  cache_saved,
}
use ximg.Images.Disk.{get_img}
use ximg.Images.OnDisk.{DiskView, IsQuiet, IsDisk}
use ximg.Images.Parts.{serve, IsSent}
use ximg.Images.RoundTrip.{get_img-save_img, save_img_unrepaired}
use ximg.Settings.{Settings}
use ximg.Tests.Store.{
  Map, put, put_same, conf, image, md5_image, original_req, plain_request, nothing_sent,
}

-- The contents of the files, and the path of the file that was opened last.
abbrev Disk : Type 0
Disk = Map × Option Bytes

abbrev is_there : Option Bytes → Bool
is_there none = false
is_there (some c) = true

abbrev descriptor : Option Bytes → Option ℕ
descriptor none = none
descriptor (some c) = some 3

abbrev length_of : Option Bytes → ℕ
length_of none = 0
length_of (some c) = length c

abbrev size_of : Map → Option Bytes → ℕ
size_of files none = 0
size_of files (some p) = length_of (files p)

abbrev text_of : Map → Option Bytes → Option Bytes
text_of files none = none
text_of files (some p) = files p

abbrev written : Map → Option Bytes → Bytes → Disk × Option ℕ
written files none buff = ((files, none), none)
written files (some p) buff = ((put p (some buff) files, some p), some (length buff))

abbrev files : Files Disk
files = record {
  is_dir = λ w path. true;
  is_file = λ w path. is_there (w.0 path);
  mk_dirs = λ w path. (w, true);
  delete_file = λ w path. ((put path none w.0, w.1), true);
  open_write = λ w path. ((put path (some []) w.0, some path), some 3);
  open_read = λ w path. ((w.0, some path), descriptor (w.0 path));
  flock_ex = λ w fd. (w, true);
  flock_un = λ w fd. w;
  st_size = λ w fd. size_of w.0 w.1;
  write = λ w fd buff. written w.0 w.1 buff;
  read = λ w fd len. (w, text_of w.0 w.1);
  close = λ w fd. w;
}

abbrev view : DiskView Disk
view = record { content = λ w p. w.0 p; path_of = λ w fd. w.1 }

quiet : (w : Disk) → IsQuiet files view w w
quiet w = record { contents = λ p. refl; dirs = λ p h. refl; paths = λ fd. refl }

files-IsDisk : IsDisk files view
files-IsDisk = record {
  file = λ w p here. there (w.0 p) here;
  open_write_path = λ w p fd e. refl;
  open_write_empty = λ w p fd e. put_same p (some []) w.0;
  open_write_dirs = λ w p d h. refl;
  flock_ex_quiet = λ w fd. quiet w;
  flock_un_quiet = λ w fd. quiet w;
  write_done = λ w p fd n buff at_p empty e. whole w.0 w.1 p n buff at_p e;
  write_dirs = λ w fd buff d h. refl;
  close_contents = λ w fd p. refl;
  close_dirs = λ w fd d h. refl;
  open_read_done = λ w p c here. (3, opened (w.0 p) c here, refl, here);
  size = λ w p c fd at_p here. sized w.0 w.1 p c at_p here;
  read_done = λ w p c fd at_p here. text w.0 w.1 p c at_p here;
}
  where
    opened : (o : Option Bytes) (c : Bytes) → o ≡ some c → descriptor o ≡ some 3
    opened o c here = rw here refl

    there : (o : Option Bytes) → o ≢ none → is_there o ≡ true
    there none here = absurd (here refl)
    there (some c) here = refl

    sized :
        (m : Map) (at_path : Option Bytes) (p c : Bytes)
        → at_path ≡ some p
        → m p ≡ some c
        → size_of m at_path ≡ length c
    sized m at_path p c at_p here = rw (at_p, here) refl

    text :
        (m : Map) (at_path : Option Bytes) (p c : Bytes)
        → at_path ≡ some p
        → m p ≡ some c
        → text_of m at_path ≡ some c
    text m at_path p c at_p here = rw at_p here

    whole :
        (m : Map) (at_path : Option Bytes) (p : Bytes) (n : ℕ) (buff : Bytes)
        → at_path ≡ some p
        → (written m at_path buff).1 ≡ some n
        → (written m at_path buff).0.0 p ≡ some (take n buff)
    whole m at_path p n buff at_p e =
        let size : some (length buff) ≡ some n = rw at_p at e in
        let n_eq : n ≡ length buff = cc in
        rw (at_p, n_eq, put_same p (some buff) m, take_all (length buff) buff (omega arith)) refl

abbrev disk_conf : Settings
disk_conf = record conf { mode = 1; cache_on = false }

abbrev no_cache : CacheClient Disk
no_cache = record { cache_on = false; cache_conn = none }

abbrev no_db : DbClient Disk
no_db = record { mode = 1; beansdb_conn = none; ssdb_conn = none }

abbrev disk_thread : Thread Disk
disk_thread = record { settings = disk_conf; cache = no_cache; db = no_db; files = files }

abbrev wand : Magick Disk Bytes
wand = record {
  new_magick_wand = λ w. some [];
  read_image_blob = λ im blob. (blob, true);
  read_image = λ w im path. (im, false);
  get_image_length = λ im. length im;
  reset_iterator = λ im. im;
  get_image_blob = λ im. some im;
  convert = λ st z im. (b'c' ∷ im, changed);
  lua_convert = λ st z im. (b'l' ∷ im, changed);
  info_text = λ im. im;
}

abbrev empty_disk : Disk
empty_disk = (λ p. none, none)

get_img-save_img_example :
    let result =
      get_img disk_thread wand
        (save_img disk_thread empty_disk image).0.0
        original_req
        plain_request
        nothing_sent in
    (result.1 ≡ (serve disk_conf plain_request image nothing_sent).0)
    × (result.2 ≡ (serve disk_conf plain_request image nothing_sent).1)
    × IsSent image plain_request nothing_sent (result.1, result.2)
unfolding save_img save_disk save_orig new_img write_locked cache_saved set_cache_bin
get_img-save_img_example =
    get_img-save_img disk_thread wand view files-IsDisk refl empty_disk 97 (codes "bc") original_req
      plain_request nothing_sent refl (sym md5_image) (record { no_script = refl; plain = refl })
      refl refl refl

-- The file of an image, of which the first byte is there.
abbrev broken_disk : Disk
broken_disk = (put (orig_path disk_conf (md5_text image)) (some (codes "a")) (λ p. none), none)

save_img_unrepaired_example :
    let result =
      get_img disk_thread wand
        (save_img disk_thread broken_disk image).0.0
        original_req
        plain_request
        nothing_sent in
    ((save_img disk_thread broken_disk image).0 ≡ (broken_disk, true))
    × IsSent (codes "a") plain_request nothing_sent (result.1, result.2)
save_img_unrepaired_example =
    save_img_unrepaired disk_thread wand view files-IsDisk refl broken_disk image 97 [] original_req
      plain_request nothing_sent refl (sym md5_image) (record { no_script = refl; plain = refl })
      (broken_file, refl)
  where
    broken_file : view.content broken_disk (orig_path disk_conf original_req.md5) ≡ some (codes "a")
    broken_file =
        subst (λ k. view.content broken_disk (orig_path disk_conf k) ≡ some (codes "a")) md5_image
          (put_same (orig_path disk_conf (md5_text image)) (some (codes "a")) (λ p. none))
