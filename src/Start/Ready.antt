-- ===== src/Start/Ready.antt =====
-- What holds when `main` gets to the loop of the server.
use ximg.Prelude.{
  Bool, true, false, List, [], ◌∷◌, Bytes, length, Option, none, some, if◌then◌else◌, codes, ◌==◌,
  ==_iff, ◌≡◌, ◌⊎◌, refl, subst, Bool-cases, Option-cases, inl, inr,
}
use ximg.Prelude.Int.{ℤ, pos, ◌==ℤ◌}
use ximg.Cache.{set_cache, text_of}
use ximg.FileSystem.{Kind, is_file, is_dir, same_text, with_slash, mk_dirs, mk_dirf}
use ximg.FileSystem.Levels.{IsLevel, IsMaking, mk_dirs-with_slash}
use ximg.Start.{Setting, settings_init, load_conf}
use ximg.Start.Fits.{IsFitting, IsFitting-flags, settings_init-IsFitting, load_conf-IsFitting}
use ximg.Start.Main.{
  Machine, read_args, test_db, make_img_path, find_script, start_log, start_daemon, start_conf,
  main,
}

-- No call takes a file away: not one of the system, and not one of the libraries.
pub record IsMachine {W : Type 0} (m : Machine W) : Type 0 where
  pub making : IsMaking m.sys
  pub seen : (w : W) (p : Bytes) (k : Kind) → m.sys.stat w p ≡ some k → m.sys.access w p ≡ true
  pub daemon_stays :
      (w : W) (p : Bytes) → m.sys.access w p ≡ true → m.sys.access (m.daemon w).0 p ≡ true
  pub log_stays :
      (w : W) (name p : Bytes) → m.sys.access w p ≡ true → m.sys.access (m.log_init w name) p ≡ true
  pub set_stays :
      (w : W) (server key value p : Bytes)
      → m.sys.access w p ≡ true
      → m.sys.access ((m.connect server).memcached_set w key value).0 p ≡ true
  pub redis_stays :
      (w : W) (ip : Bytes) (port : ℤ) (p : Bytes)
      → m.sys.access w p ≡ true
      → m.sys.access (m.redis_connect w ip port).0 p ≡ true

-- The path of the images is there, or the levels of it that `mk_dirs` walks over.
abbrev pub HasImgPath : {W : Type 0} → Machine W → W → Setting → Type 0
HasImgPath m w st =
    (m.sys.access w st.img_path ≡ true)
    ⊎ ((p : Bytes) → IsLevel (with_slash st.img_path) p → m.sys.access w p ≡ true)

-- No script is named, or it is on and there.
abbrev pub HasScript : {W : Type 0} → Machine W → W → Setting → Type 0
HasScript m w st =
    (length st.script_name ≡ 0) ⊎ ((st.script_on ≡ pos 1) × (m.sys.access w st.script_name ≡ true))

pub record IsReady {W : Type 0} (m : Machine W) (w : W) (st : Setting) : Type 0 where
  pub fitting : IsFitting st
  pub img_path : HasImgPath m w st
  pub script : HasScript m w st

module _ {W : Type 0} (m : Machine W) (ok : IsMachine m) where
  is_file-access : (w : W) (p : Bytes) → is_file m.sys w p ≡ true → m.sys.access w p ≡ true
  unfolding is_file
  is_file-access w p h = elim (Option-cases (m.sys.stat w p)) [
    | inl e ↦ let bad : false ≡ true = rw e at h in cc
    | inr (k, e) ↦ ok.seen w p k e
  ]

  is_dir-access : (w : W) (p : Bytes) → is_dir m.sys w p ≡ true → m.sys.access w p ≡ true
  unfolding is_dir
  is_dir-access w p h = elim (Option-cases (m.sys.stat w p)) [
    | inl e ↦ let bad : false ≡ true = rw e at h in cc
    | inr (k, e) ↦ ok.seen w p k e
  ]

  -- Nothing that is there in `w` is gone in `w'`.
  abbrev Stays : W → W → Type 0
  Stays w w' = (p : Bytes) → m.sys.access w p ≡ true → m.sys.access w' p ≡ true

  IsReady-Stays : (w w' : W) (st : Setting) → Stays w w' → IsReady m w st → IsReady m w' st
  IsReady-Stays w w' st stays ready = record {
    fitting = ready.fitting;
    img_path = elim ready.img_path [
      | inl there ↦ inl (stays st.img_path there)
      | inr levels ↦ inr (λ p level. stays p (levels p level))
    ];
    script = elim ready.script [
      | inl unnamed ↦ inl unnamed
      | inr (on, there) ↦ inr (on, stays st.script_name there)
    ];
  }

  -- A result that has settings is ready with them.
  abbrev Starts : W × Option Setting → Type 0
  Starts r = (st : Setting) → r.1 ≡ some st → IsReady m r.0 st

  none-Starts : (w : W) → Starts (w, none)
  none-Starts w st e = cc

  some-Starts : (w : W) (st : Setting) → IsReady m w st → Starts (w, some st)
  some-Starts w st ready st' e = let same : st ≡ st' = cc in subst (IsReady m w) same ready

  checked-Starts :
      (w : W) (done : Bool) (st : Setting)
      → IsReady m w st
      → Starts (w, if done then some st else none)
  checked-Starts w true st ready = some-Starts w st ready
  checked-Starts w false st ready = none-Starts w

  test_db-Starts : (w : W) (st : Setting) → IsReady m w st → Starts (test_db m w st)
  unfolding test_db set_cache
  test_db-Starts w st ready = elim (Bool-cases (st.mode ==ℤ pos 2)) [
    | inl beansdb ↦ rw beansdb (
        checked-Starts _ _ st (
          IsReady-Stays w _ st
            (λ p. ok.set_stays w _ (text_of (codes "zimg")) (text_of (codes "1")) p) ready))
    | inr other ↦ elim (Bool-cases (st.mode ==ℤ pos 3)) [
      | inl ssdb ↦
          rw (other, ssdb)
            (checked-Starts _ _ st
              (IsReady-Stays w _ st (λ p. ok.redis_stays w st.ssdb_ip st.ssdb_port p) ready))
      | inr disk ↦ rw (other, disk) (some-Starts w st ready)
    ]
  ]

  make_img_path-Starts :
      (w : W) (st : Setting) → IsFitting st → HasScript m w st → Starts (make_img_path m w st)
  unfolding make_img_path
  make_img_path-Starts w st fits script =
      let made = mk_dirs m.sys w st.img_path in
      elim (Bool-cases (is_dir m.sys w st.img_path)) [
        | inl dir ↦ rw dir (
            test_db-Starts w st (record {
              fitting = fits;
              img_path = inl (is_dir-access w st.img_path dir);
              script = script;
            }))
        | inr no_dir ↦ elim (Bool-cases made.1) [
          | inr undone ↦ rw (no_dir, undone) (none-Starts made.0)
          | inl done ↦
              let levels = mk_dirs-with_slash m.sys ok.making w st.img_path done in
              let kept : HasScript m made.0 st = elim script [
                | inl unnamed ↦ inl unnamed
                | inr (on, there) ↦ inr (on, levels.stays st.script_name there)
              ] in
              rw (no_dir, done)
                (test_db-Starts made.0 st
                  (record { fitting = fits; img_path = inr levels.there; script = kept }))
        ]
      ]

  find_script-Starts : (w : W) (st : Setting) → IsFitting st → Starts (find_script m w st)
  unfolding find_script
  find_script-Starts w st fits = elim (Bool-cases (length st.script_name == 0)) [
    | inl unnamed ↦
        rw unnamed
          (make_img_path-Starts w st fits (inl ((==_iff (length st.script_name) 0).0 unnamed)))
    | inr named ↦ elim (Bool-cases (is_file m.sys w st.script_name)) [
      | inr no_file ↦ rw (named, no_file) (none-Starts w)
      | inl file ↦
          let on : Setting = record st { script_on = pos 1 } in
          let on_fits : IsFitting on = IsFitting-flags st st.is_daemon (pos 1) fits in
          rw (named, file)
            (make_img_path-Starts w on on_fits (inr (refl, is_file-access w st.script_name file)))
    ]
  ]

  -- A run that comes to a result starts ready.
  abbrev Runs : Option (W × Option Setting) → Type 0
  Runs o = (r : W × Option Setting) → o ≡ some r → Starts r

  some-Runs : (r : W × Option Setting) → Starts r → Runs (some r)
  some-Runs r starts r' e = let same : r ≡ r' = cc in subst Starts same starts

  none-Runs : Runs none
  none-Runs r e = cc

  logged-Starts :
      (made : W × Bool) (st : Setting)
      → IsFitting st
      → Starts (if made.1 then find_script m (m.log_init made.0 st.log_name) st else (made.0, none))
  logged-Starts (w, true) st fits = find_script-Starts (m.log_init w st.log_name) st fits
  logged-Starts (w, false) st fits = none-Starts w

  start_log-Runs : (w : W) (st : Setting) → IsFitting st → Runs (start_log m w st)
  unfolding start_log
  start_log-Runs w st fits = elim (Option-cases (mk_dirf m.sys w st.log_name)) [
    | inl e ↦ rw (start_log, e) none-Runs
    | inr (made, e) ↦ rw (start_log, e) (some-Runs _ (logged-Starts made st fits))
  ]

  start_daemon-Runs : (w : W) (st : Setting) → IsFitting st → Runs (start_daemon m w st)
  unfolding start_daemon
  start_daemon-Runs w st fits = elim (Bool-cases (m.bind_check w st.port)) [
    | inr busy ↦ rw busy (some-Runs _ (none-Starts w))
    | inl free ↦ elim (Bool-cases (st.is_daemon ==ℤ pos 1)) [
      | inr plain ↦ rw (free, plain) (start_log-Runs w st fits)
      | inl daemon ↦ elim (Bool-cases (m.daemon w).1) [
        | inl forked ↦ rw (free, daemon, forked) (start_log-Runs (m.daemon w).0 st fits)
        | inr failed ↦ rw (free, daemon, failed) (some-Runs _ (none-Starts (m.daemon w).0))
      ]
    ]
  ]

  read_args-IsFitting :
      (args : List Bytes) (st : Setting) (conf_file : Option Bytes)
      → IsFitting st
      → IsFitting (read_args args st conf_file).0
  unfolding read_args
  read_args-IsFitting [] st conf_file fits = fits
  read_args-IsFitting (arg ∷ args) st conf_file fits =
      elim (Bool-cases (same_text arg (codes "-d"))) [
        | inl flag ↦
            rw flag
              (read_args-IsFitting args _ conf_file (IsFitting-flags st (pos 1) st.script_on fits))
        | inr file ↦ rw file (read_args-IsFitting args st (some arg) fits)
      ]

  start_conf-IsReady :
      (w : W) (st : Setting) (conf_file : Bytes) (w' : W) (st' : Setting)
      → IsFitting st
      → start_conf m w st conf_file ≡ some (w', some st')
      → IsReady m w' st'
  unfolding start_conf
  start_conf-IsReady w st conf_file w' st' fits started =
      elim (Bool-cases (is_file m.sys w conf_file)) [
        | inr no_file ↦
            let bad : ◌≡◌ {A = Option (W × Option Setting)} (some (w, none)) (some (w', some st')) =
              rw no_file at started in
            cc
        | inl file ↦ elim (Option-cases (m.load_file w conf_file)) [
          | inl no_lua ↦
              let bad : ◌≡◌ {A = Option (W × Option Setting)} (some (w, none))
                  (some (w', some st')) =
                rw (file, no_lua) at started in
              cc
          | inr (lua, e) ↦ elim (Option-cases (load_conf lua m.beyond st)) [
            | inl no_conf ↦
                let bad : ◌≡◌ {A = Option (W × Option Setting)} none (some (w', some st')) =
                  rw (file, e, no_conf) at started in
                cc
            | inr (loaded, e') ↦
                let ran : start_daemon m w loaded ≡ some (w', some st') =
                  rw (file, e, e') at started in
                start_daemon-Runs w loaded (load_conf-IsFitting lua m.beyond st loaded fits e')
                  (w', some st') ran st' refl
          ]
        ]
      ]

  -- When `main` gets to the loop of the server, with no store outside of an array on the way: every text
  -- of the settings fits its array; the path of the images is there, or all the levels of it that
  -- `mk_dirs` walks over; and either no script is named, or the script is there and `script_on` is 1. So it is
  -- where no call of the system or of a library takes a file away.
  pub main-IsReady :
      (w : W) (args : List Bytes) (w' : W) (st' : Setting)
      → main m w args ≡ some (w', some st')
      → IsReady m w' st'
  unfolding main
  main-IsReady w args w' st' started =
      let r = read_args args (settings_init m.cores m.project_version) none in
      let fits =
        read_args-IsFitting args _ none (settings_init-IsFitting m.cores m.project_version) in
      elim (Option-cases r.1) [
        | inl no_file ↦
            let bad : ◌≡◌ {A = Option (W × Option Setting)} (some (w, none)) (some (w', some st')) =
              rw (main, no_file) at started in
            cc
        | inr (conf_file, e) ↦
            start_conf-IsReady w r.0 conf_file w' st' fits (rw (main, e) at started)
      ]
