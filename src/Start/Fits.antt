-- ===== src/Start/Fits.antt =====
-- Every text of the settings fits its array, with the NUL behind it.
use ximg.Access.{AccessConf}
use ximg.Prelude.{
  ℕ, List, subst, ◌<◌, ◌^◌, Bytes, ◌++◌, length, Option, none, some, codes, ◌≡◌, refl, arith,
  Option-cases, inl, inr, length-take,
}
use ximg.Prelude.Int.{ℤ}
use ximg.Prelude.Memory.{◌>>=◌}
use ximg.Start.{
  Setting, name_size, file_size, format_size, settings_init, Lua, load_text, load_rules,
  load_headers, load_values, load_conf,
}
use ximg.Text.{size_sub, str_lcpy}

pub record IsFitting (st : Setting) : Type 0 where
  pub ip : length st.ip < name_size
  pub version : length st.version < name_size
  pub server_name : length st.server_name < name_size
  pub cache_ip : length st.cache_ip < name_size
  pub log_name : length st.log_name < file_size
  pub root_path : length st.root_path < file_size
  pub admin_path : length st.admin_path < file_size
  pub script_name : length st.script_name < file_size
  pub format : length st.format < format_size
  pub img_path : length st.img_path < file_size
  pub beansdb_ip : length st.beansdb_ip < name_size
  pub ssdb_ip : length st.ssdb_ip < name_size

pub length-str_lcpy :
    (src : Bytes) (size : ℕ) → 0 < size → size < 2 ^ 64 → length (str_lcpy src size) < size
unfolding str_lcpy
length-str_lcpy src size some_room small = omega (arith, length-take (size_sub size 1) src)

load_text-length :
    (lua : Lua) (name : Bytes) (size : ℕ) (old : Bytes)
    → 0 < size
    → size < 2 ^ 64
    → length old < size
    → length (load_text lua name size old) < size
load_text-length lua name size old some_room small fits = elim (Option-cases (lua.text name)) [
  | inl e ↦ let same : load_text lua name size old ≡ old = rw (load_text, e) refl in rw same fits
  | inr (value, e) ↦
      let same : load_text lua name size old ≡ str_lcpy value size = rw (load_text, e) refl in
      rw same (length-str_lcpy value size some_room small)
]

pub settings_init-IsFitting :
    (cores : ℤ) (version : Bytes) → IsFitting (settings_init cores version)
unfolding settings_init
settings_init-IsFitting cores version =
    let server = codes "XServer/" ++ str_lcpy version name_size in
    record {
      ip = length-str_lcpy (codes "0.0.0.0") name_size (omega arith) (omega arith);
      version = length-str_lcpy version name_size (omega arith) (omega arith);
      server_name = omega (arith, length-take 127 server);
      cache_ip = length-str_lcpy (codes "127.0.0.1") name_size (omega arith) (omega arith);
      log_name = length-str_lcpy (codes "./log/zimg.log") file_size (omega arith) (omega arith);
      root_path = length-str_lcpy (codes "./www/index.html") file_size (omega arith) (omega arith);
      admin_path = length-str_lcpy (codes "./www/admin.html") file_size (omega arith) (omega arith);
      script_name = omega arith;
      format = length-str_lcpy (codes "none") format_size (omega arith) (omega arith);
      img_path = length-str_lcpy (codes "./img") file_size (omega arith) (omega arith);
      beansdb_ip = length-str_lcpy (codes "127.0.0.1") name_size (omega arith) (omega arith);
      ssdb_ip = length-str_lcpy (codes "127.0.0.1") name_size (omega arith) (omega arith);
    }

load_values-IsFitting :
    (lua : Lua) (st : Setting) (headers : Option (List (Bytes × Bytes)))
    (up down admin : Option AccessConf)
    → IsFitting st
    → IsFitting (load_values lua st headers up down admin)
unfolding load_values
load_values-IsFitting lua st headers up down admin fits = record {
  ip = load_text-length lua (codes "ip") name_size st.ip (omega arith) (omega arith) fits.ip;
  version = fits.version;
  server_name = fits.server_name;
  cache_ip =
      load_text-length lua (codes "mc_ip") name_size st.cache_ip (omega arith) (omega arith)
        fits.cache_ip;
  log_name =
      load_text-length lua (codes "log_name") file_size st.log_name (omega arith) (omega arith)
        fits.log_name;
  root_path =
      load_text-length lua (codes "root_path") file_size st.root_path (omega arith) (omega arith)
        fits.root_path;
  admin_path =
      load_text-length lua (codes "admin_path") file_size st.admin_path (omega arith) (omega arith)
        fits.admin_path;
  script_name =
      load_text-length lua (codes "script_name") file_size st.script_name (omega arith)
        (omega arith) fits.script_name;
  format =
      load_text-length lua (codes "format") format_size st.format (omega arith) (omega arith)
        fits.format;
  img_path =
      load_text-length lua (codes "img_path") file_size st.img_path (omega arith) (omega arith)
        fits.img_path;
  beansdb_ip =
      load_text-length lua (codes "beansdb_ip") name_size st.beansdb_ip (omega arith) (omega arith)
        fits.beansdb_ip;
  ssdb_ip =
      load_text-length lua (codes "ssdb_ip") name_size st.ssdb_ip (omega arith) (omega arith)
        fits.ssdb_ip;
}

-- The two numbers that `main` sets.
pub IsFitting-flags :
    (st : Setting) (daemon script : ℤ)
    → IsFitting st
    → IsFitting (record st { is_daemon = daemon; script_on = script })
IsFitting-flags st daemon script fits = record {
  ip = fits.ip;
  version = fits.version;
  server_name = fits.server_name;
  cache_ip = fits.cache_ip;
  log_name = fits.log_name;
  root_path = fits.root_path;
  admin_path = fits.admin_path;
  script_name = fits.script_name;
  format = fits.format;
  img_path = fits.img_path;
  beansdb_ip = fits.beansdb_ip;
  ssdb_ip = fits.ssdb_ip;
}

-- What every last link of a chain has, its value has.
bound :
    {A B : Type 0} (P : B → Type 0) (o : Option A) (f : A → Option B) (b : B)
    → ((a : A) → f a ≡ some b → P b)
    → (o >>= f) ≡ some b
    → P b
bound P none f b last e = cc
bound P (some a) f b last e = last a e

load_last :
    (lua : Lua) (st st' : Setting) (headers : Option (List (Bytes × Bytes)))
    (up down admin : Option AccessConf)
    → IsFitting st
    → some (load_values lua st headers up down admin) ≡ some st'
    → IsFitting st'
load_last lua st st' headers up down admin fits e =
    let same : load_values lua st headers up down admin ≡ st' = cc in
    subst IsFitting same (load_values-IsFitting lua st headers up down admin fits)

-- Whatever the configuration gives, what `load_conf` leaves fits.
pub load_conf-IsFitting :
    (lua : Lua) (beyond : Bytes → Bytes) (st st' : Setting)
    → IsFitting st
    → load_conf lua beyond st ≡ some st'
    → IsFitting st'
unfolding load_conf
load_conf-IsFitting lua beyond st st' fits loaded =
    bound IsFitting (load_headers lua beyond (codes "headers") st.headers) _ st'
      (λ headers.
        bound IsFitting (load_rules lua beyond (codes "upload_rule") st.up_access) _ st' (λ up.
          bound IsFitting (load_rules lua beyond (codes "download_rule") st.down_access) _ st'
            (λ down.
              bound IsFitting (load_rules lua beyond (codes "admin_rule") st.admin_access) _ st'
                (λ admin. load_last lua st st' headers up down admin fits))))
      loaded
