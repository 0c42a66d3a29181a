-- ===== src/Start.antt =====
-- src/main.c: the settings with their defaults, and how the configuration is read into them. A text is
-- the one in its array, in front of the NUL. The pointers to functions are those of `set_callback`.
pub mod Fits
pub mod Main
pub mod Ready
use ximg.Prelude.{ℕ, Bool, List, [], ◌∷◌, ◌++◌, Bytes, take, Option, none, some, codes}
use ximg.Prelude.Int.{ℤ, pos}
use ximg.Prelude.Memory.{◌>>=◌}
use ximg.Access.{AccessConf, conf_get_rules}
use ximg.Http.Headers.{conf_get_headers}
use ximg.Text.{str_lcpy}

pub record Setting : Type 0 where
  pub is_daemon : ℤ
  pub ip : Bytes
  pub port : ℤ
  pub num_threads : ℤ
  pub backlog : ℤ
  pub max_keepalives : ℤ
  pub retry : ℤ
  pub version : Bytes
  pub server_name : Bytes
  pub headers : Option (List (Bytes × Bytes))
  pub etag : ℤ
  pub up_access : Option AccessConf
  pub down_access : Option AccessConf
  pub admin_access : Option AccessConf
  pub cache_on : ℤ
  pub cache_ip : Bytes
  pub cache_port : ℤ
  pub log_level : ℤ
  pub log_name : Bytes
  pub root_path : Bytes
  pub admin_path : Bytes
  pub disable_args : ℤ
  pub disable_type : ℤ
  pub disable_zoom_up : ℤ
  pub script_on : ℤ
  pub script_name : Bytes
  pub format : Bytes
  pub quality : ℤ
  pub mode : ℤ
  pub save_new : ℤ
  pub max_size : ℤ
  pub img_path : Bytes
  pub beansdb_ip : Bytes
  pub beansdb_port : ℤ
  pub ssdb_ip : Bytes
  pub ssdb_port : ℤ

-- The sizes of the arrays.
abbrev pub name_size : ℕ
name_size = 128

abbrev pub file_size : ℕ
file_size = 512

abbrev pub format_size : ℕ
format_size = 16

-- With the number of cores and the version that the build gives.
unfoldable pub settings_init : ℤ → Bytes → Setting
settings_init cores project_version = record {
  is_daemon = pos 0;
  ip = str_lcpy (codes "0.0.0.0") name_size;
  port = pos 4869;
  num_threads = cores;
  backlog = pos 1024;
  max_keepalives = pos 1;
  retry = pos 3;
  version = str_lcpy project_version name_size;
  server_name = take 127 (codes "XServer/" ++ str_lcpy project_version name_size);
  headers = none;
  etag = pos 0;
  up_access = none;
  down_access = none;
  admin_access = none;
  cache_on = pos 0;
  cache_ip = str_lcpy (codes "127.0.0.1") name_size;
  cache_port = pos 11211;
  log_level = pos 6;
  log_name = str_lcpy (codes "./log/zimg.log") file_size;
  root_path = str_lcpy (codes "./www/index.html") file_size;
  admin_path = str_lcpy (codes "./www/admin.html") file_size;
  disable_args = pos 0;
  disable_type = pos 0;
  disable_zoom_up = pos 0;
  script_on = pos 0;
  script_name = [];
  format = str_lcpy (codes "none") format_size;
  quality = pos 75;
  mode = pos 1;
  save_new = pos 1;
  max_size = pos 10485760;
  img_path = str_lcpy (codes "./img") file_size;
  beansdb_ip = str_lcpy (codes "127.0.0.1") name_size;
  beansdb_port = pos 7905;
  ssdb_ip = str_lcpy (codes "127.0.0.1") name_size;
  ssdb_port = pos 6379;
}

-- The globals of the Lua state: one that `lua_isnumber` accepts, as an `int`, and one that `lua_isstring`
-- accepts.
pub record Lua : Type 0 where
  pub number : Bytes → Option ℤ
  pub text : Bytes → Option Bytes

abbrev pub load_number : Lua → Bytes → ℤ → ℤ
load_number lua name old = elim (lua.number name) [ none ↦ old | some value ↦ value ]

abbrev pub load_text : Lua → Bytes → ℕ → Bytes → Bytes
load_text lua name size old = elim (lua.text name) [ none ↦ old | some value ↦ str_lcpy value size ]

-- `beyond` is what the heap holds behind the copy of the text.
abbrev pub load_rules :
    Lua → (Bytes → Bytes) → Bytes → Option AccessConf → Option (Option AccessConf)
load_rules lua beyond name old = elim (lua.text name) [
  | none ↦ some old
  | some value ↦ (do conf ← conf_get_rules value (beyond name); some (some conf))
]

abbrev pub load_headers :
    Lua
    → (Bytes → Bytes)
    → Bytes
    → Option (List (Bytes × Bytes))
    → Option (Option (List (Bytes × Bytes)))
load_headers lua beyond name old = elim (lua.text name) [
  | none ↦ some old
  | some value ↦ (do headers ← conf_get_headers value (beyond name); some (some headers))
]

-- What `load_conf` leaves, with the values that its calls give. The global `system` is read and not used.
unfoldable pub load_values :
    Lua
    → Setting
    → Option (List (Bytes × Bytes))
    → Option AccessConf
    → Option AccessConf
    → Option AccessConf
    → Setting
load_values lua st headers up_access down_access admin_access = record st {
  is_daemon = load_number lua (codes "is_daemon") st.is_daemon;
  ip = load_text lua (codes "ip") name_size st.ip;
  port = load_number lua (codes "port") st.port;
  num_threads = load_number lua (codes "thread_num") st.num_threads;
  backlog = load_number lua (codes "backlog_num") st.backlog;
  max_keepalives = load_number lua (codes "max_keepalives") st.max_keepalives;
  retry = load_number lua (codes "retry") st.retry;
  headers = headers;
  etag = load_number lua (codes "etag") st.etag;
  up_access = up_access;
  down_access = down_access;
  admin_access = admin_access;
  cache_on = load_number lua (codes "cache") st.cache_on;
  cache_ip = load_text lua (codes "mc_ip") name_size st.cache_ip;
  cache_port = load_number lua (codes "mc_port") st.cache_port;
  log_level = load_number lua (codes "log_level") st.log_level;
  log_name = load_text lua (codes "log_name") file_size st.log_name;
  root_path = load_text lua (codes "root_path") file_size st.root_path;
  admin_path = load_text lua (codes "admin_path") file_size st.admin_path;
  disable_args = load_number lua (codes "disable_args") st.disable_args;
  disable_type = load_number lua (codes "disable_type") st.disable_type;
  disable_zoom_up = load_number lua (codes "disable_zoom_up") st.disable_zoom_up;
  script_name = load_text lua (codes "script_name") file_size st.script_name;
  format = load_text lua (codes "format") format_size st.format;
  quality = load_number lua (codes "quality") st.quality;
  mode = load_number lua (codes "mode") st.mode;
  save_new = load_number lua (codes "save_new") st.save_new;
  max_size = load_number lua (codes "max_size") st.max_size;
  img_path = load_text lua (codes "img_path") file_size st.img_path;
  beansdb_ip = load_text lua (codes "beansdb_ip") name_size st.beansdb_ip;
  beansdb_port = load_number lua (codes "beansdb_port") st.beansdb_port;
  ssdb_ip = load_text lua (codes "ssdb_ip") name_size st.ssdb_ip;
  ssdb_port = load_number lua (codes "ssdb_port") st.ssdb_port;
}

-- `load_conf` from the first global on; none where a text of headers or rules is read out of bounds.
unfoldable pub load_conf : Lua → (Bytes → Bytes) → Setting → Option Setting
unfolding load_values
load_conf lua beyond st = do
  headers ← load_headers lua beyond (codes "headers") st.headers
  up_access ← load_rules lua beyond (codes "upload_rule") st.up_access
  down_access ← load_rules lua beyond (codes "download_rule") st.down_access
  admin_access ← load_rules lua beyond (codes "admin_rule") st.admin_access
  some (load_values lua st headers up_access down_access admin_access)
