-- ===== src/Settings.antt =====
-- src/zcommon.h: the fields of `settings` and of `zimg_req_t` that the request handlers use. A pointer
-- that may be NULL is an `Option`.
use ximg.Prelude.{ℕ, Bool, List, Bytes, Option}
use ximg.Prelude.Int.{ℤ}
use ximg.Access.{AccessConf}

-- `zimg_req_t` without the thread's connections.
pub record ZimgReq : Type 0 where
  pub md5 : Bytes
  pub file_type : Option Bytes
  pub width : ℤ
  pub height : ℤ
  pub proportion : ℤ
  pub gray : ℤ
  pub x : ℤ
  pub y : ℤ
  pub rotate : ℤ
  pub quality : ℤ
  pub fmt : Bytes
  pub sv : ℕ

-- The conf lists `headers` and the accesses are NULL where the configuration has none. The modes are 1
-- for the disk, 2 for beansdb and 3 for ssdb.
pub record Settings : Type 0 where
  pub server_name : Bytes
  pub headers : Option (List (Bytes × Bytes))
  pub etag : ℕ
  pub up_access : Option AccessConf
  pub down_access : Option AccessConf
  pub admin_access : Option AccessConf
  pub cache_on : Bool
  pub disable_args : ℕ
  pub disable_type : ℕ
  pub disable_zoom_up : ℕ
  pub script_on : ℕ
  pub format : Bytes
  pub quality : ℤ
  pub mode : ℕ
  pub save_new : ℕ
  pub max_size : ℤ
  pub img_path : Bytes

abbrev pub cache_max_size : ℕ
cache_max_size = 1048576

abbrev pub cache_key_size : ℕ
cache_key_size = 128
