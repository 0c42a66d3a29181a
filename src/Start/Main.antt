-- ===== src/Start/Main.antt =====
-- src/main.c: `main` up to the loop of the server.
use ximg.Prelude.{
  Bool, not, List, [], ◌∷◌, ◌++◌, Bytes, length, take, Option, none, some, if◌then◌else◌, codes,
  ◌==◌,
}
use ximg.Prelude.Int.{ℤ, pos, ◌==ℤ◌}
use ximg.Cache.{Memcached, set_cache}
use ximg.FileSystem.{System, same_text, is_file, is_dir, mk_dirs, mk_dirf}
use ximg.Key.Gen.{int_text}
use ximg.Start.{Setting, settings_init, Lua, load_conf}

-- The calls of the system and the libraries. `load_file` is `luaL_newstate` with the run of the file, none
-- where that fails; `connect` gives the connection to a server of the text `ip:port`; `redis_connect`
-- says whether there is no error; `log_init` is given the name of the log.
pub record Machine (W : Type 0) : Type 0 where
  pub sys : System W
  pub cores : ℤ
  pub project_version : Bytes
  pub load_file : W → Bytes → Option Lua
  pub beyond : Bytes → Bytes
  pub bind_check : W → ℤ → Bool
  pub daemon : W → W × Bool
  pub log_init : W → Bytes → W
  pub connect : Bytes → Memcached W
  pub redis_connect : W → Bytes → ℤ → W × Bool

-- The loop over the arguments: the last one that is not `-d` is the configuration.
unfoldable pub read_args : List Bytes → Setting → Option Bytes → Setting × Option Bytes
read_args [] st conf_file = (st, conf_file)
read_args (arg ∷ args) st conf_file =
    if same_text arg (codes "-d")
    then read_args args (record st { is_daemon = pos 1 }) conf_file
    else read_args args st (some arg)

-- The test of the database.
unfoldable pub test_db : {W : Type 0} → Machine W → W → Setting → W × Option Setting
test_db m w st =
    let mserver = take 31 (st.beansdb_ip ++ (b':' ∷ int_text st.beansdb_port)) in
    let set = set_cache (some (m.connect mserver)) w (codes "zimg") (codes "1") in
    let redis = m.redis_connect w st.ssdb_ip st.ssdb_port in
    if st.mode ==ℤ pos 2
    then (set.0, if set.1 then some st else none)
    else if st.mode ==ℤ pos 3
    then (redis.0, if redis.1 then some st else none)
    else (w, some st)

-- From the path of the images on.
unfoldable pub make_img_path : {W : Type 0} → Machine W → W → Setting → W × Option Setting
unfolding test_db
make_img_path m w st =
    let made = mk_dirs m.sys w st.img_path in
    if is_dir m.sys w st.img_path
    then test_db m w st
    else if made.1
    then test_db m made.0 st
    else (made.0, none)

-- From the script on.
unfoldable pub find_script : {W : Type 0} → Machine W → W → Setting → W × Option Setting
unfolding make_img_path
find_script m w st =
    if length st.script_name == 0
    then make_img_path m w st
    else if is_file m.sys w st.script_name
    then make_img_path m w (record st { script_on = pos 1 })
    else (w, none)

-- From the log on. The outer none is a store outside of an array.
unfoldable pub start_log : {W : Type 0} → Machine W → W → Setting → Option (W × Option Setting)
unfolding find_script
start_log m w st = elim (mk_dirf m.sys w st.log_name) [
  | none ↦ none
  | some made ↦
      some (if made.1 then find_script m (m.log_init made.0 st.log_name) st else (made.0, none))
]

-- From the test of the port on.
unfoldable pub start_daemon : {W : Type 0} → Machine W → W → Setting → Option (W × Option Setting)
unfolding start_log
start_daemon m w st =
    let forked = m.daemon w in
    if not (m.bind_check w st.port)
    then some (w, none)
    else if not (st.is_daemon ==ℤ pos 1)
    then start_log m w st
    else if forked.1
    then start_log m forked.0 st
    else some (forked.0, none)

-- From the test of the file on. The outer none is an access outside of
-- an array or a text.
unfoldable pub start_conf :
    {W : Type 0} → Machine W → W → Setting → Bytes → Option (W × Option Setting)
unfolding start_daemon
start_conf m w st conf_file =
    if is_file m.sys w conf_file
    then elim (m.load_file w conf_file) [
      | none ↦ some (w, none)
      | some lua ↦ elim (load_conf lua m.beyond st) [
        | none ↦ none
        | some loaded ↦ start_daemon m w loaded
      ]
    ]
    else some (w, none)

-- `main` with the arguments behind the program's name: the settings that the server starts with, or none
-- for the result -1.
unfoldable pub main : {W : Type 0} → Machine W → W → List Bytes → Option (W × Option Setting)
unfolding read_args start_conf
main m w args =
    let r = read_args args (settings_init m.cores m.project_version) none in
    elim r.1 [ none ↦ some (w, none) | some conf_file ↦ start_conf m w r.0 conf_file ]
