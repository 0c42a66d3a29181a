-- ===== src/Lib.antt =====
-- Models of the image server's own code in src/ of the repository, and theorems on them.
--
-- The server takes uploads over HTTP (src/zhttpd.c, src/xhttpd.c), names each image by the MD5 of its
-- bytes, stores it in a file tree or a database, and gives it back scaled. These files model the
-- parts that compute:
--
-- Base64, UrlDecode: `b64_decode` and `url_decode` of src/xutil.c. `base64_request_cb` decodes an
-- uploaded parameter by the one and then the other. An output buffer is a list of bytes, and a
-- store outside it is `none`.
-- Md5: src/zmd5.c. `Md5State` is `md5_state_t`, with the counts and registers as numbers below
-- 2 ^ 32 and each addition reduced. The child modules have the tables of the four rounds, the
-- bit count, the buffered block and the digest of a message that comes in pieces. A message of
-- one call has less than 2 ^ 28 bytes, so that `nbytes << 3` does not leave an `int`.
-- Key: the digest's text in `save_img` (src/zimg.c), and `is_md5` and `str_hash` (src/zutil.c),
-- which check a key and choose its two directories.
-- Text: `strnchr`, `strnstr`, `str_lcpy`, `str_lcat`, `get_type` and `get_file_path` of
-- src/zutil.c. A C string is the list of its bytes in front of the NUL; `size_t` has 64 bits.
-- Access: src/zaccess.c, the parser of the access rules and the decision on an address. Addresses
-- are in network byte order on a little-endian machine. `rules_loop` runs on fuel of the text's
-- length and two more, since each turn of the loop goes at least one byte ahead.
-- Multipart: src/xparser.c. `Parser` is `struct x_multipart_parser`, `Locals` the variables of the loop,
-- and `turn` the switch on the state, with one function for each larger case. The callbacks are an
-- argument. `parse_loop` runs on fuel of twice the buffer's length and two more: a turn goes one
-- byte ahead, or reads a byte a second time in another state. The child modules have the
-- invariant, the cases, and the whole call.
-- Upload: the callbacks `x_on_header_value` and `x_on_chunk_data` of src/xhttpd.c, which fill the list
-- of results while the parser runs, `x_multipart_parse` up to its answer with the boundary, and the
-- decoding of the parameter of `base64_request_cb`. `save_img` and `is_img` are arguments. Http/Upload: the two handlers
-- of src/xhttpd.c around them, with the JSON of src/xutil.c. A callback that goes outside of the body's
-- memory sets `faulted`. `result2json` reads nodes that it has freed: `none`, unless `keeps_freed`, an
-- argument, says that they keep their contents.
-- Upload/Page: `on_header_value` and `on_chunk_data` of src/zhttpd.c, as calls of any parser.
-- FileSystem: `is_file`, `is_dir`, `mk_dir`, `mk_dirs`, `mk_dirf`, `delete_file` of src/zutil.c over the calls
-- of the system. `delete_file` runs on fuel, one for each level of directories.
-- Settings: the fields of `settings` and of `zimg_req_t` (src/zcommon.h). Key/Gen: `gen_key` of
-- src/zutil.c and the choice of the key of a response.
-- Cache: src/zcache.c. Db: the clients of
-- beansdb and ssdb in src/zdb.c and the choice between them. `W` is the state of everything outside of
-- the program, and the calls of libmemcached and hiredis are arguments. Db/Contract has what is taken
-- of a server and what a client promises.
-- Images: `new_img` and `save_img` of src/zimg.c; Images/Disk has `get_img`, `admin_img` and `info_img`
-- of that file, Images/Database the three functions of src/zdb.c for the other modes, Images/Parts what
-- they share. Images/OnDisk has what is taken of files, and Images/RoundTrip goes from `save_img` to
-- `get_img` over them. The calls of the system, of MagickWand, the two conversions and the helpers on
-- directories of src/zutil.c are arguments. A test in front of a call is an `if`, and `goto err` the
-- value that `result` has there.
-- Scale: `crop` and `convert` of src/zscale.c, with `proportion` as an argument.
-- Http: requests and responses, `atoi`, `zimg_etag_set`, `json_return` of src/zhttpd.c; Http/Get, Http/Post,
-- Http/Admin and Http/Info the four handlers. The parser of deps/multipart-parser-c with its two
-- callbacks is an argument of the first. Server: `set_callback` of src/main.c, which gives the
-- handlers the functions of the mode.
-- Http/Headers: `conf_get_headers`. Server/Routes: the callbacks that `main` sets, with the two small ones,
-- and what is called for a request; the choice of libevhtp is an argument. The loop of
-- `dump_request_cb` runs on fuel of the body's length, since a turn takes up to seven bytes.
-- Start: the settings of src/main.c, `settings_init` and `load_conf` over the globals of a Lua state;
-- Start/Main has `main` up to the loop of the server, as a chain from its last test back.
-- LinkedList: src/xlist.c on a heap of nodes. The loops run on fuel, a turn for each node and one more.
-- SpinLock: src/zspinlock.c as steps of threads in any order; each `__sync` call is one step.
-- Prelude: lists, words, memory and the lemmas on them. Tests: runs on concrete inputs.
--
-- Not modelled: the inside of the calls of the system, of memcached, redis, Lua and ImageMagick, the HTTP
-- library, the copied libraries under deps/, log output, signals, the connections that a thread opens,
-- and memory that cannot be allocated.
pub mod Access
pub mod Base64
pub mod Cache
pub mod Db
pub mod FileSystem
pub mod Http
pub mod Images
pub mod Key
pub mod LinkedList
pub mod Md5
pub mod Multipart
pub mod Prelude
pub mod Scale
pub mod Server
pub mod Settings
pub mod SpinLock
pub mod Start
pub mod Tests
pub mod Text
pub mod Upload
pub mod UrlDecode
