-- ===== src/Tests.antt =====
-- Runs of the models on concrete inputs, and the theorems applied to concrete inputs.
mod Multipart
mod Lock
mod Store
mod Handlers
mod Upload
mod Disk
mod FileSystem
mod Start
mod Lists
mod Page
use mathlib.Core.List.{filter_map, reverse}
use ximg.Prelude.{
  ℕ, ◌+◌, ◌-◌, ◌*◌, ◌/◌, ◌%◌, ◌^◌, ◌<◌, ◌≤◌, Bool, true, List, [], ◌∷◌, ◌++◌, Bytes, length, drop,
  replicate, Option, none, some, ltb, ◌==◌, ◌≡◌, refl, arith, codes,
}
use ximg.Access.{
  Rule, AccessConf, Verdict, ok, forbidden, stor, conf_get_rules, zimg_access_inet, zimg_inet_addr,
  htonl,
}
use ximg.Access.Entry.{entries, rule_of}
use ximg.Access.Config.{conf_get_rules-entries}
use ximg.Access.Decision.{covers, decision, conf_access-decision}
use ximg.Access.Octets.{host_addr}
use ximg.Access.Network.{network_text, stor-covers}
use ximg.Base64.{b64_decode}
use ximg.Base64.Bounds.{decoded, b64_decode-decoded}
use ximg.Base64.RoundTrip.{b64_encode, b64_decode-b64_encode}
use ximg.Key.{md5sum, is_md5, str_hash}
use ximg.Key.Digits.{md5sum-is_md5}
use ximg.Md5.{
  md5_init, md5_append, md5_finish, md5_process, initial, full_blocks, add_count, append_blocks,
  append_at,
}
use ximg.Md5.Digest.{digest, feed, joined, md5_finish-feed}
use ximg.Md5.Stream.{Represents, md5_init-Represents, md5_append-Represents}
use ximg.Text.{strnstr, str_lcat, path_max_size}
use ximg.Text.Copy.{str_lcat_overflow}
use ximg.Text.Search.{IsFirst, strnstr-IsFirst}
use ximg.UrlDecode.{url_decode}
use ximg.UrlDecode.Bounds.{unescaped, url_decode-unescaped}
use ximg.UrlDecode.RoundTrip.{url_encode, url_decode-url_encode}

abbrev md5_text : Bytes → Bytes
md5_text text = md5sum (md5_finish (md5_append (md5_init (replicate 64 0)) text))

md5_empty : md5_text [] ≡ codes "d41d8cd98f00b204e9800998ecf8427e"
unfolding md5sum md5_finish md5_append append_at append_blocks add_count full_blocks md5_process
    initial md5_init
md5_empty = refl

md5_abc : md5_text (codes "abc") ≡ codes "900150983cd24fb0d6963f7d28e17f72"
unfolding md5sum md5_finish md5_append append_at append_blocks add_count full_blocks md5_process
    initial md5_init
md5_abc = refl

-- Two texts that are cut differently and give one digest.
abbrev pieces : List Bytes
pieces = codes "message " ∷ [] ∷ codes "digest" ∷ []

md5_finish-feed_example :
    md5_finish (feed (md5_init (replicate 64 7)) pieces) ≡ digest (joined pieces)
md5_finish-feed_example =
    md5_finish-feed (replicate 64 7) pieces refl (omega arith, (omega arith, (omega arith, tt)))

md5_append-Represents_example :
    Represents (md5_append (md5_init (replicate 64 7)) (replicate 70 1)) ([] ++ replicate 70 1)
md5_append-Represents_example =
    md5_append-Represents (md5_init (replicate 64 7)) [] (replicate 70 1) (omega arith)
      (md5_init-Represents (replicate 64 7) refl)

-- Two networks that are allowed, one address in the second that is not.
abbrev rules_text : Bytes
rules_text = codes "deny all;allow 10.0.0.0/8;allow 192.168.1.0/24;deny 192.168.1.7"

abbrev addr_of : ℕ → ℕ → ℕ → ℕ → ℕ
addr_of a b c d = htonl (host_addr a b c d)

abbrev verdict_on : ℕ → Option AccessConf → Option Verdict
verdict_on addr none = none
verdict_on addr (some conf) = some (zimg_access_inet conf addr)

access_inside : verdict_on (addr_of 192 168 1 9) (conf_get_rules rules_text []) ≡ some ok
unfolding conf_get_rules zimg_access_inet ximg.Access.rules_loop ximg.Access.zimg_strlchr
    ximg.Access.entry_rule ximg.Access.range_rule stor zimg_inet_addr htonl ximg.Access.stor_mask
    ximg.Access.zimg_atoi ximg.Access.shift_mask ximg.Text.starts_with
access_inside = refl

access_outside : verdict_on (addr_of 11 0 0 1) (conf_get_rules rules_text []) ≡ some forbidden
unfolding conf_get_rules zimg_access_inet ximg.Access.rules_loop ximg.Access.zimg_strlchr
    ximg.Access.entry_rule ximg.Access.range_rule stor zimg_inet_addr htonl ximg.Access.stor_mask
    ximg.Access.zimg_atoi ximg.Access.shift_mask ximg.Text.starts_with
access_outside = refl

-- An octet wraps at 2 ^ 32, so this text is read as 1.0.0.1.
octet_wraps : zimg_inet_addr (codes "4294967297.0.0.1") ≡ addr_of 1 0 0 1
unfolding zimg_inet_addr htonl
octet_wraps = refl

conf_get_rules-entries_example :
    (conf : AccessConf) × (conf_get_rules rules_text [] ≡ some conf)
    × (conf.rules ≡ reverse (filter_map rule_of (entries rules_text)))
conf_get_rules-entries_example = conf_get_rules-entries rules_text

conf_access-decision_example :
    (conf : AccessConf) × (conf_get_rules rules_text [] ≡ some conf)
    × (zimg_access_inet conf (addr_of 10 1 2 3)
        ≡ decision (filter_map rule_of (entries rules_text)) (addr_of 10 1 2 3))
conf_access-decision_example = conf_access-decision rules_text (addr_of 10 1 2 3)

abbrev denied : Rule
denied = record { mask = 0; addr = 0; deny = true }

stor-covers_example :
    (r : Rule) × (stor (network_text 192 168 1 0 24) denied ≡ some r)
    × (r.deny ≡ denied.deny)
    × (covers r (htonl 3232235777)
        ≡ (3232235777 / 2 ^ (32 - 24) == host_addr 192 168 1 0 / 2 ^ (32 - 24)))
stor-covers_example =
    stor-covers 192 168 1 0 24 3232235777 denied
      (omega arith, omega arith, omega arith, omega arith) (omega arith) (omega arith) (omega arith)

abbrev hello : Bytes
hello = codes "hello"

run_hello : b64_decode (codes "aGVsbG8=") (replicate 6 0) ≡ some (5, hello ++ (0 ∷ []))
unfolding b64_decode ximg.Base64.b64_loop ximg.Base64.flush ximg.Base64.b64_int ximg.Base64.byte0
    ximg.Base64.byte1 ximg.Base64.byte2
run_hello = refl

abbrev two_bytes : Bytes
two_bytes = 255 ∷ 0 ∷ []

b64_decode-b64_encode_example :
    b64_decode (b64_encode two_bytes) (replicate 3 9)
    ≡ some (length two_bytes, two_bytes ++ drop (length two_bytes) (replicate 3 9))
unfolding b64_encode
b64_decode-b64_encode_example =
    b64_decode-b64_encode two_bytes (replicate 3 9) (omega arith, (omega arith, tt)) (omega arith)

abbrev escaped : Bytes
escaped = codes "a%2Fb%z%"

run_escaped : url_decode escaped (replicate 8 0) ≡ some (5, codes "a/bz%" ++ replicate 3 0)
unfolding url_decode ximg.UrlDecode.url_loop
run_escaped = refl

-- Letters and what is behind them stand for themselves.
abbrev kept : ℕ → Bool
kept c = ltb 64 c

url_decode-url_encode_example :
    url_decode (url_encode kept (codes "a=b")) (replicate 5 0)
    ≡ some (length (codes "a=b"), codes "a=b" ++ drop (length (codes "a=b")) (replicate 5 0))
unfolding url_encode
url_decode-url_encode_example =
    url_decode-url_encode kept (codes "a=b") (replicate 5 0) refl
      (omega arith, (omega arith, (omega arith, tt))) (omega arith)

abbrev tail_bytes : Bytes
tail_bytes = replicate 13 200

md5sum-is_md5_example :
    (is_md5 (md5sum (171 ∷ 205 ∷ 239 ∷ tail_bytes)) ≡ true)
    × (str_hash (md5sum (171 ∷ 205 ∷ 239 ∷ tail_bytes)) ≡ 171 * 4 + 205 / 64)
    × (str_hash (drop 3 (md5sum (171 ∷ 205 ∷ 239 ∷ tail_bytes))) ≡ 205 % 16 * 64 + 239 / 4)
    × (171 * 4 + 205 / 64 < 1024)
    × (205 % 16 * 64 + 239 / 4 < 1024)
md5sum-is_md5_example = md5sum-is_md5 171 205 239 tail_bytes (ground arith) refl

strnstr-IsFirst_example :
    IsFirst
      (codes "name; filename=x")
      (codes "filename=")
      15
      (strnstr (codes "name; filename=x") (codes "filename=") 15)
strnstr-IsFirst_example = strnstr-IsFirst (codes "name; filename=x") (codes "filename=") 15

str_lcat_overflow_example : str_lcat hello (codes "!") 4 ≡ hello ++ codes "!"
str_lcat_overflow_example = str_lcat_overflow hello (codes "!") 4 (omega arith) (omega arith)
