-- ===== src/Access.antt =====
-- src/zaccess.c: the access rules. A text with its length is the list of its bytes; `none` is the
-- result `ZIMG_ERROR`. Addresses and masks are kept in network byte order, as `in_addr_t` is.
pub mod Entry
pub mod Config
pub mod Decision
pub mod Octets
pub mod Network
use ximg.Prelude.{
  ℕ, zero, suc, ◌+◌, ◌-◌, ◌*◌, ◌/◌, ◌%◌, ◌^◌, Bool, true, false, not, ◌&&◌, ◌||◌, List, [], ◌∷◌,
  ◌++◌, Bytes, length, take, drop, get_or, Option, none, some, leb, ltb, ◌==◌, if◌then◌else◌,
  bit_and, codes,
}
use ximg.Prelude.Bits.{u32, ◌<<<◌}
use ximg.Prelude.Memory.{◌>>=◌}
use ximg.Text.{starts_with}

abbrev pub inaddr_none : ℕ
inaddr_none = 0xffff_ffff

-- `htonl` on a little-endian machine: the four bytes in the other order.
unfoldable pub htonl : ℕ → ℕ
htonl x =
    x % 256 * 0x100_0000
    + x / 0x100 % 256 * 0x1_0000
    + x / 0x1_0000 % 256 * 0x100
    + x / 0x100_0000 % 256

abbrev pub is_digit : ℕ → Bool
is_digit c = leb b'0' c && leb c b'9'

-- The loop of `zimg_atoi`; `value` is the bit pattern of an `int`.
unfoldable pub atoi_loop : ℕ → Bytes → Option ℕ
atoi_loop value [] = if ltb value (2 ^ 31) then some value else none
atoi_loop value (c ∷ line) =
    let rest = atoi_loop (u32 (value * 10 + (c - b'0'))) line in
    if not (is_digit c) then none else rest

unfoldable pub zimg_atoi : Bytes → Option ℕ
unfolding atoi_loop
zimg_atoi line = if length line == 0 then none else atoi_loop 0 line

-- The number of bytes in front of the first `c`.
unfoldable pub zimg_strlchr : Bytes → ℕ → Option ℕ
zimg_strlchr [] c = none
zimg_strlchr (x ∷ p) c =
    let later = zimg_strlchr p c in
    if x == c then some 0 else elim later [ none ↦ none | some i ↦ some (i + 1) ]

-- The loop of `zimg_inet_addr` and what stands behind it.
unfoldable pub inet_loop : ℕ → ℕ → ℕ → Bytes → ℕ
inet_loop addr octet n [] =
    if n == 3 && ltb octet 256 then htonl (u32 ((addr <<< 8) + octet)) else inaddr_none
inet_loop addr octet n (c ∷ p) =
    let digit = inet_loop addr (u32 (octet * 10 + (c - b'0'))) n p in
    let dot = inet_loop (u32 ((addr <<< 8) + octet)) 0 (u32 (n + 1)) p in
    if is_digit c then digit else if c == b'.' && ltb octet 256 then dot else inaddr_none

unfoldable pub zimg_inet_addr : Bytes → ℕ
unfolding inet_loop
zimg_inet_addr text = inet_loop 0 0 0 text

pub record Rule : Type 0 where
  pub mask : ℕ
  pub addr : ℕ
  pub deny : Bool

-- The mask of a prefix of `shift` bits.
unfoldable pub shift_mask : ℕ → ℕ
shift_mask shift = if shift == 0 then 0 else htonl (u32 (0xffff_ffff <<< (32 - shift)))

-- `stor` from the parsed address on; `mask` is the index of the slash.
unfoldable pub stor_mask : Bytes → Option ℕ → ℕ → Rule → Option Rule
stor_mask text none addr rule = some (record rule { addr = addr; mask = 0xffff_ffff })
stor_mask text (some mask) addr rule = do
  shift ← zimg_atoi (drop (mask + 1) text)
  if ltb 32 shift
      then none
      else if addr == bit_and addr (shift_mask shift)
      then some (record rule { addr = addr; mask = shift_mask shift })
      else some (record rule { addr = bit_and addr (shift_mask shift); mask = shift_mask shift })

unfoldable pub stor : Bytes → Rule → Option Rule
stor text rule =
    let mask = zimg_strlchr text b'/' in
    let len : ℕ = elim mask [ none ↦ length text | some i ↦ i ] in
    let addr = zimg_inet_addr (take len text) in
    if addr == inaddr_none then none else stor_mask text mask addr rule

pub record AccessConf : Type 0 where
  pub n : ℕ
  pub rules : List Rule

-- `strchr` from the index `start` of the memory `mem`, which ends in front of a NUL.
abbrev pub strchr_from : Bytes → ℕ → ℕ → Option ℕ
strchr_from mem start c = elim (zimg_strlchr (drop start mem) c) [
  | none ↦ none
  | some i ↦ some (start + i)
]

-- The bytes between two pointers; none if the second is not behind the first.
abbrev pub between : Bytes → ℕ → ℕ → Bytes
between mem start stop = take (stop - start) (drop start mem)

-- The rule of the text behind the blank; the flag is `strstr(range, "all") == range`.
unfoldable pub range_rule : Bytes → Bool → Rule → Option Rule
range_rule range is_all rule = if length range == 3 && is_all then some rule else stor range rule

-- The rule of one entry: from `range = strchr(mode, ' ')` up to the new list node.
unfoldable pub entry_rule : Bytes → ℕ → ℕ → Option Rule
entry_rule mem start stop = do
  space ← strchr_from mem start b' '
  let rule : Rule = record { mask = 0; addr = 0; deny = get_or mem start 0 == b'd' }
  range_rule (between mem (space + 1) stop) (starts_with (drop (space + 1) mem) (codes "all")) rule

abbrev pub add_rule : AccessConf → Option Rule → AccessConf
add_rule conf none = conf
add_rule conf (some rule) = record { n = u32 (conf.n + 1); rules = rule ∷ conf.rules }

-- The loop over the entries at `start`, on fuel. `mem` is the copied text of `acc_len` bytes and what
-- the heap holds behind it up to a NUL: `acc` itself is not closed by one.
unfoldable pub rules_loop : ℕ → Bytes → ℕ → ℕ → AccessConf → Option AccessConf
rules_loop zero mem acc_len start conf = none
rules_loop (suc fuel) mem acc_len start conf =
    let stop : ℕ = elim (strchr_from mem start b';') [ none ↦ acc_len | some i ↦ i ] in
    let rest = rules_loop fuel mem acc_len (stop + 1) (add_rule conf (entry_rule mem start stop)) in
    if leb start acc_len then rest else some conf

-- `conf_get_rules` where every allocation succeeds; `beyond` is the heap behind `acc`.
unfoldable pub conf_get_rules : Bytes → Bytes → Option AccessConf
conf_get_rules acc_str beyond =
    rules_loop (length acc_str + 2) (acc_str ++ beyond) (length acc_str) 0
      (record { n = 0; rules = [] })

pub data Verdict : Type 0 where
  ok forbidden : Verdict

unfoldable pub access_loop : List Rule → ℕ → Verdict
access_loop [] addr = forbidden
access_loop (r ∷ rules) addr =
    let later = access_loop rules addr in
    if bit_and addr r.mask == r.addr then if r.deny then forbidden else ok else later

-- `ZIMG_OK` or `ZIMG_FORBIDDEN`.
unfoldable pub zimg_access_inet : AccessConf → ℕ → Verdict
unfolding access_loop
zimg_access_inet conf addr = if length conf.rules == 0 then ok else access_loop conf.rules addr
