-- ===== src/Md5.antt =====
-- src/zmd5.c: the MD5 state, `md5_init`, `md5_process`, `md5_append` and `md5_finish`. A `md5_word_t` is
-- a number below 2 ^ 32, and a `md5_byte_t *` with its length is the list of the bytes.
pub mod Tables
pub mod Blocks
pub mod Count
pub mod Stream
pub mod Digest
use ximg.Prelude.{
  ℕ, zero, suc, ◌+◌, ◌-◌, ◌*◌, ◌/◌, ◌%◌, ◌^◌, List, [], ◌∷◌, ◌++◌, Bytes, length, take, drop,
  replicate, get_or, map, ltb, leb, ◌==◌, if◌then◌else◌, bit_and, bit_or, bit_xor,
}
use ximg.Prelude.Bits.{u8, u32, ◌<<<◌, ◌>>>◌}
use ximg.Md5.Tables.{Op, op, masked, round1, round2, round3, round4}

pub record Abcd : Type 0 where
  pub a : ℕ
  pub b : ℕ
  pub c : ℕ
  pub d : ℕ

pub record Md5State : Type 0 where
  pub count0 : ℕ
  pub count1 : ℕ
  pub abcd : Abcd
  pub buf : Bytes

abbrev complement : ℕ → ℕ
complement x = bit_xor 0xffff_ffff x

abbrev rotate_left : ℕ → ℕ → ℕ
rotate_left x n = bit_or (u32 (x <<< n)) (x >>> (32 - n))

-- The macros `F`, `G`, `H` and `I`.
abbrev mix_f : ℕ → ℕ → ℕ → ℕ
mix_f x y z = bit_or (bit_and x y) (bit_and (complement x) z)

abbrev mix_g : ℕ → ℕ → ℕ → ℕ
mix_g x y z = bit_or (bit_and x z) (bit_and y (complement z))

abbrev mix_h : ℕ → ℕ → ℕ → ℕ
mix_h x y z = bit_xor (bit_xor x y) z

abbrev mix_i : ℕ → ℕ → ℕ → ℕ
mix_i x y z = bit_xor y (bit_or x (complement z))

-- `X[k]`: four bytes, the lowest first.
abbrev word_at : Bytes → ℕ → ℕ
word_at input k =
    get_or input (4 * k) 0
    + (get_or input (4 * k + 1) 0 <<< 8)
    + (get_or input (4 * k + 2) 0 <<< 16)
    + (get_or input (4 * k + 3) 0 <<< 24)

-- `SET(a, b, c, d, k, s, Ti)`, and the registers in the order of the next `SET`.
set_op : (ℕ → ℕ → ℕ → ℕ) → Bytes → Op → Abcd → Abcd
set_op f x (op k s ti) r =
    let t = u32 (r.a + f r.b r.c r.d + word_at x k + ti) in
    record { a = r.d; b = u32 (rotate_left t s + r.b); c = r.b; d = r.c }

rounds : (ℕ → ℕ → ℕ → ℕ) → Bytes → List Op → Abcd → Abcd
unfolding set_op
rounds f x [] r = r
rounds f x (o ∷ os) r = rounds f x os (set_op f x o r)

unfoldable pub md5_process : Abcd → Bytes → Abcd
unfolding rounds
md5_process r x =
    let r1 = rounds mix_f x round1 r in
    let r2 = rounds mix_g x round2 r1 in
    let r3 = rounds mix_h x round3 r2 in
    let r4 = rounds mix_i x round4 r3 in
    record {
      a = u32 (r.a + r4.a);
      b = u32 (r.b + r4.b);
      c = u32 (r.c + r4.c);
      d = u32 (r.d + r4.d);
    }

unfoldable pub initial : Abcd
initial = record { a = 0x67452301; b = masked 0x10325476; c = masked 0x67452301; d = 0x10325476 }

-- `buf` is not set by `md5_init`: it keeps what was there.
unfoldable pub md5_init : Bytes → Md5State
md5_init buf = record { count0 = 0; count1 = 0; abcd = initial; buf = buf }

-- `memcpy(buf + offset, p, length p)`
abbrev pub copy_into : Bytes → ℕ → Bytes → Bytes
copy_into buf offset p = take offset buf ++ (p ++ drop (offset + length p) buf)

-- `for (; left >= 64; p += 64, left -= 64) md5_process(pms, p)`, over the count of full blocks.
unfoldable pub full_blocks : ℕ → Abcd → Bytes → Abcd
full_blocks zero r p = r
full_blocks (suc n) r p = full_blocks n (md5_process r (take 64 p)) (drop 64 p)

-- The lines under `/* Update the message length. */`.
unfoldable pub add_count : Md5State → ℕ → Md5State
add_count s nbytes =
    let nbits = u32 (nbytes <<< 3) in
    let count1 = u32 (s.count1 + (nbytes >>> 29)) in
    let count0 = u32 (s.count0 + nbits) in
    record s { count0 = count0; count1 = if ltb count0 nbits then u32 (count1 + 1) else count1 }

-- The lines from `/* Process full blocks. */` on.
unfoldable pub append_blocks : Md5State → Bytes → Md5State
append_blocks s p =
    let n = length p / 64 in
    let rest = drop (64 * n) p in
    let processed = record s { abcd = full_blocks n s.abcd p } in
    if length rest == 0 then processed else record processed { buf = copy_into s.buf 0 rest }

-- The lines from `/* Process an initial partial block. */` on.
unfoldable pub append_at : ℕ → Md5State → Bytes → Md5State
append_at offset s input =
    let nbytes = length input in
    let copy = if ltb 64 (offset + nbytes) then 64 - offset else nbytes in
    let buf = copy_into s.buf offset (take copy input) in
    if offset == 0
    then append_blocks s input
    else if ltb (offset + copy) 64
    then record s { buf = buf }
    else append_blocks (record s { buf = buf; abcd = md5_process s.abcd buf }) (drop copy input)

-- The offset is read before the count changes.
unfoldable pub md5_append : Md5State → Bytes → Md5State
md5_append s input =
    let nbytes = length input in
    let offset = bit_and (s.count0 >>> 3) 63 in
    if nbytes == 0 then s else append_at offset (add_count s nbytes) input

-- `(md5_byte_t)(word >> ((i & 3) << 3))` for the four values of `i & 3`.
abbrev pub word_bytes : ℕ → Bytes
word_bytes w = u8 w ∷ u8 (w >>> 8) ∷ u8 (w >>> 16) ∷ u8 (w >>> 24) ∷ []

abbrev pub pad : Bytes
pad = 0x80 ∷ replicate 63 0

unfoldable pub md5_finish : Md5State → Bytes
md5_finish s =
    let size = word_bytes s.count0 ++ word_bytes s.count1 in
    let padded = md5_append s (take (bit_and (55 + 2 ^ 32 - (s.count0 >>> 3)) 63 + 1) pad) in
    let done = md5_append padded size in
    word_bytes done.abcd.a
    ++ (word_bytes done.abcd.b ++ (word_bytes done.abcd.c ++ word_bytes done.abcd.d))
