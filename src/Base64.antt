-- ===== src/Base64.antt =====
-- src/xutil.c: `b64_int`, `b64_decode`. The output is an array of bytes; a store outside it is
-- `none`, which C leaves undefined.
pub mod Bounds
pub mod RoundTrip
use ximg.Prelude.{
  ℕ, zero, suc, ◌+◌, ◌-◌, ◌*◌, ◌<◌, Bool, true, false, ◌&&◌, List, [], ◌∷◌, Option, none, some, ltb,
  ◌==◌, if◌then◌else◌, bit_and, length, set, Bytes, codes,
}
use ximg.Prelude.Bits.{u8, ◌<<<◌, ◌>>>◌}
use ximg.Prelude.Memory.{◌>>=◌, store}

abbrev pub b64_chr : Bytes
b64_chr = codes "ABCDEFGHIJKLMNOPQRSTUVWXYZabcdefghijklmnopqrstuvwxyz0123456789+/"

unfoldable pub b64_int : ℕ → ℕ
b64_int ch =
    if ch == 43
    then 62
    else if ch == 47
    then 63
    else if ch == 61
    then 64
    else if ltb 47 ch && ltb ch 58
    then ch + 4
    else if ltb 64 ch && ltb ch 91
    then ch - b'A'
    else if ltb 96 ch && ltb ch 123
    then ch - b'a' + 26
    else 0

-- The filled part of `s[4]`: `j` is its length.
pub data Pending : Type 0 where
  j0 : Pending
  j1 : ℕ → Pending
  j2 : ℕ → ℕ → Pending
  j3 : ℕ → ℕ → ℕ → Pending

unfoldable pub byte0 : ℕ → ℕ → ℕ
byte0 s0 s1 = u8 ((bit_and s0 255 <<< 2) + (bit_and s1 0x30 >>> 4))

unfoldable pub byte1 : ℕ → ℕ → ℕ
byte1 s1 s2 = u8 ((bit_and s1 0x0F <<< 4) + (bit_and s2 0x3C >>> 2))

unfoldable pub byte2 : ℕ → ℕ → ℕ
byte2 s2 s3 = u8 ((bit_and s2 0x03 <<< 6) + s3)

-- The block under `if (j == 4)`: the new `k` and `out`.
unfoldable pub flush : ℕ → ℕ → ℕ → ℕ → ℕ → Bytes → Option (ℕ × Bytes)
flush s0 s1 s2 s3 k out = do
  out' ← store out (k + 0) (byte0 s0 s1)
  if s2 == 64 then some (k + 1, out') else do
    out'' ← store out' (k + 1) (byte1 s1 s2)
    if s3 == 64
        then some (k + 2, out'')
        else do out''' ← store out'' (k + 2) (byte2 s2 s3); some (k + 3, out''')

unfoldable pub b64_loop : Bytes → Pending → ℕ → Bytes → Option (ℕ × Bytes)
b64_loop [] s k out = some (k, out)
b64_loop (c ∷ cs) j0 k out = b64_loop cs (j1 (b64_int c)) k out
b64_loop (c ∷ cs) (j1 s0) k out = b64_loop cs (j2 s0 (b64_int c)) k out
b64_loop (c ∷ cs) (j2 s0 s1) k out = b64_loop cs (j3 s0 s1 (b64_int c)) k out
b64_loop (c ∷ cs) (j3 s0 s1 s2) k out = do
  (k', out') ← flush s0 s1 s2 (b64_int c) k out
  b64_loop cs j0 k' out'

unfoldable pub b64_decode : Bytes → Bytes → Option (ℕ × Bytes)
b64_decode text out = b64_loop text j0 0 out
