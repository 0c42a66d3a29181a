-- ===== src/Md5/Count.antt =====
-- The length that `md5_append` keeps in two words: the bits of the message modulo 2 ^ 64.
use ximg.Prelude.{ℕ, ◌+◌, ◌*◌, ◌/◌, ◌%◌, ◌^◌, ◌<◌, ◌≡◌, arith, bit_and}
use ximg.Prelude.Bits.{◌>>>◌}
use ximg.Prelude.Masks.{bit_and-63}
use ximg.Md5.{Md5State, add_count}

-- The two words hold the bit count of a message of `n` bytes.
pub record Counts (s : Md5State) (n : ℕ) : Type 0 where
  pub low : s.count0 ≡ n * 8 % 2 ^ 32
  pub high : s.count1 ≡ n * 8 / 2 ^ 32 % 2 ^ 32

pub add_count-Counts :
    (s : Md5State) (n m : ℕ) → m < 2 ^ 31 → Counts s n → Counts (add_count s m) (n + m)
unfolding add_count
add_count-Counts s n m h c = record {
  low = omega (arith, c.low);
  high = ground (arith, c.low, c.high);
}

-- The offset in the block buffer is the length of the message modulo 64.
pub offset_lem : (s : Md5State) (n : ℕ) → Counts s n → bit_and (s.count0 >>> 3) 63 ≡ n % 64
offset_lem s n c = omega (arith, bit_and-63 (s.count0 / 2 ^ 3), c.low)
