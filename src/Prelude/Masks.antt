-- ===== src/Prelude/Masks.antt =====
-- `x & 63` and its like: a mask of low ones takes the remainder by a power of two.
use Prim.Native.Nat.{
  ℕ, zero, suc, ◌+◌, ◌*◌, ◌/◌, ◌%◌, ◌≤◌, min, ◌<◌, ◌-◌, ◌^◌, bit_and, digits, bit_and-bitwise,
}
use mathlib.Core.Path.{◌≡◌, refl, ap}
use native.Mathlib.Nat.{pow-suc, one-le-pow}
use native.Mathlib.Omega.{arith}

-- The recursion on binary digits that `&` stands for, cut off after `m` digits.
abbrev conj : ℕ → ℕ → ℕ → ℕ
conj m x y = digits (λ _. zero) min m x y

-- Digits beyond those of `x` do not matter.
conj_enough : (l m x y : ℕ) → x ≤ l → x ≤ m → conj l x y ≡ conj m x y
conj_enough zero zero x y hl hm = refl
conj_enough zero (suc m) zero y hl hm = refl
conj_enough (suc l) zero zero y hl hm = refl
conj_enough (suc l) (suc m) zero y hl hm = refl
conj_enough zero m (suc x) y hl hm = absurd (omega arith)
conj_enough (suc l) zero (suc x) y hl hm = absurd (omega arith)
conj_enough (suc l) (suc m) (suc x) y hl hm =
    rw (conj_enough l m (suc x / 2) (y / 2) (omega arith) (omega arith))

-- The lowest digit of `x & y`, and the others.
bit_and-halves : (x y : ℕ) → bit_and x y ≡ bit_and (x / 2) (y / 2) * 2 + min (x % 2) (y % 2)
bit_and-halves zero y = simp bit_and-bitwise (omega arith)
bit_and-halves (suc x) y =
    simp bit_and-bitwise
      (omega (arith, conj_enough x (suc x / 2) (suc x / 2) (y / 2) (omega arith) (omega arith)))

bit_and-zero_below : (bound x : ℕ) → x ≤ bound → bit_and x 0 ≡ 0
bit_and-zero_below zero zero h = refl
bit_and-zero_below zero (suc x) h = absurd (omega arith)
bit_and-zero_below (suc bound) x h =
    omega (arith, bit_and-halves x 0, bit_and-zero_below bound (x / 2) (omega arith))

bit_and-1 : (x : ℕ) → bit_and x 1 ≡ x % 2
bit_and-1 x = omega (arith, bit_and-halves x 1, bit_and-zero_below (x / 2) (x / 2) (omega arith))

pub bit_and-15 : (x : ℕ) → bit_and x 15 ≡ x % 16
bit_and-15 x = omega (
  arith,
  bit_and-halves x 15,
  bit_and-halves (x / 2) 7,
  bit_and-halves (x / 2 / 2) 3,
  bit_and-1 (x / 2 / 2 / 2),
)

pub bit_and-63 : (x : ℕ) → bit_and x 63 ≡ x % 64
bit_and-63 x = omega (arith, bit_and-halves x 63, bit_and-halves (x / 2) 31, bit_and-15 (x / 2 / 2))

mul-pow-suc : (q k : ℕ) → q * 2 ^ suc k ≡ 2 * (q * 2 ^ k)
mul-pow-suc q k = omega (arith, ap (λ (t : ℕ). q * t) (pow-suc 2 k))

-- Two words that are cut at the same bit.
pub bit_and-cut :
    (k x y u v : ℕ)
    → y < 2 ^ k
    → v < 2 ^ k
    → bit_and (x * 2 ^ k + y) (u * 2 ^ k + v) ≡ bit_and x u * 2 ^ k + bit_and y v
bit_and-cut zero x y u v hy hv =
    let ey : y ≡ 0 = omega arith in
    let ev : v ≡ 0 = omega arith in
    let ex : x * 2 ^ 0 + 0 ≡ x = omega arith in
    let eu : u * 2 ^ 0 + 0 ≡ u = omega arith in
    rw (ey, ev, ex, eu) (omega (arith, bit_and-halves 0 0))
bit_and-cut (suc k) x y u v hy hv = ground (
  arith,
  bit_and-halves (x * 2 ^ suc k + y) (u * 2 ^ suc k + v),
  bit_and-halves y v,
  mul-pow-suc x k,
  mul-pow-suc u k,
  mul-pow-suc (bit_and x u) k,
  pow-suc 2 k,
  bit_and-cut k x (y / 2) u (v / 2),
)

-- A mask of `k` ones leaves a word of `k` bits as it is.
pub bit_and_ones : (k q : ℕ) → q < 2 ^ k → bit_and q (2 ^ k - 1) ≡ q
bit_and_ones zero q h = let e : q ≡ 0 = omega arith in rw e (omega (arith, bit_and-halves 0 0))
bit_and_ones (suc k) q h =
    ground
      (arith, bit_and-halves q (2 ^ suc k - 1), pow-suc 2 k, one-le-pow k 2, bit_and_ones k (q / 2))

pub bit_and-zero : (x : ℕ) → bit_and x 0 ≡ 0
bit_and-zero x = bit_and-zero_below x x (omega arith)

bit_and-le_below : (bound x y : ℕ) → x ≤ bound → bit_and x y ≤ x
bit_and-le_below zero zero y h = omega (arith, bit_and-halves 0 y, bit_and-bitwise 0 (y / 2))
bit_and-le_below zero (suc x) y h = absurd (omega arith)
bit_and-le_below (suc bound) zero y h = omega (arith, bit_and-bitwise 0 y)
bit_and-le_below (suc bound) (suc x) y h =
    omega
      (arith, bit_and-halves (suc x) y, bit_and-le_below bound (suc x / 2) (y / 2) (omega arith))

pub bit_and-le : (x y : ℕ) → bit_and x y ≤ x
bit_and-le x y = bit_and-le_below x x y (omega arith)
