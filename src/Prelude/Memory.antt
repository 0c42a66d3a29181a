-- ===== src/Prelude/Memory.antt =====
-- An array of bytes that the code fills: a store outside it is `none`, which C leaves undefined.
use ximg.Prelude.Lists.{Bytes, length, set, drop, length-set, length-append}
use ximg.Prelude.Tests.{ltb, if◌then◌else◌}
use Prim.Native.Nat.{ℕ, suc, ◌+◌, ◌≤◌}
use mathlib.Core.Path.{◌≡◌, refl, ap, ap₂, ◌∙◌}
use mathlib.Core.List.{[], ◌∷◌, ◌++◌, append_assoc}
use mathlib.Core.Option.{Option, none, some}
use native.Mathlib.Omega.{arith}

infixl 5 ◌>>=◌
abbrev pub ◌>>=◌ {ℓ κ} : {A : Type ℓ} {B : Type κ} → Option A → (A → Option B) → Option B
none >>= f = none
some a >>= f = f a

-- `out[i] = v`
abbrev pub store : Bytes → ℕ → ℕ → Option Bytes
store out i v = if ltb i (length out) then some (set out i v) else none

pub pair_eq : {a b : ℕ} {x y : Bytes} → a ≡ b → x ≡ y → ◌≡◌ {A = ℕ × Bytes} (a, x) (b, y)
pair_eq p q = ap₂ (λ (a : ℕ) (x : Bytes). (a, x)) p q

-- `bs` stored from index `k` on.
abbrev pub patch : Bytes → ℕ → Bytes → Bytes
patch out k [] = out
patch out k (b ∷ bs) = patch (set out k b) (k + 1) bs

pub length-patch : (bs : Bytes) (out : Bytes) (k : ℕ) → length (patch out k bs) ≡ length out
length-patch [] out k = refl
length-patch (b ∷ bs) out k = length-patch bs (set out k b) (k + 1) ∙ length-set out k b

pub patch-append :
    (xs ys : Bytes) (out : Bytes) (k : ℕ)
    → patch out k (xs ++ ys) ≡ patch (patch out k xs) (k + length xs) ys
patch-append [] ys out k = let e : k + 0 ≡ k = omega arith in rw e
patch-append (x ∷ xs) ys out k =
    let e : k + suc (length xs) ≡ k + 1 + length xs = omega arith in
    rw e (patch-append xs ys (set out k x) (k + 1))

set-append :
    (pre rs : Bytes) (r v : ℕ) → set (pre ++ (r ∷ rs)) (length pre) v ≡ (pre ++ (v ∷ [])) ++ rs
set-append [] rs r v = refl
set-append (p ∷ pre) rs r v = ap (◌∷◌ p) (set-append pre rs r v)

-- Filling from the end of `pre` on puts `bs` in place of as many old bytes.
pub patch-drop :
    (bs pre rest : Bytes)
    → length bs ≤ length rest
    → patch (pre ++ rest) (length pre) bs ≡ pre ++ (bs ++ drop (length bs) rest)
patch-drop [] pre rest h = refl
patch-drop (b ∷ bs) pre [] h = absurd (omega arith)
patch-drop (b ∷ bs) pre (r ∷ rs) h =
    let e : length pre + 1 ≡ length (pre ++ (b ∷ [])) = omega (arith, length-append pre (b ∷ [])) in
    rw (set-append pre rs r b, e)
      (patch-drop bs (pre ++ (b ∷ [])) rs (omega arith) ∙ append_assoc pre (b ∷ []) _)
