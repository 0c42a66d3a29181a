-- ===== src/SpinLock/Exclusion.antt =====
-- At most one thread holds the lock, and a lock that is taken has a holder.
use ximg.Prelude.{
  ℕ, Bool, true, false, ◌==◌, ◌≡◌, ◌⊎◌, refl, sym, subst, ap, ◌∙◌, arith, inl, inr, Bool-cases,
}
use ximg.Prelude.Masks.{bit_and-zero}
use ximg.SpinLock.{
  LockState, spin_init, spin_lock, spin_trylock, spin_unlock, now_holding, Move, turned, tried,
  unlocked, Reachable, started, moved,
}

pub record IsExclusive (s : LockState) : Type 0 where
  pub is_bit : (s.spin ≡ 0) ⊎ (s.spin ≡ 1)
  pub free : s.spin ≡ 0 → (t : ℕ) → s.holding t ≡ false
  pub one : (t u : ℕ) → s.holding t ≡ true → s.holding u ≡ true → t ≡ u
  pub held : s.spin ≡ 1 → (t : ℕ) × (s.holding t ≡ true)

spin_trylock-IsExclusive :
    (s : LockState) (t : ℕ) → IsExclusive s → IsExclusive (spin_trylock s t).0
unfolding spin_trylock
spin_trylock-IsExclusive s t h = elim h.is_bit [
  | inl e ↦ rw e (record {
    is_bit = inr refl;
    free = λ bad. cc;
    one = λ u v hu hv. ground (arith, h.free e u, h.free e v);
    held = λ e1. (t, ground arith);
  })
  | inr e ↦
      rw e (record { is_bit = inr refl; free = λ bad. cc; one = h.one; held = λ e1. h.held e })
]

spin_lock-spin_trylock : (s : LockState) (t : ℕ) → spin_lock s t ≡ spin_trylock s t
unfolding spin_lock spin_trylock
spin_lock-spin_trylock s t = elim (Bool-cases (s.spin == 0)) [
  | inl e ↦ rw (spin_lock, spin_trylock, e) refl
  | inr e ↦ rw (spin_lock, spin_trylock, e) refl
]

spin_unlock-IsExclusive :
    (s : LockState) (t : ℕ) → s.holding t ≡ true → IsExclusive s → IsExclusive (spin_unlock s t)
unfolding spin_unlock
spin_unlock-IsExclusive s t mine h =
    let none_left : (u : ℕ) → now_holding s.holding t false u ≡ false = λ u.
      elim (Bool-cases (s.holding u)) [
        | inl e ↦ ground (arith, h.one u t e mine)
        | inr e ↦ ground (arith, e)
      ] in
    let zero_spin = bit_and-zero s.spin in
    record {
      is_bit = inl zero_spin;
      free = λ e u. none_left u;
      one = λ u v hu hv. let off = none_left u in cc;
      held = λ e. cc;
    }

spin_init-IsExclusive : (s : LockState) → IsExclusive (spin_init s)
unfolding spin_init
spin_init-IsExclusive s =
    let zero_spin = bit_and-zero s.spin in
    record { is_bit = inl zero_spin; free = λ e t. refl; one = λ t u ht hu. cc; held = λ e. cc }

Move-IsExclusive : (s s' : LockState) → Move s s' → IsExclusive s → IsExclusive s'
Move-IsExclusive s s' (turned t e) h =
    subst IsExclusive (sym (e ∙ ap (λ (r : LockState × Bool). r.0) (spin_lock-spin_trylock s t)))
      (spin_trylock-IsExclusive s t h)
Move-IsExclusive s s' (tried t e) h = subst IsExclusive (sym e) (spin_trylock-IsExclusive s t h)
Move-IsExclusive s s' (unlocked t mine e) h =
    subst IsExclusive (sym e) (spin_unlock-IsExclusive s t mine h)

-- In every state behind `spin_init` and any steps of any threads, in any order, of which only one that holds
-- the lock unlocks it, at most one thread holds
-- the lock; the lock's field is 0 or 1, no thread holds the lock where it is 0, and one does where it
-- is 1.
pub Reachable-IsExclusive : (s : LockState) → Reachable s → IsExclusive s
Reachable-IsExclusive s (started s0 e) = subst IsExclusive (sym e) (spin_init-IsExclusive s0)
Reachable-IsExclusive s (moved {s = s0} r m) = Move-IsExclusive s0 s m (Reachable-IsExclusive s0 r)

-- In every such state, a turn of `spin_lock` gets the lock for its thread, or some thread holds it, and
-- behind that thread's `spin_unlock` the turn gets it.
pub spin_lock_progress :
    (s : LockState) (t : ℕ)
    → Reachable s
    → ((spin_lock s t).1 ≡ true)
      ⊎ ((u : ℕ) × (s.holding u ≡ true) × ((spin_lock (spin_unlock s u) t).1 ≡ true))
unfolding spin_lock spin_unlock
spin_lock_progress s t r =
    let h = Reachable-IsExclusive s r in
    elim h.is_bit [
      | inl e ↦ inl (rw e refl)
      | inr e ↦
          let (u, mine) = h.held e in
          let zero_spin = bit_and-zero s.spin in inr (u, mine, rw zero_spin refl)
    ]
