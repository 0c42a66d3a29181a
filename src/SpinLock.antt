-- ===== src/SpinLock.antt =====
-- src/zspinlock.c with GCC: the lock that the log uses. `spin` is the field `spin_`, and `holding` says
-- which threads are between `spin_lock`, or a `spin_trylock` that succeeds, and `spin_unlock`. Each
-- `__sync` call is one step.
pub mod Exclusion
use ximg.Prelude.{ℕ, ◌+◌, Bool, true, false, not, ◌==◌, if◌then◌else◌, bit_and, bit_or, ◌≡◌}

pub record LockState : Type 0 where
  pub spin : ℕ
  pub holding : ℕ → Bool

-- `__sync_fetch_and_or` and `__sync_and_and_fetch`: the value that is returned and the new one.
abbrev pub fetch_and_or : ℕ → ℕ → ℕ × ℕ
fetch_and_or value n = (value, bit_or value n)

abbrev pub and_and_fetch : ℕ → ℕ → ℕ × ℕ
and_and_fetch value n = (bit_and value n, bit_and value n)

abbrev pub now_holding : (ℕ → Bool) → ℕ → Bool → ℕ → Bool
now_holding holding t b = λ u. if u == t then b else holding u

unfoldable pub spin_init : LockState → LockState
spin_init s = record { spin = (and_and_fetch s.spin 0).1; holding = λ t. false }

-- The result 1 is `true`.
unfoldable pub spin_trylock : LockState → ℕ → LockState × Bool
spin_trylock s t =
    let r = fetch_and_or s.spin 1 in
    if r.0 == 0
    then (record { spin = r.1; holding = now_holding s.holding t true }, true)
    else (record s { spin = r.1 }, false)

-- One turn of the loop of `spin_lock`, and whether the loop ends.
unfoldable pub spin_lock : LockState → ℕ → LockState × Bool
spin_lock s t =
    let r = fetch_and_or s.spin 1 in
    if not (r.0 == 0)
    then (record s { spin = r.1 }, false)
    else (record { spin = r.1; holding = now_holding s.holding t true }, true)

unfoldable pub spin_unlock : LockState → ℕ → LockState
spin_unlock s t = record {
  spin = (and_and_fetch s.spin 0).1;
  holding = now_holding s.holding t false;
}

unfoldable pub spin_is_lock : LockState → ℕ
spin_is_lock s = s.spin + 0

-- The steps of the threads, in any order. Only a thread that holds the lock unlocks it.
pub data Move (s : LockState) : LockState → Type 0 where
  turned : {s' : LockState} (t : ℕ) → s' ≡ (spin_lock s t).0 → Move s s'
  tried : {s' : LockState} (t : ℕ) → s' ≡ (spin_trylock s t).0 → Move s s'
  unlocked : {s' : LockState} (t : ℕ) → s.holding t ≡ true → s' ≡ spin_unlock s t → Move s s'

-- The states behind `spin_init` and any number of steps.
pub data Reachable : LockState → Type 0 where
  started : {s' : LockState} (s : LockState) → s' ≡ spin_init s → Reachable s'
  moved : {s s' : LockState} → Reachable s → Move s s' → Reachable s'
