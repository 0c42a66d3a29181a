-- ===== src/Tests/Lock.antt =====
-- The theorems on the lock and on the conversion at concrete states.
use ximg.Prelude.{ℕ, true, false, ◌≡◌, ◌⊎◌, refl}
use ximg.Prelude.{arith}
use ximg.Prelude.Int.{pos, negsuc}
use ximg.Http.{int_of_pos}
use ximg.Scale.{crop, fit}
use ximg.Scale.Crop.{IsInside, crop-IsInside}
use ximg.SpinLock.{
  LockState, spin_init, spin_lock, spin_trylock, spin_unlock, turned, tried, Reachable, started,
  moved,
}
use ximg.SpinLock.Exclusion.{IsExclusive, Reachable-IsExclusive, spin_lock_progress}

abbrev fresh_lock : LockState
fresh_lock = record { spin = 7; holding = λ t. false }

-- Thread 1 has the lock, and thread 2 has tried to get it.
abbrev contended : LockState
contended = (spin_trylock (spin_lock (spin_init fresh_lock) 1).0 2).0

contended-Reachable : Reachable contended
contended-Reachable = moved (moved (started fresh_lock refl) (turned 1 refl)) (tried 2 refl)

Reachable-IsExclusive_example : IsExclusive contended
Reachable-IsExclusive_example = Reachable-IsExclusive contended contended-Reachable

spin_lock_progress_example :
    ((spin_lock contended 2).1 ≡ true)
    ⊎ ((u : ℕ) × (contended.holding u ≡ true) × ((spin_lock (spin_unlock contended u) 2).1 ≡ true))
spin_lock_progress_example = spin_lock_progress contended 2 contended-Reachable

-- The size 0 for the height, and a width that is larger than what is left.
crop-IsInside_example : IsInside 640 480 (record { cols = 140; rows = 480; x = 500; y = 0 })
unfolding crop fit int_of_pos
crop-IsInside_example =
    crop-IsInside 640 480 300 0 (omega arith) (omega arith) (pos 500) (negsuc 4)
      (record { cols = 140; rows = 480; x = 500; y = 0 }) refl
