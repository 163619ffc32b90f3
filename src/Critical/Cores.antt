-- ===== src/Critical/Cores.antt =====
-- The cores' calls of core/os_critical.c, in every order in which they can interleave.
use ahura_kernel.Prelude.{ℕ, ◌≡◌, ◌≢◌, Bool, true, false, not, ◌||◌, ◌==◌, update}
use ahura_kernel.Critical.{
  Locks, locks_init, mask_save, enter_counted, critical_exit, multicore_lock, multicore_unlock,
}

-- Where a core is: outside the calls, in os_critical_enter with its mask saved, or between
-- os_critical_multicore_lock and os_critical_multicore_unlock.
pub data Place : Type 0 where
  free : Place
  entering : ℕ → Place
  walking : Place

pub record Cores : Type 0 where
  pub locks : Locks
  pub place : ℕ → Place

abbrev pub cores_init : Cores
cores_init = record { locks = locks_init; place = λ _. Place.free }

-- One step of one core. A core that finds the lock taken takes no step: it spins.
pub data Step (s : Cores) : Cores → Type 0 where
  raise :
      (core : ℕ)
      → s.place core ≡ Place.free
      → Step s (record {
        locks = (mask_save core s.locks).1;
        place = update s.place core (Place.entering (mask_save core s.locks).0);
      })
  acquire :
      (core mask_state : ℕ)
      → s.place core ≡ Place.entering mask_state
      → s.locks.nesting core ≡ 0
      → s.locks.locked ≡ false
      → Step s (record {
        locks = enter_counted core mask_state s.locks;
        place = update s.place core Place.free;
      })
  deepen :
      (core mask_state : ℕ)
      → s.place core ≡ Place.entering mask_state
      → s.locks.nesting core ≢ 0
      → Step s (record {
        locks = enter_counted core mask_state s.locks;
        place = update s.place core Place.free;
      })
  leave :
      (core : ℕ)
      → s.place core ≡ Place.free
      → Step s (record s { locks = critical_exit core s.locks })
  lock :
      (core : ℕ)
      → s.place core ≡ Place.free
      → s.locks.locked ≡ false
      → Step s
          (record { locks = multicore_lock s.locks; place = update s.place core Place.walking })
  unlock :
      (core : ℕ)
      → s.place core ≡ Place.walking
      → Step s (record { locks = multicore_unlock s.locks; place = update s.place core Place.free })

-- The states that the cores reach from reset.
pub data Reach : Cores → Type 0 where
  start : Reach cores_init
  later : {s t : Cores} → Reach s → Step s t → Reach t

abbrev pub is_walking : Place → Bool
is_walking Place.walking = true
is_walking _ = false

-- Whether the core is in the kernel: in a critical section or in a scheduler walk.
abbrev pub is_inside : Cores → ℕ → Bool
is_inside s core = not (s.locks.nesting core == 0) || is_walking (s.place core)
