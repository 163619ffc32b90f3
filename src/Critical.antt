-- ===== src/Critical.antt =====
-- core/os_critical.c: the critical section, over the interrupt masks of the cores (PRIMASK, as
-- arch/arm/common/os_arch_port_common.h saves and restores it) and the one kernel spinlock.
pub mod Cores
pub mod Exclusion
pub mod Nested
use ahura_kernel.Prelude.{ℕ, ◌+◌, ◌-◌, ◌%◌, ◌^◌, Bool, true, false, ◌==◌, if◌then◌else◌, update}

-- os_critical_kernel_lock, os_critical_nesting_count, os_critical_saved_mask, and the PRIMASK of
-- each core.
pub record Locks : Type 0 where
  pub locked : Bool
  pub nesting : ℕ → ℕ
  pub saved : ℕ → ℕ
  pub mask : ℕ → ℕ

-- Reset: nothing is masked, and the lock is OS_ARCH_SPINLOCK_INIT.
abbrev pub locks_init : Locks
locks_init = record { locked = false; nesting = λ _. 0; saved = λ _. 0; mask = λ _. 0 }

-- os_arch_kernel_mask_save
abbrev pub mask_save : ℕ → Locks → ℕ × Locks
mask_save core s = (s.mask core, record s { mask = update s.mask core 1 })

-- os_arch_kernel_mask_restore
abbrev pub mask_restore : ℕ → ℕ → Locks → Locks
mask_restore core saved_state s =
    if saved_state == 0 then record s { mask = update s.mask core 0 } else s

-- The acquire once the lock is seen free, and the release.
abbrev pub spinlock_acquire : Locks → Locks
spinlock_acquire s = record s { locked = true }

abbrev pub spinlock_release : Locks → Locks
spinlock_release s = record s { locked = false }

-- os_critical_enter after the mask is saved
unfoldable pub enter_counted : ℕ → ℕ → Locks → Locks
enter_counted core mask_state s =
    let s1 =
      (if s.nesting core == 0
        then record (spinlock_acquire s) { saved = update s.saved core mask_state }
        else s) in
    record s1 { nesting = update s1.nesting core ((s1.nesting core + 1) % 2 ^ 32) }

-- os_critical_enter, where the lock is free or held by this core
unfoldable pub critical_enter : ℕ → Locks → Locks
unfolding enter_counted
critical_enter core s = let (mask_state, s1) = mask_save core s in enter_counted core mask_state s1

-- os_critical_exit
unfoldable pub critical_exit : ℕ → Locks → Locks
critical_exit core s =
    if s.nesting core == 0
    then s
    else let s1 = record s { nesting = update s.nesting core (s.nesting core - 1) } in
      if s1.nesting core == 0 then mask_restore core (s1.saved core) (spinlock_release s1) else s1

-- os_critical_multicore_lock and os_critical_multicore_unlock
abbrev pub multicore_lock : Locks → Locks
multicore_lock = spinlock_acquire

abbrev pub multicore_unlock : Locks → Locks
multicore_unlock = spinlock_release
