-- ===== src/Timer/Service.antt =====
-- The timer task of core/os_timer.c, up to the call of the callback.
use ahura_kernel.Prelude.{
  ℕ, zero, suc, ◌+◌, ◌≡◌, ◌⊎◌, inl, inr, refl, Bool, true, false, not, ◌||◌, if◌then◌else◌,
  Bool-cases, Option-cases, Option, none, some,
}
use ahura_kernel.Task.State.{Kernel, wait_forever}
use ahura_kernel.Task.Wait.{sleep_ticks}
use ahura_kernel.Timer.{Timers, fetch_from, expired_fetch}

-- The registry that os_timer_system_init leaves
unfoldable pub registry_cleared : Timers → Timers
registry_cleared s = record s { registry = λ i. none }

-- The test of os_timer_expired_exists on a slot
abbrev pub is_noted : Option ℕ → Timers → Bool
is_noted none s = false
is_noted (some t) s = (s.timer t).expired

-- The loop of os_timer_expired_exists, with `n` slots left from slot `i` on.
unfoldable pub noted_from : ℕ → ℕ → Timers → Bool
noted_from zero i s = false
noted_from (suc n) i s = is_noted (s.registry i) s || noted_from n (i + 1) s

-- os_timer_expired_exists
unfoldable pub expired_exists : Timers → Bool
unfolding noted_from
expired_exists s = noted_from s.max_timers 0 s

-- One round of os_timer_task_entry: the callback that it makes, or how the task blocks.
unfoldable pub timer_round : Timers → Kernel → Option (ℕ × ℕ) × Timers × Kernel
unfolding expired_fetch expired_exists
timer_round s k =
    let (found, s') = expired_fetch s in
    elim found [
      | some c ↦ (some c, s', k)
      | none ↦ (none, s', if not (expired_exists s') then sleep_ticks wait_forever k else k)
    ]

fetch_from-noted :
    (n i : ℕ) (s : Timers)
    → ((noted_from n i s ≡ true) × (c : ℕ × ℕ) × ((fetch_from n i s).0 ≡ some c))
      ⊎ ((noted_from n i s ≡ false) × (fetch_from n i s ≡ (none, s)))
unfolding noted_from fetch_from
fetch_from-noted zero i s = inr (refl, refl)
fetch_from-noted (suc n) i s = elim (Option-cases (s.registry i)) [
  | inl free ↦ rw (free, fetch_from) (fetch_from-noted n (i + 1) s)
  | inr (t, taken) ↦ elim (Bool-cases ((s.timer t).expired)) [
    | inl noted ↦
        rw (taken, noted, fetch_from)
          (inl (refl, ((s.timer t).callback, (s.timer t).context), refl))
    | inr quiet ↦ rw (taken, quiet, fetch_from) (fetch_from-noted n (i + 1) s)
  ]
]

-- A round of the timer task makes a callback if an expiry is noted in the registry, and blocks
-- exactly if none is, in which case no timer is written: no noted expiry is slept over.
pub timer_round-serves :
    (s : Timers) (k : Kernel)
    → ((expired_exists s ≡ true)
        × (c : ℕ × ℕ) × (timer_round s k ≡ (some c, (expired_fetch s).1, k)))
      ⊎ ((expired_exists s ≡ false) × (timer_round s k ≡ (none, s, sleep_ticks wait_forever k)))
unfolding timer_round expired_exists expired_fetch
timer_round-serves s k = elim (fetch_from-noted s.max_timers 0 s) [
  | inl (noted, c, found) ↦ inl (noted, c, rw (found, timer_round) refl)
  | inr (quiet, nothing) ↦
      inr (quiet, rw (nothing, timer_round, nothing, expired_exists, quiet) refl)
]
