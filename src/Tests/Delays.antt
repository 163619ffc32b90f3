-- ===== src/Tests/Delays.antt =====
-- The theorems on core/os_delay.c across a wrap of the counters.
use ahura_kernel.Prelude.{ℕ, ◌+◌, ◌*◌, ◌-◌, ◌^◌, ◌≤◌, ◌<◌, ◌≡◌, refl, [], ◌∷◌, ◌++◌, map, arith}
use ahura_kernel.Delay.{woken, slept, finite_ticks, ticks_of_ms, delay_ms, cycle_wait}
use ahura_kernel.Delay.Sleeps.{EndsIn, delay_ms-EndsIn}
use ahura_kernel.Delay.Polls.{Waits}
use ahura_kernel.Delay.Cycles.{cycle_wait-Waits}

five_ticks : finite_ticks (ticks_of_ms 1000 5) ≡ 5
unfolding ticks_of_ms
five_ticks = refl

delay_ms-EndsIn_example :
    (ticks : ℕ) × (5 * 1000 ≤ ticks * 1000)
    × (ticks * 1000 < 5 * 1000 + 1000)
    × EndsIn
        (2 ^ 32 - 2)
        ticks
        1
        (delay_ms 1000 5 (2 ^ 32 - 2) (map woken (2 ∷ 0 ∷ []) ++ slept 1 ∷ []))
delay_ms-EndsIn_example =
    delay_ms-EndsIn 1000 5 (2 ^ 32 - 2) 1 (2 ∷ 0 ∷ []) [] (omega arith) (omega arith) (omega arith)
      (omega (arith, five_ticks))

cycle_wait-Waits_example :
    Waits
      (2 ^ 32 - 1)
      (2 + 3)
      4
      (2 ∷ 2 ∷ 1 ∷ 1 ∷ [])
      (cycle_wait 1 3 (2 ^ 32 - 1) (2 ∷ 2 ∷ 1 ∷ 1 ∷ []))
cycle_wait-Waits_example =
    cycle_wait-Waits 1 3 (2 ^ 32 - 1) (2 ∷ 2 ∷ 1 ∷ 1 ∷ []) (omega arith) (omega arith)
      (
        omega arith,
        omega arith,
        (omega arith, omega arith, (omega arith, omega arith, (omega arith, omega arith, tt))),
      )
      (omega arith)
