-- ===== src/Task/Wait/Remaining.antt =====
-- The time that is left of a wait, measured against the tick counter.
use ahura_kernel.Prelude.{ℕ, ◌+◌, ◌-◌, ◌%◌, ◌^◌, ◌<◌, ◌≡◌, ap, ◌∙◌, arith, ◌==◌, if◌then◌else◌}
use ahura_kernel.Task.State.{Kernel, wait_forever}
use ahura_kernel.Task.Wait.{ticks_since, wait_remaining}

-- The difference of two readings of a 32-bit counter is the time between them, also if the counter
-- has wrapped around meanwhile.
wrapped : (s d : ℕ) → s < 2 ^ 32 → d < 2 ^ 32 → ((s + d) % 2 ^ 32 + 2 ^ 32 - s) % 2 ^ 32 ≡ d
wrapped s d hs hd = omega arith

-- If `d` ticks, less than 2^32, have passed since the wait began, the rest of a finite budget is what
-- exceeds them, and 0 if it is used up, also if the tick counter has wrapped around; a wait forever
-- stays one.
pub wait_remaining-after :
    (budget_ticks start_tick d : ℕ) (k : Kernel)
    → start_tick < 2 ^ 32
    → d < 2 ^ 32
    → k.tick_count ≡ (start_tick + d) % 2 ^ 32
    → wait_remaining budget_ticks start_tick k
      ≡ (if budget_ticks == wait_forever then wait_forever else budget_ticks - d)
unfolding wait_remaining ticks_since
wait_remaining-after budget_ticks start_tick d k hs hd e =
    let same : (k.tick_count + 2 ^ 32 - start_tick) % 2 ^ 32 ≡ d =
      ap (λ (n : ℕ). (n + 2 ^ 32 - start_tick) % 2 ^ 32) e ∙ wrapped start_tick d hs hd in
    ground (arith, same)
