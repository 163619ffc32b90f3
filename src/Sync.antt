-- ===== src/Sync.antt =====
-- The frame that the blocking calls of core/ share: os_semaphore_take, os_mutex_lock,
-- os_event_wait_bits and os_notify_wait. Each is a loop, whose round either returns or blocks the
-- caller and hands over the core: a round is one function, and what the call does when the caller
-- runs again is another.
pub mod Valid
use ahura_kernel.Prelude.{ℕ, Bool, true, false, not, ◌||◌, ◌==◌}
use ahura_kernel.Task.State.{Kernel, Status, ok, wait_nothing}
use ahura_kernel.Task.Wait.{can_block, timeout_to_ticks, wait_remaining}

-- How a round ends: the call returns, or the caller is blocked.
pub data Turn : Type 0 where
  returns : Status → Turn
  blocks : Turn

-- Whether a status is `OS_STATUS_OK`.
abbrev pub is_ok : Status → Bool
is_ok ok = true
is_ok _ = false

-- Whether the call has returned `OS_STATUS_OK`.
abbrev pub done_ok : Turn → Bool
done_ok (returns ok) = true
done_ok (returns _) = false
done_ok blocks = false

-- The local variables of a blocking call.
pub record Budget : Type 0 where
  pub timeout_ms : ℕ
  pub budget_ticks : ℕ
  pub start_tick : ℕ
  pub remaining_ticks : ℕ

-- Their values before the first round.
unfoldable pub budget_of : ℕ → Kernel → Budget
budget_of timeout_ms k = record {
  timeout_ms = timeout_ms;
  budget_ticks = timeout_to_ticks timeout_ms;
  start_tick = k.tick_count;
  remaining_ticks = timeout_to_ticks timeout_ms;
}

-- `remaining_ticks = os_internal_wait_remaining(budget_ticks, start_tick)`
unfoldable pub recompute : Budget → Kernel → Budget
recompute b k = record b { remaining_ticks = wait_remaining b.budget_ticks b.start_tick k }

-- The test of the branch that returns without waiting.
abbrev pub must_not_wait : Budget → Kernel → Bool
must_not_wait b k = b.timeout_ms == wait_nothing || not (can_block k)
