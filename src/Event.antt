-- ===== src/Event.antt =====
-- core/os_event.c
pub mod Deliver
pub mod Clear
pub mod Asked
use ahura_kernel.Prelude.{
  ℕ, ◌+◌, ◌-◌, bit_and, bit_or, Bool, true, false, not, ◌&&◌, ◌||◌, ◌==◌, is_empty, if◌then◌else◌,
}
use ahura_kernel.Prelude.Bits.{complement}
use ahura_kernel.Task.State.{Kernel, WaiterList, Status, ok, invalid_arg, busy, timeout}
use ahura_kernel.Task.Wake.{waiters_wake_match}
use ahura_kernel.Task.Wait.{wait_begin, wait_end, wait_signaled, wait_data_set, wait_result_get}
use ahura_kernel.Sync.{Turn, returns, blocks, Budget, budget_of, recompute, must_not_wait}

-- `os_event_t`; its waiters are the list at `waiters` of the kernel.
pub record Event : Type 0 where
  pub flags : ℕ
  pub waiters : WaiterList

-- `os_event_match_context_t`
pub record MatchContext : Type 0 where
  pub flags_snapshot : ℕ
  pub clear_accum : ℕ

-- `x & ~y` on 32-bit words
abbrev pub clear_word : ℕ → ℕ → ℕ
clear_word x y = bit_and x (complement 32 y)

-- `OS_EVENT_WAIT_ALL_FLAG` and `OS_EVENT_CLEAR_ON_EXIT_FLAG`
abbrev pub wait_all_flag : ℕ
wait_all_flag = 1

abbrev pub clear_on_exit_flag : ℕ
clear_on_exit_flag = 2

-- Whether the flags satisfy a request for `bits`.
unfoldable pub satisfies : Bool → ℕ → ℕ → Bool
satisfies wait_all bits matched = if wait_all then matched == bits else not (matched == 0)

-- os_event_waiter_match. The result of a waiter that is not satisfied is not read.
unfoldable pub waiter_match : ℕ → ℕ → MatchContext → Bool × ℕ × MatchContext
unfolding satisfies
waiter_match data0 data1 c =
    let matched = bit_and c.flags_snapshot data0 in
    let satisfied = satisfies (not (bit_and data1 wait_all_flag == 0)) data0 matched in
    (
      satisfied,
      matched,
      if satisfied && not (bit_and data1 clear_on_exit_flag == 0)
          then record c { clear_accum = bit_or c.clear_accum data0 }
          else c,
    )

-- os_event_init
unfoldable pub init : Event → Kernel → Status × Event
init e k = if not (is_empty (k.waiters e.waiters)) then (busy, e) else (ok, record e { flags = 0 })

-- os_event_set_bits
unfoldable pub set_bits : ℕ → Event → Kernel → Status × Event × Kernel
set_bits bits e k =
    let flags = bit_or e.flags bits in
    let (woken, c, k') =
      waiters_wake_match e.waiters waiter_match (record { flags_snapshot = flags; clear_accum = 0 })
        k in
    (ok, record e { flags = clear_word flags c.clear_accum }, k')

-- os_event_clear_bits
unfoldable pub clear_bits : ℕ → Event → Status × Event
clear_bits bits e = (ok, record e { flags = clear_word e.flags bits })

-- `bits`, `wait_all` and `clear_on_exit`
pub record Request : Type 0 where
  pub bits : ℕ
  pub wait_all : Bool
  pub clear_on_exit : Bool

-- `wait_flags`
unfoldable pub wait_flags : Request → ℕ
wait_flags r =
    bit_or (if r.wait_all then wait_all_flag else 0)
      (if r.clear_on_exit then clear_on_exit_flag else 0)

-- One round of os_event_wait_bits, with `*matched_bits`
unfoldable pub wait_round : Request → Budget → Event → Kernel → Turn × ℕ × Event × Kernel
unfolding wait_flags satisfies
wait_round r b e k =
    let current_flags = bit_and e.flags r.bits in
    if satisfies r.wait_all r.bits current_flags
    then (
      returns ok,
      current_flags,
      if r.clear_on_exit then record e { flags = clear_word e.flags r.bits } else e,
      wait_end k,
    )
    else if must_not_wait b k
    then (returns busy, current_flags, e, wait_end k)
    else if b.remaining_ticks == 0
    then (returns timeout, current_flags, e, wait_end k)
    else (
      blocks,
      current_flags,
      e,
      wait_begin e.waiters b.remaining_ticks (wait_data_set r.bits (wait_flags r) k),
    )

-- os_event_wait_bits up to where it returns or blocks; `matched_bits` is what the variable holds.
unfoldable pub wait_bits : Request → ℕ → ℕ → Event → Kernel → Turn × ℕ × Event × Kernel
unfolding wait_round
wait_bits r timeout_ms matched_bits e k =
    if r.bits == 0
    then (returns invalid_arg, matched_bits, e, k)
    else wait_round r (budget_of timeout_ms k) e k

-- os_event_wait_bits when its caller runs again
unfoldable pub wait_resumed :
    Request → Budget → ℕ → Event → Kernel → Budget × Turn × ℕ × Event × Kernel
unfolding wait_round
wait_resumed r b matched_bits e k =
    let b' = recompute b k in
    let (turn, bits, e', k') = wait_round r b' e k in
    let delivered = wait_result_get k in
    if not (wait_signaled k)
    then (b, returns timeout, matched_bits, e, wait_end k)
    else if not (delivered == 0)
    then (b, returns ok, delivered, e, wait_end k)
    else (b', turn, bits, e', k')
