-- ===== src/Semaphore.antt =====
-- core/os_semaphore.c
pub mod Tokens
use ahura_kernel.Prelude.{
  ℕ, ◌+◌, ◌-◌, Bool, true, false, not, ◌||◌, ltb, leb, ◌==◌, is_empty, if◌then◌else◌, Option, none,
  some, [],
}
use ahura_kernel.Task.State.{
  Kernel, WaiterList, Status, ok, invalid_arg, empty, full, busy, timeout,
}
use ahura_kernel.Task.Wake.{waiters_wake_one}
use ahura_kernel.Task.Wait.{wait_begin, wait_end, wait_signaled}
use ahura_kernel.Sync.{Turn, returns, blocks, Budget, budget_of, recompute, must_not_wait}

-- `os_semaphore_t`; its waiters are the list at `waiters` of the kernel.
pub record Semaphore : Type 0 where
  pub count : ℕ
  pub max_count : ℕ
  pub waiters : WaiterList

-- os_semaphore_init
unfoldable pub init : Semaphore → ℕ → ℕ → Kernel → Status × Semaphore
init s initial_count max_count k =
    if max_count == 0 || ltb max_count initial_count
    then (invalid_arg, s)
    else if not (is_empty (k.waiters s.waiters))
    then (busy, s)
    else (ok, record s { count = initial_count; max_count = max_count })

-- os_semaphore_give
unfoldable pub give : Semaphore → Kernel → Status × Semaphore × Kernel
give s k =
    if leb s.max_count s.count
    then (full, s, k)
    else (ok, record s { count = s.count + 1 }, (waiters_wake_one s.waiters k).1)

-- One round of os_semaphore_take
unfoldable pub take_round : Budget → Semaphore → Kernel → Turn × Semaphore × Kernel
take_round b s k =
    if ltb 0 s.count
    then (returns ok, record s { count = s.count - 1 }, wait_end k)
    else if must_not_wait b k
    then (returns empty, s, wait_end k)
    else if b.remaining_ticks == 0
    then (returns timeout, s, wait_end k)
    else (blocks, s, wait_begin s.waiters b.remaining_ticks k)

-- os_semaphore_take up to where it returns or blocks
unfoldable pub take : ℕ → Semaphore → Kernel → Turn × Semaphore × Kernel
take timeout_ms s k = take_round (budget_of timeout_ms k) s k

-- os_semaphore_take when its caller runs again: one more round if it was signaled.
unfoldable pub take_resumed : Budget → Semaphore → Kernel → Budget × Turn × Semaphore × Kernel
take_resumed b s k =
    let b' = recompute b k in
    let (turn, s', k') = take_round b' s k in
    if wait_signaled k then (b', turn, s', k') else (b, returns timeout, s, wait_end k)
