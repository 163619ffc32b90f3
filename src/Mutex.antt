-- ===== src/Mutex.antt =====
-- core/os_mutex.c
pub mod Owner
pub mod Boost
use ahura_kernel.Prelude.{ℕ, Bool, true, false, not, ◌&&◌, ◌||◌, ◌==◌, is_empty, if◌then◌else◌}
use ahura_kernel.Task.State.{
  Kernel, WaiterList, Status, ok, error, invalid_arg, busy, timeout, not_owner,
}
use ahura_kernel.Task.Wake.{waiters_wake_one}
use ahura_kernel.Task.Wait.{wait_begin, wait_end, wait_signaled, current_id_get}
use ahura_kernel.Task.Inherit.{owner_link, priority_inherit, owner_unlink_and_reprioritize}
use ahura_kernel.Sync.{Turn, returns, blocks, Budget, budget_of, recompute, must_not_wait}

-- `os_mutex_t`. The list at `waiters` of the kernel holds its waiters, and the address names the
-- mutex in the owner's list too.
pub record Mutex : Type 0 where
  pub locked : Bool
  pub owner_id : ℕ
  pub waiters : WaiterList

-- os_mutex_init
unfoldable pub init : Mutex → Kernel → Status × Mutex
init m k =
    if not (is_empty (k.waiters m.waiters))
    then (busy, m)
    else (ok, record m { locked = false; owner_id = 0 })

-- One round of os_mutex_lock by the task `self_id`
unfoldable pub lock_round : ℕ → Budget → Mutex → Kernel → Turn × Mutex × Kernel
lock_round self_id b m k =
    if not m.locked
    then (
      returns ok,
      record m { locked = true; owner_id = self_id },
      wait_end (owner_link m.waiters k),
    )
    else if (not (self_id == 0) && m.owner_id == self_id) || must_not_wait b k
    then (returns busy, m, wait_end k)
    else if b.remaining_ticks == 0
    then (returns timeout, m, wait_end k)
    else (blocks, m, wait_begin m.waiters b.remaining_ticks (priority_inherit m.owner_id k))

-- os_mutex_lock up to where it returns or blocks
unfoldable pub lock : ℕ → Mutex → Kernel → Turn × Mutex × Kernel
lock timeout_ms m k =
    if k.in_isr
    then (returns invalid_arg, m, k)
    else lock_round (current_id_get k) (budget_of timeout_ms k) m k

-- os_mutex_lock when its caller runs again: one more round if it was signaled.
unfoldable pub lock_resumed : ℕ → Budget → Mutex → Kernel → Budget × Turn × Mutex × Kernel
lock_resumed self_id b m k =
    let b' = recompute b k in
    let (turn, m', k') = lock_round self_id b' m k in
    if wait_signaled k then (b', turn, m', k') else (b, returns timeout, m, wait_end k)

-- os_mutex_try_lock
unfoldable pub try_lock : Mutex → Kernel → Turn × Mutex × Kernel
try_lock m k = lock 0 m k

-- The last branch of os_mutex_unlock
unfoldable pub hand_over : Mutex → Kernel → Mutex × Kernel
hand_over m k = (
  record m { locked = false; owner_id = 0 },
  (waiters_wake_one m.waiters (owner_unlink_and_reprioritize m.owner_id m.waiters k)).1,
)

-- os_mutex_unlock
unfoldable pub unlock : Mutex → Kernel → Status × Mutex × Kernel
unlock m k =
    let self_id = current_id_get k in
    if k.in_isr
    then (invalid_arg, m, k)
    else if not m.locked
    then (error, m, k)
    else if not (m.owner_id == 0) && not (self_id == 0) && not (m.owner_id == self_id)
    then (not_owner, m, k)
    else let (m', k') = hand_over m k in (ok, m', k')
