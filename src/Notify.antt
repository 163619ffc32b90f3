-- ===== src/Notify.antt =====
-- core/os_notify.c
pub mod Mailbox
use ahura_kernel.Prelude.{
  ℕ, Bool, true, false, not, ◌&&◌, ◌||◌, ◌==◌, if◌then◌else◌, Option, none, some,
}
use ahura_kernel.Task.State.{
  Kernel, Task, idle, NotifySlot, Status, ok, invalid_arg, empty, timeout, set_tcb, is_blocked,
}
use ahura_kernel.Task.Sched.{find_by_id}
use ahura_kernel.Task.Wake.{wake_locked}
use ahura_kernel.Task.Wait.{sleep_ticks}
use ahura_kernel.Sync.{Turn, returns, blocks, Budget, budget_of, recompute, must_not_wait}

-- `*os_task_notify_slot(t) = s`
abbrev pub set_slot : Kernel → Task → NotifySlot → Kernel
set_slot k t s = set_tcb k t (record (k.tcb t) { notify = s })

-- The part of os_notify_give for a task that was found.
unfoldable pub give_task : Task → ℕ → Kernel → Kernel
give_task t value k =
    let slot = (k.tcb t).notify in
    let latched = set_slot k t (record slot { value = value; pending = true }) in
    if is_blocked (k.tcb t).state && slot.waiting
    then wake_locked t (set_slot k t (record { value = value; pending = true; waiting = false }))
    else latched

-- os_notify_give; a handle is `none` for NULL, else the handle's id.
unfoldable pub give : Option ℕ → ℕ → Kernel → Status × Kernel
give none value k = (invalid_arg, k)
give (some id) value k =
    if id == 0
    then (invalid_arg, k)
    else elim (find_by_id id k) [ none ↦ (invalid_arg, k) | some t ↦ (ok, give_task t value k) ]

-- One round of os_notify_wait by the task `t`, with what it writes to `*value_out` if that is not
-- NULL
unfoldable pub wait_task : Budget → Task → Kernel → Turn × Option ℕ × Kernel
wait_task b t k =
    let slot = (k.tcb t).notify in
    let awake = set_slot k t (record slot { waiting = false }) in
    if slot.pending
    then (
      returns ok,
      some slot.value,
      set_slot k t (record { value = 0; pending = false; waiting = false }),
    )
    else if must_not_wait b awake
    then (returns empty, none, awake)
    else if b.remaining_ticks == 0
    then (returns timeout, none, awake)
    else (
      blocks,
      none,
      sleep_ticks b.remaining_ticks (set_slot k t (record slot { waiting = true })),
    )

-- os_task_tcb_current; `none` is NULL.
unfoldable pub tcb_current : Kernel → Option Task
tcb_current k = elim k.current [ none ↦ none | some t ↦ if t == idle k then none else some t ]

-- One round of os_notify_wait
unfoldable pub wait_round : Budget → Kernel → Turn × Option ℕ × Kernel
unfolding tcb_current
wait_round b k = elim (tcb_current k) [
  | none ↦ (returns invalid_arg, none, k)
  | some t ↦ wait_task b t k
]

-- os_notify_wait up to where it returns or blocks
unfoldable pub wait : ℕ → Kernel → Turn × Option ℕ × Kernel
wait timeout_ms k =
    if k.in_isr then (returns invalid_arg, none, k) else wait_round (budget_of timeout_ms k) k

-- os_notify_wait when its caller runs again
unfoldable pub wait_resumed : Budget → Kernel → Budget × Turn × Option ℕ × Kernel
wait_resumed b k =
    let b' = recompute b k in let (turn, value, k') = wait_round b' k in (b', turn, value, k')
