-- ===== src/Task/Control.antt =====
-- core/os_task.c: the calls by which the application starts, pauses, deletes and reprioritizes
-- tasks. A handle argument is `none` for NULL, else the handle's id.
use ahura_kernel.Prelude.{
  ℕ, true, not, ◌&&◌, ◌||◌, Option, none, some, ltb, ◌==◌, if◌then◌else◌, is,
}
use ahura_kernel.Task.State.{
  Kernel, Task, Status, ok, invalid_arg, busy, TaskState, inactive, running, suspended, set_tcb,
  idle, prio_lowest, prio_highest, core_count, is_blocked, tcb_clear,
}
use ahura_kernel.Task.Sched.{
  unlink, make_ready, preempt_if_running, running_core_of, find_by_id, switch_request,
  effective_priority_set,
}
use ahura_kernel.Task.Wake.{wake_compensate}

-- The part of os_task_start for a task that was found.
unfoldable pub start_task : Task → Kernel → Kernel
start_task t k =
    let k₁ = unlink t k in
    let k₂ =
      (if is_blocked (k.tcb t).state
        then set_tcb k₁ t (record (k₁.tcb t) { wait_signaled = true })
        else set_tcb k₁ t (record (k₁.tcb t) { delay_ticks = 0 })) in
    let k₃ =
      (if ltb (running_core_of t k₂) core_count
        then set_tcb k₂ t (record (k₂.tcb t) { state = running })
        else make_ready t k₂) in
    preempt_if_running t k₃

-- os_task_start
unfoldable pub start : Option ℕ → Kernel → Status × Kernel
start none k = (invalid_arg, k)
start (some id) k =
    if id == 0
    then (invalid_arg, k)
    else elim (find_by_id id k) [ none ↦ (invalid_arg, k) | some t ↦ (ok, start_task t k) ]

-- The last branch of os_task_pause: `t` is suspended.
unfoldable pub suspend : Task → Kernel → Kernel
suspend t k =
    let k₁ = wake_compensate t k in
    let k₂ =
      (if is_blocked (k₁.tcb t).state
        then set_tcb k₁ t (record (k₁.tcb t) { wait_signaled = true })
        else k₁) in
    let k₃ = unlink t k₂ in
    let k₄ = set_tcb k₃ t (record (k₃.tcb t) { delay_ticks = 0; state = suspended }) in
    if is k.current t && k.is_running then switch_request k₄ else k₄

-- os_task_pause of a resolved task
unfoldable pub pause_task : Option Task → Kernel → Status × Kernel
pause_task none k = (invalid_arg, k)
pause_task (some t) k =
    if t == idle k
    then (busy, k)
    else if (k.tcb t).system_task
    then (busy, k)
    else if not (is k.current t) && ltb (running_core_of t k) core_count
    then (busy, k)
    else if is k.current t && not (k.lock_count == 0)
    then (busy, k)
    else (ok, suspend t k)

-- os_task_pause
unfoldable pub pause : Option ℕ → Kernel → Status × Kernel
pause none k = pause_task k.current k
pause (some id) k = if id == 0 then (invalid_arg, k) else pause_task (find_by_id id k) k

-- The last part of os_task_delete: the task control block is released. `os_task_current` becomes
-- NULL if the caller deletes itself.
unfoldable pub release : Task → Kernel → Kernel
release t k =
    let k₁ = unlink t (wake_compensate t k) in
    let k₂ = set_tcb k₁ t (tcb_clear (k₁.tcb t)) in
    if is k.current t
    then (let k₃ = record k₂ { current = none } in if k.is_running then switch_request k₃ else k₃)
    else k₂

-- os_task_delete of a task found in the table
unfoldable pub delete_task : Option Task → Kernel → Status × Kernel
delete_task none k = (invalid_arg, k)
delete_task (some t) k =
    if (k.tcb t).system_task
    then (busy, k)
    else if not (is k.current t) && ltb (running_core_of t k) core_count
    then (busy, k)
    else if is k.current t && not (k.lock_count == 0)
    then (busy, k)
    else (ok, release t k)

-- os_task_delete. On OK the caller's handle, if there is one, gets id 0.
unfoldable pub delete : Option ℕ → Kernel → Status × Kernel
delete none k = elim k.current [
  | none ↦ (invalid_arg, k)
  | some t ↦ if t == idle k then (busy, k) else delete_task (find_by_id (k.tcb t).id k) k
]
delete (some id) k = if id == 0 then (invalid_arg, k) else delete_task (find_by_id id k) k

-- os_task_yield
unfoldable pub yield_now : Kernel → Kernel
yield_now k = if k.is_running && not k.in_isr then switch_request k else k

-- The task that a handle argument names: the calling task for NULL, none for an unknown id.
unfoldable pub resolve : Option ℕ → Kernel → Option Task
resolve none k = k.current
resolve (some id) k = if id == 0 then none else find_by_id id k

-- The last part of os_task_priority_set: a boosted task keeps a boost above the new value.
unfoldable pub set_base_priority : Task → ℕ → Kernel → Kernel
set_base_priority t value k =
    let boosted = ltb (k.tcb t).base_priority (k.tcb t).priority in
    let k' = set_tcb k t (record (k.tcb t) { base_priority = value }) in
    if not boosted || ltb (k.tcb t).priority value then effective_priority_set t value k' else k'

-- os_task_priority_set
unfoldable pub priority_set : Option ℕ → ℕ → Kernel → Status × Kernel
priority_set handle value k =
    if ltb value prio_lowest || ltb prio_highest value
    then (invalid_arg, k)
    else elim (resolve handle k) [
      | none ↦ (invalid_arg, k)
      | some t ↦
          if t == idle k
          then (busy, k)
          else if (k.tcb t).system_task
          then (busy, k)
          else (ok, set_base_priority t value k)
    ]

-- os_task_priority_get: what is written to `*priority_out`, with the status
unfoldable pub priority_get : Option ℕ → Kernel → Status × Option ℕ
priority_get handle k = elim (resolve handle k) [
  | none ↦ (invalid_arg, none)
  | some t ↦ (ok, some (k.tcb t).base_priority)
]

-- os_task_state_get
unfoldable pub state_get : Option ℕ → Kernel → TaskState
state_get handle k = elim (resolve handle k) [ none ↦ inactive | some t ↦ (k.tcb t).state ]
