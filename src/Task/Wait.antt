-- ===== src/Task/Wait.antt =====
-- core/os_task.c: how the calling task blocks, and what it reads when it resumes.
pub mod Remaining
use ahura_kernel.Prelude.{
  ℕ, ◌+◌, ◌-◌, ◌%◌, ◌^◌, Bool, true, false, not, ◌&&◌, ◌||◌, Option, none, some, List, [], ◌∷◌,
  ◌++◌, ltb, leb, ◌==◌, if◌then◌else◌,
}
use ahura_kernel.Task.State.{Kernel, Tcb, Task, WaiterList, blocked, set_tcb, wait_forever, idle}
use ahura_kernel.Task.Sched.{wait_node_insert, switch_request}

-- os_internal_can_block
unfoldable pub can_block : Kernel → Bool
can_block k = k.is_running && not k.in_isr && k.lock_count == 0

-- os_internal_timeout_to_ticks, at the rate `OS_CONFIG_TICK_HZ` of 1000 ticks a second
unfoldable pub timeout_to_ticks : ℕ → ℕ
timeout_to_ticks timeout_ms = if timeout_ms == wait_forever then wait_forever else timeout_ms

-- os_tick_get() - start_tick
unfoldable pub ticks_since : ℕ → Kernel → ℕ
ticks_since start_tick k = (k.tick_count + 2 ^ 32 - start_tick) % 2 ^ 32

-- os_internal_wait_remaining
unfoldable pub wait_remaining : ℕ → ℕ → Kernel → ℕ
wait_remaining budget_ticks start_tick k =
    if budget_ticks == wait_forever
    then wait_forever
    else let elapsed = ticks_since start_tick k in
      if leb budget_ticks elapsed then 0 else budget_ticks - elapsed

-- `os_list_push_back(&os_task_delay_list, &t->state_node)` for a finite wait
unfoldable pub delay_if_finite : ℕ → Task → Kernel → Kernel
delay_if_finite ticks t k =
    if not (ticks == wait_forever) then record k { delay_list = k.delay_list ++ t ∷ [] } else k

-- The part of os_task_sleep_ticks behind its checks.
unfoldable pub sleep_task : ℕ → Task → Kernel → Kernel
sleep_task ticks t k = switch_request (
    delay_if_finite ticks t
      (set_tcb k t (record (k.tcb t) { delay_ticks = ticks; state = blocked })))

-- os_task_sleep_ticks
unfoldable pub sleep_ticks : ℕ → Kernel → Kernel
sleep_ticks ticks k = if ticks == 0 then k else elim k.current [
  | none ↦ k
  | some t ↦
      if not k.is_running || k.in_isr || not (k.lock_count == 0) || t == idle k
      then k
      else sleep_task ticks t k
]

-- The part of os_task_wait_begin behind its check.
unfoldable pub wait_on : WaiterList → ℕ → Task → Kernel → Kernel
wait_on w timeout_ticks t k =
    let k₁ = wait_node_insert w t k in
    let k₂ = set_tcb k₁ t (record (k₁.tcb t) {
      wait_list = some w;
      wait_signaled = false;
      woken_from = none;
      delay_ticks = timeout_ticks;
      state = blocked;
    }) in
    switch_request (delay_if_finite timeout_ticks t k₂)

-- os_task_wait_begin
unfoldable pub wait_begin : WaiterList → ℕ → Kernel → Kernel
wait_begin w timeout_ticks k = elim k.current [
  | none ↦ k
  | some t ↦ if t == idle k then k else wait_on w timeout_ticks t k
]

-- os_task_wait_end
unfoldable pub wait_end : Kernel → Kernel
wait_end k = if k.in_isr then k else elim k.current [
  | none ↦ k
  | some t ↦ set_tcb k t (record (k.tcb t) { wait_signaled = false; woken_from = none })
]

-- os_task_wait_signaled
unfoldable pub wait_signaled : Kernel → Bool
wait_signaled k = elim k.current [ none ↦ false | some t ↦ (k.tcb t).wait_signaled ]

-- os_task_wait_data_set
unfoldable pub wait_data_set : ℕ → ℕ → Kernel → Kernel
wait_data_set data0 data1 k = elim k.current [
  | none ↦ k
  | some t ↦
      set_tcb k t (record (k.tcb t) { wait_data0 = data0; wait_data1 = data1; wait_result = 0 })
]

-- os_task_wait_result_get
unfoldable pub wait_result_get : Kernel → ℕ
wait_result_get k = elim k.current [ none ↦ 0 | some t ↦ (k.tcb t).wait_result ]

-- os_task_current_id_get
unfoldable pub current_id_get : Kernel → ℕ
current_id_get k = elim k.current [ none ↦ 0 | some t ↦ (k.tcb t).id ]
