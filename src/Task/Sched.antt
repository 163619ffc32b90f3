-- ===== src/Task/Sched.antt =====
-- core/os_task.c, the parts that every operation is built from: the ready lists with their bitmap,
-- the delay list, the waiter lists, switch requests, and the change of a task's priority.
use ahura_kernel.Prelude.{
  ℕ, zero, suc, ◌+◌, ◌-◌, ◌^◌, bit_and, bit_or, true, not, ◌&&◌, Option, none, some, List, [], ◌∷◌,
  ◌++◌, ltb, ◌==◌, if◌then◌else◌, is, is_empty, remove, update,
}
use ahura_kernel.Prelude.Bits.{complement}
use ahura_kernel.Task.State.{
  Kernel, Task, WaiterList, ready, running, blocked, set_tcb, wait_forever, prio_max, core_count,
  is_inactive,
}

-- os_task_make_ready
unfoldable pub make_ready : Task → Kernel → Kernel
make_ready t k =
    let c = k.tcb t in
    record (set_tcb k t (record c { state = ready })) {
      ready_list = update k.ready_list c.priority (k.ready_list c.priority ++ t ∷ []);
      ready_bitmap = bit_or k.ready_bitmap (2 ^ c.priority);
    }

-- `os_task_ready_bitmap &= ~(1UL << p)` if the list of level `p` is empty.
unfoldable pub clear_if_empty : ℕ → Kernel → Kernel
clear_if_empty p k =
    if is_empty (k.ready_list p)
    then record k { ready_bitmap = bit_and k.ready_bitmap (complement 32 (2 ^ p)) }
    else k

-- Takes `t` out of the ready list of its priority.
unfoldable pub leave_ready : Task → Kernel → Kernel
unfolding clear_if_empty
leave_ready t k =
    let p = (k.tcb t).priority in
    clear_if_empty p (record k { ready_list = update k.ready_list p (remove t (k.ready_list p)) })

-- The first half of os_task_unlink: the list that the state implies.
unfoldable pub leave_state_list : Task → Kernel → Kernel
unfolding leave_ready
leave_state_list t k = elim ((k.tcb t).state) [
  | ready ↦ leave_ready t k
  | blocked ↦
      if (k.tcb t).delay_ticks == wait_forever
      then k
      else record k { delay_list = remove t k.delay_list }
  | _ ↦ k
]

-- The second half of os_task_unlink: the waiter list.
unfoldable pub leave_wait_list : Task → Kernel → Kernel
leave_wait_list t k = elim ((k.tcb t).wait_list) [
  | none ↦ k
  | some w ↦ record (set_tcb k t (record (k.tcb t) { wait_list = none })) {
    waiters = update k.waiters w (remove t (k.waiters w));
  }
]

-- os_task_unlink
unfoldable pub unlink : Task → Kernel → Kernel
unlink t k = leave_wait_list t (leave_state_list t k)

-- The walk of os_task_wait_node_insert: `t` goes before the first waiter of strictly lower
-- priority, or to the end.
unfoldable pub insert_by : (Task → ℕ) → Task → List Task → List Task
insert_by priority t [] = t ∷ []
insert_by priority t (x ∷ xs) =
    if ltb (priority x) (priority t) then t ∷ x ∷ xs else x ∷ insert_by priority t xs

-- os_task_wait_node_insert
unfoldable pub wait_node_insert : WaiterList → Task → Kernel → Kernel
wait_node_insert w t k = record k {
  waiters = update k.waiters w (insert_by (λ u. (k.tcb u).priority) t (k.waiters w));
}

-- os_task_switch_request
unfoldable pub switch_request : Kernel → Kernel
switch_request k =
    if not (k.lock_count == 0)
    then record k { switch_pending = true }
    else record k { switch_requested = true }

-- os_task_preempt_request, on a single core
unfoldable pub preempt_request : Task → Kernel → Kernel
preempt_request t k = elim k.current [
  | none ↦ switch_request k
  | some c ↦ if ltb (k.tcb c).priority (k.tcb t).priority then switch_request k else k
]

-- The request that follows a wake while the kernel runs.
unfoldable pub preempt_if_running : Task → Kernel → Kernel
preempt_if_running t k = if k.is_running then preempt_request t k else k

-- os_task_running_core: the only core is number 0.
unfoldable pub running_core_of : Task → Kernel → ℕ
running_core_of t k = if is k.current t then 0 else core_count

-- The loop of os_task_find_by_id, with `n` slots left from slot `i` on.
unfoldable pub find_from : ℕ → ℕ → ℕ → Kernel → Option Task
find_from zero i id k = none
find_from (suc n) i id k =
    if not (is_inactive (k.tcb i).state) && (k.tcb i).id == id
    then some i
    else find_from n (i + 1) id k

-- os_task_find_by_id
unfoldable pub find_by_id : ℕ → Kernel → Option Task
unfolding find_from
find_by_id id k = find_from k.table_size 0 id k

abbrev pub set_priority : Task → ℕ → Kernel → Kernel
set_priority t p k = set_tcb k t (record (k.tcb t) { priority = p })

-- `~((1UL << (p + 1)) - 1)`: the levels above `p`.
unfoldable pub above_mask : ℕ → ℕ
unfolding complement
above_mask p = complement 32 (2 ^ (p + 1) - 1)

-- os_task_effective_priority_set of a READY task
unfoldable pub reprioritize_ready : Task → ℕ → Kernel → Kernel
reprioritize_ready t p k =
    let moved = make_ready t (set_priority t p (unlink t k)) in
    if ltb (k.tcb t).priority p && moved.is_running then preempt_request t moved else moved

-- os_task_effective_priority_set of a RUNNING task whose priority falls
unfoldable pub lower_running : Task → ℕ → Kernel → Kernel
lower_running t p k =
    let k' = set_priority t p k in
    if ltb (running_core_of t k) core_count && ltb p prio_max
    then (if not (bit_and k'.ready_bitmap (above_mask p) == 0) then switch_request k' else k')
    else k'

-- os_task_effective_priority_set of any other task: re-sorted in the waiter list that it is on
unfoldable pub resort_waiter : Task → ℕ → Kernel → Kernel
resort_waiter t p k =
    let k' = set_priority t p k in
    elim ((k.tcb t).wait_list) [
      | none ↦ k'
      | some w ↦
          wait_node_insert w t
            (record k' { waiters = update k'.waiters w (remove t (k'.waiters w)) })
    ]

-- os_task_effective_priority_set
unfoldable pub effective_priority_set : Task → ℕ → Kernel → Kernel
effective_priority_set t p k = if p == (k.tcb t).priority then k else elim ((k.tcb t).state) [
  | ready ↦ reprioritize_ready t p k
  | running ↦
      if ltb p (k.tcb t).priority && k.is_running then lower_running t p k else resort_waiter t p k
  | _ ↦ resort_waiter t p k
]
