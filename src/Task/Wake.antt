-- ===== src/Task/Wake.antt =====
-- core/os_task.c: the ways in which a task is woken.
pub mod First
pub mod All
use ahura_kernel.Prelude.{
  ℕ, zero, suc, ◌+◌, Bool, true, false, ◌&&◌, none, some, List, [], ◌∷◌, ◌==◌, if◌then◌else◌,
  length,
}
use ahura_kernel.Task.State.{Kernel, Task, WaiterList, set_tcb, is_ready, is_blocked}
use ahura_kernel.Task.Sched.{unlink, make_ready, preempt_if_running, find_by_id}

-- What os_task_waiters_wake_one does with the head `t` of the list `w`.
unfoldable pub signal : WaiterList → Task → Kernel → Kernel
signal w t k =
    let remaining = (k.tcb t).delay_ticks in
    let k₁ = unlink t k in
    let c = k₁.tcb t in
    let k₂ =
      set_tcb k₁ t
        (record c { delay_ticks = remaining; wait_signaled = true; woken_from = some w }) in
    preempt_if_running t (make_ready t k₂)

-- os_task_waiters_wake_one
unfoldable pub waiters_wake_one : WaiterList → Kernel → Bool × Kernel
waiters_wake_one w k = elim (k.waiters w) [ [] ↦ (false, k) | t ∷ _ ↦ (true, signal w t k) ]

-- The loop of os_task_waiters_wake_all with `n` rounds.
unfoldable pub wake_all_loop : ℕ → WaiterList → Kernel → Kernel
wake_all_loop zero w k = k
wake_all_loop (suc n) w k =
    let (woken, k') = waiters_wake_one w k in
    let rest = wake_all_loop n w k' in if woken then rest else k'

-- os_task_waiters_wake_all: one round for each waiter and one that finds none.
unfoldable pub waiters_wake_all : WaiterList → Kernel → Kernel
waiters_wake_all w k = wake_all_loop (length (k.waiters w) + 1) w k

-- `os_task_wait_match_fn`: wait data and context to verdict, result and new context.
abbrev pub WaitMatch : Type 0 → Type 0
WaitMatch C = ℕ → ℕ → C → Bool × ℕ × C

-- What os_task_waiters_wake_match does with a waiter `t` whose condition holds.
unfoldable pub deliver : WaiterList → Task → ℕ → Kernel → Kernel
deliver w t result k =
    let remaining = (k.tcb t).delay_ticks in
    let k₁ = unlink t k in
    let c = k₁.tcb t in
    let k₂ = set_tcb k₁ t (record c {
      delay_ticks = remaining;
      wait_signaled = true;
      wait_result = result;
      woken_from = some w;
    }) in
    preempt_if_running t (make_ready t k₂)

-- The walk of os_task_waiters_wake_match. It saves each node's successor before the node may leave
-- the list, and nothing else leaves it meanwhile: it visits the waiters of the list as it began.
unfoldable pub wake_match_from :
    {C : Type 0} → WaiterList → WaitMatch C → List Task → C → Kernel → ℕ × C × Kernel
wake_match_from w m [] ctx k = (0, ctx, k)
wake_match_from w m (t ∷ ts) ctx k =
    let (matched, result, ctx') = m (k.tcb t).wait_data0 (k.tcb t).wait_data1 ctx in
    let (woken, ctx'', k') =
      wake_match_from w m ts ctx' (if matched then deliver w t result k else k) in
    (if matched then woken + 1 else woken, ctx'', k')

-- os_task_waiters_wake_match
unfoldable pub waiters_wake_match :
    {C : Type 0} → WaiterList → WaitMatch C → C → Kernel → ℕ × C × Kernel
waiters_wake_match w m ctx k = wake_match_from w m (k.waiters w) ctx k

-- os_task_wake_locked of a task; also os_task_wake_tcb of a handle that is not NULL
unfoldable pub wake_locked : Task → Kernel → Kernel
wake_locked t k =
    if is_blocked (k.tcb t).state
    then (let k₁ = unlink t k in
        preempt_if_running t
          (make_ready t (set_tcb k₁ t (record (k₁.tcb t) { wait_signaled = true }))))
    else k

-- os_task_wake
unfoldable pub wake : ℕ → Kernel → Kernel
wake task_id k =
    if task_id == 0 then k else elim (find_by_id task_id k) [ none ↦ k | some t ↦ wake_locked t k ]

-- os_task_wake_compensate
unfoldable pub wake_compensate : Task → Kernel → Kernel
wake_compensate t k =
    if is_ready (k.tcb t).state && (k.tcb t).wait_signaled
    then elim ((k.tcb t).woken_from) [
      | none ↦ k
      | some w ↦ (waiters_wake_one w (set_tcb k t (record (k.tcb t) { woken_from = none }))).1
    ]
    else k
