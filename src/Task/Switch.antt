-- ===== src/Task/Switch.antt =====
-- core/os_task.c: the context switch, as PendSV calls it, and the tick's reschedule check.
pub mod Pick
pub mod Swap
pub mod Rotate
use ahura_kernel.Prelude.{
  ℕ, zero, suc, ◌+◌, ◌-◌, ◌/◌, ◌^◌, bit_and, Bool, true, false, not, ◌&&◌, ◌||◌, Option, none, some,
  List, [], ◌∷◌, ltb, ◌==◌, if◌then◌else◌, is, is_empty, remove, update,
}
use ahura_kernel.Prelude.Bits.{complement}
use ahura_kernel.Task.State.{
  Kernel, Tcb, Task, ready, running, set_tcb, idle, prio_max, core_count, is_run,
}
use ahura_kernel.Task.Sched.{make_ready, clear_if_empty, above_mask}

-- The end of os_task_stack_save_current: the context is saved, and a preempted task goes to the
-- tail of its ready list.
unfoldable pub release_core : Task → Kernel → Kernel
release_core t k =
    let k' = set_tcb k t (record (k.tcb t) { running_core = core_count }) in
    if is_run (k.tcb t).state
    then (if t == idle k
        then set_tcb k' t (record (k'.tcb t) { state = ready })
        else make_ready t k')
    else k'

-- os_task_stack_save_current
unfoldable pub stack_save_current : ℕ → Kernel → Kernel
stack_save_current stack_ptr k = elim k.current [
  | none ↦ k
  | some t ↦
      let k' = set_tcb k t (record (k.tcb t) { stack_ptr = stack_ptr }) in
      if is_run (k'.tcb t).state && not (k'.lock_count == 0)
      then record k' { switch_pending = true }
      else release_core t k'
]

-- os_arch_highest_bit_get of a word of `w` bits that is not 0
unfoldable pub highest_bit_get : ℕ → ℕ → ℕ
highest_bit_get zero x = 0
highest_bit_get (suc w) x = let rest = highest_bit_get w (x / 2) in if ltb x 2 then 0 else suc rest

-- The loop of os_task_stack_select_next, with `n` rounds; the task found and the kernel after it
-- has left its ready list. On a single core the walk along one list takes its head.
unfoldable pub pick : ℕ → ℕ → Kernel → Task × Kernel
pick zero bitmap k = (idle k, k)
pick (suc n) bitmap k =
    let p = highest_bit_get 32 bitmap in
    let rest = pick n (bit_and bitmap (complement 32 (2 ^ p))) k in
    if bitmap == 0 then (idle k, k) else elim (k.ready_list p) [
      | [] ↦ rest
      | t ∷ _ ↦ (
        t,
        clear_if_empty p
            (record k { ready_list = update k.ready_list p (remove t (k.ready_list p)) }),
      )
    ]

-- The end of os_task_stack_select_next: `t` runs with a fresh quantum.
unfoldable pub dispatch : Task → Kernel → Kernel
dispatch t k = record (set_tcb k t (record (k.tcb t) { state = running; running_core = 0 })) {
  current = some t;
  slice_left = k.time_slice_ticks;
}

-- Whether the scheduler lock hands the running task straight back.
unfoldable pub locked_current : Kernel → Option Task
locked_current k = elim k.current [
  | none ↦ none
  | some t ↦ if not (k.lock_count == 0) && is_run (k.tcb t).state then some t else none
]

-- os_task_stack_select_next: the stack pointer to restore, and the kernel. The word has 32 bits,
-- of which each round clears one, and the round after them sees 0.
unfoldable pub stack_select_next : Kernel → ℕ × Kernel
stack_select_next k = elim (locked_current k) [
  | some t ↦ ((k.tcb t).stack_ptr, k)
  | none ↦ let (t, k') = pick 33 k.ready_bitmap k in ((k'.tcb t).stack_ptr, dispatch t k')
]

-- The PendSV exception: the request is taken, the running task's stack pointer saved, the next
-- task's loaded.
unfoldable pub pend_sv : ℕ → Kernel → ℕ × Kernel
pend_sv stack_ptr k =
    stack_select_next (stack_save_current stack_ptr (record k { switch_requested = false }))

-- os_task_reschedule_possible, with round-robin time slices
unfoldable pub reschedule_possible : Kernel → Bool
reschedule_possible k = if not (k.lock_count == 0) then false else elim k.current [
  | none ↦ not (k.ready_bitmap == 0)
  | some t ↦
      let p = (k.tcb t).priority in
      let above = if ltb p prio_max then above_mask p else 0 in
      let preempts = not (bit_and k.ready_bitmap above == 0) in
      let peer =
        ltb 0 k.time_slice_ticks
        && k.slice_left == 0
        && not (bit_and k.ready_bitmap (2 ^ p) == 0) in
      preempts || peer
]

-- os_task_slice_tick
unfoldable pub slice_tick : ℕ → Kernel → Kernel
slice_tick elapsed_ticks k =
    if ltb 0 k.time_slice_ticks
    then record k {
      slice_left = if ltb elapsed_ticks k.slice_left then k.slice_left - elapsed_ticks else 0;
    }
    else k

-- os_task_current_is_idle
unfoldable pub current_is_idle : Kernel → Bool
current_is_idle k = is k.current (idle k)
