-- ===== src/Task/Inv.antt =====
-- The invariant of the scheduler of core/os_task.c: what the lists hold is what the task control
-- blocks say.
pub mod Insert
pub mod Lists
pub mod Unlink
pub mod Request
pub mod Wake
pub mod Match
pub mod Tick
pub mod Join
pub mod Wait
pub mod Priority
pub mod Control
pub mod Still
pub mod Calls
pub mod Create
use ahura_kernel.Prelude.{
  ℕ, ◌^◌, ◌≤◌, ◌<◌, ◌≡◌, Bool, true, false, not, ◌&&◌, List, [], ◌∷◌, ◌==◌, if◌then◌else◌, is,
  is_empty, count,
}
use ahura_kernel.Prelude.Bits.{bit}
use ahura_kernel.Task.State.{
  Kernel, Task, WaiterList, idle, is_ready, is_run, is_blocked, wait_forever,
}

-- Every task of the list has at most the priority `b`.
abbrev pub Below : (Task → ℕ) → ℕ → List Task → Type 0
Below priority b [] = Unit
Below priority b (x ∷ xs) = (priority x ≤ b) × Below priority b xs

-- Priorities fall along the list.
abbrev pub Sorted : (Task → ℕ) → List Task → Type 0
Sorted priority [] = Unit
Sorted priority (x ∷ xs) = Below priority (priority x) xs × Sorted priority xs

-- How often `t` stands in the ready list of level `p`, in the delay list, and in the waiter list
-- `w`. The tasks of `out` are on their way from one list to another, and stand in none: `out` is
-- said for the ready lists and the delay list, and apart from them for the waiter lists.
abbrev pub ready_want : (Task → Bool) → Kernel → ℕ → Task → ℕ
ready_want out k p t =
    if not (out t) && is_ready (k.tcb t).state && (k.tcb t).priority == p && not (t == idle k)
    then 1
    else 0

abbrev pub delay_want : (Task → Bool) → Kernel → Task → ℕ
delay_want out k t =
    if not (out t) && is_blocked (k.tcb t).state && not ((k.tcb t).delay_ticks == wait_forever)
    then 1
    else 0

abbrev pub wait_want : (Task → Bool) → Kernel → WaiterList → Task → ℕ
wait_want out k w t = if not (out t) && is (k.tcb t).wait_list w then 1 else 0

-- READY tasks but the idle task stand once in the ready list of their priority and in no other;
-- finite sleepers stand once in the delay list; waiters stand once in the list that they wait on,
-- in falling priority. A bit of the ready bitmap is set exactly if its list holds a task. Only the
-- current task is RUNNING, only a BLOCKED task waits, and the idle task never blocks.
pub record Inv (out wait_out : Task → Bool) (k : Kernel) : Type 0 where
  pub ready_count : (p : ℕ) (t : Task) → count t (k.ready_list p) ≡ ready_want out k p t
  pub delay_count : (t : Task) → count t k.delay_list ≡ delay_want out k t
  pub wait_count : (w : WaiterList) (t : Task) → count t (k.waiters w) ≡ wait_want wait_out k w t
  pub bitmap : (p : ℕ) → p < 32 → bit k.ready_bitmap p ≡ not (is_empty (k.ready_list p))
  pub bitmap_small : k.ready_bitmap < 2 ^ 32
  pub priority_small : (t : Task) → (k.tcb t).priority < 32
  pub base_small : (t : Task) → (k.tcb t).base_priority < 32
  pub delay_small : (t : Task) → (k.tcb t).delay_ticks < 2 ^ 32
  pub sorted : (w : WaiterList) → Sorted (λ u. (k.tcb u).priority) (k.waiters w)
  pub waits_blocked :
      (w : WaiterList) (t : Task)
      → is (k.tcb t).wait_list w ≡ true
      → is_blocked (k.tcb t).state ≡ true
  pub runs : (t : Task) → is_run (k.tcb t).state ≡ true → is k.current t ≡ true
  pub idle_awake : is_blocked (k.tcb (idle k)).state ≡ false

abbrev pub no_task : Task → Bool
no_task u = false

abbrev pub only : Task → Task → Bool
only t u = t == u

-- The invariant between two kernel calls.
abbrev pub IsValid : Kernel → Type 0
IsValid = Inv no_task no_task

-- The invariant while `t` is in no list.
abbrev pub IsValidWithout : Task → Kernel → Type 0
IsValidWithout t = Inv (only t) (only t)
