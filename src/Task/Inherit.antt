-- ===== src/Task/Inherit.antt =====
-- core/os_task.c: priority inheritance, on behalf of core/os_mutex.c. A mutex is named by the
-- address of its waiter list.
pub mod Effective
pub mod Boost
use ahura_kernel.Prelude.{
  ℕ, not, Option, none, some, List, [], ◌∷◌, ◌++◌, ltb, ◌==◌, if◌then◌else◌, remove,
}
use ahura_kernel.Task.State.{Kernel, Task, WaiterList, set_tcb}
use ahura_kernel.Task.Sched.{find_by_id, effective_priority_set}

-- os_task_mutex_owner_link
unfoldable pub owner_link : WaiterList → Kernel → Kernel
owner_link m k = elim k.current [
  | none ↦ k
  | some t ↦
      if not ((k.tcb t).id == 0)
      then set_tcb k t (record (k.tcb t) { owned_mutexes = (k.tcb t).owned_mutexes ++ m ∷ [] })
      else k
]

-- os_task_mutex_priority_inherit
unfoldable pub priority_inherit : ℕ → Kernel → Kernel
priority_inherit owner_task_id k = elim k.current [
  | none ↦ k
  | some c ↦ elim (find_by_id owner_task_id k) [
    | none ↦ k
    | some o ↦
        if ltb (k.tcb o).priority (k.tcb c).priority
        then effective_priority_set o (k.tcb c).priority k
        else k
  ]
]

-- The effect of one mutex on the new priority: its first waiter counts.
unfoldable pub raise_to_head : Kernel → List Task → ℕ → ℕ
raise_to_head k [] p = p
raise_to_head k (t ∷ _) p = if ltb p (k.tcb t).priority then (k.tcb t).priority else p

-- The walk along the mutexes still held.
unfoldable pub highest_waiter : Kernel → List WaiterList → ℕ → ℕ
highest_waiter k [] p = p
highest_waiter k (m ∷ ms) p = highest_waiter k ms (raise_to_head k (k.waiters m) p)

-- os_task_mutex_owner_unlink_and_reprioritize
unfoldable pub owner_unlink_and_reprioritize : ℕ → WaiterList → Kernel → Kernel
owner_unlink_and_reprioritize owner_id m k = elim (find_by_id owner_id k) [
  | none ↦ k
  | some o ↦
      let c = k.tcb o in
      let k' = set_tcb k o (record c { owned_mutexes = remove m c.owned_mutexes }) in
      effective_priority_set o (highest_waiter k' (k'.tcb o).owned_mutexes c.base_priority) k'
]
