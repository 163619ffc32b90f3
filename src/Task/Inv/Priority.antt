-- ===== src/Task/Inv/Priority.antt =====
-- Changing priorities, and priority inheritance, keep the invariant.
use ahura_kernel.Prelude.{
  ℕ, ◌<◌, ◌≡◌, ◌≢◌, refl, true, false, not, ◌&&◌, none, List, [], ◌∷◌, ◌++◌, arith, ltb, ◌==◌,
  if◌then◌else◌, if_cases, Option-cases, inl, inr, bit_and, remove,
}
use ahura_kernel.Task.State.{
  Kernel, Task, WaiterList, TaskState, inactive, ready, running, blocked, suspended, set_tcb, idle,
  is_ready, is_run,
}
use ahura_kernel.Task.Sched.{
  unlink, make_ready, switch_request, set_priority, reprioritize_ready, lower_running,
  resort_waiter, effective_priority_set, above_mask, find_by_id,
}
use ahura_kernel.Task.Inherit.{
  owner_link, priority_inherit, raise_to_head, highest_waiter, owner_unlink_and_reprioritize,
}
use ahura_kernel.Task.Frame.{unlink-SameCore, unlink-wait_list}
use ahura_kernel.Task.Inv.{IsValid}
use ahura_kernel.Task.Inv.Lists.{set_out-Inv, set_tcb-Inv, make_ready-IsValid}
use ahura_kernel.Task.Inv.Unlink.{unlink-Inv}
use ahura_kernel.Task.Inv.Request.{switch_request-Inv, preempt_request-Inv}
use ahura_kernel.Task.Inv.Wake.{find_by_id-ne-idle}
use ahura_kernel.Task.Inv.Join.{set_priority-Inv, remove_waiter-Inv, insert-Inv}

module _ (t : Task) (p : ℕ) {k : Kernel} (inv : IsValid k) (small : p < 32) where
  moved-IsValid : t ≢ idle k → IsValid (make_ready t (set_priority t p (unlink t k)))
  moved-IsValid real =
      let v = unlink-Inv t inv real in
      make_ready-IsValid
        (set_out-Inv v (record ((unlink t k).tcb t) { priority = p })
          (record {
            priority_small = small;
            base_small = v.base_small t;
            delay_small = v.delay_small t;
            waits_blocked = λ w h. v.waits_blocked w t h;
            runs = λ h. v.runs t h;
            idle_awake = λ h. ground (arith, unlink-SameCore t k, real);
          }))
        (ground (arith, unlink-wait_list t k)) (ground (arith, unlink-SameCore t k, real))

  reprioritize_ready-IsValid : t ≢ idle k → IsValid (reprioritize_ready t p k)
  unfolding reprioritize_ready
  reprioritize_ready-IsValid real =
      if_cases IsValid _ (λ _. preempt_request-Inv (moved-IsValid real) t) (λ _. moved-IsValid real)

  resort_waiter-IsValid : is_ready (k.tcb t).state ≡ false → IsValid (resort_waiter t p k)
  unfolding resort_waiter
  resort_waiter-IsValid nr = elim (Option-cases ((k.tcb t).wait_list)) [
    | inl e ↦ rw (e, resort_waiter) (set_priority-Inv t inv nr p small e)
    | inr (w, e) ↦
        rw (e, resort_waiter)
          (insert-Inv t (remove_waiter-Inv t inv nr p w small e) w (ground arith))
  ]

  lowered : is_run (k.tcb t).state ≡ true → IsValid (set_priority t p k)
  lowered run = set_priority-Inv t inv (ground arith) p small none_awaited
    where
      none_awaited : (k.tcb t).wait_list ≡ none
      none_awaited = elim (Option-cases ((k.tcb t).wait_list)) [
        | inl e ↦ e
        | inr (w, e) ↦ absurd (ground (arith, inv.waits_blocked w t))
      ]

  lower_running-IsValid : is_run (k.tcb t).state ≡ true → IsValid (lower_running t p k)
  unfolding lower_running
  lower_running-IsValid run =
      let requested : IsValid (
          if not (bit_and k.ready_bitmap (above_mask p) == 0)
          then switch_request (set_priority t p k)
          else set_priority t p k) =
        if_cases IsValid _ (λ _. switch_request-Inv (lowered run)) (λ _. lowered run) in
      if_cases IsValid _ (λ _. requested) (λ _. lowered run)

  -- os_task_effective_priority_set keeps the invariant.
  pub effective_priority_set-IsValid : t ≢ idle k → IsValid (effective_priority_set t p k)
  unfolding effective_priority_set
  effective_priority_set-IsValid real =
      if_cases IsValid (p == (k.tcb t).priority) (λ _. inv) (λ _. by_state (k.tcb t).state refl)
    where
      by_state :
          (s : TaskState)
          → (k.tcb t).state ≡ s
          → IsValid (elim s [
            | ready ↦ reprioritize_ready t p k
            | running ↦
                if ltb p (k.tcb t).priority && k.is_running
                then lower_running t p k
                else resort_waiter t p k
            | _ ↦ resort_waiter t p k
          ])
      by_state inactive e = resort_waiter-IsValid (ground arith)
      by_state ready e = reprioritize_ready-IsValid real
      by_state running e =
          if_cases IsValid _ (λ _. lower_running-IsValid (ground arith))
            (λ _. resort_waiter-IsValid (ground arith))
      by_state blocked e = resort_waiter-IsValid (ground arith)
      by_state suspended e = resort_waiter-IsValid (ground arith)

pub owner_link-IsValid : (m : WaiterList) {k : Kernel} → IsValid k → IsValid (owner_link m k)
unfolding owner_link
owner_link-IsValid m {k} inv = elim (Option-cases k.current) [
  | inl e ↦ rw (e, owner_link) inv
  | inr (t, e) ↦
      rw (e, owner_link)
        (if_cases IsValid (not ((k.tcb t).id == 0))
          (λ _.
            set_tcb-Inv inv t
              (record (k.tcb t) { owned_mutexes = (k.tcb t).owned_mutexes ++ m ∷ [] })
              (ground arith))
          (λ _. inv))
]

-- os_task_mutex_priority_inherit keeps the invariant.
pub priority_inherit-IsValid :
    (owner_id : ℕ) {k : Kernel} → IsValid k → IsValid (priority_inherit owner_id k)
unfolding priority_inherit
priority_inherit-IsValid owner_id {k} inv = elim (Option-cases k.current) [
  | inl e ↦ rw (e, priority_inherit) inv
  | inr (c, e) ↦ elim (Option-cases (find_by_id owner_id k)) [
    | inl f ↦ rw (e, priority_inherit) (rw f inv)
    | inr (o, f) ↦
        rw (e, priority_inherit)
          (rw f (
            if_cases IsValid _
              (λ _.
                effective_priority_set-IsValid o (k.tcb c).priority inv (inv.priority_small c)
                  (find_by_id-ne-idle owner_id k o f))
              (λ _. inv)))
  ]
]

-- The recomputed priority is a priority.
module _ (k : Kernel) (small : (u : Task) → (k.tcb u).priority < 32) where
  raise_to_head-lt : (ts : List Task) (p : ℕ) → p < 32 → raise_to_head k ts p < 32
  unfolding raise_to_head
  raise_to_head-lt [] p h = h
  raise_to_head-lt (t ∷ ts) p h = ground (arith, small t)

  highest_waiter-lt : (ms : List WaiterList) (p : ℕ) → p < 32 → highest_waiter k ms p < 32
  unfolding highest_waiter
  highest_waiter-lt [] p h = h
  highest_waiter-lt (m ∷ ms) p h =
      highest_waiter-lt ms (raise_to_head k (k.waiters m) p) (raise_to_head-lt (k.waiters m) p h)

-- os_task_mutex_owner_unlink_and_reprioritize keeps the invariant.
pub owner_unlink-IsValid :
    (owner_id : ℕ) (m : WaiterList) {k : Kernel}
    → IsValid k
    → IsValid (owner_unlink_and_reprioritize owner_id m k)
unfolding owner_unlink_and_reprioritize
owner_unlink-IsValid owner_id m {k} inv = elim (Option-cases (find_by_id owner_id k)) [
  | inl e ↦ rw (e, owner_unlink_and_reprioritize) inv
  | inr (o, e) ↦
      let c = record (k.tcb o) { owned_mutexes = remove m (k.tcb o).owned_mutexes } in
      let v : IsValid (set_tcb k o c) = set_tcb-Inv inv o c (ground arith) in
      rw (e, owner_unlink_and_reprioritize)
        (effective_priority_set-IsValid o _ v
          (highest_waiter-lt (set_tcb k o c) v.priority_small _ (k.tcb o).base_priority
            (inv.base_small o))
          (find_by_id-ne-idle owner_id k o e))
]
