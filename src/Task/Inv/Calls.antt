-- ===== src/Task/Inv/Calls.antt =====
-- The public calls of core/os_task.c keep the invariant, whatever handle they are given.
use ahura_kernel.Prelude.{
  ℕ, ◌<◌, ◌≡◌, ◌≢◌, refl, Bool, false, not, ◌&&◌, ◌||◌, Option, none, some, arith, ltb, ◌==◌,
  if◌then◌else◌, if_cases, Option-cases, inl, inr, is,
}
use ahura_kernel.Task.State.{
  Kernel, Task, Status, ok, busy, invalid_arg, set_tcb, idle, is_run, tcb_clear, prio_lowest,
  core_count, prio_highest,
}
use ahura_kernel.Task.Sched.{unlink, running_core_of, find_by_id}
use ahura_kernel.Task.Wake.{wake_compensate}
use ahura_kernel.Task.Control.{
  start_task, start, pause_task, pause, release, delete_task, delete, yield_now, resolve,
  set_base_priority, priority_set,
}
use ahura_kernel.Task.Frame.{unlink-SameCore, wake_compensate-SameCore}
use ahura_kernel.Task.Inv.{IsValid, IsValidWithout}
use ahura_kernel.Task.Inv.Lists.{set_tcb-Inv, settle-IsValid}
use ahura_kernel.Task.Inv.Unlink.{unlink-Inv}
use ahura_kernel.Task.Inv.Request.{switch_request-Inv}
use ahura_kernel.Task.Inv.Wake.{wake_compensate-IsValid, find_by_id-ne-idle}
use ahura_kernel.Task.Inv.Priority.{effective_priority_set-IsValid}
use ahura_kernel.Task.Inv.Control.{write_out-Inv, start_task-IsValid, suspend-IsValid}

-- What a call returns beside its status is a valid kernel.
pub record KeepsValid (r : Status × Kernel) : Type 0 where
  pub kernel : IsValid r.1

keeps : {s : Status} {k : Kernel} → IsValid k → KeepsValid (s, k)
keeps v = record { kernel = v }

-- The two tests that pause and delete share.
abbrev elsewhere : Task → Kernel → Bool
elsewhere t k = not (is k.current t) && ltb (running_core_of t k) core_count

abbrev self_locked : Task → Kernel → Bool
self_locked t k = is k.current t && not (k.lock_count == 0)

-- `os_task_current` may become NULL when no task is RUNNING.
no_current-Inv :
    {k : Kernel}
    → IsValid k
    → ((u : Task) → is_run (k.tcb u).state ≡ false)
    → IsValid (record k { current = none })
no_current-Inv inv none_runs = record {
  ready_count = inv.ready_count;
  delay_count = inv.delay_count;
  wait_count = inv.wait_count;
  bitmap = inv.bitmap;
  bitmap_small = inv.bitmap_small;
  priority_small = inv.priority_small;
  base_small = inv.base_small;
  delay_small = inv.delay_small;
  sorted = inv.sorted;
  waits_blocked = inv.waits_blocked;
  runs = λ u h. ground (arith, none_runs u);
  idle_awake = inv.idle_awake;
}

module _ (t : Task) {k : Kernel} (inv : IsValid k) (real : t ≢ idle k) where
  -- The last part of os_task_delete.
  pub release-IsValid : IsValid (release t k)
  unfolding release tcb_clear
  release-IsValid =
      let k₀ = wake_compensate t k in
      let v₀ : IsValid k₀ = wake_compensate-IsValid t inv in
      let r₀ : t ≢ idle k₀ = ground (arith, wake_compensate-SameCore t k, real) in
      let k₁ = unlink t k₀ in
      let v₁ : IsValidWithout t k₁ = unlink-Inv t v₀ r₀ in
      let cleared : IsValid (set_tcb k₁ t (tcb_clear (k₁.tcb t))) =
        settle-IsValid
          (write_out-Inv t (tcb_clear (k₁.tcb t)) v₁ (ground (arith, unlink-SameCore t k₀))
            (omega arith) (omega arith) (omega arith) refl (λ h. absurd (cc h)))
          (ground arith) (ground arith) (ground arith) in
      if_cases IsValid (is k.current t)
        (λ self.
          let gone : IsValid (record (set_tcb k₁ t (tcb_clear (k₁.tcb t))) { current = none }) =
            no_current-Inv cleared (λ u.
              ground (arith, cleared.runs u, wake_compensate-SameCore t k, unlink-SameCore t k₀)) in
          if_cases IsValid _ (λ _. switch_request-Inv gone) (λ _. gone))
        (λ _. cleared)

  set_base_priority-IsValid : (p : ℕ) → p < 32 → IsValid (set_base_priority t p k)
  unfolding set_base_priority
  set_base_priority-IsValid p h =
      let v : IsValid (set_tcb k t (record (k.tcb t) { base_priority = p })) =
        set_tcb-Inv inv t (record (k.tcb t) { base_priority = p }) (ground arith) in
      if_cases IsValid _ (λ _. effective_priority_set-IsValid t p v h real) (λ _. v)

  delete_found-IsValid : KeepsValid (delete_task (some t) k)
  unfolding delete_task
  delete_found-IsValid =
      if_cases KeepsValid (k.tcb t).system_task (λ _. keeps inv)
        λ _.
          if_cases KeepsValid (elsewhere t k) (λ _. keeps inv)
            λ _. if_cases KeepsValid (self_locked t k) (λ _. keeps inv) (λ _. keeps release-IsValid)

module _ {k : Kernel} (inv : IsValid k) where
  -- os_task_start keeps the invariant.
  pub start-IsValid : (handle : Option ℕ) → KeepsValid (start handle k)
  unfolding start
  start-IsValid none = keeps inv
  start-IsValid (some id) =
      if_cases KeepsValid (id == 0) (λ _. keeps inv) λ _. found (find_by_id id k) refl
    where
      found :
          (o : Option Task)
          → find_by_id id k ≡ o
          → KeepsValid (elim o [ none ↦ (invalid_arg, k) | some t ↦ (ok, start_task t k) ])
      found none e = keeps inv
      found (some t) e = keeps (start_task-IsValid t inv (find_by_id-ne-idle id k t e))

  pause_task-IsValid : (o : Option Task) → KeepsValid (pause_task o k)
  unfolding pause_task
  pause_task-IsValid none = keeps inv
  pause_task-IsValid (some t) =
      if_cases KeepsValid (t == idle k) (λ _. keeps inv)
        λ real.
          if_cases KeepsValid (k.tcb t).system_task (λ _. keeps inv)
            λ _.
              if_cases KeepsValid (elsewhere t k) (λ _. keeps inv)
                λ _.
                  if_cases KeepsValid (self_locked t k) (λ _. keeps inv)
                    λ _. keeps (suspend-IsValid t inv (ground arith))

  -- os_task_pause keeps the invariant.
  pub pause-IsValid : (handle : Option ℕ) → KeepsValid (pause handle k)
  unfolding pause
  pause-IsValid none = pause_task-IsValid k.current
  pause-IsValid (some id) =
      if_cases KeepsValid (id == 0) (λ _. keeps inv) (λ _. pause_task-IsValid (find_by_id id k))

  delete_by_id-IsValid : (id : ℕ) → KeepsValid (delete_task (find_by_id id k) k)
  unfolding delete_task
  delete_by_id-IsValid id = elim (Option-cases (find_by_id id k)) [
    | inl e ↦ rw (e, delete_task) (keeps inv)
    | inr (t, e) ↦ rw e (delete_found-IsValid t inv (find_by_id-ne-idle id k t e))
  ]

  -- os_task_delete keeps the invariant.
  pub delete-IsValid : (handle : Option ℕ) → KeepsValid (delete handle k)
  unfolding delete
  delete-IsValid none = elim (Option-cases k.current) [
    | inl e ↦ rw (e, delete) (keeps inv)
    | inr (t, e) ↦
        rw (e, delete)
          (if_cases KeepsValid (t == idle k) (λ _. keeps inv)
            (λ _. delete_by_id-IsValid (k.tcb t).id))
  ]
  delete-IsValid (some id) =
      if_cases KeepsValid (id == 0) (λ _. keeps inv) (λ _. delete_by_id-IsValid id)

  pub yield_now-IsValid : IsValid (yield_now k)
  unfolding yield_now
  yield_now-IsValid = if_cases IsValid _ (λ _. switch_request-Inv inv) (λ _. inv)

  -- os_task_priority_set keeps the invariant.
  pub priority_set-IsValid : (handle : Option ℕ) (p : ℕ) → KeepsValid (priority_set handle p k)
  unfolding priority_set
  priority_set-IsValid handle p =
      if_cases KeepsValid (ltb p prio_lowest || ltb prio_highest p) (λ _. keeps inv)
        (λ range. found range (resolve handle k))
    where
      found :
          (ltb p prio_lowest || ltb prio_highest p) ≡ false
          → (o : Option Task)
          → KeepsValid (elim o [
            | none ↦ (invalid_arg, k)
            | some t ↦
                if t == idle k
                then (busy, k)
                else if (k.tcb t).system_task
                then (busy, k)
                else (ok, set_base_priority t p k)
          ])
      found range none = keeps inv
      found range (some t) =
          if_cases KeepsValid (t == idle k) (λ _. keeps inv)
            λ real.
              if_cases KeepsValid (k.tcb t).system_task (λ _. keeps inv)
                (λ _. keeps (set_base_priority-IsValid t inv (ground arith) p (ground arith)))
