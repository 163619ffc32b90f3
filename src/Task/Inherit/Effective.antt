-- ===== src/Task/Inherit/Effective.antt =====
-- What priority inheritance does to the priorities of the tasks.
use ahura_kernel.Prelude.{
  ℕ, ◌≡◌, refl, ap, false, ◌&&◌, Option, none, some, arith, ltb, ◌==◌, if◌then◌else◌, if_cases,
}
use ahura_kernel.Task.State.{
  Kernel, Task, TaskState, inactive, ready, running, blocked, suspended, is_run,
}
use ahura_kernel.Task.Sched.{
  make_ready, preempt_request, switch_request, wait_node_insert, reprioritize_ready, lower_running,
  resort_waiter, effective_priority_set, find_by_id,
}
use ahura_kernel.Task.Inherit.{priority_inherit}
use ahura_kernel.Task.Frame.{unlink-tcb, unlink-SameCore}

module _ (t : Task) (p : ℕ) (k : Kernel) where
  -- A task's control block when its priority, and nothing else of the priorities, is changed.
  abbrev Changes : Kernel → Type 0
  Changes k' = (u : Task) → (k'.tcb u).priority ≡ (if t == u then p else (k.tcb u).priority)

  reprioritize_ready-Changes : Changes (reprioritize_ready t p k)
  unfolding reprioritize_ready make_ready preempt_request switch_request
  reprioritize_ready-Changes u = ground (arith, unlink-tcb t k u, unlink-tcb t k t)

  lower_running-Changes : Changes (lower_running t p k)
  unfolding lower_running switch_request
  lower_running-Changes u = ground arith

  resort_waiter-Changes : Changes (resort_waiter t p k)
  unfolding resort_waiter wait_node_insert
  resort_waiter-Changes u = ground arith

  -- os_task_effective_priority_set gives the task the new priority, and no other task another one.
  pub effective_priority_set-Changes : Changes (effective_priority_set t p k)
  unfolding effective_priority_set
  effective_priority_set-Changes =
      if_cases Changes (p == (k.tcb t).priority) (λ e u. ground arith)
        (λ _. by_state (k.tcb t).state)
    where
      by_state :
          (s : TaskState)
          → Changes (elim s [
            | ready ↦ reprioritize_ready t p k
            | running ↦
                if ltb p (k.tcb t).priority && k.is_running
                then lower_running t p k
                else resort_waiter t p k
            | _ ↦ resort_waiter t p k
          ])
      by_state ready = reprioritize_ready-Changes
      by_state running =
          if_cases Changes _ (λ _. lower_running-Changes) (λ _. resort_waiter-Changes)
      by_state inactive = resort_waiter-Changes
      by_state blocked = resort_waiter-Changes
      by_state suspended = resort_waiter-Changes

-- A change of priorities that stops nobody: the same task is current, and whoever runs goes on.
pub record RunsOn (k k' : Kernel) : Type 0 where
  pub current : k'.current ≡ k.current
  pub config : k'.config ≡ k.config
  pub running : (u : Task) → is_run (k'.tcb u).state ≡ is_run (k.tcb u).state

module _ (t : Task) (p : ℕ) (k : Kernel) where
  reprioritize_ready-RunsOn : is_run (k.tcb t).state ≡ false → RunsOn k (reprioritize_ready t p k)
  unfolding reprioritize_ready make_ready preempt_request switch_request
  reprioritize_ready-RunsOn h = record {
    current = ground (arith, unlink-SameCore t k);
    config = ground (arith, unlink-SameCore t k);
    running = λ u. ground (arith, h, unlink-tcb t k u, unlink-tcb t k t);
  }

  lower_running-RunsOn : RunsOn k (lower_running t p k)
  unfolding lower_running switch_request
  lower_running-RunsOn = record {
    current = ground arith;
    config = ground arith;
    running = λ u. ground arith;
  }

  resort_waiter-RunsOn : RunsOn k (resort_waiter t p k)
  unfolding resort_waiter wait_node_insert
  resort_waiter-RunsOn = record {
    current = ground arith;
    config = ground arith;
    running = λ u. ground arith;
  }

  pub effective_priority_set-RunsOn : RunsOn k (effective_priority_set t p k)
  unfolding effective_priority_set
  effective_priority_set-RunsOn =
      if_cases (RunsOn k) (p == (k.tcb t).priority)
        (λ _. record { current = refl; config = refl; running = λ u. refl })
        (λ _. by_state (k.tcb t).state refl)
    where
      by_state :
          (s : TaskState)
          → (k.tcb t).state ≡ s
          → RunsOn k (elim s [
            | ready ↦ reprioritize_ready t p k
            | running ↦
                if ltb p (k.tcb t).priority && k.is_running
                then lower_running t p k
                else resort_waiter t p k
            | _ ↦ resort_waiter t p k
          ])
      by_state ready e = reprioritize_ready-RunsOn (ap is_run e)
      by_state running e =
          if_cases (RunsOn k) _ (λ _. lower_running-RunsOn) (λ _. resort_waiter-RunsOn)
      by_state inactive e = resort_waiter-RunsOn
      by_state blocked e = resort_waiter-RunsOn
      by_state suspended e = resort_waiter-RunsOn

-- os_task_mutex_priority_inherit lets the calling task run on.
pub priority_inherit-RunsOn : (owner_id : ℕ) (k : Kernel) → RunsOn k (priority_inherit owner_id k)
unfolding priority_inherit
priority_inherit-RunsOn owner_id k = by_owner k.current (find_by_id owner_id k)
  where
    by_owner :
        (c o : Option Task)
        → RunsOn k (elim c [
          | none ↦ k
          | some c ↦ elim o [
            | none ↦ k
            | some o ↦
                if ltb (k.tcb o).priority (k.tcb c).priority
                then effective_priority_set o (k.tcb c).priority k
                else k
          ]
        ])
    by_owner none o = record { current = refl; config = refl; running = λ u. refl }
    by_owner (some c) none = record { current = refl; config = refl; running = λ u. refl }
    by_owner (some c) (some o) =
        if_cases (RunsOn k) (ltb (k.tcb o).priority (k.tcb c).priority)
          (λ _. effective_priority_set-RunsOn o (k.tcb c).priority k)
          (λ _. record { current = refl; config = refl; running = λ u. refl })
