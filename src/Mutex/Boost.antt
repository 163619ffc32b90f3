-- ===== src/Mutex/Boost.antt =====
-- Priority inheritance as os_mutex_lock and os_mutex_unlock use it.
use ahura_kernel.Prelude.{
  ℕ, ◌≤◌, ◌≡◌, ◌≢◌, refl, sym, subst, ◌∙◌, Bool, true, false, not, ◌&&◌, ◌||◌, some, List, [], ◌∷◌,
  arith, ◌==◌, if_cases, remove,
}
use ahura_kernel.Task.State.{
  Status, invalid_arg, error, not_owner, Kernel, Task, WaiterList, set_tcb,
}
use ahura_kernel.Task.Sched.{unlink, make_ready, wait_node_insert, switch_request, find_by_id}
use ahura_kernel.Task.Wake.{signal, waiters_wake_one}
use ahura_kernel.Task.Wait.{wait_on, wait_begin, delay_if_finite, current_id_get}
use ahura_kernel.Task.Frame.{unlink-tcb, preempt_if_running-tcb}
use ahura_kernel.Task.Inherit.{priority_inherit, owner_unlink_and_reprioritize}
use ahura_kernel.Task.Inherit.Boost.{
  priority_inherit-Raises, Restored, Source, owner_unlink-Restored,
}
use ahura_kernel.Task.Inv.{IsValid}
use ahura_kernel.Sync.{Turn, is_ok, blocks, Budget, must_not_wait}
use ahura_kernel.Mutex.{Mutex, lock_round, unlock, hand_over}

-- Blocking and waking change no priority.
abbrev SamePriorities : Kernel → Kernel → Type 0
SamePriorities k k' = (u : Task) → (k'.tcb u).priority ≡ (k.tcb u).priority

wait_begin-SamePriorities :
    (w : WaiterList) (ticks : ℕ) (k : Kernel) → SamePriorities k (wait_begin w ticks k)
unfolding wait_begin wait_on wait_node_insert delay_if_finite switch_request
wait_begin-SamePriorities w ticks k u = ground arith

signal-SamePriorities : (w : WaiterList) (t : Task) (k : Kernel) → SamePriorities k (signal w t k)
unfolding signal make_ready
signal-SamePriorities w t k u = ground (
  arith,
  unlink-tcb t k u,
  unlink-tcb t k t,
  preempt_if_running-tcb t (
      make_ready t (
        set_tcb (unlink t k) t (record ((unlink t k).tcb t) {
          delay_ticks = (k.tcb t).delay_ticks;
          wait_signaled = true;
          woken_from = some w;
        }))),
)

wake_one-SamePriorities : (w : WaiterList) (k : Kernel) → SamePriorities k (waiters_wake_one w k).1
unfolding waiters_wake_one
wake_one-SamePriorities w k = by_list (k.waiters w)
  where
    by_list :
        (ts : List Task)
        → SamePriorities k
            (elim ts as (λ _. Bool × Kernel) [ [] ↦ (false, k) | t ∷ _ ↦ (true, signal w t k) ]).1
    by_list [] u = refl
    by_list (t ∷ _) u = signal-SamePriorities w t k u

-- What a round of os_mutex_lock does if it blocks its caller `c` on a mutex of the task `o`.
pub record Inherits (c o : Task) (k : Kernel) (r : Turn × Mutex × Kernel) : Type 0 where
  pub turn : r.0 ≡ blocks
  pub owner : (k.tcb c).priority ≤ (r.2.tcb o).priority
  pub nobody_falls : (u : Task) → (k.tcb u).priority ≤ (r.2.tcb u).priority

-- A round of os_mutex_lock on a mutex of another task that is found blocks its caller, if blocking
-- is possible and time remains; then the owner's priority is at least the caller's.
pub lock_round-Inherits :
    (self_id : ℕ) (b : Budget) (m : Mutex) (c o : Task) (k : Kernel)
    → m.locked ≡ true
    → (not (self_id == 0) && m.owner_id == self_id) ≡ false
    → must_not_wait b k ≡ false
    → b.remaining_ticks ≢ 0
    → k.current ≡ some c
    → find_by_id m.owner_id k ≡ some o
    → Inherits c o k (lock_round self_id b m k)
unfolding lock_round
lock_round-Inherits self_id b m c o k l other may time e f =
    if_cases (Inherits c o k) (not m.locked) (λ h. absurd (ground (arith, l)))
      λ _.
        if_cases (Inherits c o k)
          ((not (self_id == 0) && m.owner_id == self_id) || must_not_wait b k)
          (λ h. absurd (ground (arith, other, may)))
          (λ _.
            if_cases (Inherits c o k) (b.remaining_ticks == 0) (λ h. absurd (ground (arith, time)))
              (λ _.
                let raised = priority_inherit-Raises m.owner_id c o k e f in
                let k₁ = priority_inherit m.owner_id k in
                record {
                  turn = refl;
                  owner = omega (
                    arith,
                    raised.owner,
                    wait_begin-SamePriorities m.waiters b.remaining_ticks k₁ o,
                  );
                  nobody_falls = λ u. omega (
                    arith,
                    raised.nobody_falls u,
                    wait_begin-SamePriorities m.waiters b.remaining_ticks k₁ u,
                  );
                }))

Restored-same :
    (o : Task) (held : List WaiterList) (k k₁ k₂ : Kernel)
    → Restored o held k k₁
    → SamePriorities k₁ k₂
    → Restored o held k k₂
Restored-same o held k k₁ k₂ r same = record {
  at_least_base = omega (arith, r.at_least_base, same o);
  at_least_waiters = λ m u h w. omega (arith, r.at_least_waiters m u h w, same o);
  no_more = subst (Source k held (k.tcb o).base_priority) (sym (same o)) r.no_more;
  others = λ u ne. same u ∙ r.others u ne;
}

-- What os_mutex_unlock leaves of the boost of the task `o`, if it succeeds.
pub record Restores (o : Task) (held : List WaiterList) (k : Kernel) (r : Status × Mutex × Kernel)
    : Type 0 where
  pub restored : is_ok r.0 ≡ true → Restored o held k r.2

-- If os_mutex_unlock succeeds on a mutex of the task `o`, the priority of `o` afterwards is its
-- base priority or that of a task waiting for a mutex that it still holds, and is at least as high
-- as each of these.
pub unlock-Restores :
    (m : Mutex) (o : Task) (k : Kernel)
    → IsValid k
    → find_by_id m.owner_id k ≡ some o
    → Restores o (remove m.waiters (k.tcb o).owned_mutexes) k (unlock m k)
unfolding unlock hand_over
unlock-Restores m o k inv f =
    let held = remove m.waiters (k.tcb o).owned_mutexes in
    let k₁ = owner_unlink_and_reprioritize m.owner_id m.waiters k in
    if_cases (Restores o held k) k.in_isr (λ _. refused invalid_arg refl)
      λ _.
        if_cases (Restores o held k) (not m.locked) (λ _. refused error refl)
          λ _.
            if_cases (Restores o held k)
              (not (m.owner_id == 0)
                && not (current_id_get k == 0)
                && not (m.owner_id == current_id_get k))
              (λ _. refused not_owner refl)
              (λ _. record {
                restored = λ _.
                    Restored-same o held k k₁ (waiters_wake_one m.waiters k₁).1
                      (owner_unlink-Restored m.owner_id m.waiters o k inv f)
                      (wake_one-SamePriorities m.waiters k₁);
              })
  where
    refused :
        (status : Status)
        → is_ok status ≡ false
        → Restores o (remove m.waiters (k.tcb o).owned_mutexes) k (status, m, k)
    refused status e = record { restored = λ t. absurd (cc (t, e)) }
