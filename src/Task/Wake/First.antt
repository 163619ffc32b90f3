-- ===== src/Task/Wake/First.antt =====
-- os_task_waiters_wake_one wakes the first of the highest-priority waiters, and nothing else.
use ahura_kernel.Prelude.{
  ℕ, ◌≤◌, ◌≡◌, ◌≢◌, refl, ap, subst, ◌∙◌, Bool, true, Option, none, some, List, [], ◌∷◌, arith,
  ◌==◌, if◌then◌else◌, is, Bool-cases, inl, inr, count, remove, update,
}
use ahura_kernel.Task.State.{Kernel, Task, WaiterList, set_tcb, is_ready, ready}
use ahura_kernel.Task.Sched.{unlink, make_ready}
use ahura_kernel.Task.Wake.{signal, waiters_wake_one}
use ahura_kernel.Task.Frame.{
  preempt_if_running-tcb, preempt_if_running-waiters, unlink-tcb, unlink-waiters,
}
use ahura_kernel.Task.Inv.{Below, Sorted, IsValid}

-- What it means that the first waiter `t` of the list `w` is woken.
pub record WakesFirst (w : WaiterList) (t : Task) (k : Kernel) (r : Bool × Kernel) : Type 0 where
  pub woken : r.0 ≡ true
  pub state : is_ready (r.1.tcb t).state ≡ true
  pub signaled : (r.1.tcb t).wait_signaled ≡ true
  pub source : (r.1.tcb t).woken_from ≡ some w
  pub waits_no_more : (r.1.tcb t).wait_list ≡ none
  pub keeps_budget : (r.1.tcb t).delay_ticks ≡ (k.tcb t).delay_ticks
  pub leaves_list : r.1.waiters ≡ update k.waiters w (remove t (k.waiters w))
  pub highest :
      (u : Task) → is (k.tcb u).wait_list w ≡ true → (k.tcb u).priority ≤ (k.tcb t).priority
  pub others : (u : Task) → u ≢ t → r.1.tcb u ≡ k.tcb u

Below-count :
    (priority : Task → ℕ) (b : ℕ) (xs : List Task) (u : Task)
    → Below priority b xs
    → count u xs ≢ 0
    → priority u ≤ b
Below-count priority b [] u h ne = absurd (ne refl)
Below-count priority b (x ∷ xs) u (here, rest) ne = elim (Bool-cases (x == u)) [
  | inl e ↦ ground (arith, here)
  | inr e ↦ Below-count priority b xs u rest (ground (arith, ne))
]

module _ {k : Kernel} (inv : IsValid k) (w : WaiterList) (t : Task) (ts : List Task)
    (first : k.waiters w ≡ t ∷ ts) where
  pub head_waits : is (k.tcb t).wait_list w ≡ true
  head_waits = ground (arith, inv.wait_count w t, ap (count t) first)

  pub head_highest :
      (u : Task) → is (k.tcb u).wait_list w ≡ true → (k.tcb u).priority ≤ (k.tcb t).priority
  head_highest u h =
      let order : Sorted (λ v. (k.tcb v).priority) (t ∷ ts) =
        subst (Sorted (λ v. (k.tcb v).priority)) first (inv.sorted w) in
      elim (Bool-cases (t == u)) [
        | inl e ↦ ground arith
        | inr e ↦
            Below-count (λ v. (k.tcb v).priority) (k.tcb t).priority ts u order.0
              (ground (arith, inv.wait_count w u, ap (count u) first))
      ]

  signal-tcb :
      (u : Task)
      → (signal w t k).tcb u ≡ (
          if t == u
          then record (k.tcb t) {
            wait_list = none;
            delay_ticks = (k.tcb t).delay_ticks;
            wait_signaled = true;
            woken_from = some w;
            state = ready;
          }
          else k.tcb u)
  unfolding signal make_ready
  signal-tcb u = ground (
    arith,
    unlink-tcb t k u,
    unlink-tcb t k t,
    preempt_if_running-tcb t (
        make_ready t (
          set_tcb (unlink t k) t (record ((unlink t k).tcb t) {
            delay_ticks = (k.tcb t).delay_ticks;
            wait_signaled = true;
            woken_from = some w;
          }))),
  )

  signal-waiters : (signal w t k).waiters ≡ update k.waiters w (remove t (k.waiters w))
  unfolding signal make_ready
  signal-waiters =
      preempt_if_running-waiters t (
        make_ready t (
          set_tcb (unlink t k) t (record ((unlink t k).tcb t) {
            delay_ticks = (k.tcb t).delay_ticks;
            wait_signaled = true;
            woken_from = some w;
          })))
      ∙ unlink-waiters t k w (waits_on w (k.tcb t).wait_list head_waits)
    where
      waits_on : (v : WaiterList) (o : Option WaiterList) → is o v ≡ true → o ≡ some v
      waits_on v none h = absurd (cc h)
      waits_on v (some x) h = ground arith

  -- os_task_waiters_wake_one on a list that is not empty makes its first waiter READY, signaled and
  -- with its timeout budget; no waiter of the list has a higher priority, and no other task
  -- control block is written.
  pub wake_one-first : WakesFirst w t k (waiters_wake_one w k)
  unfolding waiters_wake_one
  wake_one-first =
      rw (first, waiters_wake_one)
        (record {
          woken = refl;
          state = ground (arith, signal-tcb t);
          signaled = ground (arith, signal-tcb t);
          source = ground (arith, signal-tcb t);
          waits_no_more = ground (arith, signal-tcb t);
          keeps_budget = ground (arith, signal-tcb t);
          leaves_list = signal-waiters;
          highest = head_highest;
          others = λ u ne. ground (arith, signal-tcb u);
        })
