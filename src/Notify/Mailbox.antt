-- ===== src/Notify/Mailbox.antt =====
-- The notification mailbox: what a task is given is what it next receives.
use ahura_kernel.Prelude.{
  ℕ, ◌≡◌, ◌≢◌, refl, ap, true, false, ◌&&◌, Option, none, some, arith, ◌==◌, if◌then◌else◌,
  if_cases,
}
use ahura_kernel.Task.State.{Kernel, Task, ready, ok, set_tcb, is_blocked, is_ready}
use ahura_kernel.Task.Sched.{unlink, make_ready}
use ahura_kernel.Task.Wake.{wake_locked}
use ahura_kernel.Task.Frame.{unlink-tcb, preempt_if_running-tcb}
use ahura_kernel.Sync.{Turn, returns, Budget}
use ahura_kernel.Notify.{set_slot, give_task, wait_task}

-- What os_notify_give does to the task `t` and to the others.
pub record Given (t : Task) (value : ℕ) (k k' : Kernel) : Type 0 where
  pub latched : (k'.tcb t).notify.value ≡ value
  pub pending : (k'.tcb t).notify.pending ≡ true
  pub woken :
      (is_blocked (k.tcb t).state && (k.tcb t).notify.waiting) ≡ true
      → is_ready (k'.tcb t).state ≡ true
  pub left_alone :
      (is_blocked (k.tcb t).state && (k.tcb t).notify.waiting) ≡ false
      → (k'.tcb t).state ≡ (k.tcb t).state
  pub others : (u : Task) → u ≢ t → k'.tcb u ≡ k.tcb u

pub wake_locked-tcb :
    (t : Task) (k : Kernel) (u : Task)
    → is_blocked (k.tcb t).state ≡ true
    → (wake_locked t k).tcb u ≡ (
        if t == u
        then record (k.tcb t) { wait_list = none; wait_signaled = true; state = ready }
        else k.tcb u)
unfolding wake_locked make_ready
wake_locked-tcb t k u b = ground (
  arith,
  b,
  unlink-tcb t k u,
  unlink-tcb t k t,
  preempt_if_running-tcb t (
      make_ready t (set_tcb (unlink t k) t (record ((unlink t k).tcb t) { wait_signaled = true }))),
)

-- os_notify_give latches the value for its task and makes the task READY exactly if it is blocked
-- in os_notify_wait; a task that is blocked on anything else keeps its state, and no other task
-- control block is written.
pub give_task-Given : (t : Task) (value : ℕ) (k : Kernel) → Given t value k (give_task t value k)
unfolding give_task
give_task-Given t value k =
    if_cases (Given t value k) (is_blocked (k.tcb t).state && (k.tcb t).notify.waiting)
      (λ h.
        let k₁ : Kernel =
          set_slot k t (record { value = value; pending = true; waiting = false }) in
        let b : is_blocked (k₁.tcb t).state ≡ true = ground arith in
        record {
          latched = ground (arith, wake_locked-tcb t k₁ t b);
          pending = ground (arith, wake_locked-tcb t k₁ t b);
          woken = λ _. ground (arith, wake_locked-tcb t k₁ t b);
          left_alone = λ no. absurd (cc (h, no));
          others = λ u ne. ground (arith, wake_locked-tcb t k₁ u b);
        })
      (λ h. record {
        latched = ground arith;
        pending = ground arith;
        woken = λ yes. absurd (cc (h, yes));
        left_alone = λ _. ground arith;
        others = λ u ne. ground arith;
      })

-- A task that has a notification pending receives it: a round of os_notify_wait by it returns OK
-- with the value latched, whatever the timeout, and leaves the mailbox empty.
pub wait_task-receives :
    (b : Budget) (t : Task) (value : ℕ) (k : Kernel)
    → let r = wait_task b t (give_task t value k) in
      (r.0 ≡ returns ok) × (r.1 ≡ some value) × ((r.2.tcb t).notify.pending ≡ false)
unfolding wait_task
wait_task-receives b t value k =
    let g = give_task-Given t value k in
    let k' = give_task t value k in
    if_cases
      (λ (r : Turn × Option ℕ × Kernel).
        (r.0 ≡ returns ok) × (r.1 ≡ some value) × ((r.2.tcb t).notify.pending ≡ false))
      (k'.tcb t).notify.pending (λ _. (refl, ap some g.latched, ground arith))
      (λ no. absurd (cc (no, g.pending)))
