-- ===== src/Task/Inv/Wake.antt =====
-- The wake-up paths of core/os_task.c keep the invariant.
use ahura_kernel.Prelude.{
  ℕ, zero, suc, ◌+◌, ◌<◌, ◌^◌, ◌≡◌, ◌≢◌, refl, true, false, not, ◌&&◌, Option, none, some, List, [],
  ◌∷◌, arith, ◌==◌, if_cases, Bool-cases, inl, inr, count, length,
}
use ahura_kernel.Task.State.{
  Kernel, Task, WaiterList, set_tcb, idle, is_ready, is_blocked, is_inactive,
}
use ahura_kernel.Task.Sched.{unlink, find_from, find_by_id}
use ahura_kernel.Task.Wake.{
  signal, waiters_wake_one, wake_all_loop, waiters_wake_all, deliver, wake_locked, wake,
  wake_compensate,
}
use ahura_kernel.Task.Frame.{unlink-wait_list, unlink-tcb}
use ahura_kernel.Task.Inv.{IsValid}
use ahura_kernel.Task.Inv.Lists.{set_tcb-Inv}
use ahura_kernel.Task.Inv.Request.{preempt_if_running-Inv, requeue-IsValid}

-- os_task_find_by_id finds a live task of the table with the id.
pub record Found (id : ℕ) (k : Kernel) (t : Task) : Type 0 where
  pub in_table : t < k.table_size
  pub live : is_inactive (k.tcb t).state ≡ false
  pub has_id : (k.tcb t).id ≡ id

find_from-Found :
    (n i id : ℕ) (k : Kernel) (t : Task)
    → i + n ≡ k.table_size
    → find_from n i id k ≡ some t
    → Found id k t
unfolding find_from
find_from-Found zero i id k t h e = absurd (cc e)
find_from-Found (suc n) i id k t h e =
    elim (Bool-cases (not (is_inactive (k.tcb i).state) && (k.tcb i).id == id)) [
      | inl hit ↦ ground arith
      | inr miss ↦ find_from-Found n (i + 1) id k t (omega arith) (ground arith)
    ]

pub find_by_id-Found : (id : ℕ) (k : Kernel) (t : Task) → find_by_id id k ≡ some t → Found id k t
unfolding find_by_id
find_by_id-Found id k t e = find_from-Found k.table_size 0 id k t (omega arith) e

-- A task of the table is not the idle task.
pub find_by_id-ne-idle : (id : ℕ) (k : Kernel) (t : Task) → find_by_id id k ≡ some t → t ≢ idle k
find_by_id-ne-idle id k t e = omega (arith, find_by_id-Found id k t e)

module _ {k : Kernel} (inv : IsValid k) where
  -- Whoever stands in a waiter list waits on it, is BLOCKED, and is not the idle task.
  pub waiter_blocked :
      (w : WaiterList) (t : Task) → count t (k.waiters w) ≢ 0 → is_blocked (k.tcb t).state ≡ true
  waiter_blocked w t h = inv.waits_blocked w t (ground (arith, inv.wait_count w t))

  pub waiter-ne-idle : (w : WaiterList) (t : Task) → count t (k.waiters w) ≢ 0 → t ≢ idle k
  waiter-ne-idle w t h = ground (arith, waiter_blocked w t h, inv.idle_awake)

  still_small : (t : Task) → ((unlink t k).tcb t).delay_ticks < 2 ^ 32
  still_small t = ground (arith, inv.delay_small t, unlink-tcb t k t)

  still_base : (t : Task) → ((unlink t k).tcb t).base_priority < 32
  still_base t = ground (arith, inv.base_small t, unlink-tcb t k t)

  pub signal-IsValid :
      (w : WaiterList) (t : Task) → count t (k.waiters w) ≢ 0 → IsValid (signal w t k)
  unfolding signal
  signal-IsValid w t h =
      preempt_if_running-Inv
        (requeue-IsValid t inv (waiter-ne-idle w t h) _ refl refl (unlink-wait_list t k)
          (inv.delay_small t) (still_base t))
        t

  pub deliver-IsValid :
      (w : WaiterList) (t : Task) (result : ℕ)
      → count t (k.waiters w) ≢ 0
      → IsValid (deliver w t result k)
  unfolding deliver
  deliver-IsValid w t result h =
      preempt_if_running-Inv
        (requeue-IsValid t inv (waiter-ne-idle w t h) _ refl refl (unlink-wait_list t k)
          (inv.delay_small t) (still_base t))
        t

  pub wake_locked-IsValid : (t : Task) → IsValid (wake_locked t k)
  unfolding wake_locked
  wake_locked-IsValid t =
      if_cases IsValid (is_blocked (k.tcb t).state)
        (λ b.
          preempt_if_running-Inv
            (requeue-IsValid t inv (ground (arith, inv.idle_awake)) _ refl refl
              (unlink-wait_list t k) (still_small t) (still_base t))
            t)
        (λ _. inv)

-- os_task_waiters_wake_one keeps the invariant.
pub wake_one-IsValid : (w : WaiterList) {k : Kernel} → IsValid k → IsValid (waiters_wake_one w k).1
unfolding waiters_wake_one
wake_one-IsValid w {k} inv = by_list (k.waiters w) refl
  where
    by_list : (ts : List Task) → k.waiters w ≡ ts → IsValid (waiters_wake_one w k).1
    by_list [] e = rw (e, waiters_wake_one) inv
    by_list (t ∷ ts) e = rw (e, waiters_wake_one) (signal-IsValid inv w t (rw e (ground arith)))

wake_all_loop-IsValid :
    (n : ℕ) (w : WaiterList) {k : Kernel} → IsValid k → IsValid (wake_all_loop n w k)
unfolding wake_all_loop
wake_all_loop-IsValid zero w inv = inv
wake_all_loop-IsValid (suc n) w {k} inv =
    if_cases IsValid (waiters_wake_one w k).0
      (λ _. wake_all_loop-IsValid n w (wake_one-IsValid w inv)) (λ _. wake_one-IsValid w inv)

pub wake_all-IsValid : (w : WaiterList) {k : Kernel} → IsValid k → IsValid (waiters_wake_all w k)
unfolding waiters_wake_all
wake_all-IsValid w {k} inv = wake_all_loop-IsValid (length (k.waiters w) + 1) w inv

pub wake-IsValid : (id : ℕ) {k : Kernel} → IsValid k → IsValid (wake id k)
unfolding wake
wake-IsValid id {k} inv = if_cases IsValid (id == 0) (λ _. inv) λ _. found (find_by_id id k) refl
  where
    found :
        (o : Option Task)
        → find_by_id id k ≡ o
        → IsValid (elim o [ none ↦ k | some t ↦ wake_locked t k ])
    found none e = inv
    found (some t) e = wake_locked-IsValid inv t

pub wake_compensate-IsValid : (t : Task) {k : Kernel} → IsValid k → IsValid (wake_compensate t k)
unfolding wake_compensate
wake_compensate-IsValid t {k} inv =
    if_cases IsValid (is_ready (k.tcb t).state && (k.tcb t).wait_signaled)
      (λ _. source (k.tcb t).woken_from) (λ _. inv)
  where
    source :
        (o : Option WaiterList)
        → IsValid (elim o [
          | none ↦ k
          | some w ↦ (waiters_wake_one w (set_tcb k t (record (k.tcb t) { woken_from = none }))).1
        ])
    source none = inv
    source (some w) = wake_one-IsValid w (set_tcb-Inv inv t _ (ground arith))
