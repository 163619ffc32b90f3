-- ===== src/Task/Frame.antt =====
-- What the list operations of core/os_task.c leave alone: the configuration, the current task, the
-- locks and clocks, and all of a control block but the fields that they are about.
use ahura_kernel.Prelude.{
  ◌≡◌, refl, ◌∙◌, true, Option, none, some, arith, ◌==◌, if◌then◌else◌, update, remove, ◌≢◌, ◌&&◌,
  List, [], ◌∷◌, if_cases,
}
use ahura_kernel.Task.State.{
  Kernel, Task, WaiterList, ready, wait_forever, is_blocked, is_ready, set_tcb,
}
use ahura_kernel.Task.Wake.{signal, waiters_wake_one, wake_compensate}
use ahura_kernel.Task.Sched.{
  make_ready, leave_state_list, leave_wait_list, unlink, switch_request, preempt_request,
  preempt_if_running,
}

-- The scheduler's variables that no list operation writes.
pub record SameCore (k k' : Kernel) : Type 0 where
  pub config : k'.config ≡ k.config
  pub current : k'.current ≡ k.current
  pub lock_count : k'.lock_count ≡ k.lock_count
  pub is_running : k'.is_running ≡ k.is_running
  pub in_isr : k'.in_isr ≡ k.in_isr
  pub tick_count : k'.tick_count ≡ k.tick_count
  pub next_id : k'.next_id ≡ k.next_id
  pub slice_left : k'.slice_left ≡ k.slice_left

pub SameCore-trans : {k l m : Kernel} → SameCore k l → SameCore l m → SameCore k m
SameCore-trans p q = record {
  config = q.config ∙ p.config;
  current = q.current ∙ p.current;
  lock_count = q.lock_count ∙ p.lock_count;
  is_running = q.is_running ∙ p.is_running;
  in_isr = q.in_isr ∙ p.in_isr;
  tick_count = q.tick_count ∙ p.tick_count;
  next_id = q.next_id ∙ p.next_id;
  slice_left = q.slice_left ∙ p.slice_left;
}

module _ (t : Task) (k : Kernel) where
  leave_state_list-SameCore : SameCore k (leave_state_list t k)
  unfolding leave_state_list
  leave_state_list-SameCore = ground arith

  leave_wait_list-SameCore : SameCore k (leave_wait_list t k)
  unfolding leave_wait_list
  leave_wait_list-SameCore = ground arith

  leave_state_list-tcb : (leave_state_list t k).tcb ≡ k.tcb
  unfolding leave_state_list
  leave_state_list-tcb = ground arith

  leave_state_list-waiters : (leave_state_list t k).waiters ≡ k.waiters
  unfolding leave_state_list
  leave_state_list-waiters = ground arith

  pub make_ready-SameCore : SameCore k (make_ready t k)
  unfolding make_ready
  make_ready-SameCore = ground arith

  -- make_ready writes the state of `t` and of no other task.
  pub make_ready-tcb :
      (u : Task)
      → (make_ready t k).tcb u ≡ (if t == u then record (k.tcb t) { state = ready } else k.tcb u)
  unfolding make_ready
  make_ready-tcb u = refl

  pub preempt_if_running-SameCore : SameCore k (preempt_if_running t k)
  unfolding preempt_if_running preempt_request switch_request
  preempt_if_running-SameCore = ground arith

  pub preempt_if_running-tcb : (preempt_if_running t k).tcb ≡ k.tcb
  unfolding preempt_if_running preempt_request switch_request
  preempt_if_running-tcb = ground arith

module _ (t : Task) (k : Kernel) where
  pub unlink-SameCore : SameCore k (unlink t k)
  unfolding unlink
  unlink-SameCore =
      SameCore-trans (leave_state_list-SameCore t k)
        (leave_wait_list-SameCore t (leave_state_list t k))

  -- os_task_unlink writes only the waiter list pointer of `t`.
  leave_wait_list-tcb :
      (u : Task)
      → (leave_wait_list t k).tcb u
        ≡ (if t == u then record (k.tcb t) { wait_list = none } else k.tcb u)
  unfolding leave_wait_list
  leave_wait_list-tcb u = ground arith

module _ (t : Task) (k : Kernel) where
  pub unlink-tcb :
      (u : Task)
      → (unlink t k).tcb u ≡ (if t == u then record (k.tcb t) { wait_list = none } else k.tcb u)
  unfolding unlink
  unlink-tcb u = rw (leave_wait_list-tcb t (leave_state_list t k) u, leave_state_list-tcb t k) refl

  pub unlink-wait_list : ((unlink t k).tcb t).wait_list ≡ none
  unlink-wait_list = ground (arith, unlink-tcb t)

module _ (k : Kernel) where
  pub switch_request-SameCore : SameCore k (switch_request k)
  unfolding switch_request
  switch_request-SameCore = ground arith

-- Which lists os_task_unlink changes.
module _ (t : Task) (k : Kernel) where
  pub unlink-waiters :
      (w : WaiterList)
      → (k.tcb t).wait_list ≡ some w
      → (unlink t k).waiters ≡ update k.waiters w (remove t (k.waiters w))
  unfolding unlink leave_wait_list
  unlink-waiters w e = ground (arith, leave_state_list-tcb t k, leave_state_list-waiters t k)

  leave_wait_list-delay_list : (leave_wait_list t k).delay_list ≡ k.delay_list
  unfolding leave_wait_list
  leave_wait_list-delay_list = ground arith

  leave_state_list-delay_list :
      is_blocked (k.tcb t).state ≡ true
      → (k.tcb t).delay_ticks ≢ wait_forever
      → (leave_state_list t k).delay_list ≡ remove t k.delay_list
  unfolding leave_state_list
  leave_state_list-delay_list b f = ground arith

module _ (t : Task) (k : Kernel) where
  pub unlink-delay_list :
      is_blocked (k.tcb t).state ≡ true
      → (k.tcb t).delay_ticks ≢ wait_forever
      → (unlink t k).delay_list ≡ remove t k.delay_list
  unfolding unlink
  unlink-delay_list b f =
      leave_wait_list-delay_list t (leave_state_list t k) ∙ leave_state_list-delay_list t k b f

  pub preempt_if_running-waiters : (preempt_if_running t k).waiters ≡ k.waiters
  unfolding preempt_if_running preempt_request switch_request
  preempt_if_running-waiters = ground arith

  pub preempt_if_running-delay_list : (preempt_if_running t k).delay_list ≡ k.delay_list
  unfolding preempt_if_running preempt_request switch_request
  preempt_if_running-delay_list = ground arith

-- The wake-up paths run no task and change no lock.
module _ (t : Task) (k : Kernel) where
  pub signal-SameCore : (w : WaiterList) → SameCore k (signal w t k)
  unfolding signal
  signal-SameCore w =
      let k₂ : Kernel = set_tcb (unlink t k) t (record ((unlink t k).tcb t) {
        delay_ticks = (k.tcb t).delay_ticks;
        wait_signaled = true;
        woken_from = some w;
      }) in
      SameCore-trans (unlink-SameCore t k) (
        SameCore-trans {l = k₂} (ground arith) (
          SameCore-trans (make_ready-SameCore t k₂)
            (preempt_if_running-SameCore t (make_ready t k₂))))

pub wake_one-SameCore : (w : WaiterList) (k : Kernel) → SameCore k (waiters_wake_one w k).1
unfolding waiters_wake_one
wake_one-SameCore w k = by_list (k.waiters w) refl
  where
    by_list : (ts : List Task) → k.waiters w ≡ ts → SameCore k (waiters_wake_one w k).1
    by_list [] e = rw (e, waiters_wake_one) (ground arith)
    by_list (t ∷ ts) e = rw (e, waiters_wake_one) (signal-SameCore t k w)

pub wake_compensate-SameCore : (t : Task) (k : Kernel) → SameCore k (wake_compensate t k)
unfolding wake_compensate
wake_compensate-SameCore t k =
    if_cases (SameCore k) (is_ready (k.tcb t).state && (k.tcb t).wait_signaled)
      (λ _. source (k.tcb t).woken_from) (λ _. ground arith)
  where
    source :
        (o : Option WaiterList)
        → SameCore k (elim o [
          | none ↦ k
          | some w ↦ (waiters_wake_one w (set_tcb k t (record (k.tcb t) { woken_from = none }))).1
        ])
    source none = ground arith
    source (some w) =
        SameCore-trans {l = set_tcb k t (record (k.tcb t) { woken_from = none })} (ground arith)
          (wake_one-SameCore w (set_tcb k t (record (k.tcb t) { woken_from = none })))
