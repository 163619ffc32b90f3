-- ===== src/Task/Inv/Request.antt =====
-- The invariant under switch requests, which write two flags, and under the step that most
-- operations share: out of every list, rewritten, and into a ready list.
use ahura_kernel.Prelude.{
  ◌<◌, ◌^◌, ◌≡◌, ◌≢◌, Bool, true, none, arith, ◌==◌, if_cases, not, Option-cases, inl, inr,
}
use ahura_kernel.Task.State.{Kernel, Tcb, Task, set_tcb, idle}
use ahura_kernel.Task.Sched.{
  unlink, make_ready, switch_request, preempt_request, preempt_if_running,
}
use ahura_kernel.Task.Frame.{unlink-SameCore}
use ahura_kernel.Task.Inv.{Inv, IsValid}
use ahura_kernel.Task.Inv.Lists.{Settled, set_out-Inv, make_ready-IsValid}
use ahura_kernel.Task.Inv.Unlink.{unlink-Inv}

module _ {out wait_out : Task → Bool} {k : Kernel} (inv : Inv out wait_out k) where
  -- The two switch flags are outside the invariant.
  pub flags-Inv :
      (p r : Bool) → Inv out wait_out (record k { switch_pending = p; switch_requested = r })
  flags-Inv p r = record {
    ready_count = inv.ready_count;
    delay_count = inv.delay_count;
    wait_count = inv.wait_count;
    bitmap = inv.bitmap;
    bitmap_small = inv.bitmap_small;
    priority_small = inv.priority_small;
    base_small = inv.base_small;
    delay_small = inv.delay_small;
    sorted = inv.sorted;
    waits_blocked = inv.waits_blocked;
    runs = inv.runs;
    idle_awake = inv.idle_awake;
  }

  pub switch_request-Inv : Inv out wait_out (switch_request k)
  unfolding switch_request
  switch_request-Inv =
      if_cases (Inv out wait_out) (not (k.lock_count == 0)) (λ _. flags-Inv true k.switch_requested)
        (λ _. flags-Inv k.switch_pending true)

  pub preempt_request-Inv : (t : Task) → Inv out wait_out (preempt_request t k)
  unfolding preempt_request
  preempt_request-Inv t = elim (Option-cases k.current) [
    | inl e ↦ rw (e, preempt_request) switch_request-Inv
    | inr (c, e) ↦
        rw (e, preempt_request) (if_cases (Inv out wait_out) _ (λ _. switch_request-Inv) (λ _. inv))
  ]

  pub preempt_if_running-Inv : (t : Task) → Inv out wait_out (preempt_if_running t k)
  unfolding preempt_if_running
  preempt_if_running-Inv t =
      if_cases (Inv out wait_out) k.is_running (λ _. preempt_request-Inv t) (λ _. inv)

module _ (t : Task) {k : Kernel} (inv : IsValid k) (real : t ≢ idle k) where
  -- The idle task has the same address after os_task_unlink.
  still_real : t ≢ idle (unlink t k)
  still_real = ground (arith, unlink-SameCore t k)

  -- What may be written to a task that has left its lists: all but its priority, state and waiter
  -- list, at will.
  settled :
      (c : Tcb)
      → c.priority ≡ ((unlink t k).tcb t).priority
      → c.state ≡ ((unlink t k).tcb t).state
      → c.wait_list ≡ none
      → c.delay_ticks < 2 ^ 32
      → c.base_priority < 32
      → Settled (unlink t k) t c
  settled c hp hs hw hd hb =
      let v = unlink-Inv t inv real in
      record {
        priority_small = ground (arith, v.priority_small t);
        base_small = hb;
        delay_small = hd;
        waits_blocked = λ w h. ground arith;
        runs = λ h. v.runs t (rw (← hs) h);
        idle_awake = λ h. absurd (still_real h);
      }

  -- Out of every list, rewritten, and READY.
  pub requeue-IsValid :
      (c : Tcb)
      → c.priority ≡ ((unlink t k).tcb t).priority
      → c.state ≡ ((unlink t k).tcb t).state
      → c.wait_list ≡ none
      → c.delay_ticks < 2 ^ 32
      → c.base_priority < 32
      → IsValid (make_ready t (set_tcb (unlink t k) t c))
  requeue-IsValid c hp hs hw hd hb =
      make_ready-IsValid (set_out-Inv (unlink-Inv t inv real) c (settled c hp hs hw hd hb))
        (ground arith) still_real
