-- ===== src/Task/Inv/Wait.antt =====
-- Blocking the calling task keeps the invariant.
use ahura_kernel.Prelude.{
  ℕ, ◌<◌, ◌^◌, ◌≡◌, ◌≢◌, refl, ap, subst, fun_ext, true, false, none, some, arith, ◌==◌, if_cases,
  Option-cases, inl, inr, update,
}
use ahura_kernel.Task.State.{
  Kernel, Tcb, Task, WaiterList, blocked, set_tcb, idle, is_run, is_blocked,
}
use ahura_kernel.Task.Sched.{wait_node_insert, insert_by}
use ahura_kernel.Task.Wait.{sleep_task, sleep_ticks, wait_on, wait_begin, wait_end, wait_data_set}
use ahura_kernel.Task.Inv.{Inv, IsValid, IsValidWithout, no_task, only}
use ahura_kernel.Task.Inv.Lists.{Settled, set_out-Inv, set_tcb-Inv}
use ahura_kernel.Task.Inv.Request.{switch_request-Inv}
use ahura_kernel.Task.Inv.Join.{out_of_lists-Inv, insert-Inv, no_waiters-Inv, delay-Inv}

-- Insertion in a waiter list reads priorities alone, so it may come before or after a write that
-- keeps the priority.
insert_before_write :
    (w : WaiterList) (t : Task) (c : Tcb) (k : Kernel)
    → c.priority ≡ (k.tcb t).priority
    → wait_node_insert w t (set_tcb k t c) ≡ set_tcb (wait_node_insert w t k) t c
unfolding wait_node_insert
insert_before_write w t c k e =
    ap (λ f. record (set_tcb k t c) { waiters = update k.waiters w (insert_by f t (k.waiters w)) })
      (fun_ext λ u. ground arith)

module _ (t : Task) {k : Kernel} (inv : IsValid k) (run : is_run (k.tcb t).state ≡ true)
    (real : t ≢ idle k) where
  free : IsValidWithout t k
  free = out_of_lists-Inv t inv (ground arith) (ground arith)

  waits_on_none : (k.tcb t).wait_list ≡ none
  waits_on_none = elim (Option-cases ((k.tcb t).wait_list)) [
    | inl e ↦ e
    | inr (w, e) ↦ absurd (ground (arith, inv.waits_blocked w t))
  ]

  settled :
      (c : Tcb)
      → c.priority ≡ (k.tcb t).priority
      → c.delay_ticks < 2 ^ 32
      → is_blocked c.state ≡ true
      → c.base_priority < 32
      → Settled k t c
  settled c hp hd b hb = record {
    priority_small = ground (arith, inv.priority_small t);
    base_small = hb;
    delay_small = hd;
    waits_blocked = λ w h. b;
    runs = λ h. inv.runs t run;
    idle_awake = λ h. absurd (real h);
  }

  pub wait_on-IsValid :
      (w : WaiterList) (ticks : ℕ) → ticks < 2 ^ 32 → IsValid (wait_on w ticks t k)
  unfolding wait_on wait_node_insert
  wait_on-IsValid w ticks h =
      let c : Tcb = record (k.tcb t) {
        wait_list = some w;
        wait_signaled = false;
        woken_from = none;
        delay_ticks = ticks;
        state = blocked;
      } in
      let joined : Inv (only t) no_task (set_tcb (wait_node_insert w t k) t c) =
        subst (Inv (only t) no_task) (insert_before_write w t c k refl) (
          insert-Inv t (set_out-Inv free c (settled c refl h refl (inv.base_small t))) w
            (ground arith)) in
      switch_request-Inv (delay-Inv t ticks joined (ground arith) (ground arith))

  pub sleep_task-IsValid : (ticks : ℕ) → ticks < 2 ^ 32 → IsValid (sleep_task ticks t k)
  unfolding sleep_task
  sleep_task-IsValid ticks h =
      let c : Tcb = record (k.tcb t) { delay_ticks = ticks; state = blocked } in
      switch_request-Inv (
        delay-Inv t ticks
          (no_waiters-Inv t (set_out-Inv free c (settled c refl h refl (inv.base_small t)))
            (ground (arith, waits_on_none)))
          (ground arith) (ground arith))

-- The calling task, where there is one and it is not the idle task, is executing.
abbrev pub Executing : Kernel → Type 0
Executing k = (t : Task) → k.current ≡ some t → t ≢ idle k → is_run (k.tcb t).state ≡ true

-- os_task_wait_begin keeps the invariant.
pub wait_begin-IsValid :
    (w : WaiterList) (ticks : ℕ) {k : Kernel}
    → IsValid k
    → Executing k
    → ticks < 2 ^ 32
    → IsValid (wait_begin w ticks k)
unfolding wait_begin
wait_begin-IsValid w ticks {k} inv ex h = elim (Option-cases k.current) [
  | inl e ↦ rw (e, wait_begin) inv
  | inr (t, e) ↦
      rw (e, wait_begin)
        (if_cases IsValid (t == idle k) (λ _. inv)
          (λ n. wait_on-IsValid t inv (ex t e (ground arith)) (ground arith) w ticks h))
]

pub sleep_ticks-IsValid :
    (ticks : ℕ) {k : Kernel}
    → IsValid k
    → Executing k
    → ticks < 2 ^ 32
    → IsValid (sleep_ticks ticks k)
unfolding sleep_ticks
sleep_ticks-IsValid ticks {k} inv ex h =
    if_cases IsValid (ticks == 0) (λ _. inv)
      λ _. elim (Option-cases k.current) [
        | inl e ↦ rw (e, sleep_ticks) inv
        | inr (t, e) ↦
            rw (e, sleep_ticks)
              (if_cases IsValid _ (λ _. inv)
                (λ n. sleep_task-IsValid t inv (ex t e (ground arith)) (ground arith) ticks h))
      ]

pub wait_end-IsValid : {k : Kernel} → IsValid k → IsValid (wait_end k)
unfolding wait_end
wait_end-IsValid {k} inv =
    if_cases IsValid k.in_isr (λ _. inv)
      λ _. elim (Option-cases k.current) [
        | inl e ↦ rw (e, wait_end) inv
        | inr (t, e) ↦ rw (e, wait_end) (set_tcb-Inv inv t _ (ground arith))
      ]

pub wait_data_set-IsValid :
    (data0 data1 : ℕ) {k : Kernel} → IsValid k → IsValid (wait_data_set data0 data1 k)
unfolding wait_data_set
wait_data_set-IsValid data0 data1 {k} inv = elim (Option-cases k.current) [
  | inl e ↦ rw (e, wait_data_set) inv
  | inr (t, e) ↦ rw (e, wait_data_set) (set_tcb-Inv inv t _ (ground arith))
]
