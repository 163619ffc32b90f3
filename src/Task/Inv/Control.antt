-- ===== src/Task/Inv/Control.antt =====
-- os_task_start, os_task_pause, os_task_delete and os_task_priority_set keep the invariant.
use ahura_kernel.Prelude.{◌<◌, ◌^◌, ◌≡◌, ◌≢◌, true, none, arith, ltb, if◌then◌else◌, if_cases, is}
use ahura_kernel.Task.State.{
  Kernel, Tcb, Task, running, suspended, set_tcb, idle, is_run, is_blocked, core_count,
}
use ahura_kernel.Task.Sched.{unlink, make_ready, running_core_of}
use ahura_kernel.Task.Wake.{wake_compensate}
use ahura_kernel.Task.Control.{start_task, suspend}
use ahura_kernel.Task.Frame.{unlink-SameCore, unlink-wait_list, wake_compensate-SameCore}
use ahura_kernel.Task.Inv.{IsValid, IsValidWithout}
use ahura_kernel.Task.Inv.Lists.{set_out-Inv, set_tcb-Inv, make_ready-IsValid, settle-IsValid}
use ahura_kernel.Task.Inv.Unlink.{unlink-Inv}
use ahura_kernel.Task.Inv.Request.{switch_request-Inv, preempt_if_running-Inv}
use ahura_kernel.Task.Inv.Wake.{wake_compensate-IsValid}

-- A write to a task in no list that keeps it waiting on nothing.
pub write_out-Inv :
    (t : Task) (c : Tcb) {k : Kernel}
    → IsValidWithout t k
    → t ≢ idle k
    → c.priority < 32
    → c.base_priority < 32
    → c.delay_ticks < 2 ^ 32
    → c.wait_list ≡ none
    → (is_run c.state ≡ true → is k.current t ≡ true)
    → IsValidWithout t (set_tcb k t c)
write_out-Inv t c v real p b d w r = set_out-Inv v c (record {
  priority_small = p;
  base_small = b;
  delay_small = d;
  waits_blocked = λ x h. ground arith;
  runs = r;
  idle_awake = λ h. absurd (real h);
})

module _ (t : Task) {k : Kernel} (inv : IsValid k) (real : t ≢ idle k) where
  out : IsValidWithout t (unlink t k)
  out = unlink-Inv t inv real

  real_out : t ≢ idle (unlink t k)
  real_out = ground (arith, unlink-SameCore t k)

  -- After the first writes of os_task_start the task is out of every list, and waits on nothing.
  ready_to_start :
      let k₁ = unlink t k in
      let k₂ =
        (if is_blocked (k.tcb t).state
          then set_tcb k₁ t (record (k₁.tcb t) { wait_signaled = true })
          else set_tcb k₁ t (record (k₁.tcb t) { delay_ticks = 0 })) in
      IsValidWithout t k₂ × ((k₂.tcb t).wait_list ≡ none) × (t ≢ idle k₂)
  ready_to_start =
      if_cases
        (λ (k₂ : Kernel). IsValidWithout t k₂ × ((k₂.tcb t).wait_list ≡ none) × (t ≢ idle k₂))
        (is_blocked (k.tcb t).state)
        (λ b. (
          write_out-Inv t (record ((unlink t k).tcb t) { wait_signaled = true }) out real_out
              (out.priority_small t) (out.base_small t) (out.delay_small t) (unlink-wait_list t k)
              (out.runs t),
          ground (arith, unlink-wait_list t k),
          real_out,
        ))
        (λ b. (
          write_out-Inv t (record ((unlink t k).tcb t) { delay_ticks = 0 }) out real_out
              (out.priority_small t) (out.base_small t) (omega arith) (unlink-wait_list t k)
              (out.runs t),
          ground (arith, unlink-wait_list t k),
          real_out,
        ))

  pub start_task-IsValid : IsValid (start_task t k)
  unfolding start_task running_core_of
  start_task-IsValid = preempt_if_running-Inv (placed _ ready_to_start) t
    where
      placed :
          (k₂ : Kernel)
          → IsValidWithout t k₂ × ((k₂.tcb t).wait_list ≡ none) × (t ≢ idle k₂)
          → IsValid (
              if ltb (running_core_of t k₂) core_count
              then set_tcb k₂ t (record (k₂.tcb t) { state = running })
              else make_ready t k₂)
      placed k₂ (v, nw, r) =
          if_cases IsValid (ltb (running_core_of t k₂) core_count)
            (λ h.
              settle-IsValid
                (write_out-Inv t (record (k₂.tcb t) { state = running }) v r (v.priority_small t)
                  (v.base_small t) (v.delay_small t) nw (λ _. ground arith))
                (ground arith) (ground arith) (ground arith))
            (λ h. make_ready-IsValid v nw r)

  -- The last branch of os_task_pause.
  pub suspend-IsValid : IsValid (suspend t k)
  unfolding suspend
  suspend-IsValid =
      let k₁ = wake_compensate t k in
      let v₁ : IsValid k₁ = wake_compensate-IsValid t inv in
      let c : Tcb = record (k₁.tcb t) { wait_signaled = true } in
      let r₁ : t ≢ idle k₁ = ground (arith, wake_compensate-SameCore t k, real) in
      let noted : IsValid (if is_blocked (k₁.tcb t).state then set_tcb k₁ t c else k₁)
          × (t ≢ idle (if is_blocked (k₁.tcb t).state then set_tcb k₁ t c else k₁)) =
        if_cases (λ (k₂ : Kernel). IsValid k₂ × (t ≢ idle k₂)) (is_blocked (k₁.tcb t).state)
          (λ _. (set_tcb-Inv v₁ t c (ground arith), r₁)) (λ _. (v₁, r₁)) in
      let stopped = parked _ noted.0 noted.1 in
      if_cases IsValid _ (λ _. switch_request-Inv stopped) (λ _. stopped)
    where
      parked :
          (k₂ : Kernel)
          → IsValid k₂
          → t ≢ idle k₂
          → IsValid (
              set_tcb
                (unlink t k₂)
                t
                (record ((unlink t k₂).tcb t) { delay_ticks = 0; state = suspended }))
      parked k₂ v r =
          let w = unlink-Inv t v r in
          settle-IsValid
            (write_out-Inv t (record ((unlink t k₂).tcb t) { delay_ticks = 0; state = suspended }) w
              (ground (arith, unlink-SameCore t k₂)) (w.priority_small t) (w.base_small t)
              (omega arith) (unlink-wait_list t k₂) (λ h. absurd (cc h)))
            (ground (arith, unlink-wait_list t k₂)) (ground arith) (ground arith)
