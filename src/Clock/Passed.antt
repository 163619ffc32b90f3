-- ===== src/Clock/Passed.antt =====
-- What the parts of one pass of core/os_tick.c leave alone, and how it ends.
use ahura_kernel.Prelude.{
  ℕ, ◌-◌, ◌≡◌, ◌≢◌, refl, ap, ◌∙◌, true, ◌&&◌, ltb, ◌==◌, if◌then◌else◌, if_cases, Bool-cases, inl,
  inr, List, [], ◌∷◌, arith,
}
use ahura_kernel.Task.State.{Kernel, Config, Task, set_tcb, is_blocked}
use ahura_kernel.Task.Sched.{unlink, make_ready}
use ahura_kernel.Task.Wake.{wake_locked}
use ahura_kernel.Task.Tick.{tick_task, tick_from, tick_update}
use ahura_kernel.Task.Switch.{slice_tick, reschedule_possible}
use ahura_kernel.Task.Frame.{
  SameCore, SameCore-trans, unlink-SameCore, make_ready-SameCore, preempt_if_running-SameCore,
}
use ahura_kernel.Notify.Mailbox.{wake_locked-tcb}
use ahura_kernel.Timer.{Timers, process_from as timer_from, tick_process}
use ahura_kernel.Work.{Works, process_from as work_from, work_tick_process}
use ahura_kernel.Clock.{System, request_if_possible}
use ahura_kernel.Task.Inv.{IsValid}
use ahura_kernel.Clock.Valid.{IsSystem, work_tick-IsValid, timer_tick-IsValid}

wake_locked-SameCore : (t : Task) (k : Kernel) → SameCore k (wake_locked t k)
unfolding wake_locked
wake_locked-SameCore t k =
    if_cases (SameCore k) (is_blocked (k.tcb t).state)
      (λ _.
        let k₁ : Kernel = unlink t k in
        let k₂ : Kernel = set_tcb k₁ t (record (k₁.tcb t) { wait_signaled = true }) in
        SameCore-trans (unlink-SameCore t k) (
          SameCore-trans {l = k₂} (ground arith) (
            SameCore-trans (make_ready-SameCore t k₂)
              (preempt_if_running-SameCore t (make_ready t k₂)))))
      (λ _. ground arith)

wake_locked-other : (t : Task) (k : Kernel) (u : Task) → u ≢ t → (wake_locked t k).tcb u ≡ k.tcb u
unfolding wake_locked
wake_locked-other t k u ne = elim (Bool-cases (is_blocked (k.tcb t).state)) [
  | inl b ↦ wake_locked-tcb t k u b ∙ ground (arith, ne)
  | inr b ↦ rw b refl
]

tick_task-SameCore : (e : ℕ) (t : Task) (k : Kernel) → SameCore k (tick_task e t k)
unfolding tick_task
tick_task-SameCore e t k =
    if_cases (SameCore k) (ltb e (k.tcb t).delay_ticks) (λ _. ground arith)
      (λ _.
        let k₁ : Kernel = set_tcb k t (record (k.tcb t) { delay_ticks = 0 }) in
        SameCore-trans {l = k₁} (ground arith)
          (SameCore-trans (unlink-SameCore t k₁) (make_ready-SameCore t (unlink t k₁))))

tick_from-SameCore : (e : ℕ) (ts : List Task) (k : Kernel) → SameCore k (tick_from e ts k)
unfolding tick_from
tick_from-SameCore e [] k = ground arith
tick_from-SameCore e (t ∷ ts) k =
    SameCore-trans (tick_task-SameCore e t k) (tick_from-SameCore e ts (tick_task e t k))

tick_update-SameCore : (e : ℕ) (k : Kernel) → SameCore k (tick_update e k)
unfolding tick_update
tick_update-SameCore e k =
    if_cases (SameCore k) (e == 0) (λ _. ground arith) (λ _. tick_from-SameCore e k.delay_list k)

-- The kernel as the work queue and the timers leave it.
unfoldable pub woken : ℕ → System → Kernel
woken e s = (tick_process e s.timers (work_tick_process e s.works s.kernel).1).1

work_tick-SameCore : (e : ℕ) (w : Works) (k : Kernel) → SameCore k (work_tick_process e w k).1
unfolding work_tick_process
work_tick-SameCore e w k =
    if_cases (λ (r : Works × Kernel). SameCore k r.1) (ltb 0 e)
      (λ _.
        if_cases (SameCore k) ((work_from w.max_works 0 e w).0) {y = k}
          (λ _. wake_locked-SameCore w.work_task k) (λ _. ground arith))
      (λ _. ground arith)

timer_tick-SameCore : (e : ℕ) (s : Timers) (k : Kernel) → SameCore k (tick_process e s k).1
unfolding tick_process
timer_tick-SameCore e s k =
    if_cases (λ (r : Timers × Kernel). SameCore k r.1) (e == 0) (λ _. ground arith)
      (λ _.
        if_cases (SameCore k) ((timer_from s.max_timers 0 e s).0) {y = k}
          (λ _. wake_locked-SameCore s.timer_task k) (λ _. ground arith))

work_tick-other :
    (e : ℕ) (w : Works) (k : Kernel) (u : Task)
    → u ≢ w.work_task
    → (work_tick_process e w k).1.tcb u ≡ k.tcb u
unfolding work_tick_process
work_tick-other e w k u ne =
    if_cases (λ (r : Works × Kernel). r.1.tcb u ≡ k.tcb u) (ltb 0 e)
      (λ _.
        if_cases (λ (k' : Kernel). k'.tcb u ≡ k.tcb u) ((work_from w.max_works 0 e w).0)
          {x = wake_locked w.work_task k} {y = k} (λ _. wake_locked-other w.work_task k u ne)
          (λ _. refl))
      (λ _. refl)

timer_tick-other :
    (e : ℕ) (s : Timers) (k : Kernel) (u : Task)
    → u ≢ s.timer_task
    → (tick_process e s k).1.tcb u ≡ k.tcb u
unfolding tick_process
timer_tick-other e s k u ne =
    if_cases (λ (r : Timers × Kernel). r.1.tcb u ≡ k.tcb u) (e == 0) (λ _. refl)
      (λ _.
        if_cases (λ (k' : Kernel). k'.tcb u ≡ k.tcb u) ((timer_from s.max_timers 0 e s).0)
          {x = wake_locked s.timer_task k} {y = k} (λ _. wake_locked-other s.timer_task k u ne)
          (λ _. refl))

pub woken-SameCore : (e : ℕ) (s : System) → SameCore s.kernel (woken e s)
unfolding woken
woken-SameCore e s =
    SameCore-trans (work_tick-SameCore e s.works s.kernel)
      (timer_tick-SameCore e s.timers (work_tick_process e s.works s.kernel).1)

pub woken-other :
    (e : ℕ) (s : System) (u : Task)
    → u ≢ s.works.work_task
    → u ≢ s.timers.timer_task
    → (woken e s).tcb u ≡ s.kernel.tcb u
unfolding woken
woken-other e s u ne ne' =
    timer_tick-other e s.timers (work_tick_process e s.works s.kernel).1 u ne'
    ∙ work_tick-other e s.works s.kernel u ne

pub woken-IsValid : (e : ℕ) (s : System) → IsSystem s → IsValid (woken e s)
unfolding woken
woken-IsValid e s v =
    timer_tick-IsValid e s.timers _ (work_tick-IsValid e s.works s.kernel v.kernel)

-- The end of the pass.
pub record Passed (e : ℕ) (k k' : Kernel) : Type 0 where
  pub tcb : (u : Task) → k'.tcb u ≡ (tick_update e k).tcb u
  pub core : SameCore k (record k' { slice_left = k.slice_left })
  pub slice : k'.slice_left ≡ (if k.time_slice_ticks == 0 then k.slice_left else k.slice_left - e)
  pub switch : (k'.is_running && reschedule_possible k') ≡ true → k'.switch_requested ≡ true

pub pass_end :
    (e : ℕ) (k : Kernel) → Passed e k (request_if_possible (slice_tick e (tick_update e k)))
unfolding request_if_possible slice_tick
pass_end e k =
    let same = tick_update-SameCore e k in
    let config = ap (λ (c : Config). c.time_slice_ticks) same.config in
    record {
      tcb = λ u. ground arith;
      core = record {
        config = ground (arith, same.config);
        current = ground (arith, same.current);
        lock_count = ground (arith, same.lock_count);
        is_running = ground (arith, same.is_running);
        in_isr = ground (arith, same.in_isr);
        tick_count = ground (arith, same.tick_count);
        next_id = ground (arith, same.next_id);
        slice_left = refl;
      };
      slice = ground (arith, same.slice_left, config);
      switch = λ h. ground (arith, h);
    }
