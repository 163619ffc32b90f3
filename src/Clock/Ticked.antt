-- ===== src/Clock/Ticked.antt =====
-- What one tick interrupt does, part by part.
use ahura_kernel.Prelude.{
  ◌+◌, ◌-◌, ◌%◌, ◌^◌, ◌≡◌, ◌≢◌, refl, ap, ◌∙◌, true, ◌&&◌, ◌==◌, if◌then◌else◌, map, arith,
}
use ahura_kernel.Task.State.{Kernel, Config, Task, Tcb}
use ahura_kernel.Task.Tick.Sleepers.{later, is_sleeper, tick_update-later}
use ahura_kernel.Task.Switch.{reschedule_possible, current_is_idle}
use ahura_kernel.Timer.Aged.{AllAged, tick_process-AllAged}
use ahura_kernel.Work.Bag.{bag}
use ahura_kernel.Work.Fetch.{tick_pending, work_tick_process-bag}
use ahura_kernel.Clock.{System, pass, count_ticks, tick_handler}
use ahura_kernel.Clock.Valid.{IsSystem, tick_handler-IsSystem, counted-IsValid}
use ahura_kernel.Clock.Passed.{woken, woken-SameCore, woken-other, woken-IsValid, pass_end}

-- What a tick interrupt does: one tick passes for the counters, for every sleeper, timer and
-- submitted call, and for the running task's time slice; a switch that would do something is asked
-- for; and the invariants hold again. The work and timer tasks may be woken on the way.
pub record Ticked (s s' : System) : Type 0 where
  pub system : IsSystem s'
  pub count : s'.kernel.tick_count ≡ (s.kernel.tick_count + 1) % 2 ^ 32
  pub usage :
      (s'.total_ticks ≡ (s.total_ticks + 1) % 2 ^ 32)
      × (s'.idle_ticks
          ≡ (if current_is_idle s.kernel then (s.idle_ticks + 1) % 2 ^ 32 else s.idle_ticks))
  pub sleepers :
      (u : Task)
      → u ≢ s.works.work_task
      → u ≢ s.timers.timer_task
      → s'.kernel.tcb u
        ≡ (if is_sleeper (s.kernel.tcb u) then later 1 (s.kernel.tcb u) else s.kernel.tcb u)
  pub timers : AllAged 1 s.timers s'.timers
  pub calls : bag s'.works ≡ map (tick_pending 1) (bag s.works)
  pub slice :
      s'.kernel.slice_left
      ≡ (if s.kernel.time_slice_ticks == 0 then s.kernel.slice_left else s.kernel.slice_left - 1)
  pub running :
      (s'.kernel.current ≡ s.kernel.current) × (s'.kernel.lock_count ≡ s.kernel.lock_count)
  pub switch :
      (s'.kernel.is_running && reschedule_possible s'.kernel) ≡ true
      → s'.kernel.switch_requested ≡ true

-- The counters of os_tick_handler, before the pass.
counted : System → System
counted s = record s {
  kernel = count_ticks 1 s.kernel;
  total_ticks = (s.total_ticks + 1) % 2 ^ 32;
  idle_ticks = if current_is_idle s.kernel then (s.idle_ticks + 1) % 2 ^ 32 else s.idle_ticks;
}

-- One tick interrupt on a system whose invariants hold lets one tick pass, once, everywhere: for the
-- tick counter and the usage counters, for every task that sleeps (but the work task and the timer
-- task, which it may wake), for every active timer, for every submitted call, and for the time slice
-- of the running task. It asks for a context switch if the kernel runs and a switch would do something,
-- runs no other task itself, and keeps the invariants.
pub tick_handler-Ticked : (s : System) → IsSystem s → Ticked s (tick_handler s)
unfolding tick_handler pass woken counted
tick_handler-Ticked s v =
    let s1 : System = counted s in
    let v1 : IsSystem s1 = record {
      kernel = counted-IsValid 1 s.kernel v.kernel;
      timers = v.timers;
    } in
    let k1 : Kernel = woken 1 s1 in
    let core = woken-SameCore 1 s1 in
    let end = pass_end 1 k1 in
    record {
      system = tick_handler-IsSystem s v;
      count = end.core.tick_count ∙ core.tick_count;
      usage = (refl, refl);
      sleepers = λ u ne ne'.
          end.tcb u
          ∙ tick_update-later 1 (woken-IsValid 1 s1 v1) (omega arith) u
          ∙ ap (λ (c : Tcb). if is_sleeper c then later 1 c else c) (woken-other 1 s1 u ne ne');
      timers = tick_process-AllAged 1 s.timers _ v.timers (omega arith);
      calls = work_tick_process-bag 1 s.works s1.kernel (omega arith);
      slice =
          end.slice
          ∙ ground (arith, core.slice_left, ap (λ (c : Config). c.time_slice_ticks) core.config);
      running = (end.core.current ∙ core.current, end.core.lock_count ∙ core.lock_count);
      switch = end.switch;
    }
