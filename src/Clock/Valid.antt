-- ===== src/Clock/Valid.antt =====
-- The tick keeps the invariants of the scheduler and of the timers.
use ahura_kernel.Prelude.{ℕ, ◌+◌, ◌%◌, ◌^◌, true, ◌&&◌, ltb, ◌==◌, if_cases}
use ahura_kernel.Task.State.{Kernel}
use ahura_kernel.Task.Inv.{IsValid}
use ahura_kernel.Task.Inv.Still.{outside-Inv}
use ahura_kernel.Task.Inv.Tick.{tick_update-IsValid}
use ahura_kernel.Task.Inv.Wake.{wake_locked-IsValid}
use ahura_kernel.Task.Step.{slice_tick-IsValid}
use ahura_kernel.Task.Tick.{tick_update}
use ahura_kernel.Task.Switch.{slice_tick, reschedule_possible}
use ahura_kernel.Timer.{Timers, tick_process}
use ahura_kernel.Timer.Registry.{IsRegistry}
use ahura_kernel.Timer.Run.{tick_process-IsRegistry}
use ahura_kernel.Work.{Works, work_tick_process}
use ahura_kernel.Clock.{System, request_if_possible, pass, count_ticks, tick_handler, announce}

pub record IsSystem (s : System) : Type 0 where
  pub kernel : IsValid s.kernel
  pub timers : IsRegistry s.timers

pub work_tick-IsValid :
    (e : ℕ) (w : Works) (k : Kernel) → IsValid k → IsValid (work_tick_process e w k).1
unfolding work_tick_process
work_tick-IsValid e w k v =
    if_cases (λ (r : Works × Kernel). IsValid r.1) (ltb 0 e)
      (λ _. if_cases IsValid _ (λ _. wake_locked-IsValid v w.work_task) (λ _. v)) (λ _. v)

pub timer_tick-IsValid :
    (e : ℕ) (s : Timers) (k : Kernel) → IsValid k → IsValid (tick_process e s k).1
unfolding tick_process
timer_tick-IsValid e s k v =
    if_cases (λ (r : Timers × Kernel). IsValid r.1) (e == 0) (λ _. v)
      (λ _. if_cases IsValid _ (λ _. wake_locked-IsValid v s.timer_task) (λ _. v))

request_if_possible-IsValid : (k : Kernel) → IsValid k → IsValid (request_if_possible k)
unfolding request_if_possible
request_if_possible-IsValid k v =
    if_cases IsValid (k.is_running && reschedule_possible k)
      (λ _.
        outside-Inv v k.slice_left k.lock_count k.switch_pending k.is_running k.in_isr true
          k.tick_count)
      (λ _. v)

pass-IsSystem : (e : ℕ) (s : System) → IsSystem s → IsSystem (pass e s)
unfolding pass
pass-IsSystem e s v =
    let k1 = (work_tick_process e s.works s.kernel).1 in
    let k2 = (tick_process e s.timers k1).1 in
    record {
      kernel = request_if_possible-IsValid (slice_tick e (tick_update e k2)) (
          slice_tick-IsValid e (
            tick_update-IsValid e
              (timer_tick-IsValid e s.timers k1 (work_tick-IsValid e s.works s.kernel v.kernel))));
      timers = tick_process-IsRegistry e s.timers k1 v.timers;
    }

pub counted-IsValid : (e : ℕ) (k : Kernel) → IsValid k → IsValid (count_ticks e k)
counted-IsValid e k v =
    outside-Inv v k.slice_left k.lock_count k.switch_pending k.is_running k.in_isr
      k.switch_requested ((k.tick_count + e) % 2 ^ 32)

-- From a system where they hold, the tick interrupt keeps the scheduler's lists, bitmap and task
-- control blocks in agreement, and every timer that counts in its one slot, whatever is woken on the
-- way.
pub tick_handler-IsSystem : (s : System) → IsSystem s → IsSystem (tick_handler s)
unfolding tick_handler
tick_handler-IsSystem s v =
    pass-IsSystem 1 _ (record { kernel = counted-IsValid 1 s.kernel v.kernel; timers = v.timers })

pub announce-IsSystem : (e : ℕ) (s : System) → IsSystem s → IsSystem (announce e s)
unfolding announce
announce-IsSystem e s v =
    pass-IsSystem e _ (record { kernel = counted-IsValid e s.kernel v.kernel; timers = v.timers })
