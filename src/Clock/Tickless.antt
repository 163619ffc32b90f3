-- ===== src/Clock/Tickless.antt =====
-- The tickless idle: a sleep shorter than planned passes over nothing.
use ahura_kernel.Prelude.{
  ℕ, List, [], ◌∷◌, ◌+◌, ◌-◌, ◌%◌, ◌^◌, ◌<◌, ◌≡◌, ◌≢◌, refl, sym, ap, subst, ◌∙◌, false, ◌&&◌, ltb,
  if◌then◌else◌, if_cases, arith,
}
use ahura_kernel.Task.State.{Kernel, Task, Tcb}
use ahura_kernel.Task.Tick.{tick_update, min_delay, next_delay_ticks_get}
use ahura_kernel.Task.Tick.Sleepers.{tick_update-before_next}
use ahura_kernel.Task.Switch.{slice_tick, reschedule_possible}
use ahura_kernel.Timer.{Timers, tick_process, next_expiry_ticks_get}
use ahura_kernel.Timer.Registry.{IsRegistry}
use ahura_kernel.Timer.Quiet.{timer_tick-quiet, timer_tick-expired}
use ahura_kernel.Work.{Works, work_tick_process, next_ready_ticks_get}
use ahura_kernel.Work.Quiet.{work_tick-quiet, work_tick-none_ready}
use ahura_kernel.Work.Bag.{bag}
use ahura_kernel.Work.Fetch.{any_ready}
use ahura_kernel.Clock.{
  System, request_if_possible, pass, count_ticks, announce, expected_idle_ticks_get,
}
use ahura_kernel.Clock.Valid.{IsSystem, counted-IsValid}

-- What no deadline missed means: no task changes its state, no timer's expiry is noted, and no
-- submitted call is ready.
pub record IsQuiet (s s' : System) : Type 0 where
  pub tasks : (t : Task) → (s'.kernel.tcb t).state ≡ (s.kernel.tcb t).state
  pub timers : (t : ℕ) → (s'.timers.timer t).expired ≡ (s.timers.timer t).expired
  pub works : any_ready (bag s'.works) ≡ false

slice_tick-tcb : (e : ℕ) (k : Kernel) (t : Task) → (slice_tick e k).tcb t ≡ k.tcb t
unfolding slice_tick
slice_tick-tcb e k t =
    if_cases (λ (r : Kernel). r.tcb t ≡ k.tcb t) (ltb 0 k.time_slice_ticks) (λ _. refl) (λ _. refl)

request-tcb : (k : Kernel) (t : Task) → (request_if_possible k).tcb t ≡ k.tcb t
unfolding request_if_possible
request-tcb k t =
    if_cases (λ (r : Kernel). r.tcb t ≡ k.tcb t) (k.is_running && reschedule_possible k) (λ _. refl)
      (λ _. refl)

-- What os_tickless_expected_idle_ticks_get takes into account.
within_plan :
    (e : ℕ) (s : System)
    → e < expected_idle_ticks_get s
    → (e < next_delay_ticks_get s.kernel)
      × (e < next_ready_ticks_get s.works)
      × (e < next_expiry_ticks_get s.timers)
unfolding expected_idle_ticks_get
within_plan e s early = ground (arith, early)

pass_kernel :
    (e : ℕ) (s : System)
    → IsRegistry s.timers
    → e < next_ready_ticks_get s.works
    → e < next_expiry_ticks_get s.timers
    → (t : Task) → (pass e s).kernel.tcb t ≡ (tick_update e s.kernel).tcb t
unfolding pass
pass_kernel e s reg works timers t =
    let k1 : Kernel = (work_tick_process e s.works s.kernel).1 in
    let k2 : Kernel = (tick_process e s.timers k1).1 in
    let same : k2 ≡ s.kernel =
      timer_tick-quiet e s.timers k1 reg timers ∙ work_tick-quiet e s.works s.kernel works in
    request-tcb (slice_tick e (tick_update e k2)) t
    ∙ slice_tick-tcb e (tick_update e k2) t
    ∙ ap (λ (k : Kernel). (tick_update e k).tcb t) same

pass_timers :
    (e : ℕ) (s : System)
    → (pass e s).timers ≡ (tick_process e s.timers (work_tick_process e s.works s.kernel).1).0
unfolding pass
pass_timers e s = refl

pass_works : (e : ℕ) (s : System) → (pass e s).works ≡ (work_tick_process e s.works s.kernel).0
unfolding pass
pass_works e s = refl

-- The counter is no part of the delays.
min_delay-count :
    (e : ℕ) (k : Kernel) (ts : List Task) (m : ℕ)
    → min_delay (count_ticks e k) ts m ≡ min_delay k ts m
unfolding min_delay
min_delay-count e k [] m = refl
min_delay-count e k (t ∷ ts) m =
    min_delay-count e k ts (if ltb (k.tcb t).delay_ticks m then (k.tcb t).delay_ticks else m)

next_delay-count :
    (e : ℕ) (k : Kernel) → next_delay_ticks_get (count_ticks e k) ≡ next_delay_ticks_get k
unfolding next_delay_ticks_get
next_delay-count e k = min_delay-count e k k.delay_list (2 ^ 32 - 1)

-- A sleep of at least one tick, and of fewer than os_tickless_expected_idle_ticks_get planned, passes
-- over nothing: when it is announced, in a system whose invariants hold, no task changes its state, no
-- timer's expiry is noted, and no submitted call becomes ready.
pub announce-IsQuiet :
    (e : ℕ) (s : System)
    → IsSystem s
    → e ≢ 0
    → e < expected_idle_ticks_get s
    → IsQuiet s (announce e s)
unfolding announce
announce-IsQuiet e s v ne early =
    let (delays, works, timers) = within_plan e s early in
    let s1 : System = record s {
      kernel = count_ticks e s.kernel;
      total_ticks = (s.total_ticks + e) % 2 ^ 32;
      idle_ticks = (s.idle_ticks + e) % 2 ^ 32;
    } in
    record {
      tasks = λ t.
          ap (λ (c : Tcb). c.state) (pass_kernel e s1 v.timers works timers t)
          ∙ tick_update-before_next e (counted-IsValid e s.kernel v.kernel) ne
              (subst (λ (n : ℕ). e < n) (sym (next_delay-count e s.kernel)) delays) t;
      timers = λ t.
          ap (λ (ts : Timers). (ts.timer t).expired) (pass_timers e s1)
          ∙ timer_tick-expired e s.timers (work_tick_process e s.works s1.kernel).1 v.timers ne
              timers t;
      works =
          ap (λ (w : Works). any_ready (bag w)) (pass_works e s1)
          ∙ work_tick-none_ready e s.works s1.kernel (omega arith) works;
    }
