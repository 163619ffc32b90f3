-- ===== src/Clock.antt =====
-- core/os_tick.c: the tick interrupt, the tickless idle and the CPU usage, over the parts of the
-- kernel that keep time.
pub mod Valid
pub mod Tickless
pub mod Usage
pub mod Passed
pub mod Ticked
use ahura_kernel.Prelude.{
  ℕ, ◌+◌, ◌-◌, ◌*◌, ◌/◌, ◌%◌, ◌^◌, Bool, true, ◌&&◌, ltb, leb, ◌==◌, if◌then◌else◌,
}
use ahura_kernel.Task.State.{Kernel}
use ahura_kernel.Task.Tick.{tick_update, next_delay_ticks_get}
use ahura_kernel.Task.Switch.{slice_tick, reschedule_possible, current_is_idle}
use ahura_kernel.Timer.{Timers, tick_process, next_expiry_ticks_get}
use ahura_kernel.Work.{Works, work_tick_process, next_ready_ticks_get}

-- The kernel with the tick's own counters; os_tick_count is the kernel's tick_count. The last two
-- fields are OS_CONFIG_MAX_SUPPRESSED_TICKS and OS_CONFIG_TICKLESS_MIN_IDLE.
pub record System : Type 0 where
  pub kernel : Kernel
  pub works : Works
  pub timers : Timers
  pub total_ticks : ℕ
  pub idle_ticks : ℕ
  pub max_suppressed : ℕ
  pub min_idle : ℕ

-- os_tick_init, less the hardware timer
unfoldable pub tick_init : System → System
tick_init s = record s { kernel = record (s.kernel) { tick_count = 0 } }

-- os_tick_get
unfoldable pub tick_get : System → ℕ
tick_get s = s.kernel.tick_count

-- OS_ARCH_CONTEXT_SWITCH_REQUEST, if a switch would do something
unfoldable pub request_if_possible : Kernel → Kernel
request_if_possible k =
    if k.is_running && reschedule_possible k then record k { switch_requested = true } else k

-- What os_tick_handler and os_tick_announce do once the counters are written.
unfoldable pub pass : ℕ → System → System
unfolding request_if_possible
pass elapsed_ticks s =
    let (works, k1) = work_tick_process elapsed_ticks s.works s.kernel in
    let (timers, k2) = tick_process elapsed_ticks s.timers k1 in
    record s {
      works = works;
      timers = timers;
      kernel = request_if_possible (slice_tick elapsed_ticks (tick_update elapsed_ticks k2));
    }

-- `os_tick_count += elapsed_ticks`
abbrev pub count_ticks : ℕ → Kernel → Kernel
count_ticks elapsed_ticks k = record k { tick_count = (k.tick_count + elapsed_ticks) % 2 ^ 32 }

-- os_tick_handler
unfoldable pub tick_handler : System → System
unfolding pass
tick_handler s = pass 1 (record s {
  kernel = count_ticks 1 s.kernel;
  total_ticks = (s.total_ticks + 1) % 2 ^ 32;
  idle_ticks = if current_is_idle s.kernel then (s.idle_ticks + 1) % 2 ^ 32 else s.idle_ticks;
})

-- os_tick_announce
unfoldable pub announce : ℕ → System → System
unfolding pass
announce elapsed_ticks s = pass elapsed_ticks (record s {
  kernel = count_ticks elapsed_ticks s.kernel;
  total_ticks = (s.total_ticks + elapsed_ticks) % 2 ^ 32;
  idle_ticks = (s.idle_ticks + elapsed_ticks) % 2 ^ 32;
})

-- os_cpu_usage_get, in the arithmetic of a 32-bit word
unfoldable pub cpu_usage_get : System → ℕ × System
cpu_usage_get s =
    let idle_ticks = (if ltb s.total_ticks s.idle_ticks then s.total_ticks else s.idle_ticks) in
    (
      if s.total_ticks == 0 then 0 else (s.total_ticks - idle_ticks) * 100 % 2 ^ 32 / s.total_ticks,
      record s { total_ticks = 0; idle_ticks = 0 },
    )

-- `if (candidate < idle_ticks) idle_ticks = candidate;`
abbrev pub at_most : ℕ → ℕ → ℕ
at_most candidate idle_ticks = if ltb candidate idle_ticks then candidate else idle_ticks

-- os_tickless_expected_idle_ticks_get
unfoldable pub expected_idle_ticks_get : System → ℕ
expected_idle_ticks_get s = at_most (next_delay_ticks_get s.kernel) (
    at_most (next_ready_ticks_get s.works)
      (at_most (next_expiry_ticks_get s.timers) s.max_suppressed))

-- os_tickless_idle_process: `elapsed_ticks` is how long the processor slept, by its counter.
unfoldable pub idle_process : ℕ → System → System
unfolding expected_idle_ticks_get announce
idle_process elapsed_ticks s =
    if ltb (expected_idle_ticks_get s) s.min_idle then s else announce elapsed_ticks s
