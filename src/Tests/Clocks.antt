-- ===== src/Tests/Clocks.antt =====
-- The theorems on core/os_tick.c with a task that waits and a timer that counts.
use ahura_kernel.Prelude.{◌<◌, ◌≡◌, ◌^◌, ◌-◌, refl, false, arith}
use ahura_kernel.Work.{Works, next_from, next_ready_ticks_get}
use ahura_kernel.Timer.{
  next_from as timer_from, next_expiry_ticks_get, init, armed, slot_from, slot_find, acquire_from,
  slot_acquire, arm, timer_start,
}
use ahura_kernel.Clock.{System, tick_handler, announce, cpu_usage_get, expected_idle_ticks_get}
use ahura_kernel.Clock.Valid.{IsSystem}
use ahura_kernel.Clock.Ticked.{Ticked, tick_handler-Ticked}
use ahura_kernel.Clock.Tickless.{IsQuiet, announce-IsQuiet}
use ahura_kernel.Clock.Usage.{IsPercent, busy, usage_get-IsPercent}
use ahura_kernel.Timer.Run.{Reach-IsRegistry}
use ahura_kernel.Demo.{waiting, waiting-IsValid, facts}
use ahura_kernel.Tests.{one_timer, one_timer-Reach}

abbrev no_works : Works
no_works = record {
  max_works = 2;
  payload_size = 16;
  tick_hz = 1000;
  entry = λ i. record { handler = 0; delay_ticks = 0; len = 0; ready = false; payload = λ j. 0 };
  work_task = 0;
}

abbrev system : System
system = record {
  kernel = waiting;
  works = no_works;
  timers = one_timer;
  total_ticks = 1000;
  idle_ticks = 400;
  max_suppressed = 100;
  min_idle = 2;
}

system-IsSystem : IsSystem system
system-IsSystem = record {
  kernel = waiting-IsValid;
  timers = Reach-IsRegistry one_timer one_timer-Reach;
}

tick_handler-Ticked_example : Ticked system (tick_handler system)
tick_handler-Ticked_example = tick_handler-Ticked system system-IsSystem

no_call : next_ready_ticks_get no_works ≡ 2 ^ 32 - 1
unfolding next_from next_ready_ticks_get
no_call = refl

in_five : next_expiry_ticks_get one_timer ≡ 5
unfolding timer_from next_expiry_ticks_get slot_from slot_find acquire_from slot_acquire init armed
    arm timer_start
in_five = refl

three_ticks : 3 < expected_idle_ticks_get system
unfolding expected_idle_ticks_get
three_ticks = ground (arith, facts.next_delay, no_call, in_five)

announce-IsQuiet_example : IsQuiet system (announce 3 system)
announce-IsQuiet_example = announce-IsQuiet 3 system system-IsSystem (omega arith) three_ticks

usage_get-IsPercent_example :
    IsPercent (busy system) system.total_ticks (cpu_usage_get system).0
    × ((cpu_usage_get system).1.total_ticks ≡ 0)
    × ((cpu_usage_get system).1.idle_ticks ≡ 0)
usage_get-IsPercent_example = usage_get-IsPercent system (omega arith) (omega arith)

-- A window of 50 million ticks that were all busy is reported as 14 percent.
usage_wraps : (cpu_usage_get (record system { total_ticks = 50000000; idle_ticks = 0 })).0 ≡ 14
unfolding cpu_usage_get
usage_wraps = refl
