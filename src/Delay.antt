-- ===== src/Delay.antt =====
-- core/os_delay.c: how long a delay waits, over the ticks and the cycles that pass meanwhile. What
-- other tasks, interrupts and the hardware do is an argument: the sleeps and the counter's advances.
pub mod Sleeps
pub mod Polls
pub mod Cycles
use ahura_kernel.Prelude.{
  ℕ, zero, suc, ◌+◌, ◌-◌, ◌*◌, ◌/◌, ◌%◌, ◌^◌, Bool, Option, none, some, List, [], ◌∷◌, ltb, ◌==◌,
  if◌then◌else◌,
}
use ahura_kernel.Task.State.{wait_forever}

-- How one os_task_sleep_ticks ends: by os_task_wake after so many ticks, or by its timeout, with the
-- task running again so many ticks after it.
pub data Sleep : Type 0 where
  woken : ℕ → Sleep
  slept : ℕ → Sleep

-- The ticks that pass in a sleep of `ticks`; a wake later than the timeout finds the task awake.
abbrev pub ticks_passed : ℕ → Sleep → ℕ
ticks_passed ticks (woken early) = if ltb early ticks then early else ticks
ticks_passed ticks (slept late) = ticks + late

-- `a - b` on uint32_t
abbrev pub minus32 : ℕ → ℕ → ℕ
minus32 a b = (a + 2 ^ 32 - b) % 2 ^ 32

-- The loop of os_delay_ticks, at tick `tick`; the answer is the tick at which it ends, and `none` is
-- a task that still sleeps when the sleeps run out.
unfoldable pub sleep_loop : (start_tick wait_ticks elapsed tick : ℕ) → List Sleep → Option ℕ
sleep_loop start_tick wait_ticks elapsed tick [] =
    if ltb elapsed wait_ticks then none else some tick
sleep_loop start_tick wait_ticks elapsed tick (s ∷ sleeps) =
    let now = (tick + ticks_passed (wait_ticks - elapsed) s) % 2 ^ 32 in
    let rest = sleep_loop start_tick wait_ticks (minus32 now start_tick) now sleeps in
    if ltb elapsed wait_ticks then rest else some tick

-- The sentinel adjustment of os_delay_ticks.
abbrev pub finite_ticks : ℕ → ℕ
finite_ticks ticks = if ticks == wait_forever then ticks - 1 else ticks

-- os_delay_ticks in a task that can block, from tick `tick` on.
unfoldable pub delay_ticks : (ticks tick : ℕ) → List Sleep → Option ℕ
unfolding sleep_loop
delay_ticks ticks tick sleeps =
    if ticks == 0 then some tick else sleep_loop tick (finite_ticks ticks) 0 tick sleeps

-- The ticks of os_delay_ms and of os_delay_s, and the cycles of os_delay_us.
abbrev pub clamp32 : ℕ → ℕ
clamp32 ticks = if ltb (2 ^ 32 - 1) ticks then 2 ^ 32 - 1 else ticks

unfoldable pub ticks_of_ms : (tick_hz milliseconds : ℕ) → ℕ
ticks_of_ms tick_hz milliseconds = clamp32 ((milliseconds * tick_hz + 999) / 1000)

unfoldable pub ticks_of_s : (tick_hz seconds : ℕ) → ℕ
ticks_of_s tick_hz seconds = clamp32 (seconds * tick_hz)

unfoldable pub cycles_of_us : (clock_hz microseconds : ℕ) → ℕ
cycles_of_us clock_hz microseconds =
    if microseconds == 0
    then 0
    else if clock_hz == 0
    then 0
    else (microseconds * clock_hz + 999999) / 1000000

-- The cycles of os_delay_ticks where the caller cannot block.
unfoldable pub cycles_of_ticks : (clock_hz tick_hz ticks : ℕ) → ℕ
cycles_of_ticks clock_hz tick_hz ticks =
    if ticks == 0 then 0 else if clock_hz == 0 then 0 else finite_ticks ticks * clock_hz / tick_hz

-- os_delay_ms in a task that can block; `none` from the start is os_delay_forever.
unfoldable pub delay_ms : (tick_hz milliseconds tick : ℕ) → List Sleep → Option ℕ
unfolding ticks_of_ms delay_ticks
delay_ms tick_hz milliseconds tick sleeps =
    if milliseconds == wait_forever
    then none
    else delay_ticks (ticks_of_ms tick_hz milliseconds) tick sleeps

-- OS_DELAY_MAX_CYCLE_CHUNK
abbrev pub max_cycle_chunk : ℕ
max_cycle_chunk = 0x40000000

-- The inner loop of os_delay_cycle_wait, after the counter has read `count`; it advances by the next
-- number of the list until it is read again. The answer is the reading that ends the loop, and the
-- advances left.
unfoldable pub poll : (start chunk count : ℕ) → List ℕ → Option (ℕ × List ℕ)
poll start chunk count [] = none
poll start chunk count (d ∷ ds) =
    let now = (count + d) % 2 ^ 32 in
    let rest = poll start chunk now ds in
    if ltb (minus32 now start) chunk then rest else some (now, ds)

abbrev pub chunk_of : ℕ → ℕ
chunk_of cycle_count = if ltb max_cycle_chunk cycle_count then max_cycle_chunk else cycle_count

-- os_delay_cycle_wait, of `n` rounds at most, where the counter has last read `count`.
unfoldable pub cycle_wait : (n cycle_count count : ℕ) → List ℕ → Option (ℕ × List ℕ)
unfolding poll
cycle_wait zero cycle_count count ds = if cycle_count == 0 then some (count, ds) else none
cycle_wait (suc n) cycle_count count [] = if cycle_count == 0 then some (count, []) else none
cycle_wait (suc n) cycle_count count (d ∷ ds) =
    let start = (count + d) % 2 ^ 32 in
    if cycle_count == 0
    then some (count, d ∷ ds)
    else elim (poll start (chunk_of cycle_count) start ds) [
      | none ↦ none
      | some r ↦ cycle_wait n (cycle_count - chunk_of cycle_count) r.0 r.1
    ]

-- os_delay_s, as os_delay_ms.
unfoldable pub delay_s : (tick_hz seconds tick : ℕ) → List Sleep → Option ℕ
unfolding ticks_of_s delay_ticks
delay_s tick_hz seconds tick sleeps =
    if seconds == wait_forever then none else delay_ticks (ticks_of_s tick_hz seconds) tick sleeps

-- os_delay_us, and os_delay_ticks where the caller cannot block, of `n` chunks at most.
unfoldable pub delay_us : (n clock_hz microseconds count : ℕ) → List ℕ → Option (ℕ × List ℕ)
unfolding cycles_of_us cycle_wait
delay_us n clock_hz microseconds count ds =
    cycle_wait n (cycles_of_us clock_hz microseconds) count ds

unfoldable pub busy_ticks : (n clock_hz tick_hz ticks count : ℕ) → List ℕ → Option (ℕ × List ℕ)
unfolding cycles_of_ticks cycle_wait
busy_ticks n clock_hz tick_hz ticks count ds =
    cycle_wait n (cycles_of_ticks clock_hz tick_hz ticks) count ds
