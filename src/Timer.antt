-- ===== src/Timer.antt =====
-- core/os_timer.c: the software timers.
pub mod Service
pub mod Registry
pub mod Run
pub mod Count
pub mod Aged
pub mod Quiet
use ahura_kernel.Prelude.{
  ℕ, zero, suc, ◌+◌, ◌-◌, ◌^◌, Bool, true, false, not, ◌&&◌, ◌||◌, ltb, ◌==◌, if◌then◌else◌, Option,
  none, some, is, update,
}
use ahura_kernel.Task.State.{Kernel, Task, Status, ok, error, invalid_arg, full}
use ahura_kernel.Task.Wake.{wake_locked}

-- `os_timer_mode_t`
pub data TimerMode : Type 0 where
  one_shot periodic : TimerMode

-- `os_timer_t`; 0 is the NULL callback.
pub record Timer : Type 0 where
  pub period_ticks : ℕ
  pub remaining_ticks : ℕ
  pub mode : TimerMode
  pub active : Bool
  pub paused : Bool
  pub expired : Bool
  pub callback : ℕ
  pub context : ℕ

-- The registry, the timer objects by their address, `OS_CONFIG_MAX_TIMERS`, and the timer task.
pub record Timers : Type 0 where
  pub max_timers : ℕ
  pub registry : ℕ → Option ℕ
  pub timer : ℕ → Timer
  pub timer_task : Task

abbrev pub set_timer : Timers → ℕ → Timer → Timers
set_timer s t c = record s { timer = update s.timer t c }

-- The loop of os_timer_registry_slot_find for a timer, with `n` slots left from slot `i` on.
unfoldable pub slot_from : ℕ → ℕ → ℕ → Timers → Option ℕ
slot_from zero i t s = none
slot_from (suc n) i t s = if is (s.registry i) t then some i else slot_from n (i + 1) t s

-- os_timer_registry_slot_find of a timer; `none` is OS_CONFIG_MAX_TIMERS.
unfoldable pub slot_find : ℕ → Timers → Option ℕ
unfolding slot_from
slot_find t s = slot_from s.max_timers 0 t s

-- `os_timer_registry[slot] = NULL` if the timer has a slot.
unfoldable pub slot_release : ℕ → Timers → Timers
unfolding slot_find
slot_release t s = elim (slot_find t s) [
  | none ↦ s
  | some slot ↦ record s { registry = update s.registry slot none }
]

-- The loop of os_timer_registry_slot_acquire: the free slot seen first is kept.
unfoldable pub acquire_from : ℕ → ℕ → Option ℕ → ℕ → Timers → Option ℕ
acquire_from zero i free_slot t s = free_slot
acquire_from (suc n) i free_slot t s =
    let free_slot' : Option ℕ = elim (s.registry i) [
      | some u ↦ free_slot
      | none ↦ elim free_slot [ none ↦ some i | some j ↦ some j ]
    ] in
    let rest = acquire_from n (i + 1) free_slot' t s in if is (s.registry i) t then some i else rest

-- os_timer_registry_slot_acquire
unfoldable pub slot_acquire : ℕ → Timers → Option ℕ
unfolding acquire_from
slot_acquire t s = acquire_from s.max_timers 0 none t s

-- os_timer_init
unfoldable pub init : ℕ → ℕ → TimerMode → ℕ → ℕ → Timers → Status × Timers
unfolding slot_release
init t period_ticks mode callback context s =
    if period_ticks == 0 || callback == 0 then (invalid_arg, s) else (
      ok,
      set_timer (slot_release t s) t (record {
        period_ticks = period_ticks;
        remaining_ticks = period_ticks;
        mode = mode;
        active = false;
        paused = false;
        expired = false;
        callback = callback;
        context = context;
      }),
    )

-- The fields that os_timer_arm writes.
unfoldable pub armed : Bool → Timer → Timer
armed reload c =
    let c' =
      (if reload || not c.paused
        then record c { remaining_ticks = c.period_ticks; expired = false }
        else c) in
    record c' { paused = false; active = true }

-- os_timer_arm
unfoldable pub arm : ℕ → Bool → Timers → Status × Timers
unfolding slot_acquire armed
arm t reload s =
    let c = s.timer t in
    if c.callback == 0 || c.period_ticks == 0 then (invalid_arg, s) else elim (slot_acquire t s) [
      | none ↦ (full, s)
      | some slot ↦ (
        ok,
        set_timer (record s { registry = update s.registry slot (some t) }) t (armed reload c),
      )
    ]

-- os_timer_start
unfoldable pub timer_start : ℕ → Timers → Status × Timers
timer_start t s = arm t false s

-- os_timer_restart
unfoldable pub timer_restart : ℕ → Timers → Status × Timers
timer_restart t s = arm t true s

-- os_timer_pause
unfoldable pub timer_pause : ℕ → Timers → Status × Timers
timer_pause t s =
    let c = s.timer t in
    if c.active
    then (ok, set_timer s t (record c { active = false; paused = true }))
    else (if c.paused then ok else error, s)

-- os_timer_stop
unfoldable pub timer_stop : ℕ → Timers → Status × Timers
timer_stop t s = (
  ok,
  slot_release t
      (set_timer s t (record (s.timer t) { active = false; paused = false; expired = false })),
)

-- os_timer_delete
unfoldable pub timer_delete : ℕ → Timers → Status × Timers
timer_delete t s = (
  ok,
  slot_release t (
      set_timer s t (record (s.timer t) {
        active = false;
        paused = false;
        expired = false;
        period_ticks = 0;
        remaining_ticks = 0;
        callback = 0;
        context = 0;
      })),
)

-- What os_timer_tick_process does with an active timer.
unfoldable pub count_down : ℕ → Timer → Timer
count_down elapsed_ticks c =
    if ltb elapsed_ticks c.remaining_ticks
    then record c { remaining_ticks = c.remaining_ticks - elapsed_ticks }
    else elim c.mode [
      | periodic ↦ record c { remaining_ticks = c.period_ticks; expired = true }
      | one_shot ↦ record c { active = false; expired = true }
    ]

-- The loop of os_timer_tick_process, with whether the timer task is to be woken.
unfoldable pub process_from : ℕ → ℕ → ℕ → Timers → Bool × Timers
unfolding count_down
process_from zero i elapsed_ticks s = (false, s)
process_from (suc n) i elapsed_ticks s = elim (s.registry i) [
  | none ↦ process_from n (i + 1) elapsed_ticks s
  | some t ↦
      let c = s.timer t in
      let c' = (if c.active then count_down elapsed_ticks c else c) in
      let (woken, s') = process_from n (i + 1) elapsed_ticks (set_timer s t c') in
      ((c.active && not (ltb elapsed_ticks c.remaining_ticks)) || woken, s')
]

-- os_timer_tick_process
unfoldable pub tick_process : ℕ → Timers → Kernel → Timers × Kernel
unfolding process_from
tick_process elapsed_ticks s k =
    let (wake_needed, s') = process_from s.max_timers 0 elapsed_ticks s in
    if elapsed_ticks == 0
    then (s, k)
    else (s', if wake_needed then wake_locked s.timer_task k else k)

-- The loop of os_timer_next_expiry_ticks_get
unfoldable pub next_from : ℕ → ℕ → ℕ → Timers → ℕ
next_from zero i minimum s = minimum
next_from (suc n) i minimum s = elim (s.registry i) [
  | none ↦ next_from n (i + 1) minimum s
  | some t ↦
      let c = s.timer t in
      next_from n (i + 1)
        (if c.active && ltb c.remaining_ticks minimum then c.remaining_ticks else minimum) s
]

-- os_timer_next_expiry_ticks_get
unfoldable pub next_expiry_ticks_get : Timers → ℕ
next_expiry_ticks_get s = next_from s.max_timers 0 (2 ^ 32 - 1) s

-- The loop of os_timer_expired_fetch: the callback and context of the first timer whose expiry is
-- noted. A timer that is not active any more gives its slot back.
unfoldable pub fetch_from : ℕ → ℕ → Timers → Option (ℕ × ℕ) × Timers
fetch_from zero i s = (none, s)
fetch_from (suc n) i s =
    let rest = fetch_from n (i + 1) s in
    elim (s.registry i) [
      | none ↦ rest
      | some t ↦
          let c = s.timer t in
          let s' = set_timer s t (record c { expired = false }) in
          if not c.expired then rest else (
            some (c.callback, c.context),
            if c.active then s' else record s' { registry = update s'.registry i none },
          )
    ]

-- os_timer_expired_fetch
unfoldable pub expired_fetch : Timers → Option (ℕ × ℕ) × Timers
unfolding fetch_from
expired_fetch s = fetch_from s.max_timers 0 s
