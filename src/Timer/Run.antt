-- ===== src/Timer/Run.antt =====
-- Every run of timer calls, ticks and expiry fetches.
use ahura_kernel.Prelude.{
  ℕ, zero, suc, ◌+◌, ◌≡◌, refl, ap, subst, ◌∙◌, Bool, true, false, not, ◌&&◌, ◌||◌, ltb, ◌==◌,
  if◌then◌else◌, if_cases, Option, none, some, is, update, arith,
}
use ahura_kernel.Task.State.{Kernel, Status}
use ahura_kernel.Timer.{
  TimerMode, Timer, Timers, set_timer, slot_from, slot_find, slot_release, init, timer_start,
  timer_restart, timer_pause, timer_stop, timer_delete, count_down, process_from, tick_process,
  fetch_from, expired_fetch,
}
use ahura_kernel.Timer.Registry.{
  IsRegistry, write-IsRegistry, clear-IsRegistry, release-IsRegistry, arm-IsRegistry,
  pause-IsRegistry, stop-IsRegistry, delete-IsRegistry,
}

pub slot_from-write :
    (n i t u : ℕ) (c : Timer) (s : Timers) → slot_from n i t (set_timer s u c) ≡ slot_from n i t s
unfolding slot_from
slot_from-write zero i t u c s = refl
slot_from-write (suc n) i t u c s =
    ap (λ (o : Option ℕ). if is (s.registry i) t then some i else o)
      (slot_from-write n (i + 1) t u c s)

-- The slot is found by the registry alone.
release-write :
    (t u : ℕ) (c : Timer) (s : Timers)
    → slot_release t (set_timer s u c) ≡ set_timer (slot_release t s) u c
unfolding slot_release slot_find
release-write t u c s =
    ap (emptied (set_timer s u c)) (slot_from-write s.max_timers 0 t u c s)
    ∙ either (slot_from s.max_timers 0 t s)
  where
    emptied : Timers → Option ℕ → Timers
    emptied s' o = elim o [
      | none ↦ s'
      | some slot ↦ record s' { registry = update s'.registry slot none }
    ]

    either : (o : Option ℕ) → emptied (set_timer s u c) o ≡ set_timer (emptied s o) u c
    either none = refl
    either (some slot) = refl

module _ (s : Timers) (reg : IsRegistry s) where
  init-IsRegistry :
      (t period_ticks : ℕ) (mode : TimerMode) (callback context : ℕ)
      → IsRegistry (init t period_ticks mode callback context s).1
  unfolding init
  init-IsRegistry t period_ticks mode callback context =
      if_cases (λ (r : Status × Timers). IsRegistry r.1) (period_ticks == 0 || callback == 0)
        (λ _. reg)
        (λ _.
          let c : Timer = record {
            period_ticks = period_ticks;
            remaining_ticks = period_ticks;
            mode = mode;
            active = false;
            paused = false;
            expired = false;
            callback = callback;
            context = context;
          } in
          subst IsRegistry (release-write t t c s) (
            release-IsRegistry (set_timer s t c) (write-IsRegistry s reg t c (λ h. absurd (cc h))) t
              (ground arith)))

-- Counting down activates no timer.
pub still_counts :
    (e : ℕ) (c : Timer) → (if c.active then count_down e c else c).active ≡ true → c.active ≡ true
unfolding count_down
still_counts e c h = ground (arith, h)

process_from-IsRegistry :
    (n i e : ℕ) (s : Timers) → IsRegistry s → IsRegistry (process_from n i e s).1
unfolding process_from
process_from-IsRegistry zero i e s reg = reg
process_from-IsRegistry (suc n) i e s reg =
    by_slot (s.registry i) (λ s' r. process_from-IsRegistry n (i + 1) e s' r)
  where
    counted : ℕ → Timer
    counted t = if (s.timer t).active then count_down e (s.timer t) else s.timer t

    by_slot :
        (o : Option ℕ)
        → ((s' : Timers) → IsRegistry s' → IsRegistry (process_from n (i + 1) e s').1)
        → IsRegistry
            (elim o as (λ _. Bool × Timers) [
              | none ↦ process_from n (i + 1) e s
              | some t ↦
                  let c = s.timer t in
                  let c' = (if c.active then count_down e c else c) in
                  let (woken, s') = process_from n (i + 1) e (set_timer s t c') in
                  ((c.active && not (ltb e c.remaining_ticks)) || woken, s')
            ]).1
    by_slot none rest = rest s reg
    by_slot (some t) rest =
        rest (set_timer s t (counted t))
          (write-IsRegistry s reg t (counted t) (still_counts e (s.timer t)))

pub tick_process-IsRegistry :
    (e : ℕ) (s : Timers) (k : Kernel) → IsRegistry s → IsRegistry (tick_process e s k).0
unfolding tick_process
tick_process-IsRegistry e s k reg =
    if_cases (λ (r : Timers × Kernel). IsRegistry r.0) (e == 0) (λ _. reg)
      (λ _. process_from-IsRegistry s.max_timers 0 e s reg)

fetch_from-IsRegistry : (n i : ℕ) (s : Timers) → IsRegistry s → IsRegistry (fetch_from n i s).1
unfolding fetch_from
fetch_from-IsRegistry zero i s reg = reg
fetch_from-IsRegistry (suc n) i s reg =
    by_slot (s.registry i) refl (fetch_from n (i + 1) s) (fetch_from-IsRegistry n (i + 1) s reg)
  where
    noted : ℕ → Timers
    noted t = set_timer s t (record (s.timer t) { expired = false })

    by_slot :
        (o : Option ℕ)
        → s.registry i ≡ o
        → (rest : Option (ℕ × ℕ) × Timers) → IsRegistry rest.1
        → IsRegistry
            (elim o as (λ _. Option (ℕ × ℕ) × Timers) [
              | none ↦ rest
              | some t ↦
                  let c = s.timer t in
                  let s' = set_timer s t (record c { expired = false }) in
                  if not c.expired then rest else (
                    some (c.callback, c.context),
                    if c.active then s' else record s' { registry = update s'.registry i none },
                  )
            ]).1
    by_slot none e rest ok_rest = ok_rest
    by_slot (some t) e rest ok_rest =
        let v : IsRegistry (noted t) =
          write-IsRegistry s reg t (record (s.timer t) { expired = false }) (λ h. h) in
        if_cases (λ (r : Option (ℕ × ℕ) × Timers). IsRegistry r.1) (not (s.timer t).expired)
          (λ _. ok_rest)
          (λ _.
            if_cases IsRegistry (s.timer t).active (λ _. v)
              (λ idle. clear-IsRegistry (noted t) v t i (λ u h. ground (arith, e, h, idle))))

-- What may happen to the timers: the calls, a tick, and the timer task fetching an expiry.
pub data Step (s : Timers) : Timers → Type 0 where
  inits :
      (t period_ticks : ℕ) (mode : TimerMode) (callback context : ℕ)
      → Step s (init t period_ticks mode callback context s).1
  starts : (t : ℕ) → Step s (timer_start t s).1
  restarts : (t : ℕ) → Step s (timer_restart t s).1
  pauses : (t : ℕ) → Step s (timer_pause t s).1
  stops : (t : ℕ) → Step s (timer_stop t s).1
  deletes : (t : ℕ) → Step s (timer_delete t s).1
  processes : (elapsed_ticks : ℕ) (k : Kernel) → Step s (tick_process elapsed_ticks s k).0
  fetches : Step s (expired_fetch s).1

-- What may be reached from a registry without timers.
pub data Reach : Timers → Type 0 where
  boot :
      (s : Timers)
      → ((i : ℕ) → s.registry i ≡ none)
      → ((t : ℕ) → (s.timer t).active ≡ false)
      → Reach s
  next : (s s' : Timers) → Reach s → Step s s' → Reach s'

step : (s s' : Timers) → IsRegistry s → Step s s' → IsRegistry s'
unfolding timer_start timer_restart expired_fetch
step s _ reg (inits t period_ticks mode callback context) =
    init-IsRegistry s reg t period_ticks mode callback context
step s _ reg (starts t) = arm-IsRegistry s reg t false
step s _ reg (restarts t) = arm-IsRegistry s reg t true
step s _ reg (pauses t) = pause-IsRegistry s reg t
step s _ reg (stops t) = stop-IsRegistry s reg t
step s _ reg (deletes t) = delete-IsRegistry s reg t
step s _ reg (processes e k) = tick_process-IsRegistry e s k reg
step s _ reg fetches = fetch_from-IsRegistry s.max_timers 0 s reg

-- Whatever calls are made and however the timers expire, every timer that counts has a slot of the
-- registry, so no tick passes it by, and no timer has two, so no tick counts it twice.
pub Reach-IsRegistry : (s : Timers) → Reach s → IsRegistry s
Reach-IsRegistry s (boot _ empty idle) = record {
  distinct = λ i j t hi hj a b. absurd (ground (arith, empty i));
  counts = λ t h. absurd (ground (arith, idle t));
}
Reach-IsRegistry _ (next s s' reach happens) = step s s' (Reach-IsRegistry s reach) happens
