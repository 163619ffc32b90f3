-- ===== src/Timer/Quiet.antt =====
-- A tick before the time that os_timer_next_expiry_ticks_get returns expires no timer.
use ahura_kernel.Prelude.{
  ℕ, zero, suc, ◌+◌, ◌-◌, ◌^◌, ◌≤◌, ◌<◌, ◌≡◌, ◌≢◌, refl, sym, ap, ◌∙◌, Bool, true, false, not, ◌&&◌,
  ◌||◌, ltb, ◌==◌, if◌then◌else◌, Bool-cases, Option-cases, ==→eq, inl, inr, none, some, is, arith,
}
use ahura_kernel.Task.State.{Kernel}
use ahura_kernel.Timer.{
  Timer, Timers, set_timer, count_down, process_from, tick_process, next_from,
  next_expiry_ticks_get,
}
use ahura_kernel.Timer.Registry.{IsRegistry, write-IsRegistry}
use ahura_kernel.Timer.Run.{still_counts}
use ahura_kernel.Timer.Count.{tick_process-counted}

-- The least count is no more than what the search starts from, and that of a timer that counts.
next_from-none :
    (n i m : ℕ) (s : Timers)
    → s.registry i ≡ none
    → next_from (suc n) i m s ≡ next_from n (i + 1) m s
unfolding next_from
next_from-none n i m s h = ground (arith, h)

next_from-some :
    (n i m u : ℕ) (s : Timers)
    → s.registry i ≡ some u
    → next_from (suc n) i m s
      ≡ next_from n
          (i + 1)
          (if (s.timer u).active && ltb (s.timer u).remaining_ticks m
            then (s.timer u).remaining_ticks
            else m)
          s
unfolding next_from
next_from-some n i m u s h = ground (arith, h)

next_from-le : (n i m : ℕ) (s : Timers) → next_from n i m s ≤ m
unfolding next_from
next_from-le zero i m s = omega arith
next_from-le (suc n) i m s = elim (Option-cases (s.registry i)) [
  | inl h ↦ rw (next_from-none n i m s h) (next_from-le n (i + 1) m s)
  | inr (u, h) ↦ rw (next_from-some n i m u s h) (
      ground (
        arith,
        next_from-le n (i + 1)
            (if (s.timer u).active && ltb (s.timer u).remaining_ticks m
              then (s.timer u).remaining_ticks
              else m)
            s,
      ))
]

next_from-slot :
    (n i m j t : ℕ) (s : Timers)
    → i ≤ j
    → j < i + n
    → is (s.registry j) t ≡ true
    → (s.timer t).active ≡ true
    → next_from n i m s ≤ (s.timer t).remaining_ticks
next_from-slot zero i m j t s lo hi holds active = absurd (omega arith)
next_from-slot (suc n) i m j t s lo hi holds active = elim (Option-cases (s.registry i)) [
  | inl h ↦
      rw (next_from-none n i m s h)
        (next_from-slot n (i + 1) m j t s (ground (arith, h, holds)) (omega arith) holds active)
  | inr (u, h) ↦
      let m' =
        (if (s.timer u).active && ltb (s.timer u).remaining_ticks m
          then (s.timer u).remaining_ticks
          else m) in
      rw (next_from-some n i m u s h) (elim (Bool-cases (i == j)) [
        | inl here ↦
            let same : some u ≡ s.registry j = sym h ∙ ap s.registry (==→eq i j here) in
            let one : u ≡ t = ground (arith, same, holds) in
            let low = next_from-le n (i + 1) m' s in ground (arith, low, active, one)
        | inr later ↦ next_from-slot n (i + 1) m' j t s (ground arith) (omega arith) holds active
      ])
]

-- No timer that counts is due.
abbrev NoneDue : ℕ → ℕ → ℕ → Timers → Type 0
NoneDue n i e s =
    (j t : ℕ)
    → i ≤ j
    → j < i + n
    → is (s.registry j) t ≡ true
    → (s.timer t).active ≡ true
    → e < (s.timer t).remaining_ticks

process_from-none :
    (n i e : ℕ) (s : Timers)
    → s.registry i ≡ none
    → (process_from (suc n) i e s).0 ≡ (process_from n (i + 1) e s).0
unfolding process_from
process_from-none n i e s h = ground (arith, h)

abbrev counted : ℕ → Timer → Timer
counted e c = if c.active then count_down e c else c

process_from-some :
    (n i e u : ℕ) (s : Timers)
    → s.registry i ≡ some u
    → (process_from (suc n) i e s).0 ≡ (
        ((s.timer u).active && not (ltb e (s.timer u).remaining_ticks))
        || (process_from n (i + 1) e (set_timer s u (counted e (s.timer u)))).0)
unfolding process_from
process_from-some n i e u s h = ground (arith, h)

process_from-zero : (i e : ℕ) (s : Timers) → (process_from zero i e s).0 ≡ false
unfolding process_from
process_from-zero i e s = refl

quiet_or :
    (e : ℕ) (c : Timer) (b : Bool)
    → (c.active ≡ true → e < c.remaining_ticks)
    → b ≡ false
    → ((c.active && not (ltb e c.remaining_ticks)) || b) ≡ false
quiet_or e c b far rest = ground (arith, rest, far)

timers_quiet :
    (n i e : ℕ) (s : Timers)
    → IsRegistry s
    → i + n ≡ s.max_timers
    → NoneDue n i e s
    → (process_from n i e s).0 ≡ false
timers_quiet zero i e s reg end far = process_from-zero i e s
timers_quiet (suc n) i e s reg end far = elim (Option-cases (s.registry i)) [
  | inl h ↦
      process_from-none n i e s h
      ∙ timers_quiet n (i + 1) e s reg (omega arith)
          (λ j t lo hi. far j t (omega arith) (omega arith))
  | inr (u, h) ↦
      let rest =
        timers_quiet n (i + 1) e (set_timer s u (counted e (s.timer u)))
          (write-IsRegistry s reg u (counted e (s.timer u)) (still_counts e (s.timer u)))
          (omega arith)
          (λ j t lo hi holds active. elim (Bool-cases (u == t)) [
            | inl same ↦ absurd (
                omega (
                  arith,
                  reg.distinct i j t (omega arith) (omega arith) (ground (arith, h, same)) holds,
                ))
            | inr other ↦ rw other (far j t (omega arith) (omega arith) holds (rw other at active))
          ]) in
      let here = far i u (omega arith) (omega arith) (ground (arith, h)) in
      process_from-some n i e u s h ∙ quiet_or e (s.timer u) _ here rest
]

none_due : (e : ℕ) (s : Timers) → e < next_expiry_ticks_get s → NoneDue s.max_timers 0 e s
unfolding next_expiry_ticks_get
none_due e s early = λ j t lo hi holds active.
    omega (arith, early, next_from-slot s.max_timers 0 (2 ^ 32 - 1) j t s lo hi holds active)

not_noted :
    (e : ℕ) (c : Timer)
    → (c.active ≡ true → e < c.remaining_ticks)
    → (counted e c).expired ≡ c.expired
unfolding count_down
not_noted e c far = ground (arith, far)

-- Then os_timer_tick_process does not touch the scheduler, and no timer's expiry is noted.
pub timer_tick-quiet :
    (e : ℕ) (s : Timers) (k : Kernel)
    → IsRegistry s
    → e < next_expiry_ticks_get s
    → (tick_process e s k).1 ≡ k
unfolding tick_process
timer_tick-quiet e s k reg early =
    let idle = timers_quiet s.max_timers 0 e s reg (omega arith) (none_due e s early) in
    rw idle (ground arith)

pub timer_tick-expired :
    (e : ℕ) (s : Timers) (k : Kernel)
    → IsRegistry s
    → e ≢ 0
    → e < next_expiry_ticks_get s
    → (t : ℕ) → ((tick_process e s k).0.timer t).expired ≡ (s.timer t).expired
timer_tick-expired e s k reg ne early t =
    ap (λ (c : Timer). c.expired) (tick_process-counted e s k reg ne t)
    ∙ not_noted e (s.timer t) (λ active.
      let (i, below, holds) = reg.counts t active in
      none_due e s early i t (omega arith) (omega (arith, below)) holds active)
