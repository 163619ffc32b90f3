-- ===== src/Timer/Count.antt =====
-- What a tick does to every timer.
use ahura_kernel.Prelude.{
  ℕ, zero, suc, ◌+◌, ◌≡◌, ◌≢◌, ◌⊎◌, refl, ap, ◌∙◌, Bool, true, false, not, ◌&&◌, ◌||◌, ltb, ◌==◌,
  if◌then◌else◌, if_cases, Bool-cases, Option-cases, inl, inr, Option, none, some, is, update,
  arith,
}
use ahura_kernel.Task.State.{Kernel}
use ahura_kernel.Timer.{Timer, Timers, set_timer, slot_from, count_down, process_from, tick_process}
use ahura_kernel.Timer.Registry.{IsRegistry, Slot, slot_from-Slot, slot_from-none, write-IsRegistry}
use ahura_kernel.Timer.Run.{slot_from-write, still_counts}

abbrev found : Option ℕ → Bool
found none = false
found (some i) = true

-- The walk counts down the timers that it meets.
abbrev walked : Bool → ℕ → Timer → Timer
walked met e c = if met && c.active then count_down e c else c

abbrev counted : Timers → ℕ → ℕ → Timer
counted s e t = if (s.timer t).active then count_down e (s.timer t) else s.timer t

-- A timer in slot `i` is in no later slot.
no_second :
    (n i t : ℕ) (s : Timers)
    → IsRegistry s
    → i + suc n ≡ s.max_timers
    → is (s.registry i) t ≡ true
    → slot_from n (i + 1) t s ≡ none
no_second n i t s reg end h = elim (Option-cases (slot_from n (i + 1) t s)) [
  | inl e ↦ e
  | inr (j, e) ↦
      let slot : Slot s t (i + 1) n j = slot_from-Slot n (i + 1) t s j e in
      absurd (
        omega (
          arith,
          slot.from,
          reg.distinct i j t (omega arith) (omega (arith, slot.below)) h slot.holds,
        ))
]

met_once :
    (o : Option ℕ) (u t i e : ℕ) (s : Timers)
    → ((u == t) ≡ true → o ≡ none)
    → walked (found o) e (update s.timer u (counted s e u) t)
      ≡ walked (found (if u == t then some i else o)) e (s.timer t)
met_once o u t i e s first = elim (Bool-cases (u == t)) [
  | inl h ↦ ground (arith, h, first h)
  | inr h ↦ ground (arith, h)
]

process_from-walked :
    (n i e : ℕ) (s : Timers) (t : ℕ)
    → IsRegistry s
    → i + n ≡ s.max_timers
    → (process_from n i e s).1.timer t ≡ walked (found (slot_from n i t s)) e (s.timer t)
unfolding process_from slot_from
process_from-walked zero i e s t reg end = refl
process_from-walked (suc n) i e s t reg end =
    by_slot (s.registry i) refl (λ s' r m. process_from-walked n (i + 1) e s' t r m)
  where
    by_slot :
        (o : Option ℕ)
        → s.registry i ≡ o
        → ((s' : Timers)
            → IsRegistry s'
            → i + 1 + n ≡ s'.max_timers
            → (process_from n (i + 1) e s').1.timer t
              ≡ walked (found (slot_from n (i + 1) t s')) e (s'.timer t))
        → (elim o as (λ _. Bool × Timers) [
          | none ↦ process_from n (i + 1) e s
          | some u ↦
              let c = s.timer u in
              let c' = (if c.active then count_down e c else c) in
              let (woken, s') = process_from n (i + 1) e (set_timer s u c') in
              ((c.active && not (ltb e c.remaining_ticks)) || woken, s')
        ]).1.timer
            t
          ≡ walked (found (if is o t then some i else slot_from n (i + 1) t s)) e (s.timer t)
    by_slot none h rest = rest s reg (omega arith)
    by_slot (some u) h rest =
        rest (set_timer s u (counted s e u))
          (write-IsRegistry s reg u (counted s e u) (still_counts e (s.timer u))) (omega arith)
        ∙ ap (λ (o : Option ℕ). walked (found o) e ((set_timer s u (counted s e u)).timer t))
            (slot_from-write n (i + 1) t u (counted s e u) s)
        ∙ met_once (slot_from n (i + 1) t s) u t i e s
            (λ same. no_second n i t s reg end (ground (arith, h)))

-- A tick of at least one tick counts down every timer that is active, once, whatever slots the
-- timers have, and writes no other timer.
pub tick_process-counted :
    (e : ℕ) (s : Timers) (k : Kernel)
    → IsRegistry s
    → e ≢ 0
    → (t : ℕ)
    → (tick_process e s k).0.timer t
      ≡ (if (s.timer t).active then count_down e (s.timer t) else s.timer t)
unfolding tick_process
tick_process-counted e s k reg ne t =
    if_cases (λ (r : Timers × Kernel). r.0.timer t ≡ counted s e t) (e == 0)
      (λ h. absurd (ground arith))
      (λ _.
        process_from-walked s.max_timers 0 e s t reg (omega arith)
        ∙ every_active (Bool-cases (s.timer t).active))
  where
    every_active :
        ((s.timer t).active ≡ true) ⊎ ((s.timer t).active ≡ false)
        → walked (found (slot_from s.max_timers 0 t s)) e (s.timer t) ≡ counted s e t
    every_active (inl h) = elim (Option-cases (slot_from s.max_timers 0 t s)) [
      | inl none_found ↦
          let (i, below, holds) = reg.counts t h in
          absurd (
            ground (
              arith,
              holds,
              slot_from-none s.max_timers 0 t s none_found i (omega arith) (omega arith),
            ))
      | inr (j, has) ↦ ground (arith, h, has)
    ]
    every_active (inr h) = ground (arith, h)
