-- ===== src/Delay/Sleeps.antt =====
-- The loop of os_delay_ticks: a forced wake does not cut a delay short, and the wrap of the tick
-- counter does not lengthen it.
use ahura_kernel.Prelude.{
  ℕ, ◌+◌, ◌-◌, ◌*◌, ◌/◌, ◌%◌, ◌^◌, ◌≤◌, ◌<◌, ◌≡◌, ◌≢◌, refl, sym, ap, subst, if_cases, true, Option,
  some, List, [], ◌∷◌, ◌++◌, map, inl, inr, Bool-cases, ==→eq, ltb→lt, ltb→le, ltb, ◌==◌, arith,
}
use ahura_kernel.Task.State.{wait_forever}
use ahura_kernel.Delay.{
  Sleep, woken, slept, ticks_passed, minus32, sleep_loop, finite_ticks, delay_ticks, clamp32,
  ticks_of_ms, delay_ms,
}

-- `ticks` after `tick`, on the 32-bit counter.
abbrev pub tick_after : ℕ → ℕ → ℕ
tick_after tick ticks = (tick + ticks) % 2 ^ 32

-- The loop from `elapsed` on ends after at least `wait` ticks, and at most `late` more.
pub record EndsIn (start wait late : ℕ) (r : Option ℕ) : Type 0 where
  pub ticks : ℕ
  pub enough : wait ≤ ticks
  pub prompt : ticks ≤ wait + late
  pub ends : r ≡ some (tick_after start ticks)

stops :
    (start wait elapsed tick : ℕ) (l : List Sleep)
    → wait ≤ elapsed
    → sleep_loop start wait elapsed tick l ≡ some tick
unfolding sleep_loop
stops start wait elapsed tick [] over = ground arith
stops start wait elapsed tick (s ∷ l) over = ground arith

pub counts :
    (start elapsed p : ℕ) → (tick_after start elapsed + p) % 2 ^ 32 ≡ tick_after start (elapsed + p)
counts start elapsed p = omega arith

pub measures :
    (start ticks : ℕ)
    → start < 2 ^ 32
    → ticks < 2 ^ 32
    → minus32 (tick_after start ticks) start ≡ ticks
measures start ticks a b = omega arith

sleeps_on :
    (start wait elapsed : ℕ) (s : Sleep) (l : List Sleep)
    → start < 2 ^ 32
    → elapsed < wait
    → elapsed + ticks_passed (wait - elapsed) s < 2 ^ 32
    → sleep_loop start wait elapsed (tick_after start elapsed) (s ∷ l) ≡ (
        let now = elapsed + ticks_passed (wait - elapsed) s in
        sleep_loop start wait now (tick_after start now) l)
unfolding sleep_loop
sleeps_on start wait elapsed s l a b c =
    let p = ticks_passed (wait - elapsed) s in
    let more : ltb elapsed wait ≡ true = ground arith in
    rw (more, counts start elapsed p, measures start (elapsed + p) a c) refl

module _ (start wait late : ℕ) (later : List Sleep) (a : start < 2 ^ 32)
    (b : wait + late < 2 ^ 32) where
  abbrev Ends : (elapsed : ℕ) → List Sleep → Type 0
  Ends elapsed l =
      EndsIn start wait late (sleep_loop start wait elapsed (tick_after start elapsed) l)

  ended : (elapsed : ℕ) (l : List Sleep) → wait ≤ elapsed → elapsed ≤ wait + late → Ends elapsed l
  ended elapsed l over bound = record {
    ticks = elapsed;
    enough = over;
    prompt = bound;
    ends = stops start wait elapsed (tick_after start elapsed) l over;
  }

  next :
      (elapsed : ℕ) (s : Sleep) (l : List Sleep)
      → elapsed < wait
      → ticks_passed (wait - elapsed) s ≤ wait - elapsed + late
      → Ends (elapsed + ticks_passed (wait - elapsed) s) l
      → Ends elapsed (s ∷ l)
  next elapsed s l c d e = rw (sleeps_on start wait elapsed s l a c (omega arith)) e

  all_end :
      (wakes : List ℕ) (elapsed : ℕ)
      → elapsed ≤ wait
      → Ends elapsed (map woken wakes ++ slept late ∷ later)
  all_end [] elapsed c = elim (Bool-cases (ltb elapsed wait)) [
    | inr over ↦ ended elapsed _ (ltb→le elapsed wait over) (omega arith)
    | inl more ↦
        next elapsed (slept late) later (ltb→lt elapsed wait more) (omega arith)
          (ended _ later (ground (arith, more)) (ground (arith, more)))
  ]
  all_end (w ∷ ws) elapsed c = elim (Bool-cases (ltb elapsed wait)) [
    | inr over ↦ ended elapsed _ (ltb→le elapsed wait over) (omega arith)
    | inl more ↦
        next elapsed (woken w) _ (ltb→lt elapsed wait more) (ground (arith, more))
          (all_end ws _ (ground (arith, more)))
  ]

-- os_delay_ticks in a task that can block.
delay_ticks-EndsIn :
    (ticks start late : ℕ) (wakes : List ℕ) (later : List Sleep)
    → start < 2 ^ 32
    → finite_ticks ticks + late < 2 ^ 32
    → EndsIn start
        (finite_ticks ticks)
        late
        (delay_ticks ticks start (map woken wakes ++ slept late ∷ later))
unfolding delay_ticks
delay_ticks-EndsIn ticks start late wakes later a b =
    let l = map woken wakes ++ slept late ∷ later in
    let wait = finite_ticks ticks in
    let from_start : tick_after start 0 ≡ start = omega arith in
    if_cases (EndsIn start wait late) (ticks == 0)
      (λ none_left. record {
        ticks = 0;
        enough = ground (arith, none_left);
        prompt = omega arith;
        ends = ap some (sym from_start);
      })
      (λ _.
        subst (λ (tick : ℕ). EndsIn start wait late (sleep_loop start wait 0 tick l)) from_start
          (all_end start wait late later a b wakes 0 (omega arith)))

rounded_up :
    (x : ℕ)
    → x + 999 < 1000 * (2 ^ 32 - 1)
    → (x ≤ finite_ticks (clamp32 ((x + 999) / 1000)) * 1000)
      × (finite_ticks (clamp32 ((x + 999) / 1000)) * 1000 < x + 1000)
rounded_up x small = let fits : (x + 999) / 1000 < 2 ^ 32 - 1 = omega arith in ground (arith, fits)

-- os_delay_ms in a task that can block returns however often the task is woken early, wherever the
-- 32-bit tick counter starts: after at least the requested time rounded up to whole ticks, which is
-- less than a tick more than it, and at most the last sleep's lateness later. The request is not the
-- value that means forever, and is of fewer than 2^32 - 1 ticks; the delay takes fewer than 2^32.
pub delay_ms-EndsIn :
    (tick_hz milliseconds start late : ℕ) (wakes : List ℕ) (later : List Sleep)
    → milliseconds ≢ wait_forever
    → milliseconds * tick_hz + 999 < 1000 * (2 ^ 32 - 1)
    → start < 2 ^ 32
    → finite_ticks (ticks_of_ms tick_hz milliseconds) + late < 2 ^ 32
    → (ticks : ℕ) × (milliseconds * tick_hz ≤ ticks * 1000)
      × (ticks * 1000 < milliseconds * tick_hz + 1000)
      × EndsIn start ticks late
          (delay_ms tick_hz milliseconds start (map woken wakes ++ slept late ∷ later))
unfolding delay_ms ticks_of_ms
delay_ms-EndsIn tick_hz milliseconds start late wakes later finite small a b =
    let ticks = ticks_of_ms tick_hz milliseconds in
    let (covers, tight) = rounded_up (milliseconds * tick_hz) small in
    let l = map woken wakes ++ slept late ∷ later in
    (
      finite_ticks ticks,
      covers,
      tight,
      if_cases (EndsIn start (finite_ticks ticks) late) (milliseconds == wait_forever)
          (λ forever. absurd (finite (==→eq milliseconds wait_forever forever)))
          (λ _. delay_ticks-EndsIn ticks start late wakes later a b),
    )
