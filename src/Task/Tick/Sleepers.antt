-- ===== src/Task/Tick/Sleepers.antt =====
-- What a tick does to every sleeper, and that the next wake-up time is the least of their delays.
use ahura_kernel.Prelude.{
  ℕ, ◌-◌, ◌^◌, ◌≤◌, ◌<◌, ◌≡◌, ◌≢◌, refl, ap, ◌∙◌, Bool, not, ◌&&◌, none, List, [], ◌∷◌, arith, ltb,
  ◌==◌, if◌then◌else◌, if_cases, Bool-cases, inl, inr, count,
}
use ahura_kernel.Task.State.{Kernel, Task, Tcb, set_tcb, ready, is_blocked, wait_forever}
use ahura_kernel.Task.Sched.{make_ready}
use ahura_kernel.Task.Tick.{tick_task, tick_from, tick_update, min_delay, next_delay_ticks_get}
use ahura_kernel.Task.Frame.{unlink-tcb}
use ahura_kernel.Task.Inv.{IsValid}

-- A task control block `elapsed_ticks` later: a longer delay is shortened, and a delay that is over
-- makes the task READY, waiting on nothing.
abbrev pub later : ℕ → Tcb → Tcb
later elapsed_ticks c =
    if ltb elapsed_ticks c.delay_ticks
    then record c { delay_ticks = c.delay_ticks - elapsed_ticks }
    else record c { delay_ticks = 0; wait_list = none; state = ready }

-- BLOCKED for a finite time
abbrev pub is_sleeper : Tcb → Bool
is_sleeper c = is_blocked c.state && not (c.delay_ticks == wait_forever)

tick_task-tcb :
    (e : ℕ) (t : Task) (k : Kernel) (u : Task)
    → (tick_task e t k).tcb u ≡ (if t == u then later e (k.tcb t) else k.tcb u)
unfolding tick_task make_ready
tick_task-tcb e t k u =
    let k' : Kernel = set_tcb k t (record (k.tcb t) { delay_ticks = 0 }) in
    ground (arith, unlink-tcb t k' u, unlink-tcb t k' t)

tick_from-tcb :
    (e : ℕ) (ts : List Task) (k : Kernel) (u : Task)
    → count u ts ≤ 1
    → (tick_from e ts k).tcb u ≡ (if count u ts == 0 then k.tcb u else later e (k.tcb u))
unfolding tick_from
tick_from-tcb e [] k u h = refl
tick_from-tcb e (t ∷ ts) k u h =
    tick_from-tcb e ts (tick_task e t k) u (ground arith) ∙ ground (arith, tick_task-tcb e t k u, h)

-- A tick update of at least one tick does to every task what `later` says if it is BLOCKED for a
-- finite time, and leaves every other task control block as it was: no sleeper wakes early, none
-- that is due is left asleep.
pub tick_update-later :
    (e : ℕ) {k : Kernel}
    → IsValid k
    → e ≢ 0
    → (u : Task)
    → (tick_update e k).tcb u ≡ (if is_sleeper (k.tcb u) then later e (k.tcb u) else k.tcb u)
unfolding tick_update
tick_update-later e {k} inv ne u =
    if_cases
      (λ (k' : Kernel). k'.tcb u ≡ (if is_sleeper (k.tcb u) then later e (k.tcb u) else k.tcb u))
      (e == 0) (λ h. absurd (ground arith))
      (λ _.
        tick_from-tcb e k.delay_list k u (ground (arith, inv.delay_count u))
        ∙ ground (arith, inv.delay_count u))

min_delay-le_bound : (k : Kernel) (ts : List Task) (m : ℕ) → min_delay k ts m ≤ m
unfolding min_delay
min_delay-le_bound k [] m = omega arith
min_delay-le_bound k (t ∷ ts) m = ground (
  arith,
  min_delay-le_bound k ts (if ltb (k.tcb t).delay_ticks m then (k.tcb t).delay_ticks else m),
)

min_delay-le :
    (k : Kernel) (ts : List Task) (m : ℕ) (u : Task)
    → count u ts ≢ 0
    → min_delay k ts m ≤ (k.tcb u).delay_ticks
unfolding min_delay
min_delay-le k [] m u h = absurd (h refl)
min_delay-le k (t ∷ ts) m u h =
    let m' = (if ltb (k.tcb t).delay_ticks m then (k.tcb t).delay_ticks else m) in
    elim (Bool-cases (t == u)) [
      | inl e ↦ ground (arith, min_delay-le_bound k ts m')
      | inr e ↦ min_delay-le k ts m' u (ground (arith, h))
    ]

-- A tick update of fewer ticks than os_task_next_delay_ticks_get returns changes no task's state:
-- the tick may be put off that long.
pub tick_update-before_next :
    (e : ℕ) {k : Kernel}
    → IsValid k
    → e ≢ 0
    → e < next_delay_ticks_get k
    → (u : Task) → ((tick_update e k).tcb u).state ≡ (k.tcb u).state
unfolding next_delay_ticks_get
tick_update-before_next e {k} inv ne early u =
    ap (λ (c : Tcb). c.state) (tick_update-later e inv ne u)
    ∙ elim (Bool-cases (is_sleeper (k.tcb u))) [
      | inl s ↦ ground (
        arith,
        inv.delay_count u,
        min_delay-le k k.delay_list (2 ^ 32 - 1) u (ground (arith, inv.delay_count u)),
      )
      | inr s ↦ ground arith
    ]
