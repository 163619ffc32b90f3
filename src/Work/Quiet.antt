-- ===== src/Work/Quiet.antt =====
-- A tick before the time that os_work_next_ready_ticks_get returns makes no call ready.
use ahura_kernel.Prelude.{
  ℕ, zero, suc, ◌+◌, ◌-◌, ◌^◌, ◌<◌, ◌≡◌, refl, sym, true, false, ltb, ◌==◌, if◌then◌else◌,
  Bool-cases, inl, inr, List, [], ◌∷◌, map, arith,
}
use ahura_kernel.Task.State.{Kernel}
use ahura_kernel.Work.{
  Works, set_entry, tick_entry, process_from, work_tick_process, next_ready_ticks_get,
}
use ahura_kernel.Work.Bag.{Pending, pending_of, bag_from, bag, bag_from-alike}
use ahura_kernel.Work.Fetch.{
  any_ready, tick_pending, bag_from-cons, bag_from-free, work_tick_process-bag,
}
use ahura_kernel.Work.Next.{least, least-le, next_from-least}

-- What a call that is before the others says of the least delay.
least_cons :
    (e m : ℕ) (p : Pending) (ps : List Pending)
    → e < least m (p ∷ ps)
    → (p.ready ≡ false)
      × (e < p.delay_ticks)
      × (e < least (if ltb p.delay_ticks m then p.delay_ticks else m) ps)
least_cons e m p ps early =
    ground (arith, early, least-le (if ltb p.delay_ticks m then p.delay_ticks else m) ps)

process_quiet :
    (n i e m : ℕ) (w : Works)
    → e < least m (bag_from n i w.entry)
    → (process_from n i e w).0 ≡ false
unfolding process_from
process_quiet zero i e m w early = refl
process_quiet (suc n) i e m w early =
    let w' : Works = set_entry i (tick_entry e (w.entry i)) w in
    let same : bag_from n (i + 1) w'.entry ≡ bag_from n (i + 1) w.entry =
      bag_from-alike n (i + 1) w'.entry w.entry (λ j lo hi. ground arith) in
    elim (Bool-cases ((w.entry i).handler == 0)) [
      | inl free ↦
          let before = rw (bag_from-free n i w.entry free) at early in
          let rest = process_quiet n (i + 1) e m w' (rw same before) in ground (arith, free, rest)
      | inr call ↦
          let before = rw (bag_from-cons n i w.entry call) at early in
          let (waits, later, after) =
            least_cons e m (pending_of (w.entry i)) (bag_from n (i + 1) w.entry) before in
          let rest =
            process_quiet n (i + 1) e
              (if ltb (w.entry i).delay_ticks m then (w.entry i).delay_ticks else m) w'
              (rw same after) in
          ground (arith, call, waits, later, rest)
    ]

-- Then os_work_tick_process does not touch the scheduler.
pub work_tick-quiet :
    (e : ℕ) (w : Works) (k : Kernel) → e < next_ready_ticks_get w → (work_tick_process e w k).1 ≡ k
unfolding work_tick_process next_ready_ticks_get
work_tick-quiet e w k early =
    let idle =
      process_quiet w.max_works 0 e (2 ^ 32 - 1) w
        (rw (sym (next_from-least w.max_works 0 (2 ^ 32 - 1) w)) early) in
    rw idle (ground arith)

lt→ltb : {a b : ℕ} → a < b → ltb a b ≡ true
lt→ltb h = ground arith

none_ready :
    (e m : ℕ) (ps : List Pending) → e < least m ps → any_ready (map (tick_pending e) ps) ≡ false
none_ready e m [] early = refl
none_ready e m (p ∷ ps) early =
    let (waits, later, after) = least_cons e m p ps early in
    let rest = none_ready e (if ltb p.delay_ticks m then p.delay_ticks else m) ps after in
    let far : ltb e p.delay_ticks ≡ true = lt→ltb later in ground (arith, waits, far, rest)

-- And no call is ready after it.
pub work_tick-none_ready :
    (e : ℕ) (w : Works) (k : Kernel)
    → 0 < e
    → e < next_ready_ticks_get w
    → any_ready (bag (work_tick_process e w k).0) ≡ false
unfolding next_ready_ticks_get
work_tick-none_ready e w k some_ticks early = rw (work_tick_process-bag e w k some_ticks) (
    none_ready e (2 ^ 32 - 1) (bag w)
      (rw (sym (next_from-least w.max_works 0 (2 ^ 32 - 1) w)) early))
