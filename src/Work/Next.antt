-- ===== src/Work/Next.antt =====
-- The tickless plan of the work queue.
use ahura_kernel.Prelude.{
  ℕ, zero, suc, ◌+◌, ◌-◌, ◌^◌, ◌≤◌, ◌<◌, ◌≡◌, ◌⊎◌, refl, true, ltb, ◌==◌, if◌then◌else◌, Bool-cases,
  inl, inr, List, [], ◌∷◌, map, arith,
}
use ahura_kernel.Task.State.{Kernel}
use ahura_kernel.Work.{Works, next_from, next_ready_ticks_get, work_tick_process}
use ahura_kernel.Work.Bag.{Pending, bag_from, bag}
use ahura_kernel.Work.Fetch.{tick_pending, work_tick_process-bag}

-- The least delay of the calls that wait, 0 if one is ready.
abbrev pub least : ℕ → List Pending → ℕ
least minimum [] = minimum
least minimum (p ∷ ps) =
    if p.ready then 0 else least (if ltb p.delay_ticks minimum then p.delay_ticks else minimum) ps

pub next_from-least :
    (n i minimum : ℕ) (w : Works) → next_from n i minimum w ≡ least minimum (bag_from n i w.entry)
unfolding next_from bag_from
next_from-least zero i minimum w = refl
next_from-least (suc n) i minimum w = elim (Bool-cases ((w.entry i).handler == 0)) [
  | inl free ↦ rw free (next_from-least n (i + 1) minimum w)
  | inr call ↦ rw call (
      ground (
        arith,
        next_from-least n (i + 1)
            (if ltb (w.entry i).delay_ticks minimum then (w.entry i).delay_ticks else minimum) w,
      ))
]

pub least-le : (minimum : ℕ) (ps : List Pending) → least minimum ps ≤ minimum
least-le minimum [] = omega arith
least-le minimum (p ∷ ps) =
    ground (arith, least-le (if ltb p.delay_ticks minimum then p.delay_ticks else minimum) ps)

-- `no_call` is what the search starts from.
abbrev no_call : ℕ
no_call = 4294967295

abbrev Behind : ℕ → ℕ → ℕ → Type 0
Behind e m m' = ((m ≡ no_call) × (m' ≡ no_call)) ⊎ ((m < no_call) × (m' ≡ m - e))

abbrev AreFinite : List Pending → Type 0
AreFinite [] = Unit {0}
AreFinite (p ∷ ps) = (p.delay_ticks < no_call) × AreFinite ps

nearer :
    (e m m' d : ℕ)
    → d < no_call
    → ltb e d ≡ true
    → Behind e m m'
    → Behind e (if ltb d m then d else m) (if ltb (d - e) m' then d - e else m')
nearer e m m' d finite later (inl (a, b)) = inr (ground arith, ground arith)
nearer e m m' d finite later (inr (a, b)) = inr (ground arith, ground arith)

least-tick :
    (e m m' : ℕ) (ps : List Pending)
    → AreFinite ps
    → Behind e m m'
    → Behind e (least m ps) (least m' (map (tick_pending e) ps))
least-tick e m m' [] finite start = start
least-tick e m m' (p ∷ ps) finite start = elim (Bool-cases p.ready) [
  | inl ready ↦ rw ready (inr (omega arith, omega arith))
  | inr waits ↦ elim (Bool-cases (ltb e p.delay_ticks)) [
    | inl later ↦
        rw (waits, later)
          (least-tick e (if ltb p.delay_ticks m then p.delay_ticks else m)
            (if ltb (p.delay_ticks - e) m' then p.delay_ticks - e else m') ps finite.1
            (nearer e m m' p.delay_ticks finite.0 later start))
    | inr due ↦
        let below = least-le (if ltb p.delay_ticks m then p.delay_ticks else m) ps in
        rw (waits, due) (inr (ground (arith, below, finite), ground (arith, below, due)))
  ]
]

-- After a tick of fewer ticks than os_work_next_ready_ticks_get returns, no call is ready, and the
-- function returns that many ticks less; after that many ticks or more it returns 0, so that a call
-- is ready. Without a call it returns 2^32 - 1 before and after.
pub next_ready-tick :
    (e : ℕ) (w : Works) (k : Kernel)
    → 0 < e
    → AreFinite (bag w)
    → Behind e (next_ready_ticks_get w) (next_ready_ticks_get (work_tick_process e w k).0)
unfolding next_ready_ticks_get
next_ready-tick e w k ticks finite =
    let before = next_from-least w.max_works 0 (2 ^ 32 - 1) w in
    let w' = (work_tick_process e w k).0 in
    let after = next_from-least w'.max_works 0 (2 ^ 32 - 1) w' in
    let ticked = work_tick_process-bag e w k ticks in
    rw (before, after, ticked) (least-tick e no_call no_call (bag w) finite (inl (refl, refl)))
