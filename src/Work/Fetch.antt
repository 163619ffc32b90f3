-- ===== src/Work/Fetch.antt =====
-- The work task takes ready calls out of the bag, and a tick makes calls ready.
use ahura_kernel.Prelude.{
  ℕ, zero, suc, ◌+◌, ◌-◌, ◌≤◌, ◌<◌, ◌≡◌, ◌≢◌, refl, sym, ap, ◌∙◌, Bool, true, false, ◌||◌, ltb,
  ◌==◌, if◌then◌else◌, Bool-cases, ==→eq, ==→ne, inl, inr, Option, none, some, List, [], ◌∷◌, map,
  update, arith,
}
use mathlib.Core.List.{Perm}
use mathlib.Core.Path.{ap₂}
use ahura_kernel.Task.State.{Kernel}
use ahura_kernel.Work.{
  Entry, Works, set_entry, tick_entry, process_from, work_tick_process, emptied, fetch_from,
  ready_fetch,
}
use ahura_kernel.Work.Bag.{Pending, pending_of, bag_from, bag, bag_from-alike, bag_from-fill}
use ahura_kernel.Queue.Bytes.{copy_out}

abbrev pub any_ready : List Pending → Bool
any_ready [] = false
any_ready (p ∷ ps) = p.ready || any_ready ps

-- Nothing is ready and nothing was taken, or one ready call was taken and the others are left.
abbrev pub Fetched : List Pending → Option (ℕ × List ℕ) → List Pending → Type 0
Fetched before none left = (any_ready before ≡ false) × (left ≡ before)
Fetched before (some (handler, bytes)) left =
    (p : Pending) × (p.handler ≡ handler)
    × (p.bytes ≡ bytes)
    × (p.ready ≡ true)
    × Perm before (p ∷ left)

fetch_from-none :
    (n i : ℕ) (w : Works)
    → (fetch_from n i w).0 ≡ none
    → (any_ready (bag_from n i w.entry) ≡ false) × ((fetch_from n i w).1 ≡ w)
unfolding fetch_from bag_from
fetch_from-none zero i w h = (refl, refl)
fetch_from-none (suc n) i w h = elim (Bool-cases ((w.entry i).handler == 0)) [
  | inl free ↦ rw free (fetch_from-none n (i + 1) w (ground (arith, h, free)))
  | inr taken ↦ elim (Bool-cases (w.entry i).ready) [
    | inl ready ↦ absurd (ground (arith, h, taken, ready))
    | inr waits ↦ rw (taken, waits) (fetch_from-none n (i + 1) w (ground (arith, h, taken, waits)))
  ]
]

-- The slot whose call is taken.
record Taken (n i : ℕ) (w : Works) (c : ℕ × List ℕ) : Type 0 where
  slot : ℕ
  from : i ≤ slot
  below : slot < i + n
  call : (w.entry slot).handler ≢ 0
  ready : (w.entry slot).ready ≡ true
  handler : c.0 ≡ (w.entry slot).handler
  bytes : c.1 ≡ copy_out 0 (w.entry slot).len (w.entry slot).payload
  left : (fetch_from n i w).1 ≡ set_entry slot (emptied (w.entry slot)) w

later-Taken :
    (n i : ℕ) (w : Works) (c : ℕ × List ℕ)
    → fetch_from (suc n) i w ≡ fetch_from n (i + 1) w
    → Taken n (i + 1) w c
    → Taken (suc n) i w c
later-Taken n i w c same t = record {
  slot = t.slot;
  from = omega (arith, t.from);
  below = omega (arith, t.below);
  call = t.call;
  ready = t.ready;
  handler = t.handler;
  bytes = t.bytes;
  left = ap (λ r. r.1) same ∙ t.left;
}

fetch_from-Taken :
    (n i : ℕ) (w : Works) (c : ℕ × List ℕ) → (fetch_from n i w).0 ≡ some c → Taken n i w c
unfolding fetch_from
fetch_from-Taken zero i w c h = cc
fetch_from-Taken (suc n) i w c h = elim (Bool-cases ((w.entry i).handler == 0)) [
  | inl free ↦
      later-Taken n i w c (rw free) (fetch_from-Taken n (i + 1) w c (ground (arith, h, free)))
  | inr taken ↦ elim (Bool-cases (w.entry i).ready) [
    | inl ready ↦
        let here : c ≡ ((w.entry i).handler, copy_out 0 (w.entry i).len (w.entry i).payload) =
          ground (arith, h, taken, ready) in
        record {
          slot = i;
          from = omega arith;
          below = omega arith;
          call = ==→ne _ _ taken;
          ready = ready;
          handler = ap (λ r. r.0) here;
          bytes = ap (λ r. r.1) here;
          left = rw (taken, ready);
        }
    | inr waits ↦
        later-Taken n i w c (rw (taken, waits))
          (fetch_from-Taken n (i + 1) w c (ground (arith, h, taken, waits)))
  ]
]

-- What elapsed ticks do to a call that waits.
abbrev pub tick_pending : ℕ → Pending → Pending
tick_pending e p =
    if p.ready
    then p
    else if ltb e p.delay_ticks
    then record p { delay_ticks = p.delay_ticks - e }
    else record p { delay_ticks = 0; ready = true }

-- A slot that is written twice, the second time with what it held.
restored : (f : ℕ → Entry) (i : ℕ) (e : Entry) (j : ℕ) → f j ≡ update (update f i e) i (f i) j
restored f i e j = elim (Bool-cases (i == j)) [
  | inl h ↦ rw h (ap f (sym (==→eq i j h)))
  | inr h ↦ rw h
]

tick_entry-pending :
    (e : ℕ) (x : Entry)
    → (x.handler == 0) ≡ false
    → ((tick_entry e x).handler ≡ x.handler)
      × (pending_of (tick_entry e x) ≡ tick_pending e (pending_of x))
unfolding tick_entry
tick_entry-pending e x call = elim (Bool-cases x.ready) [
  | inl ready ↦ rw (call, ready) (refl, refl)
  | inr waits ↦ elim (Bool-cases (ltb e x.delay_ticks)) [
    | inl later ↦ rw (call, waits, later) (refl, refl)
    | inr due ↦ rw (call, waits, due) (refl, refl)
  ]
]

tick_entry-free : (e : ℕ) (x : Entry) → (x.handler == 0) ≡ true → tick_entry e x ≡ x
unfolding tick_entry
tick_entry-free e x free = rw free

took-Fetched :
    (w : Works) (c : ℕ × List ℕ)
    → Taken w.max_works 0 w c
    → Fetched (bag w) (some c) (bag (fetch_from w.max_works 0 w).1)
took-Fetched w (handler, bytes) t =
    let e = w.entry t.slot in
    let freed = update w.entry t.slot (emptied e) in
    let back : bag_from w.max_works 0 w.entry ≡ bag_from w.max_works 0 (update freed t.slot e) =
      bag_from-alike w.max_works 0 w.entry (update freed t.slot e)
        (λ j lo hi. restored w.entry t.slot (emptied e) j) in
    let given = bag_from-fill w.max_works 0 t.slot freed e t.from t.below (ground arith) t.call in
    (pending_of e, sym t.handler, sym t.bytes, t.ready, rw (back, t.left) given)

-- os_work_ready_fetch takes exactly one call that is ready, with its payload, and leaves the others;
-- it takes none only if none is ready.
pub ready_fetch-Fetched : (w : Works) → Fetched (bag w) (ready_fetch w).0 (bag (ready_fetch w).1)
unfolding ready_fetch
ready_fetch-Fetched w = by_result (fetch_from w.max_works 0 w).0 refl
  where
    by_result :
        (o : Option (ℕ × List ℕ))
        → (fetch_from w.max_works 0 w).0 ≡ o
        → Fetched (bag w) o (bag (fetch_from w.max_works 0 w).1)
    by_result none h = let (idle, same) = fetch_from-none w.max_works 0 w h in (idle, ap bag same)
    by_result (some c) h = took-Fetched w c (fetch_from-Taken w.max_works 0 w c h)

process_from-entry :
    (n i e : ℕ) (w : Works) (j : ℕ)
    → (process_from n i e w).1.entry j ≡ (
        if ltb j i
        then w.entry j
        else if ltb j (i + n)
        then tick_entry e (w.entry j)
        else w.entry j)
unfolding process_from
process_from-entry zero i e w j = ground arith
process_from-entry (suc n) i e w j =
    process_from-entry n (i + 1) e (set_entry i (tick_entry e (w.entry i)) w) j ∙ ground arith

process_from-size : (n i e : ℕ) (w : Works) → (process_from n i e w).1.max_works ≡ w.max_works
unfolding process_from
process_from-size zero i e w = refl
process_from-size (suc n) i e w =
    process_from-size n (i + 1) e (set_entry i (tick_entry e (w.entry i)) w)

pub bag_from-cons :
    (n i : ℕ) (f : ℕ → Entry)
    → ((f i).handler == 0) ≡ false
    → bag_from (suc n) i f ≡ pending_of (f i) ∷ bag_from n (i + 1) f
unfolding bag_from
bag_from-cons n i f call = rw call

pub bag_from-free :
    (n i : ℕ) (f : ℕ → Entry)
    → ((f i).handler == 0) ≡ true
    → bag_from (suc n) i f ≡ bag_from n (i + 1) f
unfolding bag_from
bag_from-free n i f free = rw free

bag_from-tick :
    (n i e : ℕ) (f g : ℕ → Entry)
    → ((j : ℕ) → i ≤ j → j < i + n → g j ≡ tick_entry e (f j))
    → bag_from n i g ≡ map (tick_pending e) (bag_from n i f)
unfolding bag_from
bag_from-tick zero i e f g ticked = refl
bag_from-tick (suc n) i e f g ticked =
    let here = ticked i (omega arith) (omega arith) in
    let rest = bag_from-tick n (i + 1) e f g (λ j lo hi. ticked j (omega arith) (omega arith)) in
    elim (Bool-cases ((f i).handler == 0)) [
      | inl free ↦ rw (here, rest, tick_entry-free e (f i) free, free)
      | inr call ↦
          let (same, ticks) = tick_entry-pending e (f i) call in
          let call' : ((g i).handler == 0) ≡ false =
            ap (λ (x : Entry). x.handler == 0) here ∙ ap (λ (h : ℕ). h == 0) same ∙ call in
          bag_from-cons n i g call'
          ∙ ap₂ (λ (p : Pending) (ps : List Pending). p ∷ ps) (ap pending_of here ∙ ticks) rest
          ∙ ap (map (tick_pending e)) (sym (bag_from-cons n i f call))
    ]

-- A tick shortens the delay of every call that waits and makes those ready whose delay is over; no
-- call is lost, made up or made ready early.
pub work_tick_process-bag :
    (e : ℕ) (w : Works) (k : Kernel)
    → 0 < e
    → bag (work_tick_process e w k).0 ≡ map (tick_pending e) (bag w)
unfolding work_tick_process
work_tick_process-bag e w k some_ticks =
    let on : ltb 0 e ≡ true = ground arith in
    rw (on, process_from-size w.max_works 0 e w)
      (bag_from-tick w.max_works 0 e w.entry (process_from w.max_works 0 e w).1.entry
        (λ j lo hi. process_from-entry w.max_works 0 e w j ∙ ground arith))
