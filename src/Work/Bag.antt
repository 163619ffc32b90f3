-- ===== src/Work/Bag.antt =====
-- The registry as the bag of calls that wait in it: which slot holds a call does not matter.
use ahura_kernel.Prelude.{
  ℕ, zero, suc, ◌+◌, ◌≤◌, ◌<◌, ◌≡◌, ◌≢◌, ◌⊎◌, refl, sym, ap, subst, ◌∙◌, Bool, true, false, not,
  ◌&&◌, ◌||◌, leb, ◌==◌, if◌then◌else◌, Bool-cases, Option-cases, ==→eq, eq→==, ne→==, inl, inr,
  none, some, List, [], ◌∷◌, length, update, arith,
}
use mathlib.Core.List.{Perm}
use mathlib.Core.List.Perm
use ahura_kernel.Task.State.{Kernel, Status, ok, invalid_arg, full, wait_forever}
use ahura_kernel.Work.{Entry, Works, ticks_from_ms, free_from, slot_free, set_entry, filled, submit}
use ahura_kernel.Queue.Bytes.{copy_out, copy_out-copy_in}

-- A call that was submitted and not made yet.
pub record Pending : Type 0 where
  pub handler : ℕ
  pub bytes : List ℕ
  pub delay_ticks : ℕ
  pub ready : Bool

abbrev pub pending_of : Entry → Pending
pending_of e = record {
  handler = e.handler;
  bytes = copy_out 0 e.len e.payload;
  delay_ticks = e.delay_ticks;
  ready = e.ready;
}

-- The calls in the `n` slots from slot `i` on.
unfoldable pub bag_from : ℕ → ℕ → (ℕ → Entry) → List Pending
bag_from zero i entry = []
bag_from (suc n) i entry =
    let rest = bag_from n (i + 1) entry in
    if (entry i).handler == 0 then rest else pending_of (entry i) ∷ rest

abbrev pub bag : Works → List Pending
bag w = bag_from w.max_works 0 w.entry

pub bag_from-alike :
    (n i : ℕ) (f g : ℕ → Entry)
    → ((j : ℕ) → i ≤ j → j < i + n → f j ≡ g j)
    → bag_from n i f ≡ bag_from n i g
unfolding bag_from
bag_from-alike zero i f g same = refl
bag_from-alike (suc n) i f g same =
    let here : f i ≡ g i = same i (omega arith) (omega arith) in
    let rest = bag_from-alike n (i + 1) f g (λ j lo hi. same j (omega arith) (omega arith)) in
    rw (here, rest)

-- A free slot that is filled adds one call; read the other way, a slot that is freed gives one up.
pub bag_from-fill :
    (n i j : ℕ) (f : ℕ → Entry) (e : Entry)
    → i ≤ j
    → j < i + n
    → (f j).handler ≡ 0
    → e.handler ≢ 0
    → Perm (bag_from n i (update f j e)) (pending_of e ∷ bag_from n i f)
unfolding bag_from
bag_from-fill zero i j f e lo hi free taken = absurd (omega arith)
bag_from-fill (suc n) i j f e lo hi free taken = elim (Bool-cases (j == i)) [
  | inl here ↦
      let same : j ≡ i = ==→eq j i here in
      let t1 : (e.handler == 0) ≡ false = ne→== _ _ taken in
      let t2 : ((f i).handler == 0) ≡ true =
        eq→== _ _ (ap (λ (k : ℕ). (f k).handler) (sym same) ∙ free) in
      let rest : bag_from n (i + 1) (update f j e) ≡ bag_from n (i + 1) f =
        bag_from-alike n (i + 1) (update f j e) f (λ k lo' hi'. ground arith) in
      rw (here, t1, t2, rest) (Perm.refl (pending_of e ∷ bag_from n (i + 1) f))
  | inr later ↦
      let rest : Perm (bag_from n (i + 1) (update f j e)) (pending_of e ∷ bag_from n (i + 1) f) =
        bag_from-fill n (i + 1) j f e (ground arith) (omega arith) free taken in
      elim (Bool-cases ((f i).handler == 0)) [
        | inl nothing ↦ rw (later, nothing) rest
        | inr call ↦
            rw (later, call)
              (Perm.trans (Perm.cons (pending_of (f i)) rest)
                (Perm.swap (pending_of e) (pending_of (f i)) (bag_from n (i + 1) f)))
      ]
]

-- The search for a free slot finds one unless every slot holds a call.
free_from-none : (n i : ℕ) (w : Works) → free_from n i w ≡ none → length (bag_from n i w.entry) ≡ n
unfolding free_from bag_from
free_from-none zero i w h = refl
free_from-none (suc n) i w h = elim (Bool-cases ((w.entry i).handler == 0)) [
  | inl free ↦ absurd (ground (arith, h, free))
  | inr taken ↦ rw taken (omega (arith, free_from-none n (i + 1) w (ground (arith, h, taken))))
]

length-bag_from : (n i : ℕ) (f : ℕ → Entry) → length (bag_from n i f) ≤ n
unfolding bag_from
length-bag_from zero i f = omega arith
length-bag_from (suc n) i f = ground (arith, length-bag_from n (i + 1) f)

record FreeSlot (n i j : ℕ) (w : Works) : Type 0 where
  from : i ≤ j
  below : j < i + n
  free : (w.entry j).handler ≡ 0
  room : length (bag_from n i w.entry) < n

free_from-FreeSlot : (n i j : ℕ) (w : Works) → free_from n i w ≡ some j → FreeSlot n i j w
unfolding free_from bag_from
free_from-FreeSlot zero i j w h = cc
free_from-FreeSlot (suc n) i j w h = elim (Bool-cases ((w.entry i).handler == 0)) [
  | inl free ↦
      let at : i ≡ j = ground (arith, h, free) in
      record {
        from = omega arith;
        below = omega arith;
        free = ground (arith, free, at);
        room = rw free (omega (arith, length-bag_from n (i + 1) w.entry));
      }
  | inr taken ↦
      let r = free_from-FreeSlot n (i + 1) j w (ground (arith, h, taken)) in
      record {
        from = omega (arith, r.from);
        below = omega (arith, r.below);
        free = r.free;
        room = rw taken (omega (arith, r.room));
      }
]

-- The arguments that os_work_submit accepts.
abbrev pub accepts : (handler : ℕ) → List ℕ → Bool → (delay_ms : ℕ) → Works → Bool
accepts handler bytes is_null delay_ms w =
    not (handler == 0)
    && (not (delay_ms == wait_forever)
        && (leb (length bytes) w.payload_size && (length bytes == 0 || not is_null)))

accepts-handler :
    (handler : ℕ) (bytes : List ℕ) (is_null : Bool) (delay_ms : ℕ) (w : Works)
    → accepts handler bytes is_null delay_ms w ≡ true
    → handler ≢ 0
accepts-handler handler bytes is_null delay_ms w fine z =
    let null : (handler == 0) ≡ true = eq→== _ _ z in
    let no : false ≡ true = rw null at fine in cc no

-- What it adds to the bag.
abbrev pub submitted : (handler : ℕ) → List ℕ → (delay_ms : ℕ) → Works → Pending
submitted handler bytes delay_ms w =
    let delay_ticks = ticks_from_ms w.tick_hz delay_ms in
    record { handler = handler; bytes = bytes; delay_ticks = delay_ticks; ready = delay_ticks == 0 }

abbrev pub Submitted :
    (handler : ℕ) → List ℕ → (delay_ms : ℕ) → Works → Kernel → Status × Works × Kernel → Type 0
Submitted handler bytes delay_ms w k r =
    ((length (bag w) ≡ w.max_works) × (r ≡ (full, w, k)))
    ⊎ ((length (bag w) < w.max_works)
        × (r.0 ≡ ok)
        × Perm (bag r.1) (submitted handler bytes delay_ms w ∷ bag w))

-- os_work_submit refuses invalid arguments and a full registry and changes nothing then; otherwise
-- it adds exactly the call, with its payload and its delay in ticks.
pub submit-Submitted :
    (handler : ℕ) (bytes : List ℕ) (is_null : Bool) (delay_ms : ℕ) (w : Works) (k : Kernel)
    → ((accepts handler bytes is_null delay_ms w ≡ false)
        × (submit handler bytes is_null delay_ms w k ≡ (invalid_arg, w, k)))
      ⊎ ((accepts handler bytes is_null delay_ms w ≡ true)
          × Submitted handler bytes delay_ms w k (submit handler bytes is_null delay_ms w k))
unfolding submit slot_free filled
submit-Submitted handler bytes is_null delay_ms w k =
    elim (Bool-cases (accepts handler bytes is_null delay_ms w)) [
      | inr refused ↦ inl (refused, rw refused)
      | inl fine ↦ elim (Option-cases (slot_free w)) [
        | inl none_free ↦
            inr (fine, inl (free_from-none w.max_works 0 w none_free, rw (fine, none_free)))
        | inr (j, found) ↦
            let slot = free_from-FreeSlot w.max_works 0 j w found in
            let e = filled handler bytes (ticks_from_ms w.tick_hz delay_ms) (w.entry j) in
            let shape : pending_of e ≡ submitted handler bytes delay_ms w =
              ap (λ (xs : List ℕ). record (submitted handler bytes delay_ms w) { bytes = xs })
                (copy_out-copy_in 0 bytes (w.entry j).payload) in
            let added =
              bag_from-fill w.max_works 0 j w.entry e slot.from slot.below slot.free
                (λ z. accepts-handler handler bytes is_null delay_ms w fine z) in
            inr (
              fine,
              inr (
                slot.room,
                rw (fine, found),
                rw (fine, found)
                    (subst (λ p. Perm (bag (set_entry j e w)) (p ∷ bag w)) shape added),
              ),
            )
      ]
    ]
