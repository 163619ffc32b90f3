-- ===== src/Task/Inherit/Boost.antt =====
-- Priority inheritance: the owner of a mutex runs at least at the priority of the tasks that wait
-- for it, and no higher than its own priority and theirs ask for.
use ahura_kernel.Prelude.{
  ℕ, ◌≤◌, ◌≡◌, ◌≢◌, ◌⊎◌, refl, sym, ap, subst, ◌∙◌, true, some, List, [], ◌∷◌, arith, ltb, ◌==◌,
  if_cases, Bool-cases, inl, inr, is, count, remove, ==→eq,
}
use ahura_kernel.Task.State.{Kernel, Tcb, Task, WaiterList, set_tcb}
use ahura_kernel.Task.Sched.{effective_priority_set, find_by_id}
use ahura_kernel.Task.Inherit.{
  priority_inherit, raise_to_head, highest_waiter, owner_unlink_and_reprioritize,
}
use ahura_kernel.Task.Inherit.Effective.{effective_priority_set-Changes}
use ahura_kernel.Task.Wake.First.{head_highest}
use ahura_kernel.Task.Inv.{IsValid}
use ahura_kernel.Task.Inv.Lists.{set_tcb-Inv}

-- A call that raises priorities: the owner `o` gets at least that of `c`, and nobody loses.
pub record Raises (o c : Task) (k k' : Kernel) : Type 0 where
  pub owner : (k.tcb c).priority ≤ (k'.tcb o).priority
  pub nobody_falls : (u : Task) → (k.tcb u).priority ≤ (k'.tcb u).priority
  pub others : (u : Task) → u ≢ o → (k'.tcb u).priority ≡ (k.tcb u).priority

-- os_task_mutex_priority_inherit: if the owner is found, its priority afterwards is at least that
-- of the calling task, and no other priority changes.
pub priority_inherit-Raises :
    (owner_id : ℕ) (c o : Task) (k : Kernel)
    → k.current ≡ some c
    → find_by_id owner_id k ≡ some o
    → Raises o c k (priority_inherit owner_id k)
unfolding priority_inherit
priority_inherit-Raises owner_id c o k e f =
    let p = (k.tcb c).priority in
    simp (priority_inherit, e, f)
      (if_cases (Raises o c k) (ltb (k.tcb o).priority p)
        (λ h. record {
          owner = ground (arith, effective_priority_set-Changes o p k o);
          nobody_falls = λ u. ground (arith, effective_priority_set-Changes o p k u);
          others = λ u ne. ground (arith, effective_priority_set-Changes o p k u);
        })
        (λ h. record {
          owner = ground arith;
          nobody_falls = λ u. omega arith;
          others = λ u ne. refl;
        }))

-- A waiter list that is not empty raises the priority to its head's.
raise_to_head-le : (k : Kernel) (ts : List Task) (p : ℕ) → p ≤ raise_to_head k ts p
unfolding raise_to_head
raise_to_head-le k [] p = omega arith
raise_to_head-le k (t ∷ ts) p = ground arith

highest_waiter-le : (k : Kernel) (ms : List WaiterList) (p : ℕ) → p ≤ highest_waiter k ms p
unfolding highest_waiter
highest_waiter-le k [] p = omega arith
highest_waiter-le k (m ∷ ms) p = omega (
  arith,
  raise_to_head-le k (k.waiters m) p,
  highest_waiter-le k ms (raise_to_head k (k.waiters m) p),
)

head-le :
    (k : Kernel) (ts : List Task) (p : ℕ) (t : Task) (rest : List Task)
    → ts ≡ t ∷ rest
    → (k.tcb t).priority ≤ raise_to_head k ts p
unfolding raise_to_head
head-le k ts p t rest e = rw e (ground arith)

waiter-le :
    (k : Kernel) (ms : List WaiterList) (p : ℕ) (m : WaiterList) (t : Task) (rest : List Task)
    → count m ms ≢ 0
    → k.waiters m ≡ t ∷ rest
    → (k.tcb t).priority ≤ highest_waiter k ms p
unfolding highest_waiter
waiter-le k [] p m t rest h e = absurd (h refl)
waiter-le k (x ∷ ms) p m t rest h e =
    let p' = raise_to_head k (k.waiters x) p in
    elim (Bool-cases (x == m)) [
      | inl same ↦ ground (
        arith,
        head-le k (k.waiters x) p t rest (ap k.waiters (==→eq x m same) ∙ e),
        highest_waiter-le k ms p',
      )
      | inr other ↦ waiter-le k ms p' m t rest (ground (arith, h)) e
    ]

-- Where the new priority comes from: the base priority, or the head of a held mutex's waiters.
abbrev pub Source : Kernel → List WaiterList → ℕ → ℕ → Type 0
Source k ms base p =
    (p ≡ base)
    ⊎ ((m : WaiterList) × (t : Task) × (rest : List Task) × (count m ms ≢ 0)
        × (k.waiters m ≡ t ∷ rest)
        × ((k.tcb t).priority ≡ p))

highest_waiter-Source :
    (k : Kernel) (ms : List WaiterList) (p : ℕ) → Source k ms p (highest_waiter k ms p)
unfolding highest_waiter raise_to_head
highest_waiter-Source k [] p = inl refl
highest_waiter-Source k (x ∷ ms) p =
    from_rest (k.waiters x) refl (highest_waiter-Source k ms (raise_to_head k (k.waiters x) p))
  where
    from_rest :
        (ts : List Task)
        → k.waiters x ≡ ts
        → Source k ms (raise_to_head k ts p) (highest_waiter k ms (raise_to_head k ts p))
        → Source k (x ∷ ms) p (highest_waiter k ms (raise_to_head k ts p))
    from_rest ts e (inr (m, t, rest, h, w, same)) = inr (m, t, rest, ground (arith, h), w, same)
    from_rest [] e (inl same) = inl same
    from_rest (t ∷ rest) e (inl same) = elim (Bool-cases (ltb p (k.tcb t).priority)) [
      | inl h ↦ inr (x, t, rest, ground arith, e, ground (arith, same))
      | inr h ↦ inl (ground (arith, same))
    ]

-- What os_task_mutex_owner_unlink_and_reprioritize leaves of the boosts: the owner `o` of the
-- mutexes `held` has the least priority that its base priority and their waiters allow.
pub record Restored (o : Task) (held : List WaiterList) (k k' : Kernel) : Type 0 where
  pub at_least_base : (k.tcb o).base_priority ≤ (k'.tcb o).priority
  pub at_least_waiters :
      (m : WaiterList) (u : Task)
      → count m held ≢ 0
      → is (k.tcb u).wait_list m ≡ true
      → (k.tcb u).priority ≤ (k'.tcb o).priority
  pub no_more : Source k held (k.tcb o).base_priority (k'.tcb o).priority
  pub others : (u : Task) → u ≢ o → (k'.tcb u).priority ≡ (k.tcb u).priority

any_waiter-le :
    (k : Kernel)
    → IsValid k
    → (ms : List WaiterList) (p : ℕ) (m : WaiterList) (u : Task) → count m ms ≢ 0
    → is (k.tcb u).wait_list m ≡ true
    → (k.tcb u).priority ≤ highest_waiter k ms p
any_waiter-le k inv ms p m u h waits = by_list (k.waiters m) refl
  where
    by_list : (ts : List Task) → k.waiters m ≡ ts → (k.tcb u).priority ≤ highest_waiter k ms p
    by_list [] e = absurd (ground (arith, inv.wait_count m u, ap (count u) e))
    by_list (t ∷ rest) e =
        omega (arith, waiter-le k ms p m t rest h e, head_highest inv m t rest e u waits)

-- A write that keeps the priority keeps the sources.
Source-set_tcb :
    (k : Kernel) (o : Task) (c : Tcb) (ms : List WaiterList) (base p : ℕ)
    → c.priority ≡ (k.tcb o).priority
    → Source (set_tcb k o c) ms base p
    → Source k ms base p
Source-set_tcb k o c ms base p e (inl b) = inl b
Source-set_tcb k o c ms base p e (inr (m, t, rest, h, w, same)) =
    inr (m, t, rest, h, w, ground (arith, same, e))

-- An unlock drops the boost: afterwards the owner's priority is its base priority or that of a
-- waiter of a mutex it still holds, and is at least as high as each of these.
pub owner_unlink-Restored :
    (owner_id : ℕ) (m : WaiterList) (o : Task) (k : Kernel)
    → IsValid k
    → find_by_id owner_id k ≡ some o
    → Restored o (remove m (k.tcb o).owned_mutexes) k (owner_unlink_and_reprioritize owner_id m k)
unfolding owner_unlink_and_reprioritize
owner_unlink-Restored owner_id m o k inv f =
    let held = remove m (k.tcb o).owned_mutexes in
    let c : Tcb = record (k.tcb o) { owned_mutexes = held } in
    let k₁ : Kernel = set_tcb k o c in
    let v : IsValid k₁ = set_tcb-Inv inv o c (ground arith) in
    let base = (k.tcb o).base_priority in
    let p = highest_waiter k₁ held base in
    let q = highest_waiter k₁ (k₁.tcb o).owned_mutexes base in
    let same : q ≡ p = ap (λ (ms : List WaiterList). highest_waiter k₁ ms base) (ground arith) in
    let new : ((effective_priority_set o q k₁).tcb o).priority ≡ p =
      ground (arith, effective_priority_set-Changes o q k₁ o, same) in
    simp (owner_unlink_and_reprioritize, f)
      (record {
        at_least_base = omega (arith, new, highest_waiter-le k₁ held base);
        at_least_waiters = λ x u h waits.
            ground (arith, new, any_waiter-le k₁ v held base x u h (ground (arith, waits)));
        no_more =
            subst (Source k held base) (sym new)
              (Source-set_tcb k o c held base p refl (highest_waiter-Source k₁ held base));
        others = λ u ne. ground (arith, effective_priority_set-Changes o q k₁ u);
      })
