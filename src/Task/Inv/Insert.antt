-- ===== src/Task/Inv/Insert.antt =====
-- Waiter lists sorted by priority: insertion, removal, and change of a priority that is not in the
-- list.
use ahura_kernel.Prelude.{
  ℕ, ◌+◌, ◌≤◌, ◌≡◌, ◌≢◌, inl, inr, List, [], ◌∷◌, arith, ltb, ◌==◌, if◌then◌else◌, Bool-cases,
  count, remove,
}
use ahura_kernel.Task.State.{Task}
use ahura_kernel.Task.Sched.{insert_by}
use ahura_kernel.Task.Inv.{Below, Sorted}

module _ (f : Task → ℕ) where
  pub count-insert_by :
      (t : Task) (xs : List Task) (u : Task)
      → count u (insert_by f t xs) ≡ (if t == u then 1 else 0) + count u xs
  unfolding insert_by
  count-insert_by t [] u = ground arith
  count-insert_by t (x ∷ xs) u = ground (arith, count-insert_by t xs u)

  Below-weaken : (a b : ℕ) (xs : List Task) → a ≤ b → Below f a xs → Below f b xs
  Below-weaken a b [] h below = tt
  Below-weaken a b (x ∷ xs) h below = (omega arith, Below-weaken a b xs h below.1)

  insert_by-Below :
      (b : ℕ) (t : Task) (xs : List Task) → f t ≤ b → Below f b xs → Below f b (insert_by f t xs)
  unfolding insert_by
  insert_by-Below b t [] h below = (h, tt)
  insert_by-Below b t (x ∷ xs) h below = elim (Bool-cases (ltb (f x) (f t))) [
    | inl e ↦ rw e (h, below)
    | inr e ↦ rw e (below.0, insert_by-Below b t xs h below.1)
  ]

  pub insert_by-Sorted : (t : Task) (xs : List Task) → Sorted f xs → Sorted f (insert_by f t xs)
  unfolding insert_by
  insert_by-Sorted t [] s = (tt, tt)
  insert_by-Sorted t (x ∷ xs) s = elim (Bool-cases (ltb (f x) (f t))) [
    | inl e ↦ rw e ((ground arith, Below-weaken (f x) (f t) xs (ground arith) s.0), s)
    | inr e ↦ rw e (insert_by-Below (f x) t xs (ground arith) s.0, insert_by-Sorted t xs s.1)
  ]

  remove-Below : (b : ℕ) (t : Task) (xs : List Task) → Below f b xs → Below f b (remove t xs)
  remove-Below b t [] below = tt
  remove-Below b t (x ∷ xs) below = elim (Bool-cases (x == t)) [
    | inl e ↦ rw e below.1
    | inr e ↦ rw e (below.0, remove-Below b t xs below.1)
  ]

  pub remove-Sorted : (t : Task) (xs : List Task) → Sorted f xs → Sorted f (remove t xs)
  remove-Sorted t [] s = tt
  remove-Sorted t (x ∷ xs) s = elim (Bool-cases (x == t)) [
    | inl e ↦ rw e s.1
    | inr e ↦ rw e (remove-Below (f x) t xs s.0, remove-Sorted t xs s.1)
  ]

  Below-change :
      (g : Task → ℕ) (b : ℕ) (xs : List Task)
      → ((u : Task) → count u xs ≢ 0 → f u ≡ g u)
      → Below f b xs
      → Below g b xs
  Below-change g b [] same below = tt
  Below-change g b (x ∷ xs) same below =
      (ground (arith, same x), Below-change g b xs (λ u h. same u (ground arith)) below.1)

  -- Priorities of tasks outside the list do not matter.
  pub Sorted-change :
      (g : Task → ℕ) (xs : List Task)
      → ((u : Task) → count u xs ≢ 0 → f u ≡ g u)
      → Sorted f xs
      → Sorted g xs
  Sorted-change g [] same s = tt
  Sorted-change g (x ∷ xs) same s =
      let here : f x ≡ g x = ground (arith, same x) in
      (
        rw (← here) (Below-change g (f x) xs (λ u h. same u (ground arith)) s.0),
        Sorted-change g xs (λ u h. same u (ground arith)) s.1,
      )
