-- ===== src/Task/Switch/Pick.antt =====
-- The choice of the next task by os_task_stack_select_next: the first task of the highest level
-- whose bit is set.
use native.Mathlib.Nat.{pow-suc}
use ahura_kernel.Prelude.{
  ℕ, zero, suc, ◌/◌, ◌^◌, ◌≤◌, ◌<◌, ◌≡◌, ◌≢◌, ◌⊎◌, ◌&&◌, refl, ap, ◌∙◌, true, false, not, List, [],
  ◌∷◌, arith, ltb, ◌==◌, if_cases, Bool-cases, inl, inr, count, is_empty, remove, update, bit_and,
}
use ahura_kernel.Prelude.Bits.{bit, bit-zero, complement}
use ahura_kernel.Task.State.{Kernel, Task, idle, is_ready}
use ahura_kernel.Task.Sched.{clear_if_empty, leave_ready}
use ahura_kernel.Task.Switch.{highest_bit_get, pick}
use ahura_kernel.Task.Inv.{IsValid}

-- os_arch_highest_bit_get of a word that is not 0: the bit is set, and no higher bit is.
pub record Highest (w x n : ℕ) : Type 0 where
  pub in_word : n < w
  pub set : bit x n ≡ true
  pub top : (i : ℕ) → bit x i ≡ true → i ≤ n

Highest-bit-one : (w x : ℕ) → x < 2 ^ suc w → x ≢ 0 → ltb x 2 ≡ true → Highest (suc w) x 0
unfolding bit
Highest-bit-one w x h ne small = record {
  in_word = omega arith;
  set = ground arith;
  top = only_bit;
}
  where
    only_bit : (i : ℕ) → bit x i ≡ true → i ≤ 0
    only_bit zero b = omega arith
    only_bit (suc i) b =
        let none_left : x / 2 ≡ 0 = ground arith in
        ground (arith, ap (λ (y : ℕ). bit y i) none_left, bit-zero i)

Highest-bit-more : (w x n : ℕ) → Highest w (x / 2) n → Highest (suc w) x (suc n)
unfolding bit
Highest-bit-more w x n half = record {
  in_word = omega (arith, half.in_word);
  set = half.set;
  top = above;
}
  where
    above : (i : ℕ) → bit x i ≡ true → i ≤ suc n
    above zero b = omega arith
    above (suc i) b = omega (arith, half.top i b)

pub highest_bit_get-Highest : (w x : ℕ) → x < 2 ^ w → x ≢ 0 → Highest w x (highest_bit_get w x)
unfolding highest_bit_get
highest_bit_get-Highest zero x h ne = absurd (omega arith)
highest_bit_get-Highest (suc w) x h ne =
    if_cases (Highest (suc w) x) (ltb x 2) (Highest-bit-one w x h ne) (λ big.
      Highest-bit-more w x (highest_bit_get w (x / 2))
        (highest_bit_get-Highest w (x / 2) (omega (arith, pow-suc 2 w)) (ground arith)))

-- The head of the highest ready list that is not empty.
pub record First (k : Kernel) (t : Task) : Type 0 where
  pub level : ℕ
  pub rest : List Task
  pub head : k.ready_list level ≡ t ∷ rest
  pub highest : (p : ℕ) → level < p → p < 32 → is_empty (k.ready_list p) ≡ true
  pub in_range : level < 32
  pub priority : (k.tcb t).priority ≡ level
  pub state : is_ready (k.tcb t).state ≡ true
  pub real : t ≢ idle k

List-cases :
    (xs : List Task) → (is_empty xs ≡ true) ⊎ ((t : Task) × (rest : List Task) × (xs ≡ t ∷ rest))
List-cases [] = inl refl
List-cases (x ∷ xs) = inr (x, xs, refl)

count-head : (t : Task) (xs : List Task) → 0 < count t (t ∷ xs)
count-head t xs = ground arith

count-is_empty : (t : Task) (xs : List Task) → is_empty xs ≡ true → count t xs ≡ 0
count-is_empty t [] h = refl
count-is_empty t (x ∷ xs) h = absurd (cc h)

module _ {k : Kernel} (inv : IsValid k) where
  listed_ready :
      (p : ℕ) (t : Task) (rest : List Task)
      → k.ready_list p ≡ t ∷ rest
      → (is_ready (k.tcb t).state && (k.tcb t).priority == p && not (t == idle k)) ≡ true
  listed_ready p t rest e = ground (arith, inv.ready_count p t, ap (count t) e, count-head t rest)

  level_of :
      (p : ℕ) (t : Task) (rest : List Task) → k.ready_list p ≡ t ∷ rest → p ≡ (k.tcb t).priority
  level_of p t rest e = ground (arith, listed_ready p t rest e)

  found-First :
      (p : ℕ) (t : Task) (rest : List Task)
      → Highest 32 k.ready_bitmap p
      → k.ready_list p ≡ t ∷ rest
      → First k t
  found-First p t rest high e = record {
    level = p;
    rest = rest;
    head = e;
    highest = λ q above h. ground (arith, inv.bitmap q h, high.top q);
    in_range = high.in_word;
    priority = ground (arith, listed_ready p t rest e);
    state = ground (arith, listed_ready p t rest e);
    real = ground (arith, listed_ready p t rest e);
  }

  taken : ℕ → Task → Kernel
  taken p t =
      clear_if_empty p (record k { ready_list = update k.ready_list p (remove t (k.ready_list p)) })

  pub pick-First :
      (n : ℕ)
      → k.ready_bitmap ≢ 0
      → (t : Task) × First k t × (pick (suc n) k.ready_bitmap k ≡ (t, leave_ready t k))
  unfolding pick leave_ready taken
  pick-First n ne =
      let p = highest_bit_get 32 k.ready_bitmap in
      let high = highest_bit_get-Highest 32 k.ready_bitmap inv.bitmap_small ne in
      elim (List-cases (k.ready_list p)) [
        | inl empty ↦ absurd (ground (arith, inv.bitmap p high.in_word, high.set))
        | inr (t, rest, e) ↦ (
          t,
          found-First p t rest high e,
          if_cases (λ (r : Task × Kernel). r ≡ (t, leave_ready t k)) (k.ready_bitmap == 0)
              (λ h. absurd (ground arith))
              (λ h.
                ap
                  (λ (xs : List Task). elim xs [
                    | [] ↦ pick n (bit_and k.ready_bitmap (complement 32 (2 ^ p))) k
                    | u ∷ _ ↦ (u, taken p u)
                  ])
                  e
                ∙ ap (λ (q : ℕ). (t, taken q t)) (level_of p t rest e)),
        )
      ]

  pub pick-none : (n : ℕ) → k.ready_bitmap ≡ 0 → pick n k.ready_bitmap k ≡ (idle k, k)
  unfolding pick
  pick-none zero h = refl
  pick-none (suc n) h =
      if_cases (λ (r : Task × Kernel). r ≡ (idle k, k)) (k.ready_bitmap == 0) (λ _. refl)
        (λ ne. absurd (ground arith))

  -- No ready list holds a task if the bitmap is 0.
  pub none_ready : k.ready_bitmap ≡ 0 → (t : Task) → is_ready (k.tcb t).state ≡ true → t ≡ idle k
  none_ready h t r =
      let p = (k.tcb t).priority in
      let clear : bit k.ready_bitmap p ≡ false = ap (λ (x : ℕ). bit x p) h ∙ bit-zero p in
      elim (List-cases (k.ready_list p)) [
        | inl empty ↦ ground (arith, inv.ready_count p t, count-is_empty t (k.ready_list p) empty)
        | inr (u, rest, e) ↦
            absurd (ground (arith, clear, inv.bitmap p (inv.priority_small t), ap is_empty e))
      ]

  -- Every READY task stands at or below the level of the first one.
  pub First-above :
      (t : Task)
      → (first : First k t) → (u : Task) → is_ready (k.tcb u).state ≡ true
      → u ≢ idle k
      → (k.tcb u).priority ≤ (k.tcb t).priority
  First-above t first u r real = elim (Bool-cases (ltb first.level (k.tcb u).priority)) [
    | inl h ↦ absurd (
        ground (
          arith,
          inv.ready_count (k.tcb u).priority u,
          count-is_empty u (k.ready_list (k.tcb u).priority)
              (first.highest (k.tcb u).priority (ground arith) (inv.priority_small u)),
        ))
    | inr h ↦ ground (arith, first.priority)
  ]
