-- ===== src/Task/Create/Fresh.antt =====
-- A new task gets an id that is not 0 and that no live task has, and the rounds that the model
-- gives to the search are enough.
use ahura_kernel.Prelude.{
  ℕ, zero, suc, ◌+◌, ◌%◌, ◌^◌, ◌≤◌, ◌<◌, ◌≡◌, ◌≢◌, ◌⊎◌, refl, sym, ap, subst, false, not, ◌&&◌, inl,
  inr, Bool-cases, Option-cases, Option, none, some, List, [], ◌∷◌, length, count, arith, ◌==◌,
  if◌then◌else◌, if_cases, ne→==, ==→eq,
}
use ahura_kernel.Task.State.{Kernel, Task, is_inactive}
use ahura_kernel.Task.Sched.{find_from, find_by_id}
use ahura_kernel.Task.Create.{skip_ids}

-- How many of the `n` ids from `s` on, around the end of the 32-bit words, are `x`, and how often
-- they occur in the list altogether.
hits : ℕ → ℕ → ℕ → ℕ
hits zero s x = 0
hits (suc n) s x = (if x == s then 1 else 0) + hits n ((s + 1) % 2 ^ 32) x

total : ℕ → ℕ → List ℕ → ℕ
total zero s xs = 0
total (suc n) s xs = count s xs + total n ((s + 1) % 2 ^ 32) xs

total-cons : (n s x : ℕ) (xs : List ℕ) → total n s (x ∷ xs) ≡ hits n s x + total n s xs
unfolding hits total
total-cons zero s x xs = refl
total-cons (suc n) s x xs = omega (arith, total-cons n ((s + 1) % 2 ^ 32) x xs)

total-none : (n s : ℕ) → total n s [] ≡ 0
unfolding total
total-none zero s = refl
total-none (suc n) s = omega (arith, total-none n ((s + 1) % 2 ^ 32))

-- A word is not met again on a way round that is short enough.
hits-zero : (n s x : ℕ) → ((d : ℕ) → d < n → (s + d) % 2 ^ 32 ≢ x) → s < 2 ^ 32 → hits n s x ≡ 0
unfolding hits
hits-zero zero s x far h = refl
hits-zero (suc n) s x far h =
    let here : (x == s) ≡ false = ne→== x s (λ e. far 0 (omega arith) (omega arith)) in
    let rest : hits n ((s + 1) % 2 ^ 32) x ≡ 0 =
      hits-zero n ((s + 1) % 2 ^ 32) x (λ d below e. far (suc d) (omega arith) (omega (arith, e)))
        (omega arith) in
    ground (arith, here, rest)

hits-le : (n s x : ℕ) → s < 2 ^ 32 → n ≤ 2 ^ 32 → hits n s x ≤ 1
unfolding hits
hits-le zero s x h m = omega arith
hits-le (suc n) s x h m = elim (Bool-cases (x == s)) [
  | inl e ↦
      let same_word : x ≡ s = ==→eq x s e in
      let rest : hits n ((s + 1) % 2 ^ 32) x ≡ 0 =
        hits-zero n ((s + 1) % 2 ^ 32) x (λ d below same. absurd (omega (arith, same, same_word)))
          (omega arith) in
      ground (arith, rest)
  | inr e ↦ ground (arith, hits-le n ((s + 1) % 2 ^ 32) x (omega arith) (omega arith))
]

total-le : (n s : ℕ) (xs : List ℕ) → s < 2 ^ 32 → n ≤ 2 ^ 32 → total n s xs ≤ length xs
total-le n s [] h m = omega (arith, total-none n s)
total-le n s (x ∷ xs) h m =
    omega (arith, total-cons n s x xs, hits-le n s x h m, total-le n s xs h m)

-- The ids of the `n` slots from slot `i` on
ids_from : ℕ → ℕ → Kernel → List ℕ
ids_from zero i k = []
ids_from (suc n) i k = (k.tcb i).id ∷ ids_from n (i + 1) k

length-ids_from : (n i : ℕ) (k : Kernel) → length (ids_from n i k) ≡ n
unfolding ids_from
length-ids_from zero i k = refl
length-ids_from (suc n) i k = omega (arith, length-ids_from n (i + 1) k)

found_id :
    (n i id : ℕ) (k : Kernel) (t : Task)
    → find_from n i id k ≡ some t
    → 1 ≤ count id (ids_from n i k)
unfolding find_from ids_from
found_id zero i id k t e = absurd (cc e)
found_id (suc n) i id k t e =
    elim (Bool-cases (not (is_inactive (k.tcb i).state) && (k.tcb i).id == id)) [
      | inl h ↦ ground (arith, h)
      | inr h ↦ ground (arith, found_id n (i + 1) id k t (ground (arith, e, h)))
    ]

-- An id that may be given to a new task.
pub record Fresh (k : Kernel) (id : ℕ) : Type 0 where
  pub not_zero : id ≢ 0
  pub unused : find_by_id id k ≡ none

-- 0 and the ids of the table
abbrev refused : Kernel → List ℕ
refused k = 0 ∷ ids_from k.table_size 0 k

-- A round that refuses its candidate.
skip-refused :
    (n s : ℕ) (k : Kernel)
    → 1 ≤ count s (refused k)
    → skip_ids (suc n) s k ≡ skip_ids n ((s + 1) % 2 ^ 32) k
    → Fresh k (skip_ids n ((s + 1) % 2 ^ 32) k) ⊎ (n ≤ total n ((s + 1) % 2 ^ 32) (refused k))
    → Fresh k (skip_ids (suc n) s k) ⊎ (suc n ≤ total (suc n) s (refused k))
unfolding total
skip-refused n s k c e (inl f) = inl (subst (Fresh k) (sym e) f)
skip-refused n s k c e (inr m) = inr (omega (arith, c, m))

skip_ids-or :
    (n s : ℕ) (k : Kernel) → s < 2 ^ 32 → Fresh k (skip_ids n s k) ⊎ (n ≤ total n s (refused k))
unfolding skip_ids find_by_id
skip_ids-or zero s k h = inr (omega arith)
skip_ids-or (suc n) s k h =
    let next = (s + 1) % 2 ^ 32 in
    let later = skip_ids-or n next k (omega arith) in
    elim (Bool-cases (s == 0)) [
      | inl z ↦
          skip-refused n s k (ground arith)
            (if_cases (λ (r : ℕ). r ≡ skip_ids n next k) (s == 0) (λ _. refl)
              (λ no. absurd (cc (z, no))))
            later
      | inr nz ↦ elim (Option-cases (find_from k.table_size 0 s k)) [
        | inl free ↦
            let itself : skip_ids (suc n) s k ≡ s =
              if_cases (λ (r : ℕ). r ≡ s) (s == 0) (λ yes. absurd (cc (nz, yes)))
                (λ _. ap (outcome s (skip_ids n next k)) free) in
            inl (
              subst (Fresh k) (sym itself)
                (record { not_zero = ground (arith, nz); unused = free }))
        | inr (t, e) ↦
            skip-refused n s k (ground (arith, found_id k.table_size 0 s k t e))
              (if_cases (λ (r : ℕ). r ≡ skip_ids n next k) (s == 0) (λ _. refl)
                (λ _. ap (outcome s (skip_ids n next k)) e))
              later
      ]
    ]
  where
    outcome : ℕ → ℕ → Option Task → ℕ
    outcome s' r o = elim o [ none ↦ s' | some t ↦ r ]

-- The id that os_task_create gives to a new task is not 0 and is no live task's, whatever the next
-- id counter, a 32-bit word, says: among as many candidates as there are tasks, and two more, one is
-- free.
pub skip_ids-Fresh :
    (k : Kernel)
    → k.next_id < 2 ^ 32
    → k.table_size + 2 ≤ 2 ^ 32
    → Fresh k (skip_ids (k.table_size + 2) k.next_id k)
skip_ids-Fresh k h size = elim (skip_ids-or (k.table_size + 2) k.next_id k h) [
  | inl f ↦ f
  | inr m ↦ absurd (
      omega (
        arith,
        m,
        total-le (k.table_size + 2) k.next_id (refused k) h size,
        length-ids_from k.table_size 0 k,
      ))
]
