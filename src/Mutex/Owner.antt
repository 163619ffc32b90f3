-- ===== src/Mutex/Owner.antt =====
-- Mutual exclusion: over every run of locks and unlocks, by whatever tasks and however the calls
-- end, at most one task holds a mutex.
use ahura_kernel.Prelude.{
  Bool, List, [], ◌∷◌, sym, ap, ◌∙◌, ℕ, ◌≡◌, ◌⊎◌, refl, true, false, not, ◌&&◌, ◌||◌, arith, ◌==◌,
  if◌then◌else◌, if_cases, Bool-cases, inl, inr,
}
use ahura_kernel.Task.State.{Kernel, Status, error, invalid_arg, busy, timeout, not_owner}
use ahura_kernel.Task.Wait.{current_id_get}
use ahura_kernel.Sync.{Turn, returns, blocks, Budget, is_ok, done_ok, must_not_wait}
use ahura_kernel.Mutex.{Mutex, lock_round, unlock, hand_over}

-- What the mutex says: the task that holds it, if one does.
abbrev pub holders : Mutex → List ℕ
holders m = if m.locked then m.owner_id ∷ [] else []

abbrev rest : List ℕ → List ℕ
rest [] = []
rest (id ∷ ids) = ids

-- `Trace m ids`: rounds of os_mutex_lock and calls of os_mutex_unlock lead to `m`. Each lock that
-- succeeds adds its caller to `ids`, and each unlock that succeeds takes one task off.
pub data Trace : Mutex → List ℕ → Type 0 where
  free : (m : Mutex) → m.locked ≡ false → Trace m []
  locks :
      (m : Mutex) (ids : List ℕ) (self_id : ℕ) (b : Budget) (k : Kernel)
      → Trace m ids
      → Trace
          (lock_round self_id b m k).1
          (if done_ok (lock_round self_id b m k).0 then self_id ∷ ids else ids)
  unlocks :
      (m : Mutex) (ids : List ℕ) (k : Kernel)
      → Trace m ids
      → Trace (unlock m k).1 (if is_ok (unlock m k).0 then rest ids else ids)

-- A lock succeeds exactly if no task holds the mutex, and then its caller holds it.
pub record Locked (self_id : ℕ) (m : Mutex) (r : Turn × Mutex × Kernel) : Type 0 where
  pub succeeds : done_ok r.0 ≡ not m.locked
  pub holds : holders r.1 ≡ (if m.locked then holders m else self_id ∷ [])
  pub same_list : r.1.waiters ≡ m.waiters

-- A round of os_mutex_lock succeeds exactly if the mutex is free; then its caller holds the mutex,
-- and otherwise the holder stays.
pub lock_round-Locked :
    (self_id : ℕ) (b : Budget) (m : Mutex) (k : Kernel)
    → Locked self_id m (lock_round self_id b m k)
unfolding lock_round
lock_round-Locked self_id b m k =
    if_cases (Locked self_id m) (not m.locked)
      (λ h. record { succeeds = ground arith; holds = ground arith; same_list = refl })
      (λ h.
        if_cases (Locked self_id m)
          ((not (self_id == 0) && m.owner_id == self_id) || must_not_wait b k)
          (λ _. refused (returns busy) refl _ h)
          (λ _.
            if_cases (Locked self_id m) (b.remaining_ticks == 0)
              (λ _. refused (returns timeout) refl _ h) (λ _. refused blocks refl _ h)))
  where
    refused :
        (t : Turn)
        → done_ok t ≡ false
        → (k' : Kernel) → not m.locked ≡ false
        → Locked self_id m (t, m, k')
    refused t e k' h = record {
      succeeds = ground (arith, e);
      holds = ground arith;
      same_list = refl;
    }

-- An unlock succeeds only on a locked mutex, and not for a task that is known not to hold it.
pub record Unlocked (m : Mutex) (k : Kernel) (r : Status × Mutex × Kernel) : Type 0 where
  pub succeeds :
      is_ok r.0 ≡ true
      → (m.locked ≡ true)
        × ((m.owner_id ≡ 0) ⊎ (current_id_get k ≡ 0) ⊎ (m.owner_id ≡ current_id_get k))
  pub holds : holders r.1 ≡ (if is_ok r.0 then [] else holders m)
  pub refused : is_ok r.0 ≡ false → (r.1 ≡ m) × (r.2 ≡ k)

known :
    (owner_id self_id : ℕ)
    → (not (owner_id == 0) && not (self_id == 0) && not (owner_id == self_id)) ≡ false
    → (owner_id ≡ 0) ⊎ (self_id ≡ 0) ⊎ (owner_id ≡ self_id)
known owner_id self_id h = elim (Bool-cases (owner_id == 0)) [
  | inl e ↦ inl (ground arith)
  | inr e ↦ elim (Bool-cases (self_id == 0)) [
    | inl f ↦ inr (inl (ground arith))
    | inr f ↦ inr (inr (ground arith))
  ]
]

-- os_mutex_unlock succeeds only on a locked mutex and only for the owner, as far as both are
-- known by their ids; then nobody holds it, and otherwise neither mutex nor kernel changes.
pub unlock-Unlocked : (m : Mutex) (k : Kernel) → Unlocked m k (unlock m k)
unfolding unlock hand_over
unlock-Unlocked m k =
    if_cases (Unlocked m k) k.in_isr (λ _. kept invalid_arg refl)
      λ _.
        if_cases (Unlocked m k) (not m.locked) (λ _. kept error refl)
          λ locked.
            if_cases (Unlocked m k)
              (not (m.owner_id == 0)
                && not (current_id_get k == 0)
                && not (m.owner_id == current_id_get k))
              (λ _. kept not_owner refl)
              (λ h. record {
                succeeds = λ _. (ground arith, known m.owner_id (current_id_get k) h);
                holds = refl;
                refused = λ e. absurd (cc e);
              })
  where
    kept : (status : Status) → is_ok status ≡ false → Unlocked m k (status, m, k)
    kept status e = record {
      succeeds = λ t. absurd (cc (t, e));
      holds = ground (arith, e);
      refused = λ _. (refl, refl);
    }

-- At most one task holds a mutex: over every run of locks and unlocks, the tasks whose lock has
-- succeeded and that no unlock has released are the one that the mutex names, or none if it is
-- unlocked.
pub Trace-holders : (m : Mutex) (ids : List ℕ) → Trace m ids → ids ≡ holders m
Trace-holders m _ (free _ e) = ground (arith, e)
Trace-holders _ _ (locks m ids self_id b k trace) =
    let l = lock_round-Locked self_id b m k in
    ground (arith, l.holds, l.succeeds, Trace-holders m ids trace)
Trace-holders _ _ (unlocks m ids k trace) =
    released (is_ok (unlock m k).0) ids m.locked m.owner_id (Trace-holders m ids trace)
    ∙ sym (unlock-Unlocked m k).holds
  where
    released :
        (done : Bool) (xs : List ℕ) (locked : Bool) (id : ℕ)
        → xs ≡ (if locked then id ∷ [] else [])
        → (if done then rest xs else xs) ≡ (if done then [] else if locked then id ∷ [] else [])
    released true xs true id e = ap rest e
    released true xs false id e = ap rest e
    released false xs locked id e = e
