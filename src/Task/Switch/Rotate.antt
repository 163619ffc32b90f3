-- ===== src/Task/Switch/Rotate.antt =====
-- Round robin: a preempted task waits behind its peers.
use ahura_kernel.Prelude.{
  ℕ, ◌^◌, bit_or, ◌<◌, ◌≡◌, ◌≢◌, refl, sym, ap, subst, ◌∙◌, true, false, some, List, [], ◌∷◌, ◌++◌,
  arith, ltb, ◌==◌, if◌then◌else◌, if_cases, Bool-cases, inl, inr, is_empty, remove,
}
use ahura_kernel.Prelude.Bits.{bit, bit-zero}
use ahura_kernel.Task.State.{Kernel, Task, idle, is_run}
use ahura_kernel.Task.Sched.{make_ready, clear_if_empty, leave_ready}
use ahura_kernel.Task.Switch.{
  release_core, stack_save_current, pick, dispatch, stack_select_next, pend_sv,
}
use ahura_kernel.Task.Switch.Pick.{First, pick-First}
use ahura_kernel.Task.Switch.Swap.{Saved, resumed, save-Saved, unlocked_none, save-lock_count}
use ahura_kernel.Task.Inv.{IsValid}
use ahura_kernel.Task.Inv.Request.{flags-Inv}

-- What the switch from `t`, with the peers `u ∷ rest` READY at its level, leads to.
pub record Rotated (t u : Task) (rest : List Task) (level : ℕ) (r : ℕ × Kernel) : Type 0 where
  pub current : r.1.current ≡ some u
  pub queue : r.1.ready_list level ≡ rest ++ t ∷ []

head_eq : {x y : Task} {xs ys : List Task} → x ∷ xs ≡ y ∷ ys → x ≡ y
head_eq h = ground (arith, h)

tail_eq : {x y : Task} {xs ys : List Task} → x ∷ xs ≡ y ∷ ys → xs ≡ ys
tail_eq h = cc h

remove_head : (t : Task) (xs : List Task) → remove t (t ∷ xs) ≡ xs
remove_head t xs = ground arith

dispatch-current : (t : Task) (k : Kernel) → (dispatch t k).current ≡ some t
unfolding dispatch
dispatch-current t k = refl

dispatch-queue : (t : Task) (k : Kernel) (p : ℕ) → (dispatch t k).ready_list p ≡ k.ready_list p
unfolding dispatch
dispatch-queue t k p = refl

leave_ready-queue :
    (t : Task) (k : Kernel)
    → (leave_ready t k).ready_list (k.tcb t).priority ≡ remove t (k.ready_list (k.tcb t).priority)
unfolding leave_ready clear_if_empty
leave_ready-queue t k = ground arith

module _ (k : Kernel) (inv : IsValid k) (t : Task) (e : k.current ≡ some t)
    (run : is_run (k.tcb t).state ≡ true) (real : t ≢ idle k) (unlocked : k.lock_count ≡ 0)
    (stack_ptr : ℕ) where
  abbrev saved : Kernel
  saved = stack_save_current stack_ptr k

  -- A task that runs is saved at the tail of its ready list.
  saved_at_tail :
      (p : ℕ)
      → (stack_save_current stack_ptr k).ready_list p
        ≡ (if (k.tcb t).priority == p then k.ready_list p ++ t ∷ [] else k.ready_list p)
  unfolding stack_save_current release_core make_ready
  saved_at_tail p = ground (arith, e, run, real, unlocked)

  saved_bitmap :
      (stack_save_current stack_ptr k).ready_bitmap ≡ bit_or k.ready_bitmap (2 ^ (k.tcb t).priority)
  unfolding stack_save_current release_core make_ready
  saved_bitmap = ground (arith, e, run, real, unlocked)

  saved-Saved : Saved saved
  saved-Saved = save-Saved inv stack_ptr

  -- The peers `u ∷ rest` are READY at the level of `t`, and nobody above it.
  module _ (u : Task) (rest : List Task) (peers : k.ready_list (k.tcb t).priority ≡ u ∷ rest)
      (none_above : (p : ℕ)
        → (k.tcb t).priority < p
        → p < 32
        → is_empty (k.ready_list p) ≡ true) where
    queue_now : saved.ready_list (k.tcb t).priority ≡ u ∷ (rest ++ t ∷ [])
    queue_now =
        saved_at_tail (k.tcb t).priority
        ∙ if_cases (λ (xs : List Task). xs ≡ u ∷ (rest ++ t ∷ []))
            ((k.tcb t).priority == (k.tcb t).priority)
            (λ _. ap (λ (xs : List Task). xs ++ t ∷ []) peers) (λ ne. absurd (ground arith))

    some_ready : saved.ready_bitmap ≢ 0
    some_ready z = absurd (
        ground (
          arith,
          ap (λ (x : ℕ). bit x (k.tcb t).priority) z,
          bit-zero (k.tcb t).priority,
          saved-Saved.valid.bitmap (k.tcb t).priority (inv.priority_small t),
          ap is_empty queue_now,
        ))

    First-level : (v : Task) → (first : First saved v) → first.level ≡ (k.tcb t).priority
    First-level v first = elim (Bool-cases (ltb first.level (k.tcb t).priority)) [
      | inl below ↦ absurd (
          ground (
            arith,
            first.highest (k.tcb t).priority (ground arith) (inv.priority_small t),
            ap is_empty queue_now,
          ))
      | inr not_below ↦ elim (Bool-cases (ltb (k.tcb t).priority first.level)) [
        | inl above ↦ absurd (
            ground (
              arith,
              none_above first.level (ground arith) first.in_range,
              saved_at_tail first.level,
              ap is_empty first.head,
            ))
        | inr not_above ↦ ground arith
      ]
    ]

    selects : stack_select_next saved ≡ resumed (pick 33 saved.ready_bitmap saved)
    unfolding stack_select_next
    selects =
        simp (stack_select_next, unlocked_none saved (save-lock_count stack_ptr k ∙ unlocked)) refl

    picked-Rotated :
        (v : Task)
        → (first : First saved v)
        → Rotated t u rest (k.tcb t).priority (resumed (v, leave_ready v saved))
    picked-Rotated v first =
        let level = (k.tcb t).priority in
        let lists : u ∷ (rest ++ t ∷ []) ≡ v ∷ first.rest =
          sym queue_now ∙ ap saved.ready_list (sym (First-level v first)) ∙ first.head in
        let own : (saved.tcb v).priority ≡ level = first.priority ∙ First-level v first in
        record {
          current = dispatch-current v (leave_ready v saved) ∙ ap some (sym (head_eq lists));
          queue =
              dispatch-queue v (leave_ready v saved) level
              ∙ ap (leave_ready v saved).ready_list (sym own)
              ∙ leave_ready-queue v saved
              ∙ ap (λ (p : ℕ). remove v (saved.ready_list p)) own
              ∙ ap (remove v) queue_now
              ∙ ap (remove v) lists
              ∙ remove_head v first.rest
              ∙ sym (tail_eq lists);
        }

    select-Rotated : Rotated t u rest (k.tcb t).priority (stack_select_next saved)
    select-Rotated =
        let (v, first, eq) = pick-First saved-Saved.valid 32 some_ready in
        subst (Rotated t u rest (k.tcb t).priority) (sym (selects ∙ ap resumed eq))
          (picked-Rotated v first)

-- When a running task is preempted, the scheduler is unlocked, and the READY tasks of its level are
-- `u ∷ rest` with none above it, the PendSV exception gives the core to `u`, and the preempted task
-- waits behind `rest`: tasks of one level take turns.
pub pend_sv-Rotated :
    (k : Kernel) (stack_ptr : ℕ) (t u : Task) (rest : List Task)
    → IsValid k
    → k.current ≡ some t
    → is_run (k.tcb t).state ≡ true
    → t ≢ idle k
    → k.lock_count ≡ 0
    → k.ready_list (k.tcb t).priority ≡ u ∷ rest
    → ((p : ℕ) → (k.tcb t).priority < p → p < 32 → is_empty (k.ready_list p) ≡ true)
    → Rotated t u rest (k.tcb t).priority (pend_sv stack_ptr k)
unfolding pend_sv
pend_sv-Rotated k stack_ptr t u rest inv e run real unlocked peers none_above =
    select-Rotated (record k { switch_requested = false }) (flags-Inv inv k.switch_pending false) t
      e run real unlocked stack_ptr u rest peers none_above
