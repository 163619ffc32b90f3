-- ===== src/Task/Inv/Unlink.antt =====
-- The invariant under os_task_unlink of core/os_task.c.
use mathlib.Core.Path.{ap, subst₂}
use ahura_kernel.Prelude.{
  ℕ, ◌^◌, ◌<◌, ◌≡◌, refl, sym, ◌∙◌, ◌≢◌, inl, inr, true, not, ◌&&◌, Option, none, some, List, arith,
  ◌==◌, Bool-cases, remove, update, count-remove_self, count-remove_ne, bit_and,
}
use ahura_kernel.Prelude.Bits.{
  bit, complement, bit-bit_and, bit-pow, bit-complement, bit_and-le, pow-lt,
}
use ahura_kernel.Task.State.{
  Kernel, Tcb, Task, WaiterList, TaskState, inactive, ready, running, blocked, suspended, set_tcb,
  idle, is_ready, is_blocked, wait_forever,
}
use ahura_kernel.Task.Sched.{leave_ready, leave_state_list, leave_wait_list, unlink}
use ahura_kernel.Task.Inv.{
  Sorted, ready_want, delay_want, Inv, no_task, only, IsValid, IsValidWithout,
}
use ahura_kernel.Task.Inv.Insert.{Sorted-change, remove-Sorted}

-- Clearing a bit whose list has just been emptied.
clear_bit :
    (b p q : ℕ)
    → b < 2 ^ 32
    → p < 32
    → q < 32
    → bit (bit_and b (complement 32 (2 ^ p))) q ≡ (bit b q && not (p == q))
clear_bit b p q h hp hq =
    bit-bit_and b (complement 32 (2 ^ p)) q
    ∙ ap (λ x. bit b q && x)
        (bit-complement 32 (2 ^ p) q (pow-lt p 32 hp) hq ∙ ap not (bit-pow p q))

leave_ready-tcb : (t : Task) (k : Kernel) → (leave_ready t k).tcb ≡ k.tcb
unfolding leave_ready
leave_ready-tcb t k = ground arith

leave_ready-waiters : (t : Task) (k : Kernel) → (leave_ready t k).waiters ≡ k.waiters
unfolding leave_ready
leave_ready-waiters t k = ground arith

-- Sorted waiter lists stay sorted where neither they nor the control blocks change.
pub Sorted-same :
    {f g : Task → Tcb} {l m : WaiterList → List Task}
    → f ≡ g
    → l ≡ m
    → ((w : WaiterList) → Sorted (λ u. (f u).priority) (l w))
    → (w : WaiterList) → Sorted (λ u. (g u).priority) (m w)
Sorted-same e d s w = subst₂ (λ g m. Sorted (λ u. (g u).priority) (m w)) e d (s w)

module _ (t : Task) {k : Kernel} (inv : IsValid k) where
  leave_ready-Inv :
      is_ready (k.tcb t).state ≡ true → t ≢ idle k → Inv (only t) no_task (leave_ready t k)
  unfolding leave_ready
  leave_ready-Inv r ni = record {
    ready_count = λ p u. ground (
      arith,
      inv.ready_count p u,
      count-remove_self t (k.ready_list p),
      count-remove_ne t u (k.ready_list p),
    );
    delay_count = λ u. ground (arith, inv.delay_count u);
    wait_count = λ w u. ground (arith, inv.wait_count w u, inv.waits_blocked w u);
    bitmap = λ p h. ground (
      arith,
      inv.bitmap p h,
      clear_bit k.ready_bitmap (k.tcb t).priority p inv.bitmap_small (inv.priority_small t) h,
    );
    bitmap_small = ground (
      arith,
      inv.bitmap_small,
      bit_and-le k.ready_bitmap (complement 32 (2 ^ (k.tcb t).priority)),
    );
    priority_small = λ u. ground (arith, inv.priority_small u);
    base_small = λ u. ground (arith, inv.base_small u);
    delay_small = λ u. ground (arith, inv.delay_small u);
    sorted = Sorted-same (sym (leave_ready-tcb t k)) (sym (leave_ready-waiters t k)) inv.sorted;
    waits_blocked = λ w u h. ground (arith, inv.waits_blocked w u);
    runs = λ u h. ground (arith, inv.runs u);
    idle_awake = ground (arith, inv.idle_awake);
  }

  leave_delay-Inv :
      is_blocked (k.tcb t).state ≡ true
      → Inv (only t) no_task (record k { delay_list = remove t k.delay_list })
  leave_delay-Inv b = record {
    ready_count = λ p u. ground (arith, inv.ready_count p u);
    delay_count = λ u. ground (
      arith,
      inv.delay_count u,
      count-remove_self t k.delay_list,
      count-remove_ne t u k.delay_list,
    );
    wait_count = inv.wait_count;
    bitmap = inv.bitmap;
    bitmap_small = inv.bitmap_small;
    priority_small = inv.priority_small;
    base_small = inv.base_small;
    delay_small = inv.delay_small;
    sorted = inv.sorted;
    waits_blocked = inv.waits_blocked;
    runs = inv.runs;
    idle_awake = inv.idle_awake;
  }

  -- A task that its state puts in no state list.
  leave_none-Inv :
      ((p : ℕ) → ready_want no_task k p t ≡ 0) → delay_want no_task k t ≡ 0 → Inv (only t) no_task k
  leave_none-Inv nr nd = record {
    ready_count = λ p u. ground (arith, inv.ready_count p u, nr p);
    delay_count = λ u. ground (arith, inv.delay_count u);
    wait_count = inv.wait_count;
    bitmap = inv.bitmap;
    bitmap_small = inv.bitmap_small;
    priority_small = inv.priority_small;
    base_small = inv.base_small;
    delay_small = inv.delay_small;
    sorted = inv.sorted;
    waits_blocked = inv.waits_blocked;
    runs = inv.runs;
    idle_awake = inv.idle_awake;
  }

  leave_state_list-Inv : t ≢ idle k → Inv (only t) no_task (leave_state_list t k)
  unfolding leave_state_list
  leave_state_list-Inv ni = by_state (k.tcb t).state refl
    where
      by_state : (s : TaskState) → (k.tcb t).state ≡ s → Inv (only t) no_task (leave_state_list t k)
      by_state inactive e =
          rw (e, leave_state_list) (leave_none-Inv (λ p. ground arith) (ground arith))
      by_state ready e = rw (e, leave_state_list) (leave_ready-Inv (ground arith) ni)
      by_state running e =
          rw (e, leave_state_list) (leave_none-Inv (λ p. ground arith) (ground arith))
      by_state suspended e =
          rw (e, leave_state_list) (leave_none-Inv (λ p. ground arith) (ground arith))
      by_state blocked e = elim (Bool-cases ((k.tcb t).delay_ticks == wait_forever)) [
        | inl f ↦
            rw (e, leave_state_list) (rw f (leave_none-Inv (λ p. ground arith) (ground arith)))
        | inr f ↦ rw (e, leave_state_list) (rw f (leave_delay-Inv (ground arith)))
      ]

module _ (t : Task) {k : Kernel} (inv : Inv (only t) no_task k) where
  leave_no_waiters-Inv : (k.tcb t).wait_list ≡ none → IsValidWithout t k
  leave_no_waiters-Inv e = record {
    ready_count = inv.ready_count;
    delay_count = inv.delay_count;
    wait_count = λ w u. ground (arith, inv.wait_count w u);
    bitmap = inv.bitmap;
    bitmap_small = inv.bitmap_small;
    priority_small = inv.priority_small;
    base_small = inv.base_small;
    delay_small = inv.delay_small;
    sorted = inv.sorted;
    waits_blocked = inv.waits_blocked;
    runs = inv.runs;
    idle_awake = inv.idle_awake;
  }

  -- Whatever is written to the removed task next, its priority and its place in lists included, is
  -- `set_out-Inv`; here the waiter list alone is left.
  leave_waiters-Inv :
      (w : WaiterList)
      → (k.tcb t).wait_list ≡ some w
      → IsValidWithout t (record (set_tcb k t (record (k.tcb t) { wait_list = none })) {
        waiters = update k.waiters w (remove t (k.waiters w));
      })
  leave_waiters-Inv w e = record {
    ready_count = λ p u. ground (arith, inv.ready_count p u);
    delay_count = λ u. ground (arith, inv.delay_count u);
    wait_count = λ x u. ground (
      arith,
      inv.wait_count x u,
      count-remove_self t (k.waiters x),
      count-remove_ne t u (k.waiters x),
    );
    bitmap = inv.bitmap;
    bitmap_small = inv.bitmap_small;
    priority_small = λ u. ground (arith, inv.priority_small u);
    base_small = λ u. ground (arith, inv.base_small u);
    delay_small = λ u. ground (arith, inv.delay_small u);
    sorted = λ x.
        Sorted-change (λ u. (k.tcb u).priority) _ (update k.waiters w (remove t (k.waiters w)) x)
          (λ u h. ground arith) (still_sorted x);
    waits_blocked = λ x u h. ground (arith, inv.waits_blocked x u);
    runs = λ u h. ground (arith, inv.runs u);
    idle_awake = ground (arith, inv.idle_awake);
  }
    where
      still_sorted :
          (x : WaiterList)
          → Sorted (λ u. (k.tcb u).priority) (update k.waiters w (remove t (k.waiters w)) x)
      still_sorted x = elim (Bool-cases (w == x)) [
        | inl same ↦ rw same (remove-Sorted _ t (k.waiters w) (inv.sorted w))
        | inr other ↦ rw other (inv.sorted x)
      ]

  leave_wait_list-Inv : IsValidWithout t (leave_wait_list t k)
  unfolding leave_wait_list
  leave_wait_list-Inv = by_list (k.tcb t).wait_list refl
    where
      by_list :
          (o : Option WaiterList) → (k.tcb t).wait_list ≡ o → IsValidWithout t (leave_wait_list t k)
      by_list none e = rw (e, leave_wait_list) (leave_no_waiters-Inv e)
      by_list (some w) e = rw (e, leave_wait_list) (leave_waiters-Inv w e)

-- os_task_unlink takes a task out of every list, and leaves the others as they were.
pub unlink-Inv : (t : Task) {k : Kernel} → IsValid k → t ≢ idle k → IsValidWithout t (unlink t k)
unfolding unlink
unlink-Inv t inv ni = leave_wait_list-Inv t (leave_state_list-Inv t inv ni)
