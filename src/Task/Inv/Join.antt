-- ===== src/Task/Inv/Join.antt =====
-- The invariant while a task enters a waiter list or the delay list, or changes its priority.
use ahura_kernel.Prelude.{
  ℕ, ◌<◌, ◌≡◌, Bool, true, false, not, ◌&&◌, none, some, [], ◌∷◌, arith, ◌==◌, if◌then◌else◌,
  if_cases, is, count, remove, update, count-append, count-remove_self, count-remove_ne,
}
use ahura_kernel.Task.State.{Kernel, Task, WaiterList, is_ready, is_blocked, wait_forever}
use ahura_kernel.Task.Sched.{wait_node_insert, set_priority}
use ahura_kernel.Task.Wait.{delay_if_finite}
use ahura_kernel.Task.Inv.{Sorted, Inv, IsValid, IsValidWithout, no_task, only}
use ahura_kernel.Task.Inv.Insert.{count-insert_by, insert_by-Sorted, remove-Sorted, Sorted-change}

-- A task that is neither READY nor BLOCKED is in no list.
pub out_of_lists-Inv :
    (t : Task) {k : Kernel}
    → IsValid k
    → is_ready (k.tcb t).state ≡ false
    → is_blocked (k.tcb t).state ≡ false
    → IsValidWithout t k
out_of_lists-Inv t {k} inv nr nb = record {
  ready_count = λ p u. ground (arith, inv.ready_count p u);
  delay_count = λ u. ground (arith, inv.delay_count u);
  wait_count = λ w u. ground (arith, inv.wait_count w u, inv.waits_blocked w u);
  bitmap = inv.bitmap;
  bitmap_small = inv.bitmap_small;
  priority_small = inv.priority_small;
  base_small = inv.base_small;
  delay_small = inv.delay_small;
  sorted = inv.sorted;
  waits_blocked = inv.waits_blocked;
  runs = inv.runs;
  idle_awake = inv.idle_awake;
}

module _ (t : Task) {out : Task → Bool} {k : Kernel} (inv : Inv out (only t) k) where
  -- A task joins the waiter list that its control block names.
  pub insert-Inv :
      (w : WaiterList) → (k.tcb t).wait_list ≡ some w → Inv out no_task (wait_node_insert w t k)
  unfolding wait_node_insert
  insert-Inv w e = record {
    ready_count = inv.ready_count;
    delay_count = inv.delay_count;
    wait_count = λ x u.
        ground
          (arith, inv.wait_count x u, count-insert_by (λ v. (k.tcb v).priority) t (k.waiters x) u);
    bitmap = inv.bitmap;
    bitmap_small = inv.bitmap_small;
    priority_small = inv.priority_small;
    base_small = inv.base_small;
    delay_small = inv.delay_small;
    sorted = λ x.
        if_cases (Sorted (λ u. (k.tcb u).priority)) (w == x)
          (λ _. insert_by-Sorted _ t (k.waiters w) (inv.sorted w)) (λ _. inv.sorted x);
    waits_blocked = inv.waits_blocked;
    runs = inv.runs;
    idle_awake = inv.idle_awake;
  }

  -- A task that waits on nothing is in no waiter list anyway.
  pub no_waiters-Inv : (k.tcb t).wait_list ≡ none → Inv out no_task k
  no_waiters-Inv e = record {
    ready_count = inv.ready_count;
    delay_count = inv.delay_count;
    wait_count = λ w u. ground (arith, inv.wait_count w u);
    bitmap = inv.bitmap;
    bitmap_small = inv.bitmap_small;
    priority_small = inv.priority_small;
    base_small = inv.base_small;
    delay_small = inv.delay_small;
    sorted = inv.sorted;
    waits_blocked = inv.waits_blocked;
    runs = inv.runs;
    idle_awake = inv.idle_awake;
  }

-- A BLOCKED task joins the delay list, if its delay is finite.
pub delay-Inv :
    (t : Task) (ticks : ℕ) {k : Kernel}
    → Inv (only t) no_task k
    → is_blocked (k.tcb t).state ≡ true
    → (k.tcb t).delay_ticks ≡ ticks
    → IsValid (delay_if_finite ticks t k)
unfolding delay_if_finite
delay-Inv t ticks {k} inv b e =
    if_cases IsValid (not (ticks == wait_forever))
      (λ h. record {
        ready_count = λ p u. ground (arith, inv.ready_count p u);
        delay_count = λ u. ground (arith, inv.delay_count u, count-append u k.delay_list (t ∷ []));
        wait_count = inv.wait_count;
        bitmap = inv.bitmap;
        bitmap_small = inv.bitmap_small;
        priority_small = inv.priority_small;
        base_small = inv.base_small;
        delay_small = inv.delay_small;
        sorted = inv.sorted;
        waits_blocked = inv.waits_blocked;
        runs = inv.runs;
        idle_awake = inv.idle_awake;
      })
      (λ h. record {
        ready_count = λ p u. ground (arith, inv.ready_count p u);
        delay_count = λ u. ground (arith, inv.delay_count u);
        wait_count = inv.wait_count;
        bitmap = inv.bitmap;
        bitmap_small = inv.bitmap_small;
        priority_small = inv.priority_small;
        base_small = inv.base_small;
        delay_small = inv.delay_small;
        sorted = inv.sorted;
        waits_blocked = inv.waits_blocked;
        runs = inv.runs;
        idle_awake = inv.idle_awake;
      })

module _ (t : Task) {k : Kernel} (inv : IsValid k)
    (unready : is_ready (k.tcb t).state ≡ false) where
  -- A task that is not READY changes its priority, out of the waiter list `w` if it is on one.
  pub set_priority-Inv :
      (p : ℕ) → p < 32 → (k.tcb t).wait_list ≡ none → IsValid (set_priority t p k)
  set_priority-Inv p hp e = record {
    ready_count = λ q u. ground (arith, inv.ready_count q u);
    delay_count = λ u. ground (arith, inv.delay_count u);
    wait_count = λ w u. ground (arith, inv.wait_count w u);
    bitmap = inv.bitmap;
    bitmap_small = inv.bitmap_small;
    priority_small = λ u. ground (arith, inv.priority_small u);
    base_small = λ u. ground (arith, inv.base_small u);
    delay_small = λ u. ground (arith, inv.delay_small u);
    sorted = λ w.
        Sorted-change _ _ (k.waiters w) (λ u h. ground (arith, inv.wait_count w u)) (inv.sorted w);
    waits_blocked = λ w u h. ground (arith, inv.waits_blocked w u);
    runs = λ u h. ground (arith, inv.runs u);
    idle_awake = ground (arith, inv.idle_awake);
  }

  pub remove_waiter-Inv :
      (p : ℕ) (w : WaiterList)
      → p < 32
      → (k.tcb t).wait_list ≡ some w
      → Inv no_task
          (only t)
          (record (set_priority t p k) { waiters = update k.waiters w (remove t (k.waiters w)) })
  remove_waiter-Inv p w hp e = record {
    ready_count = λ q u. ground (arith, inv.ready_count q u);
    delay_count = λ u. ground (arith, inv.delay_count u);
    wait_count = counts;
    bitmap = inv.bitmap;
    bitmap_small = inv.bitmap_small;
    priority_small = λ u. ground (arith, inv.priority_small u);
    base_small = λ u. ground (arith, inv.base_small u);
    delay_small = λ u. ground (arith, inv.delay_small u);
    sorted = λ x.
        Sorted-change (λ u. (k.tcb u).priority) _ (update k.waiters w (remove t (k.waiters w)) x)
          (λ u h. ground (arith, counts x u))
          (if_cases (Sorted (λ u. (k.tcb u).priority)) (w == x)
            (λ _. remove-Sorted _ t (k.waiters w) (inv.sorted w)) (λ _. inv.sorted x));
    waits_blocked = λ x u h. ground (arith, inv.waits_blocked x u);
    runs = λ u h. ground (arith, inv.runs u);
    idle_awake = ground (arith, inv.idle_awake);
  }
    where
      counts :
          (x : WaiterList) (u : Task)
          → count u (update k.waiters w (remove t (k.waiters w)) x) ≡ (
              if not (t == u)
                && is (update k.tcb t (record (k.tcb t) { priority = p }) u).wait_list x
              then 1
              else 0)
      counts x u = ground (
        arith,
        inv.wait_count x u,
        count-remove_self t (k.waiters x),
        count-remove_ne t u (k.waiters x),
      )
