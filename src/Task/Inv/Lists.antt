-- ===== src/Task/Inv/Lists.antt =====
-- The invariant under a write to one task control block, and under the list operations of
-- core/os_task.c.
use ahura_kernel.Prelude.{
  ℕ, ◌^◌, ◌<◌, ◌≡◌, refl, ◌≢◌, Bool, true, false, not, ◌&&◌, none, List, [], ◌∷◌, ◌++◌, arith, ◌==◌,
  is, is_empty, count-append,
}
use ahura_kernel.Prelude.Bits.{bit-bit_or, bit-pow, bit_or-lt, pow-lt}
use ahura_kernel.Task.State.{
  Kernel, Tcb, Task, WaiterList, set_tcb, idle, is_ready, is_run, is_blocked, wait_forever,
}
use ahura_kernel.Task.Sched.{make_ready}
use ahura_kernel.Task.Inv.{Inv, IsValid, IsValidWithout}
use ahura_kernel.Task.Inv.Insert.{Sorted-change}

-- A write that keeps state, priority, delay and waiter list keeps the invariant.
pub record Alike (c d : Tcb) : Type 0 where
  pub state : c.state ≡ d.state
  pub priority : c.priority ≡ d.priority
  pub delay_ticks : c.delay_ticks ≡ d.delay_ticks
  pub wait_list : c.wait_list ≡ d.wait_list
  pub base_small : c.base_priority < 32 → d.base_priority < 32

module _ {out wait_out : Task → Bool} {k : Kernel} (inv : Inv out wait_out k) where
  pub set_tcb-Inv : (t : Task) (c : Tcb) → Alike (k.tcb t) c → Inv out wait_out (set_tcb k t c)
  set_tcb-Inv t c a = record {
    ready_count = λ p u. ground (arith, inv.ready_count p u);
    delay_count = λ u. ground (arith, inv.delay_count u);
    wait_count = λ w u. ground (arith, inv.wait_count w u);
    bitmap = inv.bitmap;
    bitmap_small = inv.bitmap_small;
    priority_small = λ u. ground (arith, inv.priority_small u);
    base_small = λ u. ground (arith, inv.base_small u, a.base_small);
    delay_small = λ u. ground (arith, inv.delay_small u);
    sorted = λ w. Sorted-change _ _ (k.waiters w) (λ u h. ground arith) (inv.sorted w);
    waits_blocked = λ w u h. ground (arith, inv.waits_blocked w u);
    runs = λ u h. ground (arith, inv.runs u);
    idle_awake = ground (arith, inv.idle_awake);
  }

  -- A finite delay may be replaced by another.
  pub set_delay-Inv :
      (t : Task) (d : ℕ)
      → d < wait_forever
      → (k.tcb t).delay_ticks ≢ wait_forever
      → Inv out wait_out (set_tcb k t (record (k.tcb t) { delay_ticks = d }))
  set_delay-Inv t d h fin = record {
    ready_count = λ p u. ground (arith, inv.ready_count p u);
    delay_count = λ u. ground (arith, inv.delay_count u);
    wait_count = λ w u. ground (arith, inv.wait_count w u);
    bitmap = inv.bitmap;
    bitmap_small = inv.bitmap_small;
    priority_small = λ u. ground (arith, inv.priority_small u);
    base_small = λ u. ground (arith, inv.base_small u);
    delay_small = λ u. ground (arith, inv.delay_small u);
    sorted = λ w. Sorted-change _ _ (k.waiters w) (λ u h. ground arith) (inv.sorted w);
    waits_blocked = λ w u h. ground (arith, inv.waits_blocked w u);
    runs = λ u h. ground (arith, inv.runs u);
    idle_awake = ground (arith, inv.idle_awake);
  }

-- What a task in no list must satisfy to be written back.
pub record Settled (k : Kernel) (t : Task) (c : Tcb) : Type 0 where
  pub priority_small : c.priority < 32
  pub base_small : c.base_priority < 32
  pub delay_small : c.delay_ticks < 2 ^ 32
  pub waits_blocked : (w : WaiterList) → is c.wait_list w ≡ true → is_blocked c.state ≡ true
  pub runs : is_run c.state ≡ true → is k.current t ≡ true
  pub idle_awake : t ≡ idle k → is_blocked c.state ≡ false

module _ {t : Task} {k : Kernel} (inv : IsValidWithout t k) where
  -- A task that is in no list may be changed at will.
  pub set_out-Inv : (c : Tcb) → Settled k t c → IsValidWithout t (set_tcb k t c)
  set_out-Inv c s = record {
    ready_count = λ p u. ground (arith, inv.ready_count p u);
    delay_count = λ u. ground (arith, inv.delay_count u);
    wait_count = λ w u. ground (arith, inv.wait_count w u);
    bitmap = inv.bitmap;
    bitmap_small = inv.bitmap_small;
    priority_small = λ u. ground (arith, inv.priority_small u, s.priority_small);
    base_small = λ u. ground (arith, inv.base_small u, s.base_small);
    delay_small = λ u. ground (arith, inv.delay_small u, s.delay_small);
    sorted = λ w.
        Sorted-change _ _ (k.waiters w) (λ u h. ground (arith, inv.wait_count w u)) (inv.sorted w);
    waits_blocked = λ w u h. ground (arith, inv.waits_blocked w u, s.waits_blocked w);
    runs = λ u h. ground (arith, inv.runs u, s.runs);
    idle_awake = ground (arith, inv.idle_awake, s.idle_awake);
  }

  -- A task whose state puts it in no list is back in order.
  pub settle-IsValid :
      (k.tcb t).wait_list ≡ none
      → (is_ready (k.tcb t).state && not (t == idle k)) ≡ false
      → is_blocked (k.tcb t).state ≡ false
      → IsValid k
  settle-IsValid nw nr nb = record {
    ready_count = λ p u. ground (arith, inv.ready_count p u);
    delay_count = λ u. ground (arith, inv.delay_count u);
    wait_count = λ w u. ground (arith, inv.wait_count w u);
    bitmap = inv.bitmap;
    bitmap_small = inv.bitmap_small;
    priority_small = inv.priority_small;
    base_small = inv.base_small;
    delay_small = inv.delay_small;
    sorted = inv.sorted;
    waits_blocked = inv.waits_blocked;
    runs = inv.runs;
    idle_awake = inv.idle_awake;
  }

is_empty-append_one : (xs : List Task) (t : Task) → is_empty (xs ++ t ∷ []) ≡ false
is_empty-append_one [] t = refl
is_empty-append_one (x ∷ xs) t = refl

module _ {t : Task} {k : Kernel} (inv : IsValidWithout t k) where
  -- A task in no list becomes READY at the tail of its ready list.
  pub make_ready-IsValid : (k.tcb t).wait_list ≡ none → t ≢ idle k → IsValid (make_ready t k)
  unfolding make_ready
  make_ready-IsValid nw ni = record {
    ready_count =
        λ p u. ground (arith, inv.ready_count p u, count-append u (k.ready_list p) (t ∷ []));
    delay_count = λ u. ground (arith, inv.delay_count u);
    wait_count = λ w u. ground (arith, inv.wait_count w u);
    bitmap = λ p h. ground (
      arith,
      inv.bitmap p h,
      bit-bit_or k.ready_bitmap (2 ^ (k.tcb t).priority) p,
      bit-pow (k.tcb t).priority p,
      is_empty-append_one (k.ready_list p) t,
    );
    bitmap_small =
        bit_or-lt 32 k.ready_bitmap (2 ^ (k.tcb t).priority) inv.bitmap_small
          (pow-lt (k.tcb t).priority 32 (inv.priority_small t));
    priority_small = λ u. ground (arith, inv.priority_small u);
    base_small = λ u. ground (arith, inv.base_small u);
    delay_small = λ u. ground (arith, inv.delay_small u);
    sorted = λ w. Sorted-change _ _ (k.waiters w) (λ u h. ground arith) (inv.sorted w);
    waits_blocked = λ w u h. ground (arith, inv.waits_blocked w u);
    runs = λ u h. ground (arith, inv.runs u);
    idle_awake = ground (arith, inv.idle_awake);
  }
