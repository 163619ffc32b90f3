-- ===== src/Task/Inv/Still.antt =====
-- What the invariant says of a task that waits on nothing, and of the idle task.
use ahura_kernel.Prelude.{ℕ, Bool, ◌≡◌, false, none, arith, Option-cases, inl, inr}
use ahura_kernel.Task.State.{Kernel, Task, idle, is_blocked}
use ahura_kernel.Task.Inv.{IsValid, IsValidWithout}

module _ {k : Kernel} (inv : IsValid k) where
  pub waits_on_none : (t : Task) → is_blocked (k.tcb t).state ≡ false → (k.tcb t).wait_list ≡ none
  waits_on_none t nb = elim (Option-cases (k.tcb t).wait_list) [
    | inl e ↦ e
    | inr (w, e) ↦ absurd (ground (arith, inv.waits_blocked w t))
  ]

  -- The idle task stands in no list.
  pub idle_out : IsValidWithout (idle k) k
  idle_out = record {
    ready_count = λ p u. ground (arith, inv.ready_count p u);
    delay_count = λ u. ground (arith, inv.delay_count u, inv.idle_awake);
    wait_count = λ w u. ground (arith, inv.wait_count w u, inv.waits_blocked w u, inv.idle_awake);
    bitmap = inv.bitmap;
    bitmap_small = inv.bitmap_small;
    priority_small = inv.priority_small;
    base_small = inv.base_small;
    delay_small = inv.delay_small;
    sorted = inv.sorted;
    waits_blocked = inv.waits_blocked;
    runs = inv.runs;
    idle_awake = inv.idle_awake;
  }

  -- Time slice, scheduler lock, switch flags, processor mode and tick count are outside the
  -- invariant.
  pub outside-Inv :
      (slice lock : ℕ) (pending running in_isr requested : Bool) (tick : ℕ)
      → IsValid (record k {
        slice_left = slice;
        lock_count = lock;
        switch_pending = pending;
        is_running = running;
        in_isr = in_isr;
        switch_requested = requested;
        tick_count = tick;
      })
  outside-Inv slice lock pending running in_isr requested tick = record {
    ready_count = inv.ready_count;
    delay_count = inv.delay_count;
    wait_count = inv.wait_count;
    bitmap = inv.bitmap;
    bitmap_small = inv.bitmap_small;
    priority_small = inv.priority_small;
    base_small = inv.base_small;
    delay_small = inv.delay_small;
    sorted = inv.sorted;
    waits_blocked = inv.waits_blocked;
    runs = inv.runs;
    idle_awake = inv.idle_awake;
  }
