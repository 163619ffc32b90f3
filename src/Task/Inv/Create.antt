-- ===== src/Task/Inv/Create.antt =====
-- os_task_system_init, os_task_idle_create and os_task_create keep the invariant.
use ahura_kernel.Prelude.{
  ℕ, zero, suc, ◌+◌, ◌≤◌, ◌<◌, ◌≡◌, refl, sym, subst, ap, Bool, true, false, not, ◌||◌, Option,
  none, some, [], arith, ltb, if_cases, Bool-cases, Option-cases, inl, inr, count,
}
use ahura_kernel.Prelude.Bits.{bit-zero}
use ahura_kernel.Task.State.{
  Kernel, Tcb, Task, WaiterList, Status, ok, error, full, prio_idle, prio_lowest, prio_highest,
  ready, set_tcb, idle, is_run, is_blocked, is_inactive, tcb_clear,
}
use ahura_kernel.Task.Create.{
  Storage, Handle, TaskConfig, create_args_valid, stack_initialize, free_slot_from, skip_ids,
  new_tcb, claim, create_with, create_any, create, create_system, system_init, idle_create,
  min_stack_size,
}
use ahura_kernel.Task.Inv.{Sorted, IsValid, IsValidWithout}
use ahura_kernel.Task.Inv.Lists.{set_out-Inv, settle-IsValid}
use ahura_kernel.Task.Inv.Calls.{KeepsValid}
use ahura_kernel.Task.Inv.Still.{waits_on_none, idle_out}
use ahura_kernel.Task.Inv.Join.{out_of_lists-Inv}

-- After os_task_system_init nothing is in a list, if no kernel object has waiters.
pub system_init-IsValid :
    (k : Kernel) → ((w : WaiterList) → k.waiters w ≡ []) → IsValid (system_init k)
unfolding system_init tcb_clear
system_init-IsValid k no_waiters = record {
  ready_count = λ p u. refl;
  delay_count = λ u. refl;
  wait_count = λ w u. ap (count u) (no_waiters w);
  bitmap = λ p h. bit-zero p;
  bitmap_small = omega arith;
  priority_small = λ u. omega arith;
  base_small = λ u. omega arith;
  delay_small = λ u. omega arith;
  sorted = λ w. subst (Sorted (λ u. 0)) (sym (no_waiters w)) tt;
  waits_blocked = λ w u h. absurd (cc h);
  runs = λ u h. absurd (cc h);
  idle_awake = refl;
}

-- A free slot is an INACTIVE one of the table.
pub record Free (k : Kernel) (i n t : ℕ) : Type 0 where
  pub from : i ≤ t
  pub below : t < i + n
  pub inactive : is_inactive (k.tcb t).state ≡ true

pub free_slot_from-Free :
    (n i : ℕ) (k : Kernel) (t : Task) → free_slot_from n i k ≡ some t → Free k i n t
unfolding free_slot_from
free_slot_from-Free zero i k t e = absurd (cc e)
free_slot_from-Free (suc n) i k t e = elim (Bool-cases (is_inactive (k.tcb i).state)) [
  | inl h ↦
      let same : i ≡ t = ground (arith, e) in
      record { from = omega arith; below = omega arith; inactive = ground arith }
  | inr h ↦
      let rest : Free k (i + 1) n t = free_slot_from-Free n (i + 1) k t (ground (arith, e)) in
      record {
        from = omega (arith, rest.from);
        below = omega (arith, rest.below);
        inactive = rest.inactive;
      }
]

-- The id counter is outside the invariant.
next_id-Inv : {k : Kernel} → IsValid k → (n : ℕ) → IsValid (record k { next_id = n })
next_id-Inv inv n = record {
  ready_count = inv.ready_count;
  delay_count = inv.delay_count;
  wait_count = inv.wait_count;
  bitmap = inv.bitmap;
  bitmap_small = inv.bitmap_small;
  priority_small = inv.priority_small;
  base_small = inv.base_small;
  delay_small = inv.delay_small;
  sorted = inv.sorted;
  waits_blocked = inv.waits_blocked;
  runs = inv.runs;
  idle_awake = inv.idle_awake;
}

-- What a creation call returns beside its status and handle is a valid kernel.
pub record CreateKeeps {H : Type 0} (r : Status × H × Kernel) : Type 0 where
  pub kernel : IsValid r.2

module _ {k : Kernel} (inv : IsValid k) where
  -- A SUSPENDED task control block may be written to an INACTIVE slot.
  claim-IsValid :
      (t : Task) (h : Handle) (s : Storage) (config : TaskConfig) (system_task : Bool)
      (stack_ptr : ℕ)
      → Free k 0 k.table_size t
      → config.priority < 32
      → IsValid (claim t h s config system_task stack_ptr k).1
  unfolding claim new_tcb
  claim-IsValid t h s config system_task stack_ptr slot p =
      let c : Tcb =
        new_tcb s config system_task stack_ptr (skip_ids (k.table_size + 2) k.next_id k)
          (k.tcb t) in
      let w : IsValidWithout t k =
        out_of_lists-Inv t inv (ground (arith, slot.inactive)) (ground (arith, slot.inactive)) in
      let nw : (k.tcb t).wait_list ≡ none = waits_on_none inv t (ground (arith, slot.inactive)) in
      next_id-Inv
        (settle-IsValid
          (set_out-Inv w c (record {
            priority_small = p;
            base_small = p;
            delay_small = omega arith;
            waits_blocked = λ x h. absurd (ground (arith, nw));
            runs = λ h. absurd (cc h);
            idle_awake = λ h. refl;
          }))
          (ground (arith, nw)) (ground arith) (ground arith))
        _

  create_with-IsValid :
      (h : Handle) (s : Storage) (config : TaskConfig) (system_task : Bool)
      → CreateKeeps (create_with h s config system_task k)
  unfolding create_with create_args_valid
  create_with-IsValid h s config system_task =
      if_cases CreateKeeps (not (create_args_valid s config)) (λ _. record { kernel = inv })
        λ valid.
          placed (ground arith) (stack_initialize s.stack_memory s.stack_bytes config.entry)
            (free_slot_from k.table_size 0 k) refl
    where
      placed :
          config.priority < 32
          → (frame : Option ℕ) (slot : Option Task) → free_slot_from k.table_size 0 k ≡ slot
          → CreateKeeps {H = Handle} (elim frame [
            | none ↦ (error, h, k)
            | some stack_ptr ↦ elim slot [
              | none ↦ (full, h, k)
              | some t ↦ let (h', k') = claim t h s config system_task stack_ptr k in (ok, h', k')
            ]
          ])
      placed p none slot e = record { kernel = inv }
      placed p (some stack_ptr) none e = record { kernel = inv }
      placed p (some stack_ptr) (some t) e = record {
        kernel =
            claim-IsValid t h s config system_task stack_ptr
              (free_slot_from-Free k.table_size 0 k t e) p;
      }

  create_any-IsValid :
      (h : Option Handle) (config : Option TaskConfig) (system_task : Bool)
      → CreateKeeps (create_any h config system_task k)
  unfolding create_any
  create_any-IsValid none config system_task = record { kernel = inv }
  create_any-IsValid (some h) none system_task = record { kernel = inv }
  create_any-IsValid (some h) (some config) system_task = elim (Option-cases h.storage) [
    | inl e ↦ rw (e, create_any) (record { kernel = inv })
    | inr (s, e) ↦
        rw (e, create_any) (record { kernel = (create_with-IsValid h s config system_task).kernel })
  ]

  -- os_task_create and os_task_create_system keep the invariant.
  pub create-IsValid :
      (h : Option Handle) (config : Option TaskConfig) → CreateKeeps (create h config k)
  unfolding create
  create-IsValid h none = record { kernel = inv }
  create-IsValid h (some config) =
      if_cases CreateKeeps (ltb config.priority prio_lowest || ltb prio_highest config.priority)
        (λ _. record { kernel = inv }) (λ _. create_any-IsValid h (some config) false)

  pub create_system-IsValid :
      (h : Option Handle) (config : Option TaskConfig) → CreateKeeps (create_system h config k)
  unfolding create_system
  create_system-IsValid h config = create_any-IsValid h config true

  idle_ready :
      (c : Tcb)
      → c.priority ≡ 0
      → c.base_priority ≡ 0
      → c.delay_ticks ≡ 0
      → c.state ≡ ready
      → c.wait_list ≡ none
      → IsValid (set_tcb k (idle k) c)
  idle_ready c p b d s nw =
      settle-IsValid
        (set_out-Inv (idle_out inv) c (record {
          priority_small = omega (arith, p);
          base_small = omega (arith, b);
          delay_small = omega (arith, d);
          waits_blocked = λ x h. absurd (ground (arith, nw));
          runs = λ h. absurd (cc (h, ap is_run s));
          idle_awake = λ h. ap is_blocked s;
        }))
        (ground (arith, nw)) (ground arith) (ground (arith, ap is_blocked s))

  -- os_task_idle_create keeps the invariant.
  pub idle_create-IsValid : (name stack entry : ℕ) → KeepsValid (idle_create name stack entry k)
  unfolding idle_create
  idle_create-IsValid name stack entry =
      if_cases KeepsValid (not (is_inactive (k.tcb (idle k)).state)) (λ _. record { kernel = inv })
        (λ h. framed (stack_initialize stack min_stack_size entry))
    where
      framed :
          (frame : Option ℕ)
          → KeepsValid (elim frame [
            | none ↦ (error, k)
            | some stack_ptr ↦ (
              ok,
              set_tcb k (idle k) (record (k.tcb (idle k)) {
                name = name;
                stack_base = stack;
                stack_ptr = stack_ptr;
                stack_bytes = min_stack_size;
                priority = prio_idle;
                base_priority = prio_idle;
                id = 0;
                delay_ticks = 0;
                core_affinity = 1;
                state = ready;
              }),
            )
          ])
      framed none = record { kernel = inv }
      framed (some stack_ptr) = record {
        kernel = idle_ready _ refl refl refl refl (waits_on_none inv (idle k) inv.idle_awake);
      }
