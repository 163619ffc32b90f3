-- ===== src/Task/Switch/Swap.antt =====
-- The PendSV exception keeps the invariant.
use ahura_kernel.Prelude.{
  ℕ, ◌≡◌, ◌≤◌, ◌≢◌, refl, sym, ap, subst, ◌∙◌, true, false, not, ◌&&◌, Option, none, some, arith,
  ◌==◌, if◌then◌else◌, if_cases, Option-cases, Bool-cases, inl, inr, is, remove,
}
use ahura_kernel.Task.State.{
  Kernel, Tcb, Task, TaskState, inactive, ready, running, blocked, suspended, wait_forever, set_tcb,
  idle, is_ready, is_run, core_count,
}
use ahura_kernel.Task.Sched.{
  make_ready, clear_if_empty, leave_ready, leave_state_list, leave_wait_list, unlink,
}
use ahura_kernel.Task.Switch.{
  release_core, stack_save_current, pick, dispatch, locked_current, stack_select_next, pend_sv,
}
use ahura_kernel.Task.Switch.Pick.{First, First-above, none_ready, pick-First, pick-none}
use ahura_kernel.Task.Inv.{IsValid, IsValidWithout}
use ahura_kernel.Task.Inv.Insert.{Sorted-change}
use ahura_kernel.Task.Inv.Still.{waits_on_none, idle_out}
use ahura_kernel.Task.Inv.Lists.{set_out-Inv, set_tcb-Inv, make_ready-IsValid, settle-IsValid}
use ahura_kernel.Task.Inv.Unlink.{unlink-Inv}
use ahura_kernel.Task.Inv.Request.{flags-Inv}
use ahura_kernel.Task.Inv.Join.{out_of_lists-Inv}

-- No task is RUNNING.
abbrev pub NoneRuns : Kernel → Type 0
NoneRuns k = (u : Task) → is_run (k.tcb u).state ≡ false

-- What holds after os_task_stack_save_current: the invariant, and nothing runs, unless the
-- scheduler lock keeps the current task.
pub record Saved (k : Kernel) : Type 0 where
  pub valid : IsValid k
  pub stopped : locked_current k ≡ none → NoneRuns k

no_wait_list : (t : Task) (k : Kernel) → (k.tcb t).wait_list ≡ none → leave_wait_list t k ≡ k
unfolding leave_wait_list
no_wait_list t k e = rw (e, leave_wait_list) refl

leave_ready-tcb : (t : Task) (k : Kernel) (u : Task) → (leave_ready t k).tcb u ≡ k.tcb u
unfolding leave_ready clear_if_empty
leave_ready-tcb t k u = ground arith

module _ {k : Kernel} (inv : IsValid k) where
  -- A READY task's only list is its ready list.
  unlink-ready : (t : Task) → is_ready (k.tcb t).state ≡ true → unlink t k ≡ leave_ready t k
  unfolding unlink leave_state_list
  unlink-ready t r =
      ap (leave_wait_list t) (ready_branch (k.tcb t).state r)
      ∙ no_wait_list t (leave_ready t k) (
          ap (λ (c : Tcb). c.wait_list) (leave_ready-tcb t k t)
          ∙ waits_on_none inv t (ground arith))
    where
      ready_branch :
          (s : TaskState)
          → is_ready s ≡ true
          → elim s [
            | ready ↦ leave_ready t k
            | blocked ↦
                if (k.tcb t).delay_ticks == wait_forever
                then k
                else record k { delay_list = remove t k.delay_list }
            | _ ↦ k
          ]
            ≡ leave_ready t k
      ready_branch ready h = refl
      ready_branch inactive h = absurd (cc h)
      ready_branch running h = absurd (cc h)
      ready_branch blocked h = absurd (cc h)
      ready_branch suspended h = absurd (cc h)

dispatch-IsValid :
    (t : Task) {k : Kernel}
    → IsValidWithout t k
    → NoneRuns k
    → (k.tcb t).wait_list ≡ none
    → IsValid (dispatch t k)
unfolding dispatch
dispatch-IsValid t {k} v stopped nw = record {
  ready_count = λ p u. ground (arith, v.ready_count p u);
  delay_count = λ u. ground (arith, v.delay_count u);
  wait_count = λ w u. ground (arith, v.wait_count w u);
  bitmap = v.bitmap;
  bitmap_small = v.bitmap_small;
  priority_small = λ u. ground (arith, v.priority_small u);
  base_small = λ u. ground (arith, v.base_small u);
  delay_small = λ u. ground (arith, v.delay_small u);
  sorted = λ w. Sorted-change _ _ (k.waiters w) (λ u h. ground arith) (v.sorted w);
  waits_blocked = λ w u h. ground (arith, v.waits_blocked w u);
  runs = λ u h. ground (arith, stopped u);
  idle_awake = ground (arith, v.idle_awake);
}

module _ (t : Task) {k : Kernel} (inv : IsValid k) where
  release_core-IsValid : IsValid (release_core t k)
  unfolding release_core
  release_core-IsValid =
      let c : Tcb = record (k.tcb t) { running_core = core_count } in
      let v : IsValid (set_tcb k t c) = set_tcb-Inv inv t c (ground arith) in
      if_cases IsValid (is_run (k.tcb t).state)
        (λ run.
          if_cases IsValid (t == idle k) (λ e. idle_settles (set_tcb k t c) v (ground arith))
            (λ ne.
              make_ready-IsValid (out_of_lists-Inv t v (ground arith) (ground arith))
                (waits_on_none v t (ground arith)) (ground arith)))
        (λ _. v)
    where
      idle_settles :
          (k' : Kernel)
          → IsValid k'
          → t ≡ idle k'
          → IsValid (set_tcb k' t (record (k'.tcb t) { state = ready }))
      idle_settles k' v e =
          let w : IsValidWithout t k' =
            subst (λ (u : Task). IsValidWithout u k') (sym e) (idle_out v) in
          settle-IsValid
            (set_out-Inv w (record (k'.tcb t) { state = ready })
              (record {
                priority_small = v.priority_small t;
                base_small = v.base_small t;
                delay_small = v.delay_small t;
                waits_blocked = λ x h. ground (arith, v.waits_blocked x t, v.idle_awake);
                runs = λ h. absurd (cc h);
                idle_awake = λ h. refl;
              }))
            (ground (arith, waits_on_none v t, v.idle_awake)) (ground arith) (ground arith)

  -- os_task_stack_save_current leaves no task RUNNING, if `t` is the current one.
  release_core-NoneRuns : is k.current t ≡ true → NoneRuns (release_core t k)
  unfolding release_core make_ready
  release_core-NoneRuns e u = ground (arith, inv.runs u)

locked_keeps :
    (t : Task) (k : Kernel)
    → k.current ≡ some t
    → (is_run (k.tcb t).state && not (k.lock_count == 0)) ≡ true
    → locked_current k ≡ some t
unfolding locked_current
locked_keeps t k e h = rw (e, locked_current) (ground arith)

module _ {k : Kernel} (inv : IsValid k) where
  pub save-Saved : (stack_ptr : ℕ) → Saved (stack_save_current stack_ptr k)
  unfolding stack_save_current
  save-Saved stack_ptr = elim (Option-cases k.current) [
    | inl e ↦
        rw (e, stack_save_current)
          (record { valid = inv; stopped = λ _ u. ground (arith, inv.runs u) })
    | inr (t, e) ↦ rw (e, stack_save_current) (saved t e)
  ]
    where
      saved :
          (t : Task)
          → k.current ≡ some t
          → let k' = set_tcb k t (record (k.tcb t) { stack_ptr = stack_ptr }) in
            Saved (
              if is_run (k'.tcb t).state && not (k'.lock_count == 0)
              then record k' { switch_pending = true }
              else release_core t k')
      saved t e =
          let c : Tcb = record (k.tcb t) { stack_ptr = stack_ptr } in
          let v : IsValid (set_tcb k t c) = set_tcb-Inv inv t c (ground arith) in
          if_cases Saved (is_run ((set_tcb k t c).tcb t).state && not (k.lock_count == 0))
            (λ h. record {
              valid = flags-Inv v true k.switch_requested;
              stopped = λ n.
                  absurd
                    (cc (locked_keeps t (record (set_tcb k t c) { switch_pending = true }) e h, n));
            })
            (λ h. record {
              valid = release_core-IsValid t v;
              stopped = λ _. release_core-NoneRuns t v (ground arith);
            })

-- What the exception returns: the stack pointer of the task that runs from now on, with a fresh
-- quantum, such that no READY task but the idle one is above it.
pub record Switched (r : ℕ × Kernel) : Type 0 where
  pub next : Task
  pub current : r.1.current ≡ some next
  pub running : is_run (r.1.tcb next).state ≡ true
  pub stack : r.0 ≡ (r.1.tcb next).stack_ptr
  pub quantum : r.1.slice_left ≡ r.1.time_slice_ticks
  pub top :
      (u : Task)
      → is_ready (r.1.tcb u).state ≡ true
      → u ≢ idle r.1
      → (next ≢ idle r.1) × ((r.1.tcb u).priority ≤ (r.1.tcb next).priority)

-- The same, with the invariant.
record Selected (r : ℕ × Kernel) : Type 0 where
  valid : IsValid r.1
  switched : Switched r

-- The result of the last lines of os_task_stack_select_next.
abbrev pub resumed : Task × Kernel → ℕ × Kernel
resumed (t, k) = ((k.tcb t).stack_ptr, dispatch t k)

dispatch-Switched :
    (t : Task) (k : Kernel)
    → ((u : Task)
        → is_ready (k.tcb u).state ≡ true
        → u ≢ idle k
        → (t ≢ idle k) × ((k.tcb u).priority ≤ (k.tcb t).priority))
    → Switched (resumed (t, k))
unfolding dispatch
dispatch-Switched t k top = record {
  next = t;
  current = refl;
  running = ground arith;
  stack = ground arith;
  quantum = refl;
  top = λ u r real. ground (arith, top u);
}

leave_ready-config : (t : Task) (k : Kernel) → (leave_ready t k).config ≡ k.config
unfolding leave_ready clear_if_empty
leave_ready-config t k = ground arith

module _ {k : Kernel} (inv : IsValid k) (stopped : NoneRuns k) where
  select_idle : k.ready_bitmap ≡ 0 → Selected (resumed (idle k, k))
  select_idle none_set = record {
    valid =
        dispatch-IsValid (idle k) (idle_out inv) stopped
          (waits_on_none inv (idle k) inv.idle_awake);
    switched =
        dispatch-Switched (idle k) k (λ u r real. absurd (real (none_ready inv none_set u r)));
  }

  select-First : (t : Task) → First k t → Selected (resumed (t, leave_ready t k))
  select-First t first = record {
    valid =
        dispatch-IsValid t
          (subst (IsValidWithout t) (unlink-ready inv t first.state) (unlink-Inv t inv first.real))
          (λ u. ground (arith, leave_ready-tcb t k u, stopped u))
          (ground (arith, leave_ready-tcb t k t, waits_on_none inv t));
    switched = dispatch-Switched t (leave_ready t k) (λ u r real. ground (
      arith,
      leave_ready-tcb t k t,
      leave_ready-tcb t k u,
      leave_ready-config t k,
      first.real,
      First-above inv t first u,
    ));
  }

  select-Selected : Selected (resumed (pick 33 k.ready_bitmap k))
  select-Selected = elim (Bool-cases (k.ready_bitmap == 0)) [
    | inl h ↦ rw (pick-none inv 33 (ground arith)) (select_idle (ground arith))
    | inr h ↦ let (t, first, e) = pick-First inv 32 (ground arith) in rw e (select-First t first)
  ]

-- os_task_stack_select_next after os_task_stack_save_current: the invariant holds, and unless the
-- scheduler lock hands the current task straight back, the choice is as `Switched` says.
record Chosen (r : ℕ × Kernel) (locked : Option Task) : Type 0 where
  valid : IsValid r.1
  switched : locked ≡ none → Switched r

pub unlocked_none : (k : Kernel) → k.lock_count ≡ 0 → locked_current k ≡ none
unfolding locked_current
unlocked_none k h = ground arith

pub save-lock_count :
    (stack_ptr : ℕ) (k : Kernel) → (stack_save_current stack_ptr k).lock_count ≡ k.lock_count
unfolding stack_save_current release_core make_ready
save-lock_count stack_ptr k = ground arith

module _ {k : Kernel} (saved : Saved k) where
  select_next-Chosen : Chosen (stack_select_next k) (locked_current k)
  unfolding stack_select_next
  select_next-Chosen = elim (Option-cases (locked_current k)) [
    | inl e ↦
        let s : Selected (resumed (pick 33 k.ready_bitmap k)) =
          select-Selected saved.valid (saved.stopped e) in
        rw (e, stack_select_next) (record { valid = s.valid; switched = λ _. s.switched })
    | inr (t, e) ↦
        rw (e, stack_select_next) (record { valid = saved.valid; switched = λ n. absurd (cc n) })
  ]

module _ {k : Kernel} (inv : IsValid k) where
  -- The PendSV exception keeps the invariant.
  pub pend_sv-IsValid : (stack_ptr : ℕ) → IsValid (pend_sv stack_ptr k).1
  unfolding pend_sv
  pend_sv-IsValid stack_ptr =
      (select_next-Chosen (save-Saved (flags-Inv inv k.switch_pending false) stack_ptr)).valid

  -- With the scheduler unlocked, the PendSV exception gives the core to a task that no READY task
  -- but the idle one is above, and to the idle task only if no other task is READY.
  pub pend_sv-Switched : (stack_ptr : ℕ) → k.lock_count ≡ 0 → Switched (pend_sv stack_ptr k)
  unfolding pend_sv
  pend_sv-Switched stack_ptr unlocked =
      (select_next-Chosen (save-Saved (flags-Inv inv k.switch_pending false) stack_ptr)).switched (
        unlocked_none (stack_save_current stack_ptr (record k { switch_requested = false }))
          (ground (arith, save-lock_count stack_ptr (record k { switch_requested = false }))))
