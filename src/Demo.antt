-- ===== src/Demo.antt =====
-- A small system for the tests: two tasks of the application beside the idle task.
use ahura_kernel.Prelude.{
  ℕ, ◌≡◌, ◌<◌, ◌≢◌, refl, subst, true, false, Option, none, some, [], ◌∷◌, is_empty, arith,
}
use ahura_kernel.Prelude.Bits.{complement}
use ahura_kernel.Task.State.{Kernel, Tcb, Task, inactive, core_count, is_run, idle, tcb_clear}
use ahura_kernel.Task.Sched.{
  make_ready, clear_if_empty, leave_ready, leave_state_list, leave_wait_list, unlink,
  switch_request, preempt_request, preempt_if_running, running_core_of, find_from, find_by_id,
  insert_by, wait_node_insert,
}
use ahura_kernel.Task.Create.{
  Handle, TaskConfig, create_args_valid, stack_initialize, free_slot_from, skip_ids, new_tcb, claim,
  create_with, create_any, create, system_init, idle_create,
}
use ahura_kernel.Task.Control.{start_task, start}
use ahura_kernel.Task.Wait.{delay_if_finite, wait_on, wait_data_set, wait_begin, can_block}
use ahura_kernel.Task.Tick.{min_delay, next_delay_ticks_get}
use ahura_kernel.Task.Switch.{
  release_core, stack_save_current, highest_bit_get, pick, dispatch, locked_current,
  stack_select_next, pend_sv,
}
use ahura_kernel.Task.Step.{
  Reach, init, next, creates, starts, switches, starts_scheduler, waits, Reach-IsValid,
}
use ahura_kernel.Lock.{start_scheduler}
use ahura_kernel.Task.Inv.{IsValid}
use ahura_kernel.Task.Inv.Wait.{Executing, wait_begin-IsValid, wait_data_set-IsValid}
use ahura_kernel.Sync.{Budget, must_not_wait}

abbrev blank : Tcb
blank = record {
  name = 0;
  stack_base = 0;
  stack_ptr = 0;
  stack_bytes = 0;
  priority = 0;
  id = 0;
  delay_ticks = 0;
  core_affinity = 0;
  state = inactive;
  running_core = core_count;
  wait_list = none;
  wait_signaled = false;
  system_task = false;
  wait_data0 = 0;
  wait_data1 = 0;
  wait_result = 0;
  woken_from = none;
  base_priority = 0;
  owned_mutexes = [];
  notify = record { value = 0; pending = false; waiting = false };
}

-- The memory before os_init
abbrev pub boot : Kernel
boot = record {
  config = record { table_size = 3; time_slice_ticks = 2 };
  tcb = λ t. blank;
  next_id = 0;
  current = none;
  ready_list = λ p. [];
  ready_bitmap = 0;
  delay_list = [];
  waiters = λ w. [];
  slice_left = 0;
  lock_count = 0;
  switch_pending = false;
  is_running = false;
  in_isr = false;
  switch_requested = false;
  tick_count = 0;
}

abbrev pub handle_at : ℕ → Option Handle
handle_at stack = some (record {
  id = 0;
  storage = some (record { name = 7; stack_memory = stack; stack_bytes = 512 });
})

abbrev pub config_at : ℕ → Option TaskConfig
config_at p = some (record { entry = 100; context = 0; priority = p; core_affinity = 0 })

-- After os_init
abbrev pub idle_only : Kernel
idle_only = (idle_create 1 4096 99 (system_init boot)).1

-- Task 1 at level 5 and task 2 at level 9, both started
abbrev pub created : Kernel
created =
    (create (handle_at 16384) (config_at 9) (create (handle_at 8192) (config_at 5) idle_only).2).2

abbrev pub started : Kernel
started = start_scheduler (start (some 2) (start (some 1) created).1).1

-- Task 2 runs.
abbrev pub running_two : Kernel
running_two = (pend_sv 0 started).1

pub started-Reach : Reach boot 1 4096 99 started
started-Reach =
    next
      (next
        (next
          (next (next init (creates (handle_at 8192) (config_at 5)))
            (creates (handle_at 16384) (config_at 9)))
          (starts (some 1)))
        (starts (some 2)))
      starts_scheduler

pub started-IsValid : IsValid started
started-IsValid = Reach-IsValid boot 1 4096 99 (λ w. refl) started-Reach

pub running_two-Reach : Reach boot 1 4096 99 running_two
running_two-Reach = next started-Reach (switches 0)

pub running_two-IsValid : IsValid running_two
running_two-IsValid = Reach-IsValid boot 1 4096 99 (λ w. refl) running_two-Reach

-- Task 2 waits for the list 50, for at most 10 ticks.
abbrev pub waiting : Kernel
waiting = wait_begin 50 10 running_two

-- Task 2 waits for the event at 50, for both bits of 6.
abbrev pub asking : Kernel
asking = wait_begin 50 10 (wait_data_set 6 1 running_two)

-- The wait of a call with a timeout of 10 ticks.
abbrev pub ten_ticks : Budget
ten_ticks = record { timeout_ms = 10; budget_ticks = 10; start_tick = 0; remaining_ticks = 10 }

-- What the kernels of this module compute to.
pub record Facts : Type 0 where
  pub unlocked : started.lock_count ≡ 0
  pub current : running_two.current ≡ some 1
  pub two_runs : is_run (running_two.tcb 1).state ≡ true
  pub idle_last : idle running_two ≡ 3
  pub two_unlocked : running_two.lock_count ≡ 0
  pub finds_one : find_by_id 1 running_two ≡ some 0
  pub finds_two : find_by_id 2 running_two ≡ some 1
  pub may_wait : must_not_wait ten_ticks running_two ≡ false
  pub waits_first : waiting.waiters 50 ≡ 1 ∷ []
  pub next_id : running_two.next_id ≡ 3
  pub table : running_two.table_size ≡ 3
  pub next_delay : next_delay_ticks_get waiting ≡ 10
  pub asked_bits : (asking.tcb 1).wait_data0 ≡ 6
  pub asked_all : (asking.tcb 1).wait_data1 ≡ 1

pub facts : Facts
unfolding tcb_clear make_ready clear_if_empty leave_ready leave_state_list leave_wait_list unlink
    switch_request preempt_request preempt_if_running running_core_of find_from find_by_id
    release_core stack_save_current highest_bit_get pick dispatch locked_current stack_select_next
    pend_sv create_args_valid stack_initialize free_slot_from skip_ids new_tcb claim create_with
    create_any create system_init idle_create start_task start start_scheduler complement insert_by
    wait_node_insert delay_if_finite wait_on wait_data_set wait_begin can_block min_delay
    next_delay_ticks_get
facts = record {
  unlocked = refl;
  current = refl;
  two_runs = refl;
  idle_last = refl;
  two_unlocked = refl;
  finds_one = refl;
  finds_two = refl;
  may_wait = refl;
  waits_first = refl;
  next_id = refl;
  table = refl;
  next_delay = refl;
  asked_bits = refl;
  asked_all = refl;
}

pub two_executes : Executing running_two
two_executes t e ne =
    subst (λ (u : Task). is_run (running_two.tcb u).state ≡ true) (ground (arith, e, facts.current))
      facts.two_runs

pub waiting-IsValid : IsValid waiting
waiting-IsValid =
    Reach-IsValid boot 1 4096 99 (λ w. refl)
      (next running_two-Reach (waits 50 10 two_executes (omega arith)))

data_set-executes : Executing (wait_data_set 6 1 running_two)
unfolding wait_data_set
data_set-executes t e ne = ground (arith, two_executes t)

pub asking-IsValid : IsValid asking
asking-IsValid =
    wait_begin-IsValid 50 10 (wait_data_set-IsValid 6 1 running_two-IsValid) data_set-executes
      (omega arith)

-- Both tasks at level 5; the first runs, and the second is its peer.
abbrev pub peers : Kernel
peers =
    start_scheduler
      (start (some 2)
        (start (some 1)
          (create (handle_at 16384) (config_at 5)
            (create (handle_at 8192) (config_at 5) idle_only).2).2).1).1

abbrev pub running_peer : Kernel
running_peer = (pend_sv 0 peers).1

pub running_peer-IsValid : IsValid running_peer
running_peer-IsValid =
    Reach-IsValid boot 1 4096 99 (λ w. refl)
      (next
        (next
          (next
            (next
              (next (next init (creates (handle_at 8192) (config_at 5)))
                (creates (handle_at 16384) (config_at 5)))
              (starts (some 1)))
            (starts (some 2)))
          starts_scheduler)
        (switches 0))

pub record PeerFacts : Type 0 where
  pub current : running_peer.current ≡ some 0
  pub runs : is_run (running_peer.tcb 0).state ≡ true
  pub real : 0 ≢ idle running_peer
  pub unlocked : running_peer.lock_count ≡ 0
  pub queue : running_peer.ready_list (running_peer.tcb 0).priority ≡ 1 ∷ []
  pub none_above :
      (p : ℕ)
      → (running_peer.tcb 0).priority < p
      → p < 32
      → is_empty (running_peer.ready_list p) ≡ true

pub peer_facts : PeerFacts
unfolding tcb_clear make_ready clear_if_empty leave_ready leave_state_list leave_wait_list unlink
    switch_request preempt_request preempt_if_running running_core_of find_from find_by_id
    release_core stack_save_current highest_bit_get pick dispatch locked_current stack_select_next
    pend_sv create_args_valid stack_initialize free_slot_from skip_ids new_tcb claim create_with
    create_any create system_init idle_create start_task start start_scheduler complement insert_by
    wait_node_insert delay_if_finite wait_on wait_data_set wait_begin can_block min_delay
    next_delay_ticks_get
peer_facts = record {
  current = refl;
  runs = refl;
  real = omega arith;
  unlocked = refl;
  queue = refl;
  none_above = λ p above h. ground arith;
}
