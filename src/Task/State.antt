-- ===== src/Task/State.antt =====
-- The data of ahura.h and of core/os_task.c: status codes, task states, task control blocks, and
-- the scheduler's variables.
use ahura_kernel.Prelude.{ℕ, ◌-◌, ◌^◌, Bool, true, false, Option, none, List, [], update}

-- `os_status`
pub data Status : Type 0 where
  ok error invalid_arg empty full busy timeout not_owner no_memory : Status

-- `os_task_state_t`
pub data TaskState : Type 0 where
  inactive ready running blocked suspended : TaskState

-- `OS_WAIT_NOTHING` and `OS_WAIT_FOREVER`
abbrev pub wait_nothing : ℕ
wait_nothing = 0

abbrev pub wait_forever : ℕ
wait_forever = 2 ^ 32 - 1

-- The levels of `os_task_priority_t` that the code names.
abbrev pub prio_idle : ℕ
prio_idle = 0

abbrev pub prio_lowest : ℕ
prio_lowest = 1

abbrev pub prio_highest : ℕ
prio_highest = 30

abbrev pub prio_max : ℕ
prio_max = 31

-- `OS_CONFIG_CORE_COUNT`, which is also the `running_core` of a task that no core runs.
abbrev pub core_count : ℕ
core_count = 1

-- `os_notify_slot_t`
pub record NotifySlot : Type 0 where
  pub value : ℕ
  pub pending : Bool
  pub waiting : Bool

-- A pointer to a task control block: an index below `table_size` is `&os_task_table[index]`, and
-- `table_size` is `&os_task_idle_tcb[0]`.
abbrev pub Task : Type 0
Task = ℕ

-- The address of a kernel object's waiter list (`os_list_t *`).
abbrev pub WaiterList : Type 0
WaiterList = ℕ

-- `os_task_tcb_t`. The two embedded list nodes are the task's places in the lists below. A mutex
-- is named by the address of its waiter list, in `owned_mutexes` too.
pub record Tcb : Type 0 where
  pub name : ℕ
  pub stack_base : ℕ
  pub stack_ptr : ℕ
  pub stack_bytes : ℕ
  pub priority : ℕ
  pub id : ℕ
  pub delay_ticks : ℕ
  pub core_affinity : ℕ
  pub state : TaskState
  pub running_core : ℕ
  pub wait_list : Option WaiterList
  pub wait_signaled : Bool
  pub system_task : Bool
  pub wait_data0 : ℕ
  pub wait_data1 : ℕ
  pub wait_result : ℕ
  pub woken_from : Option WaiterList
  pub base_priority : ℕ
  pub owned_mutexes : List WaiterList
  pub notify : NotifySlot

-- `OS_TASK_TABLE_SIZE` and `OS_CONFIG_TIME_SLICE_TICKS`
pub record Config : Type 0 where
  pub table_size : ℕ
  pub time_slice_ticks : ℕ

-- The variables of core/os_task.c and core/os_kernel.c on a single core, the waiter lists of the
-- kernel objects, the tick counter, and three facts about the processor: whether it serves an
-- interrupt, whether the kernel runs, and whether a context switch is requested.
pub record Kernel : Type 0 where
  pub config : Config
  pub open config use *
  pub tcb : Task → Tcb
  pub next_id : ℕ
  pub current : Option Task
  pub ready_list : ℕ → List Task
  pub ready_bitmap : ℕ
  pub delay_list : List Task
  pub waiters : WaiterList → List Task
  pub slice_left : ℕ
  pub lock_count : ℕ
  pub switch_pending : Bool
  pub is_running : Bool
  pub in_isr : Bool
  pub switch_requested : Bool
  pub tick_count : ℕ

-- `&os_task_idle_tcb[0]`
abbrev pub idle : Kernel → Task
idle k = k.table_size

-- `*t = c`
abbrev pub set_tcb : Kernel → Task → Tcb → Kernel
set_tcb k t c = record k { tcb = update k.tcb t c }

abbrev pub is_ready : TaskState → Bool
is_ready ready = true
is_ready _ = false

abbrev pub is_run : TaskState → Bool
is_run running = true
is_run _ = false

abbrev pub is_blocked : TaskState → Bool
is_blocked blocked = true
is_blocked _ = false

abbrev pub is_inactive : TaskState → Bool
is_inactive inactive = true
is_inactive _ = false

-- os_task_tcb_clear. Popping the owned mutexes one by one leaves their list empty.
unfoldable pub tcb_clear : Tcb → Tcb
tcb_clear c = record {
  name = 0;
  stack_base = 0;
  stack_ptr = 0;
  stack_bytes = 0;
  priority = 0;
  id = 0;
  delay_ticks = 0;
  core_affinity = 0;
  state = inactive;
  running_core = core_count;
  wait_list = none;
  wait_signaled = false;
  system_task = false;
  wait_data0 = 0;
  wait_data1 = 0;
  wait_result = 0;
  woken_from = none;
  base_priority = 0;
  owned_mutexes = [];
  notify = record { value = 0; pending = false; waiting = false };
}
