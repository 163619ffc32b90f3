-- ===== src/Task/Create.antt =====
-- core/os_task.c: initialization, the idle task, and task creation.
pub mod Fresh
use ahura_kernel.Prelude.{
  ℕ, zero, suc, ◌+◌, ◌-◌, ◌*◌, ◌/◌, ◌%◌, ◌^◌, Bool, true, false, not, ◌&&◌, ◌||◌, Option, none,
  some, [], ltb, ◌==◌, if◌then◌else◌,
}
use ahura_kernel.Task.State.{
  Kernel, Tcb, Task, Status, ok, error, invalid_arg, full, ready, suspended, set_tcb, idle,
  prio_idle, prio_lowest, prio_highest, prio_max, core_count, is_inactive, tcb_clear,
}
use ahura_kernel.Task.Sched.{find_by_id}

-- `os_task_storage_t`; 0 is the NULL pointer.
pub record Storage : Type 0 where
  pub name : ℕ
  pub stack_memory : ℕ
  pub stack_bytes : ℕ

-- `os_task_t`
pub record Handle : Type 0 where
  pub id : ℕ
  pub storage : Option Storage

-- `os_task_config_t`; 0 is the NULL entry.
pub record TaskConfig : Type 0 where
  pub entry : ℕ
  pub context : ℕ
  pub priority : ℕ
  pub core_affinity : ℕ

-- `OS_CONFIG_MIN_STACK_SIZE` and `OS_ARCH_STACK_ALIGNMENT_BYTES`
abbrev pub min_stack_size : ℕ
min_stack_size = 256

abbrev pub stack_alignment : ℕ
stack_alignment = 4

-- os_arch_task_stack_initialize of the ARMv7-M port: the stack pointer below the 17 words of the
-- initial frame, which stands at an 8-byte boundary. Addresses are 32-bit words.
unfoldable pub stack_initialize : ℕ → ℕ → ℕ → Option ℕ
stack_initialize stack_base stack_bytes entry =
    if stack_base == 0 || entry == 0 || ltb stack_bytes min_stack_size
    then none
    else some (((stack_base + stack_bytes) % 2 ^ 32 / 8 * 8 + 2 ^ 32 - 17 * 4) % 2 ^ 32)

-- The loop of os_task_create_any over the table: the first inactive slot.
unfoldable pub free_slot_from : ℕ → ℕ → Kernel → Option Task
free_slot_from zero i k = none
free_slot_from (suc n) i k =
    if is_inactive (k.tcb i).state then some i else free_slot_from n (i + 1) k

-- The loop that skips id 0 and the ids of live tasks, with `n` rounds left.
unfoldable pub skip_ids : ℕ → ℕ → Kernel → ℕ
skip_ids zero id k = id
skip_ids (suc n) id k =
    let rest = skip_ids n ((id + 1) % 2 ^ 32) k in
    if id == 0 then rest else elim (find_by_id id k) [ none ↦ id | some t ↦ rest ]

-- The fields that os_task_create_any writes.
unfoldable pub new_tcb : Storage → TaskConfig → Bool → ℕ → ℕ → Tcb → Tcb
new_tcb s config system_task stack_ptr id c = record c {
  name = s.name;
  stack_base = s.stack_memory;
  stack_ptr = stack_ptr;
  stack_bytes = s.stack_bytes;
  priority = config.priority;
  base_priority = config.priority;
  id = id;
  delay_ticks = 0;
  core_affinity = config.core_affinity;
  system_task = system_task;
  state = suspended;
}

-- The part of os_task_create_any that claims slot `t`. Of the `table_size` live ids and 0, one of
-- the next `table_size + 2` candidates is free.
unfoldable pub claim : Task → Handle → Storage → TaskConfig → Bool → ℕ → Kernel → Handle × Kernel
unfolding new_tcb
claim t h s config system_task stack_ptr k =
    let id = skip_ids (k.table_size + 2) k.next_id k in
    let next = (id + 1) % 2 ^ 32 in
    (
      record h { id = id },
      record (set_tcb k t (new_tcb s config system_task stack_ptr id (k.tcb t))) {
        next_id = if next == 0 then 1 else next;
      },
    )

-- The checks at the start of os_task_create_any.
unfoldable pub create_args_valid : Storage → TaskConfig → Bool
create_args_valid s config =
    not (config.entry == 0)
    && not (ltb prio_max config.priority)
    && not (s.stack_memory == 0)
    && not (ltb s.stack_bytes min_stack_size)
    && config.core_affinity / 2 ^ core_count == 0
    && s.stack_memory % stack_alignment == 0
    && s.stack_bytes % stack_alignment == 0

-- os_task_create_any with a handle that has storage and a config
unfoldable pub create_with :
    Handle → Storage → TaskConfig → Bool → Kernel → Status × Handle × Kernel
unfolding create_args_valid stack_initialize free_slot_from claim
create_with h s config system_task k =
    if not (create_args_valid s config)
    then (invalid_arg, h, k)
    else elim (stack_initialize s.stack_memory s.stack_bytes config.entry) [
      | none ↦ (error, h, k)
      | some stack_ptr ↦ elim (free_slot_from k.table_size 0 k) [
        | none ↦ (full, h, k)
        | some t ↦ let (h', k') = claim t h s config system_task stack_ptr k in (ok, h', k')
      ]
    ]

-- os_task_create_any; a `none` argument is NULL, and an absent handle stays absent.
unfoldable pub create_any :
    Option Handle → Option TaskConfig → Bool → Kernel → Status × Option Handle × Kernel
unfolding create_with
create_any none config system_task k = (invalid_arg, none, k)
create_any (some h) none system_task k = (invalid_arg, some h, k)
create_any (some h) (some config) system_task k = elim h.storage [
  | none ↦ (invalid_arg, some h, k)
  | some s ↦ let (status, h', k') = create_with h s config system_task k in (status, some h', k')
]

-- os_task_create
unfoldable pub create : Option Handle → Option TaskConfig → Kernel → Status × Option Handle × Kernel
unfolding create_any
create h none k = (invalid_arg, h, k)
create h (some config) k =
    if ltb config.priority prio_lowest || ltb prio_highest config.priority
    then (invalid_arg, h, k)
    else create_any h (some config) false k

-- os_task_create_system
unfoldable pub create_system :
    Option Handle → Option TaskConfig → Kernel → Status × Option Handle × Kernel
unfolding create_any
create_system h config k = create_any h config true k

-- os_task_system_init
unfoldable pub system_init : Kernel → Kernel
unfolding tcb_clear
system_init k = record k {
  tcb = λ t. tcb_clear (k.tcb t);
  ready_list = λ p. [];
  ready_bitmap = 0;
  delay_list = [];
  next_id = 1;
  current = none;
  lock_count = 0;
  switch_pending = false;
  slice_left = k.time_slice_ticks;
}

-- os_task_idle_create, given the idle task's stack array and its name
unfoldable pub idle_create : ℕ → ℕ → ℕ → Kernel → Status × Kernel
unfolding stack_initialize
idle_create name stack entry k =
    if not (is_inactive (k.tcb (idle k)).state)
    then (ok, k)
    else elim (stack_initialize stack min_stack_size entry) [
      | none ↦ (error, k)
      | some stack_ptr ↦ (
        ok,
        set_tcb k (idle k) (record (k.tcb (idle k)) {
          name = name;
          stack_base = stack;
          stack_ptr = stack_ptr;
          stack_bytes = min_stack_size;
          priority = prio_idle;
          base_priority = prio_idle;
          id = 0;
          delay_ticks = 0;
          core_affinity = 1;
          state = ready;
        }),
      )
    ]

-- os_task_idle_is_created
unfoldable pub idle_is_created : Kernel → Bool
idle_is_created k = not (is_inactive (k.tcb (idle k)).state)
