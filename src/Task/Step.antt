-- ===== src/Task/Step.antt =====
-- Everything that may happen to the scheduler of core/os_task.c and core/os_kernel.c: the calls of
-- the application and of the other components, the tick, and the PendSV exception, in any order.
use ahura_kernel.Prelude.{
  ℕ, ◌+◌, ◌-◌, ◌%◌, ◌^◌, ◌<◌, ◌≡◌, Bool, true, false, ◌&&◌, ◌||◌, ◌==◌, ltb, if◌then◌else◌,
  if_cases, Option, [],
}
use ahura_kernel.Task.State.{Kernel, WaiterList}
use ahura_kernel.Task.Create.{Handle, TaskConfig, create, create_system, system_init, idle_create}
use ahura_kernel.Task.Control.{start, pause, delete, priority_set, yield_now}
use ahura_kernel.Task.Tick.{tick_update}
use ahura_kernel.Task.Switch.{pend_sv, slice_tick}
use ahura_kernel.Task.Wake.{WaitMatch, wake, waiters_wake_one, waiters_wake_all, waiters_wake_match}
use ahura_kernel.Task.Wait.{sleep_ticks, wait_begin, wait_end, wait_data_set}
use ahura_kernel.Task.Inherit.{owner_link, priority_inherit, owner_unlink_and_reprioritize}
use ahura_kernel.Lock.{start_scheduler, lock, unlock, take_pending}
use ahura_kernel.Task.Inv.{IsValid}
use ahura_kernel.Task.Inv.Still.{outside-Inv}
use ahura_kernel.Task.Inv.Calls.{
  start-IsValid, pause-IsValid, delete-IsValid, priority_set-IsValid, yield_now-IsValid,
}
use ahura_kernel.Task.Inv.Create.{
  create-IsValid, create_system-IsValid, system_init-IsValid, idle_create-IsValid,
}
use ahura_kernel.Task.Inv.Tick.{tick_update-IsValid}
use ahura_kernel.Task.Inv.Wake.{wake-IsValid, wake_one-IsValid, wake_all-IsValid}
use ahura_kernel.Task.Inv.Match.{wake_match-IsValid}
use ahura_kernel.Task.Inv.Wait.{
  Executing, wait_begin-IsValid, sleep_ticks-IsValid, wait_end-IsValid, wait_data_set-IsValid,
}
use ahura_kernel.Task.Inv.Priority.{
  owner_link-IsValid, priority_inherit-IsValid, owner_unlink-IsValid,
}
use ahura_kernel.Task.Switch.Swap.{pend_sv-IsValid}

-- One thing that happens. The calls that block their caller are made by a task that executes; the
-- rest may happen at any time.
pub data Step (k : Kernel) : Kernel → Type 0 where
  creates : (h : Option Handle) (config : Option TaskConfig) → Step k (create h config k).2
  creates_system :
      (h : Option Handle) (config : Option TaskConfig) → Step k (create_system h config k).2
  starts : (handle : Option ℕ) → Step k (start handle k).1
  pauses : (handle : Option ℕ) → Step k (pause handle k).1
  deletes : (handle : Option ℕ) → Step k (delete handle k).1
  sets_priority : (handle : Option ℕ) (p : ℕ) → Step k (priority_set handle p k).1
  yields : Step k (yield_now k)
  wakes : (id : ℕ) → Step k (wake id k)
  wakes_one : (w : WaiterList) → Step k (waiters_wake_one w k).1
  wakes_all : (w : WaiterList) → Step k (waiters_wake_all w k)
  wakes_match :
      (w : WaiterList) (m : WaitMatch ℕ) (context : ℕ) → Step k (waiters_wake_match w m context k).2
  sleeps : (ticks : ℕ) → Executing k → ticks < 2 ^ 32 → Step k (sleep_ticks ticks k)
  waits :
      (w : WaiterList) (ticks : ℕ) → Executing k → ticks < 2 ^ 32 → Step k (wait_begin w ticks k)
  ends_wait : Step k (wait_end k)
  sets_wait_data : (data0 data1 : ℕ) → Step k (wait_data_set data0 data1 k)
  links_mutex : (m : WaiterList) → Step k (owner_link m k)
  inherits : (owner_id : ℕ) → Step k (priority_inherit owner_id k)
  unlinks_mutex :
      (owner_id : ℕ) (m : WaiterList) → Step k (owner_unlink_and_reprioritize owner_id m k)
  updates_tick : (elapsed_ticks : ℕ) → Step k (tick_update elapsed_ticks k)
  counts_tick : Step k (record k { tick_count = (k.tick_count + 1) % 2 ^ 32 })
  slices : (elapsed_ticks : ℕ) → Step k (slice_tick elapsed_ticks k)
  switches : (stack_ptr : ℕ) → Step k (pend_sv stack_ptr k).1
  starts_scheduler : Step k (start_scheduler k)
  locks : Step k (lock k)
  unlocks : Step k (unlock k)
  interrupts : (in_isr : Bool) → Step k (record k { in_isr = in_isr })

-- What may be reached from os_init: os_task_system_init, then os_task_idle_create.
pub data Reach (boot : Kernel) (name stack entry : ℕ) : Kernel → Type 0 where
  init : Reach boot name stack entry (idle_create name stack entry (system_init boot)).1
  next :
      {k k' : Kernel} → Reach boot name stack entry k → Step k k' → Reach boot name stack entry k'

lock-IsValid : {k : Kernel} → IsValid k → IsValid (lock k)
unfolding lock
lock-IsValid {k} inv =
    if_cases IsValid k.in_isr (λ _. inv)
      (λ _.
        outside-Inv inv k.slice_left ((k.lock_count + 1) % 2 ^ 32) k.switch_pending k.is_running
          k.in_isr k.switch_requested k.tick_count)

take_pending-IsValid : {k : Kernel} → IsValid k → IsValid (take_pending k)
unfolding take_pending
take_pending-IsValid {k} inv =
    if_cases IsValid (k.switch_pending && k.is_running)
      (λ _. outside-Inv inv k.slice_left k.lock_count false k.is_running k.in_isr true k.tick_count)
      (λ _.
        outside-Inv inv k.slice_left k.lock_count false k.is_running k.in_isr k.switch_requested
          k.tick_count)

unlock-IsValid : {k : Kernel} → IsValid k → IsValid (unlock k)
unfolding unlock
unlock-IsValid {k} inv =
    if_cases IsValid (k.in_isr || k.lock_count == 0) (λ _. inv)
      λ _.
        let v : IsValid (record k { lock_count = k.lock_count - 1 }) =
          outside-Inv inv k.slice_left (k.lock_count - 1) k.switch_pending k.is_running k.in_isr
            k.switch_requested k.tick_count in
        if_cases IsValid (k.lock_count - 1 == 0) (λ _. take_pending-IsValid v) (λ _. v)

pub slice_tick-IsValid : (e : ℕ) {k : Kernel} → IsValid k → IsValid (slice_tick e k)
unfolding slice_tick
slice_tick-IsValid e {k} inv =
    if_cases IsValid (ltb 0 k.time_slice_ticks)
      (λ _.
        outside-Inv inv (if ltb e k.slice_left then k.slice_left - e else 0) k.lock_count
          k.switch_pending k.is_running k.in_isr k.switch_requested k.tick_count)
      (λ _. inv)

-- Whatever happens keeps the invariant.
pub Step-IsValid : {k k' : Kernel} → IsValid k → Step k k' → IsValid k'
unfolding start_scheduler
Step-IsValid inv (creates h config) = (create-IsValid inv h config).kernel
Step-IsValid inv (creates_system h config) = (create_system-IsValid inv h config).kernel
Step-IsValid inv (starts handle) = (start-IsValid inv handle).kernel
Step-IsValid inv (pauses handle) = (pause-IsValid inv handle).kernel
Step-IsValid inv (deletes handle) = (delete-IsValid inv handle).kernel
Step-IsValid inv (sets_priority handle p) = (priority_set-IsValid inv handle p).kernel
Step-IsValid inv yields = yield_now-IsValid inv
Step-IsValid inv (wakes id) = wake-IsValid id inv
Step-IsValid inv (wakes_one w) = wake_one-IsValid w inv
Step-IsValid inv (wakes_all w) = wake_all-IsValid w inv
Step-IsValid inv (wakes_match w m context) = wake_match-IsValid w m context inv
Step-IsValid inv (sleeps ticks ex h) = sleep_ticks-IsValid ticks inv ex h
Step-IsValid inv (waits w ticks ex h) = wait_begin-IsValid w ticks inv ex h
Step-IsValid inv ends_wait = wait_end-IsValid inv
Step-IsValid inv (sets_wait_data data0 data1) = wait_data_set-IsValid data0 data1 inv
Step-IsValid inv (links_mutex m) = owner_link-IsValid m inv
Step-IsValid inv (inherits owner_id) = priority_inherit-IsValid owner_id inv
Step-IsValid inv (unlinks_mutex owner_id m) = owner_unlink-IsValid owner_id m inv
Step-IsValid inv (updates_tick e) = tick_update-IsValid e inv
Step-IsValid {k} inv counts_tick =
    outside-Inv inv k.slice_left k.lock_count k.switch_pending k.is_running k.in_isr
      k.switch_requested ((k.tick_count + 1) % 2 ^ 32)
Step-IsValid inv (slices e) = slice_tick-IsValid e inv
Step-IsValid inv (switches stack_ptr) = pend_sv-IsValid inv stack_ptr
Step-IsValid {k} inv starts_scheduler =
    outside-Inv inv k.slice_left k.lock_count k.switch_pending true k.in_isr k.switch_requested
      k.tick_count
Step-IsValid inv locks = lock-IsValid inv
Step-IsValid inv unlocks = unlock-IsValid inv
Step-IsValid {k} inv (interrupts in_isr) =
    outside-Inv inv k.slice_left k.lock_count k.switch_pending k.is_running in_isr
      k.switch_requested k.tick_count

-- The invariant holds in every kernel that is reached from os_init, by any sequence of calls,
-- interrupts and context switches, if at boot no kernel object has waiters.
pub Reach-IsValid :
    (boot : Kernel) (name stack entry : ℕ) {k : Kernel}
    → ((w : WaiterList) → boot.waiters w ≡ [])
    → Reach boot name stack entry k
    → IsValid k
Reach-IsValid boot name stack entry empty init =
    (idle_create-IsValid (system_init-IsValid boot empty) name stack entry).kernel
Reach-IsValid boot name stack entry empty (next reach step) =
    Step-IsValid (Reach-IsValid boot name stack entry empty reach) step
