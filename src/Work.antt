-- ===== src/Work.antt =====
-- core/os_work.c: the registry of submitted calls.
pub mod Bag
pub mod Fetch
pub mod Next
pub mod Quiet
use ahura_kernel.Prelude.{
  ℕ, zero, suc, ◌+◌, ◌-◌, ◌*◌, ◌/◌, ◌^◌, Bool, true, false, not, ◌&&◌, ◌||◌, ltb, leb, ◌==◌,
  if◌then◌else◌, Option, none, some, List, [], length, update,
}
use ahura_kernel.Task.State.{Kernel, Task, Status, ok, invalid_arg, full, wait_forever}
use ahura_kernel.Task.Wake.{wake_locked}
use ahura_kernel.Task.Wait.{sleep_ticks}
use ahura_kernel.Queue.Bytes.{Memory, copy_in, copy_out}

-- `os_work_entry_t`; a slot is free if its handler is 0, the NULL function.
pub record Entry : Type 0 where
  pub handler : ℕ
  pub delay_ticks : ℕ
  pub len : ℕ
  pub ready : Bool
  pub payload : Memory

-- The registry by slot, OS_CONFIG_MAX_WORKS, OS_CONFIG_WORK_PAYLOAD_SIZE, OS_CONFIG_TICK_HZ and the
-- work task.
pub record Works : Type 0 where
  pub max_works : ℕ
  pub payload_size : ℕ
  pub tick_hz : ℕ
  pub entry : ℕ → Entry
  pub work_task : Task

-- OS_TICKS_SATURATE and OS_TICKS_FROM_MS
abbrev pub ticks_saturate : ℕ → ℕ
ticks_saturate ticks = if leb wait_forever ticks then wait_forever - 1 else ticks

unfoldable pub ticks_from_ms : ℕ → ℕ → ℕ
ticks_from_ms hz ms = ticks_saturate ((ms * hz + 999) / 1000)

-- The loop of os_work_registry_slot_free, with `n` slots left from slot `i` on.
unfoldable pub free_from : ℕ → ℕ → Works → Option ℕ
free_from zero i w = none
free_from (suc n) i w = if (w.entry i).handler == 0 then some i else free_from n (i + 1) w

-- os_work_registry_slot_free; `none` is OS_CONFIG_MAX_WORKS.
unfoldable pub slot_free : Works → Option ℕ
unfolding free_from
slot_free w = free_from w.max_works 0 w

abbrev pub set_entry : ℕ → Entry → Works → Works
set_entry i e w = record w { entry = update w.entry i e }

-- The entry that os_work_submit fills in. The bytes behind the payload keep what they were.
unfoldable pub filled : (handler : ℕ) → List ℕ → (delay_ticks : ℕ) → Entry → Entry
filled handler bytes delay_ticks e = record {
  handler = handler;
  delay_ticks = delay_ticks;
  len = length bytes;
  ready = delay_ticks == 0;
  payload = copy_in 0 bytes e.payload;
}

-- os_work_submit; `is_null` is whether the pointer to the payload is NULL.
unfoldable pub submit :
    (handler : ℕ) → List ℕ → Bool → (delay_ms : ℕ) → Works → Kernel → Status × Works × Kernel
unfolding slot_free filled ticks_from_ms
submit handler bytes is_null delay_ms w k =
    let delay_ticks = ticks_from_ms w.tick_hz delay_ms in
    if not (handler == 0)
      && (not (delay_ms == wait_forever)
          && (leb (length bytes) w.payload_size && (length bytes == 0 || not is_null)))
    then elim (slot_free w) [
      | none ↦ (full, w, k)
      | some slot ↦ (
        ok,
        set_entry slot (filled handler bytes delay_ticks (w.entry slot)) w,
        if delay_ticks == 0 then wake_locked w.work_task k else k,
      )
    ]
    else (invalid_arg, w, k)

-- The registry that os_work_system_init leaves
unfoldable pub cleared : Works → Works
cleared w = record w {
  entry = λ i. record (w.entry i) { handler = 0; delay_ticks = 0; len = 0; ready = false };
}

-- What os_work_tick_process does with a slot.
unfoldable pub tick_entry : ℕ → Entry → Entry
tick_entry elapsed_ticks e =
    if e.handler == 0 || e.ready
    then e
    else if ltb elapsed_ticks e.delay_ticks
    then record e { delay_ticks = e.delay_ticks - elapsed_ticks }
    else record e { delay_ticks = 0; ready = true }

-- Whether it makes the slot's call ready.
abbrev pub expires : ℕ → Entry → Bool
expires elapsed_ticks e = not (e.handler == 0 || e.ready) && not (ltb elapsed_ticks e.delay_ticks)

-- The loop of os_work_tick_process, with whether the work task is to be woken.
unfoldable pub process_from : ℕ → ℕ → ℕ → Works → Bool × Works
unfolding tick_entry
process_from zero i elapsed_ticks w = (false, w)
process_from (suc n) i elapsed_ticks w =
    let (woken, w') =
      process_from n (i + 1) elapsed_ticks (set_entry i (tick_entry elapsed_ticks (w.entry i)) w) in
    (expires elapsed_ticks (w.entry i) || woken, w')

-- os_work_tick_process
unfoldable pub work_tick_process : ℕ → Works → Kernel → Works × Kernel
unfolding process_from
work_tick_process elapsed_ticks w k =
    let (wake_needed, w') = process_from w.max_works 0 elapsed_ticks w in
    if ltb 0 elapsed_ticks
    then (w', if wake_needed then wake_locked w.work_task k else k)
    else (w, k)

-- The loop of os_work_next_ready_ticks_get
unfoldable pub next_from : ℕ → ℕ → ℕ → Works → ℕ
next_from zero i minimum w = minimum
next_from (suc n) i minimum w =
    let e = w.entry i in
    let minimum' =
      (if e.handler == 0
        then minimum
        else if ltb e.delay_ticks minimum
        then e.delay_ticks
        else minimum) in
    let rest = next_from n (i + 1) minimum' w in if not (e.handler == 0) && e.ready then 0 else rest

-- os_work_next_ready_ticks_get
unfoldable pub next_ready_ticks_get : Works → ℕ
unfolding next_from
next_ready_ticks_get w = next_from w.max_works 0 (2 ^ 32 - 1) w

-- The fields that os_work_ready_fetch writes.
abbrev pub emptied : Entry → Entry
emptied e = record e { handler = 0; delay_ticks = 0; len = 0; ready = false }

-- The loop of os_work_ready_fetch: the handler and payload of the first call that is ready.
unfoldable pub fetch_from : ℕ → ℕ → Works → Option (ℕ × List ℕ) × Works
fetch_from zero i w = (none, w)
fetch_from (suc n) i w =
    let e = w.entry i in
    let rest = fetch_from n (i + 1) w in
    if not (e.handler == 0) && e.ready
    then (some (e.handler, copy_out 0 e.len e.payload), set_entry i (emptied e) w)
    else rest

-- os_work_ready_fetch
unfoldable pub ready_fetch : Works → Option (ℕ × List ℕ) × Works
unfolding fetch_from
ready_fetch w = fetch_from w.max_works 0 w

-- The loop of os_work_ready_exists
unfoldable pub exists_from : ℕ → ℕ → Works → Bool
exists_from zero i w = false
exists_from (suc n) i w =
    not ((w.entry i).handler == 0) && (w.entry i).ready || exists_from n (i + 1) w

-- os_work_ready_exists
unfoldable pub ready_exists : Works → Bool
unfolding exists_from
ready_exists w = exists_from w.max_works 0 w

-- One round of os_work_task_entry: the call that it makes, or how the task blocks.
unfoldable pub work_round : Works → Kernel → Option (ℕ × List ℕ) × Works × Kernel
unfolding ready_fetch ready_exists
work_round w k =
    let (found, w') = ready_fetch w in
    elim found [
      | some c ↦ (some c, w', k)
      | none ↦ (none, w', if not (ready_exists w') then sleep_ticks wait_forever k else k)
    ]
