-- ===== src/Queue.antt =====
-- core/os_queue.c
pub mod Bytes
pub mod Fifo
pub mod Trace
pub mod Dynamic
use ahura_kernel.Prelude.{
  ℕ, ◌+◌, ◌-◌, ◌*◌, ◌%◌, Bool, true, false, not, ◌&&◌, ◌||◌, ltb, ◌==◌, is_empty, if◌then◌else◌,
  Option, none, some, List, [],
}
use ahura_kernel.Task.State.{
  Kernel, WaiterList, Status, ok, invalid_arg, empty, full, busy, timeout,
}
use ahura_kernel.Task.Wake.{waiters_wake_one}
use ahura_kernel.Task.Wait.{wait_begin, wait_end, wait_signaled}
use ahura_kernel.Sync.{Turn, returns, blocks, Budget, budget_of, recompute, must_not_wait}
use ahura_kernel.Queue.Bytes.{Memory, copy_in, copy_out}

-- `os_queue_t`: the buffer is bound or not, and the waiters are two lists of the kernel.
pub record Queue : Type 0 where
  pub buffer : Memory
  pub is_bound : Bool
  pub item_size : ℕ
  pub capacity : ℕ
  pub head : ℕ
  pub tail : ℕ
  pub count : ℕ
  pub buffer_owned : Bool
  pub send_waiters : WaiterList
  pub receive_waiters : WaiterList

-- The successful branch of os_queue_send: the item is copied into the slot at the tail.
unfoldable pub push : List ℕ → Queue → Queue
push item q = record q {
  buffer = copy_in (q.tail * q.item_size) item q.buffer;
  tail = (q.tail + 1) % q.capacity;
  count = q.count + 1;
}

-- The successful branch of os_queue_receive: the item in the slot at the head, and the queue.
unfoldable pub pop : Queue → List ℕ × Queue
pop q = (
  copy_out (q.head * q.item_size) q.item_size q.buffer,
  record q { head = (q.head + 1) % q.capacity; count = q.count - 1 },
)

-- One round of os_queue_send
unfoldable pub send_round : List ℕ → Budget → Queue → Kernel → Turn × Queue × Kernel
send_round item b q k =
    if ltb q.count q.capacity
    then (returns ok, push item q, wait_end (waiters_wake_one q.receive_waiters k).1)
    else if must_not_wait b k
    then (returns full, q, wait_end k)
    else if b.remaining_ticks == 0
    then (returns timeout, q, wait_end k)
    else (blocks, q, wait_begin q.send_waiters b.remaining_ticks k)

-- os_queue_send up to where it returns or blocks
unfoldable pub send : List ℕ → ℕ → Queue → Kernel → Turn × Queue × Kernel
send item timeout_ms q k = send_round item (budget_of timeout_ms k) q k

-- os_queue_send when its caller runs again: one more round if it was signaled.
unfoldable pub send_resumed : List ℕ → Budget → Queue → Kernel → Budget × Turn × Queue × Kernel
send_resumed item b q k =
    let b' = recompute b k in
    let (turn, q', k') = send_round item b' q k in
    if wait_signaled k then (b', turn, q', k') else (b, returns timeout, q, wait_end k)

-- One round of os_queue_receive, with the item that it writes to `*item_out`
unfoldable pub receive_round : Budget → Queue → Kernel → Turn × Option (List ℕ) × Queue × Kernel
receive_round b q k =
    let (item, q') = pop q in
    if ltb 0 q.count
    then (returns ok, some item, q', wait_end (waiters_wake_one q.send_waiters k).1)
    else if must_not_wait b k
    then (returns empty, none, q, wait_end k)
    else if b.remaining_ticks == 0
    then (returns timeout, none, q, wait_end k)
    else (blocks, none, q, wait_begin q.receive_waiters b.remaining_ticks k)

-- os_queue_receive up to where it returns or blocks
unfoldable pub receive : ℕ → Queue → Kernel → Turn × Option (List ℕ) × Queue × Kernel
receive timeout_ms q k = receive_round (budget_of timeout_ms k) q k

-- os_queue_receive when its caller runs again
unfoldable pub receive_resumed :
    Budget → Queue → Kernel → Budget × Turn × Option (List ℕ) × Queue × Kernel
receive_resumed b q k =
    let b' = recompute b k in
    let (turn, item, q', k') = receive_round b' q k in
    if wait_signaled k then (b', turn, item, q', k') else (b, returns timeout, none, q, wait_end k)

-- os_queue_count_get
unfoldable pub count_get : Queue → ℕ
count_get q = q.count

-- os_queue_free_get
unfoldable pub free_get : Queue → ℕ
free_get q = q.capacity - q.count

-- No task waits for the queue.
abbrev pub no_waiters : Queue → Kernel → Bool
no_waiters q k = is_empty (k.waiters q.send_waiters) && is_empty (k.waiters q.receive_waiters)

-- os_queue_bind_buffer; a `none` buffer is NULL.
unfoldable pub bind_buffer : Queue → Option Memory → ℕ → ℕ → Kernel → Status × Queue
bind_buffer q none item_size capacity k = (invalid_arg, q)
bind_buffer q (some buffer) item_size capacity k =
    if item_size == 0 || capacity == 0
    then (invalid_arg, q)
    else if not (no_waiters q k)
    then (busy, q)
    else (
      ok,
      record q {
        buffer = buffer;
        is_bound = true;
        item_size = item_size;
        capacity = capacity;
        head = 0;
        tail = 0;
        count = 0;
        buffer_owned = false;
      },
    )

-- os_queue_cleanup, with whether the buffer goes to os_mem_free
unfoldable pub cleanup : Queue → Kernel → Status × Bool × Queue
cleanup q k =
    let q' = record q { head = 0; tail = 0; count = 0 } in
    if not (no_waiters q k)
    then (busy, false, q)
    else if q.buffer_owned
    then (
      ok,
      true,
      record q' { is_bound = false; item_size = 0; capacity = 0; buffer_owned = false },
    )
    else (ok, false, q')
