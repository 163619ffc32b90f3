-- ===== src/Log.antt =====
-- core/os_log.c: the log ring, the lines that go in, and the log task that drains it.
pub mod Ring
pub mod Drain
pub mod Flow
pub mod Digits
pub mod Notice
use Prim.Native.Char.{code}
use Prim.Native.String.{String}
use ahura_kernel.Prelude.{
  ℕ, zero, suc, ◌+◌, ◌-◌, ◌/◌, ◌%◌, ◌^◌, Bool, not, ltb, leb, ◌==◌, if◌then◌else◌, Option, none,
  some, List, [], ◌∷◌, ◌++◌, length, update,
}
use ahura_kernel.Task.State.{Kernel, Task, wait_forever}
use ahura_kernel.Task.Wake.{wake_locked}
use ahura_kernel.Task.Wait.{sleep_ticks}
use ahura_kernel.Queue.Bytes.{Memory, copy_in, copy_out}

-- The variables of the file; `size` is OS_CONFIG_LOG_BUFFER_SIZE, and the task is none before
-- os_log_system_init.
pub record Log : Type 0 where
  pub size : ℕ
  pub buffer : Memory
  pub head : ℕ
  pub tail : ℕ
  pub dropped : ℕ
  pub log_task : Option Task

abbrev pub take : ℕ → List ℕ → List ℕ
take zero xs = []
take (suc n) [] = []
take (suc n) (x ∷ xs) = x ∷ take n xs

abbrev pub drop : ℕ → List ℕ → List ℕ
drop zero xs = xs
drop (suc n) [] = []
drop (suc n) (x ∷ xs) = drop n xs

-- The bytes of a text.
abbrev pub codes : String → List ℕ
codes String.[] = []
codes (String.◌∷◌ c s) = code c ∷ codes s

-- os_log_free_space; OS_LOG_CAPACITY is one less than the size.
unfoldable pub free_space : Log → ℕ
free_space g =
    let used = (if leb g.tail g.head then g.head - g.tail else g.size - (g.tail - g.head)) in
    g.size - 1 - used

-- os_log_put
unfoldable pub put : List ℕ → Log → Log
put line g =
    let room = g.size - g.head in
    let first = (if ltb (length line) room then length line else room) in
    let front = copy_in g.head (take first line) g.buffer in
    record g {
      buffer = if ltb first (length line) then copy_in 0 (drop first line) front else front;
      head = (g.head + length line) % g.size;
    }

-- os_task_wake_tcb, which ignores a task that is not there
abbrev pub wake_tcb : Option Task → Kernel → Kernel
wake_tcb none k = k
wake_tcb (some t) k = wake_locked t k

-- os_log_queue
unfoldable pub queue : List ℕ → Log → Kernel → Log × Kernel
unfolding free_space put
queue line g k =
    if ltb (free_space g) (length line)
    then (record g { dropped = (g.dropped + 1) % 2 ^ 32 }, k)
    else (put line g, wake_tcb g.log_task k)

-- The length of a line in os_log_write, from OS_CONFIG_LOG_LINE_MAX and what snprintf and vsnprintf
-- return; a negative result is none, and so is a line that is not queued.
unfoldable pub line_length : ℕ → Option ℕ → Option ℕ → Option ℕ
line_length line_max none body_len = none
line_length line_max (some prefix_len) none = none
line_length line_max (some prefix_len) (some body_len) =
    let total = prefix_len + body_len in
    let clamped = (if ltb (line_max - 1) total then line_max - 1 else total) in
    let reserved = (if ltb (line_max - 3) clamped then line_max - 3 else clamped) in
    if ltb prefix_len line_max then some (reserved + 2) else none

-- os_log_write: `written` is the buffer that the C library has formatted the line into.
unfoldable pub log_write : ℕ → Option ℕ → Option ℕ → Memory → Log → Kernel → Log × Kernel
unfolding line_length queue
log_write line_max prefix_len body_len written g k =
    elim (line_length line_max prefix_len body_len) [
      | none ↦ (g, k)
      | some total ↦
          queue (copy_out 0 total (update (update written (total - 2) 13) (total - 1) 10)) g k
    ]

-- os_log_dropped_get
unfoldable pub dropped_get : Log → ℕ
dropped_get g = g.dropped

-- The state that os_log_system_init leaves when its task was created and started.
unfoldable pub log_init : Option Task → Log → Log
log_init task g = record g { head = 0; tail = 0; dropped = 0; log_task = task }

-- What os_log_task_entry hands to os_log_output_cb: the offset and length of the longest run that
-- does not wrap. An empty ring is length 0.
unfoldable pub chunk : Log → ℕ × ℕ
chunk g =
    let end = (if ltb g.tail g.head then g.head else g.size) in
    if g.head == g.tail then (0, 0) else (g.tail, end - g.tail)

-- What it does when the callback has returned.
unfoldable pub advance : ℕ → Log → Log
advance length g = record g { tail = (g.tail + length) % g.size }

-- os_log_append_text, with the buffer and the new write position
unfoldable pub append_text : List ℕ → Memory × ℕ → Memory × ℕ
append_text [] (dst, offset) = (dst, offset)
append_text (c ∷ text) (dst, offset) = append_text text (update dst offset c, offset + 1)

-- The do-while of os_log_append_u32: the digits, least significant first.
unfoldable pub digits : ℕ → ℕ → List ℕ
digits zero value = []
digits (suc n) value =
    let rest = digits n (value / 10) in (48 + value % 10) ∷ (if value / 10 == 0 then [] else rest)

-- The padding: `n` spaces.
unfoldable pub pad : ℕ → Memory × ℕ → Memory × ℕ
pad zero (dst, offset) = (dst, offset)
pad (suc n) (dst, offset) = pad n (update dst offset 32, offset + 1)

-- The digits are written from the last one on.
unfoldable pub append_digits : List ℕ → Memory × ℕ → Memory × ℕ
append_digits [] at = at
append_digits (d ∷ ds) at =
    let (dst, offset) = append_digits ds at in (update dst offset d, offset + 1)

-- Both loops that write.
unfoldable pub append_number : List ℕ → ℕ → Memory × ℕ → Memory × ℕ
unfolding pad append_digits
append_number ds width at = append_digits ds (pad (width - length ds) at)

-- os_log_append_u32; a 32-bit number has ten digits at most.
unfoldable pub append_u32 : ℕ → ℕ → Memory × ℕ → Memory × ℕ
unfolding digits append_number
append_u32 value width at = append_number (digits 10 value) width at

-- os_log_emit_dropped: `line` is its buffer, whatever it held.
unfoldable pub emit_dropped : ℕ → ℕ → Memory → Log → Kernel → Log × Kernel
unfolding append_text append_u32 queue
emit_dropped dropped tick line g k =
    let a = append_u32 tick 8 (append_text (codes "[") (line, 0)) in
    let b = append_u32 dropped 0 (append_text (codes "] W *** ") a) in
    let (dst, length) = append_text (codes " log lines dropped ***" ++ 13 ∷ 10 ∷ []) b in
    queue (copy_out 0 length dst) g k

-- os_log_task_entry with an empty ring: the count of lost lines is taken, and reported if there are
-- any.
unfoldable pub report_dropped : ℕ → Memory → Log → Kernel → Log × Kernel
unfolding emit_dropped
report_dropped tick line g k =
    let g' = record g { dropped = 0 } in
    if g.dropped == 0 then (g', k) else emit_dropped g.dropped tick line g' k

-- The end of its loop: the task blocks if the ring is still empty.
unfoldable pub log_block : Log → Kernel → Kernel
log_block g k = if g.head == g.tail then sleep_ticks wait_forever k else k
