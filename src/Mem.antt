-- ===== src/Mem.antt =====
-- core/os_mem.c: the kernel heap, a first-fit allocator whose free list is in address order.
pub mod Blocks
pub mod Take
pub mod Release
pub mod Insert
pub mod Heap
pub mod Rows
pub mod Free
pub mod Calls
pub mod Spans
pub mod Client
pub mod Live
use ahura_kernel.Prelude.{
  ℕ, zero, suc, ◌+◌, ◌-◌, ◌*◌, ◌/◌, ◌%◌, ◌^◌, Bool, not, ◌&&◌, ltb, leb, ◌==◌, if◌then◌else◌,
  update,
}

-- `os_mem_block_t`; a pointer is an address, and 0 is NULL.
pub record Header : Type 0 where
  pub next : ℕ
  pub size : ℕ

-- The headers by address.
abbrev pub Headers : Type 0
Headers = ℕ → Header

-- The variables of the file. `base` is the address of `os_mem_heap`, `heap_size` is
-- OS_CONFIG_HEAP_SIZE, and `start` is the address of `os_mem_start`.
pub record Mem : Type 0 where
  pub base : ℕ
  pub heap_size : ℕ
  pub start : ℕ
  pub header : Headers
  pub mem_end : ℕ
  pub free_bytes : ℕ
  pub min_free_bytes : ℕ

-- OS_MEM_HEADER_SIZE
abbrev pub header_size : ℕ
header_size = 8

-- OS_MEM_MIN_BLOCK_SIZE
abbrev pub min_block_size : ℕ
min_block_size = 16

-- OS_MEM_ALLOCATED_MSK, the top bit of a `size_t`
abbrev pub allocated_msk : ℕ
allocated_msk = 2147483648

-- `(size & OS_MEM_ALLOCATED_MSK) != 0`
abbrev pub is_allocated : ℕ → Bool
is_allocated size = size / allocated_msk % 2 == 1

-- `p->next = q`
abbrev pub set_next : ℕ → ℕ → Headers → Headers
set_next p q h = update h p (record (h p) { next = q })

-- `p->size = s`
abbrev pub set_size : ℕ → ℕ → Headers → Headers
set_size p s h = update h p (record (h p) { size = s })

-- Up and down to a multiple of OS_MEM_ALIGNMENT.
abbrev pub align_up : ℕ → ℕ
align_up x = (x + 7) / 8 * 8

abbrev pub align_down : ℕ → ℕ
align_down x = x / 8 * 8

abbrev pub heap_start : Mem → ℕ
heap_start m = align_up m.base

abbrev pub heap_end : Mem → ℕ
heap_end m = align_down (m.base + m.heap_size - header_size)

-- os_mem_init
unfoldable pub mem_init : Mem → Mem
mem_init m =
    let total = heap_end m - heap_start m in
    let at_end = update m.header (heap_end m) (record { next = 0; size = 0 }) in
    let first = update at_end (heap_start m) (record { next = heap_end m; size = total }) in
    record m {
      header = update first m.start (record { next = heap_start m; size = 0 });
      mem_end = heap_end m;
      free_bytes = total;
      min_free_bytes = total;
    }

-- `if (os_mem_end == NULL) os_mem_init();`
unfoldable pub ready : Mem → Mem
ready m = if m.mem_end == 0 then mem_init m else m

-- The search of os_mem_alloc: the first free block that is large enough and the block whose link
-- leads to it.
unfoldable pub fit : ℕ → (need mem_end prev block : ℕ) → Headers → ℕ × ℕ
fit zero need mem_end prev block h = (prev, block)
fit (suc n) need mem_end prev block h =
    let rest = fit n need mem_end block (h block).next h in
    if not (block == mem_end) && ltb (h block).size need then rest else (prev, block)

-- Whether os_mem_alloc splits the block.
abbrev pub splits : ℕ → ℕ → Bool
splits size need = leb min_block_size (size - need)

-- The links and sizes that os_mem_alloc writes, up to the accounting.
unfoldable pub relink : (need prev block : ℕ) → Headers → Headers
relink need prev block h =
    let size = (h block).size in
    let next_free = (h block).next in
    let remainder = block + need in
    if splits size need
    then set_size block need (
        set_next prev remainder
          (update h remainder (record { next = next_free; size = size - need })))
    else set_next prev next_free h

-- `block->size |= OS_MEM_ALLOCATED_MSK; block->next = NULL;`
unfoldable pub mark : ℕ → Headers → Headers
mark block h =
    update h block (record { next = 0; size = (h block).size % allocated_msk + allocated_msk })

-- The part of os_mem_alloc with a block at hand.
unfoldable pub take : (need prev block : ℕ) → Mem → ℕ × Mem
unfolding relink mark
take need prev block m =
    let h = relink need prev block m.header in
    let free_bytes = m.free_bytes - (h block).size in
    (
      block + header_size,
      record m {
        header = mark block h;
        free_bytes = free_bytes;
        min_free_bytes = if ltb free_bytes m.min_free_bytes then free_bytes else m.min_free_bytes;
      },
    )

-- The critical section of os_mem_alloc. Every block has at least one byte, so the search has ended
-- within as many rounds as the heap has bytes.
unfoldable pub alloc_locked : ℕ → Mem → ℕ × Mem
unfolding fit take
alloc_locked need m =
    let (prev, block) =
      fit (m.heap_size + 1) need m.mem_end m.start (m.header m.start).next m.header in
    if block == m.mem_end then (0, m) else take need prev block m

-- The whole-block size, in the arithmetic of a 32-bit `size_t`.
unfoldable pub block_need : ℕ → ℕ
block_need size = (header_size + (size + 7) % 2 ^ 32 / 8 * 8) % 2 ^ 32

-- os_mem_alloc
unfoldable pub alloc : ℕ → Mem → ℕ × Mem
unfolding alloc_locked block_need ready
alloc size m =
    let need = block_need size in
    if not (size == 0) && (leb size need && not (is_allocated need))
    then alloc_locked need (ready m)
    else (0, m)

-- The loop of os_mem_block_insert: the last free block before `block`.
unfoldable pub insert_after : ℕ → (iter block : ℕ) → Headers → ℕ
insert_after zero iter block h = iter
insert_after (suc n) iter block h =
    let rest = insert_after n (h iter).next block h in
    if ltb (h iter).next block then rest else iter

-- The merge with the successor, if it touches.
unfoldable pub merge_next : (mem_end block next : ℕ) → Headers → Headers
merge_next mem_end block next h =
    if block + (h block).size == next
    then if next == mem_end
      then set_next block mem_end h
      else update h block (record { next = (h next).next; size = (h block).size + (h next).size })
    else set_next block next h

-- The same with the last link, if `iter` is another block.
unfoldable pub link_next : (mem_end iter block : ℕ) → Headers → Headers
unfolding merge_next
link_next mem_end iter block h =
    let h' = merge_next mem_end block (h iter).next h in
    if iter == block then h' else set_next iter block h'

-- The merges of os_mem_block_insert.
unfoldable pub link_block : (mem_end iter block : ℕ) → Headers → Headers
unfolding link_next
link_block mem_end iter block h =
    if iter + (h iter).size == block
    then link_next mem_end iter iter (set_size iter ((h iter).size + (h block).size) h)
    else link_next mem_end iter block h

-- os_mem_block_insert
unfoldable pub block_insert : ℕ → Mem → Headers → Headers
unfolding insert_after link_block
block_insert block m h =
    link_block m.mem_end (insert_after (m.heap_size + 1) m.start block h) block h

-- The critical section of os_mem_free.
unfoldable pub free_locked : ℕ → Mem → Mem
unfolding block_insert
free_locked block m =
    let c = m.header block in
    let size = c.size % allocated_msk in
    if is_allocated c.size && c.next == 0
    then record m {
      free_bytes = m.free_bytes + size;
      header = block_insert block m (set_size block size m.header);
    }
    else m

-- os_mem_free
unfoldable pub mem_free : ℕ → Mem → Mem
unfolding free_locked
mem_free memory m =
    if not (memory == 0)
      && (not (m.mem_end == 0)
          && (leb (m.base + header_size) memory && ltb memory (m.base + m.heap_size)))
    then free_locked (memory - header_size) m
    else m

-- os_mem_free_get
unfoldable pub free_get : Mem → ℕ × Mem
unfolding ready
free_get m = let m' = ready m in (m'.free_bytes, m')

-- os_mem_watermark_get
unfoldable pub watermark_get : Mem → ℕ × Mem
unfolding ready
watermark_get m = let m' = ready m in (m'.min_free_bytes, m')
