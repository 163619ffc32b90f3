-- ===== src/Queue/Dynamic.antt =====
-- core/os_queue.c over core/os_mem.c: a queue whose buffer comes from the kernel heap.
use native.Mathlib.Nat.{le-div_iff_mul-le}
use ahura_kernel.Prelude.{
  ℕ, ◌-◌, ◌*◌, ◌/◌, ◌^◌, ◌≤◌, ◌<◌, ◌≡◌, ◌≢◌, ◌⊎◌, inl, inr, refl, sym, subst, Bool, true, false,
  not, ◌&&◌, ◌||◌, leb, ◌==◌, ==→ne, ne→==, ==→eq, if◌then◌else◌, Bool-cases, some, List, arith,
}
use ahura_kernel.Task.State.{Kernel, Status, ok, invalid_arg, no_memory}
use ahura_kernel.Sync.{is_ok}
use ahura_kernel.Queue.{Queue, no_waiters, bind_buffer, cleanup}
use ahura_kernel.Queue.Bytes.{Memory}
use ahura_kernel.Queue.Fifo.{IsRing}
use ahura_kernel.Mem.{Mem, ready, alloc, mem_free}
use ahura_kernel.Mem.Blocks.{Block}
use ahura_kernel.Mem.Heap.{IsHeap, ready-IsHeap}
use ahura_kernel.Mem.Calls.{alloc-null, mem_free-alloc}

-- The queue, the address that its `buffer` has, 0 if it is NULL, and the heap.
pub record Holding : Type 0 where
  pub queue : Queue
  pub address : ℕ
  pub mem : Mem

-- Whether a geometry's bytes fit a size_t
abbrev pub geometry_fits : (item_size capacity : ℕ) → Bool
geometry_fits item_size capacity =
    not (item_size == 0) && (not (capacity == 0) && leb capacity ((2 ^ 32 - 1) / item_size))

-- os_queue_init_dynamic once os_mem_alloc has answered; `bytes` is what is in the buffer.
unfoldable pub bind_allocated :
    (item_size capacity p : ℕ) → Memory → Holding → Kernel → Status × Holding
bind_allocated item_size capacity p bytes s k =
    if p == 0
    then (no_memory, s)
    else let (status, q) = bind_buffer s.queue (some bytes) item_size capacity k in
      (
        status,
        if is_ok status
            then record s { queue = record q { buffer_owned = true }; address = p }
            else record s { queue = q; mem = mem_free p s.mem },
      )

-- os_queue_init_dynamic
unfoldable pub init_dynamic :
    (item_size capacity : ℕ) → Memory → Holding → Kernel → Status × Holding
unfolding bind_allocated
init_dynamic item_size capacity bytes s k =
    let (p, m) = alloc (item_size * capacity) s.mem in
    if geometry_fits item_size capacity
    then bind_allocated item_size capacity p bytes (record s { mem = m }) k
    else (invalid_arg, s)

-- os_queue_cleanup with the buffer that it frees
unfoldable pub cleanup_dynamic : Holding → Kernel → Status × Holding
unfolding cleanup
cleanup_dynamic s k =
    let (status, frees, q) = cleanup s.queue k in
    (
      status,
      record {
        queue = q;
        address = if frees then 0 else s.address;
        mem = mem_free (if frees then s.address else 0) s.mem;
      },
    )

-- The queue is ready for use and owns a block: giving it back restores the heap.
pub record Bound (item_size capacity : ℕ) (bs : List Block) (s : Holding) : Type 0 where
  pub ring : IsRing s.queue
  pub empty : s.queue.count ≡ 0
  pub geometry : (s.queue.item_size ≡ item_size) × (s.queue.capacity ≡ capacity)
  pub owned : s.queue.buffer_owned ≡ true
  pub block : s.address ≢ 0
  pub restores : IsHeap (mem_free s.address s.mem) bs

-- A call that failed changes neither the queue nor the heap's blocks.
pub record Unbound (bs : List Block) (q : Queue) (address : ℕ) (t : Holding) : Type 0 where
  pub same_queue : t.queue ≡ q
  pub same_address : t.address ≡ address
  pub heap : IsHeap (ready t.mem) bs

abbrev pub Answers : (item_size capacity : ℕ) → List Block → Queue → ℕ → Status × Holding → Type 0
Answers item_size capacity bs q address r =
    ((r.0 ≡ ok) × Bound item_size capacity bs r.1) ⊎ ((r.0 ≢ ok) × Unbound bs q address r.1)

geometry_some :
    (item_size capacity : ℕ)
    → geometry_fits item_size capacity ≡ true
    → (item_size ≢ 0) × (capacity ≢ 0)
geometry_some item_size capacity fits = ground (arith, fits)

geometry_small :
    (item_size capacity : ℕ)
    → geometry_fits item_size capacity ≡ true
    → item_size * capacity < 2 ^ 32
geometry_small item_size capacity fits =
    let most : capacity ≤ (2 ^ 32 - 1) / item_size = ground (arith, fits) in
    let product =
      (le-div_iff_mul-le {k = item_size} {x = capacity} {y = 2 ^ 32 - 1}
          (omega (arith, (geometry_some item_size capacity fits).0))).0
        most in
    omega (arith, product)

bind_allocated-Answers :
    (item_size capacity p : ℕ) (bytes : Memory) (s : Holding) (k : Kernel) (bs : List Block)
    → geometry_fits item_size capacity ≡ true
    → p ≢ 0
    → IsHeap (mem_free p s.mem) bs
    → Answers item_size capacity bs s.queue s.address
        (bind_allocated item_size capacity p bytes s k)
unfolding bind_allocated bind_buffer
bind_allocated-Answers item_size capacity p bytes s k bs fits some_block heap =
    let some_p : (p == 0) ≡ false = ne→== _ _ some_block in
    let (i, c) = geometry_some item_size capacity fits in
    let good : (item_size == 0 || capacity == 0) ≡ false = ground (arith, i, c) in
    elim (Bool-cases (no_waiters s.queue k)) [
      | inl free ↦
          rw (some_p, good, free)
            (inl (
              refl,
              record {
                ring = record {
                  head_small = omega (arith, c);
                  count_small = omega arith;
                  tail_of = omega (arith, c);
                };
                empty = refl;
                geometry = (refl, refl);
                owned = refl;
                block = some_block;
                restores = heap;
              },
            ))
      | inr waited ↦
          rw (some_p, good, waited)
            (inr (
              (λ e. cc),
              record {
                same_queue = refl;
                same_address = refl;
                heap =
                    subst (λ (m : Mem). IsHeap m bs) (sym (ready-IsHeap (mem_free p s.mem) bs heap))
                      heap;
              },
            ))
    ]

-- os_queue_init_dynamic on a heap whose blocks are the row `bs`: either it returns OK, and the queue
-- is an empty ring of the geometry asked for that owns a block, which restores the heap when it is
-- given back; or it does not, and then the queue is as it was and the heap's blocks are as they were,
-- the buffer that it could not bind included.
pub init_dynamic-Answers :
    (item_size capacity : ℕ) (bytes : Memory) (s : Holding) (k : Kernel) (bs : List Block)
    → IsHeap (ready s.mem) bs
    → Answers item_size capacity bs s.queue s.address (init_dynamic item_size capacity bytes s k)
unfolding init_dynamic bind_allocated
init_dynamic-Answers item_size capacity bytes s k bs heap =
    elim (Bool-cases (geometry_fits item_size capacity)) [
      | inl fits ↦ rw fits (allocated fits (Bool-cases ((alloc size s.mem).0 == 0)))
      | inr wrong ↦
          rw wrong (inr ((λ e. cc), record { same_queue = refl; same_address = refl; heap = heap }))
    ]
  where
    size : ℕ
    size = item_size * capacity

    s1 : Holding
    s1 = record s { mem = (alloc size s.mem).1 }

    allocated :
        geometry_fits item_size capacity ≡ true
        → (((alloc size s.mem).0 == 0) ≡ true) ⊎ (((alloc size s.mem).0 == 0) ≡ false)
        → Answers item_size capacity bs s.queue s.address
            (bind_allocated item_size capacity (alloc size s.mem).0 bytes s1 k)
    allocated fits (inl null) =
        let none_left =
          alloc-null size s.mem bs (geometry_small item_size capacity fits) heap
            (==→eq (alloc size s.mem).0 0 null) in
        rw null
          (inr ((λ e. cc), record { same_queue = refl; same_address = refl; heap = none_left }))
    allocated fits (inr some_p) =
        let some_block = ==→ne (alloc size s.mem).0 0 some_p in
        bind_allocated-Answers item_size capacity (alloc size s.mem).0 bytes s1 k bs fits some_block
          (mem_free-alloc size s.mem bs (geometry_small item_size capacity fits) heap some_block)

-- os_queue_cleanup of a queue that owns its block and has no waiters returns OK, gives the block back,
-- and leaves a queue without a buffer.
pub cleanup_dynamic-Bound :
    (item_size capacity : ℕ) (bs : List Block) (s : Holding) (k : Kernel)
    → Bound item_size capacity bs s
    → no_waiters s.queue k ≡ true
    → ((cleanup_dynamic s k).0 ≡ ok)
      × IsHeap (cleanup_dynamic s k).1.mem bs
      × ((cleanup_dynamic s k).1.address ≡ 0)
      × ((cleanup_dynamic s k).1.queue.capacity ≡ 0)
unfolding cleanup_dynamic cleanup
cleanup_dynamic-Bound item_size capacity bs s k bound free =
    rw (free, bound.owned) (refl, bound.restores, refl, refl)
