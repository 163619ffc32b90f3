-- ===== src/Mem/Heap.antt =====
-- The invariant of the kernel heap, and that os_mem_alloc and os_mem_free keep it.
use ahura_kernel.Prelude.{
  ℕ, ◌+◌, ◌-◌, ◌≤◌, ◌<◌, ◌≡◌, ◌≢◌, ◌⊎◌, inl, inr, refl, sym, subst, ◌∙◌, ◌==◌, if◌then◌else◌, eq→==,
  ne→==, List, [], ◌∷◌, length, arith,
}
use ahura_kernel.Mem.{
  Mem, header_size, allocated_msk, heap_start, heap_end, mem_init, ready, fit, relink, mark, take,
  alloc_locked,
}
use ahura_kernel.Mem.Blocks.{
  Block, vacant, total, vacant_total, IsSize, IsRow, Seg, Seg-total, length-le-total, take_first,
  first_fit, take_first-IsRow,
}
use ahura_kernel.Mem.Take.{After, Found, fit-Found}

-- What the linker and the configuration give: the heap array is not at 0, has 64 bytes and spares
-- the flag bit, and the list head is outside it.
pub record IsPlaced (m : Mem) : Type 0 where
  pub some_address : 0 < m.base
  pub enough : 64 ≤ m.heap_size
  pub spares : m.heap_size < allocated_msk
  pub head : (m.start < heap_start m) ⊎ (m.base + m.heap_size ≤ m.start)

-- The row of blocks fills the heap, the pointers and the count of free bytes are those of the row.
pub record IsHeap (m : Mem) (bs : List Block) : Type 0 where
  pub placed : IsPlaced m
  pub row : IsRow bs
  pub seg : Seg m.header (heap_start m) bs m.mem_end m.mem_end (m.header m.start).next
  pub at_end : m.mem_end ≡ heap_end m
  pub head_size : (m.header m.start).size ≡ 0
  pub bytes : m.free_bytes ≡ vacant_total bs
  pub watermark : m.min_free_bytes ≤ m.free_bytes

-- The heap before the first call.
abbrev pub first_row : Mem → List Block
first_row m = vacant (heap_end m - heap_start m) ∷ []

mem_init-IsHeap : (m : Mem) → IsPlaced m → IsHeap (mem_init m) (first_row m)
unfolding mem_init
mem_init-IsHeap m placed = record {
  placed = record {
    some_address = placed.some_address;
    enough = placed.enough;
    spares = placed.spares;
    head = placed.head;
  };
  row = (omega (arith, placed.enough, placed.spares), refl, tt);
  seg = (ground arith, ground arith, (ground arith, ground arith));
  at_end = refl;
  head_size = ground arith;
  bytes = omega arith;
  watermark = omega arith;
}

pub fresh-IsHeap : (m : Mem) → IsPlaced m → m.mem_end ≡ 0 → IsHeap (ready m) (first_row m)
unfolding ready
fresh-IsHeap m placed fresh = rw (eq→== _ _ fresh) (mem_init-IsHeap m placed)

pub ready-IsHeap : (m : Mem) (bs : List Block) → IsHeap m bs → ready m ≡ m
unfolding ready
ready-IsHeap m bs heap =
    let at_end : m.mem_end ≡ heap_end m = heap.at_end in
    let placed : IsPlaced m = heap.placed in
    let some_end : m.mem_end ≢ 0 =
      λ none_yet. absurd (omega (arith, placed.some_address, placed.enough)) in
    rw (ne→== _ _ some_end)

-- The critical section of os_mem_alloc, from what the search finds.
module _ (need : ℕ) (m : Mem) (bs : List Block) (heap : IsHeap m bs) (good : IsSize need) where
  abbrev pub row_address : ℕ
  row_address =
      let p = first_fit need m.mem_end (heap_start m) bs in
      if p == m.mem_end then 0 else p + header_size

  abbrev pub Taken : ℕ × Mem → Type 0
  Taken r = IsHeap r.1 (take_first need bs) × (r.0 ≡ row_address) × (r.1.base ≡ m.base)

  take-Taken :
      (prev block size : ℕ)
      → size ≡ (relink need prev block m.header block).size
      → block < m.mem_end
      → block ≡ first_fit need m.mem_end (heap_start m) bs
      → After m.header
          (mark block (relink need prev block m.header))
          need
          m.mem_end
          (heap_start m)
          bs
          m.start
          size
      → Taken (take need prev block m)
  unfolding take
  take-Taken prev block size is_size below first after = (
    record {
      placed = record {
        some_address = heap.placed.some_address;
        enough = heap.placed.enough;
        spares = heap.placed.spares;
        head = heap.placed.head;
      };
      row = take_first-IsRow need bs good heap.row;
      seg = after.seg;
      at_end = heap.at_end;
      head_size = after.kept ∙ heap.head_size;
      bytes = omega (arith, after.taken, heap.bytes, is_size);
      watermark = ground arith;
    },
    ground (arith, first),
    refl,
  )

  fitted-Taken :
      (r : ℕ × ℕ)
      → Found need m.mem_end (heap_start m) m.start m.header bs r
      → Taken (if r.1 == m.mem_end then (0, m) else take need r.0 r.1 m)
  fitted-Taken (prev, block) (inl (none_found, same, end)) =
      rw (eq→== _ _ none_found) (subst (IsHeap m) (sym same) heap, ground (arith, end), refl)
  fitted-Taken (prev, block) (inr (lo, hi, first, after)) =
      rw (ne→== block m.mem_end (λ e. omega (arith, e)))
        (take-Taken prev block _ refl hi first after)

  pub alloc_locked-Taken : Taken (alloc_locked need m)
  unfolding alloc_locked
  alloc_locked-Taken =
      let end : heap_start m + total bs ≡ m.mem_end =
        Seg-total m.header (heap_start m) bs m.mem_end m.mem_end _ heap.seg in
      let rounds : length bs < m.heap_size + 1 =
        omega (arith, length-le-total bs heap.row, heap.at_end, heap.placed.enough) in
      fitted-Taken (fit (m.heap_size + 1) need m.mem_end m.start (m.header m.start).next m.header) (
        fit-Found (m.heap_size + 1) need m.mem_end m.start (heap_start m) m.header bs good heap.row
          rounds (ground (arith, heap.placed.head, heap.at_end)) heap.seg)
