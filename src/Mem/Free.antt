-- ===== src/Mem/Free.antt =====
-- os_mem_free on a block that is in use.
use ahura_kernel.Prelude.{
  ℕ, ◌+◌, ◌-◌, ◌%◌, ◌≤◌, ◌<◌, ◌≡◌, ◌≢◌, ◌⊎◌, sym, subst, ap, ◌∙◌, true, false, ltb, leb, ◌==◌,
  eq→==, ne→==, List, ◌∷◌, ◌++◌, length, arith,
}
use ahura_kernel.Mem.{
  Headers, Mem, header_size, allocated_msk, is_allocated, set_size, heap_start, block_insert,
  free_locked, mem_free,
}
use ahura_kernel.Mem.Blocks.{Block, used, total, Seg, Seg-frame, Seg-total, length-le-total}
use ahura_kernel.Mem.Release.{release, release-IsRow}
use ahura_kernel.Mem.Insert.{Released, insert-Released}
use ahura_kernel.Mem.Heap.{IsHeap}
use ahura_kernel.Mem.Rows.{
  IsRow-append, total-append, vacant_total-append, vacant_total-release, Seg-append,
}

-- A header that carries the flag and no link is accepted.
abbrev given_back : ℕ → ℕ → Mem → Mem
given_back block s m = record m {
  free_bytes = m.free_bytes + s;
  header = block_insert block m (set_size block s m.header);
}

free_locked-used :
    (block s : ℕ) (m : Mem)
    → s < allocated_msk
    → (m.header block).size ≡ s + allocated_msk
    → (m.header block).next ≡ 0
    → free_locked block m ≡ given_back block s m
unfolding free_locked
free_locked-used block s m small size link =
    let flag : is_allocated (m.header block).size ≡ true = ground (arith, size) in
    let unlinked : ((m.header block).next == 0) ≡ true = eq→== _ _ link in
    let bare : (m.header block).size % allocated_msk ≡ s = omega (arith, size) in
    rw (flag, unlinked, bare)

-- One that does not carry the flag is not.
free_locked-bare :
    (block : ℕ) (m : Mem) → (m.header block).size < allocated_msk → free_locked block m ≡ m
unfolding free_locked
free_locked-bare block m bare =
    let flag : is_allocated (m.header block).size ≡ false = ground (arith, bare) in rw flag

-- A pointer with room for its header in the heap passes the guards.
mem_free-free_locked :
    (block : ℕ) (m : Mem)
    → 0 < m.base
    → m.mem_end ≢ 0
    → m.base ≤ block
    → block + header_size < m.base + m.heap_size
    → mem_free (block + header_size) m ≡ free_locked block m
unfolding mem_free
mem_free-free_locked block m pos some_end above below =
    let at : block + header_size - header_size ≡ block = omega arith in
    let g1 : (block + header_size == 0) ≡ false = ground arith in
    let g2 : (m.mem_end == 0) ≡ false = ne→== _ _ some_end in
    let g3 : leb (m.base + header_size) (block + header_size) ≡ true = ground arith in
    let g4 : ltb (block + header_size) (m.base + m.heap_size) ≡ true = ground arith in
    rw (g1, g2, g3, g4, at)

pub mem_free-base : (memory : ℕ) (m : Mem) → (mem_free memory m).base ≡ m.base
unfolding mem_free free_locked
mem_free-base memory m = ground arith

module _ (m : Mem) (xs : List Block) (s : ℕ) (ys : List Block) where
  -- The address of the block behind `xs`.
  abbrev block : ℕ
  block = heap_start m + total xs

  -- The headers once its flag is cleared.
  abbrev cleared : Headers
  cleared = set_size block s m.header

  insert_lem :
      IsHeap m (xs ++ used s ∷ ys)
      → Released cleared
          (block_insert block m cleared)
          block
          m.mem_end
          (heap_start m)
          (release xs s ys)
          m.start
  unfolding block_insert
  insert_lem heap =
      let (left, good, right) = IsRow-append xs s ys heap.row in
      let end : heap_start m + total (xs ++ used s ∷ ys) ≡ m.mem_end =
        Seg-total m.header (heap_start m) (xs ++ used s ∷ ys) m.mem_end m.mem_end _ heap.seg in
      let sum = total-append xs s ys in
      let out : (m.start < heap_start m) ⊎ (m.mem_end ≤ m.start) =
        ground (arith, heap.placed.head, heap.at_end) in
      let (q, before, behind) =
        Seg-append m.header (heap_start m) xs (used s ∷ ys) m.mem_end m.mem_end _ heap.seg in
      let head : cleared m.start ≡ m.header m.start = ground arith in
      let small : total xs + s + total ys < allocated_msk =
        omega (arith, heap.placed.spares, heap.at_end) in
      let rounds : length xs < m.heap_size + 1 =
        omega (arith, length-le-total xs left, heap.at_end, heap.placed.enough) in
      let before' : Seg cleared (heap_start m) xs block q (m.header m.start).next =
        Seg-frame m.header cleared (heap_start m) xs block q _ left (λ i lo hi. ground arith)
          before in
      let behind' : Seg cleared (block + s) ys m.mem_end m.mem_end q =
        Seg-frame m.header cleared (block + s) ys m.mem_end m.mem_end q right
          (λ i lo hi. ground arith) behind.2 in
      insert-Released (m.heap_size + 1) m.mem_end block s m.start (heap_start m) q cleared xs ys
        left good right small rounds (ground arith) out (ground (arith, heap.head_size))
        (subst (λ (c : ℕ). Seg cleared (heap_start m) xs block q c) (sym (ap (λ c. c.next) head))
          before')
        behind'

  some_end : IsHeap m (xs ++ used s ∷ ys) → m.mem_end ≢ 0
  some_end heap =
      λ e. absurd (omega (arith, e, heap.placed.some_address, heap.at_end, heap.placed.enough))

  below : IsHeap m (xs ++ used s ∷ ys) → block + header_size < m.base + m.heap_size
  below heap = omega (
    arith,
    Seg-total m.header (heap_start m) (xs ++ used s ∷ ys) m.mem_end m.mem_end _ heap.seg,
    total-append xs s ys,
    (IsRow-append xs s ys heap.row).1,
    heap.at_end,
    heap.placed.enough,
  )

  mem_free_lem :
      IsHeap m (xs ++ used s ∷ ys) → mem_free (block + header_size) m ≡ given_back block s m
  mem_free_lem heap =
      let (q, before, behind) =
        Seg-append m.header (heap_start m) xs (used s ∷ ys) m.mem_end m.mem_end _ heap.seg in
      mem_free-free_locked block m heap.placed.some_address (some_end heap) (omega arith)
        (below heap)
      ∙ free_locked-used block s m (IsRow-append xs s ys heap.row).1.2 behind.0 behind.1

  -- A payload of a block in use is given back: its block is vacant, in one piece with its vacant
  -- neighbours.
  pub mem_free-IsHeap :
      IsHeap m (xs ++ used s ∷ ys) → IsHeap (mem_free (block + header_size) m) (release xs s ys)
  mem_free-IsHeap heap =
      let (left, good, right) = IsRow-append xs s ys heap.row in
      let end : heap_start m + total (xs ++ used s ∷ ys) ≡ m.mem_end =
        Seg-total m.header (heap_start m) (xs ++ used s ∷ ys) m.mem_end m.mem_end _ heap.seg in
      let sum = total-append xs s ys in
      let made = insert_lem heap in
      let head : cleared m.start ≡ m.header m.start =
        ground (arith, heap.placed.head, heap.at_end) in
      rw (mem_free_lem heap) (record {
        placed = record {
          some_address = heap.placed.some_address;
          enough = heap.placed.enough;
          spares = heap.placed.spares;
          head = heap.placed.head;
        };
        row =
            release-IsRow xs s ys left good right (omega (arith, heap.placed.spares, heap.at_end));
        seg = made.seg;
        at_end = heap.at_end;
        head_size = made.kept ∙ ap (λ c. c.size) head ∙ heap.head_size;
        bytes =
            omega (arith, heap.bytes, vacant_total-append xs s ys, vacant_total-release xs s ys);
        watermark = omega (arith, heap.watermark);
      })

  -- A block in use is given back twice: the second call with the same pointer changes nothing.
  pub mem_free-twice :
      IsHeap m (xs ++ used s ∷ ys)
      → mem_free (block + header_size) (mem_free (block + header_size) m)
        ≡ mem_free (block + header_size) m
  mem_free-twice heap =
      let first = mem_free_lem heap in
      rw first (
        mem_free-free_locked block (given_back block s m) heap.placed.some_address (some_end heap)
          (omega arith) (below heap)
        ∙ free_locked-bare block (given_back block s m) (insert_lem heap).bare)
