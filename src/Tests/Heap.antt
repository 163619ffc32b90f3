-- ===== src/Tests/Heap.antt =====
-- The theorems on core/os_mem.c at a heap of 128 bytes.
use ahura_kernel.Prelude.{◌+◌, ◌≡◌, ◌≢◌, refl, inl, [], ◌∷◌, ◌++◌, arith}
use ahura_kernel.Mem.{
  Mem, header_size, heap_start, mem_init, ready, fit, relink, mark, take, alloc_locked, block_need,
  alloc, mem_free,
}
use ahura_kernel.Mem.Blocks.{vacant, used, total, take_first}
use ahura_kernel.Mem.Heap.{IsPlaced, IsHeap, first_row, fresh-IsHeap}
use ahura_kernel.Mem.Free.{mem_free-twice}
use ahura_kernel.Mem.Calls.{alloc_row, alloc_address, alloc-Refines, mem_free-alloc}
use ahura_kernel.Mem.Client.{Call, Client, run, no_client}
use ahura_kernel.Mem.Client
use ahura_kernel.Mem.Live.{AreApart, run-AreApart}
use ahura_kernel.Queue.Dynamic.{Holding, init_dynamic, Answers, init_dynamic-Answers}
use ahura_kernel.Demo.{boot}
use ahura_kernel.Tests.{queue}

abbrev heap : Mem
heap = record {
  base = 1001;
  heap_size = 128;
  start = 400;
  header = λ a. record { next = 0; size = 0 };
  mem_end = 0;
  free_bytes = 0;
  min_free_bytes = 0;
}

heap-IsPlaced : IsPlaced heap
heap-IsPlaced = record {
  some_address = omega arith;
  enough = omega arith;
  spares = omega arith;
  head = inl (omega arith);
}

ready_heap-IsHeap : IsHeap (ready heap) (first_row heap)
ready_heap-IsHeap = fresh-IsHeap heap heap-IsPlaced refl

run-AreApart_example : AreApart (
    run (Client.take 24 ∷ Client.take 10 ∷ Client.give 1016 ∷ Client.take 16 ∷ []) (no_client heap))
run-AreApart_example =
    run-AreApart (Client.take 24 ∷ Client.take 10 ∷ Client.give 1016 ∷ Client.take 16 ∷ []) heap
      heap-IsPlaced refl

alloc-Refines_example :
    IsHeap (ready (alloc 24 heap).1) (alloc_row 24 (first_row heap))
    × ((alloc 24 heap).0 ≡ alloc_address 24 (ready heap) (first_row heap))
alloc-Refines_example = alloc-Refines 24 heap (first_row heap) (omega arith) ready_heap-IsHeap

allocated : (alloc 24 heap).0 ≡ 1016
unfolding alloc block_need alloc_locked ready mem_init fit take relink mark
allocated = refl

some_block : (alloc 24 heap).0 ≢ 0
some_block = λ e. absurd (omega (arith, e, allocated))

mem_free-alloc_example : IsHeap (mem_free (alloc 24 heap).0 (alloc 24 heap).1) (first_row heap)
mem_free-alloc_example =
    mem_free-alloc 24 heap (first_row heap) (omega arith) ready_heap-IsHeap some_block

-- The heap with one block in use.
abbrev in_use : Mem
in_use = ready (alloc 24 heap).1

in_use-IsHeap : IsHeap in_use ([] ++ used 32 ∷ vacant 80 ∷ [])
unfolding take_first
in_use-IsHeap = alloc-Refines_example.0

mem_free-twice_example :
    let p = heap_start in_use + total [] + header_size in
    mem_free p (mem_free p in_use) ≡ mem_free p in_use
mem_free-twice_example = mem_free-twice in_use [] 32 (vacant 80 ∷ []) in_use-IsHeap

abbrev unbound : Holding
unbound = record { queue = queue; address = 0; mem = heap }

init_dynamic-Answers_example :
    Answers 4 5 (first_row heap) queue 0 (init_dynamic 4 5 (λ i. 0) unbound boot)
init_dynamic-Answers_example =
    init_dynamic-Answers 4 5 (λ i. 0) unbound boot (first_row heap) ready_heap-IsHeap
