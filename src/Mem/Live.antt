-- ===== src/Mem/Live.antt =====
-- What a client of the kernel heap can rely on.
use ahura_kernel.Prelude.{
  ℕ, ◌+◌, ◌-◌, ◌%◌, ◌≤◌, ◌≡◌, ◌≢◌, ◌⊎◌, inl, inr, refl, ap, List, count, ◌==◌, if◌then◌else◌, arith,
}
use ahura_kernel.Mem.{Mem, header_size, heap_start, ready}
use ahura_kernel.Mem.Blocks.{Block, Seg-total}
use ahura_kernel.Mem.Heap.{IsPlaced, first_row, fresh-IsHeap}
use ahura_kernel.Mem.Spans.{UsedAt-within, UsedAt-apart}
use ahura_kernel.Mem.Client.{Call, Client, run, IsClient, run-IsClient, no_client}

-- What a client can rely on: an allocation is aligned and in the heap array; its address was returned
-- once since it was last given back, so no two live allocations share one; and no other allocation
-- reaches into it or into the header before it.
pub record AreApart (c : Client) : Type 0 where
  pub aligned : (p : ℕ) → c.held p ≢ 0 → p % 8 ≡ 0
  pub inside :
      (p : ℕ)
      → c.held p ≢ 0
      → (c.mem.base + header_size ≤ p) × (p + c.held p + header_size ≤ c.mem.base + c.mem.heap_size)
  pub once : (p : ℕ) → count p c.live ≡ (if c.held p == 0 then 0 else 1)
  pub apart :
      (p q : ℕ)
      → c.held p ≢ 0
      → c.held q ≢ 0
      → p ≢ q
      → (p + c.held p + header_size ≤ q) ⊎ (q + c.held q + header_size ≤ p)

IsClient-AreApart : (c : Client) (bs : List Block) → IsClient c bs → AreApart c
IsClient-AreApart c bs client =
    let start = heap_start (ready c.mem) in
    let al : start % 8 ≡ 0 = omega arith in
    record {
      aligned = λ p has.
          let (s, above, at, room) = client.held.block p has in
          omega (arith, above, UsedAt-within start bs (p - header_size) s client.heap.row al at);
      inside = λ p has.
          let (s, above, at, room) = client.held.block p has in
          omega (
            arith,
            above,
            room,
            UsedAt-within start bs (p - header_size) s client.heap.row al at,
            Seg-total (ready c.mem).header start bs _ _ _ client.heap.seg,
            client.heap.at_end,
            client.heap.placed.enough,
            ap (λ m. m.base) (client.started p has),
            ap (λ m. m.heap_size) (client.started p has),
          );
      once = client.once;
      apart = λ p q has has' ne.
          let (s, above, at, room) = client.held.block p has in
          let (s', above', at', room') = client.held.block q has' in
          elim (UsedAt-apart start bs (p - header_size) s (q - header_size) s' client.heap.row al at
            at' (λ e. ne (omega (arith, e, above, above')))) [
              | inl below ↦ inl (omega (arith, below, above, above', room))
              | inr below ↦ inr (omega (arith, below, above, above', room'))
            ];
    }

-- Over every run of allocations and of frees of what is held, from a heap that no call has used yet,
-- of at least 64 bytes and less than 2^31 (IsPlaced), the allocations that are held are aligned and in
-- the heap array; no address has been returned a second time while it is held; and the allocations
-- are apart.
pub run-AreApart :
    (calls : List Call) (m : Mem) → IsPlaced m → m.mem_end ≡ 0 → AreApart (run calls (no_client m))
run-AreApart calls m placed fresh =
    let client : IsClient (no_client m) (first_row m) = record {
      heap = fresh-IsHeap m placed fresh;
      held = record { block = λ p has. absurd (has refl) };
      started = λ p has. absurd (has refl);
      once = λ p. refl;
    } in
    let (bs, end) = run-IsClient calls (no_client m) (first_row m) client in
    IsClient-AreApart (run calls (no_client m)) bs end
