-- ===== src/Mem/Client.antt =====
-- A client of the kernel heap that gives back only what it holds.
use ahura_kernel.Prelude.{
  ℕ, ◌+◌, ◌-◌, ◌%◌, ◌^◌, ◌≤◌, ◌≡◌, ◌≢◌, inl, inr, sym, subst, true, ◌==◌, if◌then◌else◌, Bool-cases,
  ==→eq, ==→ne, List, [], ◌∷◌, ◌++◌, update, count, remove, count-remove_self, count-remove_ne,
  arith,
}
use ahura_kernel.Mem.{Mem, header_size, heap_start, ready, alloc, mem_free}
use ahura_kernel.Mem.Blocks.{Block, used, total, take_first}
use ahura_kernel.Mem.Release.{release}
use ahura_kernel.Mem.Heap.{IsHeap, ready-IsHeap}
use ahura_kernel.Mem.Free.{mem_free-base, mem_free-IsHeap}
use ahura_kernel.Mem.Calls.{
  accepts, whole, alloc_row, alloc_address, alloc-accepted, alloc-refused, place, accepted,
  accepted_address,
}
use ahura_kernel.Mem.Spans.{
  UsedAt, UsedAt-middle, UsedAt-Around, take_first-UsedAt, release-UsedAt, first_fit-unused,
}

pub data Call : Type 0 where
  take give : ℕ → Call

-- The heap; the size of the request that each address was returned for last, 0 if the client does not
-- hold it; and every address that was returned and not given back, as often as it was returned.
pub record Client : Type 0 where
  pub mem : Mem
  pub held : ℕ → ℕ
  pub live : List ℕ

-- The size is a `size_t`.
unfoldable pub call : Call → Client → Client
call (take n) c =
    let size = n % 2 ^ 32 in
    let (p, m) = alloc size c.mem in
    record {
      mem = m;
      held = if p == 0 then c.held else update c.held p size;
      live = if p == 0 then c.live else p ∷ c.live;
    }
call (give p) c =
    if c.held p == 0
    then c
    else record { mem = mem_free p c.mem; held = update c.held p 0; live = remove p c.live }

unfoldable pub run : List Call → Client → Client
unfolding call
run [] c = c
run (a ∷ as') c = run as' (call a c)

-- Every address held is the payload of a used block with room for the request.
pub record IsHeld (held : ℕ → ℕ) (m : Mem) (bs : List Block) : Type 0 where
  pub block :
      (p : ℕ)
      → held p ≢ 0
      → (s : ℕ) × (header_size ≤ p)
        × UsedAt (heap_start m) bs (p - header_size) s
        × (held p + header_size ≤ s)

pub record IsClient (c : Client) (bs : List Block) : Type 0 where
  pub heap : IsHeap (ready c.mem) bs
  pub held : IsHeld c.held (ready c.mem) bs
  pub started : (p : ℕ) → c.held p ≢ 0 → ready c.mem ≡ c.mem
  pub once : (p : ℕ) → count p c.live ≡ (if c.held p == 0 then 0 else 1)

-- os_mem_alloc returns no address that is held.
not_held :
    (held : ℕ → ℕ) (size : ℕ) (m : Mem) (bs : List Block) (p : ℕ)
    → IsHeap m bs
    → IsHeld held m bs
    → p ≡ alloc_address size m bs
    → p ≢ 0
    → held p ≡ 0
not_held held size m bs p heap old address some =
    let (ok, found) = accepted size m bs (subst (λ (q : ℕ). q ≢ 0) address some) in
    let at = accepted_address size m bs ok found in
    elim (Bool-cases (held p == 0)) [
      | inl none_held ↦ ==→eq (held p) 0 none_held
      | inr has ↦
          let (s, above, used_at, room) = old.block p (==→ne (held p) 0 has) in
          absurd (
            first_fit-unused (whole size) m.mem_end (heap_start m) bs s heap.row (omega arith) found
              (subst (λ (q : ℕ). UsedAt (heap_start m) bs q s) (omega (arith, address, at))
                used_at))
    ]

-- An allocation keeps what is held and adds what it returns.
took-IsHeld :
    (held : ℕ → ℕ) (size : ℕ) (m m' : Mem) (bs : List Block) (p : ℕ)
    → IsHeap m bs
    → IsHeld held m bs
    → accepts size ≡ true
    → m'.base ≡ m.base
    → p ≡ alloc_address size m bs
    → IsHeld (if p == 0 then held else update held p size) m' (take_first (whole size) bs)
took-IsHeld held size m m' bs p heap old ok base address = record { block = block }
  where
    kept :
        (r : ℕ)
        → held r ≢ 0
        → (s : ℕ) × (header_size ≤ r)
          × UsedAt (heap_start m') (take_first (whole size) bs) (r - header_size) s
          × (held r + header_size ≤ s)
    kept r has =
        let (s, above, at, room) = old.block r has in
        let same : heap_start m' ≡ heap_start m = omega (arith, base) in
        (
          s,
          above,
          subst (λ (a : ℕ). UsedAt a (take_first (whole size) bs) (r - header_size) s) (sym same)
              (take_first-UsedAt (whole size) (heap_start m) bs (r - header_size) s at),
          room,
        )

    new :
        p ≢ 0
        → (s : ℕ) × (header_size ≤ p)
          × UsedAt (heap_start m') (take_first (whole size) bs) (p - header_size) s
          × (size + header_size ≤ s)
    new some =
        let found = (accepted size m bs (subst (λ (q : ℕ). q ≢ 0) address some)).1 in
        let l = place (whole size) m.mem_end (heap_start m) bs heap.row found in
        let at = accepted_address size m bs ok found in
        let here : heap_start m' + total l.before ≡ p - header_size =
          omega (arith, base, address, at, l.address) in
        (
          l.size,
          omega (arith, address, at),
          rw l.splits_row (
              subst
                (λ (q : ℕ). UsedAt (heap_start m') (l.before ++ used l.size ∷ l.behind) q l.size)
                here (UsedAt-middle (heap_start m') l.before l.size l.behind)),
          omega (arith, l.fits),
        )

    block :
        (r : ℕ)
        → (if p == 0 then held else update held p size) r ≢ 0
        → (s : ℕ) × (header_size ≤ r)
          × UsedAt (heap_start m') (take_first (whole size) bs) (r - header_size) s
          × ((if p == 0 then held else update held p size) r + header_size ≤ s)
    block r has = elim (Bool-cases (p == 0)) [
      | inl null ↦ rw null (kept r (ground (arith, has, null)))
      | inr some ↦ elim (Bool-cases (p == r)) [
        | inl same ↦
            rw (some, same)
              (subst
                (λ (q : ℕ).
                  (s : ℕ) × (header_size ≤ q)
                  × UsedAt (heap_start m') (take_first (whole size) bs) (q - header_size) s
                  × (size + header_size ≤ s))
                (==→eq p r same) (new (==→ne p 0 some)))
        | inr other ↦ rw (some, other) (kept r (ground (arith, has, some, other)))
      ]
    ]

take-IsClient :
    (n : ℕ) (c : Client) (bs : List Block)
    → IsClient c bs
    → IsClient (call (take n) c) (alloc_row (n % 2 ^ 32) bs)
unfolding call
take-IsClient n c bs client = elim (Bool-cases (accepts (n % 2 ^ 32))) [
  | inl ok ↦
      let (heap', address, base) =
        alloc-accepted (n % 2 ^ 32) c.mem bs (omega arith) client.heap ok in
      let same = ready-IsHeap _ _ heap' in
      let held' =
        took-IsHeld c.held (n % 2 ^ 32) (ready c.mem) (alloc (n % 2 ^ 32) c.mem).1 bs
          (alloc (n % 2 ^ 32) c.mem).0 client.heap client.held ok base address in
      let fresh =
        not_held c.held (n % 2 ^ 32) (ready c.mem) bs (alloc (n % 2 ^ 32) c.mem).0 client.heap
          client.held address in
      rw ok (record {
        heap = rw same heap';
        held = rw same held';
        started = λ p has. same;
        once =
            λ q. ground (arith, client.once q, client.once (alloc (n % 2 ^ 32) c.mem).0, fresh, ok);
      })
  | inr refused ↦
      let nothing = alloc-refused (n % 2 ^ 32) c.mem (omega arith) refused in
      rw (refused, nothing) client
]

-- Giving a block back keeps all others that are held.
gave-IsClient :
    (held : ℕ → ℕ) (live : List ℕ) (m : Mem) (xs : List Block) (s : ℕ) (ys : List Block) (p : ℕ)
    → IsHeap m (xs ++ used s ∷ ys)
    → IsHeld held m (xs ++ used s ∷ ys)
    → ((q : ℕ) → count q live ≡ (if held q == 0 then 0 else 1))
    → p ≡ heap_start m + total xs + header_size
    → IsClient
        (record { mem = mem_free p m; held = update held p 0; live = remove p live })
        (release xs s ys)
gave-IsClient held live m xs s ys p heap old counts at =
    let heap' : IsHeap (mem_free p m) (release xs s ys) = rw at (mem_free-IsHeap m xs s ys heap) in
    let same : ready (mem_free p m) ≡ mem_free p m =
      ready-IsHeap (mem_free p m) (release xs s ys) heap' in
    let start : heap_start (mem_free p m) ≡ heap_start m = omega (arith, mem_free-base p m) in
    let held' : IsHeld (update held p 0) (mem_free p m) (release xs s ys) = record {
      block = λ r has.
          let other : p ≢ r = ground (arith, has) in
          let (z, above, used_at, room) = old.block r (ground (arith, has)) in
          (
            z,
            above,
            subst (λ (a : ℕ). UsedAt a (release xs s ys) (r - header_size) z) (sym start)
                (release-UsedAt (heap_start m) xs s ys (r - header_size) z used_at
                  (λ e. other (omega (arith, at, above, e)))),
            ground (arith, room),
          );
    } in
    record {
      heap = rw same heap';
      held = rw same held';
      started = λ r has. same;
      once = λ q. elim (Bool-cases (p == q)) [
        | inl here ↦ rw (sym (==→eq p q here)) (ground (arith, count-remove_self p live, counts p))
        | inr other ↦ ground (arith, count-remove_ne p q live (==→ne p q other), counts q, other)
      ];
    }

give-IsClient :
    (p : ℕ) (c : Client) (bs : List Block)
    → IsClient c bs
    → (bs' : List Block) × IsClient (call (give p) c) bs'
unfolding call
give-IsClient p c bs client = elim (Bool-cases (c.held p == 0)) [
  | inl free ↦ (bs, rw free client)
  | inr some ↦
      let has = ==→ne (c.held p) 0 some in
      let (s, above, at, room) = client.held.block p has in
      let l = UsedAt-Around (heap_start (ready c.mem)) bs (p - header_size) s at in
      let same = client.started p has in
      let gave =
        gave-IsClient c.held c.live c.mem l.before s l.behind p
          (subst (λ m. IsHeap m (l.before ++ used s ∷ l.behind)) same
            (subst (IsHeap (ready c.mem)) l.row client.heap))
          (subst (λ m. IsHeld c.held m (l.before ++ used s ∷ l.behind)) same
            (subst (IsHeld c.held (ready c.mem)) l.row client.held))
          client.once
          (subst (λ (m : Mem). p ≡ heap_start m + total l.before + header_size) same
            (omega (arith, l.address, above))) in
      (release l.before s l.behind, rw some gave)
]

pub run-IsClient :
    (calls : List Call) (c : Client) (bs : List Block)
    → IsClient c bs
    → (bs' : List Block) × IsClient (run calls c) bs'
unfolding run
run-IsClient [] c bs client = (bs, client)
run-IsClient (take n ∷ calls) c bs client =
    run-IsClient calls (call (take n) c) _ (take-IsClient n c bs client)
run-IsClient (give p ∷ calls) c bs client =
    let (bs', client') = give-IsClient p c bs client in
    run-IsClient calls (call (give p) c) bs' client'

abbrev pub no_client : Mem → Client
no_client m = record { mem = m; held = λ _. 0; live = [] }
