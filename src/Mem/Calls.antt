-- ===== src/Mem/Calls.antt =====
-- os_mem_alloc as a whole, and a block that is taken and given back.
use ahura_kernel.Prelude.{
  ℕ, ◌+◌, ◌-◌, ◌/◌, ◌*◌, ◌^◌, ◌≤◌, ◌<◌, ◌≡◌, ◌≢◌, inl, inr, refl, sym, subst, ap, ◌∙◌, Bool, true,
  false, not, ◌&&◌, ltb, leb, ◌==◌, if◌then◌else◌, Bool-cases, eq→==, ne→==, ltb→le, List, [], ◌∷◌,
  ◌++◌, is_empty, arith,
}
use ahura_kernel.Mem.{
  Mem, header_size, is_allocated, splits, heap_start, ready, block_need, alloc, mem_free,
}
use ahura_kernel.Mem.Blocks.{
  Block, vacant, used, total, Seg-total, starts_vacant, IsSize, IsRow, take_first, first_fit,
}
use ahura_kernel.Mem.Release.{join_next, release}
use ahura_kernel.Mem.Heap.{IsHeap, ready-IsHeap, alloc_locked-Taken}
use ahura_kernel.Mem.Free.{mem_free-IsHeap}

-- The sizes that a block can have, and the block for one.
abbrev pub accepts : ℕ → Bool
accepts size = ltb 0 size && leb size 2147483632

abbrev pub whole : ℕ → ℕ
whole size = header_size + (size + 7) / 8 * 8

-- os_mem_alloc on the row.
abbrev pub alloc_row : ℕ → List Block → List Block
alloc_row size bs = if accepts size then take_first (whole size) bs else bs

abbrev pub alloc_address : ℕ → Mem → List Block → ℕ
alloc_address size m bs =
    let p = first_fit (whole size) m.mem_end (heap_start m) bs in
    if accepts size then (if p == m.mem_end then 0 else p + header_size) else 0

guard_lem :
    (size : ℕ)
    → size < 2 ^ 32
    → (not (size == 0) && (leb size (block_need size) && not (is_allocated (block_need size))))
      ≡ accepts size
unfolding block_need
guard_lem size word = ground arith

need_lem : (size : ℕ) → accepts size ≡ true → (block_need size ≡ whole size) × IsSize (whole size)
unfolding block_need
need_lem size ok = ground arith

pub alloc-accepted :
    (size : ℕ) (m : Mem) (bs : List Block)
    → size < 2 ^ 32
    → IsHeap (ready m) bs
    → accepts size ≡ true
    → IsHeap (alloc size m).1 (take_first (whole size) bs)
      × ((alloc size m).0 ≡ alloc_address size (ready m) bs)
      × ((alloc size m).1.base ≡ (ready m).base)
unfolding alloc
alloc-accepted size m bs word heap ok =
    let (need, good) = need_lem size ok in
    rw (guard_lem size word, ok, need) (alloc_locked-Taken (whole size) (ready m) bs heap good)

pub alloc-refused :
    (size : ℕ) (m : Mem) → size < 2 ^ 32 → accepts size ≡ false → alloc size m ≡ (0, m)
unfolding alloc
alloc-refused size m word refused = rw (guard_lem size word, refused)

-- On a heap whose blocks are a row, os_mem_alloc of a 32-bit size takes the first vacant block that
-- is large enough and returns its payload's address; if there is none, or the size is 0 or too large,
-- it returns NULL and takes none.
pub alloc-Refines :
    (size : ℕ) (m : Mem) (bs : List Block)
    → size < 2 ^ 32
    → IsHeap (ready m) bs
    → IsHeap (ready (alloc size m).1) (alloc_row size bs)
      × ((alloc size m).0 ≡ alloc_address size (ready m) bs)
unfolding alloc
alloc-Refines size m bs word heap = elim (Bool-cases (accepts size)) [
  | inl ok ↦
      let (heap', address, _) = alloc-accepted size m bs word heap ok in
      let same = ready-IsHeap (alloc size m).1 (take_first (whole size) bs) heap' in
      (rw ok (subst (λ n. IsHeap n (take_first (whole size) bs)) (sym same) heap'), address)
  | inr refused ↦ rw (guard_lem size word, refused) (heap, refl)
]

-- The block that is taken: what is before and behind it, and that giving it back restores the row.
pub record Place (need e a : ℕ) (bs : List Block) : Type 0 where
  pub before : List Block
  pub size : ℕ
  pub behind : List Block
  pub splits_row : take_first need bs ≡ before ++ used size ∷ behind
  pub restores : release before size behind ≡ bs
  pub address : first_fit need e a bs ≡ a + total before
  pub fits : need ≤ size
  pub after_used : starts_vacant bs ≡ false → is_empty before ≡ false

join_next-used :
    (s : ℕ) (ys : List Block) → starts_vacant ys ≡ false → join_next s ys ≡ vacant s ∷ ys
unfolding join_next
join_next-used s [] h = refl
join_next-used s (vacant t ∷ ys) h = cc
join_next-used s (used t ∷ ys) h = refl

release-vacant :
    (s size : ℕ) (xs ys : List Block)
    → is_empty xs ≡ false
    → release (vacant s ∷ xs) size ys ≡ vacant s ∷ release xs size ys
unfolding release
release-vacant s size [] ys h = cc
release-vacant s size (x ∷ xs) ys h = refl

carved-Place :
    (need e a s : ℕ) (bs : List Block)
    → IsRow (vacant s ∷ bs)
    → ltb s need ≡ false
    → Place need e a (vacant s ∷ bs)
unfolding take_first first_fit release join_next
carved-Place need e a s bs row enough = elim (Bool-cases (splits s need)) [
  | inl cut ↦ record {
    before = [];
    size = need;
    behind = vacant (s - need) ∷ bs;
    splits_row = rw (enough, cut);
    restores = ap (λ (n : ℕ). vacant n ∷ bs) (omega (arith, ltb→le s need enough));
    address = rw enough (omega arith);
    fits = omega arith;
    after_used = λ h. cc;
  }
  | inr all ↦ record {
    before = [];
    size = s;
    behind = bs;
    splits_row = rw (enough, all);
    restores = join_next-used s bs row.1;
    address = rw enough (omega arith);
    fits = ltb→le _ _ enough;
    after_used = λ h. cc;
  }
]

small-Place :
    (need e a s : ℕ) (bs : List Block)
    → IsRow (vacant s ∷ bs)
    → ltb s need ≡ true
    → Place need e (a + s) bs
    → Place need e a (vacant s ∷ bs)
unfolding take_first first_fit
small-Place need e a s bs row small p = record {
  before = vacant s ∷ p.before;
  size = p.size;
  behind = p.behind;
  splits_row = rw small (ap (λ r. vacant s ∷ r) p.splits_row);
  restores =
      release-vacant s p.size p.before p.behind (p.after_used row.1)
      ∙ ap (λ r. vacant s ∷ r) p.restores;
  address = rw small (omega (arith, p.address));
  fits = p.fits;
  after_used = λ h. cc;
}

pub place :
    (need e a : ℕ) (bs : List Block) → IsRow bs → first_fit need e a bs ≢ e → Place need e a bs
unfolding take_first first_fit release
place need e a [] row found = absurd (found refl)
place need e a (used s ∷ bs) row found =
    let p = place need e (a + s) bs row.1 found in
    record {
      before = used s ∷ p.before;
      size = p.size;
      behind = p.behind;
      splits_row = ap (λ r. used s ∷ r) p.splits_row;
      restores = ap (λ r. used s ∷ r) p.restores;
      address = omega (arith, p.address);
      fits = p.fits;
      after_used = λ h. refl;
    }
place need e a (vacant s ∷ bs) row found = elim (Bool-cases (ltb s need)) [
  | inl small ↦
      small-Place need e a s bs row small
        (place need e (a + s) bs row.2 (ground (arith, found, small)))
  | inr enough ↦ carved-Place need e a s bs row enough
]

-- An address that is not NULL is that of a block.
pub accepted :
    (size : ℕ) (m : Mem) (bs : List Block)
    → alloc_address size m bs ≢ 0
    → (accepts size ≡ true) × (first_fit (whole size) m.mem_end (heap_start m) bs ≢ m.mem_end)
accepted size m bs some = elim (Bool-cases (accepts size)) [
  | inl ok ↦ (ok, λ e. let end = eq→== _ _ e in some (rw (ok, end)))
  | inr refused ↦ absurd (some (rw refused))
]

pub accepted_address :
    (size : ℕ) (m : Mem) (bs : List Block)
    → accepts size ≡ true
    → first_fit (whole size) m.mem_end (heap_start m) bs ≢ m.mem_end
    → alloc_address size m bs ≡ first_fit (whole size) m.mem_end (heap_start m) bs + header_size
accepted_address size m bs ok found = let tests = ne→== _ _ found in rw (ok, tests)

-- Giving back at once the block that os_mem_alloc returned, which is not NULL, restores the heap, the
-- split and the merges included; the size is a 32-bit number.
pub mem_free-alloc :
    (size : ℕ) (m : Mem) (bs : List Block)
    → size < 2 ^ 32
    → IsHeap (ready m) bs
    → (alloc size m).0 ≢ 0
    → IsHeap (mem_free (alloc size m).0 (alloc size m).1) bs
mem_free-alloc size m bs word heap some =
    let address = (alloc-Refines size m bs word heap).1 in
    let r : Mem = ready m in
    let some_row : alloc_address size r bs ≢ 0 = subst (λ (p : ℕ). p ≢ 0) address some in
    let (ok, found) = accepted size r bs some_row in
    let (heap', _, base) = alloc-accepted size m bs word heap ok in
    let p = place (whole size) r.mem_end (heap_start r) bs heap.row found in
    let here : (alloc size m).0 ≡ heap_start (alloc size m).1 + total p.before + header_size =
      address ∙ accepted_address size r bs ok found ∙ omega (arith, p.address, base) in
    rw here (
      subst
        (IsHeap
          (mem_free (heap_start (alloc size m).1 + total p.before + header_size) (alloc size m).1))
        p.restores
        (mem_free-IsHeap (alloc size m).1 p.before p.size p.behind
          (subst (IsHeap (alloc size m).1) p.splits_row heap')))

take_first-none :
    (need e a : ℕ) (bs : List Block)
    → IsRow bs
    → a + total bs ≤ e
    → first_fit need e a bs ≡ e
    → take_first need bs ≡ bs
unfolding take_first first_fit
take_first-none need e a [] row below none_found = refl
take_first-none need e a (used s ∷ bs) row below none_found =
    ap (λ r. used s ∷ r) (take_first-none need e (a + s) bs row.1 (omega (arith, below)) none_found)
take_first-none need e a (vacant s ∷ bs) row below none_found = elim (Bool-cases (ltb s need)) [
  | inl small ↦ rw small (
      ap (λ r. vacant s ∷ r)
        (take_first-none need e (a + s) bs row.2 (omega (arith, below))
          (ground (arith, none_found, small))))
  | inr enough ↦ absurd (ground (arith, none_found, enough, row.0, below))
]

-- A NULL from os_mem_alloc took nothing.
pub alloc-null :
    (size : ℕ) (m : Mem) (bs : List Block)
    → size < 2 ^ 32
    → IsHeap (ready m) bs
    → (alloc size m).0 ≡ 0
    → IsHeap (ready (alloc size m).1) bs
alloc-null size m bs word heap null =
    let (heap', address) = alloc-Refines size m bs word heap in
    subst (IsHeap (ready (alloc size m).1)) (same (sym address ∙ null)) heap'
  where
    r : Mem
    r = ready m

    end : heap_start r + total bs ≡ r.mem_end
    end = Seg-total r.header (heap_start r) bs r.mem_end r.mem_end _ heap.seg

    same : alloc_address size r bs ≡ 0 → alloc_row size bs ≡ bs
    same none_there = elim (Bool-cases (accepts size)) [
      | inl ok ↦ rw ok (
          take_first-none (whole size) r.mem_end (heap_start r) bs heap.row (omega (arith, end))
            (ground (arith, none_there, ok)))
      | inr refused ↦ rw refused refl
    ]
