-- ===== src/Mem/Blocks.antt =====
-- The kernel heap as the row of blocks that covers it, and the pointers that represent the row.
use ahura_kernel.Prelude.{
  ℕ, ◌+◌, ◌-◌, ◌%◌, ◌≤◌, ◌<◌, ◌≡◌, refl, Bool, true, false, ltb, if◌then◌else◌, List, [], ◌∷◌,
  length, arith,
}
use ahura_kernel.Mem.{Headers, min_block_size, allocated_msk, splits}

-- A block with its size, header included.
pub data Block : Type 0 where
  vacant used : ℕ → Block

abbrev pub block_size : Block → ℕ
block_size (vacant s) = s
block_size (used s) = s

abbrev pub total : List Block → ℕ
total [] = 0
total (b ∷ bs) = block_size b + total bs

abbrev pub vacant_total : List Block → ℕ
vacant_total [] = 0
vacant_total (vacant s ∷ bs) = s + vacant_total bs
vacant_total (used s ∷ bs) = vacant_total bs

-- Sizes are multiples of 8, leave room for a header and a payload, and spare the flag.
abbrev pub IsSize : ℕ → Type 0
IsSize s = (min_block_size ≤ s) × (s % 8 ≡ 0) × (s < allocated_msk)

abbrev pub starts_vacant : List Block → Bool
starts_vacant [] = false
starts_vacant (vacant s ∷ bs) = true
starts_vacant (used s ∷ bs) = false

-- Sizes are right and no two vacant blocks touch.
abbrev pub IsRow : List Block → Type 0
IsRow [] = Unit {0}
IsRow (vacant s ∷ bs) = IsSize s × (starts_vacant bs ≡ false) × IsRow bs
IsRow (used s ∷ bs) = IsSize s × IsRow bs

-- The blocks lie one behind the other from `a` to `b`; `p` is the first vacant one, and the links
-- lead from it through the others to `q`.
abbrev pub Seg : Headers → (a : ℕ) → List Block → (b q p : ℕ) → Type 0
Seg h a [] b q p = (a ≡ b) × (p ≡ q)
Seg h a (vacant s ∷ bs) b q p = (p ≡ a) × ((h a).size ≡ s) × Seg h (a + s) bs b q (h a).next
Seg h a (used s ∷ bs) b q p =
    ((h a).size ≡ s + allocated_msk) × ((h a).next ≡ 0) × Seg h (a + s) bs b q p

-- Headers outside the segment do not matter.
pub Seg-frame :
    (h h' : Headers) (a : ℕ) (bs : List Block) (b q p : ℕ)
    → IsRow bs
    → ((i : ℕ) → a ≤ i → i < a + total bs → h' i ≡ h i)
    → Seg h a bs b q p
    → Seg h' a bs b q p
Seg-frame h h' a [] b q p row same seg = seg
Seg-frame h h' a (vacant s ∷ bs) b q p row same (e, z, seg) =
    let here : h' a ≡ h a = same a (omega arith) (omega arith) in
    let rest =
      Seg-frame h h' (a + s) bs b q (h a).next row.2 (λ i lo hi. same i (omega arith) (omega arith))
        seg in
    (e, rw here z, rw here rest)
Seg-frame h h' a (used s ∷ bs) b q p row same (z, n, seg) =
    let here : h' a ≡ h a = same a (omega arith) (omega arith) in
    let rest =
      Seg-frame h h' (a + s) bs b q p row.1 (λ i lo hi. same i (omega arith) (omega arith)) seg in
    (rw here z, rw here n, rest)

pub Seg-total :
    (h : Headers) (a : ℕ) (bs : List Block) (b q p : ℕ) → Seg h a bs b q p → a + total bs ≡ b
Seg-total h a [] b q p seg = omega (arith, seg.0)
Seg-total h a (vacant s ∷ bs) b q p seg = omega (arith, Seg-total h (a + s) bs b q (h a).next seg.2)
Seg-total h a (used s ∷ bs) b q p seg = omega (arith, Seg-total h (a + s) bs b q p seg.2)

-- The first vacant block is in the segment, or it is what follows.
pub Seg-first :
    (h : Headers) (a : ℕ) (bs : List Block) (q p : ℕ) → Seg h a bs q q p → (a ≤ p) × (p ≤ q)
Seg-first h a [] q p seg = omega (arith, seg.0, seg.1)
Seg-first h a (vacant s ∷ bs) q p seg =
    omega (arith, seg.0, Seg-total h (a + s) bs q q (h a).next seg.2)
Seg-first h a (used s ∷ bs) q p seg = omega (arith, Seg-first h (a + s) bs q p seg.2)

pub length-le-total : (bs : List Block) → IsRow bs → length bs ≤ total bs
length-le-total [] row = omega arith
length-le-total (vacant s ∷ bs) row = omega (arith, row.0.0, length-le-total bs row.2)
length-le-total (used s ∷ bs) row = omega (arith, row.0.0, length-le-total bs row.1)

-- What os_mem_alloc promises: the first vacant block that is large enough is used, and what is
-- left of it stays vacant if it makes a block.
abbrev pub carved : (size need : ℕ) → List Block → List Block
carved size need bs =
    if splits size need then used need ∷ vacant (size - need) ∷ bs else used size ∷ bs

unfoldable pub take_first : ℕ → List Block → List Block
take_first need [] = []
take_first need (used s ∷ bs) = used s ∷ take_first need bs
take_first need (vacant s ∷ bs) =
    let rest = vacant s ∷ take_first need bs in if ltb s need then rest else carved s need bs

-- Where that block is, from `a` on; `e`, the end, if there is none.
unfoldable pub first_fit : ℕ → ℕ → ℕ → List Block → ℕ
first_fit need e a [] = e
first_fit need e a (used s ∷ bs) = first_fit need e (a + s) bs
first_fit need e a (vacant s ∷ bs) =
    let rest = first_fit need e (a + s) bs in if ltb s need then rest else a

pub take_first-starts :
    (need : ℕ) (bs : List Block)
    → starts_vacant bs ≡ false
    → starts_vacant (take_first need bs) ≡ false
unfolding take_first
take_first-starts need [] h = refl
take_first-starts need (used s ∷ bs) h = refl
take_first-starts need (vacant s ∷ bs) h = ground arith

pub take_first-IsRow :
    (need : ℕ) (bs : List Block) → IsSize need → IsRow bs → IsRow (take_first need bs)
unfolding take_first
take_first-IsRow need [] good row = tt
take_first-IsRow need (used s ∷ bs) good row = (row.0, take_first-IsRow need bs good row.1)
take_first-IsRow need (vacant s ∷ bs) good row =
    ground (arith, take_first-IsRow need bs good row.2, take_first-starts need bs row.1)

pub total-take_first : (need : ℕ) (bs : List Block) → total (take_first need bs) ≡ total bs
unfolding take_first
total-take_first need [] = refl
total-take_first need (used s ∷ bs) = omega (arith, total-take_first need bs)
total-take_first need (vacant s ∷ bs) = ground (arith, total-take_first need bs)
