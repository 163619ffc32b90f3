-- ===== src/Mem/Release.antt =====
-- What giving back a block does to the row of blocks.
use ahura_kernel.Prelude.{ℕ, ◌+◌, ◌<◌, ◌≡◌, refl, List, [], ◌∷◌, arith}
use ahura_kernel.Mem.{allocated_msk}
use ahura_kernel.Mem.Blocks.{Block, vacant, used, total, IsSize, IsRow}

-- What os_mem_free promises: a used block of size `s` between `xs` and `ys` is vacant, in one piece
-- with the vacant blocks that it touches.
unfoldable pub join_next : ℕ → List Block → List Block
join_next s [] = vacant s ∷ []
join_next s (vacant t ∷ ys) = vacant (s + t) ∷ ys
join_next s (used t ∷ ys) = vacant s ∷ used t ∷ ys

unfoldable pub release : List Block → ℕ → List Block → List Block
unfolding join_next
release [] s ys = join_next s ys
release (used r ∷ xs) s ys = used r ∷ release xs s ys
release (vacant r ∷ []) s ys = join_next (r + s) ys
release (vacant r ∷ x ∷ xs) s ys = vacant r ∷ release (x ∷ xs) s ys

pub join_next-IsRow :
    (s : ℕ) (ys : List Block)
    → IsSize s
    → IsRow ys
    → s + total ys < allocated_msk
    → IsRow (join_next s ys)
unfolding join_next
join_next-IsRow s [] good row small = (good, refl, tt)
join_next-IsRow s (vacant t ∷ ys) good row small = (omega arith, row.1, row.2)
join_next-IsRow s (used t ∷ ys) good row small = (good, refl, row)

pub total-join_next : (s : ℕ) (ys : List Block) → total (join_next s ys) ≡ s + total ys
unfolding join_next
total-join_next s [] = refl
total-join_next s (vacant t ∷ ys) = omega arith
total-join_next s (used t ∷ ys) = refl

pub release-IsRow :
    (xs : List Block) (s : ℕ) (ys : List Block)
    → IsRow xs
    → IsSize s
    → IsRow ys
    → total xs + s + total ys < allocated_msk
    → IsRow (release xs s ys)
unfolding release
release-IsRow [] s ys row good row' small = join_next-IsRow s ys good row' (omega arith)
release-IsRow (used r ∷ xs) s ys row good row' small =
    (row.0, release-IsRow xs s ys row.1 good row' (omega arith))
release-IsRow (vacant r ∷ []) s ys row good row' small =
    join_next-IsRow (r + s) ys (omega arith) row' (omega arith)
release-IsRow (vacant r ∷ vacant t ∷ xs) s ys row good row' small = cc (row.1)
release-IsRow (vacant r ∷ used t ∷ xs) s ys row good row' small =
    (row.0, refl, release-IsRow (used t ∷ xs) s ys row.2 good row' (omega arith))

pub total-release :
    (xs : List Block) (s : ℕ) (ys : List Block) → total (release xs s ys) ≡ total xs + s + total ys
unfolding release
total-release [] s ys = omega (arith, total-join_next s ys)
total-release (used r ∷ xs) s ys = omega (arith, total-release xs s ys)
total-release (vacant r ∷ []) s ys = omega (arith, total-join_next (r + s) ys)
total-release (vacant r ∷ x ∷ xs) s ys = omega (arith, total-release (x ∷ xs) s ys)
