-- ===== src/Mem/Rows.antt =====
-- Rows of heap blocks in two parts, and a row with one block singled out.
use ahura_kernel.Prelude.{ℕ, ◌+◌, ◌≡◌, refl, List, [], ◌∷◌, ◌++◌, arith}
use ahura_kernel.Mem.{Headers}
use ahura_kernel.Mem.Blocks.{Block, vacant, used, total, vacant_total, IsSize, IsRow, Seg}
use ahura_kernel.Mem.Release.{join_next, release}

pub IsRow-append :
    (xs : List Block) (s : ℕ) (ys : List Block)
    → IsRow (xs ++ used s ∷ ys)
    → IsRow xs × IsSize s × IsRow ys
IsRow-append [] s ys row = (tt, row.0, row.1)
IsRow-append (used r ∷ xs) s ys row =
    let (left, good, right) = IsRow-append xs s ys row.1 in ((row.0, left), good, right)
IsRow-append (vacant r ∷ []) s ys row = ((row.0, refl, tt), row.2.0, row.2.1)
IsRow-append (vacant r ∷ vacant t ∷ xs) s ys row = cc (row.1)
IsRow-append (vacant r ∷ used t ∷ xs) s ys row =
    let (left, good, right) = IsRow-append (used t ∷ xs) s ys row.2 in
    ((row.0, refl, left), good, right)

pub total-append :
    (xs : List Block) (s : ℕ) (ys : List Block)
    → total (xs ++ used s ∷ ys) ≡ total xs + s + total ys
total-append [] s ys = omega arith
total-append (x ∷ xs) s ys = omega (arith, total-append xs s ys)

pub vacant_total-append :
    (xs : List Block) (s : ℕ) (ys : List Block)
    → vacant_total (xs ++ used s ∷ ys) ≡ vacant_total xs + vacant_total ys
vacant_total-append [] s ys = omega arith
vacant_total-append (vacant r ∷ xs) s ys = omega (arith, vacant_total-append xs s ys)
vacant_total-append (used r ∷ xs) s ys = omega (arith, vacant_total-append xs s ys)

vacant_total-join_next :
    (s : ℕ) (ys : List Block) → vacant_total (join_next s ys) ≡ s + vacant_total ys
unfolding join_next
vacant_total-join_next s [] = refl
vacant_total-join_next s (vacant t ∷ ys) = omega arith
vacant_total-join_next s (used t ∷ ys) = refl

pub vacant_total-release :
    (xs : List Block) (s : ℕ) (ys : List Block)
    → vacant_total (release xs s ys) ≡ vacant_total xs + s + vacant_total ys
unfolding release
vacant_total-release [] s ys = omega (arith, vacant_total-join_next s ys)
vacant_total-release (used r ∷ xs) s ys = omega (arith, vacant_total-release xs s ys)
vacant_total-release (vacant r ∷ []) s ys = omega (arith, vacant_total-join_next (r + s) ys)
vacant_total-release (vacant r ∷ x ∷ xs) s ys = omega (arith, vacant_total-release (x ∷ xs) s ys)

-- The segment of a row in two parts: `q'` is where the links of the first part lead.
pub Seg-append :
    (h : Headers) (a : ℕ) (xs zs : List Block) (b q p : ℕ)
    → Seg h a (xs ++ zs) b q p
    → (q' : ℕ) × Seg h a xs (a + total xs) q' p × Seg h (a + total xs) zs b q q'
Seg-append h a [] zs b q p seg =
    let at : a + 0 ≡ a = omega arith in (p, (omega arith, refl), rw at seg)
Seg-append h a (vacant s ∷ xs) zs b q p seg =
    let at : a + (s + total xs) ≡ a + s + total xs = omega arith in
    let (q', left, right) = Seg-append h (a + s) xs zs b q (h a).next seg.2 in
    (q', rw at (seg.0, seg.1, left), rw at right)
Seg-append h a (used s ∷ xs) zs b q p seg =
    let at : a + (s + total xs) ≡ a + s + total xs = omega arith in
    let (q', left, right) = Seg-append h (a + s) xs zs b q p seg.2 in
    (q', rw at (seg.0, seg.1, left), rw at right)
