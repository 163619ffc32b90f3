-- ===== src/Mem/Spans.antt =====
-- Where the used blocks of a row are.
use ahura_kernel.Prelude.{
  ℕ, ◌+◌, ◌-◌, ◌%◌, ◌≤◌, ◌≡◌, ◌≢◌, ◌⊎◌, inl, inr, refl, sym, subst, ap, ◌∙◌, false, ltb, Bool-cases,
  ltb→le, List, [], ◌∷◌, ◌++◌, arith,
}
use ahura_kernel.Mem.{splits}
use ahura_kernel.Mem.Blocks.{Block, vacant, used, total, IsRow, carved, take_first, first_fit}
use ahura_kernel.Mem.Release.{join_next, release}

-- With the row from address `a` on, a used block of size `s` is at `p`.
abbrev pub UsedAt : (a : ℕ) → List Block → (p s : ℕ) → Type 0
UsedAt a [] p s = ⊥
UsedAt a (vacant t ∷ bs) p s = UsedAt (a + t) bs p s
UsedAt a (used t ∷ bs) p s = ((p ≡ a) × (s ≡ t)) ⊎ UsedAt (a + t) bs p s

pub UsedAt-within :
    (a : ℕ) (bs : List Block) (p s : ℕ)
    → IsRow bs
    → a % 8 ≡ 0
    → UsedAt a bs p s
    → (a ≤ p) × (p + s ≤ a + total bs) × (16 ≤ s) × (p % 8 ≡ 0)
UsedAt-within a [] p s row al at = absurd at
UsedAt-within a (vacant t ∷ bs) p s row al at =
    omega (arith, UsedAt-within (a + t) bs p s row.2 (omega (arith, row.0)) at)
UsedAt-within a (used t ∷ bs) p s row al (inl (e, z)) = omega (arith, row.0)
UsedAt-within a (used t ∷ bs) p s row al (inr at) =
    omega (arith, UsedAt-within (a + t) bs p s row.1 (omega (arith, row.0)) at)

-- Two used blocks do not overlap.
pub UsedAt-apart :
    (a : ℕ) (bs : List Block) (p s p' s' : ℕ)
    → IsRow bs
    → a % 8 ≡ 0
    → UsedAt a bs p s
    → UsedAt a bs p' s'
    → p ≢ p'
    → (p + s ≤ p') ⊎ (p' + s' ≤ p)
UsedAt-apart a [] p s p' s' row al at at' ne = absurd at
UsedAt-apart a (vacant t ∷ bs) p s p' s' row al at at' ne =
    UsedAt-apart (a + t) bs p s p' s' row.2 (omega (arith, row.0)) at at' ne
UsedAt-apart a (used t ∷ bs) p s p' s' row al (inl (e, z)) (inl (e', z')) ne =
    absurd (ne (e ∙ sym e'))
UsedAt-apart a (used t ∷ bs) p s p' s' row al (inl (e, z)) (inr at') ne =
    inl (omega (arith, UsedAt-within (a + t) bs p' s' row.1 (omega (arith, row.0)) at'))
UsedAt-apart a (used t ∷ bs) p s p' s' row al (inr at) (inl (e', z')) ne =
    inr (omega (arith, UsedAt-within (a + t) bs p s row.1 (omega (arith, row.0)) at))
UsedAt-apart a (used t ∷ bs) p s p' s' row al (inr at) (inr at') ne =
    UsedAt-apart (a + t) bs p s p' s' row.1 (omega (arith, row.0)) at at' ne

-- A block behind `xs` is one of the row, and each is such a block.
pub UsedAt-middle :
    (a : ℕ) (xs : List Block) (s : ℕ) (ys : List Block)
    → UsedAt a (xs ++ used s ∷ ys) (a + total xs) s
UsedAt-middle a [] s ys = inl (omega arith, refl)
UsedAt-middle a (vacant t ∷ xs) s ys =
    subst (λ (p : ℕ). UsedAt (a + t) (xs ++ used s ∷ ys) p s) (omega arith)
      (UsedAt-middle (a + t) xs s ys)
UsedAt-middle a (used t ∷ xs) s ys = inr (
    subst (λ (p : ℕ). UsedAt (a + t) (xs ++ used s ∷ ys) p s) (omega arith)
      (UsedAt-middle (a + t) xs s ys))

pub record Around (a : ℕ) (bs : List Block) (p s : ℕ) : Type 0 where
  pub before : List Block
  pub behind : List Block
  pub row : bs ≡ before ++ used s ∷ behind
  pub address : p ≡ a + total before

pub UsedAt-Around : (a : ℕ) (bs : List Block) (p s : ℕ) → UsedAt a bs p s → Around a bs p s
UsedAt-Around a [] p s at = absurd at
UsedAt-Around a (vacant t ∷ bs) p s at =
    let r = UsedAt-Around (a + t) bs p s at in
    record {
      before = vacant t ∷ r.before;
      behind = r.behind;
      row = ap (λ r. vacant t ∷ r) r.row;
      address = omega (arith, r.address);
    }
UsedAt-Around a (used t ∷ bs) p s (inl (e, z)) = record {
  before = [];
  behind = bs;
  row = ap (λ (n : ℕ). used n ∷ bs) (sym z);
  address = omega arith;
}
UsedAt-Around a (used t ∷ bs) p s (inr at) =
    let r = UsedAt-Around (a + t) bs p s at in
    record {
      before = used t ∷ r.before;
      behind = r.behind;
      row = ap (λ r. used t ∷ r) r.row;
      address = omega (arith, r.address);
    }

carved-UsedAt :
    (need a s : ℕ) (bs : List Block) (p z : ℕ)
    → ltb s need ≡ false
    → UsedAt (a + s) bs p z
    → UsedAt a (carved s need bs) p z
carved-UsedAt need a s bs p z enough at = elim (Bool-cases (splits s need)) [
  | inl cut ↦
      let same : a + need + (s - need) ≡ a + s = omega (arith, ltb→le s need enough) in
      rw (cut, same) (inr at)
  | inr all ↦ rw all (inr at)
]

-- The used blocks stay when another is taken or given back.
pub take_first-UsedAt :
    (need a : ℕ) (bs : List Block) (p s : ℕ) → UsedAt a bs p s → UsedAt a (take_first need bs) p s
unfolding take_first
take_first-UsedAt need a [] p s at = at
take_first-UsedAt need a (used t ∷ bs) p s (inl here) = inl here
take_first-UsedAt need a (used t ∷ bs) p s (inr at) = inr (take_first-UsedAt need (a + t) bs p s at)
take_first-UsedAt need a (vacant t ∷ bs) p s at = elim (Bool-cases (ltb t need)) [
  | inl small ↦ rw small (take_first-UsedAt need (a + t) bs p s at)
  | inr enough ↦ rw enough (carved-UsedAt need a t bs p s enough at)
]

join_next-UsedAt :
    (a s : ℕ) (ys : List Block) (p z : ℕ) → UsedAt (a + s) ys p z → UsedAt a (join_next s ys) p z
unfolding join_next
join_next-UsedAt a s [] p z at = at
join_next-UsedAt a s (vacant t ∷ ys) p z at = subst (λ (c : ℕ). UsedAt c ys p z) (omega arith) at
join_next-UsedAt a s (used t ∷ ys) p z at = at

pub release-UsedAt :
    (a : ℕ) (xs : List Block) (s : ℕ) (ys : List Block) (p z : ℕ)
    → UsedAt a (xs ++ used s ∷ ys) p z
    → p ≢ a + total xs
    → UsedAt a (release xs s ys) p z
unfolding release
release-UsedAt a [] s ys p z (inl (e, _)) ne = absurd (ne (omega arith))
release-UsedAt a [] s ys p z (inr at) ne = join_next-UsedAt a s ys p z at
release-UsedAt a (used t ∷ xs) s ys p z (inl here) ne = inl here
release-UsedAt a (used t ∷ xs) s ys p z (inr at) ne =
    inr (release-UsedAt (a + t) xs s ys p z at (λ e. ne (omega arith)))
release-UsedAt a (vacant t ∷ []) s ys p z (inl (e, _)) ne = absurd (ne (omega arith))
release-UsedAt a (vacant t ∷ []) s ys p z (inr at) ne =
    let same : a + (t + s) ≡ a + t + s = omega arith in
    join_next-UsedAt a (t + s) ys p z (rw same at)
release-UsedAt a (vacant t ∷ x ∷ xs) s ys p z at ne =
    release-UsedAt (a + t) (x ∷ xs) s ys p z at (λ e. ne (omega arith))

first_fit-beyond :
    (need e a : ℕ) (bs : List Block) → first_fit need e a bs ≢ e → a ≤ first_fit need e a bs
unfolding first_fit
first_fit-beyond need e a [] found = absurd (found refl)
first_fit-beyond need e a (used t ∷ bs) found =
    omega (arith, first_fit-beyond need e (a + t) bs found)
first_fit-beyond need e a (vacant t ∷ bs) found = elim (Bool-cases (ltb t need)) [
  | inl small ↦
      ground (arith, small, first_fit-beyond need e (a + t) bs (ground (arith, found, small)))
  | inr enough ↦ ground (arith, enough)
]

-- The block that first fit picks is not in use.
pub first_fit-unused :
    (need e a : ℕ) (bs : List Block) (s : ℕ)
    → IsRow bs
    → a % 8 ≡ 0
    → first_fit need e a bs ≢ e
    → ¬ UsedAt a bs (first_fit need e a bs) s
unfolding first_fit
first_fit-unused need e a [] s row al found at = at
first_fit-unused need e a (used t ∷ bs) s row al found (inl (here, z)) =
    absurd (omega (arith, here, row.0, first_fit-beyond need e (a + t) bs found))
first_fit-unused need e a (used t ∷ bs) s row al found (inr at) =
    first_fit-unused need e (a + t) bs s row.1 (omega (arith, row.0)) found at
first_fit-unused need e a (vacant t ∷ bs) s row al found at = elim (Bool-cases (ltb t need)) [
  | inl small ↦
      first_fit-unused need e (a + t) bs s row.2 (omega (arith, row.0))
        (ground (arith, found, small))
        (subst (λ (p : ℕ). UsedAt (a + t) bs p s) (ground (arith, small)) at)
  | inr enough ↦
      let within = UsedAt-within (a + t) bs _ s row.2 (omega (arith, row.0)) at in
      absurd (ground (arith, within.0, enough, row.0))
]
