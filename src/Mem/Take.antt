-- ===== src/Mem/Take.antt =====
-- os_mem_alloc on the pointers takes the first block that fits from the row.
use ahura_kernel.Prelude.{
  ℕ, zero, suc, ◌+◌, ◌-◌, ◌≤◌, ◌<◌, ◌≡◌, ◌≢◌, ◌⊎◌, inl, inr, refl, subst, ap, fun_ext, ◌∙◌, true,
  false, ltb, ◌==◌, if◌then◌else◌, Bool-cases, ltb→le, List, [], ◌∷◌, length, arith,
}
use ahura_kernel.Mem.{Headers, allocated_msk, splits, fit, relink, mark}
use ahura_kernel.Mem.Blocks.{
  Block, vacant, used, total, vacant_total, IsSize, IsRow, Seg, Seg-frame, Seg-total, take_first,
  first_fit,
}

-- The row after a block is taken: `h'` represents it, and headers outside it are the same but for
-- the link of `prev`, which leads to it.
pub record After (h h' : Headers) (need e a : ℕ) (bs : List Block) (prev size : ℕ) : Type 0 where
  pub seg : Seg h' a (take_first need bs) e e (h' prev).next
  pub frame : (i : ℕ) → (i < a) ⊎ (e ≤ i) → i ≢ prev → h' i ≡ h i
  pub kept : (h' prev).size ≡ (h prev).size
  pub taken : vacant_total (take_first need bs) + size ≡ vacant_total bs

-- What the writes of os_mem_alloc come to, with the block split and whole.
abbrev split_headers : (need prev a s : ℕ) → Headers → Headers
split_headers need prev a s h i =
    if i == a
    then record { next = 0; size = need + allocated_msk }
    else if i == prev
    then record { next = a + need; size = (h prev).size }
    else if i == a + need
    then record { next = (h a).next; size = s - need }
    else h i

abbrev whole_headers : (prev a s : ℕ) → Headers → Headers
whole_headers prev a s h i =
    if i == a
    then record { next = 0; size = s + allocated_msk }
    else if i == prev
    then record { next = (h a).next; size = (h prev).size }
    else h i

module _ (need e a prev s : ℕ) (h : Headers) where
  split_lem :
      IsSize s
      → IsSize need
      → need ≤ s
      → (h a).size ≡ s
      → (prev < a) ⊎ (a + s ≤ prev)
      → splits s need ≡ true
      → (i : ℕ) → mark a (relink need prev a h) i ≡ split_headers need prev a s h i
  unfolding mark relink
  split_lem good good' fits z out cut i = rw (z, cut) (ground arith)

  whole_lem :
      IsSize s
      → (h a).size ≡ s
      → (prev < a) ⊎ (a + s ≤ prev)
      → splits s need ≡ false
      → (i : ℕ) → mark a (relink need prev a h) i ≡ whole_headers prev a s h i
  unfolding mark relink
  whole_lem good z out cut i = rw (z, cut) (ground arith)

  relink_size :
      IsSize s
      → IsSize need
      → need ≤ s
      → (h a).size ≡ s
      → (prev < a) ⊎ (a + s ≤ prev)
      → (relink need prev a h a).size ≡ (if splits s need then need else s)
  unfolding relink
  relink_size good good' fits z out = rw z (ground arith)

  -- The same with the links in the row.
  module _ (bs : List Block) where
    split-After :
        IsSize need
        → need ≤ s
        → IsRow (vacant s ∷ bs)
        → ltb s need ≡ false
        → (prev < a) ⊎ (e ≤ prev)
        → splits s need ≡ true
        → Seg h a (vacant s ∷ bs) e e a
        → After h (split_headers need prev a s h) need e a (vacant s ∷ bs) prev need
    unfolding take_first
    split-After good fits row enough out cut seg =
        let end : a + s + total bs ≡ e = Seg-total h (a + s) bs e e (h a).next seg.2 in
        let moved : a + need + (s - need) ≡ a + s = omega arith in
        let rest : Seg (split_headers need prev a s h) (a + s) bs e e (h a).next =
          Seg-frame h (split_headers need prev a s h) (a + s) bs e e (h a).next row.2
            (λ i lo hi. ground arith) seg.2 in
        record {
          seg = rw enough (
              rw cut (
                ground arith,
                ground arith,
                (
                  ground arith,
                  ground arith,
                  rw moved (
                      subst (λ (q : ℕ). Seg (split_headers need prev a s h) (a + s) bs e e q)
                        (ground arith) rest),
                ),
              ));
          frame = λ i o ne. ground arith;
          kept = ground arith;
          taken = ground arith;
        }

    whole-After :
        need ≤ s
        → IsRow (vacant s ∷ bs)
        → ltb s need ≡ false
        → (prev < a) ⊎ (e ≤ prev)
        → splits s need ≡ false
        → Seg h a (vacant s ∷ bs) e e a
        → After h (whole_headers prev a s h) need e a (vacant s ∷ bs) prev s
    unfolding take_first
    whole-After fits row enough out cut seg =
        let end : a + s + total bs ≡ e = Seg-total h (a + s) bs e e (h a).next seg.2 in
        let rest : Seg (whole_headers prev a s h) (a + s) bs e e (h a).next =
          Seg-frame h (whole_headers prev a s h) (a + s) bs e e (h a).next row.2
            (λ i lo hi. ground arith) seg.2 in
        record {
          seg = rw enough (
              rw cut (
                ground arith,
                ground arith,
                subst (λ (q : ℕ). Seg (whole_headers prev a s h) (a + s) bs e e q) (ground arith)
                    rest,
              ));
          frame = λ i o ne. ground arith;
          kept = ground arith;
          taken = ground arith;
        }

    fits-After :
        IsSize need
        → need ≤ s
        → IsRow (vacant s ∷ bs)
        → ltb s need ≡ false
        → (prev < a) ⊎ (e ≤ prev)
        → Seg h a (vacant s ∷ bs) e e a
        → After h
            (mark a (relink need prev a h))
            need
            e
            a
            (vacant s ∷ bs)
            prev
            (relink need prev a h a).size
    fits-After good fits row enough out seg =
        let end : a + s + total bs ≡ e = Seg-total h (a + s) bs e e (h a).next seg.2 in
        elim (Bool-cases (splits s need)) [
          | inl cut ↦
              let same = fun_ext (split_lem row.0 good fits seg.1 (ground arith) cut) in
              rw same (
                rw (relink_size row.0 good fits seg.1 (ground arith))
                  (rw cut (split-After good fits row enough out cut seg)))
          | inr cut ↦
              let same = fun_ext (whole_lem row.0 seg.1 (ground arith) cut) in
              rw same (
                rw (relink_size row.0 good fits seg.1 (ground arith))
                  (rw cut (whole-After fits row enough out cut seg)))
        ]

module _ (need e a prev s size : ℕ) (h h' : Headers) (bs : List Block) where
  used-After :
      IsSize s
      → Seg h a (used s ∷ bs) e e (h prev).next
      → (prev < a) ⊎ (e ≤ prev)
      → After h h' need e (a + s) bs prev size
      → After h h' need e a (used s ∷ bs) prev size
  unfolding take_first
  used-After good seg out rest =
      let end : a + s + total bs ≡ e = Seg-total h (a + s) bs e e (h prev).next seg.2 in
      let here : h' a ≡ h a = rest.frame a (inl (omega arith)) (ground arith) in
      record {
        seg = (rw here seg.0, rw here seg.1, rest.seg);
        frame = λ i o ne. rest.frame i (ground arith) ne;
        kept = rest.kept;
        taken = rest.taken;
      }

  vacant-After :
      IsSize s
      → Seg h a (vacant s ∷ bs) e e (h prev).next
      → (prev < a) ⊎ (e ≤ prev)
      → ltb s need ≡ true
      → After h h' need e (a + s) bs a size
      → After h h' need e a (vacant s ∷ bs) prev size
  unfolding take_first
  vacant-After good seg out small rest =
      let end : a + s + total bs ≡ e = Seg-total h (a + s) bs e e (h a).next seg.2 in
      let here : h' prev ≡ h prev = rest.frame prev (ground arith) (ground arith) in
      record {
        seg = rw small (rw here (seg.0, rest.kept ∙ seg.1, rest.seg));
        frame = λ i o ne. rest.frame i (ground arith) (ground arith);
        kept = rw here;
        taken = rw small (omega (arith, rest.taken));
      }

-- What the search finds: no block fits, or the writes that follow take the first that does.
abbrev pub Found : (need e a prev : ℕ) → Headers → List Block → ℕ × ℕ → Type 0
Found need e a prev h bs r =
    ((r.1 ≡ e) × (take_first need bs ≡ bs) × (first_fit need e a bs ≡ e))
    ⊎ ((a ≤ r.1)
        × (r.1 < e)
        × (r.1 ≡ first_fit need e a bs)
        × After h (mark r.1 (relink need r.0 r.1 h)) need e a bs prev
            (relink need r.0 r.1 h r.1).size)

pub fit-Found :
    (n need e prev a : ℕ) (h : Headers) (bs : List Block)
    → IsSize need
    → IsRow bs
    → length bs < n
    → (prev < a) ⊎ (e ≤ prev)
    → Seg h a bs e e (h prev).next
    → Found need e a prev h bs (fit n need e prev (h prev).next h)
unfolding fit take_first first_fit
fit-Found zero need e prev a h bs good row fuel out seg = absurd (omega arith)
fit-Found (suc n) need e prev a h [] good row fuel out seg = inl (ground arith, refl, refl)
fit-Found (suc n) need e prev a h (used s ∷ bs) good row fuel out seg =
    elim (fit-Found (suc n) need e prev (a + s) h bs good row.1 (omega arith) (ground arith)
      seg.2) [
        | inl (none_found, same, end) ↦ inl (none_found, ap (λ r. used s ∷ r) same, end)
        | inr (lo, hi, first, rest) ↦
            inr (omega arith, hi, first, used-After need e a prev s _ h _ bs row.0 seg out rest)
      ]
fit-Found (suc n) need e prev a h (vacant s ∷ bs) good row fuel out seg =
    let end : a + s + total bs ≡ e = Seg-total h (a + s) bs e e (h a).next seg.2 in
    elim (Bool-cases (ltb s need)) [
      | inl small ↦
          let step : fit (suc n) need e prev (h prev).next h ≡ fit n need e a (h a).next h =
            rw seg.0 (ground (arith, seg.1)) in
          rw step
            (elim (fit-Found n need e a (a + s) h bs good row.2 (omega arith)
              (inl (omega (arith, row.0.0))) seg.2) [
                | inl (none_found, same, last) ↦
                    rw small (inl (none_found, ap (λ r. vacant s ∷ r) same, last))
                | inr (lo, hi, first, rest) ↦ inr (
                  omega arith,
                  hi,
                  rw small first,
                  vacant-After need e a prev s _ h _ bs row.0 seg out small rest,
                )
              ])
      | inr enough ↦
          let stop : fit (suc n) need e prev (h prev).next h ≡ (prev, a) =
            rw seg.0 (ground (arith, seg.1)) in
          rw stop (
            inr (
              omega arith,
              omega (arith, row.0.0),
              rw enough,
              fits-After need e a prev s h bs good (ltb→le s need enough) row enough out
                  (subst (λ (q : ℕ). Seg h a (vacant s ∷ bs) e e q) seg.0 seg),
            ))
    ]
