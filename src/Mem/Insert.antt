-- ===== src/Mem/Insert.antt =====
-- os_mem_block_insert of core/os_mem.c gives a block back to the row, on the pointers.
use ahura_kernel.Prelude.{
  ℕ, zero, suc, ◌+◌, ◌≤◌, ◌<◌, ◌≡◌, ◌≢◌, ◌⊎◌, inl, refl, sym, subst, ap, ◌∙◌, true, false, ◌==◌,
  eq→==, ne→==, List, [], ◌∷◌, length, update, arith,
}
use ahura_kernel.Mem.{
  Headers, allocated_msk, set_next, set_size, insert_after, merge_next, link_next, link_block,
}
use ahura_kernel.Mem.Blocks.{
  Block, vacant, used, total, IsSize, IsRow, Seg, Seg-frame, Seg-total, Seg-first, length-le-total,
}
use ahura_kernel.Mem.Release.{join_next, release, join_next-IsRow, total-join_next}

-- The merge makes one vacant block of a block and a vacant one behind it.
merge_next-Seg :
    (e c z q : ℕ) (h : Headers) (ys : List Block)
    → IsRow ys
    → 0 < z
    → (h c).size ≡ z
    → Seg h (c + z) ys e e q
    → Seg (merge_next e c q h) c (join_next z ys) e e c
      × ((i : ℕ) → i ≢ c → merge_next e c q h i ≡ h i)
unfolding merge_next join_next
merge_next-Seg e c z q h [] row pos size seg =
    let touch : (c + (h c).size == q) ≡ true = ground (arith, seg.0, seg.1) in
    let last : (q == e) ≡ true = ground (arith, seg.0, seg.1) in
    rw (touch, last)
      ((refl, ground arith, (omega (arith, seg.0), ground arith)), λ i ne. ground arith)
merge_next-Seg e c z q h (vacant t ∷ ys) row pos size seg =
    let end : c + z + t + total ys ≡ e = Seg-total h (c + z + t) ys e e (h (c + z)).next seg.2 in
    let touch : (c + (h c).size == q) ≡ true = ground (arith, seg.0) in
    let last : (q == e) ≡ false = ground (arith, seg.0, row.0.0) in
    let h' : Headers = update h c (record { next = (h q).next; size = (h c).size + (h q).size }) in
    let computed : merge_next e c q h ≡ h' = rw (touch, last) in
    let at : c + (z + t) ≡ c + z + t = omega arith in
    let rest : Seg h' (c + z + t) ys e e (h (c + z)).next =
      Seg-frame h h' (c + z + t) ys e e (h (c + z)).next row.2 (λ i lo hi. ground arith) seg.2 in
    let joined : Seg h' c (vacant (z + t) ∷ ys) e e c = (
      refl,
      ground (arith, seg.0, seg.1),
      rw at (subst (λ (p : ℕ). Seg h' (c + z + t) ys e e p) (ground (arith, seg.0)) rest),
    ) in
    subst (λ (k : Headers). Seg k c (vacant (z + t) ∷ ys) e e c × ((i : ℕ) → i ≢ c → k i ≡ h i))
      (sym computed) (joined, λ i ne. ground arith)
merge_next-Seg e c z q h (used t ∷ ys) row pos size seg =
    let first : (c + z + t ≤ q) × (q ≤ e) = Seg-first h (c + z + t) ys e q seg.2 in
    let apart : (c + (h c).size == q) ≡ false = ground (arith, first, row.0.0) in
    let rest : Seg (set_next c q h) (c + z) (used t ∷ ys) e e q =
      Seg-frame h (set_next c q h) (c + z) (used t ∷ ys) e e q row (λ i lo hi. ground arith) seg in
    let joined : Seg (set_next c q h) c (vacant z ∷ used t ∷ ys) e e c = (
      refl,
      ground arith,
      subst (λ (p : ℕ). Seg (set_next c q h) (c + z) (used t ∷ ys) e e p) (ground arith) rest,
    ) in
    subst (λ (k : Headers). Seg k c (vacant z ∷ used t ∷ ys) e e c × ((i : ℕ) → i ≢ c → k i ≡ h i))
      (sym (rw apart)) (joined, λ i ne. ground arith)

-- The row after a block is given back: `h'` represents it, and headers outside it are the same but
-- for the link of `iter`, which leads to it. The block at `b` does not carry the flag any more.
pub record Released (h h' : Headers) (b e a : ℕ) (bs : List Block) (iter : ℕ) : Type 0 where
  pub seg : Seg h' a bs e e (h' iter).next
  pub frame : (i : ℕ) → (i < a) ⊎ (e ≤ i) → i ≢ iter → h' i ≡ h i
  pub kept : (h' iter).size ≡ (h iter).size
  pub bare : (h' b).size < allocated_msk

join_next-bare :
    (s : ℕ) (h : Headers) (b : ℕ) (ys : List Block) (e q p : ℕ)
    → IsRow (join_next s ys)
    → Seg h b (join_next s ys) e q p
    → (h b).size < allocated_msk
unfolding join_next
join_next-bare s h b [] e q p row seg = omega (arith, seg.1, row.0)
join_next-bare s h b (vacant t ∷ ys) e q p row seg = omega (arith, seg.1, row.0)
join_next-bare s h b (used t ∷ ys) e q p row seg = omega (arith, seg.1, row.0)

link_block_far :
    (e iter b : ℕ) (h : Headers)
    → iter + (h iter).size ≢ b
    → iter ≢ b
    → link_block e iter b h ≡ set_next iter b (merge_next e b (h iter).next h)
unfolding link_block link_next
link_block_far e iter b h apart other =
    let far : (iter + (h iter).size == b) ≡ false = ne→== _ _ apart in
    let tests : (iter == b) ≡ false = ne→== _ _ other in rw (far, tests)

-- The header of `iter` with the size of the block behind it added.
abbrev grown : (iter b : ℕ) → Headers → Headers
grown iter b h = set_size iter ((h iter).size + (h b).size) h

link_block_near :
    (e iter b : ℕ) (h : Headers)
    → iter + (h iter).size ≡ b
    → link_block e iter b h ≡ merge_next e iter (grown iter b h iter).next (grown iter b h)
unfolding link_block link_next
link_block_near e iter b h touch =
    let near : (iter + (h iter).size == b) ≡ true = eq→== _ _ touch in
    let same : (iter == iter) ≡ true = eq→== _ _ refl in rw (near, same)

module _ (e b s iter : ℕ) (h : Headers) (ys : List Block) where
  -- The block before does not touch.
  apart-Released :
      IsSize s
      → IsRow ys
      → s + total ys < allocated_msk
      → (h b).size ≡ s
      → (iter < b) ⊎ (e ≤ iter)
      → iter + (h iter).size ≢ b
      → Seg h (b + s) ys e e (h iter).next
      → Released h (link_block e iter b h) b e b (join_next s ys) iter
  apart-Released good row small size out apart seg =
      let end : b + s + total ys ≡ e = Seg-total h (b + s) ys e e (h iter).next seg in
      let h' : Headers = merge_next e b (h iter).next h in
      let (made, frame) = merge_next-Seg e b s (h iter).next h ys row (omega arith) size seg in
      let here : h' iter ≡ h iter = frame iter (ground arith) in
      let whole : b + total (join_next s ys) ≡ e = omega (arith, total-join_next s ys) in
      let rest : Seg (set_next iter b h') b (join_next s ys) e e b =
        Seg-frame h' (set_next iter b h') b (join_next s ys) e e b
          (join_next-IsRow s ys good row small) (λ i lo hi. ground arith) made in
      rw (link_block_far e iter b h apart (ground arith)) (record {
        seg =
            subst (λ (p : ℕ). Seg (set_next iter b h') b (join_next s ys) e e p) (ground arith)
              rest;
        frame = λ i o ne. ground (arith, frame i);
        kept = ground arith;
        bare =
            join_next-bare s (set_next iter b h') b ys e e b (join_next-IsRow s ys good row small)
              rest;
      })

  -- The block before, of size `r`, is vacant: it grows.
  touching-Released :
      (r prev : ℕ)
      → IsSize s
      → 0 < r
      → IsRow ys
      → (h b).size ≡ s
      → (h iter).size ≡ r
      → iter + r ≡ b
      → (h prev).next ≡ iter
      → (prev < iter) ⊎ (e ≤ prev)
      → Seg h (b + s) ys e e (h iter).next
      → Released h (link_block e iter b h) b e iter (join_next (r + s) ys) prev
  touching-Released r prev good pos row size size' touch leads out seg =
      let end : b + s + total ys ≡ e = Seg-total h (b + s) ys e e (h iter).next seg in
      let h1 : Headers = grown iter b h in
      let at : iter + (r + s) ≡ b + s = omega arith in
      let moved : Seg h1 (b + s) ys e e (h iter).next =
        Seg-frame h h1 (b + s) ys e e (h iter).next row (λ i lo hi. ground arith) seg in
      let rest : Seg h1 (iter + (r + s)) ys e e (h1 iter).next =
        rw at (subst (λ (p : ℕ). Seg h1 (b + s) ys e e p) (ground arith) moved) in
      let (made, frame) =
        merge_next-Seg e iter (r + s) (h1 iter).next h1 ys row (omega arith) (ground arith) rest in
      let other : prev ≢ iter = ground arith in
      let same : (i : ℕ) → i ≢ iter → h1 i ≡ h i = λ i ne. ground arith in
      let here : merge_next e iter (h1 iter).next h1 prev ≡ h prev =
        frame prev other ∙ same prev other in
      rw (link_block_near e iter b h (omega arith)) (record {
        seg =
            subst
              (λ (p : ℕ).
                Seg (merge_next e iter (h1 iter).next h1) iter (join_next (r + s) ys) e e p)
              (sym (ap (λ c. c.next) here ∙ leads)) made;
        frame = λ i o ne. frame i (ground arith) ∙ same i (ground arith);
        kept = ap (λ c. c.size) here;
        bare =
            omega (arith, ap (λ c. c.size) (frame b (omega arith) ∙ same b (omega arith)), good.2);
      })

module _ (b e a r iter : ℕ) (h h' : Headers) (new : List Block) where
  used-Released :
      (h a).size ≡ r + allocated_msk
      → (h a).next ≡ 0
      → 0 < r
      → a + r ≤ e
      → (iter < a) ⊎ (e ≤ iter)
      → Released h h' b e (a + r) new iter
      → Released h h' b e a (used r ∷ new) iter
  used-Released size link pos below out rest =
      let here : h' a ≡ h a = rest.frame a (inl (omega arith)) (ground arith) in
      record {
        seg = (rw here size, rw here link, rest.seg);
        frame = λ i o ne. rest.frame i (ground arith) ne;
        kept = rest.kept;
        bare = rest.bare;
      }

  vacant-Released :
      (h a).size ≡ r
      → (h iter).next ≡ a
      → 0 < r
      → a + r ≤ e
      → (iter < a) ⊎ (e ≤ iter)
      → Released h h' b e (a + r) new a
      → Released h h' b e a (vacant r ∷ new) iter
  vacant-Released size leads pos below out rest =
      let here : h' iter ≡ h iter = rest.frame iter (ground arith) (ground arith) in
      record {
        seg = (ap (λ c. c.next) here ∙ leads, rest.kept ∙ size, rest.seg);
        frame = λ i o ne. rest.frame i (ground arith) (ground arith);
        kept = ap (λ c. c.size) here;
        bare = rest.bare;
      }

insert_after_stop :
    (n iter b : ℕ) (h : Headers) → b ≤ (h iter).next → insert_after n iter b h ≡ iter
unfolding insert_after
insert_after_stop zero iter b h le = refl
insert_after_stop (suc n) iter b h le = ground arith

insert_after_step :
    (n iter b : ℕ) (h : Headers)
    → (h iter).next < b
    → insert_after (suc n) iter b h ≡ insert_after n (h iter).next b h
unfolding insert_after
insert_after_step n iter b h lt = ground arith

-- The walk and the writes of os_mem_block_insert, for a block of size `s` at `b` between `xs` and
-- `ys`.
pub insert-Released :
    (n e b s iter a q : ℕ) (h : Headers) (xs ys : List Block)
    → IsRow xs
    → IsSize s
    → IsRow ys
    → total xs + s + total ys < allocated_msk
    → length xs < n
    → (h b).size ≡ s
    → (iter < a) ⊎ (e ≤ iter)
    → iter + (h iter).size ≢ b
    → Seg h a xs b q (h iter).next
    → Seg h (b + s) ys e e q
    → Released h (link_block e (insert_after n iter b h) b h) b e a (release xs s ys) iter
unfolding insert_after release
insert-Released zero e b s iter a q h xs ys row good row' small fuel size out apart seg seg' =
    absurd (omega arith)
insert-Released (suc n) e b s iter a q h [] ys row good row' small fuel size out apart seg seg' =
    let stop : insert_after (suc n) iter b h ≡ iter =
      insert_after_stop (suc n) iter b h
        (omega (arith, seg.1, (Seg-first h (b + s) ys e q seg').0)) in
    rw (stop, seg.0)
      (apart-Released e b s iter h ys good row' (omega arith) size (ground (arith, seg.0)) apart
        (subst (λ (p : ℕ). Seg h (b + s) ys e e p) (sym seg.1) seg'))
insert-Released (suc n) e b s iter a q h (used r ∷ xs) ys row good row' small fuel size out apart
      seg seg' =
    let mid : a + r + total xs ≡ b = Seg-total h (a + r) xs b q (h iter).next seg.2 in
    let end : b + s + total ys ≡ e = Seg-total h (b + s) ys e e q seg' in
    used-Released b e a r iter h _ _ seg.0 seg.1 (omega (arith, row.0.0)) (omega arith) out (
      insert-Released (suc n) e b s iter (a + r) q h xs ys row.1 good row' (omega arith)
        (omega arith) size (ground arith) apart seg.2 seg')
insert-Released (suc n) e b s iter a q h (vacant r ∷ []) ys row good row' small fuel size out apart
      seg seg' =
    let end : b + s + total ys ≡ e = Seg-total h (b + s) ys e e q seg' in
    let step : insert_after (suc n) iter b h ≡ a =
      insert_after_step n iter b h (omega (arith, seg.0, seg.2.0, row.0.0))
      ∙ ap (λ (c : ℕ). insert_after n c b h) seg.0
      ∙ insert_after_stop n a b h (omega (arith, seg.2.1, (Seg-first h (b + s) ys e q seg').0)) in
    rw step (
      touching-Released e b s a h ys r iter good (omega (arith, row.0.0)) row' size seg.1 seg.2.0
        seg.0 out (subst (λ (p : ℕ). Seg h (b + s) ys e e p) (sym seg.2.1) seg'))
insert-Released (suc n) e b s iter a q h (vacant r ∷ x ∷ xs) ys row good row' small fuel size out
      apart seg seg' =
    let mid : a + r + total (x ∷ xs) ≡ b = Seg-total h (a + r) (x ∷ xs) b q (h a).next seg.2 in
    let end : b + s + total ys ≡ e = Seg-total h (b + s) ys e e q seg' in
    let more : 0 < total (x ∷ xs) = omega (arith, length-le-total (x ∷ xs) row.2) in
    let step : insert_after (suc n) iter b h ≡ insert_after n a b h =
      insert_after_step n iter b h (omega (arith, seg.0))
      ∙ ap (λ (c : ℕ). insert_after n c b h) seg.0 in
    rw step (
      vacant-Released b e a r iter h _ _ seg.1 seg.0 (omega (arith, row.0.0)) (omega arith) out (
        insert-Released n e b s a (a + r) q h (x ∷ xs) ys row.2 good row' (omega arith)
          (omega arith) size (inl (omega (arith, row.0.0))) (ground (arith, seg.1)) seg.2 seg'))
