-- ===== src/Linked/Insert.antt =====
-- os_list_push_back and os_list_insert_before.
use ahura_kernel.Prelude.{
  ℕ, ◌≡◌, ◌≢◌, refl, sym, subst, ap, ◌∙◌, true, false, ◌==◌, eq→==, ne→==, List, [], ◌∷◌, ◌++◌,
  arith,
}
use mathlib.Core.List.{append-nil}
use ahura_kernel.Linked.{Store, set_next, set_prev, set_tail, push_back, link_before, insert_before}
use ahura_kernel.Linked.Links.{
  NotIn, Distinct, Links, Links-frame, Links-append, append-Links, Links-first, NotIn-append,
  append-NotIn, Distinct-insert, Distinct-middle, Links-Off, Distinct-Off,
}
use ahura_kernel.Linked.Relink.{IsList, link_last, link_last_lem}

push_back_lem :
    (l n : ℕ) (s : Store)
    → l ≢ 0
    → n ≢ 0
    → push_back l n s
      ≡ set_tail l n (link_last l (s.ends l).tail n (set_prev n (s.ends l).tail (set_next n 0 s)))
unfolding push_back
push_back_lem l n s some some_node =
    let g1 : (l == 0) ≡ false = ne→== _ _ some in
    let g2 : (n == 0) ≡ false = ne→== _ _ some_node in rw (g1, g2)

-- os_list_push_back puts a node of no list at the end.
pub push_back-IsList :
    (l n : ℕ) (xs : List ℕ) (s : Store)
    → l ≢ 0
    → n ≢ 0
    → NotIn n xs
    → IsList s l xs
    → IsList (push_back l n s) l (xs ++ n ∷ [])
push_back-IsList l n xs s some some_node out list =
    let m = (s.ends l).tail in
    let s1 : Store = set_prev n m (set_next n 0 s) in
    let links1 : Links s1.node 0 (s.ends l).head xs m 0 =
      Links-frame s.node s1.node 0 _ xs m 0 n out (λ i ne. ground arith) list.links in
    let s2 : Store = link_last l m n s1 in
    let last = link_last_lem l m 0 n xs s1 list.distinct links1 in
    let node : s2.node n ≡ s1.node n = last.frame n out in
    let here : Links s2.node m n (n ∷ []) n 0 = (
      refl,
      some_node,
      ap (λ x. x.prev) node ∙ ground arith,
      (ap (λ x. x.next) node ∙ ground arith, refl),
    ) in
    let joined = append-Links s2.node 0 (s2.ends l).head xs (n ∷ []) m n n 0 last.links here in
    let same : (l == l) ≡ true = eq→== _ _ refl in
    rw (push_back_lem l n s some some_node) (record {
      links = rw same joined;
      distinct =
          Distinct-insert xs n [] (append-NotIn n xs [] out tt)
            (subst Distinct (sym (append-nil xs)) list.distinct);
    })

insert_before_lem :
    (l p n m : ℕ) (s : Store)
    → l ≢ 0
    → n ≢ 0
    → p ≢ 0
    → p ≢ n
    → (s.node p).prev ≡ m
    → insert_before l p n s ≡ set_prev p n (link_last l m n (set_prev n m (set_next n p s)))
unfolding insert_before link_before
insert_before_lem l p n m s some some_node some_p other prev =
    let g1 : (l == 0) ≡ false = ne→== _ _ some in
    let g2 : (n == 0) ≡ false = ne→== _ _ some_node in
    let g3 : (p == 0) ≡ false = ne→== _ _ some_p in
    let g4 : (n == p) ≡ false = ne→== _ _ (λ e. other (sym e)) in rw (g1, g2, g3, g4, prev)

-- os_list_insert_before puts it before a node of the list.
pub insert_before-IsList :
    (l p n : ℕ) (xs ys : List ℕ) (s : Store)
    → l ≢ 0
    → n ≢ 0
    → NotIn n (xs ++ p ∷ ys)
    → IsList s l (xs ++ p ∷ ys)
    → IsList (insert_before l p n s) l (xs ++ n ∷ p ∷ ys)
insert_before-IsList l p n xs ys s some some_node out list =
    let (m, b, left, (at, some_p, prev, right)) =
      Links-append s.node 0 (s.ends l).head xs (p ∷ ys) (s.ends l).tail 0 list.links in
    let (d, off_p, off_p', all, d') = Distinct-middle xs p ys list.distinct in
    let (out_xs, out_ys) = NotIn-append n xs (p ∷ ys) out in
    let (off, off') = Distinct-Off xs (p ∷ ys) list.distinct in
    let s1 : Store = set_prev n m (set_next n p s) in
    let left1 : Links s1.node 0 (s.ends l).head xs m b =
      Links-frame s.node s1.node 0 _ xs m b n out_xs (λ i ne. ground arith) left in
    let right1 : Links s1.node m p (p ∷ ys) (s.ends l).tail 0 =
      Links-frame s.node s1.node m p (p ∷ ys) _ 0 n out_ys (λ i ne. ground arith)
        (refl, some_p, prev, right) in
    let s2 : Store = link_last l m n s1 in
    let last = link_last_lem l m b n xs s1 d left1 in
    let right2 : Links s2.node m p (p ∷ ys) (s2.ends l).tail 0 =
      rw last.tail (Links-Off s1.node s2.node m p (p ∷ ys) _ 0 xs off last.frame right1) in
    let s3 : Store = set_prev p n s2 in
    let right3 : Links s3.node n p (p ∷ ys) (s2.ends l).tail 0 =
      Links-first s2.node m p p ys _ 0 n (off_p', d') right2 in
    let left3 : Links s3.node 0 (s2.ends l).head xs m n =
      Links-frame s2.node s3.node 0 _ xs m n p off_p (λ i ne. ground arith) last.links in
    let node : s3.node n ≡ s1.node n = ground (arith, last.frame n out_xs, out_ys.0) in
    let here : Links s3.node m n (n ∷ p ∷ ys) (s2.ends l).tail 0 = (
      refl,
      some_node,
      ap (λ x. x.prev) node ∙ ground arith,
      subst (λ (k : ℕ). Links s3.node n k (p ∷ ys) (s2.ends l).tail 0)
          (sym (ap (λ x. x.next) node ∙ ground arith)) right3,
    ) in
    rw (insert_before_lem l p n m s some some_node some_p out_ys.0 prev) (record {
      links = append-Links s3.node 0 (s2.ends l).head xs (n ∷ p ∷ ys) m n _ 0 left3 here;
      distinct = Distinct-insert xs n (p ∷ ys) out list.distinct;
    })
