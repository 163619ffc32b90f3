-- ===== src/Linked/Remove.antt =====
-- os_list_remove and os_list_pop_front.
use ahura_kernel.Prelude.{
  ℕ, ◌≡◌, ◌≢◌, refl, sym, ap, ◌∙◌, true, false, ◌==◌, eq→==, ne→==, List, [], ◌∷◌, ◌++◌, arith,
}
use ahura_kernel.Linked.{
  Node, Store, set_next, set_prev, set_head, pop_front, is_linked, unlink_forward, unlink_backward,
  list_remove,
}
use ahura_kernel.Linked.Links.{
  Links, Links-frame, Links-append, append-Links, last_some, append-NotIn, Distinct-middle,
  Links-Off, Distinct-Off,
}
use ahura_kernel.Linked.Relink.{
  IsList, IsDetached, link_last, link_first, link_last_lem, link_first_lem,
}

is_linked_lem :
    (l n : ℕ) (xs : List ℕ) (m b : ℕ) (s : Store)
    → (s.node n).prev ≡ m
    → Links s.node 0 (s.ends l).head xs m b
    → b ≡ n
    → is_linked l n s ≡ true
is_linked_lem l n [] m b s prev links at =
    let first : ((s.ends l).head == n) ≡ true = eq→== _ _ (links.0 ∙ at) in ground (arith, first)
is_linked_lem l n (x ∷ xs) m b s prev links at =
    let some : ((s.node n).prev == 0) ≡ false =
      ne→== _ _ (λ e. last_some s.node 0 _ x xs m b links (sym prev ∙ e)) in
    rw some

-- os_list_remove on a linked node is two relinks and the detaching.
list_remove_lem :
    (l n m : ℕ) (s : Store)
    → l ≢ 0
    → n ≢ 0
    → (s.node n).prev ≡ m
    → is_linked l n s ≡ true
    → (link_last l m (s.node n).next s).node n ≡ s.node n
    → list_remove l n s
      ≡ set_prev n 0
          (set_next n 0 (link_first l (s.node n).next m (link_last l m (s.node n).next s)))
unfolding list_remove
list_remove_lem l n m s some some_node prev linked here =
    let g1 : (l == 0) ≡ false = ne→== _ _ some in
    let g2 : (n == 0) ≡ false = ne→== _ _ some_node in
    let forward : unlink_forward l n s ≡ link_last l m (s.node n).next s =
      ap (λ (k : ℕ). link_last l k (s.node n).next s) prev in
    let backward : unlink_backward l n (link_last l m (s.node n).next s)
        ≡ link_first l (s.node n).next m (link_last l m (s.node n).next s) =
      ap (λ (x : Node). link_first l x.next x.prev (link_last l m (s.node n).next s)) here
      ∙ ap (λ (k : ℕ). link_first l (s.node n).next k (link_last l m (s.node n).next s)) prev in
    rw (g1, g2, linked, forward, backward)

-- os_list_remove takes one node out of the list, wherever it is, and detaches it.
pub list_remove-IsList :
    (l n : ℕ) (xs ys : List ℕ) (s : Store)
    → l ≢ 0
    → IsList s l (xs ++ n ∷ ys)
    → IsList (list_remove l n s) l (xs ++ ys) × IsDetached (list_remove l n s) n
list_remove-IsList l n xs ys s some list =
    let (m, b, left, (at, some_node, prev, right)) =
      Links-append s.node 0 (s.ends l).head xs (n ∷ ys) (s.ends l).tail 0 list.links in
    let (d, out, out', all, d') = Distinct-middle xs n ys list.distinct in
    let (off, off') = Distinct-Off xs ys all in
    let c = (s.node n).next in
    let s1 = link_last l m c s in
    let last = link_last_lem l m b c xs s d left in
    let right1 : Links s1.node n c ys (s1.ends l).tail 0 =
      rw last.tail (Links-Off s.node s1.node n c ys (s.ends l).tail 0 xs off last.frame right) in
    let s2 = link_first l c m s1 in
    let first = link_first_lem l m n c ys s1 d' right1 in
    let left2 : Links s2.node 0 (s2.ends l).head xs m c =
      rw first.head
        (Links-Off s1.node s2.node 0 (s1.ends l).head xs m c ys off' first.frame last.links) in
    let joined : Links s2.node 0 (s2.ends l).head (xs ++ ys) (s2.ends l).tail 0 =
      append-Links s2.node 0 (s2.ends l).head xs ys m c (s2.ends l).tail 0 left2 first.links in
    let call : list_remove l n s ≡ set_prev n 0 (set_next n 0 s2) =
      list_remove_lem l n m s some some_node prev (is_linked_lem l n xs m b s prev left at)
        (last.frame n out) in
    rw call (
      record {
        links =
            Links-frame s2.node _ 0 _ (xs ++ ys) _ 0 n (append-NotIn n xs ys out out')
              (λ i ne. ground arith) joined;
        distinct = all;
      },
      (ground arith, ground arith),
    )

-- os_list_remove on a detached node that is not the head changes nothing.
pub list_remove-detached :
    (l n : ℕ) (s : Store) → IsDetached s n → (s.ends l).head ≢ n → list_remove l n s ≡ s
unfolding list_remove
list_remove-detached l n s (next, prev) other =
    let unlinked : is_linked l n s ≡ false =
      let g1 : ((s.node n).next == 0) ≡ true = eq→== _ _ next in
      let g2 : ((s.node n).prev == 0) ≡ true = eq→== _ _ prev in
      let g3 : ((s.ends l).head == n) ≡ false = ne→== _ _ other in rw (g1, g2, g3) in
    rw unlinked (ground arith)

pop_front_lem :
    (l n : ℕ) (s : Store)
    → l ≢ 0
    → n ≢ 0
    → (s.ends l).head ≡ n
    → pop_front l s ≡ (
      n,
      set_prev n 0 (set_next n 0 (link_first l (s.node n).next 0 (set_head l (s.node n).next s))),
    )
unfolding pop_front
pop_front_lem l n s some some_node at =
    let g1 : (l == 0) ≡ false = ne→== _ _ some in
    let g2 : (n == 0) ≡ false = ne→== _ _ some_node in rw (at, g1, g2)

-- os_list_pop_front takes the first node, returns it, and detaches it.
pub pop_front-IsList :
    (l n : ℕ) (xs : List ℕ) (s : Store)
    → l ≢ 0
    → IsList s l (n ∷ xs)
    → ((pop_front l s).0 ≡ n) × IsList (pop_front l s).1 l xs × IsDetached (pop_front l s).1 n
pop_front-IsList l n xs s some list =
    let (at, some_node, prev, links) = list.links in
    let c = (s.node n).next in
    let s1 : Store = set_head l c s in
    let tail : (s1.ends l).tail ≡ (s.ends l).tail = ground arith in
    let s2 : Store = link_first l c 0 s1 in
    let first = link_first_lem l 0 n c xs s1 list.distinct.1 (rw tail links) in
    let head : (s2.ends l).head ≡ c = first.head ∙ ground arith in
    rw (pop_front_lem l n s some some_node at) (
      refl,
      record {
        links =
            Links-frame s2.node _ 0 _ xs _ 0 n list.distinct.0 (λ i ne. ground arith)
              (rw head first.links);
        distinct = list.distinct.1;
      },
      (ground arith, ground arith),
    )

-- On an empty list it returns NULL and changes nothing.
pub pop_front-empty : (l : ℕ) (s : Store) → IsList s l [] → pop_front l s ≡ (0, s)
unfolding pop_front
pop_front-empty l s list = ground (arith, list.links.0)
