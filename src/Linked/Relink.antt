-- ===== src/Linked/Relink.antt =====
-- A list in the store, and the two relinks that the operations are made of.
use ahura_kernel.Prelude.{
  ℕ, ◌≡◌, refl, sym, subst, ◌∙◌, true, false, not, ◌==◌, if◌then◌else◌, eq→==, ne→==, List, [], ◌∷◌,
  arith,
}
use ahura_kernel.Linked.{Store, set_next, set_prev, set_head, set_tail}
use ahura_kernel.Linked.Links.{
  NotIn, Distinct, Links, last-ne, last_some, Links-last, Links-first, with_prev,
}

-- The list at `l` holds the nodes `xs`, in this order.
pub record IsList (s : Store) (l : ℕ) (xs : List ℕ) : Type 0 where
  pub links : Links s.node 0 (s.ends l).head xs (s.ends l).tail 0
  pub distinct : Distinct xs

-- A node of no list, as os_list_pop_front and os_list_remove leave it.
abbrev pub IsDetached : Store → ℕ → Type 0
IsDetached s n = ((s.node n).next ≡ 0) × ((s.node n).prev ≡ 0)

-- The link of the last node `m`, or of the list head if there is none, is set to `c`.
abbrev pub link_last : (l m c : ℕ) → Store → Store
link_last l m c s = if not (m == 0) then set_next m c s else set_head l c s

-- The back link of `c`, or of the list tail if there is none, is set to `m`.
abbrev pub link_first : (l c m : ℕ) → Store → Store
link_first l c m s = if not (c == 0) then set_prev c m s else set_tail l m s

pub record Last (l m c : ℕ) (xs : List ℕ) (s s' : Store) : Type 0 where
  pub links : Links s'.node 0 (s'.ends l).head xs m c
  pub tail : (s'.ends l).tail ≡ (s.ends l).tail
  pub frame : (i : ℕ) → NotIn i xs → s'.node i ≡ s.node i

pub link_last_lem :
    (l m b c : ℕ) (xs : List ℕ) (s : Store)
    → Distinct xs
    → Links s.node 0 (s.ends l).head xs m b
    → Last l m c xs s (link_last l m c s)
link_last_lem l m b c [] s d links =
    let none_before : (m == 0) ≡ true = eq→== _ _ links.1 in
    rw none_before
      (record { links = (ground arith, links.1); tail = ground arith; frame = λ i out. refl })
link_last_lem l m b c (x ∷ xs) s d links =
    let some : (m == 0) ≡ false = ne→== _ _ (last_some s.node 0 _ x xs m b links) in
    rw some (record {
      links = Links-last s.node 0 _ x xs m b c d links;
      tail = refl;
      frame = λ i out. ground (arith, last-ne s.node 0 _ x xs m b i out links);
    })

pub record First (l m c : ℕ) (xs : List ℕ) (s s' : Store) : Type 0 where
  pub links : Links s'.node m c xs (s'.ends l).tail 0
  pub head : (s'.ends l).head ≡ (s.ends l).head
  pub frame : (i : ℕ) → NotIn i xs → s'.node i ≡ s.node i

pub link_first_lem :
    (l m b c : ℕ) (xs : List ℕ) (s : Store)
    → Distinct xs
    → Links s.node b c xs (s.ends l).tail 0
    → First l m c xs s (link_first l c m s)
link_first_lem l m b c [] s d links =
    let none_behind : (c == 0) ≡ true = eq→== _ _ links.0 in
    rw none_behind
      (record { links = (links.0, ground arith); head = ground arith; frame = λ i out. refl })
link_first_lem l m b c (x ∷ xs) s d links =
    let some : (c == 0) ≡ false = ne→== _ _ (λ e. links.1 (sym links.0 ∙ e)) in
    rw some (record {
      links =
          subst (λ (k : ℕ). Links (with_prev k m s.node) m c (x ∷ xs) (s.ends l).tail 0)
            (sym links.0) (Links-first s.node b c x xs (s.ends l).tail 0 m d links);
      head = refl;
      frame = λ i out. ground (arith, out.0, links.0);
    })
