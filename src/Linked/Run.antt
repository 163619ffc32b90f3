-- ===== src/Linked/Run.antt =====
-- Every sequence of list operations.
use ahura_kernel.Prelude.{
  ℕ, ◌≡◌, ◌≢◌, refl, sym, ap, ◌∙◌, subst, true, false, eq→==, ne→==, ==→eq, ==→ne, Bool-cases, inl,
  inr, ◌==◌, List, [], ◌∷◌, ◌++◌, arith,
}
use ahura_kernel.Linked.{Store, list_init, push_back, pop_front, list_remove, insert_before}
use ahura_kernel.Linked.Links.{NotIn, Links}
use ahura_kernel.Linked.Relink.{IsList, IsDetached}
use ahura_kernel.Linked.Remove.{
  list_remove-IsList, list_remove-detached, pop_front-IsList, pop_front-empty,
}
use ahura_kernel.Linked.Insert.{push_back-IsList, insert_before-IsList}

-- The calls as the scheduler makes them, the ones that do nothing included: a node that is put in is in
-- no place of the list, with no position that is at its end; and one that is taken out is in the list,
-- or detached, or NULL. The second index is the list that the calls describe.
pub data Calls (l : ℕ) : Store → List ℕ → Type 0 where
  start : (s : Store) → Calls l (list_init l s) []
  push :
      {s : Store} {xs : List ℕ} (n : ℕ)
      → n ≢ 0
      → NotIn n xs
      → Calls l s xs
      → Calls l (push_back l n s) (xs ++ n ∷ [])
  insert :
      {s : Store} (xs : List ℕ) (p n : ℕ) (ys : List ℕ)
      → n ≢ 0
      → NotIn n (xs ++ p ∷ ys)
      → Calls l s (xs ++ p ∷ ys)
      → Calls l (insert_before l p n s) (xs ++ n ∷ p ∷ ys)
  insert_last :
      {s : Store} {xs : List ℕ} (n : ℕ)
      → n ≢ 0
      → NotIn n xs
      → Calls l s xs
      → Calls l (insert_before l 0 n s) (xs ++ n ∷ [])
  insert_null :
      {s : Store} {xs : List ℕ} (p : ℕ) → Calls l s xs → Calls l (insert_before l p 0 s) xs
  push_null : {s : Store} {xs : List ℕ} → Calls l s xs → Calls l (push_back l 0 s) xs
  pop : {s : Store} (n : ℕ) (xs : List ℕ) → Calls l s (n ∷ xs) → Calls l (pop_front l s).1 xs
  pop_empty : {s : Store} → Calls l s [] → Calls l (pop_front l s).1 []
  remove :
      {s : Store} (xs : List ℕ) (n : ℕ) (ys : List ℕ)
      → Calls l s (xs ++ n ∷ ys)
      → Calls l (list_remove l n s) (xs ++ ys)
  remove_detached :
      {s : Store} {xs : List ℕ} (n : ℕ)
      → IsDetached s n
      → NotIn n xs
      → Calls l s xs
      → Calls l (list_remove l n s) xs
  remove_null : {s : Store} {xs : List ℕ} → Calls l s xs → Calls l (list_remove l 0 s) xs

insert_before-last : (l n : ℕ) (s : Store) → l ≢ 0 → n ≢ 0 → insert_before l 0 n s ≡ push_back l n s
unfolding insert_before
insert_before-last l n s some some_node = ground (arith, some, some_node)

insert_before-null : (l p : ℕ) (s : Store) → insert_before l p 0 s ≡ s
unfolding insert_before
insert_before-null l p s = ground arith

push_back-null : (l : ℕ) (s : Store) → push_back l 0 s ≡ s
unfolding push_back
push_back-null l s = ground arith

list_remove-null : (l : ℕ) (s : Store) → list_remove l 0 s ≡ s
unfolding list_remove
list_remove-null l s = ground arith

-- A detached node that is in no place of the list is not its head either, unless it is NULL.
list_remove-outside :
    (l n : ℕ) (s : Store) (xs : List ℕ)
    → IsDetached s n
    → NotIn n xs
    → IsList s l xs
    → list_remove l n s ≡ s
list_remove-outside l n s xs detached out list = elim (Bool-cases (n == 0)) [
  | inl null ↦
      subst (λ (i : ℕ). list_remove l i s ≡ s) (sym (==→eq n 0 null)) (list_remove-null l s)
  | inr some ↦ list_remove-detached l n s detached (head_other xs out list.links (==→ne n 0 some))
]
  where
    head_other :
        (xs : List ℕ)
        → NotIn n xs
        → Links s.node 0 (s.ends l).head xs (s.ends l).tail 0
        → n ≢ 0
        → (s.ends l).head ≢ n
    head_other [] out links some = λ e. some (sym e ∙ links.0)
    head_other (x ∷ xs) out links some = λ e. out.0 (sym links.0 ∙ e)

list_init-IsList : (l : ℕ) (s : Store) → l ≢ 0 → IsList (list_init l s) l []
unfolding list_init
list_init-IsList l s some =
    let g1 : (l == 0) ≡ false = ne→== _ _ some in
    let same : (l == l) ≡ true = eq→== _ _ refl in
    rw g1 (record { links = rw same (refl, refl); distinct = tt })

-- Whatever sequence of calls is made on a list that is not NULL, each as `Calls` says, its nodes are
-- linked both ways in the order that the calls describe, from the head to the tail, each once.
pub Calls-IsList : (l : ℕ) (s : Store) (xs : List ℕ) → l ≢ 0 → Calls l s xs → IsList s l xs
Calls-IsList l s xs some (start s') = list_init-IsList l s' some
Calls-IsList l s xs some (push n some_node out calls) =
    push_back-IsList l n _ _ some some_node out (Calls-IsList l _ _ some calls)
Calls-IsList l s xs some (insert ys p n zs some_node out calls) =
    insert_before-IsList l p n ys zs _ some some_node out (Calls-IsList l _ _ some calls)
Calls-IsList l s xs some (pop n ys calls) =
    (pop_front-IsList l n ys _ some (Calls-IsList l _ _ some calls)).1
Calls-IsList l s xs some (remove ys n zs calls) =
    (list_remove-IsList l n ys zs _ some (Calls-IsList l _ _ some calls)).0
Calls-IsList l s xs some (insert_last n some_node out calls) =
    subst (λ (s' : Store). IsList s' l xs) (sym (insert_before-last l n _ some some_node))
      (push_back-IsList l n _ _ some some_node out (Calls-IsList l _ _ some calls))
Calls-IsList l s xs some (insert_null p calls) =
    subst (λ (s' : Store). IsList s' l xs) (sym (insert_before-null l p _))
      (Calls-IsList l _ _ some calls)
Calls-IsList l s xs some (push_null calls) =
    subst (λ (s' : Store). IsList s' l xs) (sym (push_back-null l _))
      (Calls-IsList l _ _ some calls)
Calls-IsList l s xs some (pop_empty calls) =
    let list = Calls-IsList l _ [] some calls in
    subst (λ (s' : Store). IsList s' l []) (sym (ap (λ r. r.1) (pop_front-empty l _ list))) list
Calls-IsList l s xs some (remove_detached n detached out calls) =
    let list = Calls-IsList l _ _ some calls in
    subst (λ (s' : Store). IsList s' l xs) (sym (list_remove-outside l n _ _ detached out list))
      list
Calls-IsList l s xs some (remove_null calls) =
    subst (λ (s' : Store). IsList s' l xs) (sym (list_remove-null l _))
      (Calls-IsList l _ _ some calls)
