-- ===== src/Linked/Links.antt =====
-- What a linked list represents, and how a write at its ends changes it.
use ahura_kernel.Prelude.{ℕ, ◌≡◌, ◌≢◌, refl, sym, subst, ◌∙◌, List, [], ◌∷◌, ◌++◌, update, arith}
use ahura_kernel.Linked.{Node}

abbrev pub Nodes : Type 0
Nodes = ℕ → Node

abbrev pub NotIn : ℕ → List ℕ → Type 0
NotIn n [] = Unit {0}
NotIn n (x ∷ xs) = (x ≢ n) × NotIn n xs

abbrev pub Distinct : List ℕ → Type 0
Distinct [] = Unit {0}
Distinct (x ∷ xs) = NotIn x xs × Distinct xs

-- The nodes `xs` are linked both ways: `a` is the first, `p` is before it, `z` is the last, and `b`
-- is behind it.
abbrev pub Links : Nodes → (p a : ℕ) → List ℕ → (z b : ℕ) → Type 0
Links h p a [] z b = (a ≡ b) × (z ≡ p)
Links h p a (x ∷ xs) z b = (a ≡ x) × (x ≢ 0) × ((h x).prev ≡ p) × Links h x (h x).next xs z b

-- Writes to other nodes do not matter.
pub Links-frame :
    (h h' : Nodes) (p a : ℕ) (xs : List ℕ) (z b n : ℕ)
    → NotIn n xs
    → ((i : ℕ) → i ≢ n → h' i ≡ h i)
    → Links h p a xs z b
    → Links h' p a xs z b
Links-frame h h' p a [] z b n out same links = links
Links-frame h h' p a (x ∷ xs) z b n out same (e, some, prev, links) =
    let here : h' x ≡ h x = same x out.0 in
    let rest = Links-frame h h' x (h x).next xs z b n out.1 same links in
    (e, some, rw here prev, rw here rest)

pub Links-append :
    (h : Nodes) (p a : ℕ) (xs ys : List ℕ) (z b : ℕ)
    → Links h p a (xs ++ ys) z b
    → (m : ℕ) × (c : ℕ) × Links h p a xs m c × Links h m c ys z b
Links-append h p a [] ys z b links = (p, a, (refl, refl), links)
Links-append h p a (x ∷ xs) ys z b (e, some, prev, links) =
    let (m, c, left, right) = Links-append h x (h x).next xs ys z b links in
    (m, c, (e, some, prev, left), right)

pub append-Links :
    (h : Nodes) (p a : ℕ) (xs ys : List ℕ) (m c z b : ℕ)
    → Links h p a xs m c
    → Links h m c ys z b
    → Links h p a (xs ++ ys) z b
append-Links h p a [] ys m c z b (e, l) right =
    subst (λ (k : ℕ). Links h k a ys z b) l (subst (λ (k : ℕ). Links h m k ys z b) (sym e) right)
append-Links h p a (x ∷ xs) ys m c z b (e, some, prev, left) right =
    (e, some, prev, append-Links h x (h x).next xs ys m c z b left right)

-- The last node is one of the list.
pub last-ne :
    (h : Nodes) (p a x : ℕ) (xs : List ℕ) (z b n : ℕ)
    → NotIn n (x ∷ xs)
    → Links h p a (x ∷ xs) z b
    → z ≢ n
last-ne h p a x [] z b n out links = λ e. out.0 (sym links.3.1 ∙ e)
last-ne h p a x (y ∷ xs) z b n out links = last-ne h x (h x).next y xs z b n out.1 links.3

pub last_some : (h : Nodes) (p a x : ℕ) (xs : List ℕ) (z b : ℕ) → Links h p a (x ∷ xs) z b → z ≢ 0
last_some h p a x [] z b links = λ e. links.1 (sym links.3.1 ∙ e)
last_some h p a x (y ∷ xs) z b links = last_some h x (h x).next y xs z b links.3

abbrev pub with_next : ℕ → ℕ → Nodes → Nodes
with_next n q h = update h n (record (h n) { next = q })

abbrev pub with_prev : ℕ → ℕ → Nodes → Nodes
with_prev n q h = update h n (record (h n) { prev = q })

-- The last node gets another successor.
pub Links-last :
    (h : Nodes) (p a x : ℕ) (xs : List ℕ) (z b c : ℕ)
    → Distinct (x ∷ xs)
    → Links h p a (x ∷ xs) z b
    → Links (with_next z c h) p a (x ∷ xs) z c
Links-last h p a x [] z b c distinct (e, some, prev, (next, last)) =
    (e, some, ground arith, (ground arith, last))
Links-last h p a x (y ∷ xs) z b c distinct (e, some, prev, links) =
    let other : z ≢ x = last-ne h x (h x).next y xs z b x distinct.0 links in
    let here : with_next z c h x ≡ h x = ground arith in
    let rest = Links-last h x (h x).next y xs z b c distinct.1 links in
    (e, some, rw here prev, rw here rest)

-- The first node gets another predecessor.
pub Links-first :
    (h : Nodes) (p a x : ℕ) (xs : List ℕ) (z b q : ℕ)
    → Distinct (x ∷ xs)
    → Links h p a (x ∷ xs) z b
    → Links (with_prev x q h) q a (x ∷ xs) z b
Links-first h p a x xs z b q distinct (e, some, prev, links) =
    let rest : Links (with_prev x q h) x (h x).next xs z b =
      Links-frame h (with_prev x q h) x (h x).next xs z b x distinct.0 (λ i ne. ground arith)
        links in
    (
      e,
      some,
      ground arith,
      subst (λ (k : ℕ). Links (with_prev x q h) x k xs z b) (ground arith) rest,
    )

pub NotIn-append : (n : ℕ) (xs ys : List ℕ) → NotIn n (xs ++ ys) → NotIn n xs × NotIn n ys
NotIn-append n [] ys out = (tt, out)
NotIn-append n (x ∷ xs) ys out = let (l, r) = NotIn-append n xs ys out.1 in ((out.0, l), r)

pub append-NotIn : (n : ℕ) (xs ys : List ℕ) → NotIn n xs → NotIn n ys → NotIn n (xs ++ ys)
append-NotIn n [] ys l r = r
append-NotIn n (x ∷ xs) ys l r = (l.0, append-NotIn n xs ys l.1 r)

-- The nodes around one of a list are distinct from it and from one another.
pub Distinct-middle :
    (xs : List ℕ) (n : ℕ) (ys : List ℕ)
    → Distinct (xs ++ n ∷ ys)
    → Distinct xs × NotIn n xs × NotIn n ys × Distinct (xs ++ ys) × Distinct ys
Distinct-middle [] n ys d = (tt, tt, d.0, d.1, d.1)
Distinct-middle (x ∷ xs) n ys d =
    let (l, m, r, all, right) = Distinct-middle xs n ys d.1 in
    let (a, b) = NotIn-append x xs (n ∷ ys) d.0 in
    ((a, l), ((λ e. b.0 (sym e)), m), r, (append-NotIn x xs ys a b.1, all), right)

-- No node of the second list is in the first.
abbrev pub Off : List ℕ → List ℕ → Type 0
Off ys [] = Unit {0}
Off ys (x ∷ xs) = NotIn x ys × Off ys xs

pub Links-Off :
    (h h' : Nodes) (p a : ℕ) (xs : List ℕ) (z b : ℕ) (ys : List ℕ)
    → Off ys xs
    → ((i : ℕ) → NotIn i ys → h' i ≡ h i)
    → Links h p a xs z b
    → Links h' p a xs z b
Links-Off h h' p a [] z b ys out same links = links
Links-Off h h' p a (x ∷ xs) z b ys out same (e, some, prev, links) =
    let here : h' x ≡ h x = same x out.0 in
    let rest = Links-Off h h' x (h x).next xs z b ys out.1 same links in
    (e, some, rw here prev, rw here rest)

Off-nil : (xs : List ℕ) → Off [] xs
Off-nil [] = tt
Off-nil (x ∷ xs) = (tt, Off-nil xs)

Off-cons : (y : ℕ) (ys xs : List ℕ) → NotIn y xs → Off ys xs → Off (y ∷ ys) xs
Off-cons y ys [] out off = tt
Off-cons y ys (x ∷ xs) out off = (((λ e. out.0 (sym e)), off.0), Off-cons y ys xs out.1 off.1)

pub Distinct-Off : (ys xs : List ℕ) → Distinct (ys ++ xs) → Off ys xs × Off xs ys
Distinct-Off [] xs d = (Off-nil xs, tt)
Distinct-Off (y ∷ ys) xs d =
    let (l, r) = NotIn-append y ys xs d.0 in
    let (below, above) = Distinct-Off ys xs d.1 in (Off-cons y ys xs r below, (r, above))

pub Distinct-insert :
    (xs : List ℕ) (n : ℕ) (ys : List ℕ)
    → NotIn n (xs ++ ys)
    → Distinct (xs ++ ys)
    → Distinct (xs ++ n ∷ ys)
Distinct-insert [] n ys out d = (out, d)
Distinct-insert (x ∷ xs) n ys out d =
    let (l, r) = NotIn-append x xs ys d.0 in
    (append-NotIn x xs (n ∷ ys) l ((λ e. out.0 (sym e)), r), Distinct-insert xs n ys out.1 d.1)
