-- ===== src/Log/Drain.antt =====
-- The log task takes the bytes of the ring out in order, while lines come in.
use ahura_kernel.Prelude.{
  ℕ, zero, suc, ◌+◌, ◌-◌, ◌%◌, ◌≤◌, ◌<◌, ◌≡◌, refl, sym, ap, ◌∙◌, List, [], ◌∷◌, ◌++◌, length,
  arith,
}
use mathlib.Core.List.{append_assoc}
use native.Mathlib.Nat.{mod-lt, mod-eq_of_lt}
use ahura_kernel.Log.{Log, free_space, put, chunk, advance}
use ahura_kernel.Log.Ring.{
  after, dist, read, contents, IsRing, mod_once, put-contents, put-dist, put-IsRing,
}
use ahura_kernel.Queue.Bytes.{Memory, copy_out}

read-copy_out : (size n p : ℕ) (m : Memory) → p + n ≤ size → read size n p m ≡ copy_out p n m
unfolding read copy_out
read-copy_out size zero p m fits = refl
read-copy_out size (suc zero) p m fits = refl
read-copy_out size (suc (suc n)) p m fits =
    let next : after size p ≡ p + 1 = ground arith in
    ap (λ (ys : List ℕ). m p ∷ ys)
      (ap (λ (q : ℕ). read size (suc n) q m) next
        ∙ read-copy_out size (suc n) (p + 1) m (omega arith))

-- The bytes in two parts; the first ends at the end of the ring or before it.
read-add :
    (size n k p : ℕ) (m : Memory)
    → p < size
    → p + n ≤ size
    → read size (n + k) p m ≡ copy_out p n m ++ read size k ((p + n) % size) m
unfolding copy_out read
read-add size zero k p m lp fits =
    let all : 0 + k ≡ k = omega arith in
    let here : (p + 0) % size ≡ p = ap (λ (q : ℕ). q % size) (omega arith) ∙ mod-eq_of_lt lp in
    rw (all, here) refl
read-add size (suc zero) k p m lp fits =
    let all : 1 + k ≡ suc k = omega arith in
    let here : (p + 1) % size ≡ after size p =
      mod_once (p + 1) size (omega arith) (omega arith) ∙ ground arith in
    rw (all, here) refl
read-add size (suc (suc n)) k p m lp fits =
    let all : suc (suc n) + k ≡ suc (suc n + k) = omega arith in
    let next : after size p ≡ p + 1 = ground arith in
    let at : p + suc (suc n) ≡ p + 1 + suc n = omega arith in
    rw (all, next, at)
      (ap (λ (ys : List ℕ). m p ∷ ys)
        (read-add size (suc n) k (p + 1) m (omega arith) (omega arith)))

-- The front of the ring, up to its end, and what is left once the tail has been moved past it.
advance-front :
    (n : ℕ) (g : Log)
    → IsRing g
    → g.tail + n ≤ g.size
    → n ≤ dist g.size g.tail g.head
    → contents g ≡ copy_out g.tail n g.buffer ++ contents (advance n g)
unfolding advance
advance-front n g ring fits front =
    let rest : dist g.size ((g.tail + n) % g.size) g.head ≡ dist g.size g.tail g.head - n =
      rw
        (mod_once (g.tail + n) g.size (omega (arith, ring.some_size)) (omega (arith, ring.tail_in)))
        (ground (arith, ring.head_in, ring.tail_in, fits, front)) in
    let sum : dist g.size g.tail g.head ≡ n + (dist g.size g.tail g.head - n) =
      omega (arith, front) in
    rw rest (
      ap (λ (d : ℕ). read g.size d g.tail g.buffer) sum
      ∙ read-add g.size n (dist g.size g.tail g.head - n) g.tail g.buffer ring.tail_in fits)

pub chunk_bounds :
    (g : Log)
    → IsRing g
    → (g.tail + (chunk g).1 ≤ g.size) × ((chunk g).1 ≤ dist g.size g.tail g.head)
unfolding chunk
chunk_bounds g ring =
    (ground (arith, ring.head_in, ring.tail_in), ground (arith, ring.head_in, ring.tail_in))

pub advance-zero : (g : Log) → IsRing g → contents (advance 0 g) ≡ contents g
unfolding copy_out
advance-zero g ring = sym (advance-front 0 g ring (omega (arith, ring.tail_in)) (omega arith))

chunk_tail :
    (g : Log) → copy_out g.tail (chunk g).1 g.buffer ≡ copy_out (chunk g).0 (chunk g).1 g.buffer
unfolding chunk copy_out
chunk_tail g = ground arith

pub chunk-front :
    (g : Log)
    → IsRing g
    → contents g ≡ copy_out (chunk g).0 (chunk g).1 g.buffer ++ contents (advance (chunk g).1 g)
chunk-front g ring =
    advance-front (chunk g).1 g ring (chunk_bounds g ring).0 (chunk_bounds g ring).1
    ∙ ap (λ (xs : List ℕ). xs ++ contents (advance (chunk g).1 g)) (chunk_tail g)

pub advance-IsRing : (n : ℕ) (g : Log) → IsRing g → IsRing (advance n g)
unfolding advance
advance-IsRing n g ring = record {
  some_size = ring.some_size;
  head_in = ring.head_in;
  tail_in = mod-lt (g.tail + n) (omega (arith, ring.some_size));
}

append_cancel :
    (xs ys a b : List ℕ) → length xs ≡ length ys → xs ++ a ≡ ys ++ b → (xs ≡ ys) × (a ≡ b)
append_cancel [] [] a b len e = (refl, e)
append_cancel [] (y ∷ ys) a b len e = absurd (omega arith)
append_cancel (x ∷ xs) [] a b len e = absurd (omega arith)
append_cancel (x ∷ xs) (y ∷ ys) a b len e =
    let head : x ≡ y = cc in
    let tail : xs ++ a ≡ ys ++ b = cc in
    let (front, rest) = append_cancel xs ys a b (omega arith) tail in (cc, rest)

pub length-copy_out : (p n : ℕ) (m : Memory) → length (copy_out p n m) ≡ n
unfolding copy_out
length-copy_out p zero m = refl
length-copy_out p (suc n) m = omega (arith, length-copy_out (p + 1) n m)

-- A line that is put in while the first `n` bytes are with the output callback leaves those bytes
-- as they are, and goes behind the rest.
pub put-keeps_front :
    (line : List ℕ) (n : ℕ) (g : Log)
    → IsRing g
    → g.tail + n ≤ g.size
    → n ≤ dist g.size g.tail g.head
    → length line ≤ free_space g
    → (copy_out g.tail n (put line g).buffer ≡ copy_out g.tail n g.buffer)
      × (contents (advance n (put line g)) ≡ contents (advance n g) ++ line)
unfolding put
put-keeps_front line n g ring fits front room =
    let added = put-contents line g ring room in
    let before = advance-front n g ring fits front in
    let behind =
      advance-front n (put line g) (put-IsRing line g ring) fits
        (omega (arith, (put-dist line g ring room).1)) in
    append_cancel (copy_out g.tail n (put line g).buffer) (copy_out g.tail n g.buffer) _ _
      (length-copy_out g.tail n _ ∙ sym (length-copy_out g.tail n _))
      (sym behind
        ∙ added
        ∙ ap (λ (xs : List ℕ). xs ++ line) before
        ∙ append_assoc (copy_out g.tail n g.buffer) (contents (advance n g)) line)
