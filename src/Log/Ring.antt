-- ===== src/Log/Ring.antt =====
-- The log ring holds a row of bytes: what is written goes behind it.
use ahura_kernel.Prelude.{
  ℕ, zero, suc, ◌+◌, ◌-◌, ◌%◌, ◌≤◌, ◌<◌, ◌≡◌, refl, sym, ap, ◌∙◌, false, ltb, leb, ◌==◌,
  if◌then◌else◌, Bool-cases, ltb→lt, ltb→le, inl, inr, List, [], ◌∷◌, ◌++◌, length, update, arith,
}
use mathlib.Core.Path.{ap₂}
use native.Mathlib.Nat.{mod-lt, mod-eq_of_lt, mod-eq-sub-mod}
use ahura_kernel.Log.{Log, take, drop, free_space, put}
use ahura_kernel.Queue.Bytes.{Memory, copy_in}

-- The position behind `p` in a ring of `size` bytes.
abbrev pub after : ℕ → ℕ → ℕ
after size p = if p + 1 == size then 0 else p + 1

-- How many steps lead from `p` to `q`.
abbrev pub dist : ℕ → ℕ → ℕ → ℕ
dist size p q = if leb p q then q - p else size - (p - q)

-- The `n` bytes from position `p` on.
unfoldable pub read : (size n p : ℕ) → Memory → List ℕ
read size zero p m = []
read size (suc n) p m = m p ∷ read size n (after size p) m

-- The ring with bytes written from position `p` on.
unfoldable pub write : (size p : ℕ) → List ℕ → Memory → Memory
write size p [] m = m
write size p (x ∷ xs) m = write size (after size p) xs (update m p x)

-- The bytes in the ring.
abbrev pub contents : Log → List ℕ
contents g = read g.size (dist g.size g.tail g.head) g.tail g.buffer

pub record IsRing (g : Log) : Type 0 where
  pub some_size : 2 ≤ g.size
  pub head_in : g.head < g.size
  pub tail_in : g.tail < g.size

pub length-read : (size n p : ℕ) (m : Memory) → length (read size n p m) ≡ n
unfolding read
length-read size zero p m = refl
length-read size (suc n) p m = omega (arith, length-read size n (after size p) m)

write-other :
    (size p q : ℕ) (xs : List ℕ) (m : Memory)
    → p < size
    → q < size
    → length xs ≤ dist size p q
    → write size p xs m q ≡ m q
unfolding write
write-other size p q [] m lp lq far = refl
write-other size p q (x ∷ xs) m lp lq far =
    write-other size (after size p) q xs (update m p x) (ground arith) lq (ground arith)
    ∙ ground arith

-- What is written is read back.
read-write :
    (size p : ℕ) (xs : List ℕ) (m : Memory)
    → p < size
    → length xs < size
    → read size (length xs) p (write size p xs m) ≡ xs
unfolding read write
read-write size p [] m lp short = refl
read-write size p (x ∷ xs) m lp short =
    ap₂ (λ (y : ℕ) (ys : List ℕ). y ∷ ys)
      (write-other size (after size p) p xs (update m p x) (ground arith) lp (ground arith)
        ∙ ground arith)
      (read-write size (after size p) xs (update m p x) (ground arith) (omega arith))

-- Bytes that are in the ring stay there.
read-write_behind :
    (size n p q : ℕ) (xs : List ℕ) (m : Memory)
    → p < size
    → q < size
    → dist size p q ≡ n
    → n + length xs < size
    → read size (n + length xs) p (write size q xs m) ≡ read size n p m ++ xs
unfolding read
read-write_behind size zero p q xs m lp lq d short =
    let same : p ≡ q = ground arith in
    let all : 0 + length xs ≡ length xs = omega arith in
    rw (all, same) (read-write size q xs m lq (omega arith))
read-write_behind size (suc n) p q xs m lp lq d short =
    let next : suc n + length xs ≡ suc (n + length xs) = omega arith in
    rw next (
      ap₂ (λ (y : ℕ) (ys : List ℕ). y ∷ ys) (write-other size q p xs m lq lp (ground arith))
        (read-write_behind size n (after size p) q xs m (ground arith) lq (ground arith)
          (omega arith)))

write-copy_in :
    (size p : ℕ) (xs : List ℕ) (m : Memory)
    → p + length xs ≤ size
    → write size p xs m ≡ copy_in p xs m
unfolding write copy_in
write-copy_in size p [] m fits = refl
write-copy_in size p (x ∷ []) m fits = refl
write-copy_in size p (x ∷ y ∷ xs) m fits =
    let next : after size p ≡ p + 1 = ground arith in
    rw next (write-copy_in size (p + 1) (y ∷ xs) (update m p x) (omega arith))

write_wrapped :
    (size p n : ℕ) (xs : List ℕ) (m : Memory)
    → p + suc n ≡ size
    → suc n < length xs
    → length xs ≤ size
    → write size p xs m ≡ copy_in 0 (drop (suc n) xs) (copy_in p (take (suc n) xs) m)
unfolding write copy_in
write_wrapped size p n [] m end more fits = absurd (omega arith)
write_wrapped size p zero (x ∷ xs) m end more fits =
    let next : after size p ≡ 0 = ground arith in
    rw next (write-copy_in size 0 xs (update m p x) (omega arith))
write_wrapped size p (suc n) (x ∷ xs) m end more fits =
    let next : after size p ≡ p + 1 = ground arith in
    rw next
      (write_wrapped size (p + 1) n xs (update m p x) (omega arith) (omega arith) (omega arith))

write_round :
    (size p room : ℕ) (xs : List ℕ) (m : Memory)
    → p + room ≡ size
    → 0 < room
    → room < length xs
    → length xs ≤ size
    → write size p xs m ≡ copy_in 0 (drop room xs) (copy_in p (take room xs) m)
write_round size p zero xs m end some more fits = absurd (omega arith)
write_round size p (suc n) xs m end some more fits = write_wrapped size p n xs m end more fits

take-all : (xs : List ℕ) → take (length xs) xs ≡ xs
take-all [] = refl
take-all (x ∷ xs) = ap (λ (ys : List ℕ). x ∷ ys) (take-all xs)

-- The two copies of os_log_put write the line round the end of the ring.
put_lem :
    (line : List ℕ) (g : Log)
    → IsRing g
    → length line ≤ g.size
    → (put line g).buffer ≡ write g.size g.head line g.buffer
unfolding put
put_lem line g ring fits = elim (Bool-cases (ltb (length line) (g.size - g.head))) [
  | inl short ↦
      let whole : ltb (length line) (length line) ≡ false = ground arith in
      rw (short, whole, take-all line)
        (sym (write-copy_in g.size g.head line g.buffer (ground (arith, short, ring.head_in))))
  | inr long ↦ elim (Bool-cases (ltb (g.size - g.head) (length line))) [
    | inl more ↦
        rw (long, more)
          (sym (
            write_round g.size g.head (g.size - g.head) line g.buffer (omega (arith, ring.head_in))
              (omega (arith, ring.head_in)) (ltb→lt _ _ more) fits))
    | inr exact ↦
        let whole : g.size - g.head ≡ length line = ground (arith, long, exact) in
        rw (long, exact, whole, take-all line)
          (sym (write-copy_in g.size g.head line g.buffer (omega (arith, whole, ring.head_in))))
  ]
]

-- A position that has passed the end once.
pub mod_once :
    (a size : ℕ) → 0 < size → a < size + size → a % size ≡ (if ltb a size then a else a - size)
mod_once a size some below = elim (Bool-cases (ltb a size)) [
  | inl low ↦ rw low (mod-eq_of_lt (ltb→lt a size low))
  | inr high ↦
      rw high
        (mod-eq-sub-mod (ltb→le a size high) ∙ mod-eq_of_lt (omega (arith, ltb→le a size high)))
]

dist-advance :
    (size p q n : ℕ)
    → p < size
    → q < size
    → dist size p q + n < size
    → dist size p ((q + n) % size) ≡ dist size p q + n
dist-advance size p q n lp lq short =
    rw (mod_once (q + n) size (omega arith) (ground arith)) (ground arith)

pub put-dist :
    (line : List ℕ) (g : Log)
    → IsRing g
    → length line ≤ free_space g
    → (dist g.size g.tail g.head + length line < g.size)
      × (dist g.size g.tail ((g.head + length line) % g.size)
          ≡ dist g.size g.tail g.head + length line)
unfolding free_space
put-dist line g ring fits =
    let short : dist g.size g.tail g.head + length line < g.size =
      ground (arith, fits, ring.tail_in, ring.head_in) in
    (short, dist-advance g.size g.tail g.head (length line) ring.tail_in ring.head_in short)

-- os_log_put adds a line that fits behind the bytes in the ring.
pub put-contents :
    (line : List ℕ) (g : Log)
    → IsRing g
    → length line ≤ free_space g
    → contents (put line g) ≡ contents g ++ line
unfolding put
put-contents line g ring fits =
    let (short, far) = put-dist line g ring fits in
    rw (put_lem line g ring (omega arith), far)
      (read-write_behind g.size (dist g.size g.tail g.head) g.tail g.head line g.buffer ring.tail_in
        ring.head_in refl short)

pub put-IsRing : (line : List ℕ) (g : Log) → IsRing g → IsRing (put line g)
unfolding put
put-IsRing line g ring = record {
  some_size = ring.some_size;
  head_in = mod-lt (g.head + length line) (omega (arith, ring.some_size));
  tail_in = ring.tail_in;
}

-- The free space is what the ring can still take, one byte less than its size.
pub free_space-contents : (g : Log) → IsRing g → free_space g + length (contents g) + 1 ≡ g.size
unfolding free_space
free_space-contents g ring = ground (
  arith,
  length-read g.size (dist g.size g.tail g.head) g.tail g.buffer,
  ring.tail_in,
  ring.head_in,
)
