-- ===== src/Queue/Bytes.antt =====
-- memcpy between an item and a slot of a queue's buffer, byte by byte.
use ahura_kernel.Prelude.{
  ℕ, zero, suc, ◌+◌, ◌*◌, ◌≤◌, ◌<◌, ◌≢◌, ◌≡◌, refl, ◌∙◌, inl, inr, ltb, ltb→lt, Bool-cases, List,
  [], ◌∷◌, update, length, arith,
}
use mathlib.Core.Path.{ap₂}
use native.Mathlib.Nat.{mul-le-mul_right, suc-mul}

-- The bytes of a buffer by their offset.
abbrev pub Memory : Type 0
Memory = ℕ → ℕ

-- `memcpy(&buffer[offset], item, length item)`
unfoldable pub copy_in : ℕ → List ℕ → Memory → Memory
copy_in offset [] m = m
copy_in offset (x ∷ xs) m = copy_in (offset + 1) xs (update m offset x)

-- The bytes that `memcpy(item_out, &buffer[offset], n)` copies
unfoldable pub copy_out : ℕ → ℕ → Memory → List ℕ
copy_out offset zero m = []
copy_out offset (suc n) m = m offset ∷ copy_out (offset + 1) n m

-- Bytes below the slot keep their values.
copy_in-below :
    (offset : ℕ) (xs : List ℕ) (m : Memory) (i : ℕ) → i < offset → copy_in offset xs m i ≡ m i
unfolding copy_in
copy_in-below offset [] m i h = refl
copy_in-below offset (x ∷ xs) m i h =
    copy_in-below (offset + 1) xs (update m offset x) i (omega arith) ∙ ground arith

copy_in-above :
    (offset : ℕ) (xs : List ℕ) (m : Memory) (i : ℕ)
    → offset + length xs ≤ i
    → copy_in offset xs m i ≡ m i
unfolding copy_in
copy_in-above offset [] m i h = refl
copy_in-above offset (x ∷ xs) m i h =
    copy_in-above (offset + 1) xs (update m offset x) i (omega arith) ∙ ground arith

copy_out-alike :
    (offset n : ℕ) (m m' : Memory)
    → ((i : ℕ) → offset ≤ i → i < offset + n → m' i ≡ m i)
    → copy_out offset n m' ≡ copy_out offset n m
unfolding copy_out
copy_out-alike offset zero m m' h = refl
copy_out-alike offset (suc n) m m' h =
    ap₂ (λ (x : ℕ) (xs : List ℕ). x ∷ xs) (h offset (omega arith) (omega arith))
      (copy_out-alike (offset + 1) n m m' (λ i a b. h i (omega arith) (omega arith)))

-- What is copied in is copied out again.
pub copy_out-copy_in :
    (offset : ℕ) (xs : List ℕ) (m : Memory) → copy_out offset (length xs) (copy_in offset xs m) ≡ xs
unfolding copy_out copy_in
copy_out-copy_in offset [] m = refl
copy_out-copy_in offset (x ∷ xs) m =
    ap₂ (λ (y : ℕ) (ys : List ℕ). y ∷ ys)
      (copy_in-below (offset + 1) xs (update m offset x) offset (omega arith) ∙ ground arith)
      (copy_out-copy_in (offset + 1) xs (update m offset x))

slot_end : (n i j : ℕ) → i < j → i * n + n ≤ j * n
slot_end n i j h = omega (arith, mul-le-mul_right {m = suc i} {n = j} n h, suc-mul i n)

-- A slot of `n` bytes keeps its content when another slot is written.
pub copy_out-other :
    (n i j : ℕ) (xs : List ℕ) (m : Memory)
    → length xs ≡ n
    → i ≢ j
    → copy_out (i * n) n (copy_in (j * n) xs m) ≡ copy_out (i * n) n m
copy_out-other n i j xs m e ne = copy_out-alike (i * n) n m (copy_in (j * n) xs m) outside
  where
    outside : (b : ℕ) → i * n ≤ b → b < i * n + n → copy_in (j * n) xs m b ≡ m b
    outside b lo hi = elim (Bool-cases (ltb i j)) [
      | inl h ↦ copy_in-below (j * n) xs m b (omega (arith, slot_end n i j (ltb→lt i j h)))
      | inr h ↦ copy_in-above (j * n) xs m b (omega (arith, slot_end n j i (ground arith)))
    ]
