-- ===== src/Atomic/Flags.antt =====
-- The operations of core/os_atomic.c on one bit.
use ahura_kernel.Prelude.{
  ℕ, ◌<◌, ◌^◌, bit_and, bit_or, ◌≡◌, ◌≢◌, refl, sym, ap, subst, ◌∙◌, Bool, true, false, ◌&&◌, ◌==◌,
  if◌then◌else◌, Bool-cases, ==→eq, ne→==, inl, inr, update, arith,
}
use ahura_kernel.Prelude.Bits.{
  bit, complement, bit-zero, bit-bit_or, bit-bit_and, bit-pow, bit-complement, eq_zero_of_bits,
  bit_or-lt, bit_and-le, pow-lt,
}
use ahura_kernel.Atomic.{
  Words, fetch, has_mask, has_bit, test_and_set_bit, test_and_clear_bit, set_bit, clear_bit,
  set_bit_to,
}

-- `value & (1UL << b)` is not 0 exactly if bit `b` is set.
has_mask_lem : (x b : ℕ) → x < 2 ^ 32 → b < 32 → has_mask x (2 ^ b) ≡ bit x b
has_mask_lem x b word small = elim (Bool-cases (bit x b)) [
  | inl up ↦
      let one : bit (bit_and x (2 ^ b)) b ≡ true =
        bit-bit_and x (2 ^ b) b ∙ ground (arith, up, bit-pow b b) in
      let some : (bit_and x (2 ^ b) == 0) ≡ false =
        ne→== (bit_and x (2 ^ b)) 0
          (λ z. absurd (ground (arith, sym one ∙ ap (λ (y : ℕ). bit y b) z, bit-zero b))) in
      rw (some, up) refl
  | inr down ↦
      let nothing : bit_and x (2 ^ b) ≡ 0 =
        eq_zero_of_bits 32 (bit_and x (2 ^ b)) (omega (arith, bit_and-le x (2 ^ b)))
          (λ i lt. bit-bit_and x (2 ^ b) i ∙ only b i (bit-pow b i) down) in
      rw (nothing, down) refl
]
  where
    only :
        (b i : ℕ) → bit (2 ^ b) i ≡ (b == i) → bit x b ≡ false → (bit x i && bit (2 ^ b) i) ≡ false
    only b i at down = elim (Bool-cases (b == i)) [
      | inl same ↦ rw (sym (==→eq b i same), down) refl
      | inr other ↦ ground (arith, at, other)
    ]

-- Bit `b` of the target is `value` afterwards; every other bit of it and every other word is kept.
pub record Writes (target b : ℕ) (value : Bool) (m m' : Words) : Type 0 where
  pub bits : (i : ℕ) → i < 32 → bit (m' target) i ≡ (if b == i then value else bit (m target) i)
  pub word : m' target < 2 ^ 32
  pub others : (a : ℕ) → a ≢ target → m' a ≡ m a

stored : (target v : ℕ) (m : Words) → update m target v target ≡ v
stored target v m = ground arith

set-Writes :
    (target b : ℕ) (m : Words)
    → m target < 2 ^ 32
    → b < 32
    → Writes target b true m (fetch (λ x. bit_or x (2 ^ b)) target m).1
unfolding fetch
set-Writes target b m word small =
    let here = stored target (bit_or (m target) (2 ^ b)) m in
    record {
      bits = λ i lt.
          ap (λ (y : ℕ). bit y i) here
          ∙ bit-bit_or (m target) (2 ^ b) i
          ∙ ground (arith, bit-pow b i);
      word =
          subst (λ (y : ℕ). y < 2 ^ 32) (sym here)
            (bit_or-lt 32 (m target) (2 ^ b) word (pow-lt b 32 small));
      others = λ a ne. ground (arith, ne);
    }

clear-Writes :
    (target b : ℕ) (m : Words)
    → m target < 2 ^ 32
    → b < 32
    → Writes target b false m (fetch (λ x. bit_and x (complement 32 (2 ^ b))) target m).1
unfolding fetch
clear-Writes target b m word small =
    let here = stored target (bit_and (m target) (complement 32 (2 ^ b))) m in
    record {
      bits = λ i lt.
          ap (λ (y : ℕ). bit y i) here
          ∙ bit-bit_and (m target) (complement 32 (2 ^ b)) i
          ∙ ground (arith, bit-complement 32 (2 ^ b) i (pow-lt b 32 small) lt, bit-pow b i);
      word =
          subst (λ (y : ℕ). y < 2 ^ 32) (sym here)
            (omega (arith, bit_and-le (m target) (complement 32 (2 ^ b))));
      others = λ a ne. ground (arith, ne);
    }

abbrev pub test_and_write : (target b : ℕ) → Bool → Words → Bool × Words
test_and_write target b true m = test_and_set_bit target b m
test_and_write target b false m = test_and_clear_bit target b m

-- On a bit below 32 of a word that is not NULL, os_atomic_test_and_set_bit and
-- os_atomic_test_and_clear_bit return the bit, and leave it set and cleared; os_atomic_set_bit_to
-- leaves it as asked; each keeps the other bits of the word and all other words.
pub test_and_write-Writes :
    (target b : ℕ) (value : Bool) (m : Words)
    → target ≢ 0
    → b < 32
    → m target < 2 ^ 32
    → ((test_and_write target b value m).0 ≡ bit (m target) b)
      × Writes target b value m (test_and_write target b value m).1
      × Writes target b value m (set_bit_to target b value m)
unfolding test_and_set_bit test_and_clear_bit set_bit clear_bit set_bit_to fetch
test_and_write-Writes target b true m some small word =
    let ok : has_bit target b ≡ true = ground (arith, some, small) in
    rw ok (
      has_mask_lem (m target) b word small,
      set-Writes target b m word small,
      set-Writes target b m word small,
    )
test_and_write-Writes target b false m some small word =
    let ok : has_bit target b ≡ true = ground (arith, some, small) in
    rw ok (
      has_mask_lem (m target) b word small,
      clear-Writes target b m word small,
      clear-Writes target b m word small,
    )
