-- ===== src/Prelude/Bits.antt =====
-- The bits of a machine word. The kernel's flag words are native numbers; this module reads the
-- word operations of the code (`|`, `&`, `~`, `1 << p`) through the single bits.
use Prim.Native.Nat.{
  ℕ, zero, suc, ◌-◌, ◌/◌, ◌%◌, ◌^◌, ◌≤◌, ◌<◌, min, max, bit_and, bit_or, digits, bit_and-bitwise,
  bit_or-bitwise,
}
use mathlib.Core.Path.{◌≡◌, refl, ap, ◌∙◌}
use mathlib.Core.Bool.{Bool, false, not, ◌&&◌, ◌||◌}
use native.Mathlib.Nat.{pow-suc}
use native.Mathlib.Omega.{arith}
use ahura_kernel.Prelude.Tests.{◌==◌}

-- Bit `i` of `x`.
unfoldable pub bit : ℕ → ℕ → Bool
bit x zero = x % 2 == 1
bit x (suc i) = bit (x / 2) i

-- `~x` on a word of `w` bits.
unfoldable pub complement : ℕ → ℕ → ℕ
complement w x = 2 ^ w - 1 - x

pub bit-zero : (i : ℕ) → bit 0 i ≡ false
unfolding bit
bit-zero zero = refl
bit-zero (suc i) = bit-zero i

digits_or : (i n a b : ℕ) → a ≤ n → bit (digits (λ y. y) max n a b) i ≡ (bit a i || bit b i)
unfolding bit
digits_or i zero zero b h = ground (arith, bit-zero i)
digits_or i zero (suc a) b h = absurd (omega arith)
digits_or i (suc n) zero b h = ground (arith, bit-zero i)
digits_or zero (suc n) (suc a) b h = ground arith
digits_or (suc i) (suc n) (suc a) b h =
    ap (λ (x : ℕ). bit x i) (omega arith) ∙ digits_or i n (suc a / 2) (b / 2) (omega arith)

pub bit-bit_or : (a b i : ℕ) → bit (bit_or a b) i ≡ (bit a i || bit b i)
bit-bit_or a b i = ap (λ (x : ℕ). bit x i) (bit_or-bitwise a b) ∙ digits_or i a a b (omega arith)

digits_and : (i n a b : ℕ) → a ≤ n → bit (digits (λ y. 0) min n a b) i ≡ (bit a i && bit b i)
unfolding bit
digits_and i zero zero b h = ground (arith, bit-zero i)
digits_and i zero (suc a) b h = absurd (omega arith)
digits_and i (suc n) zero b h = ground (arith, bit-zero i)
digits_and zero (suc n) (suc a) b h = ground arith
digits_and (suc i) (suc n) (suc a) b h =
    ap (λ (x : ℕ). bit x i) (omega arith) ∙ digits_and i n (suc a / 2) (b / 2) (omega arith)

pub bit-bit_and : (a b i : ℕ) → bit (bit_and a b) i ≡ (bit a i && bit b i)
bit-bit_and a b i = ap (λ (x : ℕ). bit x i) (bit_and-bitwise a b) ∙ digits_and i a a b (omega arith)

pub bit-pow : (p i : ℕ) → bit (2 ^ p) i ≡ (p == i)
unfolding bit
bit-pow zero zero = refl
bit-pow zero (suc i) = ground (arith, bit-zero i)
bit-pow (suc p) zero = ground (arith, pow-suc 2 p)
bit-pow (suc p) (suc i) =
    let half : 2 ^ suc p / 2 ≡ 2 ^ p = omega (arith, pow-suc 2 p) in
    rw half (ground (arith, bit-pow p i))

pub bit-complement : (w x i : ℕ) → x < 2 ^ w → i < w → bit (complement w x) i ≡ not (bit x i)
unfolding bit complement
bit-complement zero x i h k = absurd (omega arith)
bit-complement (suc w) x zero h k = ground (arith, pow-suc 2 w)
bit-complement (suc w) x (suc i) h k =
    ap (λ (y : ℕ). bit y i) (omega (arith, pow-suc 2 w))
    ∙ bit-complement w (x / 2) i (omega (arith, pow-suc 2 w)) (omega arith)

-- Bits beyond the width are clear.
pub bit_high : (w x i : ℕ) → x < 2 ^ w → w ≤ i → bit x i ≡ false
unfolding bit
bit_high zero x i h k = ap (λ (y : ℕ). bit y i) (omega arith) ∙ bit-zero i
bit_high (suc w) x zero h k = absurd (omega arith)
bit_high (suc w) x (suc i) h k = bit_high w (x / 2) i (omega (arith, pow-suc 2 w)) (omega arith)

-- A word with no bit set is 0.
pub eq_zero_of_bits : (w x : ℕ) → x < 2 ^ w → ((i : ℕ) → i < w → bit x i ≡ false) → x ≡ 0
unfolding bit
eq_zero_of_bits zero x h none_set = omega arith
eq_zero_of_bits (suc w) x h none_set =
    let half : x / 2 ≡ 0 =
      eq_zero_of_bits w (x / 2) (omega (arith, pow-suc 2 w))
        (λ i k. none_set (suc i) (omega arith)) in
    ground (arith, none_set 0 (omega arith))

-- Words with the same bits are equal.
pub eq_of_bits : (w x y : ℕ) → x < 2 ^ w → y < 2 ^ w → ((i : ℕ) → i < w → bit x i ≡ bit y i) → x ≡ y
unfolding bit
eq_of_bits zero x y h k same = omega arith
eq_of_bits (suc w) x y h k same =
    let half : x / 2 ≡ y / 2 =
      eq_of_bits w (x / 2) (y / 2) (omega (arith, pow-suc 2 w)) (omega (arith, pow-suc 2 w))
        (λ i k. same (suc i) (omega arith)) in
    ground (arith, same 0 (omega arith))

-- `|` and `&` stay within the width.
digits_or-lt : (w n a b : ℕ) → a < 2 ^ w → b < 2 ^ w → digits (λ y. y) max n a b < 2 ^ w
digits_or-lt w zero a b p q = q
digits_or-lt w (suc n) zero b p q = q
digits_or-lt zero (suc n) (suc a) b p q = absurd (omega arith)
digits_or-lt (suc w) (suc n) (suc a) b p q = omega (
  arith,
  pow-suc 2 w,
  digits_or-lt w n (suc a / 2) (b / 2) (omega (arith, pow-suc 2 w)) (omega (arith, pow-suc 2 w)),
)

pub bit_or-lt : (w a b : ℕ) → a < 2 ^ w → b < 2 ^ w → bit_or a b < 2 ^ w
bit_or-lt w a b p q = omega (arith, bit_or-bitwise a b, digits_or-lt w a a b p q)

digits_and-le : (n a b : ℕ) → a ≤ n → digits (λ y. 0) min n a b ≤ a
digits_and-le zero a b h = omega arith
digits_and-le (suc n) zero b h = omega arith
digits_and-le (suc n) (suc a) b h = omega (arith, digits_and-le n (suc a / 2) (b / 2) (omega arith))

pub bit_and-le : (a b : ℕ) → bit_and a b ≤ a
bit_and-le a b = omega (arith, bit_and-bitwise a b, digits_and-le a a b (omega arith))

pub pow-lt : (p w : ℕ) → p < w → 2 ^ p < 2 ^ w
pow-lt p zero h = absurd (omega arith)
pow-lt zero (suc w) h = omega (arith, pow-suc 2 w, pow_pos w)
  where
    pow_pos : (n : ℕ) → 0 < 2 ^ n
    pow_pos zero = omega arith
    pow_pos (suc n) = omega (arith, pow-suc 2 n, pow_pos n)
pow-lt (suc p) (suc w) h = omega (arith, pow-suc 2 p, pow-suc 2 w, pow-lt p w (omega arith))
