-- ===== src/Atomic.antt =====
-- core/os_atomic.c, over the operations of arch/arm/common/os_arch_port_common.h that run in a
-- critical section. A word is its 32 bits as a number, and a target is an address, 0 for NULL.
pub mod Flags
use Prim.Native.Nat.{bit_xor}
use ahura_kernel.Prelude.{
  ℕ, ◌+◌, ◌-◌, ◌%◌, ◌^◌, bit_and, bit_or, Bool, true, false, not, ◌&&◌, ltb, ◌==◌, if◌then◌else◌,
  update,
}
use ahura_kernel.Prelude.Bits.{complement}

abbrev pub Words : Type 0
Words = ℕ → ℕ

-- os_arch_atomic_exchange, _add, _sub, _or, _and, _xor and _nand: the previous value is returned and
-- `f` of it is stored.
unfoldable pub fetch : (f : ℕ → ℕ) (target : ℕ) → Words → ℕ × Words
fetch f target m = (m target, update m target (f (m target)))

-- The guard of the operations that return the previous value
unfoldable pub guarded : (f : ℕ → ℕ) (target : ℕ) → Words → ℕ × Words
unfolding fetch
guarded f target m = if not (target == 0) then fetch f target m else (0, m)

unfoldable pub atomic_get : (target : ℕ) → Words → ℕ
atomic_get target m = if not (target == 0) then m target else 0

unfoldable pub atomic_set : (target value : ℕ) → Words → ℕ × Words
unfolding guarded
atomic_set target value m = guarded (λ _. value) target m

unfoldable pub atomic_clear : (target : ℕ) → Words → ℕ × Words
unfolding guarded
atomic_clear target m = guarded (λ _. 0) target m

unfoldable pub atomic_add : (target value : ℕ) → Words → ℕ × Words
unfolding guarded
atomic_add target value m = guarded (λ x. (x + value) % 2 ^ 32) target m

unfoldable pub atomic_sub : (target value : ℕ) → Words → ℕ × Words
unfolding guarded
atomic_sub target value m = guarded (λ x. (x + 2 ^ 32 - value) % 2 ^ 32) target m

unfoldable pub atomic_inc : (target : ℕ) → Words → ℕ × Words
unfolding guarded
atomic_inc target m = guarded (λ x. (x + 1) % 2 ^ 32) target m

unfoldable pub atomic_dec : (target : ℕ) → Words → ℕ × Words
unfolding guarded
atomic_dec target m = guarded (λ x. (x + 2 ^ 32 - 1) % 2 ^ 32) target m

unfoldable pub atomic_or : (target value : ℕ) → Words → ℕ × Words
unfolding guarded
atomic_or target value m = guarded (λ x. bit_or x value) target m

unfoldable pub atomic_and : (target value : ℕ) → Words → ℕ × Words
unfolding guarded
atomic_and target value m = guarded (λ x. bit_and x value) target m

unfoldable pub atomic_xor : (target value : ℕ) → Words → ℕ × Words
unfolding guarded
atomic_xor target value m = guarded (λ x. bit_xor x value) target m

unfoldable pub atomic_nand : (target value : ℕ) → Words → ℕ × Words
unfolding guarded
atomic_nand target value m = guarded (λ x. complement 32 (bit_and x value)) target m

-- os_atomic_cas, which does not fail without a reason in a critical section
unfoldable pub atomic_cas : (target expected desired : ℕ) → Words → Bool × Words
atomic_cas target expected desired m =
    if not (target == 0) && m target == expected
    then (true, update m target desired)
    else (false, m)

-- `(value & mask) != 0`
abbrev pub has_mask : (value mask : ℕ) → Bool
has_mask value mask = not (bit_and value mask == 0)

-- `(target != NULL) && (bit < OS_ATOMIC_BITS)`
abbrev pub has_bit : (target bit : ℕ) → Bool
has_bit target bit = not (target == 0) && ltb bit 32

unfoldable pub test_bit : (target bit : ℕ) → Words → Bool
test_bit target bit m = has_bit target bit && has_mask (m target) (2 ^ bit)

unfoldable pub test_and_set_bit : (target bit : ℕ) → Words → Bool × Words
unfolding fetch
test_and_set_bit target bit m =
    let (previous, m') = fetch (λ x. bit_or x (2 ^ bit)) target m in
    if has_bit target bit then (has_mask previous (2 ^ bit), m') else (false, m)

unfoldable pub test_and_clear_bit : (target bit : ℕ) → Words → Bool × Words
unfolding fetch
test_and_clear_bit target bit m =
    let (previous, m') = fetch (λ x. bit_and x (complement 32 (2 ^ bit))) target m in
    if has_bit target bit then (has_mask previous (2 ^ bit), m') else (false, m)

unfoldable pub set_bit : (target bit : ℕ) → Words → Words
unfolding fetch
set_bit target bit m =
    if has_bit target bit then (fetch (λ x. bit_or x (2 ^ bit)) target m).1 else m

unfoldable pub clear_bit : (target bit : ℕ) → Words → Words
unfolding fetch
clear_bit target bit m =
    if has_bit target bit then (fetch (λ x. bit_and x (complement 32 (2 ^ bit))) target m).1 else m

unfoldable pub set_bit_to : (target bit : ℕ) (value : Bool) → Words → Words
unfolding set_bit clear_bit
set_bit_to target bit value m = if value then set_bit target bit m else clear_bit target bit m
