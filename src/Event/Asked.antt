-- ===== src/Event/Asked.antt =====
-- What a waiter of core/os_event.c asks of the event flags, bit by bit.
use ahura_kernel.Prelude.{
  ℕ, zero, suc, ◌^◌, ◌<◌, ◌≡◌, refl, sym, ap, ◌∙◌, bit_and, Bool, true, false, not, ◌&&◌, ◌||◌,
  arith, ◌==◌, if◌then◌else◌, eq→==, ne→==, inl, inr, Bool-cases, ==→eq,
}
use ahura_kernel.Prelude.Bits.{bit, bit-zero, bit-bit_and, eq_zero_of_bits, eq_of_bits, bit_and-le}
use ahura_kernel.Task.State.{Tcb}
use ahura_kernel.Event.{satisfies, wait_all_flag}

-- Whether each of the low `w` bits that `asked` sets is set in `flags`, and whether some is.
unfoldable pub all_set : ℕ → ℕ → ℕ → Bool
all_set zero flags asked = true
all_set (suc w) flags asked = (not (bit asked w) || bit flags w) && all_set w flags asked

unfoldable pub any_set : ℕ → ℕ → ℕ → Bool
any_set zero flags asked = false
any_set (suc w) flags asked = (bit asked w && bit flags w) || any_set w flags asked

all_set-bits :
    (w flags asked i : ℕ)
    → all_set w flags asked ≡ true
    → i < w
    → (bit flags i && bit asked i) ≡ bit asked i
unfolding all_set
all_set-bits zero flags asked i h k = absurd (omega arith)
all_set-bits (suc w) flags asked i h k = elim (Bool-cases (i == w)) [
  | inl last ↦
      ap (λ (j : ℕ). bit flags j && bit asked j) (==→eq i w last)
      ∙ ground (arith, h)
      ∙ ap (bit asked) (sym (==→eq i w last))
  | inr other ↦ all_set-bits w flags asked i (ground (arith, h)) (ground (arith, other))
]

all_set-of :
    (w flags asked : ℕ)
    → ((i : ℕ) → (bit flags i && bit asked i) ≡ bit asked i)
    → all_set w flags asked ≡ true
unfolding all_set
all_set-of zero flags asked h = refl
all_set-of (suc w) flags asked h = ground (arith, h w, all_set-of w flags asked h)

any_set-bits :
    (w flags asked i : ℕ)
    → any_set w flags asked ≡ false
    → i < w
    → (bit flags i && bit asked i) ≡ false
unfolding any_set
any_set-bits zero flags asked i h k = absurd (omega arith)
any_set-bits (suc w) flags asked i h k = elim (Bool-cases (i == w)) [
  | inl last ↦ ap (λ (j : ℕ). bit flags j && bit asked j) (==→eq i w last) ∙ ground (arith, h)
  | inr other ↦ any_set-bits w flags asked i (ground (arith, h)) (ground (arith, other))
]

any_set-of :
    (w flags asked : ℕ)
    → ((i : ℕ) → (bit flags i && bit asked i) ≡ false)
    → any_set w flags asked ≡ false
unfolding any_set
any_set-of zero flags asked h = refl
any_set-of (suc w) flags asked h = ground (arith, h w, any_set-of w flags asked h)

module _ (w flags asked : ℕ) (small : flags < 2 ^ w) (small_asked : asked < 2 ^ w) where
  within : bit_and flags asked < 2 ^ w
  within = omega (arith, bit_and-le flags asked, small)

  pub matched-all_set : (bit_and flags asked == asked) ≡ all_set w flags asked
  matched-all_set = elim (Bool-cases (all_set w flags asked)) [
    | inl all ↦
        eq→== (bit_and flags asked) asked (
          eq_of_bits w (bit_and flags asked) asked within small_asked
            (λ i k. bit-bit_and flags asked i ∙ all_set-bits w flags asked i all k))
        ∙ sym all
    | inr missing ↦
        ne→== (bit_and flags asked) asked (λ e. absurd (
          cc (
            missing,
            all_set-of w flags asked
                (λ i. sym (bit-bit_and flags asked i) ∙ ap (λ (x : ℕ). bit x i) e),
          )))
        ∙ sym missing
  ]

  pub matched-any_set : not (bit_and flags asked == 0) ≡ any_set w flags asked
  matched-any_set = elim (Bool-cases (any_set w flags asked)) [
    | inr missing ↦
        ap not (
          eq→== (bit_and flags asked) 0 (
            eq_zero_of_bits w (bit_and flags asked) within
              (λ i k. bit-bit_and flags asked i ∙ any_set-bits w flags asked i missing k)))
        ∙ sym missing
    | inl some ↦
        ap not (
          ne→== (bit_and flags asked) 0 (λ e. absurd (
            cc (
              some,
              any_set-of w flags asked
                  (λ i. sym (bit-bit_and flags asked i) ∙ ap (λ (x : ℕ). bit x i) e ∙ bit-zero i),
            ))))
        ∙ sym some
  ]

-- What the waiter `c` asks for: its request is `wait_data0`, and bit 0 of `wait_data1` says that all
-- of it is to be set.
abbrev pub is_asked : ℕ → Tcb → Bool
is_asked flags c =
    if bit c.wait_data1 0 then all_set 32 flags c.wait_data0 else any_set 32 flags c.wait_data0

one_asked : (flags : ℕ) → any_set 32 flags 1 ≡ bit flags 0
unfolding any_set bit
one_asked flags = ground arith

pub satisfies-is_asked :
    (flags : ℕ) (c : Tcb)
    → flags < 2 ^ 32
    → c.wait_data0 < 2 ^ 32
    → c.wait_data1 < 2 ^ 32
    → satisfies
        (not (bit_and c.wait_data1 wait_all_flag == 0))
        c.wait_data0
        (bit_and flags c.wait_data0)
      ≡ is_asked flags c
unfolding satisfies
satisfies-is_asked flags c f d0 d1 = ground (
  arith,
  matched-any_set 32 c.wait_data1 1 d1 (omega arith),
  one_asked c.wait_data1,
  matched-all_set 32 flags c.wait_data0 f d0,
  matched-any_set 32 flags c.wait_data0 f d0,
)
