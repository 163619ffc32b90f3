-- ===== src/Event/Clear.antt =====
-- Which bits os_event_set_bits clears for the waiters that asked for it.
use ahura_kernel.Prelude.{
  ℕ, ◌^◌, ◌<◌, ◌≡◌, refl, ap, ◌∙◌, bit_and, bit_or, Bool, false, not, ◌&&◌, ◌||◌, List, [], ◌∷◌,
  arith, ◌==◌, if◌then◌else◌, if_cases,
}
use ahura_kernel.Prelude.Bits.{
  bit, bit-zero, complement, bit-bit_or, bit-bit_and, bit-complement, bit_or-lt,
}
use ahura_kernel.Task.State.{Kernel, Task, Tcb, WaiterList}
use ahura_kernel.Task.Wake.{deliver, wake_match_from, waiters_wake_match}
use ahura_kernel.Event.{
  Event, MatchContext, satisfies, waiter_match, wait_all_flag, clear_on_exit_flag, set_bits,
}
use ahura_kernel.Event.Deliver.{waiter_match-snapshot, deliver-tcb}

-- Whether a request is satisfied by the flags, clears on exit, and names bit `i`.
abbrev takes : ℕ → ℕ → ℕ → ℕ → Bool
takes flags data0 data1 i =
    satisfies (not (bit_and data1 wait_all_flag == 0)) data0 (bit_and flags data0)
    && not (bit_and data1 clear_on_exit_flag == 0)
    && bit data0 i

-- Whether the waiter `c` is satisfied by the flags and takes bit `i` with it.
abbrev pub consumes : ℕ → ℕ → Tcb → Bool
consumes flags i c = takes flags c.wait_data0 c.wait_data1 i

abbrev pub any : (Task → Bool) → List Task → Bool
any f [] = false
any f (t ∷ ts) = f t || any f ts

-- Deliveries change nobody's request.
deliver-request :
    (w : WaiterList) (t : Task) (result : ℕ) (k : Kernel) (u : Task)
    → (((deliver w t result k).tcb u).wait_data0 ≡ (k.tcb u).wait_data0)
      × (((deliver w t result k).tcb u).wait_data1 ≡ (k.tcb u).wait_data1)
deliver-request w t result k u =
    (ground (arith, deliver-tcb w t result k u), ground (arith, deliver-tcb w t result k u))

any-same : (f g : Task → Bool) (ts : List Task) → ((u : Task) → f u ≡ g u) → any f ts ≡ any g ts
any-same f g [] h = refl
any-same f g (t ∷ ts) h = ground (arith, h t, any-same f g ts h)

-- What one waiter adds to the bits to clear.
accum-bit :
    (d0 d1 i : ℕ) (c : MatchContext)
    → bit (waiter_match d0 d1 c).2.clear_accum i
      ≡ (bit c.clear_accum i || takes c.flags_snapshot d0 d1 i)
unfolding waiter_match
accum-bit d0 d1 i c = ground (arith, bit-bit_or c.clear_accum d0 i)

accum-small :
    (d0 d1 : ℕ) (c : MatchContext)
    → d0 < 2 ^ 32
    → c.clear_accum < 2 ^ 32
    → (waiter_match d0 d1 c).2.clear_accum < 2 ^ 32
unfolding waiter_match
accum-small d0 d1 c hd hc = ground (arith, bit_or-lt 32 c.clear_accum d0 hc hd)

-- The kernel after the first waiter of the walk.
abbrev stepped : WaiterList → Task → MatchContext → Kernel → Kernel
stepped w t c k =
    let r = waiter_match (k.tcb t).wait_data0 (k.tcb t).wait_data1 c in
    if r.0 then deliver w t r.1 k else k

stepped-request :
    (w : WaiterList) (t : Task) (c : MatchContext) (k : Kernel) (u : Task)
    → (((stepped w t c k).tcb u).wait_data0 ≡ (k.tcb u).wait_data0)
      × (((stepped w t c k).tcb u).wait_data1 ≡ (k.tcb u).wait_data1)
stepped-request w t c k u =
    let r = waiter_match (k.tcb t).wait_data0 (k.tcb t).wait_data1 c in
    if_cases
      (λ (k' : Kernel).
        ((k'.tcb u).wait_data0 ≡ (k.tcb u).wait_data0)
        × ((k'.tcb u).wait_data1 ≡ (k.tcb u).wait_data1))
      r.0 (λ _. deliver-request w t r.1 k u) (λ _. (refl, refl))

takes-same :
    (f f' d0 d0' d1 d1' i : ℕ) → f' ≡ f → d0' ≡ d0 → d1' ≡ d1 → takes f' d0' d1' i ≡ takes f d0 d1 i
takes-same f f' d0 d0' d1 d1' i ef e0 e1 =
    ap (λ (x : ℕ). takes x d0' d1' i) ef
    ∙ ap (λ (x : ℕ). takes f x d1' i) e0
    ∙ ap (λ (x : ℕ). takes f d0 x i) e1

walk-bit :
    (w : WaiterList) (ts : List Task) (c : MatchContext) (k : Kernel) (i : ℕ)
    → bit (wake_match_from w waiter_match ts c k).1.clear_accum i
      ≡ (bit c.clear_accum i || any (λ t. consumes c.flags_snapshot i (k.tcb t)) ts)
unfolding wake_match_from
walk-bit w [] c k i = ground arith
walk-bit w (t ∷ ts) c k i =
    let d0 = (k.tcb t).wait_data0 in
    let d1 = (k.tcb t).wait_data1 in
    let c' = (waiter_match d0 d1 c).2 in
    let k' = stepped w t c k in
    walk-bit w ts c' k' i
    ∙ ap (λ (b : Bool). b || any (λ u. consumes c'.flags_snapshot i (k'.tcb u)) ts)
        (accum-bit d0 d1 i c)
    ∙ ap (λ (b : Bool). (bit c.clear_accum i || takes c.flags_snapshot d0 d1 i) || b)
        (any-same (λ u. consumes c'.flags_snapshot i (k'.tcb u))
          (λ u. consumes c.flags_snapshot i (k.tcb u)) ts
          (λ u.
            takes-same c.flags_snapshot c'.flags_snapshot (k.tcb u).wait_data0 (k'.tcb u).wait_data0
              (k.tcb u).wait_data1 (k'.tcb u).wait_data1 i (waiter_match-snapshot d0 d1 c)
              (stepped-request w t c k u).0 (stepped-request w t c k u).1))
    ∙ ground arith

walk-small :
    (w : WaiterList) (ts : List Task) (c : MatchContext) (k : Kernel)
    → ((u : Task) → (k.tcb u).wait_data0 < 2 ^ 32)
    → c.clear_accum < 2 ^ 32
    → (wake_match_from w waiter_match ts c k).1.clear_accum < 2 ^ 32
unfolding wake_match_from
walk-small w [] c k small h = h
walk-small w (t ∷ ts) c k small h =
    walk-small w ts (waiter_match (k.tcb t).wait_data0 (k.tcb t).wait_data1 c).2 (stepped w t c k)
      (λ u. omega (arith, (stepped-request w t c k u).0, small u))
      (accum-small (k.tcb t).wait_data0 (k.tcb t).wait_data1 c (small t) h)

-- os_event_set_bits leaves a bit set exactly if it was set before or is one of the new bits, and no
-- waiter that the flags satisfy and that clears on exit has asked for it. Flags and requests are
-- 32-bit words.
pub set_bits-clears :
    (bits : ℕ) (e : Event) (k : Kernel) (i : ℕ)
    → i < 32
    → ((u : Task) → (k.tcb u).wait_data0 < 2 ^ 32)
    → bit (set_bits bits e k).1.flags i ≡ (
        (bit e.flags i || bit bits i)
        && not (any (λ t. consumes (bit_or e.flags bits) i (k.tcb t)) (k.waiters e.waiters)))
unfolding set_bits waiters_wake_match
set_bits-clears bits e k i h small =
    let flags = bit_or e.flags bits in
    let c₀ : MatchContext = record { flags_snapshot = flags; clear_accum = 0 } in
    let accum = (wake_match_from e.waiters waiter_match (k.waiters e.waiters) c₀ k).1.clear_accum in
    ground (
      arith,
      bit-bit_and flags (complement 32 accum) i,
      bit-complement 32 accum i
          (walk-small e.waiters (k.waiters e.waiters) c₀ k small (omega arith)) h,
      bit-bit_or e.flags bits i,
      walk-bit e.waiters (k.waiters e.waiters) c₀ k i,
      bit-zero i,
    )
