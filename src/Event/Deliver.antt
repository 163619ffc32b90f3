-- ===== src/Event/Deliver.antt =====
-- Which waiters os_event_set_bits wakes, and what it delivers to them.
use ahura_kernel.Prelude.{
  ℕ, ◌+◌, ◌^◌, ◌≤◌, ◌<◌, ◌≡◌, refl, ap, ◌∙◌, bit_and, bit_or, Bool, true, false, not, ◌&&◌, none,
  some, List, [], ◌∷◌, arith, ◌==◌, if◌then◌else◌, if_cases, is, count, ==→eq,
}
use ahura_kernel.Task.State.{Kernel, Task, Tcb, WaiterList, set_tcb, ready}
use ahura_kernel.Task.Sched.{unlink, make_ready}
use ahura_kernel.Task.Wake.{deliver, wake_match_from, waiters_wake_match}
use ahura_kernel.Task.Frame.{unlink-tcb, preempt_if_running-tcb}
use ahura_kernel.Task.Inv.{IsValid}
use ahura_kernel.Prelude.Bits.{bit_or-lt}
use ahura_kernel.Event.Asked.{is_asked, satisfies-is_asked}
use ahura_kernel.Event.{Event, MatchContext, satisfies, waiter_match, wait_all_flag, set_bits}

-- Whether the flags satisfy what a waiter asks for.
abbrev pub is_satisfied : ℕ → Tcb → Bool
is_satisfied flags c =
    satisfies (not (bit_and c.wait_data1 wait_all_flag == 0)) c.wait_data0
      (bit_and flags c.wait_data0)

-- A waiter of the list `w` that has got the bits `result`.
abbrev pub delivered : WaiterList → ℕ → Tcb → Tcb
delivered w result c = record c {
  wait_list = none;
  wait_signaled = true;
  wait_result = result;
  woken_from = some w;
  state = ready;
}

pub deliver-tcb :
    (w : WaiterList) (t : Task) (result : ℕ) (k : Kernel) (u : Task)
    → (deliver w t result k).tcb u ≡ (if t == u then delivered w result (k.tcb t) else k.tcb u)
unfolding deliver make_ready
deliver-tcb w t result k u = ground (
  arith,
  unlink-tcb t k u,
  unlink-tcb t k t,
  preempt_if_running-tcb t (
      make_ready t (
        set_tcb (unlink t k) t (record ((unlink t k).tcb t) {
          delay_ticks = (k.tcb t).delay_ticks;
          wait_signaled = true;
          wait_result = result;
          woken_from = some w;
        }))),
)

-- The walk does not change the snapshot.
pub waiter_match-snapshot :
    (data0 data1 : ℕ) (c : MatchContext)
    → (waiter_match data0 data1 c).2.flags_snapshot ≡ c.flags_snapshot
unfolding waiter_match
waiter_match-snapshot data0 data1 c = ground arith

abbrev pub after : WaiterList → ℕ → Tcb → Tcb
after w flags c = if is_satisfied flags c then delivered w (bit_and flags c.wait_data0) c else c

-- What the walk does with its first waiter.
pub first_waiter :
    (w : WaiterList) (t : Task) (c : MatchContext) (k : Kernel) (u : Task)
    → let r = waiter_match (k.tcb t).wait_data0 (k.tcb t).wait_data1 c in
      (if r.0 then deliver w t r.1 k else k).tcb u
      ≡ (if t == u then after w c.flags_snapshot (k.tcb t) else k.tcb u)
unfolding waiter_match
first_waiter w t c k u =
    if_cases
      (λ (k' : Kernel). k'.tcb u ≡ (if t == u then after w c.flags_snapshot (k.tcb t) else k.tcb u))
      (is_satisfied c.flags_snapshot (k.tcb t))
      (λ h. deliver-tcb w t (bit_and c.flags_snapshot (k.tcb t).wait_data0) k u ∙ ground (arith, h))
      (λ h. ground (arith, h))

moved :
    (w : WaiterList) (flags : ℕ) (same : Bool) (n : ℕ) (ct cu cu' : Tcb)
    → (same ≡ true → ct ≡ cu)
    → cu' ≡ (if same then after w flags ct else cu)
    → (if same then 1 else 0) + n ≤ 1
    → (if n == 0 then cu' else after w flags cu')
      ≡ (if (if same then 1 else 0) + n == 0 then cu else after w flags cu)
moved w flags true n ct cu cu' s e h =
    if_cases (λ (x : Tcb). x ≡ (if 1 + n == 0 then cu else after w flags cu)) (n == 0)
      (λ _.
        if_cases (λ (y : Tcb). cu' ≡ y) (1 + n == 0) (λ z. absurd (ground arith))
          (λ _. e ∙ ap (after w flags) (s refl)))
      (λ z. absurd (ground arith))
moved w flags false n ct cu cu' s e h =
    ap (λ (x : Tcb). if n == 0 then x else after w flags x) e
    ∙ ap (λ (j : ℕ). if j == 0 then cu else after w flags cu) same_count
  where
    same_count : n ≡ 0 + n
    same_count = omega arith

walk-tcb :
    (w : WaiterList) (ts : List Task) (c : MatchContext) (k : Kernel) (u : Task)
    → count u ts ≤ 1
    → (wake_match_from w waiter_match ts c k).2.tcb u
      ≡ (if count u ts == 0 then k.tcb u else after w c.flags_snapshot (k.tcb u))
unfolding wake_match_from
walk-tcb w [] c k u h = refl
walk-tcb w (t ∷ ts) c k u h =
    let r = waiter_match (k.tcb t).wait_data0 (k.tcb t).wait_data1 c in
    let k' = (if r.0 then deliver w t r.1 k else k) in
    walk-tcb w ts r.2 k' u (ground arith)
    ∙ ap (λ (f : ℕ). if count u ts == 0 then k'.tcb u else after w f (k'.tcb u))
        (waiter_match-snapshot (k.tcb t).wait_data0 (k.tcb t).wait_data1 c)
    ∙ moved w c.flags_snapshot (t == u) (count u ts) (k.tcb t) (k.tcb u) (k'.tcb u)
        (λ h. ap k.tcb (==→eq t u h)) (first_waiter w t c k u) h

-- In the code's own words: each waiter of the event is evaluated against the new flags.
set_bits-after :
    (bits : ℕ) (e : Event) (k : Kernel)
    → IsValid k
    → (u : Task)
    → (set_bits bits e k).2.tcb u ≡ (
        if is (k.tcb u).wait_list e.waiters
        then after e.waiters (bit_or e.flags bits) (k.tcb u)
        else k.tcb u)
unfolding set_bits waiters_wake_match
set_bits-after bits e k inv u =
    walk-tcb e.waiters (k.waiters e.waiters)
      (record { flags_snapshot = bit_or e.flags bits; clear_accum = 0 }) k u
      (ground (arith, inv.wait_count e.waiters u))
    ∙ ground (arith, inv.wait_count e.waiters u)

-- os_event_set_bits wakes a waiter of the event exactly if the flags with the new bits have all the
-- bits that it asked for, or one of them if it did not ask for all. That waiter becomes READY and gets the bits
-- it asked for that are set; every other task control block stays as it was. Flags and requests are
-- 32-bit words.
pub set_bits-delivers :
    (bits : ℕ) (e : Event) (k : Kernel)
    → IsValid k
    → (u : Task) → e.flags < 2 ^ 32
    → bits < 2 ^ 32
    → (k.tcb u).wait_data0 < 2 ^ 32
    → (k.tcb u).wait_data1 < 2 ^ 32
    → (set_bits bits e k).2.tcb u ≡ (
        if is (k.tcb u).wait_list e.waiters && is_asked (bit_or e.flags bits) (k.tcb u)
        then delivered e.waiters (bit_and (bit_or e.flags bits) (k.tcb u).wait_data0) (k.tcb u)
        else k.tcb u)
set_bits-delivers bits e k inv u word new d0 d1 = ground (
  arith,
  set_bits-after bits e k inv u,
  satisfies-is_asked (bit_or e.flags bits) (k.tcb u) (bit_or-lt 32 e.flags bits word new) d0 d1,
)
