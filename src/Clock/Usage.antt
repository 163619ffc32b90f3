-- ===== src/Clock/Usage.antt =====
-- The CPU usage of a window of ticks.
use native.Mathlib.Nat.{div-lt_iff_lt-mul, mul-div-le, lt-mul-div-succ, mod-eq_of_lt}
use ahura_kernel.Prelude.{
  ℕ, ◌+◌, ◌-◌, ◌*◌, ◌/◌, ◌%◌, ◌^◌, ◌≤◌, ◌<◌, ◌≡◌, ◌≢◌, refl, sym, subst, ltb, ◌==◌, if◌then◌else◌,
  arith,
}
use ahura_kernel.Clock.{System, cpu_usage_get}

-- The ticks of the window that did not interrupt the idle task.
abbrev pub busy : System → ℕ
busy s = s.total_ticks - s.idle_ticks

-- `usage` is `busy` of `total` in percent, rounded down.
pub record IsPercent (busy total usage : ℕ) : Type 0 where
  pub bound : usage ≤ 100
  pub not_over : total * usage ≤ busy * 100
  pub not_under : busy * 100 < total * (usage + 1)

quotient-IsPercent :
    (busy total : ℕ) → 0 < total → busy ≤ total → IsPercent busy total (busy * 100 / total)
quotient-IsPercent busy total some part = record {
  bound =
      let below : busy * 100 / total < 101 =
        (div-lt_iff_lt-mul {k = total} {x = busy * 100} {y = 101} some).1 (omega arith) in
      omega arith;
  not_over = mul-div-le (busy * 100) total;
  not_under = lt-mul-div-succ (busy * 100) some;
}

-- The clamp and the wrap of the source's arithmetic change nothing.
exact :
    (total idle : ℕ)
    → total ≢ 0
    → (total - idle) * 100 < 2 ^ 32
    → (if total == 0
        then 0
        else (total - (if ltb total idle then total else idle)) * 100 % 2 ^ 32 / total)
      ≡ (total - idle) * 100 / total
exact total idle some short =
    let busy : total - (if ltb total idle then total else idle) ≡ total - idle = ground arith in
    let fits : (total - idle) * 100 % 2 ^ 32 ≡ (total - idle) * 100 = mod-eq_of_lt short in
    rw (busy, fits) (ground (arith, some))

value_get :
    (s : System)
    → s.total_ticks ≢ 0
    → busy s * 100 < 2 ^ 32
    → (cpu_usage_get s).0 ≡ busy s * 100 / s.total_ticks
unfolding cpu_usage_get
value_get s some short = exact s.total_ticks s.idle_ticks some short

window : (s : System) → ((cpu_usage_get s).1.total_ticks ≡ 0) × ((cpu_usage_get s).1.idle_ticks ≡ 0)
unfolding cpu_usage_get
window s = (refl, refl)

-- os_cpu_usage_get answers the share of the window's ticks that did not interrupt the idle task, in
-- percent and rounded down, so at most 100, when the window has a tick and 100 times its busy ticks
-- fit 32 bits; and it starts an empty window.
pub usage_get-IsPercent :
    (s : System)
    → s.total_ticks ≢ 0
    → busy s * 100 < 2 ^ 32
    → IsPercent (busy s) s.total_ticks (cpu_usage_get s).0
      × ((cpu_usage_get s).1.total_ticks ≡ 0)
      × ((cpu_usage_get s).1.idle_ticks ≡ 0)
usage_get-IsPercent s some short =
    let (total, idle) = window s in
    (
      subst (IsPercent (busy s) s.total_ticks) (sym (value_get s some short))
          (quotient-IsPercent (busy s) s.total_ticks (omega arith) (omega arith)),
      total,
      idle,
    )
