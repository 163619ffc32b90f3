-- ===== src/Timer/Aged.antt =====
-- What a tick means for a timer, without the code's arithmetic.
use ahura_kernel.Prelude.{
  ℕ, ◌+◌, ◌≤◌, ◌<◌, ◌≡◌, ◌≢◌, sym, ap, subst, ◌∙◌, true, false, if◌then◌else◌, arith,
}
use ahura_kernel.Task.State.{Kernel}
use ahura_kernel.Timer.{Timer, Timers, one_shot, periodic, count_down, tick_process}
use ahura_kernel.Timer.Registry.{IsRegistry}
use ahura_kernel.Timer.Count.{tick_process-counted}

-- `c'` is the active timer `c` after `e` ticks: what is left and what has passed make up what was
-- left; a timer with nothing left has expired, and starts its period again or ends.
pub record Aged (e : ℕ) (c c' : Timer) : Type 0 where
  pub counts :
      e < c.remaining_ticks
      → (c'.remaining_ticks + e ≡ c.remaining_ticks) × (c'.active ≡ true) × (c'.expired ≡ c.expired)
  pub expires : c.remaining_ticks ≤ e → c'.expired ≡ true
  pub starts_again :
      c.remaining_ticks ≤ e
      → c.mode ≡ periodic
      → (c'.remaining_ticks ≡ c.period_ticks) × (c'.active ≡ true)
  pub ends : c.remaining_ticks ≤ e → c.mode ≡ one_shot → c'.active ≡ false
  pub mode : c'.mode ≡ c.mode
  pub period : c'.period_ticks ≡ c.period_ticks
  pub paused : c'.paused ≡ c.paused
  pub callback : (c'.callback ≡ c.callback) × (c'.context ≡ c.context)

-- A tick ages the timers that are active and no other.
pub record AllAged (e : ℕ) (s s' : Timers) : Type 0 where
  pub active : (t : ℕ) → (s.timer t).active ≡ true → Aged e (s.timer t) (s'.timer t)
  pub inactive : (t : ℕ) → (s.timer t).active ≡ false → s'.timer t ≡ s.timer t

count_down-Aged : (e : ℕ) (c : Timer) → c.active ≡ true → Aged e c (count_down e c)
unfolding count_down
count_down-Aged e c on = record {
  counts = λ h. ground (arith, on);
  expires = λ h. ground (arith, on);
  starts_again = λ h m. ground (arith, on, m);
  ends = λ h m. ground (arith, on, m);
  mode = ground arith;
  period = ground arith;
  paused = ground arith;
  callback = (ground arith, ground arith);
}

-- Where every timer that counts has its slot, and none has two: a call of os_timer_tick_process for at
-- least one tick takes the ticks off what is left of every active timer, once, whatever slots the
-- timers have; notes the expiry of those that have no more left, with a periodic one at the start of
-- its period again and a one-shot one ended; and writes no other timer.
pub tick_process-AllAged :
    (e : ℕ) (s : Timers) (k : Kernel) → IsRegistry s → e ≢ 0 → AllAged e s (tick_process e s k).0
tick_process-AllAged e s k reg ne = record {
  active = λ t on.
      subst (Aged e (s.timer t))
        (sym (
          tick_process-counted e s k reg ne t
          ∙ ap (λ b. if b then count_down e (s.timer t) else s.timer t) on))
        (count_down-Aged e (s.timer t) on);
  inactive = λ t off.
      tick_process-counted e s k reg ne t
      ∙ ap (λ b. if b then count_down e (s.timer t) else s.timer t) off;
}
