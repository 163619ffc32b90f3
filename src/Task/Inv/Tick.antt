-- ===== src/Task/Inv/Tick.antt =====
-- os_task_tick_update keeps the invariant.
use ahura_kernel.Prelude.{
  ℕ, ◌-◌, ◌≡◌, ◌≢◌, refl, List, [], ◌∷◌, arith, ltb, ◌==◌, if_cases, count, count-remove_self,
  count-remove_ne, true,
}
use ahura_kernel.Task.State.{Kernel, Task, set_tcb, idle, is_blocked, wait_forever}
use ahura_kernel.Task.Sched.{unlink, make_ready}
use ahura_kernel.Task.Tick.{tick_task, tick_from, tick_update}
use ahura_kernel.Task.Frame.{unlink-wait_list, unlink-delay_list, unlink-SameCore}
use ahura_kernel.Task.Inv.{IsValid}
use ahura_kernel.Task.Inv.Lists.{set_delay-Inv, make_ready-IsValid}
use ahura_kernel.Task.Inv.Unlink.{unlink-Inv}
use ahura_kernel.Task.Inv.Match.{Within}

module _ {k : Kernel} (inv : IsValid k) (t : Task) (asleep : count t k.delay_list ≢ 0) where
  pub sleeper_blocked : is_blocked (k.tcb t).state ≡ true
  sleeper_blocked = ground (arith, inv.delay_count t)

  pub sleeper_finite : (k.tcb t).delay_ticks ≢ wait_forever
  sleeper_finite = ground (arith, inv.delay_count t)

  pub sleeper-ne-idle : t ≢ idle k
  sleeper-ne-idle = ground (arith, sleeper_blocked, inv.idle_awake)

  -- The expiry of `t`: out of every list, and READY.
  expire-IsValid :
      IsValid (make_ready t (unlink t (set_tcb k t (record (k.tcb t) { delay_ticks = 0 }))))
  expire-IsValid =
      let zeroed = set_tcb k t (record (k.tcb t) { delay_ticks = 0 }) in
      make_ready-IsValid
        (unlink-Inv t (set_delay-Inv inv t 0 (omega arith) sleeper_finite) sleeper-ne-idle)
        (unlink-wait_list t zeroed) (ground (arith, unlink-SameCore t zeroed, sleeper-ne-idle))

  tick_task-IsValid : (e : ℕ) → e ≢ 0 → IsValid (tick_task e t k)
  unfolding tick_task
  tick_task-IsValid e pos =
      if_cases IsValid (ltb e (k.tcb t).delay_ticks)
        (λ h.
          set_delay-Inv inv t ((k.tcb t).delay_ticks - e) (ground (arith, inv.delay_small t))
            sleeper_finite)
        (λ h. expire-IsValid)

  Within-tail :
      (e : ℕ) (ts : List Task)
      → Within (t ∷ ts) k.delay_list
      → Within ts (tick_task e t k).delay_list
  unfolding tick_task make_ready
  Within-tail e ts h =
      if_cases {A = Kernel} (λ k'. Within ts k'.delay_list) (ltb e (k.tcb t).delay_ticks)
        (λ _ u. ground (arith, h u))
        (λ _.
          gone (set_tcb k t (record (k.tcb t) { delay_ticks = 0 })) refl
            (ground (arith, sleeper_blocked)) (ground arith))
    where
      gone :
          (k' : Kernel)
          → k'.delay_list ≡ k.delay_list
          → is_blocked (k'.tcb t).state ≡ true
          → (k'.tcb t).delay_ticks ≢ wait_forever
          → Within ts (make_ready t (unlink t k')).delay_list
      gone k' same b f u =
          rw (unlink-delay_list t k' b f, same)
            (ground
              (arith, h u, count-remove_self t k.delay_list, count-remove_ne t u k.delay_list))

tick_from-IsValid :
    (e : ℕ)
    → e ≢ 0
    → (ts : List Task) {k : Kernel} → IsValid k
    → Within ts k.delay_list
    → IsValid (tick_from e ts k)
unfolding tick_from
tick_from-IsValid e pos [] inv h = inv
tick_from-IsValid e pos (t ∷ ts) {k} inv h =
    let asleep : count t k.delay_list ≢ 0 = ground (arith, h t) in
    tick_from-IsValid e pos ts (tick_task-IsValid inv t asleep e pos)
      (Within-tail inv t asleep e ts h)

pub tick_update-IsValid : (e : ℕ) {k : Kernel} → IsValid k → IsValid (tick_update e k)
unfolding tick_update
tick_update-IsValid e {k} inv =
    if_cases IsValid (e == 0) (λ _. inv)
      (λ h. tick_from-IsValid e (ground arith) k.delay_list inv (λ u. omega arith))
