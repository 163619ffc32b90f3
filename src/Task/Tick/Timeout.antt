-- ===== src/Task/Tick/Timeout.antt =====
-- A wait with a finite timeout ends.
use ahura_kernel.Prelude.{
  ℕ, ◌+◌, ◌-◌, ◌≤◌, ◌<◌, ◌≡◌, ◌≢◌, refl, sym, ap, subst, ◌∙◌, true, false, ltb, Bool-cases, inl,
  inr, none, some, List, [], ◌∷◌, arith,
}
use ahura_kernel.Task.State.{
  Kernel, Task, Tcb, WaiterList, idle, ready, blocked, is_ready, is_blocked, wait_forever,
}
use ahura_kernel.Task.Sched.{wait_node_insert, switch_request}
use ahura_kernel.Task.Wait.{delay_if_finite, wait_on, wait_begin}
use ahura_kernel.Task.Tick.{tick_update}
use ahura_kernel.Task.Tick.Sleepers.{tick_update-later}
use ahura_kernel.Task.Inv.{IsValid}
use ahura_kernel.Task.Inv.Tick.{tick_update-IsValid}
use ahura_kernel.Task.Inv.Wait.{Executing, wait_begin-IsValid}

-- The control block of a task that has begun to wait.
abbrev parked : WaiterList → ℕ → Tcb → Tcb
parked w timeout_ticks c = record c {
  wait_list = some w;
  wait_signaled = false;
  woken_from = none;
  delay_ticks = timeout_ticks;
  state = blocked;
}

wait_begin-tcb :
    (w : WaiterList) (ticks : ℕ) (t : Task) (k : Kernel)
    → k.current ≡ some t
    → t ≢ idle k
    → (wait_begin w ticks k).tcb t ≡ parked w ticks (k.tcb t)
unfolding wait_begin wait_on wait_node_insert delay_if_finite switch_request
wait_begin-tcb w ticks t k e real = ground (arith, e, real)

-- The ticks pass in any portions: one by one as os_tick_handler passes them on, or several at once
-- after a tickless sleep.
unfoldable pub ticks_pass : List ℕ → Kernel → Kernel
ticks_pass [] k = k
ticks_pass (e ∷ es) k = ticks_pass es (tick_update e k)

abbrev pub total_ticks : List ℕ → ℕ
total_ticks [] = 0
total_ticks (e ∷ es) = e + total_ticks es

abbrev pub AreTicks : List ℕ → Type 0
AreTicks [] = Unit
AreTicks (e ∷ es) = (e ≢ 0) × AreTicks es

-- A task that waits on `w`, with `ticks` left.
pub record Waits (w : WaiterList) (ticks : ℕ) (c : Tcb) : Type 0 where
  pub state : is_blocked c.state ≡ true
  pub waits_on : c.wait_list ≡ some w
  pub left : c.delay_ticks ≡ ticks

-- How a task is left by a wait whose time is over.
pub record TimedOut (c : Tcb) : Type 0 where
  pub state : is_ready c.state ≡ true
  pub not_signaled : c.wait_signaled ≡ false
  pub waits_no_more : c.wait_list ≡ none
  pub no_delay : c.delay_ticks ≡ 0

-- A READY task is let be.
stays :
    (es : List ℕ) (t : Task) {k : Kernel}
    → IsValid k
    → AreTicks es
    → TimedOut (k.tcb t)
    → TimedOut ((ticks_pass es k).tcb t)
unfolding ticks_pass
stays [] t inv all over = over
stays (e ∷ es) t {k} inv all over =
    stays es t (tick_update-IsValid e inv) all.1
      (subst TimedOut (sym (tick_update-later e inv all.0 t ∙ ground (arith, over.state))) over)

rest_of : (a b c : ℕ) → a - b - c ≡ a - (b + c)
rest_of a b c = omega arith

passes :
    (es : List ℕ) (w : WaiterList) (ticks : ℕ) (t : Task) {k : Kernel}
    → IsValid k
    → AreTicks es
    → ticks < wait_forever
    → Waits w ticks (k.tcb t)
    → (k.tcb t).wait_signaled ≡ false
    → (total_ticks es < ticks → Waits w (ticks - total_ticks es) ((ticks_pass es k).tcb t))
      × (ticks ≤ total_ticks es → total_ticks es ≢ 0 → TimedOut ((ticks_pass es k).tcb t))
unfolding ticks_pass
passes [] w ticks t inv all finite waits quiet = (
  (λ h. record {
    state = waits.state;
    waits_on = waits.waits_on;
    left = omega (arith, waits.left);
  }),
  (λ h ne. absurd (ne refl)),
)
passes (e ∷ es) w ticks t {k} inv all finite waits quiet =
    let after = tick_update-later e inv all.0 t in
    elim (Bool-cases (ltb e ticks)) [
      | inl short ↦
          let next : (tick_update e k).tcb t ≡ record (k.tcb t) { delay_ticks = ticks - e } =
            ground (arith, after, waits.state, waits.left, short, finite) in
          let rest =
            passes es w (ticks - e) t (tick_update-IsValid e inv) all.1 (omega arith)
              (subst (Waits w (ticks - e)) (sym next)
                (record { state = waits.state; waits_on = waits.waits_on; left = refl }))
              (ap (λ (c : Tcb). c.wait_signaled) next ∙ quiet) in
          (
            (λ h.
                subst (λ (n : ℕ). Waits w n ((ticks_pass es (tick_update e k)).tcb t))
                  (rest_of ticks e (total_ticks es)) (rest.0 (ground (arith, h, short)))),
            (λ h ne. rest.1 (omega (arith, h)) (ground (arith, h, short))),
          )
      | inr due ↦ (
        (λ h. absurd (ground (arith, due))),
        (λ h ne. stays es t (tick_update-IsValid e inv) all.1 (
            let over : (tick_update e k).tcb t
                ≡ record (k.tcb t) { delay_ticks = 0; wait_list = none; state = ready } =
              ground (arith, after, waits.state, waits.left, due, finite) in
            subst TimedOut (sym over) (record {
              state = refl;
              not_signaled = quiet;
              waits_no_more = refl;
              no_delay = refl;
            }))),
      )
    ]

-- A task that begins to wait on a kernel object for a finite time, and is not woken, while ticks pass
-- in any portions: as long as fewer have passed it is BLOCKED on the object's waiter list with the
-- rest of its time left, and once they have passed it is READY, off the waiter list, not signaled, and
-- without a delay.
pub wait_begin-TimedOut :
    (w : WaiterList) (timeout_ticks : ℕ) (es : List ℕ) (t : Task) (k : Kernel)
    → IsValid k
    → Executing k
    → k.current ≡ some t
    → t ≢ idle k
    → timeout_ticks < wait_forever
    → AreTicks es
    → (total_ticks es < timeout_ticks
        → Waits w
            (timeout_ticks - total_ticks es)
            ((ticks_pass es (wait_begin w timeout_ticks k)).tcb t))
      × (timeout_ticks ≤ total_ticks es
          → total_ticks es ≢ 0
          → TimedOut ((ticks_pass es (wait_begin w timeout_ticks k)).tcb t))
wait_begin-TimedOut w timeout_ticks es t k inv ex e real finite all =
    let c = wait_begin-tcb w timeout_ticks t k e real in
    passes es w timeout_ticks t (wait_begin-IsValid w timeout_ticks inv ex (omega arith)) all finite
      (subst (Waits w timeout_ticks) (sym c)
        (record { state = refl; waits_on = refl; left = refl }))
      (ap (λ (x : Tcb). x.wait_signaled) c)
