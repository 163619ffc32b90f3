-- ===== src/Sync/Valid.antt =====
-- The calls of core/os_semaphore.c, core/os_mutex.c, core/os_event.c, core/os_queue.c and
-- core/os_notify.c keep the scheduler's invariant.
use ahura_kernel.Prelude.{
  ℕ, ◌<◌, ◌^◌, bit_and, bit_or, sym, ap, ◌∙◌, not, ◌&&◌, ◌||◌, List, arith, ltb, leb, ◌==◌,
  if_cases,
}
use ahura_kernel.Task.State.{Kernel, Config, ok, full}
use ahura_kernel.Task.Wait.{wait_data_set, current_id_get}
use ahura_kernel.Task.Inherit.{priority_inherit}
use ahura_kernel.Task.Inherit.Effective.{priority_inherit-RunsOn}
use ahura_kernel.Task.Inv.{IsValid}
use ahura_kernel.Task.Inv.Wake.{wake_one-IsValid}
use ahura_kernel.Task.Inv.Match.{wake_match-IsValid}
use ahura_kernel.Task.Inv.Wait.{
  Executing, wait_begin-IsValid, wait_end-IsValid, wait_data_set-IsValid,
}
use ahura_kernel.Task.Inv.Priority.{
  owner_link-IsValid, priority_inherit-IsValid, owner_unlink-IsValid,
}
use ahura_kernel.Sync.{Budget, must_not_wait}
use ahura_kernel.Semaphore.{Semaphore, take_round}
use ahura_kernel.Semaphore
use ahura_kernel.Mutex.{Mutex, lock_round, hand_over}
use ahura_kernel.Mutex
use ahura_kernel.Event.{
  Event, MatchContext, Request, wait_flags, satisfies, set_bits, waiter_match, clear_word,
}
use ahura_kernel.Event
use ahura_kernel.Queue.{Queue, send_round, receive_round}

-- What a call returns beside its status and its object is a valid kernel.
pub record Keeps {A O : Type 0} (r : A × O × Kernel) : Type 0 where
  pub kernel : IsValid r.2

pub record KeepsToo {A B O : Type 0} (r : A × B × O × Kernel) : Type 0 where
  pub kernel : IsValid r.3

keeps : {A O : Type 0} (a : A) (o : O) {k : Kernel} → IsValid k → Keeps (a, o, k)
keeps a o v = record { kernel = v }

-- The calling task executes on when it publishes its wait data, or raises an owner.
data_set-Executing :
    (k : Kernel) → Executing k → (data0 data1 : ℕ) → Executing (wait_data_set data0 data1 k)
unfolding wait_data_set
data_set-Executing k ex data0 data1 t e ne = ground (arith, ex t)

inherit-Executing :
    (k : Kernel) → Executing k → (owner_id : ℕ) → Executing (priority_inherit owner_id k)
inherit-Executing k ex owner_id t e ne =
    let on = priority_inherit-RunsOn owner_id k in
    on.running t
    ∙ ex t (sym on.current ∙ e) (λ h. ne (h ∙ ap (λ (c : Config). c.table_size) (sym on.config)))

module _ {k : Kernel} (inv : IsValid k) where
  -- os_semaphore_give keeps the scheduler's invariant.
  pub give-IsValid : (s : Semaphore) → Keeps (Semaphore.give s k)
  unfolding Semaphore.give
  give-IsValid s =
      if_cases Keeps (leb s.max_count s.count) (λ _. keeps full s inv)
        (λ _. keeps ok _ (wake_one-IsValid s.waiters inv))

  -- os_mutex_unlock keeps the scheduler's invariant.
  pub unlock-IsValid : (m : Mutex) → Keeps (Mutex.unlock m k)
  unfolding Mutex.unlock hand_over
  unlock-IsValid m =
      if_cases Keeps k.in_isr (λ _. keeps _ m inv)
        λ _.
          if_cases Keeps (not m.locked) (λ _. keeps _ m inv)
            λ _.
              if_cases Keeps
                (not (m.owner_id == 0)
                  && not (current_id_get k == 0)
                  && not (m.owner_id == current_id_get k))
                (λ _. keeps _ m inv)
                (λ _.
                  keeps ok _
                    (wake_one-IsValid m.waiters (owner_unlink-IsValid m.owner_id m.waiters inv)))

  -- os_event_set_bits keeps the scheduler's invariant.
  pub set_bits-IsValid : (bits : ℕ) (e : Event) → Keeps (set_bits bits e k)
  unfolding set_bits
  set_bits-IsValid bits e = keeps ok _ (
      wake_match-IsValid e.waiters waiter_match
        (record { flags_snapshot = bit_or e.flags bits; clear_accum = 0 }) inv)

  -- The calling task executes, and the time left is a machine word.
  module _ (ex : Executing k) (b : Budget) (small : b.remaining_ticks < 2 ^ 32) where
    -- A round of os_semaphore_take keeps the scheduler's invariant.
    pub take_round-IsValid : (s : Semaphore) → Keeps (take_round b s k)
    unfolding take_round
    take_round-IsValid s =
        if_cases Keeps (ltb 0 s.count) (λ _. keeps _ _ (wait_end-IsValid inv))
          λ _.
            if_cases Keeps (must_not_wait b k) (λ _. keeps _ s (wait_end-IsValid inv))
              λ _.
                if_cases Keeps (b.remaining_ticks == 0) (λ _. keeps _ s (wait_end-IsValid inv))
                  (λ _. keeps _ s (wait_begin-IsValid s.waiters b.remaining_ticks inv ex small))

    -- A round of os_queue_send keeps the scheduler's invariant.
    pub send_round-IsValid : (item : List ℕ) (q : Queue) → Keeps (send_round item b q k)
    unfolding send_round
    send_round-IsValid item q =
        if_cases Keeps (ltb q.count q.capacity)
          (λ _. keeps _ _ (wait_end-IsValid (wake_one-IsValid q.receive_waiters inv)))
          λ _.
            if_cases Keeps (must_not_wait b k) (λ _. keeps _ q (wait_end-IsValid inv))
              λ _.
                if_cases Keeps (b.remaining_ticks == 0) (λ _. keeps _ q (wait_end-IsValid inv))
                  (λ _.
                    keeps _ q (wait_begin-IsValid q.send_waiters b.remaining_ticks inv ex small))

    -- A round of os_mutex_lock keeps the scheduler's invariant.
    pub lock_round-IsValid : (self_id : ℕ) (m : Mutex) → Keeps (lock_round self_id b m k)
    unfolding lock_round
    lock_round-IsValid self_id m =
        if_cases Keeps (not m.locked)
          (λ _. keeps _ _ (wait_end-IsValid (owner_link-IsValid m.waiters inv)))
          λ _.
            if_cases Keeps ((not (self_id == 0) && m.owner_id == self_id) || must_not_wait b k)
              (λ _. keeps _ m (wait_end-IsValid inv))
              λ _.
                if_cases Keeps (b.remaining_ticks == 0) (λ _. keeps _ m (wait_end-IsValid inv))
                  (λ _. keeps _ m (
                    wait_begin-IsValid m.waiters b.remaining_ticks
                      (priority_inherit-IsValid m.owner_id inv) (inherit-Executing k ex m.owner_id)
                      small))

    -- A round of os_queue_receive keeps the scheduler's invariant.
    pub receive_round-IsValid : (q : Queue) → KeepsToo (receive_round b q k)
    unfolding receive_round
    receive_round-IsValid q =
        if_cases KeepsToo (ltb 0 q.count)
          (λ _. record { kernel = wait_end-IsValid (wake_one-IsValid q.send_waiters inv) })
          λ _.
            if_cases KeepsToo (must_not_wait b k) (λ _. record { kernel = wait_end-IsValid inv })
              λ _.
                if_cases KeepsToo (b.remaining_ticks == 0)
                  (λ _. record { kernel = wait_end-IsValid inv })
                  (λ _. record {
                    kernel = wait_begin-IsValid q.receive_waiters b.remaining_ticks inv ex small;
                  })

    -- A round of os_event_wait_bits keeps the scheduler's invariant.
    pub wait_round-IsValid : (r : Request) (e : Event) → KeepsToo (Event.wait_round r b e k)
    unfolding Event.wait_round
    wait_round-IsValid r e =
        if_cases KeepsToo (satisfies r.wait_all r.bits (bit_and e.flags r.bits))
          (λ _. record { kernel = wait_end-IsValid inv })
          λ _.
            if_cases KeepsToo (must_not_wait b k) (λ _. record { kernel = wait_end-IsValid inv })
              λ _.
                if_cases KeepsToo (b.remaining_ticks == 0)
                  (λ _. record { kernel = wait_end-IsValid inv })
                  (λ _. record {
                    kernel =
                        wait_begin-IsValid e.waiters b.remaining_ticks
                          (wait_data_set-IsValid r.bits (wait_flags r) inv)
                          (data_set-Executing k ex r.bits (wait_flags r)) small;
                  })
