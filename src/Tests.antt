-- ===== src/Tests.antt =====
-- The theorems at concrete inputs.
mod Heap
mod Lists
mod Cores
mod Lines
mod Works
mod Clocks
mod Delays
use ahura_kernel.Prelude.{
  ℕ, ◌+◌, ◌-◌, ◌^◌, ◌≡◌, ◌≢◌, ◌≤◌, ◌<◌, List, refl, bit_and, bit_or, true, false, ◌&&◌, ltb, leb,
  ◌==◌, if◌then◌else◌, is, none, some, [], ◌∷◌, ◌++◌, arith, remove, is_empty,
}
use ahura_kernel.Task.State.{ok, full, wait_forever}
use ahura_kernel.Task.Switch.{highest_bit_get, pend_sv}
use ahura_kernel.Task.Switch.Pick.{Highest, highest_bit_get-Highest}
use ahura_kernel.Task.Switch.Swap.{Switched, pend_sv-Switched}
use ahura_kernel.Task.Switch.Rotate.{Rotated, pend_sv-Rotated}
use ahura_kernel.Task.Tick.{tick_update}
use ahura_kernel.Task.Tick.Sleepers.{later, is_sleeper, tick_update-later, tick_update-before_next}
use ahura_kernel.Task.Wake.{waiters_wake_one}
use ahura_kernel.Task.Wake.First.{WakesFirst, wake_one-first}
use ahura_kernel.Task.Wait.{wait_remaining}
use ahura_kernel.Task.Wait.Remaining.{wait_remaining-after}
use ahura_kernel.Task.Inv.{IsValid}
use ahura_kernel.Task.Step.{Reach-IsValid}
use ahura_kernel.Sync.{returns, is_ok, done_ok}
use ahura_kernel.Sync.Valid.{
  Keeps, KeepsToo, lock_round-IsValid, set_bits-IsValid, receive_round-IsValid,
}
use ahura_kernel.Semaphore.{Semaphore, give, take_round}
use ahura_kernel.Semaphore
use ahura_kernel.Semaphore.Tokens.{Balanced, tokens, Trace-Balanced, init-checks}
use ahura_kernel.Semaphore.Tokens
use ahura_kernel.Mutex.{Mutex, lock_round, unlock}
use ahura_kernel.Mutex.Owner.{
  Locked, Unlocked, holders, lock_round-Locked, unlock-Unlocked, Trace-holders,
}
use ahura_kernel.Mutex.Owner
use ahura_kernel.Mutex.Boost.{Inherits, lock_round-Inherits, Restores, unlock-Restores}
use ahura_kernel.Event.{Event, set_bits}
use ahura_kernel.Event.Asked.{is_asked}
use ahura_kernel.Event.Deliver.{delivered, set_bits-delivers}
use ahura_kernel.Notify.{give_task, wait_task}
use ahura_kernel.Notify.Mailbox.{Given, give_task-Given, wait_task-receives}
use ahura_kernel.Queue.{Queue, send_round, receive_round}
use ahura_kernel.Queue.Fifo.{IsRing, contents}
use ahura_kernel.Queue.Trace.{put, got, Trace-fifo}
use ahura_kernel.Queue.Trace
use ahura_kernel.Timer.{
  Timers, one_shot, periodic, slot_from, slot_find, slot_release, acquire_from, slot_acquire, armed,
  arm, timer_start, timer_pause, tick_process, process_from, count_down, fetch_from, expired_fetch,
}
use ahura_kernel.Timer
use ahura_kernel.Timer.Registry.{IsRegistry}
use ahura_kernel.Timer.Run.{Reach-IsRegistry}
use ahura_kernel.Timer.Run
use ahura_kernel.Timer.Aged.{AllAged, tick_process-AllAged}
use ahura_kernel.Task.Wait.{wait_begin}
use ahura_kernel.Task.Tick.Timeout.{total_ticks, ticks_pass, Waits, TimedOut, wait_begin-TimedOut}
use ahura_kernel.Event.Clear.{consumes, any, set_bits-clears}
use ahura_kernel.Prelude.Bits.{bit}
use ahura_kernel.Prelude.{◌||◌, ◌&&◌, not}
use ahura_kernel.Task.State.{Kernel}
use ahura_kernel.Task.Create.{skip_ids}
use ahura_kernel.Task.Create.Fresh.{Fresh, skip_ids-Fresh}
use ahura_kernel.Task.Wake.{waiters_wake_all}
use ahura_kernel.Task.Wake.All.{wake_all-empties}
use ahura_kernel.Demo.{
  boot, started, started-IsValid, running_two, running_two-Reach, running_two-IsValid, two_executes,
  waiting, waiting-IsValid, asking, asking-IsValid, ten_ticks, facts, running_peer,
  running_peer-IsValid, peer_facts,
}

Reach-IsValid_example : IsValid running_two
Reach-IsValid_example = Reach-IsValid boot 1 4096 99 (λ w. refl) running_two-Reach

pend_sv-Switched_example : Switched (pend_sv 0 started)
pend_sv-Switched_example = pend_sv-Switched started-IsValid 0 facts.unlocked

pend_sv-Rotated_example : Rotated 0 1 [] (running_peer.tcb 0).priority (pend_sv 8000 running_peer)
pend_sv-Rotated_example =
    pend_sv-Rotated running_peer 8000 0 1 [] running_peer-IsValid peer_facts.current peer_facts.runs
      peer_facts.real peer_facts.unlocked peer_facts.queue peer_facts.none_above

tick_update-later_example :
    (tick_update 10 waiting).tcb 1
    ≡ (if is_sleeper (waiting.tcb 1) then later 10 (waiting.tcb 1) else waiting.tcb 1)
tick_update-later_example = tick_update-later 10 waiting-IsValid (omega arith) 1

tick_update-before_next_example : ((tick_update 9 waiting).tcb 1).state ≡ (waiting.tcb 1).state
tick_update-before_next_example =
    tick_update-before_next 9 waiting-IsValid (omega arith) (omega (arith, facts.next_delay)) 1

wake_one-first_example : WakesFirst 50 1 waiting (waiters_wake_one 50 waiting)
wake_one-first_example = wake_one-first waiting-IsValid 50 1 [] facts.waits_first

wait_remaining-after_example :
    wait_remaining 100 (2 ^ 32 - 5) (record boot { tick_count = 5 })
    ≡ (if 100 == wait_forever then wait_forever else 100 - 10)
wait_remaining-after_example =
    wait_remaining-after 100 (2 ^ 32 - 5) 10 (record boot { tick_count = 5 }) (omega arith)
      (omega arith) refl

-- A mutex held by task 1, and one held by task 2.
abbrev held_by : ℕ → Mutex
held_by id = record { locked = true; owner_id = id; waiters = 60 }

lock_round-Inherits_example :
    Inherits 1 0 running_two (lock_round 2 ten_ticks (held_by 1) running_two)
lock_round-Inherits_example =
    lock_round-Inherits 2 ten_ticks (held_by 1) 1 0 running_two refl refl facts.may_wait
      (omega arith) facts.current facts.finds_one

unlock-Restores_example :
    Restores 1
      (remove 60 (running_two.tcb 1).owned_mutexes)
      running_two
      (unlock (held_by 2) running_two)
unlock-Restores_example =
    unlock-Restores (held_by 2) 1 running_two running_two-IsValid facts.finds_two

abbrev free_mutex : Mutex
free_mutex = record { locked = false; owner_id = 0; waiters = 60 }

Trace-holders_example :
    (if done_ok (lock_round 2 ten_ticks free_mutex running_two).0 then 2 ∷ [] else [])
    ≡ holders (lock_round 2 ten_ticks free_mutex running_two).1
Trace-holders_example =
    Trace-holders (lock_round 2 ten_ticks free_mutex running_two).1
      (if done_ok (lock_round 2 ten_ticks free_mutex running_two).0 then 2 ∷ [] else [])
      (Owner.Trace.locks free_mutex [] 2 ten_ticks running_two (Owner.Trace.free free_mutex refl))

unlock-Unlocked_example : Unlocked (held_by 1) running_two (unlock (held_by 1) running_two)
unlock-Unlocked_example = unlock-Unlocked (held_by 1) running_two

abbrev semaphore : Semaphore
semaphore = record { count = 1; max_count = 2; waiters = 70 }

Trace-Balanced_example :
    Balanced semaphore
      (0 + tokens (is_ok (give semaphore running_two).0))
      0
      (give semaphore running_two).1
Trace-Balanced_example =
    Trace-Balanced semaphore (0 + tokens (is_ok (give semaphore running_two).0)) 0
      (give semaphore running_two).1 (omega arith)
      (Tokens.Trace.gives 0 0 semaphore running_two Tokens.Trace.stop)

abbrev event : Event
event = record { flags = 1; waiters = 50 }

set_bits-delivers_example : (set_bits 6 event asking).2.tcb 1 ≡ (
    if is (asking.tcb 1).wait_list 50 && is_asked (bit_or 1 6) (asking.tcb 1)
    then delivered 50 (bit_and (bit_or 1 6) (asking.tcb 1).wait_data0) (asking.tcb 1)
    else asking.tcb 1)
set_bits-delivers_example =
    set_bits-delivers 6 event asking asking-IsValid 1 (omega arith) (omega arith)
      (omega (arith, facts.asked_bits)) (omega (arith, facts.asked_all))

give_task-Given_example : Given 1 42 waiting (give_task 1 42 waiting)
give_task-Given_example = give_task-Given 1 42 waiting

wait_task-receives_example :
    let r = wait_task ten_ticks 1 (give_task 1 42 running_two) in
    (r.0 ≡ returns ok) × (r.1 ≡ some 42) × ((r.2.tcb 1).notify.pending ≡ false)
wait_task-receives_example = wait_task-receives ten_ticks 1 42 running_two

-- A queue of two items of one byte each
abbrev pub queue : Queue
queue = record {
  buffer = λ i. 0;
  is_bound = true;
  item_size = 1;
  capacity = 2;
  head = 1;
  tail = 1;
  count = 0;
  buffer_owned = false;
  send_waiters = 80;
  receive_waiters = 81;
}

queue-IsRing : IsRing queue
queue-IsRing = record { head_small = omega arith; count_small = omega arith; tail_of = refl }

Trace-fifo_example :
    let r = send_round (7 ∷ []) ten_ticks queue running_two in
    IsRing r.1 × (contents queue ++ ([] ++ put (7 ∷ []) r) ≡ [] ++ contents r.1)
Trace-fifo_example =
    Trace-fifo queue ([] ++ put (7 ∷ []) (send_round (7 ∷ []) ten_ticks queue running_two)) []
      (send_round (7 ∷ []) ten_ticks queue running_two).1 queue-IsRing
      (Trace.Trace.sent [] [] queue (7 ∷ []) ten_ticks running_two Trace.Trace.stop refl)

-- One periodic timer at address 9, started
abbrev no_timers : Timers
no_timers = record {
  max_timers = 2;
  registry = λ i. none;
  timer = λ t. record {
    period_ticks = 0;
    remaining_ticks = 0;
    mode = one_shot;
    active = false;
    paused = false;
    expired = false;
    callback = 0;
    context = 0;
  };
  timer_task = 0;
}

abbrev pub one_timer : Timers
one_timer = (timer_start 9 (Timer.init 9 5 periodic 300 0 no_timers).1).1

pub one_timer-Reach : Run.Reach one_timer
one_timer-Reach =
    Run.Reach.next (Timer.init 9 5 periodic 300 0 no_timers).1 one_timer
      (Run.Reach.next no_timers (Timer.init 9 5 periodic 300 0 no_timers).1
        (Run.Reach.boot no_timers (λ i. refl) (λ t. refl)) (Run.Step.inits 9 5 periodic 300 0))
      (Run.Step.starts 9)

Reach-IsRegistry_example : IsRegistry one_timer
Reach-IsRegistry_example = Reach-IsRegistry one_timer one_timer-Reach

tick_process-AllAged_example : AllAged 3 one_timer (tick_process 3 one_timer boot).0
tick_process-AllAged_example =
    tick_process-AllAged 3 one_timer boot (Reach-IsRegistry one_timer one_timer-Reach) (omega arith)

-- A periodic timer in the only slot expires, is paused, and its expiry is fetched; then another
-- timer starts.
abbrev one_slot : Timers
one_slot = record no_timers { max_timers = 1 }

abbrev paused_after_expiry : Timers
paused_after_expiry =
    let s = (timer_start 9 (Timer.init 9 5 periodic 300 0 one_slot).1).1 in
    (expired_fetch (timer_pause 9 (tick_process 5 s boot).0).1).1

abbrev other_started : Timers
other_started = (timer_start 8 (Timer.init 8 5 periodic 301 0 paused_after_expiry).1).1

-- The paused timer is still paused, and its resumption is refused.
resume_refused : ((other_started.timer 9).paused ≡ true) × ((timer_start 9 other_started).0 ≡ full)
unfolding slot_from slot_find slot_release acquire_from slot_acquire Timer.init armed arm
    timer_start timer_pause count_down process_from tick_process fetch_from expired_fetch
resume_refused = (refl, refl)

-- 12 ticks pass one by one and in bulk over a wait of 10.
abbrev some_ticks : List ℕ
some_ticks = 1 ∷ 1 ∷ 6 ∷ 1 ∷ 3 ∷ []

wait_begin-TimedOut_example :
    (total_ticks some_ticks < 10
      → Waits 50
          (10 - total_ticks some_ticks)
          ((ticks_pass some_ticks (wait_begin 50 10 running_two)).tcb 1))
    × (10 ≤ total_ticks some_ticks
        → total_ticks some_ticks ≢ 0
        → TimedOut ((ticks_pass some_ticks (wait_begin 50 10 running_two)).tcb 1))
wait_begin-TimedOut_example =
    wait_begin-TimedOut 50 10 some_ticks 1 running_two running_two-IsValid two_executes
      facts.current (omega (arith, facts.idle_last)) (omega arith)
      (omega arith, (omega arith, (omega arith, (omega arith, (omega arith, tt)))))

-- Task 1 asks for the bits 6 and clears them on exit, and the other tasks ask for nothing.
abbrev clearing : Kernel
clearing = record boot {
  tcb = λ t. record (boot.tcb t) { wait_data0 = if t == 1 then 6 else 0; wait_data1 = 2 };
  waiters = λ w. if w == 50 then 1 ∷ [] else [];
}

set_bits-clears_example : bit (set_bits 6 event clearing).1.flags 2 ≡ (
    (bit 1 2 || bit 6 2)
    && not (any (λ t. consumes (bit_or 1 6) 2 (clearing.tcb t)) (clearing.waiters 50)))
set_bits-clears_example = set_bits-clears 6 event clearing 2 (omega arith) (λ u. ground arith)

skip_ids-Fresh_example :
    Fresh running_two (skip_ids (running_two.table_size + 2) running_two.next_id running_two)
skip_ids-Fresh_example =
    skip_ids-Fresh running_two (omega (arith, facts.next_id)) (omega (arith, facts.table))

wake_all-empties_example : (waiters_wake_all 50 waiting).waiters 50 ≡ []
wake_all-empties_example = wake_all-empties 50 waiting waiting-IsValid
