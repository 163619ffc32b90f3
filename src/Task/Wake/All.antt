-- ===== src/Task/Wake/All.antt =====
-- os_task_waiters_wake_all leaves nobody waiting.
use ahura_kernel.Prelude.{
  ℕ, zero, suc, ◌+◌, ◌<◌, ◌≡◌, refl, ap, ◌∙◌, Bool, false, List, [], ◌∷◌, length, arith, if_cases,
  remove,
}
use ahura_kernel.Task.State.{Kernel, Task, WaiterList}
use ahura_kernel.Task.Wake.{waiters_wake_one, wake_all_loop, waiters_wake_all}
use ahura_kernel.Task.Wake.First.{wake_one-first}
use ahura_kernel.Task.Inv.{IsValid}
use ahura_kernel.Task.Inv.Wake.{wake_one-IsValid}

-- One round shortens the list.
round-waiters :
    (w : WaiterList) (t : Task) (ts : List Task) (k : Kernel)
    → IsValid k
    → k.waiters w ≡ t ∷ ts
    → (waiters_wake_one w k).1.waiters w ≡ ts
round-waiters w t ts k inv e =
    ap (λ (f : WaiterList → List Task). f w) (wake_one-first inv w t ts e).leaves_list
    ∙ ground (arith, ap (remove t) e)

none_woken : (w : WaiterList) (k : Kernel) → k.waiters w ≡ [] → waiters_wake_one w k ≡ (false, k)
unfolding waiters_wake_one
none_woken w k e = simp (waiters_wake_one, e) refl

loop-empties :
    (n : ℕ) (w : WaiterList) (ts : List Task) (k : Kernel)
    → IsValid k
    → k.waiters w ≡ ts
    → length ts < n
    → (wake_all_loop n w k).waiters w ≡ []
unfolding wake_all_loop
loop-empties zero w ts k inv e h = absurd (omega arith)
loop-empties (suc n) w [] k inv e h =
    let stays = none_woken w k e in
    if_cases (λ (k' : Kernel). k'.waiters w ≡ []) (waiters_wake_one w k).0
      (λ yes. absurd (cc (yes, ap (λ (r : Bool × Kernel). r.0) stays)))
      (λ _. ap (λ (r : Bool × Kernel). r.1.waiters w) stays ∙ e)
loop-empties (suc n) w (t ∷ ts) k inv e h =
    if_cases (λ (k' : Kernel). k'.waiters w ≡ []) (waiters_wake_one w k).0
      (λ _.
        loop-empties n w ts (waiters_wake_one w k).1 (wake_one-IsValid w inv)
          (round-waiters w t ts k inv e) (omega arith))
      (λ no. absurd (cc (no, (wake_one-first inv w t ts e).woken)))

-- After os_task_waiters_wake_all the list is empty: the rounds that the model gives to its loop
-- are enough.
pub wake_all-empties :
    (w : WaiterList) (k : Kernel) → IsValid k → (waiters_wake_all w k).waiters w ≡ []
unfolding waiters_wake_all
wake_all-empties w k inv =
    loop-empties (length (k.waiters w) + 1) w (k.waiters w) k inv refl (omega arith)
