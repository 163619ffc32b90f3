-- ===== src/Task/Inv/Match.antt =====
-- os_task_waiters_wake_match keeps the invariant, whatever the callback decides.
use ahura_kernel.Prelude.{
  ℕ, ◌≤◌, ◌≡◌, ◌≢◌, some, List, [], ◌∷◌, arith, if◌then◌else◌, if_cases, count, remove,
  count-remove_self, count-remove_ne,
}
use ahura_kernel.Task.State.{Kernel, Task, WaiterList}
use ahura_kernel.Task.Sched.{make_ready}
use ahura_kernel.Task.Wake.{WaitMatch, deliver, wake_match_from, waiters_wake_match}
use ahura_kernel.Task.Frame.{unlink-waiters, preempt_if_running-waiters}
use ahura_kernel.Task.Inv.{IsValid}
use ahura_kernel.Task.Inv.Wake.{deliver-IsValid}

-- Every task of `ts` still stands in `ws`, as often.
abbrev pub Within : List Task → List Task → Type 0
Within ts ws = (u : Task) → count u ts ≤ count u ws

-- A delivery takes the task off the waiter list that it is on.
pub deliver-waiters :
    (w : WaiterList) (t : Task) (result : ℕ) (k : Kernel)
    → (k.tcb t).wait_list ≡ some w
    → (deliver w t result k).waiters w ≡ remove t (k.waiters w)
unfolding deliver make_ready
deliver-waiters w t result k e =
    rw (preempt_if_running-waiters, unlink-waiters t k w e) (ground arith)

module _ {k : Kernel} (inv : IsValid k) (w : WaiterList) where
  pub waiter_list : (t : Task) → count t (k.waiters w) ≢ 0 → (k.tcb t).wait_list ≡ some w
  waiter_list t h = ground (arith, inv.wait_count w t)

  Within-tail :
      (t : Task) (ts : List Task) (result : ℕ)
      → Within (t ∷ ts) (k.waiters w)
      → Within ts ((deliver w t result k).waiters w)
  Within-tail t ts result h u =
      rw (deliver-waiters w t result k (waiter_list t (ground (arith, h t))))
        (ground (arith, h u, count-remove_self t (k.waiters w), count-remove_ne t u (k.waiters w)))

pub wake_match_from-IsValid :
    {C : Type 0} (w : WaiterList) (m : WaitMatch C) (ts : List Task) (ctx : C) {k : Kernel}
    → IsValid k
    → Within ts (k.waiters w)
    → IsValid (wake_match_from w m ts ctx k).2
unfolding wake_match_from
wake_match_from-IsValid w m [] ctx inv h = inv
wake_match_from-IsValid w m (t ∷ ts) ctx {k} inv h =
    let out = m (k.tcb t).wait_data0 (k.tcb t).wait_data1 ctx in
    let kept : IsValid (if out.0 then deliver w t out.1 k else k)
        × Within ts ((if out.0 then deliver w t out.1 k else k).waiters w) =
      if_cases (λ k'. IsValid k' × Within ts (k'.waiters w)) out.0
        (λ _. (deliver-IsValid inv w t out.1 (ground (arith, h t)), Within-tail inv w t ts out.1 h))
        (λ _. (inv, λ u. ground (arith, h u))) in
    wake_match_from-IsValid w m ts out.2 kept.0 kept.1

pub wake_match-IsValid :
    {C : Type 0} (w : WaiterList) (m : WaitMatch C) (ctx : C) {k : Kernel}
    → IsValid k
    → IsValid (waiters_wake_match w m ctx k).2
unfolding waiters_wake_match
wake_match-IsValid w m ctx {k} inv =
    wake_match_from-IsValid w m (k.waiters w) ctx inv (λ u. omega arith)
