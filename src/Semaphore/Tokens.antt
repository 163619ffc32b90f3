-- ===== src/Semaphore/Tokens.antt =====
-- The tokens of a semaphore over every run of gives and takes, whoever calls them and however the
-- calls end.
use ahura_kernel.Prelude.{
  ℕ, ◌+◌, ◌≤◌, ◌≡◌, refl, Bool, ◌&&◌, arith, ltb, leb, ◌==◌, if◌then◌else◌, if_cases, is_empty,
}
use ahura_kernel.Task.State.{Kernel, Status}
use ahura_kernel.Sync.{Turn, Budget, is_ok, done_ok, must_not_wait}
use ahura_kernel.Semaphore.{Semaphore, init, give, take_round}

-- How many tokens a call has put in or taken out.
abbrev pub tokens : Bool → ℕ
tokens d = if d then 1 else 0

-- `Trace s given taken s'`: calls of os_semaphore_give and rounds of os_semaphore_take lead from `s`
-- to `s'`, of which so many gives and takes have succeeded.
pub data Trace (s : Semaphore) : ℕ → ℕ → Semaphore → Type 0 where
  stop : Trace s 0 0 s
  gives :
      (given taken : ℕ) (s' : Semaphore) (k : Kernel)
      → Trace s given taken s'
      → Trace s (given + tokens (is_ok (give s' k).0)) taken (give s' k).1
  takes :
      (given taken : ℕ) (s' : Semaphore) (b : Budget) (k : Kernel)
      → Trace s given taken s'
      → Trace s given (taken + tokens (done_ok (take_round b s' k).0)) (take_round b s' k).1

-- The books of a semaphore `s'` that has come from `s`.
pub record Balanced (s : Semaphore) (given taken : ℕ) (s' : Semaphore) : Type 0 where
  pub balance : s.count + given ≡ s'.count + taken
  pub bounded : s'.count ≤ s'.max_count
  pub same_bound : s'.max_count ≡ s.max_count

module _ (s : Semaphore) (given taken : ℕ) (s' : Semaphore) (k : Kernel)
    (books : Balanced s given taken s') where
  give-Balanced : Balanced s (given + tokens (is_ok (give s' k).0)) taken (give s' k).1
  unfolding give
  give-Balanced =
      if_cases
        (λ (r : Status × Semaphore × Kernel). Balanced s (given + tokens (is_ok r.0)) taken r.1)
        (leb s'.max_count s'.count)
        (λ _. record {
          balance = omega (arith, books.balance);
          bounded = books.bounded;
          same_bound = books.same_bound;
        })
        (λ room. record {
          balance = omega (arith, books.balance);
          bounded = ground arith;
          same_bound = books.same_bound;
        })

  take-Balanced :
      (b : Budget)
      → Balanced s given (taken + tokens (done_ok (take_round b s' k).0)) (take_round b s' k).1
  unfolding take_round
  take-Balanced b =
      if_cases P (ltb 0 s'.count)
        (λ some_token. record {
          balance = ground (arith, books.balance);
          bounded = omega (arith, books.bounded);
          same_bound = books.same_bound;
        })
        (λ _.
          if_cases P (must_not_wait b k) (λ _. unchanged)
            (λ _. if_cases P (b.remaining_ticks == 0) (λ _. unchanged) (λ _. unchanged)))
    where
      P : Turn × Semaphore × Kernel → Type 0
      P r = Balanced s given (taken + tokens (done_ok r.0)) r.1

      unchanged : Balanced s given (taken + 0) s'
      unchanged = record {
        balance = omega (arith, books.balance);
        bounded = books.bounded;
        same_bound = books.same_bound;
      }

-- After any run of gives and takes, the tokens there were and the tokens given are the tokens taken
-- and the tokens there are, and there are never more than the maximum.
pub Trace-Balanced :
    (s : Semaphore) (given taken : ℕ) (s' : Semaphore)
    → s.count ≤ s.max_count
    → Trace s given taken s'
    → Balanced s given taken s'
Trace-Balanced s _ _ _ h stop = record { balance = refl; bounded = h; same_bound = refl }
Trace-Balanced s _ _ _ h (gives given taken s' k trace) =
    give-Balanced s given taken s' k (Trace-Balanced s given taken s' h trace)
Trace-Balanced s _ _ _ h (takes given taken s' b k trace) =
    take-Balanced s given taken s' k (Trace-Balanced s given taken s' h trace) b

-- os_semaphore_init accepts exactly a maximum that is not 0, an initial count within it, and a
-- semaphore without waiters; then the count and the maximum are the arguments, and otherwise the
-- semaphore is as it was.
pub init-checks :
    (s : Semaphore) (initial_count max_count : ℕ) (k : Kernel)
    → let r = init s initial_count max_count k in
      let accepted =
        (ltb 0 max_count && leb initial_count max_count && is_empty (k.waiters s.waiters)) in
      (is_ok r.0 ≡ accepted)
      × (r.1 ≡ (if accepted then record s { count = initial_count; max_count = max_count } else s))
unfolding init
init-checks s initial_count max_count k = ground arith
