-- ===== src/Delay/Polls.antt =====
-- The inner loop of the busy wait of os_delay.c: how many cycles a chunk takes.
use ahura_kernel.Prelude.{
  ℕ, ◌+◌, ◌-◌, ◌^◌, ◌≤◌, ◌<◌, ◌≡◌, refl, sym, ap, subst, ◌∙◌, true, Option, some, List, [], ◌∷◌,
  ◌++◌, length, inl, inr, Bool-cases, ltb→lt, ltb→le, ltb, if◌then◌else◌, arith,
}
use ahura_kernel.Delay.{minus32, max_cycle_chunk, poll}
use ahura_kernel.Delay.Sleeps.{tick_after, counts, measures}

-- The cycles that pass.
abbrev pub cycles : List ℕ → ℕ
cycles [] = 0
cycles (d ∷ ds) = d + cycles ds

-- Between two reads of the counter it advances, and by at most 2^31 cycles.
abbrev pub IsPaced : List ℕ → Type 0
IsPaced [] = Unit
IsPaced (d ∷ ds) = (1 ≤ d) × (d ≤ 2 ^ 31) × IsPaced ds

-- The wait ends, at least `wait` cycles after the counter stood at `count`, having read at most `reads` times.
pub record Waits (count wait reads : ℕ) (ds : List ℕ) (r : Option (ℕ × List ℕ)) : Type 0 where
  pub used : List ℕ
  pub rest : List ℕ
  pub taken : ds ≡ used ++ rest
  pub enough : wait ≤ cycles used
  pub few : length used ≤ reads
  pub paced : IsPaced rest
  pub ends : r ≡ some (tick_after count (cycles used), rest)

-- The inner loop of os_delay_cycle_wait, where it has just read `count`.
abbrev reading : (start chunk count : ℕ) → List ℕ → Option (ℕ × List ℕ)
reading start chunk count ds =
    if ltb (minus32 count start) chunk then poll start chunk count ds else some (count, ds)

module _ (start chunk : ℕ) (a : start < 2 ^ 32) (b : chunk ≤ max_cycle_chunk) where
  abbrev Polls : ℕ → List ℕ → Type 0
  Polls elapsed ds =
      Waits (tick_after start elapsed) (chunk - elapsed) (chunk - elapsed) ds
        (reading start chunk (tick_after start elapsed) ds)

  poll_ends :
      (elapsed : ℕ) (ds : List ℕ)
      → elapsed < 2 ^ 32
      → chunk ≤ elapsed
      → reading start chunk (tick_after start elapsed) ds ≡ some (tick_after start elapsed, ds)
  poll_ends elapsed ds c over = rw (measures start elapsed a c) (ground (arith, over))

  poll_goes_on :
      (elapsed d : ℕ) (ds : List ℕ)
      → elapsed < chunk
      → reading start chunk (tick_after start elapsed) (d ∷ ds)
        ≡ reading start chunk (tick_after start (elapsed + d)) ds
  unfolding poll
  poll_goes_on elapsed d ds more =
      let short : ltb elapsed chunk ≡ true = ground arith in
      rw (measures start elapsed a (omega arith), short, counts start elapsed d) refl

  no_more-Polls :
      (elapsed : ℕ) (ds : List ℕ)
      → IsPaced ds
      → elapsed < 2 ^ 32
      → chunk ≤ elapsed
      → Polls elapsed ds
  no_more-Polls elapsed ds p c over = record {
    used = [];
    rest = ds;
    taken = refl;
    enough = omega arith;
    few = omega arith;
    paced = p;
    ends = poll_ends elapsed ds c over ∙ ap (λ (n : ℕ). some (n, ds)) (sym (again elapsed));
  }
    where
      again : (elapsed : ℕ) → tick_after (tick_after start elapsed) 0 ≡ tick_after start elapsed
      again elapsed = omega arith

  once-Polls :
      (elapsed d : ℕ) (ds : List ℕ)
      → 1 ≤ d
      → elapsed < chunk
      → Polls (elapsed + d) ds
      → Polls elapsed (d ∷ ds)
  once-Polls elapsed d ds some_cycles more r = record {
    used = d ∷ r.used;
    rest = r.rest;
    taken = ap (λ l. d ∷ l) r.taken;
    enough = omega (arith, r.enough);
    few = omega (arith, r.few);
    paced = r.paced;
    ends =
        poll_goes_on elapsed d ds more
        ∙ r.ends
        ∙ ap (λ (n : ℕ). some (n, r.rest))
            (counts start (elapsed + d) (cycles r.used)
              ∙ ap (tick_after start) (assoc elapsed d (cycles r.used))
              ∙ sym (counts start elapsed (d + cycles r.used)));
  }
    where
      assoc : (x y z : ℕ) → x + y + z ≡ x + (y + z)
      assoc x y z = omega arith

  polls :
      (elapsed : ℕ) (ds : List ℕ)
      → IsPaced ds
      → elapsed < 2 ^ 32
      → chunk ≤ elapsed + length ds
      → Polls elapsed ds
  polls elapsed [] p c d = no_more-Polls elapsed [] p c (omega arith)
  polls elapsed (x ∷ ds) p c d = elim (Bool-cases (ltb elapsed chunk)) [
    | inr over ↦ no_more-Polls elapsed (x ∷ ds) p c (ltb→le elapsed chunk over)
    | inl more ↦
        let short = ltb→lt elapsed chunk more in
        once-Polls elapsed x ds p.0 short
          (polls (elapsed + x) ds p.2 (omega (arith, p.1)) (omega (arith, p.0)))
  ]

pub from_start :
    (count chunk : ℕ) (ds : List ℕ)
    → count < 2 ^ 32
    → 0 < chunk
    → chunk ≤ max_cycle_chunk
    → IsPaced ds
    → chunk ≤ length ds
    → Waits count chunk chunk ds (poll count chunk count ds)
from_start count chunk ds a some_left b p c =
    let same : tick_after count 0 ≡ count = omega arith in
    let all : chunk - 0 ≡ chunk = omega arith in
    let begins : reading count chunk count ds ≡ poll count chunk count ds =
      let zero_passed : minus32 count count ≡ 0 = omega arith in
      let short : ltb 0 chunk ≡ true = ground arith in rw (zero_passed, short) refl in
    subst (Waits count chunk chunk ds) begins (
      subst (λ (w : ℕ). Waits count w w ds (reading count chunk count ds)) all
        (subst (λ (c0 : ℕ). Waits c0 (chunk - 0) (chunk - 0) ds (reading count chunk c0 ds)) same
          (polls count chunk a b 0 ds p (omega arith) (omega (arith, c)))))
