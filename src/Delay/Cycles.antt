-- ===== src/Delay/Cycles.antt =====
-- The busy wait of os_delay.c, in chunks so that the wrap of the cycle counter stays unambiguous.
use mathlib.Core.List.{append_assoc}
use ahura_kernel.Prelude.{
  ℕ, zero, suc, ◌+◌, ◌-◌, ◌*◌, ◌^◌, ◌≤◌, ◌<◌, ◌≡◌, refl, sym, ap, subst, ◌∙◌, false, some, List, [],
  ◌∷◌, ◌++◌, length, length-append, inl, inr, Bool-cases, ==→eq, ◌==◌, if◌then◌else◌, arith,
}
use ahura_kernel.Delay.Polls.{cycles, IsPaced, Waits, from_start}
use ahura_kernel.Delay.{max_cycle_chunk, poll, chunk_of, cycle_wait}
use ahura_kernel.Delay.Sleeps.{tick_after, counts}

-- The cycles that pass until os_delay_cycle_wait has read its first start.
abbrev pub until_start : (wait : ℕ) → List ℕ → ℕ
until_start wait [] = 0
until_start wait (d ∷ ds) = if wait == 0 then 0 else d

no_cycles : (n count : ℕ) (ds : List ℕ) → cycle_wait n 0 count ds ≡ some (count, ds)
unfolding cycle_wait
no_cycles zero count ds = refl
no_cycles (suc n) count [] = refl
no_cycles (suc n) count (d ∷ ds) = refl

no_more-Waits :
    (n wait count : ℕ) (ds : List ℕ)
    → wait ≡ 0
    → count < 2 ^ 32
    → IsPaced ds
    → Waits count (until_start wait ds + wait) (wait + n) ds (cycle_wait n wait count ds)
no_more-Waits n wait count ds none_left a p =
    let at_once : until_start wait ds ≡ 0 =
      subst (λ (w : ℕ). until_start w ds ≡ 0) (sym none_left) (never ds) in
    let same : tick_after count 0 ≡ count = omega arith in
    record {
      used = [];
      rest = ds;
      taken = refl;
      enough = omega (arith, none_left, at_once);
      few = omega arith;
      paced = p;
      ends = rw none_left (no_cycles n count ds ∙ ap (λ (c : ℕ). some (c, ds)) (sym same));
    }
  where
    never : (ds : List ℕ) → until_start 0 ds ≡ 0
    never [] = refl
    never (d ∷ ds) = refl

one_chunk :
    (n wait count d : ℕ) (ds : List ℕ) (r : ℕ × List ℕ)
    → 0 < wait
    → poll (tick_after count d) (chunk_of wait) (tick_after count d) ds ≡ some r
    → cycle_wait (suc n) wait count (d ∷ ds) ≡ cycle_wait n (wait - chunk_of wait) r.0 r.1
unfolding cycle_wait
one_chunk n wait count d ds r some_left e =
    let more : (wait == 0) ≡ false = ground arith in rw (more, e) refl

cycles-append : (xs ys : List ℕ) → cycles (xs ++ ys) ≡ cycles xs + cycles ys
cycles-append [] ys = omega arith
cycles-append (x ∷ xs) ys = omega (arith, cycles-append xs ys)

-- A chunk's wait and the wait for the rest; `d` cycles pass until the chunk's start is read.
chunk-Waits :
    (n wait count d : ℕ) (ds : List ℕ)
    → 0 < wait
    → (chunk : ℕ) → chunk ≡ chunk_of wait
    → (first : Waits
        (tick_after count d)
        chunk
        chunk
        ds
        (poll (tick_after count d) chunk (tick_after count d) ds))
    → Waits
        (tick_after (tick_after count d) (cycles first.used))
        (until_start (wait - chunk) first.rest + (wait - chunk))
        (wait - chunk + n)
        first.rest
        (cycle_wait n
          (wait - chunk)
          (tick_after (tick_after count d) (cycles first.used))
          first.rest)
    → Waits count
        (until_start wait (d ∷ ds) + wait)
        (wait + suc n)
        (d ∷ ds)
        (cycle_wait (suc n) wait count (d ∷ ds))
chunk-Waits n wait count d ds some_left chunk is_chunk first others =
    let part : chunk ≤ wait = ground (arith, is_chunk) in
    let both = cycles-append first.used others.used in
    let start = tick_after count d in
    record {
      used = d ∷ first.used ++ others.used;
      rest = others.rest;
      taken =
          ap (λ (l : List ℕ). d ∷ l)
            (first.taken
              ∙ ap (λ (l : List ℕ). first.used ++ l) others.taken
              ∙ sym (append_assoc first.used others.used others.rest));
      enough = ground (arith, both, first.enough, others.enough, part);
      few = omega (arith, length-append first.used others.used, first.few, others.few, part);
      paced = others.paced;
      ends =
          one_chunk n wait count d ds (tick_after start (cycles first.used), first.rest) some_left
            (subst
              (λ (w : ℕ).
                poll start w start ds ≡ some (tick_after start (cycles first.used), first.rest))
              is_chunk first.ends)
          ∙ ap
              (λ (w : ℕ). cycle_wait n (wait - w) (tick_after start (cycles first.used)) first.rest)
              (sym is_chunk)
          ∙ others.ends
          ∙ ap (λ (c : ℕ). some (c, others.rest))
              (counts start (cycles first.used) (cycles others.used)
                ∙ ap (tick_after start) (sym both)
                ∙ counts count d (cycles (first.used ++ others.used)));
    }

left_over :
    (n wait chunk : ℕ) (ds used rest : List ℕ)
    → ds ≡ used ++ rest
    → chunk ≤ wait
    → length used ≤ chunk
    → wait + n ≤ length ds
    → wait - chunk + n ≤ length rest
left_over n wait chunk ds used rest taken part few enough =
    omega (arith, ap length taken ∙ length-append used rest, part, few, enough)

-- os_delay_cycle_wait returns, at least `wait` cycles after it first read the counter and after at most
-- `wait + n` advances of it, wherever the 32-bit counter stands: when the counter advances by 1 to
-- 2^31 cycles between two reads, `n` chunks cover the wait, and there are `wait + n` advances.
pub cycle_wait-Waits :
    (n wait count : ℕ) (ds : List ℕ)
    → wait ≤ n * max_cycle_chunk
    → count < 2 ^ 32
    → IsPaced ds
    → wait + n ≤ length ds
    → Waits count (until_start wait ds + wait) (wait + n) ds (cycle_wait n wait count ds)
cycle_wait-Waits zero wait count ds few a p c = no_more-Waits 0 wait count ds (omega arith) a p
cycle_wait-Waits (suc n) wait count [] few a p c = absurd (omega arith)
cycle_wait-Waits (suc n) wait count (d ∷ ds) few a p c = elim (Bool-cases (wait == 0)) [
  | inl none_left ↦ no_more-Waits (suc n) wait count (d ∷ ds) (==→eq wait 0 none_left) a p
  | inr more ↦
      let chunk = chunk_of wait in
      let start = tick_after count d in
      let first : Waits start chunk chunk ds (poll start chunk start ds) =
        from_start start chunk ds (omega arith) (ground arith) (ground arith) p.2 (ground arith) in
      chunk-Waits n wait count d ds (ground (arith, more)) chunk refl first (
        cycle_wait-Waits n (wait - chunk) (tick_after start (cycles first.used)) first.rest
          (ground (arith, few)) (omega arith) first.paced
          (left_over n wait chunk ds first.used first.rest first.taken (ground arith) first.few
            (omega (arith, c))))
]
