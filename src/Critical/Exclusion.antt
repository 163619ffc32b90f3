-- ===== src/Critical/Exclusion.antt =====
-- Two cores are never in the kernel together.
use ahura_kernel.Prelude.{ℕ, ◌≡◌, ◌≢◌, refl, true, arith}
use ahura_kernel.Critical.{enter_counted, critical_exit}
use ahura_kernel.Critical.Cores.{
  entering, Cores, cores_init, Step, raise, acquire, deepen, leave, lock, unlock, Reach, start,
  later, is_walking, is_inside,
}

record IsExclusive (s : Cores) : Type 0 where
  held : (i : ℕ) → is_inside s i ≡ true → s.locks.locked ≡ true
  unique : (i j : ℕ) → is_inside s i ≡ true → is_inside s j ≡ true → i ≡ j
  apart : (i : ℕ) → is_walking (s.place i) ≡ true → s.locks.nesting i ≡ 0
  masked : (i : ℕ) → s.locks.nesting i ≢ 0 → s.locks.mask i ≡ 1
  raised : (i m : ℕ) → s.place i ≡ entering m → s.locks.mask i ≡ 1

cores_init-IsExclusive : IsExclusive cores_init
cores_init-IsExclusive = record {
  held = λ i h. ground arith;
  unique = λ i j h g. ground arith;
  apart = λ i h. refl;
  masked = λ i h. absurd (h refl);
  raised = λ i m h. ground arith;
}

Step-IsExclusive : {s t : Cores} → Step s t → IsExclusive s → IsExclusive t
unfolding enter_counted critical_exit
Step-IsExclusive {s} (raise core at) v = record {
  held = λ i h. ground (arith, v.held i, at);
  unique = λ i j h g. ground (arith, v.unique i j, at);
  apart = λ i h. ground (arith, v.apart i, at);
  masked = λ i h. ground (arith, v.masked i, at);
  raised = λ i m h. ground (arith, v.raised i m, at);
}
Step-IsExclusive {s} (acquire core m at zero_deep unlocked) v = record {
  held = λ i h. ground (arith, v.held i, v.apart i, at, zero_deep, unlocked);
  unique = λ i j h g.
      ground (arith, v.unique i j, v.held i, v.held j, v.apart i, at, zero_deep, unlocked);
  apart = λ i h. ground (arith, v.apart i, v.held i, at, zero_deep, unlocked);
  masked = λ i h. ground (arith, v.masked i, v.raised i m, at, zero_deep, unlocked);
  raised = λ i m' h. ground (arith, v.raised i m', v.masked i, at, zero_deep, unlocked);
}
Step-IsExclusive {s} (deepen core m at deep) v = record {
  held = λ i h. ground (arith, v.held i, v.apart i, at, deep, v.held core);
  unique =
      λ i j h g. ground (arith, v.unique i j, v.held i, v.held j, v.apart i, at, deep, v.held core);
  apart = λ i h. ground (arith, v.apart i, v.held i, at, deep, v.held core);
  masked = λ i h. ground (arith, v.masked i, v.raised i m, at, deep, v.held core);
  raised = λ i m' h. ground (arith, v.raised i m', v.masked i, at, deep, v.held core);
}
Step-IsExclusive {s} (leave core at) v = record {
  held = λ i h. ground (arith, v.held i, v.apart i, at, v.held core, v.unique core i);
  unique = λ i j h g.
      ground (arith, v.unique i j, v.held i, v.held j, v.apart i, at, v.held core, v.unique core i);
  apart = λ i h. ground (arith, v.apart i, v.held i, at, v.held core, v.unique core i);
  masked = λ i h. ground (arith, v.masked i, at, v.held core, v.unique core i);
  raised = λ i m' h. ground (arith, v.raised i m', v.masked i, at, v.held core, v.unique core i);
}
Step-IsExclusive {s} (lock core at unlocked) v = record {
  held = λ i h. ground (arith, v.held i, v.apart i, at, unlocked);
  unique = λ i j h g. ground (arith, v.unique i j, v.held i, v.held j, v.apart i, at, unlocked);
  apart = λ i h. ground (arith, v.apart i, v.held i, at, unlocked);
  masked = λ i h. ground (arith, v.masked i, at, unlocked);
  raised = λ i m' h. ground (arith, v.raised i m', v.masked i, at, unlocked);
}
Step-IsExclusive {s} (unlock core at) v = record {
  held = λ i h. ground (arith, v.held i, v.apart i, at, v.unique core i, v.held core, v.apart core);
  unique = λ i j h g. ground (
    arith,
    v.unique i j,
    v.held i,
    v.held j,
    v.apart i,
    at,
    v.unique core i,
    v.held core,
    v.apart core,
  );
  apart =
      λ i h. ground (arith, v.apart i, v.held i, at, v.unique core i, v.held core, v.apart core);
  masked = λ i h. ground (arith, v.masked i, at, v.unique core i, v.held core, v.apart core);
  raised = λ i m' h.
      ground (arith, v.raised i m', v.masked i, at, v.unique core i, v.held core, v.apart core);
}

Reach-IsExclusive : {s : Cores} → Reach s → IsExclusive s
Reach-IsExclusive start = cores_init-IsExclusive
Reach-IsExclusive (later r st) = Step-IsExclusive st (Reach-IsExclusive r)

-- However the cores' calls interleave, two cores that are in the kernel, in a critical section or in
-- a scheduler walk, are the same core; the lock is then taken, and a core in a critical section has
-- its interrupts masked.
pub Reach-excludes :
    {s : Cores}
    → Reach s
    → (i j : ℕ) → is_inside s i ≡ true
    → is_inside s j ≡ true
    → (i ≡ j) × (s.locks.locked ≡ true) × (s.locks.nesting i ≢ 0 → s.locks.mask i ≡ 1)
Reach-excludes r i j in_i in_j =
    let v = Reach-IsExclusive r in (v.unique i j in_i in_j, v.held i in_i, v.masked i)
