-- ===== src/Critical/Nested.antt =====
-- Nested critical sections on one core.
use ahura_kernel.Prelude.{
  ℕ, ◌+◌, ◌^◌, ◌≤◌, ◌<◌, ◌≡◌, ◌≢◌, refl, sym, ◌∙◌, true, false, ltb, if◌then◌else◌, arith,
}
use ahura_kernel.Critical.{Locks, enter_counted, critical_enter, critical_exit}

-- Calls that pair up: critical sections one after the other, each around others.
pub data Sections : Type 0 where
  done : Sections
  section : Sections → Sections → Sections

-- The calls of os_critical_enter and os_critical_exit, in order.
unfoldable pub run_sections : ℕ → Sections → Locks → Locks
run_sections core done s = s
run_sections core (section inner rest) s =
    run_sections core rest (critical_exit core (run_sections core inner (critical_enter core s)))

-- How deep they nest.
unfoldable pub depth : Sections → ℕ
depth done = 0
depth (section inner rest) =
    if ltb (depth inner + 1) (depth rest) then depth rest else depth inner + 1

-- The core may enter: the lock is taken by this core or by none.
pub record IsSettled (core : ℕ) (s : Locks) : Type 0 where
  pub free : s.nesting core ≡ 0 → s.locked ≡ false
  pub held : s.nesting core ≢ 0 → s.locked ≡ true
  pub masked : s.nesting core ≢ 0 → s.mask core ≡ 1
  pub word : s.mask core ≤ 1

-- The lock, the interrupt masks and the nesting counts are the same, and so is the mask that the
-- outermost exit restores.
pub record IsRestored (core : ℕ) (s t : Locks) : Type 0 where
  pub locked : t.locked ≡ s.locked
  pub nesting : (i : ℕ) → t.nesting i ≡ s.nesting i
  pub mask : (i : ℕ) → t.mask i ≡ s.mask i
  pub saved : s.nesting core ≢ 0 → t.saved core ≡ s.saved core

enter-IsSettled :
    (core : ℕ) (s : Locks)
    → IsSettled core s
    → s.nesting core + 1 < 2 ^ 32
    → IsSettled core (critical_enter core s)
      × ((critical_enter core s).nesting core ≡ s.nesting core + 1)
unfolding critical_enter enter_counted
enter-IsSettled core s v fits = (
  record {
    free = λ h. ground (arith, v.held);
    held = λ h. ground (arith, v.held);
    masked = λ h. ground arith;
    word = ground arith;
  },
  ground arith,
)

exit-IsRestored :
    (core : ℕ) (s t : Locks)
    → IsSettled core s
    → s.nesting core + 1 < 2 ^ 32
    → IsRestored core (critical_enter core s) t
    → IsRestored core s (critical_exit core t)
unfolding critical_enter enter_counted critical_exit
exit-IsRestored core s t v fits r = record {
  locked = ground (arith, r.locked, r.nesting core, v.free, v.held);
  nesting = λ i. ground (arith, r.nesting i, r.nesting core);
  mask = λ i. ground (arith, r.nesting core, r.mask i, r.saved, v.word, v.masked);
  saved = λ h. ground (arith, r.saved, r.nesting core);
}

IsRestored-trans :
    (core : ℕ) (s t u : Locks) → IsRestored core s t → IsRestored core t u → IsRestored core s u
IsRestored-trans core s t u p q = record {
  locked = q.locked ∙ p.locked;
  nesting = λ i. q.nesting i ∙ p.nesting i;
  mask = λ i. q.mask i ∙ p.mask i;
  saved = λ h. q.saved (λ z. h (sym (p.nesting core) ∙ z)) ∙ p.saved h;
}

IsRestored-IsSettled :
    (core : ℕ) (s t : Locks) → IsRestored core s t → IsSettled core s → IsSettled core t
IsRestored-IsSettled core s t r v = record {
  free = λ h. r.locked ∙ v.free (sym (r.nesting core) ∙ h);
  held = λ h. r.locked ∙ v.held (λ z. h (r.nesting core ∙ z));
  masked = λ h. r.mask core ∙ v.masked (λ z. h (r.nesting core ∙ z));
  word = omega (arith, r.mask core, v.word);
}

-- Paired calls of os_critical_enter and os_critical_exit, nested as deep as the 32-bit count allows,
-- leave the lock, every core's interrupt mask and nesting count as they were: inner sections neither
-- unmask the interrupts nor release the lock, and the outermost exit restores what it found.
pub run_sections-IsRestored :
    (core : ℕ) (calls : Sections) (s : Locks)
    → IsSettled core s
    → s.nesting core + depth calls < 2 ^ 32
    → IsRestored core s (run_sections core calls s)
unfolding run_sections depth
run_sections-IsRestored core done s v fits = record {
  locked = refl;
  nesting = λ i. refl;
  mask = λ i. refl;
  saved = λ h. refl;
}
run_sections-IsRestored core (section inner rest) s v fits =
    let one_more : s.nesting core + 1 < 2 ^ 32 = ground arith in
    let (settled, deeper) = enter-IsSettled core s v one_more in
    let within =
      run_sections-IsRestored core inner (critical_enter core s) settled (ground (arith, deeper)) in
    let t = run_sections core inner (critical_enter core s) in
    let back = exit-IsRestored core s t v one_more within in
    let after =
      run_sections-IsRestored core rest (critical_exit core t)
        (IsRestored-IsSettled core s (critical_exit core t) back v)
        (ground (arith, back.nesting core)) in
    IsRestored-trans core s (critical_exit core t) _ back after
