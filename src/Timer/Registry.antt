-- ===== src/Timer/Registry.antt =====
-- The registry of the timers: a timer that counts has a slot, and no timer has two.
use ahura_kernel.Prelude.{
  ℕ, zero, suc, ◌+◌, ◌≤◌, ◌<◌, ◌≡◌, ◌⊎◌, refl, sym, ap, ◌∙◌, Bool, true, false, ◌||◌, ◌==◌,
  if_cases, Bool-cases, inl, inr, Option, none, some, is, update, arith,
}
use ahura_kernel.Task.State.{Status, ok, full}
use ahura_kernel.Timer.{
  Timer, Timers, set_timer, slot_from, slot_find, slot_release, acquire_from, slot_acquire, armed,
  arm, timer_pause, timer_stop, timer_delete,
}

pub record IsRegistry (s : Timers) : Type 0 where
  pub distinct :
      (i j t : ℕ)
      → i < s.max_timers
      → j < s.max_timers
      → is (s.registry i) t ≡ true
      → is (s.registry j) t ≡ true
      → i ≡ j
  pub counts :
      (t : ℕ)
      → (s.timer t).active ≡ true
      → (i : ℕ) × (i < s.max_timers) × (is (s.registry i) t ≡ true)

-- A slot that was looked for and found
pub record Slot (s : Timers) (t i n j : ℕ) : Type 0 where
  pub from : i ≤ j
  pub below : j < i + n
  pub holds : is (s.registry j) t ≡ true

pub slot_from-Slot : (n i t : ℕ) (s : Timers) (j : ℕ) → slot_from n i t s ≡ some j → Slot s t i n j
unfolding slot_from
slot_from-Slot zero i t s j e = absurd (cc e)
slot_from-Slot (suc n) i t s j e = elim (Bool-cases (is (s.registry i) t)) [
  | inl h ↦
      let same : i ≡ j = ground (arith, e) in
      record { from = omega arith; below = omega arith; holds = ground arith }
  | inr h ↦
      let rest : Slot s t (i + 1) n j = slot_from-Slot n (i + 1) t s j (ground (arith, e)) in
      record {
        from = omega (arith, rest.from);
        below = omega (arith, rest.below);
        holds = rest.holds;
      }
]

pub slot_from-none :
    (n i t : ℕ) (s : Timers)
    → slot_from n i t s ≡ none
    → (j : ℕ) → i ≤ j
    → j < i + n
    → is (s.registry j) t ≡ false
unfolding slot_from
slot_from-none zero i t s e j a b = absurd (omega arith)
slot_from-none (suc n) i t s e j a b = elim (Bool-cases (is (s.registry i) t)) [
  | inl h ↦ absurd (ground (arith, e))
  | inr h ↦ elim (Bool-cases (i == j)) [
    | inl same ↦ ground (arith, h)
    | inr ne ↦ slot_from-none n (i + 1) t s (ground (arith, e)) j (ground arith) (omega arith)
  ]
]

module _ (s : Timers) (reg : IsRegistry s) (t : ℕ) where
  -- A slot may be emptied if its timer does not count.
  pub clear-IsRegistry :
      (slot : ℕ)
      → ((u : ℕ) → is (s.registry slot) u ≡ true → (s.timer u).active ≡ false)
      → IsRegistry (record s { registry = update s.registry slot none })
  clear-IsRegistry slot idle = record {
    distinct = λ i j u hi hj a b. reg.distinct i j u hi hj (ground arith) (ground arith);
    counts = λ u h. let (i, below, holds) = reg.counts u h in (i, below, ground (arith, idle u));
  }

  -- A timer may be written if it does not count afterwards, or has counted before.
  pub write-IsRegistry :
      (c : Timer) → (c.active ≡ true → (s.timer t).active ≡ true) → IsRegistry (set_timer s t c)
  write-IsRegistry c still = record {
    distinct = reg.distinct;
    counts = λ u h. reg.counts u (ground (arith, still));
  }

  -- os_timer_stop and its kin give the slot of an idle timer back.
  pub release-IsRegistry : (s.timer t).active ≡ false → IsRegistry (slot_release t s)
  unfolding slot_release slot_find
  release-IsRegistry idle = by_slot (slot_from s.max_timers 0 t s) refl
    where
      by_slot :
          (o : Option ℕ)
          → slot_from s.max_timers 0 t s ≡ o
          → IsRegistry (elim o [
            | none ↦ s
            | some slot ↦ record s { registry = update s.registry slot none }
          ])
      by_slot none e = reg
      by_slot (some slot) e =
          clear-IsRegistry slot
            (λ u h. ground (arith, (slot_from-Slot s.max_timers 0 t s slot e).holds, idle))

-- What os_timer_registry_slot_acquire finds: the timer's own slot, or an empty one if it has none.
record Acquired (s : Timers) (t m j : ℕ) : Type 0 where
  below : j < m
  empty_or_own : (u : ℕ) → is (s.registry j) u ≡ true → u ≡ t
  only_slot : (i : ℕ) → i < m → is (s.registry i) t ≡ true → (is (s.registry j) t ≡ true) ⊎ (i ≡ j)

-- The slots before `i` do not hold `t`, and the free slot seen first is one of them.
record Seen (s : Timers) (t i : ℕ) (free_slot : Option ℕ) : Type 0 where
  not_yet : (j : ℕ) → j < i → is (s.registry j) t ≡ false
  free : (j : ℕ) → free_slot ≡ some j → (j < i) × (s.registry j ≡ none)

-- The free slot after slot `i`, which holds `o`.
abbrev free_after : Option ℕ → ℕ → Option ℕ → Option ℕ
free_after o i free_slot = elim o [
  | some u ↦ free_slot
  | none ↦ elim free_slot [ none ↦ some i | some j ↦ some j ]
]

Seen-next :
    (s : Timers) (t i : ℕ) (free_slot o : Option ℕ)
    → s.registry i ≡ o
    → is o t ≡ false
    → Seen s t i free_slot
    → Seen s t (i + 1) (free_after o i free_slot)
Seen-next s t i free_slot o e h seen = record {
  not_yet = λ j below. not_here j below (Bool-cases (i == j));
  free = free_now o free_slot e seen.free;
}
  where
    not_here :
        (j : ℕ) → j < i + 1 → ((i == j) ≡ true) ⊎ ((i == j) ≡ false) → is (s.registry j) t ≡ false
    not_here j below (inl same) = ground (arith, e, h)
    not_here j below (inr ne) = seen.not_yet j (ground arith)

    free_now :
        (o f : Option ℕ)
        → s.registry i ≡ o
        → ((j : ℕ) → f ≡ some j → (j < i) × (s.registry j ≡ none))
        → (j : ℕ) → free_after o i f ≡ some j
        → (j < i + 1) × (s.registry j ≡ none)
    free_now (some u) f e before j h = let (below, empty) = before j h in (omega arith, empty)
    free_now none (some x) e before j h = let (below, empty) = before j h in (omega arith, empty)
    free_now none none e before j h =
        let same : i ≡ j = ground (arith, h) in (omega arith, ap s.registry (sym same) ∙ e)

acquire_from-Acquired :
    (n i m t : ℕ) (free_slot : Option ℕ) (s : Timers) (j : ℕ)
    → i + n ≡ m
    → Seen s t i free_slot
    → acquire_from n i free_slot t s ≡ some j
    → Acquired s t m j
unfolding acquire_from
acquire_from-Acquired zero i m t free_slot s j end seen e =
    let (before, empty) = seen.free j e in
    record {
      below = omega arith;
      empty_or_own = λ u h. absurd (ground (arith, empty));
      only_slot = λ x below h. absurd (ground (arith, seen.not_yet x (omega arith)));
    }
acquire_from-Acquired (suc n) i m t free_slot s j end seen e =
    elim (Bool-cases (is (s.registry i) t)) [
      | inl h ↦
          let same : i ≡ j = ground (arith, e) in
          record {
            below = omega arith;
            empty_or_own = λ u held. ground arith;
            only_slot = λ x below held. inl (ground arith);
          }
      | inr h ↦
          acquire_from-Acquired n (i + 1) m t (free_after (s.registry i) i free_slot) s j
            (omega arith) (Seen-next s t i free_slot (s.registry i) refl h seen) (ground (arith, e))
    ]

module _ (s : Timers) (reg : IsRegistry s) where
  -- A timer that takes its own slot, or an empty one if it has none, and counts.
  module _ (t slot : ℕ) (c : Timer) (got : Acquired s t s.max_timers slot) where
    alone : (i : ℕ) → i < s.max_timers → is (s.registry i) t ≡ true → i ≡ slot
    alone i h holds = elim (got.only_slot i h holds) [
      | inl own ↦ reg.distinct i slot t h got.below holds own
      | inr e ↦ e
    ]

    taken_distinct :
        (i j u : ℕ)
        → i < s.max_timers
        → j < s.max_timers
        → is (update s.registry slot (some t) i) u ≡ true
        → is (update s.registry slot (some t) j) u ≡ true
        → i ≡ j
    taken_distinct i j u hi hj a b = elim (Bool-cases (slot == i)) [
      | inl at_i ↦ elim (Bool-cases (slot == j)) [
        | inl at_j ↦ ground arith
        | inr not_j ↦ ground (arith, alone j hj)
      ]
      | inr not_i ↦ elim (Bool-cases (slot == j)) [
        | inl at_j ↦ ground (arith, alone i hi)
        | inr not_j ↦ reg.distinct i j u hi hj (ground arith) (ground arith)
      ]
    ]

    take_slot-IsRegistry :
        IsRegistry (set_timer (record s { registry = update s.registry slot (some t) }) t c)
    take_slot-IsRegistry = record {
      distinct = taken_distinct;
      counts = λ u h. elim (Bool-cases (t == u)) [
        | inl same ↦ (slot, got.below, ground arith)
        | inr other ↦
            let (i, below, holds) = reg.counts u (ground (arith, h)) in
            (i, below, ground (arith, got.empty_or_own u))
      ];
    }

  -- os_timer_start and os_timer_restart
  pub arm-IsRegistry : (t : ℕ) (reload : Bool) → IsRegistry (arm t reload s).1
  unfolding arm slot_acquire
  arm-IsRegistry t reload =
      if_cases (λ (r : Status × Timers). IsRegistry r.1)
        ((s.timer t).callback == 0 || (s.timer t).period_ticks == 0) (λ _. reg)
        (λ _. by_slot (acquire_from s.max_timers 0 none t s) refl)
    where
      by_slot :
          (o : Option ℕ)
          → acquire_from s.max_timers 0 none t s ≡ o
          → IsRegistry
              (elim o as (λ _. Status × Timers) [
                | none ↦ (full, s)
                | some slot ↦ (
                  ok,
                  set_timer
                      (record s { registry = update s.registry slot (some t) })
                      t
                      (armed reload (s.timer t)),
                )
              ]).1
      by_slot none e = reg
      by_slot (some slot) e = take_slot-IsRegistry t slot (armed reload (s.timer t)) (
          acquire_from-Acquired s.max_timers 0 s.max_timers t none s slot (omega arith)
            (record { not_yet = λ j h. absurd (omega arith); free = λ j h. absurd (cc h) }) e)

  pub pause-IsRegistry : (t : ℕ) → IsRegistry (timer_pause t s).1
  unfolding timer_pause
  pause-IsRegistry t =
      if_cases (λ (r : Status × Timers). IsRegistry r.1) (s.timer t).active
        (λ _.
          write-IsRegistry s reg t (record (s.timer t) { active = false; paused = true })
            (λ h. absurd (cc h)))
        (λ _. reg)

  pub stop-IsRegistry : (t : ℕ) → IsRegistry (timer_stop t s).1
  unfolding timer_stop
  stop-IsRegistry t =
      let c : Timer = record (s.timer t) { active = false; paused = false; expired = false } in
      release-IsRegistry (set_timer s t c) (write-IsRegistry s reg t c (λ h. absurd (cc h))) t
        (ground arith)

  pub delete-IsRegistry : (t : ℕ) → IsRegistry (timer_delete t s).1
  unfolding timer_delete
  delete-IsRegistry t =
      let c : Timer = record (s.timer t) {
        active = false;
        paused = false;
        expired = false;
        period_ticks = 0;
        remaining_ticks = 0;
        callback = 0;
        context = 0;
      } in
      release-IsRegistry (set_timer s t c) (write-IsRegistry s reg t c (λ h. absurd (cc h))) t
        (ground arith)
