-- ===== src/Tests/Cores.antt =====
-- The theorems on core/os_critical.c at concrete calls.
use ahura_kernel.Prelude.{ℕ, update, ◌≡◌, ◌≢◌, refl, true, arith}
use ahura_kernel.Critical.{mask_save, locks_init, enter_counted}
use ahura_kernel.Critical.Cores.{Cores, cores_init, Place, Step, Reach, is_inside}
use ahura_kernel.Critical.Exclusion.{Reach-excludes}
use ahura_kernel.Critical.Nested.{
  Sections, run_sections, depth, IsSettled, IsRestored, run_sections-IsRestored,
}

-- Core 1 has entered.
abbrev one_entered : Cores
one_entered = record {
  locks = enter_counted 1 0 (mask_save 1 locks_init).1;
  place = update (update cores_init.place 1 (Place.entering 0)) 1 Place.free;
}

one_entered-Reach : Reach one_entered
one_entered-Reach =
    Reach.later (Reach.later Reach.start (Step.raise 1 refl)) (Step.acquire 1 0 refl refl refl)

one_inside : is_inside one_entered 1 ≡ true
unfolding enter_counted
one_inside = refl

Reach-excludes_example :
    (◌≡◌ {A = ℕ} 1 1)
    × (one_entered.locks.locked ≡ true)
    × (one_entered.locks.nesting 1 ≢ 0 → one_entered.locks.mask 1 ≡ 1)
Reach-excludes_example = Reach-excludes one_entered-Reach 1 1 one_inside one_inside

abbrev nested : Sections
nested = Sections.section (Sections.section Sections.done Sections.done) Sections.done

init-IsSettled : IsSettled 0 locks_init
init-IsSettled = record {
  free = λ _. refl;
  held = λ h. absurd (h refl);
  masked = λ h. absurd (h refl);
  word = omega arith;
}

two_deep : depth nested ≡ 2
unfolding depth
two_deep = refl

run_sections-IsRestored_example : IsRestored 0 locks_init (run_sections 0 nested locks_init)
run_sections-IsRestored_example =
    run_sections-IsRestored 0 nested locks_init init-IsSettled (omega (arith, two_deep))
