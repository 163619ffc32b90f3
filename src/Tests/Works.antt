-- ===== src/Tests/Works.antt =====
-- The theorems on core/os_work.c at a registry of two slots.
use ahura_kernel.Prelude.{◌==◌, if◌then◌else◌, ◌≡◌, ◌⊎◌, true, false, [], ◌∷◌}
use ahura_kernel.Task.State.{invalid_arg}
use ahura_kernel.Work.{Works, submit, ready_fetch}
use ahura_kernel.Work.Bag.{bag, accepts, Submitted, submit-Submitted}
use ahura_kernel.Work.Fetch.{Fetched, ready_fetch-Fetched}
use ahura_kernel.Demo.{boot}

abbrev pub works : Works
works = record {
  max_works = 2;
  payload_size = 16;
  tick_hz = 1000;
  entry = λ i. record {
    handler = if i == 0 then 500 else 0;
    delay_ticks = 0;
    len = 1;
    ready = i == 0;
    payload = λ j. 7;
  };
  work_task = 0;
}

submit-Submitted_example :
    ((accepts 501 (1 ∷ 2 ∷ []) false 10 works ≡ false)
      × (submit 501 (1 ∷ 2 ∷ []) false 10 works boot ≡ (invalid_arg, works, boot)))
    ⊎ ((accepts 501 (1 ∷ 2 ∷ []) false 10 works ≡ true)
        × Submitted 501 (1 ∷ 2 ∷ []) 10 works boot (submit 501 (1 ∷ 2 ∷ []) false 10 works boot))
submit-Submitted_example = submit-Submitted 501 (1 ∷ 2 ∷ []) false 10 works boot

ready_fetch-Fetched_example : Fetched (bag works) (ready_fetch works).0 (bag (ready_fetch works).1)
ready_fetch-Fetched_example = ready_fetch-Fetched works
