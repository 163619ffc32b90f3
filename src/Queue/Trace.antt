-- ===== src/Queue/Trace.antt =====
-- Every run of sends and receives on a queue, whoever calls them and however the calls end.
use ahura_kernel.Prelude.{
  ℕ, ◌≡◌, refl, sym, ap, ◌∙◌, false, Bool, ltb, ltb→lt, if_cases, if◌then◌else◌, ◌==◌, Option, none,
  some, List, [], ◌∷◌, ◌++◌, length,
}
use ahura_kernel.Task.State.{Kernel, full, timeout}
use ahura_kernel.Sync.{Turn, returns, blocks, Budget, done_ok, must_not_wait}
use ahura_kernel.Queue.{Queue, send_round, receive_round}
use ahura_kernel.Queue.Fifo.{IsRing, contents, push-contents, push-IsRing, pop-contents, pop-IsRing}

-- The item that a round of os_queue_send has put in, and the one that a round of
-- os_queue_receive has taken out.
abbrev pub put : List ℕ → Turn × Queue × Kernel → List (List ℕ)
put item r = if done_ok r.0 then item ∷ [] else []

abbrev pub got : Queue → Turn × Option (List ℕ) × Queue × Kernel → List (List ℕ)
got q r = elim (r.1) [ none ↦ [] | some item ↦ item ∷ [] ]

-- `Trace q ins outs q'`: rounds of sends and receives lead from `q` to `q'`, put the items `ins`
-- in and take `outs` out.
pub data Trace (q : Queue) : List (List ℕ) → List (List ℕ) → Queue → Type 0 where
  stop : Trace q [] [] q
  sent :
      (ins outs : List (List ℕ)) (q' : Queue) (item : List ℕ) (b : Budget) (k : Kernel)
      → Trace q ins outs q'
      → length item ≡ q'.item_size
      → Trace q (ins ++ put item (send_round item b q' k)) outs (send_round item b q' k).1
  received :
      (ins outs : List (List ℕ)) (q' : Queue) (b : Budget) (k : Kernel)
      → Trace q ins outs q'
      → Trace q ins (outs ++ got q' (receive_round b q' k)) (receive_round b q' k).2

-- What one round of os_queue_send does to the items.
record Sent (q : Queue) (item : List ℕ) (r : Turn × Queue × Kernel) : Type 0 where
  ring : IsRing r.1
  held : contents r.1 ≡ contents q ++ put item r

record Received (q : Queue) (r : Turn × Option (List ℕ) × Queue × Kernel) : Type 0 where
  ring : IsRing r.2
  held : contents q ≡ got q r ++ contents r.2

append_none : (xs : List (List ℕ)) → xs ≡ xs ++ []
append_none [] = refl
append_none (x ∷ xs) = ap (λ (ys : List (List ℕ)). x ∷ ys) (append_none xs)

append_assoc : (xs ys zs : List (List ℕ)) → (xs ++ ys) ++ zs ≡ xs ++ (ys ++ zs)
append_assoc [] ys zs = refl
append_assoc (x ∷ xs) ys zs = ap (λ (us : List (List ℕ)). x ∷ us) (append_assoc xs ys zs)

module _ (q : Queue) (ring : IsRing q) (b : Budget) (k : Kernel) where
  send-Sent : (item : List ℕ) → length item ≡ q.item_size → Sent q item (send_round item b q k)
  unfolding send_round
  send-Sent item len =
      if_cases (Sent q item) (ltb q.count q.capacity)
        (λ room. record {
          ring = push-IsRing q item ring (ltb→lt q.count q.capacity room);
          held = push-contents q item ring len (ltb→lt q.count q.capacity room);
        })
        (λ _.
          if_cases (Sent q item) (must_not_wait b k) (λ _. refused (returns full) refl _)
            (λ _.
              if_cases (Sent q item) (b.remaining_ticks == 0)
                (λ _. refused (returns timeout) refl _) (λ _. refused blocks refl _)))
    where
      refused : (t : Turn) → done_ok t ≡ false → (k' : Kernel) → Sent q item (t, q, k')
      refused t e k' = record {
        ring = ring;
        held =
            append_none (contents q)
            ∙ ap (λ (d : Bool). contents q ++ (if d then item ∷ [] else [])) (sym e);
      }

  receive-Received : Received q (receive_round b q k)
  unfolding receive_round
  receive-Received =
      if_cases (Received q) (ltb 0 q.count)
        (λ some_item. record {
          ring = pop-IsRing q ring (ltb→lt 0 q.count some_item);
          held = pop-contents q (ltb→lt 0 q.count some_item);
        })
        (λ _.
          if_cases (Received q) (must_not_wait b k) (λ _. nothing _ _)
            (λ _.
              if_cases (Received q) (b.remaining_ticks == 0) (λ _. nothing _ _) (λ _. nothing _ _)))
    where
      nothing : (t : Turn) (k' : Kernel) → Received q (t, none, q, k')
      nothing t k' = record { ring = ring; held = refl }

-- The items leave the queue in the order in which they entered it, and none is lost or doubled:
-- what the queue held and what was put in since is what was taken out and what it holds now.
pub Trace-fifo :
    (q : Queue) (ins outs : List (List ℕ)) (q' : Queue)
    → IsRing q
    → Trace q ins outs q'
    → IsRing q' × (contents q ++ ins ≡ outs ++ contents q')
Trace-fifo q _ _ _ ring stop = (ring, sym (append_none (contents q)))
Trace-fifo q _ _ _ ring (sent ins outs q' item b k trace len) =
    let (ring', e) = Trace-fifo q ins outs q' ring trace in
    let s = send-Sent q' ring' b k item len in
    let r = send_round item b q' k in
    (
      s.ring,
      sym (append_assoc (contents q) ins (put item r))
          ∙ ap (λ (xs : List (List ℕ)). xs ++ put item r) e
          ∙ append_assoc outs (contents q') (put item r)
          ∙ ap (λ (xs : List (List ℕ)). outs ++ xs) (sym s.held),
    )
Trace-fifo q _ _ _ ring (received ins outs q' b k trace) =
    let (ring', e) = Trace-fifo q ins outs q' ring trace in
    let s = receive-Received q' ring' b k in
    let r = receive_round b q' k in
    (
      s.ring,
      e
          ∙ ap (λ (xs : List (List ℕ)). outs ++ xs) s.held
          ∙ sym (append_assoc outs (got q' r) (contents r.2)),
    )
