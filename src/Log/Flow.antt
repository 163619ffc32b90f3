-- ===== src/Log/Flow.antt =====
-- The lines that go into the log and what its output callback is given.
use ahura_kernel.Prelude.{
  ℕ, ◌+◌, ◌%◌, ◌^◌, ◌≤◌, ◌≡◌, sym, ap, ◌∙◌, ltb, ◌==◌, if◌then◌else◌, Bool-cases, ==→eq, ltb→le,
  inl, inr, List, [], ◌∷◌, ◌++◌, length, arith,
}
use mathlib.Core.List.{append_assoc}
use ahura_kernel.Task.State.{Kernel}
use ahura_kernel.Log.{Log, free_space, put, queue, chunk, advance}
use ahura_kernel.Log.Ring.{dist, contents, IsRing, put-dist, put-IsRing}
use ahura_kernel.Queue.Bytes.{copy_out}
use ahura_kernel.Log.Drain.{
  chunk_bounds, chunk-front, advance-zero, advance-IsRing, put-keeps_front,
}

-- The log task and the calls of os_log_write around it: what is with the callback, all that the
-- callback was given, and all lines that were not dropped.
pub record Flow : Type 0 where
  pub log : Log
  pub flight : ℕ
  pub sent : List ℕ
  pub accepted : List ℕ

-- A line is queued, the task hands a chunk to the callback, or the callback has returned.
pub data Event : Type 0 where
  line : List ℕ → Event
  fetch release : Event

unfoldable pub happen : Event → Kernel → Flow → Flow
happen (line bytes) k f = record f {
  log = (queue bytes f.log k).0;
  accepted = if ltb (free_space f.log) (length bytes) then f.accepted else f.accepted ++ bytes;
}
happen fetch k f =
    let (offset, n) = chunk f.log in
    if f.flight == 0
    then record f { flight = n; sent = f.sent ++ copy_out offset n f.log.buffer }
    else f
happen release k f = record f { log = advance f.flight f.log; flight = 0 }

unfoldable pub flow : List Event → Kernel → Flow → Flow
unfolding happen
flow [] k f = f
flow (e ∷ es) k f = flow es k (happen e k f)

pub record IsFlow (f : Flow) : Type 0 where
  pub ring : IsRing f.log
  pub fits : f.log.tail + f.flight ≤ f.log.size
  pub front : f.flight ≤ dist f.log.size f.log.tail f.log.head
  pub all : f.sent ++ contents (advance f.flight f.log) ≡ f.accepted

line-IsFlow : (bytes : List ℕ) (k : Kernel) (f : Flow) → IsFlow f → IsFlow (happen (line bytes) k f)
unfolding happen queue put advance
line-IsFlow bytes k f v = elim (Bool-cases (ltb (free_space f.log) (length bytes))) [
  | inl full ↦ rw full (record { ring = same_ring; fits = v.fits; front = v.front; all = v.all })
  | inr fits ↦
      let room : length bytes ≤ free_space f.log = ltb→le _ _ fits in
      let kept = put-keeps_front bytes f.flight f.log v.ring v.fits v.front room in
      rw fits (record {
        ring = put-IsRing bytes f.log v.ring;
        fits = v.fits;
        front = omega (arith, (put-dist bytes f.log v.ring room).1, v.front);
        all =
            ap (λ (xs : List ℕ). f.sent ++ xs) kept.1
            ∙ sym (append_assoc f.sent (contents (advance f.flight f.log)) bytes)
            ∙ ap (λ (xs : List ℕ). xs ++ bytes) v.all;
      })
]
  where
    same_ring : IsRing (record (f.log) { dropped = (f.log.dropped + 1) % 2 ^ 32 })
    same_ring = record {
      some_size = v.ring.some_size;
      head_in = v.ring.head_in;
      tail_in = v.ring.tail_in;
    }

fetch-IsFlow : (k : Kernel) (f : Flow) → IsFlow f → IsFlow (happen fetch k f)
unfolding happen
fetch-IsFlow k f v = elim (Bool-cases (f.flight == 0)) [
  | inl free ↦
      let none_out : f.flight ≡ 0 = ==→eq f.flight 0 free in
      let same : contents (advance f.flight f.log) ≡ contents f.log =
        ap (λ (n : ℕ). contents (advance n f.log)) none_out ∙ advance-zero f.log v.ring in
      rw free (record {
        ring = v.ring;
        fits = (chunk_bounds f.log v.ring).0;
        front = (chunk_bounds f.log v.ring).1;
        all =
            append_assoc f.sent (copy_out (chunk f.log).0 (chunk f.log).1 f.log.buffer)
              (contents (advance (chunk f.log).1 f.log))
            ∙ ap (λ (xs : List ℕ). f.sent ++ xs) (sym (chunk-front f.log v.ring) ∙ sym same)
            ∙ v.all;
      })
  | inr busy ↦ rw busy v
]

release-IsFlow : (k : Kernel) (f : Flow) → IsFlow f → IsFlow (happen release k f)
unfolding happen
release-IsFlow k f v =
    let ring = advance-IsRing f.flight f.log v.ring in
    record {
      ring = ring;
      fits = omega (arith, ring.tail_in);
      front = omega arith;
      all = ap (λ (xs : List ℕ). f.sent ++ xs) (advance-zero (advance f.flight f.log) ring) ∙ v.all;
    }

-- However lines come in while the log task reads, from a state where it holds on: what the output
-- callback was given, followed by what is still to come, is all bytes of the lines that were not
-- dropped, in order; a line is dropped whole.
pub flow-IsFlow : (es : List Event) (k : Kernel) (f : Flow) → IsFlow f → IsFlow (flow es k f)
unfolding flow
flow-IsFlow [] k f v = v
flow-IsFlow (line bytes ∷ es) k f v = flow-IsFlow es k _ (line-IsFlow bytes k f v)
flow-IsFlow (fetch ∷ es) k f v = flow-IsFlow es k _ (fetch-IsFlow k f v)
flow-IsFlow (release ∷ es) k f v = flow-IsFlow es k _ (release-IsFlow k f v)
