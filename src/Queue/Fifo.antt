-- ===== src/Queue/Fifo.antt =====
-- The ring buffer of core/os_queue.c is a bounded first-in first-out queue of items.
use mathlib.Core.Path.{ap₂}
use native.Mathlib.Nat.{mod-lt, mod-add-mod, mod-eq_of_lt, mod-eq-sub-mod}
use ahura_kernel.Prelude.{
  ℕ, zero, suc, ◌+◌, ◌-◌, ◌*◌, ◌%◌, ◌≤◌, ◌<◌, ◌≢◌, ◌≡◌, sym, ap, ◌∙◌, inl, inr, ltb, Bool-cases,
  List, [], ◌∷◌, ◌++◌, length, arith,
}
use ahura_kernel.Queue.{Queue, push, pop}
use ahura_kernel.Queue.Bytes.{Memory, copy_in, copy_out, copy_out-copy_in, copy_out-other}

-- The indices of the ring agree with the number of items.
pub record IsRing (q : Queue) : Type 0 where
  pub head_small : q.head < q.capacity
  pub count_small : q.count ≤ q.capacity
  pub tail_of : q.tail ≡ (q.head + q.count) % q.capacity

-- The `n` items of `size` bytes from slot `i` on, around the end of a buffer of `c` slots.
unfoldable pub items : Memory → ℕ → ℕ → ℕ → ℕ → List (List ℕ)
items m size c zero i = []
items m size c (suc n) i = copy_out (i * size) size m ∷ items m size c n ((i + 1) % c)

-- What the queue holds, the oldest item first.
unfoldable pub contents : Queue → List (List ℕ)
unfolding items
contents q = items q.buffer q.item_size q.capacity q.count q.head

-- Index arithmetic on a ring of `c` slots.
wrap_step : (i d c : ℕ) → ((i + 1) % c + d) % c ≡ (i + suc d) % c
wrap_step i d c = mod-add-mod (i + 1) c d ∙ ap (λ (n : ℕ). n % c) (omega arith)

wrap_ne : (i d c : ℕ) → i < c → 0 < d → d < c → i ≢ (i + d) % c
wrap_ne i d c h p q e = elim (Bool-cases (ltb (i + d) c)) [
  | inl s ↦ absurd (ground (arith, wrapped_low (ground arith)))
  | inr s ↦ absurd (ground (arith, wrapped_high (ground arith) (ground arith)))
]
  where
    wrapped_low : i + d < c → (i + d) % c ≡ i + d
    wrapped_low = mod-eq_of_lt

    wrapped_high : c ≤ i + d → i + d - c < c → (i + d) % c ≡ i + d - c
    wrapped_high a b = mod-eq-sub-mod a ∙ mod-eq_of_lt b

-- An item written behind the last one is the new last one.
items-copy_in :
    (m : Memory) (size c : ℕ) (item : List ℕ) (n i t : ℕ)
    → length item ≡ size
    → i < c
    → n < c
    → t ≡ (i + n) % c
    → items (copy_in (t * size) item m) size c (suc n) i ≡ items m size c n i ++ item ∷ []
unfolding items
items-copy_in m size c item zero i t len h k e =
    let here : t ≡ i = e ∙ ap (λ (x : ℕ). x % c) (omega arith) ∙ mod-eq_of_lt h in
    ap (λ (xs : List ℕ). xs ∷ [])
      (ap (λ (x : ℕ). copy_out (x * size) size (copy_in (t * size) item m)) (sym here)
        ∙ ap (λ (x : ℕ). copy_out (t * size) x (copy_in (t * size) item m)) (sym len)
        ∙ copy_out-copy_in (t * size) item m)
items-copy_in m size c item (suc n) i t len h k e =
    ap₂ (λ (x : List ℕ) (xs : List (List ℕ)). x ∷ xs)
      (copy_out-other size i t item m len
        (λ same. wrap_ne i (suc n) c h (omega arith) k (same ∙ e)))
      (items-copy_in m size c item n ((i + 1) % c) t len (mod-lt (i + 1) (omega arith))
        (omega arith) (e ∙ sym (wrap_step i n c)))

-- os_queue_send with room appends the item at the end.
pub push-contents :
    (q : Queue) (item : List ℕ)
    → IsRing q
    → length item ≡ q.item_size
    → q.count < q.capacity
    → contents (push item q) ≡ contents q ++ item ∷ []
unfolding contents push
push-contents q item ring len room =
    ap
      (λ (n : ℕ).
        items (copy_in (q.tail * q.item_size) item q.buffer) q.item_size q.capacity n q.head)
      one_more
    ∙ items-copy_in q.buffer q.item_size q.capacity item q.count q.head q.tail len ring.head_small
        room ring.tail_of
  where
    one_more : q.count + 1 ≡ suc q.count
    one_more = omega arith

pub push-IsRing :
    (q : Queue) (item : List ℕ) → IsRing q → q.count < q.capacity → IsRing (push item q)
unfolding push
push-IsRing q item ring room = record {
  head_small = ring.head_small;
  count_small = omega arith;
  tail_of =
      ap (λ (t : ℕ). (t + 1) % q.capacity) ring.tail_of
      ∙ mod-add-mod (q.head + q.count) q.capacity 1
      ∙ ap (λ (n : ℕ). n % q.capacity) (omega arith);
}

-- os_queue_receive takes the oldest item off.
pub pop-contents : (q : Queue) → 0 < q.count → contents q ≡ (pop q).0 ∷ contents (pop q).1
unfolding contents pop items
pop-contents q some_item = ap (λ (n : ℕ). items q.buffer q.item_size q.capacity n q.head) one_more
  where
    one_more : q.count ≡ suc (q.count - 1)
    one_more = omega arith

pub pop-IsRing : (q : Queue) → IsRing q → 0 < q.count → IsRing (pop q).1
unfolding pop
pop-IsRing q ring some_item = record {
  head_small = mod-lt (q.head + 1) (omega (arith, ring.head_small));
  count_small = omega (arith, ring.count_small);
  tail_of =
      ring.tail_of
      ∙ sym (
          wrap_step q.head (q.count - 1) q.capacity
          ∙ ap (λ (n : ℕ). (q.head + n) % q.capacity) (omega arith));
}
