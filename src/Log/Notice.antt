-- ===== src/Log/Notice.antt =====
-- The notice of lost log lines fits: its own buffer, and an empty ring.
use ahura_kernel.Prelude.{
  ℕ, zero, suc, ◌+◌, ◌-◌, ◌/◌, ◌≤◌, ◌<◌, ◌≡◌, refl, ap, ◌∙◌, false, ltb, List, [], ◌∷◌, ◌++◌,
  length, length-append, update, arith,
}
use mathlib.Core.Path.{ap₂}
use ahura_kernel.Task.State.{Kernel}
use ahura_kernel.Log.{
  Log, codes, free_space, queue, append_text, digits, append_number, append_u32, emit_dropped,
}
use ahura_kernel.Log.Digits.{
  written, spaces, printed, append_number-copy_in, length-written, length-spaces,
}
use ahura_kernel.Log.Ring.{dist, IsRing, contents, length-read, free_space-contents, put-contents}
use ahura_kernel.Log.Drain.{length-copy_out}
use ahura_kernel.Queue.Bytes.{Memory, copy_out}

length-digits : (n value : ℕ) → length (digits n value) ≤ n
unfolding digits
length-digits zero value = omega arith
length-digits (suc n) value = ground (arith, length-digits n (value / 10))

append_text-end : (text : List ℕ) (at : Memory × ℕ) → (append_text text at).1 ≡ at.1 + length text
unfolding append_text
append_text-end [] (dst, offset) = omega arith
append_text-end (c ∷ text) (dst, offset) =
    append_text-end text (update dst offset c, offset + 1) ∙ omega arith

number-end :
    (ds : List ℕ) (width : ℕ) (dst : Memory) (offset : ℕ)
    → length ds ≤ 10
    → width ≤ 10
    → (append_number ds width (dst, offset)).1 ≤ offset + 10
number-end ds width dst offset short narrow =
    let size : length (printed ds width) ≡ width - length ds + length ds =
      length-append (spaces (width - length ds)) (written ds)
      ∙ ap₂ (λ (a : ℕ) (b : ℕ). a + b) (length-spaces (width - length ds)) (length-written ds) in
    omega (arith, ap (λ (r : Memory × ℕ). r.1) (append_number-copy_in ds width dst offset), size)

append_u32-end :
    (value width : ℕ) (at : Memory × ℕ) → width ≤ 10 → (append_u32 value width at).1 ≤ at.1 + 10
unfolding append_u32
append_u32-end value width (dst, offset) narrow =
    number-end (digits 10 value) width dst offset (length-digits 10 value) narrow

-- The length that os_log_emit_dropped hands to os_log_queue.
abbrev notice_end : (dropped tick : ℕ) → Memory → ℕ
notice_end dropped tick line =
    let a = append_u32 tick 8 (append_text (codes "[") (line, 0)) in
    let b = append_u32 dropped 0 (append_text (codes "] W *** ") a) in
    (append_text (codes " log lines dropped ***" ++ 13 ∷ 10 ∷ []) b).1

notice_bounds :
    (dropped tick : ℕ) (line : Memory)
    → (24 ≤ notice_end dropped tick line) × (notice_end dropped tick line ≤ 53)
notice_bounds dropped tick line =
    let first : Memory × ℕ = append_text (codes "[") (line, 0) in
    let a : Memory × ℕ = append_u32 tick 8 first in
    let middle : Memory × ℕ = append_text (codes "] W *** ") a in
    let b : Memory × ℕ = append_u32 dropped 0 middle in
    omega (
      arith,
      append_text-end (codes "[") (line, 0),
      append_u32-end tick 8 first (omega arith),
      append_text-end (codes "] W *** ") a,
      append_u32-end dropped 0 middle (omega arith),
      append_text-end (codes " log lines dropped ***" ++ 13 ∷ 10 ∷ []) b,
    )

queue-fits :
    (line : List ℕ) (g : Log) (k : Kernel)
    → IsRing g
    → length line ≤ free_space g
    → (contents (queue line g k).0 ≡ contents g ++ line) × ((queue line g k).0.dropped ≡ g.dropped)
unfolding queue
queue-fits line g k ring fits =
    let room : ltb (free_space g) (length line) ≡ false = ground arith in
    rw room (put-contents line g ring fits, refl)

queue-empty :
    (n : ℕ) (dst : Memory) (g : Log) (k : Kernel)
    → IsRing g
    → n ≤ 53
    → 64 ≤ g.size
    → g.head ≡ g.tail
    → 0 < n
    → (length (contents (queue (copy_out 0 n dst) g k).0) ≤ 53)
      × (0 < length (contents (queue (copy_out 0 n dst) g k).0))
      × ((queue (copy_out 0 n dst) g k).0.dropped ≡ g.dropped)
queue-empty n dst g k ring small big empty some =
    let size = length-copy_out 0 n dst in
    let nothing : length (contents g) ≡ 0 =
      length-read g.size (dist g.size g.tail g.head) g.tail g.buffer ∙ ground arith in
    let room = free_space-contents g ring in
    let (all, kept) = queue-fits (copy_out 0 n dst) g k ring (omega arith) in
    let total = length-append (contents g) (copy_out 0 n dst) in
    rw all (omega (arith, total), omega (arith, total), kept)

-- The notice of lost lines ends within 53 of the 64 bytes of its buffer, whatever the numbers, and
-- os_log_queue puts it whole into a ring that is empty and has the 64 bytes that the configuration
-- asks for: the notice itself is never dropped.
pub emit_dropped-fits :
    (dropped tick : ℕ) (line : Memory) (g : Log) (k : Kernel)
    → IsRing g
    → 64 ≤ g.size
    → g.head ≡ g.tail
    → (length (contents (emit_dropped dropped tick line g k).0) ≤ 53)
      × (0 < length (contents (emit_dropped dropped tick line g k).0))
      × ((emit_dropped dropped tick line g k).0.dropped ≡ g.dropped)
unfolding emit_dropped
emit_dropped-fits dropped tick line g k ring big empty =
    let (low, high) = notice_bounds dropped tick line in
    queue-empty (notice_end dropped tick line) _ g k ring (omega arith) (omega arith) empty
      (omega arith)
