-- ===== src/Tests/Lines.antt =====
-- The theorems on core/os_log.c at a ring of 64 bytes.
use ahura_kernel.Prelude.{◌-◌, ◌<◌, ◌≤◌, ◌≡◌, refl, none, [], ◌∷◌, length, arith}
use ahura_kernel.Log.{Log, append_u32, emit_dropped}
use ahura_kernel.Log.Ring.{IsRing, contents, read}
use ahura_kernel.Log.Drain.{advance-zero}
use ahura_kernel.Log.Flow.{Flow, flow, IsFlow, flow-IsFlow}
use ahura_kernel.Log.Flow
use ahura_kernel.Log.Digits.{parse, append_u32-parse}
use ahura_kernel.Log.Notice.{emit_dropped-fits}
use ahura_kernel.Queue.Bytes.{Memory, copy_out}
use ahura_kernel.Demo.{boot}

abbrev blank : Memory
blank = λ i. 0

abbrev ring : Log
ring = record { size = 64; buffer = blank; head = 60; tail = 60; dropped = 0; log_task = none }

ring-IsRing : IsRing ring
ring-IsRing = record { some_size = omega arith; head_in = omega arith; tail_in = omega arith }

abbrev idle : Flow
idle = record { log = ring; flight = 0; sent = []; accepted = [] }

idle-IsFlow : IsFlow idle
unfolding read
idle-IsFlow = record {
  ring = ring-IsRing;
  fits = omega arith;
  front = omega arith;
  all = advance-zero ring ring-IsRing;
}

flow-IsFlow_example : IsFlow (
    flow
      (Flow.line (65 ∷ 66 ∷ 67 ∷ 68 ∷ 69 ∷ [])
        ∷ Flow.fetch
        ∷ Flow.line (70 ∷ [])
        ∷ Flow.release
        ∷ [])
      boot
      idle)
flow-IsFlow_example =
    flow-IsFlow
      (Flow.line (65 ∷ 66 ∷ 67 ∷ 68 ∷ 69 ∷ [])
        ∷ Flow.fetch
        ∷ Flow.line (70 ∷ [])
        ∷ Flow.release
        ∷ [])
      boot idle idle-IsFlow

append_u32-parse_example :
    parse 0 (copy_out 1 ((append_u32 4207 8 (blank, 1)).1 - 1) (append_u32 4207 8 (blank, 1)).0)
    ≡ 4207
append_u32-parse_example = append_u32-parse 4207 8 blank 1 (omega arith)

emit_dropped-fits_example :
    (length (contents (emit_dropped 3 100 blank ring boot).0) ≤ 53)
    × (0 < length (contents (emit_dropped 3 100 blank ring boot).0))
    × ((emit_dropped 3 100 blank ring boot).0.dropped ≡ ring.dropped)
emit_dropped-fits_example = emit_dropped-fits 3 100 blank ring boot ring-IsRing (omega arith) refl
