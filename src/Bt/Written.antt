-- ===== src/Bt/Written.antt =====
-- src/bt/bt.cpp: an input that is written by Bluetooth is the input.
use passinglink.Common.{ℕ, none, some, List, length, ◌≡◌, refl}
use passinglink.Input.Types.{Gpio, index, RawInputState, Board}
use passinglink.Input.Compose.{raw_bytes, get_bit}
use passinglink.Input.Bits.{get_bit-index}
use passinglink.Input.Queue.{Queue}
use passinglink.Input.Pins.{external, source_state, input_set_raw_state, input_get_raw_state}
use passinglink.Input.Pins.Read.{not_queued}
use passinglink.Bt.{took, AttrRead, raw_of, bt_input_read, bt_input_write}

external_lem :
    (b : Board) (state : RawInputState) (now : ℕ) (q : Queue) (out : RawInputState)
    → q.queue_next ≡ none
    → input_get_raw_state b now (external state) q out ≡ some (state, q)
unfolding input_get_raw_state source_state
external_lem b state now q out idle = rw (input_get_raw_state, not_queued now q idle) refl

-- Four bytes that are written by Bluetooth at the offset 0 are taken by a board with an external input; while no
-- input is queued, the raw state has then for each pin the bit of its index, whatever it was before, and a read
-- sends bytes in which this bit is the one that was written.
pub bt_input_read-bt_input_write :
    (attr_read : AttrRead) (b : Board) (now len offset : ℕ) (bytes : List ℕ)
    (old out : RawInputState) (q : Queue) (g : Gpio)
    → length bytes ≡ 4
    → q.queue_next ≡ none
    → let w = bt_input_write bytes 0 (external old) in
      (raw : RawInputState) × (sent_bytes : List ℕ) × (w.0 ≡ took 4)
      × (input_get_raw_state b now w.1 q out ≡ some (raw, q))
      × (bt_input_read attr_read b now w.1 q out len offset
          ≡ some (attr_read sent_bytes len offset, q))
      × (raw g ≡ get_bit bytes (index g))
      × (get_bit sent_bytes (index g) ≡ get_bit bytes (index g))
unfolding bt_input_read bt_input_write input_set_raw_state
bt_input_read-bt_input_write attr_read b now len offset bytes old out q g four idle = rw four (
  raw_of bytes,
  raw_bytes (raw_of bytes),
  refl,
  external_lem b (raw_of bytes) now q out idle,
  rw (bt_input_read, external_lem b (raw_of bytes) now q out idle) refl,
  refl,
  get_bit-index (raw_of bytes) g,
)
