-- ===== src/Bt/Tests.antt =====
-- An input that is written by Bluetooth.
use passinglink.Common.{ℕ, true, false, none, some, List, [], ◌∷◌, ◌≡◌, refl, replicate}
use passinglink.Input.Types.{stick_down, RawInputState, Board}
use passinglink.Input.Compose.{get_bit}
use passinglink.Input.Queue.{Queue}
use passinglink.Input.Pins.{external, input_get_raw_state}
use passinglink.Bt.{sent, took, AttrRead, bt_input_read, bt_input_write}
use passinglink.Bt.Written.{bt_input_read-bt_input_write}

abbrev board : Board
board = record {
  available = λ _. true;
  has_display = false;
  is_microdash = false;
  reads_mode_lock = false;
  transition_time = 50;
  menu_hold_time = 20000;
}

abbrev nothing_held : RawInputState
nothing_held g = false

abbrev idle : Queue
idle = record {
  storage_last_avail = 0;
  storage_bitmap = replicate 128 0;
  storage = λ _. record { state = nothing_held; delay = 0; next = none };
  input = nothing_held;
  queue_next = none;
  next_free_head = none;
  next_tick = 0;
}

-- The whole value, as for a read at the offset 0 into a buffer with room.
abbrev whole : AttrRead
whole value len offset = sent value

-- The second bit is that of `stick_down`.
abbrev down_bytes : List ℕ
down_bytes = 2 ∷ 0 ∷ 0 ∷ 0 ∷ []

bt_input_read-bt_input_write_example :
    let w = bt_input_write down_bytes 0 (external nothing_held) in
    (raw : RawInputState) × (sent_bytes : List ℕ) × (w.0 ≡ took 4)
    × (input_get_raw_state board 90 w.1 idle nothing_held ≡ some (raw, idle))
    × (bt_input_read whole board 90 w.1 idle nothing_held 64 0 ≡ some (sent sent_bytes, idle))
    × (raw stick_down ≡ true)
    × (get_bit sent_bytes 1 ≡ true)
unfolding get_bit
bt_input_read-bt_input_write_example =
    bt_input_read-bt_input_write whole board 90 64 0 down_bytes nothing_held nothing_held idle
      stick_down refl refl
