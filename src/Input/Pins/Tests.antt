-- ===== src/Input/Pins/Tests.antt =====
-- A board with two ports, read by the code of src/input/input.cpp.
use passinglink.Common.{
  ℕ, ◌%◌, true, false, none, some, [], ◌∷◌, ltb, ◌==◌, if◌then◌else◌, ◌≡◌, refl, arith, replicate,
}
use passinglink.Socd.{SocdType}
use passinglink.Input.Types.{
  Gpio, RawInputState, OutputMode, TouchpadXy, Board, Input, InputState, index,
}
use passinglink.Input.Profile.{default_profile, active_profile}
use passinglink.Input.Taken.{ShownBy}
use passinglink.Input.Queue.{Queue}
use passinglink.Input.Pins.{PinTree, Ports, input_gpio_init, pins, input_get_state}
use passinglink.Input.Pins.Slots.{has}
use passinglink.Input.Pins.Read.{pin_shows, input_get_state-ShownBy}

abbrev board : Board
board = record {
  available = λ _. true;
  has_display = true;
  is_microdash = false;
  reads_mode_lock = false;
  transition_time = 50;
  menu_hold_time = 20000;
}

-- The stick is on port 7, the buttons are on port 5.
abbrev port_of : Gpio → ℕ
port_of g = if ltb (index g) 4 then 7 else 5

-- Home, the pin 0 of port 5, is pulled low.
abbrev levels : ℕ → ℕ
levels d = if d == 7 then 0xffff else 0xfffe

abbrev tree : PinTree
tree = record {
  binding = λ g. some (port_of g);
  pin = λ g. index g % 16;
  active_low = λ _. true;
  configured = λ _. true;
  read = λ d. some (levels d);
}

abbrev untouched : TouchpadXy
untouched = record { counter = 0; unpressed = 1; data_0 = 0; data_1 = 0; data_2 = 0 }

abbrev start : Input
start = record {
  button_history = λ _. record { state = false; tick = 0 };
  output_mode = OutputMode.dpad;
  input_locked = false;
  input_lock_tick = 0;
  active_profile_idx = 0;
  socd_type_x = SocdType.neutral;
  socd_type_y = SocdType.negative;
  menu_opened = false;
  touchpad_data = record { p1 = untouched; p2 = untouched };
  effects = [];
}

abbrev nothing_held : RawInputState
nothing_held g = false

abbrev idle : Queue
idle = record {
  storage_last_avail = 0;
  storage_bitmap = replicate 128 0;
  storage = λ _. record { state = nothing_held; delay = 0; next = none };
  input = nothing_held;
  queue_next = none;
  next_free_head = none;
  next_tick = 0;
}

on_ports : (h : Gpio) → board.available h ≡ true → has (port_of h) (7 ∷ 5 ∷ []) ≡ true
on_ports h e = elim (ltb (index h) 4) as (λ b. has (if b then 7 else 5) (7 ∷ 5 ∷ []) ≡ true) [
  | true ↦ refl
  | false ↦ refl
]

input_get_state-ShownBy_example :
    (slots : Ports) × (raw : RawInputState) × (r : Input × InputState) × (input_gpio_init board tree
        (record { devices = []; gpio_indices = λ _. 0 })
      ≡ some slots)
    × (input_get_state board 90 91 (pins tree slots (λ _. 0)) idle nothing_held start
        ≡ some (r, idle))
    × ShownBy board default_profile raw 91 start r.1
    × ((g : Gpio) → raw g ≡ pin_shows tree port_of levels g)
input_get_state-ShownBy_example =
    input_get_state-ShownBy board tree port_of (7 ∷ 5 ∷ []) levels (λ _. 0) (λ _. 0) 90 91 idle
      nothing_held start default_profile (omega arith) (λ h e. refl) (λ h e. refl) on_ports
      (λ d. refl) refl (unfold active_profile in refl) refl
