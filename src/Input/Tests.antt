-- ===== src/Input/Tests.antt =====
-- Runs of the input code (src/input), and its theorems at concrete inputs.
use passinglink.Common.{
  leb, ℕ, ◌≤◌, Bool, true, false, some, List, [], ◌∷◌, ◌≡◌, refl, arith, length, ◌==◌,
}
use passinglink.Socd.{SocdType}
use passinglink.Input.Types.{
  Gpio, stick_left, button_south, button_w, button_home, RawInputState, OutputMode, Button,
  TouchpadXy, Board, Input, InputState, index,
}
use passinglink.Input.Profile.{
  default_profile, button_mapping, socd_x, socd_y, socd_axes, active_profile,
}
use passinglink.Input.Compose.{raw_bytes, get_bit, mapped_button, write_output}
use passinglink.Input.Parse.{input_debounce, input_parse, neutral_output}
use passinglink.Input.Debounce.{change_ticks, accepted, Spaced, change_ticks-Spaced}
use passinglink.Input.Bits.{get_bit-index}
use passinglink.Input.Output.{mapped_button-physical, moved, resting, write_output-moved}
use passinglink.Input.Room.{socd_buf-fits}
use passinglink.Input.Taken.{ShownBy}
use passinglink.Input.Shown.{input_parse-Shown}

abbrev board : Board
board = record {
  available = λ _. true;
  has_display = true;
  is_microdash = false;
  reads_mode_lock = false;
  transition_time = 50;
  menu_hold_time = 20000;
}

abbrev untouched : TouchpadXy
untouched = record { counter = 0; unpressed = 1; data_0 = 0; data_1 = 0; data_2 = 0 }

abbrev start : Input
start = record {
  button_history = λ _. record { state = false; tick = 0 };
  output_mode = OutputMode.dpad;
  input_locked = false;
  input_lock_tick = 0;
  active_profile_idx = 0;
  socd_type_x = SocdType.neutral;
  socd_type_y = SocdType.negative;
  menu_opened = false;
  touchpad_data = record { p1 = untouched; p2 = untouched };
  effects = [];
}

-- Only the button of the index is down.
abbrev only : Gpio → RawInputState
only g h = index g == index h

abbrev holding : Gpio → Input
holding g = record start { button_history = λ h. record { state = only g h; tick = 0 } }

abbrev bouncing : List (Bool × ℕ)
bouncing = (true, 60) ∷ (false, 70) ∷ (true, 90) ∷ (false, 120) ∷ []

bounces : change_ticks 50 false (record { state = false; tick = 0 }) bouncing ≡ 60 ∷ 120 ∷ []
unfolding change_ticks input_debounce
bounces = refl

change_ticks-Spaced_example :
    let changes = change_ticks 50 false (record { state = false; tick = 0 }) bouncing in
    (changes ≡ accepted 50 0 false bouncing) × Spaced 50 0 changes
change_ticks-Spaced_example =
    change_ticks-Spaced 50 (record { state = false; tick = 0 }) bouncing (omega arith)

get_bit-index_example : get_bit (raw_bytes (only button_home)) 16 ≡ true
get_bit-index_example = get_bit-index (only button_home) button_home

mapped_button-physical_example :
    mapped_button (button_mapping board default_profile) (only button_south) Button.south ≡ true
mapped_button-physical_example =
    mapped_button-physical board default_profile (only button_south) Button.south

abbrev on_stick : Input
on_stick = record start { output_mode = OutputMode.right_stick }

write_output-moved_example :
    let out = neutral_output start.touchpad_data in
    let stick = socd_axes board default_profile (only stick_left) on_stick in
    let shown = write_output board default_profile stick (only stick_left) on_stick out in
    (moved OutputMode.right_stick shown ≡ (stick.x.value, stick.y.value))
    × (resting OutputMode.right_stick shown ≡ resting OutputMode.right_stick out)
write_output-moved_example =
    write_output-moved board default_profile (only stick_left) on_stick
      (neutral_output start.touchpad_data)

abbrev plain_board : Board
plain_board = record board { has_display = false }

socd_buf-fits_example :
    (length (socd_x plain_board default_profile (only button_w) start.button_history) ≤ 2)
    × (leb (length (socd_y plain_board default_profile (only button_w) start.button_history)) 2
        ≡ false)
socd_buf-fits_example =
    socd_buf-fits plain_board default_profile (only button_w) start (unfold active_profile in refl)

input_parse-Shown_example :
    (r : Input × InputState) × (input_parse board (only button_south) 90 start ≡ some r)
    × ShownBy board default_profile (only button_south) 90 start r.1
input_parse-Shown_example =
    input_parse-Shown board (only button_south) 90 start default_profile
      (unfold active_profile in refl)
