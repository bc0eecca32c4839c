-- ===== src/Input/Parse.antt =====
-- src/input/input.cpp: debouncing, the mode switch, and `input_parse`.
use passinglink.Common.{
  ℕ, Bool, true, false, not, ◌&&◌, ◌||◌, Option, none, some, ltb, if◌then◌else◌,
}
use passinglink.Input.Types.{
  Gpio, mode_lock, mode_ls, mode_rs, mode_dpad, RawInputState, ButtonRecord, StickState, OutputMode,
  InputState, TouchpadData, Board, Input,
}
use passinglink.Input.Lock.{input_set_locked}
use passinglink.Input.MenuButton.{sub64}
use passinglink.Input.Profile.{active_profile}
use passinglink.Input.Compose.{input_profile_parse}

abbrev pub same_bool : Bool → Bool → Bool
same_bool true b = b
same_bool false b = not b

-- The value to use, and the new record of the button.
unfoldable pub input_debounce : ℕ → Bool → ButtonRecord → ℕ → Bool × ButtonRecord
input_debounce transition_time current h tick =
    if same_bool current h.state
    then (current, h)
    else if ltb (sub64 tick h.tick) transition_time
    then (not current, h)
    else (current, record { state = current; tick = tick })

-- The macro debounces each available entry on its own record.
abbrev pub debounce_entry : Board → RawInputState → ℕ → Input → Gpio → Bool × ButtonRecord
debounce_entry b raw tick s g =
    if b.available g
    then input_debounce b.transition_time (raw g) (s.button_history g) tick
    else (raw g, s.button_history g)

-- The switches in the order of `PL_GPIO_OUTPUT_MODES`; `have_mode` is set by each available one that is off.
unfoldable pub input_parse_mode : Board → RawInputState → Input → Input
input_parse_mode b raw s =
    if b.available mode_ls && raw mode_ls
    then record s { output_mode = OutputMode.left_stick }
    else if b.available mode_rs && raw mode_rs
    then record s { output_mode = OutputMode.right_stick }
    else if b.available mode_dpad && raw mode_dpad
    then record s { output_mode = OutputMode.dpad }
    else if b.available mode_ls || b.available mode_rs || b.available mode_dpad
    then record s { output_mode = OutputMode.dpad }
    else s

abbrev pub neutral_output : TouchpadData → InputState
neutral_output touch = record {
  left_stick_x = 128;
  left_stick_y = 128;
  right_stick_x = 128;
  right_stick_y = 128;
  dpad = StickState.neutral;
  button = λ _. false;
  touchpad_data = touch;
}

-- `input_parse` up to the call of `input_profile_parse`: the debounced buttons and the new statics.
unfoldable pub input_prepare : Board → RawInputState → ℕ → Input → RawInputState × Input
input_prepare b raw tick s =
    let debounced : RawInputState = λ g. (debounce_entry b raw tick s g).0 in
    let s1 = record s { button_history = λ g. (debounce_entry b raw tick s g).1 } in
    let s2 = if b.reads_mode_lock then input_set_locked b (debounced mode_lock) tick s1 else s1 in
    (debounced, input_parse_mode b debounced s2)

-- `none` where the active profile is out of range, or its entries are too many for `socd_buf`. The tick is that of `k_uptime_ticks`.
unfoldable pub input_parse : Board → RawInputState → ℕ → Input → Option (Input × InputState)
input_parse b raw tick s =
    let (debounced, s') = input_prepare b raw tick s in
    elim (active_profile b s') [
      | none ↦ none
      | some p ↦ input_profile_parse b p debounced tick s' (neutral_output s'.touchpad_data)
    ]
