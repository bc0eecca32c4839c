-- ===== src/Input/Compose.antt =====
-- src/input/profile.cpp, from `stick_state_from_x_y` on: what is written to the `InputState`.
use passinglink.Common.{
  ℕ, ◌+◌, ◌*◌, ◌/◌, ◌%◌, ◌^◌, Bool, false, not, ◌&&◌, Option, none, some, List, [], ◌∷◌, ◌==◌,
  if◌then◌else◌, to_bit, get_elem?, get_or, ℤ, pos, negsuc,
}
use passinglink.Input.Types.{
  Gpio, stick_up, stick_down, stick_right, stick_left, button_north, button_east, button_south,
  button_west, button_l1, button_l2, button_l3, button_r1, button_r2, button_r3, button_start,
  button_select, button_home, button_touchpad, button_menu, button_w, button_thumb_left,
  button_thumb_right, mode_lock, mode_ps3, mode_ls, mode_rs, mode_dpad, gpios, RawInputState,
  ButtonRecord, ButtonHistory, StickState, OutputMode, Button, InputState, Board, Input,
}
use passinglink.Input.Profile.{ButtonMapping, Profile, StickOutput, button_mapping, input_socd}
use passinglink.Input.MenuButton.{is_zero, is_one, is_minus_one, input_profile_parse_menu}

-- Eight one-bit members of a `RawInputState` in memory, the first in the lowest bit.
abbrev pub pack_byte : Bool → Bool → Bool → Bool → Bool → Bool → Bool → Bool → ℕ
pack_byte a b c d e f g h =
    to_bit a
    + 2 * to_bit b
    + 4 * to_bit c
    + 8 * to_bit d
    + 16 * to_bit e
    + 32 * to_bit f
    + 64 * to_bit g
    + 128 * to_bit h

abbrev pub raw_bytes : RawInputState → List ℕ
raw_bytes raw =
    pack_byte (raw stick_up) (raw stick_down) (raw stick_right) (raw stick_left) (raw button_north)
      (raw button_east) (raw button_south) (raw button_west)
    ∷ pack_byte (raw button_l1) (raw button_l2) (raw button_l3) (raw button_r1) (raw button_r2)
        (raw button_r3) (raw button_start) (raw button_select)
    ∷ pack_byte (raw button_home) (raw button_touchpad) (raw button_menu) (raw button_w)
        (raw button_thumb_left) (raw button_thumb_right) (raw mode_lock) (raw mode_ps3)
    ∷ pack_byte (raw mode_ls) (raw mode_rs) (raw mode_dpad) false false false false false
    ∷ []

-- `byte & 1 << (idx % 8)`
unfoldable pub get_bit : List ℕ → ℕ → Bool
get_bit bytes idx = get_or bytes (idx / 8) 0 / 2 ^ (idx % 8) % 2 == 1

-- The arguments are the signs that the C++ code compares: -1, 0, 1.
unfoldable pub stick_state_from_x_y : ℤ → ℤ → StickState
stick_state_from_x_y horizontal vertical =
    if is_minus_one vertical && is_zero horizontal
    then StickState.north
    else if is_minus_one vertical && is_one horizontal
    then StickState.north_east
    else if is_zero vertical && is_one horizontal
    then StickState.east
    else if is_one vertical && is_one horizontal
    then StickState.south_east
    else if is_one vertical && is_zero horizontal
    then StickState.south
    else if is_one vertical && is_minus_one horizontal
    then StickState.south_west
    else if is_zero vertical && is_minus_one horizontal
    then StickState.west
    else if is_minus_one vertical && is_minus_one horizontal
    then StickState.north_west
    else StickState.neutral

unfoldable pub stick_scale : ℤ → ℕ
stick_scale (negsuc n) = 0x00
stick_scale (pos n) = if n == 0 then 0x80 else 0xff

-- The member of `ButtonMapping` that `BUTTON(name)` reads.
abbrev pub source_of : Button → Gpio
source_of Button.north = button_north
source_of Button.east = button_east
source_of Button.south = button_south
source_of Button.west = button_west
source_of Button.l1 = button_l1
source_of Button.l2 = button_l2
source_of Button.l3 = button_l3
source_of Button.r1 = button_r1
source_of Button.r2 = button_r2
source_of Button.r3 = button_r3
source_of Button.select = button_select
source_of Button.start = button_start
source_of Button.home = button_home
source_of Button.touchpad = button_touchpad

unfoldable pub mapped_button : ButtonMapping → RawInputState → Button → Bool
unfolding get_bit
mapped_button mapping raw button =
    if mapping (source_of button) == 0xff
    then false
    else get_bit (raw_bytes raw) (mapping (source_of button))

unfoldable pub place_stick : OutputMode → StickOutput → InputState → InputState
unfolding stick_state_from_x_y stick_scale
place_stick OutputMode.dpad stick out = record out {
  dpad = stick_state_from_x_y stick.x.value stick.y.value;
}
place_stick OutputMode.left_stick stick out = record out {
  left_stick_x = stick_scale stick.x.value;
  left_stick_y = stick_scale stick.y.value;
}
place_stick OutputMode.right_stick stick out = record out {
  right_stick_x = stick_scale stick.x.value;
  right_stick_y = stick_scale stick.y.value;
}

-- The last lines of `input_profile_parse`: a lock clears select, start and home.
abbrev pub hide_locked : Bool → (Button → Bool) → Button → Bool
hide_locked locked f Button.select = f Button.select && not locked
hide_locked locked f Button.start = f Button.start && not locked
hide_locked locked f Button.home = f Button.home && not locked
hide_locked locked f button = f button

-- `input_profile_parse` after the menu had its turn.
unfoldable pub write_output :
    Board → Profile → StickOutput → RawInputState → Input → InputState → InputState
unfolding mapped_button place_stick button_mapping
write_output b p stick raw s out =
    let placed = place_stick s.output_mode stick out in
    record placed { button = hide_locked s.input_locked (mapped_button (button_mapping b p) raw) }

-- `button_history.values[i]`
abbrev pub history_at : ButtonHistory → ℕ → ButtonRecord
history_at history i = elim (get_elem? gpios i) [
  | some g ↦ history g
  | none ↦ record { state = false; tick = 0 }
]

-- `input_profile_parse` from the result of `input_socd` on.
unfoldable pub parse_with :
    Board → Profile → StickOutput → RawInputState → ℕ → Input → InputState → Input × InputState
parse_with b p stick raw tick s out =
    let menu = button_mapping b p button_menu in
    if b.has_display && not (menu == 0xff)
    then (let (handled, s') =
          input_profile_parse_menu b (history_at s.button_history menu) stick tick s in
        if handled then (s', out) else (s', write_output b p stick raw s' out))
    else (s, write_output b p stick raw s out)

unfoldable pub input_profile_parse :
    Board → Profile → RawInputState → ℕ → Input → InputState → Option (Input × InputState)
input_profile_parse b p raw tick s out = elim (input_socd b p raw s) [
  | none ↦ none
  | some stick ↦ some (parse_with b p stick raw tick s out)
]
