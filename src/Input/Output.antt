-- ===== src/Input/Output.antt =====
-- What the host is shown: the laws of src/input/profile.cpp and of `input_parse` in src/input/input.cpp.
use passinglink.Common.{
  ℕ, Bool, true, false, Option, none, some, ltb, ◌==◌, if◌then◌else◌, ◌≡◌, refl, arith, Bool-cases,
  inl, inr, ℤ, pos, minus_one,
}
use passinglink.Socd.Laws.{IsSign, socd_parse-IsSign}
use passinglink.Input.Types.{
  Gpio, button_l3, button_r3, button_menu, button_thumb_left, button_thumb_right, index,
  RawInputState, ButtonRecord, StickState, OutputMode, Button, InputState, Board, Input,
}
use passinglink.Input.Profile.{
  Profile, default_profile, dashblock_profile, tigerknee_profile, base_mapping, button_mapping,
  socd_x, socd_y, StickOutput, socd_axes,
}
use passinglink.Input.MenuButton.{input_profile_parse_menu}
use passinglink.Input.Compose.{
  raw_bytes, get_bit, stick_state_from_x_y, stick_scale, source_of, mapped_button, place_stick,
  write_output, history_at, parse_with,
}
use passinglink.Input.Bits.{get_bit-index}

-- The physical button that stands for one of the host's, if the board has it.
abbrev pub pin : Board → Gpio → Option Gpio
pin b g = if b.available g then some g else none

abbrev pub physical : Board → Profile → Button → Option Gpio
physical b default_profile Button.l3 =
    if b.is_microdash then some button_thumb_left else pin b button_l3
physical b default_profile Button.r3 =
    if b.is_microdash then some button_thumb_right else pin b button_r3
physical b p button = pin b (source_of button)

abbrev pub read_pin : RawInputState → Option Gpio → Bool
read_pin raw none = false
read_pin raw (some g) = raw g

abbrev mapped : ℕ → RawInputState → Bool
mapped m raw = if m == 0xff then false else get_bit (raw_bytes raw) m

index-ne : (g : Gpio) → (index g == 0xff) ≡ false
index-ne g = ground arith

mapped-index : (g : Gpio) (raw : RawInputState) → mapped (index g) raw ≡ raw g
mapped-index g raw = rw (index-ne g) (get_bit-index raw g)

mapped-base :
    (b : Board) (g : Gpio) (raw : RawInputState)
    → mapped (base_mapping b g) raw ≡ read_pin raw (pin b g)
unfolding base_mapping
mapped-base b g raw = elim (Bool-cases (b.available g)) [
  | inl there ↦ rw there (mapped-index g raw)
  | inr absent ↦ rw absent
]

mapped-remapped :
    (b : Board) (remaps : Bool) (raw : RawInputState) (g thumb : Gpio)
    → mapped (if remaps then index thumb else base_mapping b g) raw
      ≡ read_pin raw (if remaps then some thumb else pin b g)
mapped-remapped b true raw g thumb = mapped-index thumb raw
mapped-remapped b false raw g thumb = mapped-base b g raw

-- Each button of the host follows its physical button, and is never pressed where there is none.
pub mapped_button-physical :
    (b : Board) (p : Profile) (raw : RawInputState) (button : Button)
    → mapped_button (button_mapping b p) raw button ≡ read_pin raw (physical b p button)
unfolding mapped_button button_mapping
mapped_button-physical b default_profile raw Button.l3 =
    mapped-remapped b b.is_microdash raw button_l3 button_thumb_left
mapped_button-physical b default_profile raw Button.r3 =
    mapped-remapped b b.is_microdash raw button_r3 button_thumb_right
mapped_button-physical b default_profile raw button = mapped-base b (source_of button) raw
mapped_button-physical b dashblock_profile raw button = mapped-base b (source_of button) raw
mapped_button-physical b tigerknee_profile raw button = mapped-base b (source_of button) raw

-- The signs of the two axes that a state of the directional pad stands for.
abbrev pub direction : StickState → ℤ × ℤ
direction StickState.neutral = (pos 0, pos 0)
direction StickState.north = (pos 0, minus_one)
direction StickState.north_east = (pos 1, minus_one)
direction StickState.east = (pos 1, pos 0)
direction StickState.south_east = (pos 1, pos 1)
direction StickState.south = (pos 0, pos 1)
direction StickState.south_west = (minus_one, pos 1)
direction StickState.west = (minus_one, pos 0)
direction StickState.north_west = (minus_one, minus_one)

direction-stick_state :
    (x y : ℤ) → IsSign x → IsSign y → direction (stick_state_from_x_y x y) ≡ (x, y)
unfolding stick_state_from_x_y
direction-stick_state x y hx hy = ground arith

socd_axes-IsSign :
    (b : Board) (p : Profile) (raw : RawInputState) (s : Input)
    → IsSign (socd_axes b p raw s).x.value × IsSign (socd_axes b p raw s).y.value
unfolding socd_axes
socd_axes-IsSign b p raw s = (
  socd_parse-IsSign s.socd_type_x (socd_x b p raw s.button_history),
  socd_parse-IsSign s.socd_type_y (socd_y b p raw s.button_history),
)

-- The direction that a host reads from a stick axis whose middle is 128.
abbrev pub sign_of : ℕ → ℤ
sign_of n = if ltb n 128 then minus_one else if n == 128 then pos 0 else pos 1

-- The two axes that a mode moves, and the rest of the output that it leaves alone.
abbrev pub moved : OutputMode → InputState → ℤ × ℤ
moved OutputMode.dpad out = direction out.dpad
moved OutputMode.left_stick out = (sign_of out.left_stick_x, sign_of out.left_stick_y)
moved OutputMode.right_stick out = (sign_of out.right_stick_x, sign_of out.right_stick_y)

abbrev pub resting : OutputMode → InputState → StickState × ℕ × ℕ × ℕ × ℕ
resting OutputMode.dpad out =
    (StickState.neutral, out.left_stick_x, out.left_stick_y, out.right_stick_x, out.right_stick_y)
resting OutputMode.left_stick out = (out.dpad, 0, 0, out.right_stick_x, out.right_stick_y)
resting OutputMode.right_stick out = (out.dpad, out.left_stick_x, out.left_stick_y, 0, 0)

sign_of-stick_scale : (v : ℤ) → IsSign v → sign_of (stick_scale v) ≡ v
unfolding stick_scale
sign_of-stick_scale v h = ground arith

pair_eq : (a b c d : ℤ) → a ≡ c → b ≡ d → ◌≡◌ {A = ℤ × ℤ} (a, b) (c, d)
pair_eq a b c d p q = cc

place_stick-moved :
    (mode : OutputMode) (stick : StickOutput) (out : InputState) (f : Button → Bool)
    → IsSign stick.x.value
    → IsSign stick.y.value
    → let shown = record (place_stick mode stick out) { button = f } in
      (moved mode shown ≡ (stick.x.value, stick.y.value)) × (resting mode shown ≡ resting mode out)
unfolding place_stick
place_stick-moved OutputMode.dpad stick out f hx hy =
    (direction-stick_state stick.x.value stick.y.value hx hy, refl)
place_stick-moved OutputMode.left_stick stick out f hx hy =
    (pair_eq _ _ _ _ (sign_of-stick_scale _ hx) (sign_of-stick_scale _ hy), refl)
place_stick-moved OutputMode.right_stick stick out f hx hy =
    (pair_eq _ _ _ _ (sign_of-stick_scale _ hx) (sign_of-stick_scale _ hy), refl)

-- In each output mode the pad or the stick of the mode points where the cleaned axes point, and
-- everything else that points is as it was.
pub write_output-moved :
    (b : Board) (p : Profile) (raw : RawInputState) (s : Input) (out : InputState)
    → let stick = socd_axes b p raw s in
      let shown = write_output b p stick raw s out in
      (moved s.output_mode shown ≡ (stick.x.value, stick.y.value))
      × (resting s.output_mode shown ≡ resting s.output_mode out)
unfolding write_output
write_output-moved b p raw s out =
    let signs = socd_axes-IsSign b p raw s in
    place_stick-moved s.output_mode (socd_axes b p raw s) out _ signs.0 signs.1

pub menu-mapped :
    (b : Board) (p : Profile) → b.available button_menu ≡ true → button_mapping b p button_menu ≡ 18
unfolding button_mapping
menu-mapped b default_profile h = rw h
menu-mapped b dashblock_profile h = rw h
menu-mapped b tigerknee_profile h = rw h

menu-opens :
    (b : Board) (menu : ButtonRecord) (stick : StickOutput) (tick : ℕ) (s : Input)
    → menu.state ≡ true
    → s.input_locked ≡ false
    → ((input_profile_parse_menu b menu stick tick s).0 ≡ true)
      × ((input_profile_parse_menu b menu stick tick s).1.menu_opened ≡ true)
unfolding input_profile_parse_menu
menu-opens b menu stick tick s held unlocked = (ground arith, ground arith)

-- A held menu button, unless the input is locked, takes the directions to the menu: the menu is open
-- afterwards, and the host sees everything at rest.
pub menu_held-output :
    (b : Board) (p : Profile) (stick : StickOutput) (raw : RawInputState) (tick : ℕ) (s : Input)
    (out : InputState)
    → b.has_display ≡ true
    → b.available button_menu ≡ true
    → (s.button_history button_menu).state ≡ true
    → s.input_locked ≡ false
    → let (s', shown) = parse_with b p stick raw tick s out in
      (shown ≡ out) × (s'.menu_opened ≡ true)
unfolding parse_with
menu_held-output b p stick raw tick s out display there held unlocked =
    let mapped_menu = menu-mapped b p there in
    let menu = history_at s.button_history (button_mapping b p button_menu) in
    let pressed : menu.state ≡ true = simp mapped_menu held in
    let opens = menu-opens b menu stick tick s pressed unlocked in
    (
      ground (arith, display, mapped_menu, opens.0),
      ground (arith, display, mapped_menu, opens.0, opens.1),
    )
