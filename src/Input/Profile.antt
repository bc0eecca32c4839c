-- ===== src/Input/Profile.antt =====
-- src/input/profile.cpp: the profiles, and what they make of the debounced buttons.
use passinglink.Common.{
  ℕ, Bool, true, false, Option, List, [], ◌∷◌, ◌++◌, if◌then◌else◌, to_bit, length, get_elem?, leb,
  ◌&&◌, none, some,
}
use passinglink.Socd.{SocdInputs, ButtonType, Axis, input_socd_parse}
use passinglink.Input.Types.{
  Gpio, stick_up, stick_down, stick_right, stick_left, button_l3, button_r3, button_w,
  button_thumb_left, button_thumb_right, index, RawInputState, ButtonHistory, Board, Input,
}

-- A uint8_t for each entry: the index of the physical button that is read for it, or 0xff.
abbrev pub ButtonMapping : Type 0
ButtonMapping = Gpio → ℕ

unfoldable pub base_mapping : Board → ButtonMapping
base_mapping b g = if b.available g then index g else 0xff

unfoldable pub default_mapping : Board → ButtonMapping
unfolding base_mapping
default_mapping b button_l3 =
    if b.is_microdash then index button_thumb_left else base_mapping b button_l3
default_mapping b button_r3 =
    if b.is_microdash then index button_thumb_right else base_mapping b button_r3
default_mapping b g = base_mapping b g

-- One initialiser `{ in->name, button_history.name.tick, type, overrides }`.
abbrev pub socd_input : RawInputState → ButtonHistory → Gpio → ButtonType → Bool → SocdInputs
socd_input raw history g type overrides = record {
  input_value = to_bit (raw g);
  input_tick = (history g).tick;
  button_type = type;
  overrides = overrides;
}

-- `#if PL_GPIO_AVAILABLE(name)` round an entry.
abbrev pub when_available : Board → Gpio → SocdInputs → List SocdInputs
when_available b g i = if b.available g then i ∷ [] else []

unfoldable pub default_socd_x : RawInputState → ButtonHistory → List SocdInputs
default_socd_x raw history =
    socd_input raw history stick_left ButtonType.negative false
    ∷ socd_input raw history stick_right ButtonType.positive false
    ∷ []

unfoldable pub default_socd_y : Board → RawInputState → ButtonHistory → List SocdInputs
default_socd_y b raw history =
    socd_input raw history stick_up ButtonType.negative false
    ∷ socd_input raw history stick_down ButtonType.positive false
    ∷ when_available b button_w (socd_input raw history button_w ButtonType.negative false)

-- The two overriding entries for the thumb buttons.
abbrev pub thumbs :
    Board → RawInputState → ButtonHistory → ButtonType → ButtonType → List SocdInputs
thumbs b raw history left right =
    when_available b button_thumb_left (socd_input raw history button_thumb_left left true)
    ++ when_available b button_thumb_right (socd_input raw history button_thumb_right right true)

unfoldable pub dashblock_socd_x : Board → RawInputState → ButtonHistory → List SocdInputs
unfolding default_socd_x
dashblock_socd_x b raw history =
    default_socd_x raw history ++ thumbs b raw history ButtonType.negative ButtonType.positive

unfoldable pub dashblock_socd_y : Board → RawInputState → ButtonHistory → List SocdInputs
unfolding default_socd_y
dashblock_socd_y b raw history =
    default_socd_y b raw history ++ thumbs b raw history ButtonType.neutral ButtonType.neutral

unfoldable pub tigerknee_socd_x : Board → RawInputState → ButtonHistory → List SocdInputs
unfolding default_socd_x
tigerknee_socd_x b raw history =
    default_socd_x raw history ++ thumbs b raw history ButtonType.negative ButtonType.positive

unfoldable pub tigerknee_socd_y : Board → RawInputState → ButtonHistory → List SocdInputs
unfolding default_socd_y
tigerknee_socd_y b raw history =
    default_socd_y b raw history ++ thumbs b raw history ButtonType.negative ButtonType.negative

-- The subclasses of `Profile`, and their virtual functions.
pub data Profile : Type 0 where
  default_profile dashblock_profile tigerknee_profile : Profile

unfoldable pub button_mapping : Board → Profile → ButtonMapping
unfolding default_mapping base_mapping
button_mapping b default_profile = default_mapping b
button_mapping b dashblock_profile = base_mapping b
button_mapping b tigerknee_profile = base_mapping b

unfoldable pub socd_x : Board → Profile → RawInputState → ButtonHistory → List SocdInputs
unfolding default_socd_x dashblock_socd_x tigerknee_socd_x
socd_x b default_profile raw history = default_socd_x raw history
socd_x b dashblock_profile raw history = dashblock_socd_x b raw history
socd_x b tigerknee_profile raw history = tigerknee_socd_x b raw history

unfoldable pub socd_y : Board → Profile → RawInputState → ButtonHistory → List SocdInputs
unfolding default_socd_y dashblock_socd_y tigerknee_socd_y
socd_y b default_profile raw history = default_socd_y b raw history
socd_y b dashblock_profile raw history = dashblock_socd_y b raw history
socd_y b tigerknee_profile raw history = tigerknee_socd_y b raw history

abbrev pub profiles : Board → List Profile
profiles b =
    if b.has_display
    then default_profile ∷ dashblock_profile ∷ tigerknee_profile ∷ []
    else default_profile ∷ []

unfoldable pub input_profile_count : Board → ℕ
input_profile_count b = length (profiles b)

unfoldable pub input_profile_activate : ℕ → Input → Input
input_profile_activate idx s = record s { active_profile_idx = idx }

-- `none` for an index out of range.
unfoldable pub active_profile : Board → Input → Option Profile
active_profile b s = get_elem? (profiles b) s.active_profile_idx

-- How many entries `socd_buf` has.
abbrev pub socd_buf_size : Board → ℕ
socd_buf_size b = if b.has_display then 32 else 2

pub record StickOutput : Type 0 where
  pub x : Axis
  pub y : Axis

-- What `input_profile_socd_x` and `input_profile_socd_y` make of the entries.
unfoldable pub socd_axes : Board → Profile → RawInputState → Input → StickOutput
unfolding socd_x socd_y input_socd_parse
socd_axes b p raw s = record {
  x = input_socd_parse s.socd_type_x (socd_x b p raw s.button_history);
  y = input_socd_parse s.socd_type_y (socd_y b p raw s.button_history);
}

-- `none` where the entries of an axis are more than `socd_buf` has room for.
unfoldable pub input_socd : Board → Profile → RawInputState → Input → Option StickOutput
unfolding socd_axes
input_socd b p raw s =
    if leb (length (socd_x b p raw s.button_history)) (socd_buf_size b)
      && leb (length (socd_y b p raw s.button_history)) (socd_buf_size b)
    then some (socd_axes b p raw s)
    else none
