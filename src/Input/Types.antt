-- ===== src/Input/Types.antt =====
-- The data of src/input/input.h and src/input/touchpad.h, and the statics of the input code.
-- A struct with one member for each entry of the macro `PL_GPIOS` is a function of the entry.
use passinglink.Common.{ℕ, Bool, List, [], ◌∷◌}
use passinglink.Socd.{SocdType}

-- The entries of `PL_GPIOS`, in their order.
pub data Gpio : Type 0 where
  stick_up stick_down stick_right stick_left : Gpio
  button_north button_east button_south button_west : Gpio
  button_l1 button_l2 button_l3 button_r1 button_r2 button_r3 : Gpio
  button_start button_select button_home button_touchpad : Gpio
  button_menu button_w button_thumb_left button_thumb_right : Gpio
  mode_lock mode_ps3 mode_ls mode_rs mode_dpad : Gpio

-- The first argument of `PL_GPIO_WRAPPER`: `RawInputState::name_offset`.
abbrev pub index : Gpio → ℕ
index stick_up = 0
index stick_down = 1
index stick_right = 2
index stick_left = 3
index button_north = 4
index button_east = 5
index button_south = 6
index button_west = 7
index button_l1 = 8
index button_l2 = 9
index button_l3 = 10
index button_r1 = 11
index button_r2 = 12
index button_r3 = 13
index button_start = 14
index button_select = 15
index button_home = 16
index button_touchpad = 17
index button_menu = 18
index button_w = 19
index button_thumb_left = 20
index button_thumb_right = 21
index mode_lock = 22
index mode_ps3 = 23
index mode_ls = 24
index mode_rs = 25
index mode_dpad = 26

-- The entries by their index, as `ButtonHistory::values` has them.
abbrev pub gpios : List Gpio
gpios =
    stick_up ∷ stick_down ∷ stick_right ∷ stick_left ∷ button_north ∷ button_east ∷ button_south
    ∷ button_west ∷ button_l1 ∷ button_l2 ∷ button_l3 ∷ button_r1 ∷ button_r2 ∷ button_r3
    ∷ button_start ∷ button_select ∷ button_home ∷ button_touchpad ∷ button_menu ∷ button_w
    ∷ button_thumb_left ∷ button_thumb_right ∷ mode_lock ∷ mode_ps3 ∷ mode_ls ∷ mode_rs ∷ mode_dpad
    ∷ []

abbrev pub RawInputState : Type 0
RawInputState = Gpio → Bool

-- `ButtonHistory::Button`
pub record ButtonRecord : Type 0 where
  pub state : Bool
  pub tick : ℕ  -- uint64_t

abbrev pub ButtonHistory : Type 0
ButtonHistory = Gpio → ButtonRecord

pub data StickState : Type 0 where
  neutral north north_east east south_east south south_west west north_west : StickState

pub data OutputMode : Type 0 where
  dpad left_stick right_stick : OutputMode

-- The buttons of `InputState`, in the order of the macro `BUTTONS` of profile.cpp.
pub data Button : Type 0 where
  north east south west l1 l2 l3 r1 r2 r3 select start home touchpad : Button

pub record TouchpadXy : Type 0 where
  pub counter : ℕ  -- 7 bits
  pub unpressed : ℕ  -- 1 bit
  pub data_0 : ℕ
  pub data_1 : ℕ
  pub data_2 : ℕ

pub record TouchpadData : Type 0 where
  pub p1 : TouchpadXy
  pub p2 : TouchpadXy

pub record InputState : Type 0 where
  pub left_stick_x : ℕ
  pub left_stick_y : ℕ
  pub right_stick_x : ℕ
  pub right_stick_y : ℕ
  pub dpad : StickState
  pub button : Button → Bool
  pub touchpad_data : TouchpadData

pub data MenuInput : Type 0 where
  up down left right : MenuInput

-- What the input code asks of the display and the menu.
pub data Effect : Type 0 where
  menu_open menu_close : Effect
  menu_input : MenuInput → Effect
  display_set_locked : Bool → Effect

-- What the build fixes: the pins that the device tree has (`PL_GPIO_AVAILABLE`), the options, and the
-- lengths of time that Zephyr's clock makes of 5 ms and of 2000 ms.
pub record Board : Type 0 where
  pub available : Gpio → Bool
  pub has_display : Bool  -- CONFIG_PASSINGLINK_DISPLAY
  pub is_microdash : Bool  -- CONFIG_BOARD_MICRODASH
  pub reads_mode_lock : Bool  -- PL_GPIO_MODE_LOCK_AVAILABLE
  pub transition_time : ℕ  -- k_ms_to_cyc_ceil64(5)
  pub menu_hold_time : ℕ  -- k_ms_to_ticks_ceil64(2000)

-- The statics of input.cpp, profile.cpp and socd.cpp. `effects` lists the calls that leave the input
-- code, the oldest first.
pub record Input : Type 0 where
  pub button_history : ButtonHistory
  pub output_mode : OutputMode
  pub input_locked : Bool
  pub input_lock_tick : ℕ
  pub active_profile_idx : ℕ
  pub socd_type_x : SocdType
  pub socd_type_y : SocdType
  pub menu_opened : Bool
  pub touchpad_data : TouchpadData
  pub effects : List Effect
