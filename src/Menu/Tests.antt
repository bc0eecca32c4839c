-- ===== src/Menu/Tests.antt =====
-- Runs of the menu (src/display/menu.cpp), and its theorems at concrete inputs.
use passinglink.Common.{◌*◌}
use passinglink.Common.{◌*◌, true, false, some, [], ◌∷◌, ◌≡◌, refl, arith}
use passinglink.Socd.{SocdType}
use passinglink.Util.{codes}
use passinglink.Input.Types.{OutputMode, TouchpadXy, Board, Input, MenuInput}
use passinglink.Menu.Items.{
  mode, main_menu, output_menu, settings_menu, about_menu, radio_menu, radio_item, action, lock,
  Location, Screen, Menu, MenuConfig, get_selected_option, get_option_count, on_enter, items_of,
}
use passinglink.Input.Profile.{input_profile_count}
use passinglink.Input.Lock.{input_get_lock_tick}
use passinglink.Menu.Navigate.{menu_input, menu_init, menu_push, menu_fetch_items}
use passinglink.Menu.Valid.{IsValid}
use passinglink.Menu.Invariant.{input-IsValid}
use passinglink.Menu.Tree.{IsListed}
use passinglink.Menu.Reach.{starts, Reaches-IsValid}
use passinglink.Menu.Choice.{right_selects, right-left_back}

abbrev board : Board
board = record {
  available = λ _. true;
  has_display = true;
  is_microdash = false;
  reads_mode_lock = false;
  transition_time = 50;
  menu_hold_time = 20000;
}

-- A clock of 10 kHz.
abbrev config : MenuConfig
config = record { board = board; version = codes "v1.0.0"; us_of_ticks = λ t. t * 100 }

abbrev untouched : TouchpadXy
untouched = record { counter = 0; unpressed = 1; data_0 = 0; data_1 = 0; data_2 = 0 }

abbrev input : Input
input = record {
  button_history = λ _. record { state = false; tick = 0 };
  output_mode = OutputMode.dpad;
  input_locked = false;
  input_lock_tick = 0;
  active_profile_idx = 0;
  socd_type_x = SocdType.neutral;
  socd_type_y = SocdType.negative;
  menu_opened = false;
  touchpad_data = record { p1 = untouched; p2 = untouched };
  effects = [];
}

abbrev root : Location
root = record { menu = main_menu; scroll_index = 0; selected_index = 0 }

-- The main menu is open, with the cursor on its second item.
abbrev at_output : Menu
at_output = record {
  input = input;
  report_delay_ticks = 10;
  keep_menu_spot = true;
  menu_stack = root ∷ [];
  menu_items = action lock ∷ output_menu ∷ settings_menu ∷ about_menu ∷ [];
  menu_scroll_index = 0;
  menu_selected_index = 1;
  menu_opened = true;
  screen = Screen.logo;
  effects = [];
}

at_output-IsValid : IsValid config at_output
unfolding get_option_count input_profile_count
at_output-IsValid = ((refl, (refl, omega arith), omega arith, omega arith), refl)

-- The menu of the output's modes, with the cursor on the second.
abbrev at_modes : Menu
at_modes = record at_output {
  menu_stack =
      record { menu = radio_menu mode; scroll_index = 0; selected_index = 0 }
      ∷ record { menu = output_menu; scroll_index = 0; selected_index = 1 }
      ∷ root
      ∷ [];
  menu_items = radio_item mode 0 ∷ radio_item mode 1 ∷ radio_item mode 2 ∷ [];
}

at_modes-IsValid : IsValid config at_modes
unfolding get_option_count input_profile_count
at_modes-IsValid = (
  (
    (omega arith, omega arith, (omega arith, omega arith, refl)),
    (refl, omega arith),
    omega arith,
    omega arith,
  ),
  refl,
)

abbrev closed : Menu
closed = record at_output { menu_selected_index = 0; menu_opened = false }

starting : menu_init config 5 (record closed { menu_stack = []; menu_items = [] }) ≡ some closed
unfolding menu_init menu_push on_enter menu_fetch_items items_of input_get_lock_tick
starting = refl

input-IsValid_example :
    (t : Menu) × (menu_input config 5 MenuInput.down at_output ≡ some t) × IsValid config t
input-IsValid_example =
    input-IsValid config 5 MenuInput.down at_output (omega arith) refl at_output-IsValid

Reaches-IsValid_example : IsValid config closed × IsListed config closed
Reaches-IsValid_example = Reaches-IsValid config closed (omega arith) (
    starts {c = config} (record closed { menu_stack = []; menu_items = [] }) 5
      (unfold input_profile_count in omega arith) starting)

right_selects_example :
    (t : Menu) × (menu_input config 5 MenuInput.right at_modes ≡ some t)
    × (get_selected_option mode t.input ≡ 1)
    × (t.menu_stack ≡ at_modes.menu_stack)
    × (t.menu_scroll_index ≡ at_modes.menu_scroll_index)
    × (t.menu_selected_index ≡ at_modes.menu_selected_index)
right_selects_example =
    right_selects config 5 mode 1 at_modes (omega arith) (unfold get_option_count in omega arith)
      refl at_modes-IsValid refl

right-left_back_example :
    (t u : Menu) × (menu_input config 5 MenuInput.right at_output ≡ some t)
    × (menu_input config 6 MenuInput.left t ≡ some u)
    × (u.menu_stack ≡ at_output.menu_stack)
    × (u.menu_scroll_index ≡ at_output.menu_scroll_index)
    × (u.menu_selected_index ≡ at_output.menu_selected_index)
right-left_back_example =
    right-left_back config 5 6 output_menu at_output (omega arith) refl at_output-IsValid refl
