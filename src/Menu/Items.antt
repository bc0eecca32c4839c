-- ===== src/Menu/Items.antt =====
-- src/display/menu.cpp up to `MainMenu`: the objects derived from `MenuBase`, and what they do.
use passinglink.Common.{
  ℕ, zero, suc, ◌+◌, ◌-◌, ◌%◌, ◌^◌, Bool, true, false, Option, List, [], ◌∷◌, ◌++◌, ltb, ◌==◌,
  is_some, if◌then◌else◌,
}
use passinglink.Socd.{SocdType}
use passinglink.Input.Types.{Input, Board, OutputMode}
use passinglink.Input.Lock.{input_get_lock_tick, input_set_locked}
use passinglink.Input.Profile.{input_profile_count, input_profile_activate}

-- The objects of the classes derived from `RadioMenu`.
pub data Radio : Type 0 where
  mode profile socd_x socd_y : Radio

-- The objects of class `ActionItem`.
pub data Action : Type 0 where
  lock unlock increase decrease remember forget dfu : Action

-- All objects: those of classes derived from `Menu`, and the leaves. A row of the version is a leaf.
pub data Item : Type 0 where
  main_menu output_menu settings_menu about_menu version_menu socd_menu usb_delay_menu : Item
  radio_menu : Radio → Item
  radio_item : Radio → ℕ → Item
  action : Action → Item
  delay_text : Item
  version_row : Bool → Item

pub record Location : Type 0 where
  pub menu : Item
  pub scroll_index : ℕ
  pub selected_index : ℕ

-- What actions ask of the rest of the firmware.
pub data MenuEffect : Type 0 where
  metrics_reset mcuboot_enter : MenuEffect

-- What the display was told last: the logo, or three lines (`none` for an empty one).
pub data Screen : Type 0 where
  logo : Screen
  lines : List (Option (List ℕ)) → Screen

-- What the build fixes, and the function `k_ticks_to_us_ceil32` of Zephyr.
pub record MenuConfig : Type 0 where
  pub board : Board
  pub version : List ℕ
  pub us_of_ticks : ℕ → ℕ

-- The statics of menu.cpp, with those that its items change: the input's, and `hid_report_delay_ticks`.
pub record Menu : Type 0 where
  pub input : Input
  pub report_delay_ticks : ℕ
  pub keep_menu_spot : Bool
  pub menu_stack : List Location
  pub menu_items : List Item
  pub menu_scroll_index : ℕ
  pub menu_selected_index : ℕ
  pub menu_opened : Bool
  pub screen : Screen
  pub effects : List MenuEffect

-- `static_cast<SOCDType>(index)` and `static_cast<size_t>(type)`
abbrev pub socd_of : ℕ → SocdType
socd_of index =
    if index == 0
    then SocdType.neutral
    else if index == 1
    then SocdType.last
    else if index == 2
    then SocdType.negative
    else SocdType.positive

abbrev pub socd_index : SocdType → ℕ
socd_index SocdType.neutral = 0
socd_index SocdType.last = 1
socd_index SocdType.negative = 2
socd_index SocdType.positive = 3

-- The same casts for `OutputMode`.
abbrev pub mode_of : ℕ → OutputMode
mode_of index =
    if index == 0
    then OutputMode.dpad
    else if index == 1
    then OutputMode.left_stick
    else OutputMode.right_stick

abbrev pub mode_index : OutputMode → ℕ
mode_index OutputMode.dpad = 0
mode_index OutputMode.left_stick = 1
mode_index OutputMode.right_stick = 2

unfoldable pub get_selected_option : Radio → Input → ℕ
get_selected_option mode s = mode_index s.output_mode
get_selected_option profile s = s.active_profile_idx
get_selected_option socd_x s = socd_index s.socd_type_x
get_selected_option socd_y s = socd_index s.socd_type_y

unfoldable pub get_option_count : Board → Radio → ℕ
get_option_count b mode = 3
get_option_count b profile = input_profile_count b
get_option_count b socd_x = 4
get_option_count b socd_y = 4

unfoldable pub on_option_selected : Radio → ℕ → Input → Input
on_option_selected mode index s = record s { output_mode = mode_of index }
on_option_selected profile index s = input_profile_activate index s
on_option_selected socd_x index s = record s { socd_type_x = socd_of index }
on_option_selected socd_y index s = record s { socd_type_y = socd_of index }

-- The items of a radio menu from index i on.
abbrev pub radio_items : Radio → ℕ → ℕ → List Item
radio_items r zero i = []
radio_items r (suc n) i = radio_item r i ∷ radio_items r n (i + 1)

-- `MenuBase::menu_items`: what it writes to the buffer.
unfoldable pub items_of : MenuConfig → Menu → Item → List Item
unfolding get_option_count
items_of c s main_menu =
    action (if is_some (input_get_lock_tick s.input) then unlock else lock)
    ∷ output_menu
    ∷ settings_menu
    ∷ about_menu
    ∷ []
items_of c s output_menu = radio_menu mode ∷ radio_menu profile ∷ socd_menu ∷ []
items_of c s socd_menu = radio_menu socd_x ∷ radio_menu socd_y ∷ []
items_of c s settings_menu =
    usb_delay_menu ∷ action (if s.keep_menu_spot then remember else forget) ∷ action dfu ∷ []
items_of c s usb_delay_menu = delay_text ∷ action increase ∷ action decrease ∷ []
items_of c s about_menu = version_menu ∷ []
items_of c s version_menu = version_row true ∷ version_row false ∷ version_row false ∷ []
items_of c s (radio_menu r) = radio_items r (get_option_count c.board r) 0
items_of c s (radio_item r i) = []
items_of c s (action a) = []
items_of c s delay_text = []
items_of c s (version_row first) = []

abbrev pub menu_effect : MenuEffect → Menu → Menu
menu_effect e s = record s { effects = s.effects ++ (e ∷ []) }

-- `usb_delay_increase` and `usb_delay_decrease`
unfoldable pub usb_delay_increase : MenuConfig → Menu → Menu
usb_delay_increase c s =
    if ltb 1000 (c.us_of_ticks s.report_delay_ticks)
    then s
    else menu_effect metrics_reset
        (record s { report_delay_ticks = (s.report_delay_ticks + 1) % 2 ^ 32 })

unfoldable pub usb_delay_decrease : Menu → Menu
usb_delay_decrease s =
    if s.report_delay_ticks == 0
    then s
    else menu_effect metrics_reset (record s { report_delay_ticks = s.report_delay_ticks - 1 })

-- The functions of the objects of class `ActionItem`; the tick is that of `k_uptime_ticks`.
unfoldable pub run_action : MenuConfig → ℕ → Action → Menu → Menu
run_action c tick lock s = record s { input = input_set_locked c.board true tick s.input }
run_action c tick unlock s = record s { input = input_set_locked c.board false tick s.input }
run_action c tick increase s = usb_delay_increase c s
run_action c tick decrease s = usb_delay_decrease s
run_action c tick remember s = record s { keep_menu_spot = false }
run_action c tick forget s = record s { keep_menu_spot = true }
run_action c tick dfu s = menu_effect mcuboot_enter s

-- `MenuBase::on_enter`: true for a menu, false for a leaf.
unfoldable pub on_enter : MenuConfig → ℕ → Item → Menu → Bool × Menu
on_enter c tick (radio_item r i) s = (false, record s { input = on_option_selected r i s.input })
on_enter c tick (action a) s = (false, run_action c tick a s)
on_enter c tick delay_text s = (false, s)
on_enter c tick (version_row first) s = (false, s)
on_enter c tick menu s = (true, s)
