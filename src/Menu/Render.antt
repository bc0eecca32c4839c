-- ===== src/Menu/Render.antt =====
-- The texts of the menu's objects, and `menu_draw` (src/display/menu.cpp).
use passinglink.Common.{
  ℕ, zero, suc, ◌+◌, ◌-◌, Bool, true, false, Option, none, some, List, [], ◌∷◌, ◌++◌, ltb, ◌==◌,
  if◌then◌else◌, length, get_elem?,
}
use passinglink.Util.{codes, Written, copy_text, snprintf, decimal, then_text, until_nul}
use passinglink.Socd.{SocdType}
use passinglink.Input.Types.{Input, Board}
use passinglink.Input.Profile.{
  Profile, default_profile, dashblock_profile, tigerknee_profile, profiles,
}
use passinglink.Menu.Items.{
  Radio, mode, profile, socd_x, socd_y, Action, lock, unlock, increase, decrease, remember, forget,
  dfu, Item, main_menu, output_menu, settings_menu, about_menu, version_menu, socd_menu,
  usb_delay_menu, radio_menu, radio_item, action, delay_text, version_row, Menu, MenuConfig, Screen,
  get_selected_option,
}

abbrev pub display_width : ℕ
display_width = 21

abbrev pub display_rows : ℕ
display_rows = 3

-- `copy_text` of a literal.
abbrev pub copied : ℕ → List ℕ → Written
copied size text = copy_text size (some text)

abbrev pub profile_name : Profile → List ℕ
profile_name default_profile = codes "Default"
profile_name dashblock_profile = codes "Dashblock"
profile_name tigerknee_profile = codes "Tigerknee"

-- `get_option_name`; `none` for a profile out of range.
unfoldable pub get_option_name : Board → Radio → ℕ → Option (List ℕ)
get_option_name b mode index = some (
    if index == 0
    then codes "DPad"
    else if index == 1
    then codes "Left stick"
    else if index == 2
    then codes "Right stick"
    else codes "unreachable")
get_option_name b profile index = elim (get_elem? (profiles b) index) [
  | none ↦ none
  | some p ↦ some (profile_name p)
]
get_option_name b socd_x index = some (
    if index == 0
    then codes "Neutral"
    else if index == 1
    then codes "Last wins"
    else if index == 2
    then codes "Left wins"
    else if index == 3
    then codes "Right wins"
    else codes "unreachable")
get_option_name b socd_y index = some (
    if index == 0
    then codes "Neutral"
    else if index == 1
    then codes "Last wins"
    else if index == 2
    then codes "Up wins"
    else if index == 3
    then codes "Down wins"
    else codes "unreachable")

abbrev pub radio_name : Radio → List ℕ
radio_name mode = codes "Mode"
radio_name profile = codes "Profile"
radio_name socd_x = codes "X axis"
radio_name socd_y = codes "Y axis"

abbrev pub action_name : Action → List ℕ
action_name lock = codes "Lock"
action_name unlock = codes "Unlock"
action_name increase = codes "Increase"
action_name decrease = codes "Decrease"
action_name remember = codes "Menu loc: remember"
action_name forget = codes "Menu loc: forget"
action_name dfu = codes "Firmware update"

-- The names of `SOCDMenu::render_text` for the two axes.
abbrev pub x_name : SocdType → List ℕ
x_name SocdType.positive = codes "Right"
x_name SocdType.negative = codes "Left"
x_name SocdType.neutral = codes "Zero"
x_name SocdType.last = codes "Last"

abbrev pub y_name : SocdType → List ℕ
y_name SocdType.positive = codes "Down"
y_name SocdType.negative = codes "Up"
y_name SocdType.neutral = codes "Zero"
y_name SocdType.last = codes "Last"

abbrev pub socd_text : Input → List ℕ
socd_text s =
    codes "SOCD: (" ++ (x_name s.socd_type_x ++ (codes ", " ++ (y_name s.socd_type_y ++ codes ")")))

-- Three texts one after the other, as far as they fit.
abbrev pub join : ℕ → List ℕ → List ℕ → List ℕ → Written
join size a b c =
    let first = copied size a in
    let second = copied (size - first.count) b in
    then_text (then_text first second) (copied (size - first.count - second.count) c)

unfoldable pub radio_text : MenuConfig → ℕ → Radio → Input → Option Written
radio_text c size r s = elim (get_option_name c.board r (get_selected_option r s)) [
  | none ↦ none
  | some name ↦ some (join size (radio_name r) (codes ": ") name)
]

unfoldable pub radio_item_text : MenuConfig → ℕ → Radio → ℕ → Input → Option Written
radio_item_text c size r i s =
    let mark = copied size (if get_selected_option r s == i then codes "[*] " else codes "[ ] ") in
    elim (get_option_name c.board r i) [
      | none ↦ none
      | some name ↦ some (then_text mark (copied (size - mark.count) name))
    ]

-- `DynamicTextItem` with `usb_delay_print`
unfoldable pub delay_item_text : ℕ → ℕ → Written
delay_item_text size ticks =
    let first = copied size (codes "Delay: ") in
    then_text first (snprintf (size - first.count) (decimal 10 ticks ++ codes " ticks"))

-- `render_text` into a buffer of `size` bytes.
unfoldable pub render_text : MenuConfig → Menu → ℕ → Item → Option Written
render_text c s size main_menu = some (copied size (codes "Main menu"))
render_text c s size output_menu = some (copied size (codes "Output"))
render_text c s size settings_menu = some (copied size (codes "Settings"))
render_text c s size about_menu = some (copied size (codes "About"))
render_text c s size version_menu = some (copied size (codes "Version"))
render_text c s size usb_delay_menu = some (copied size (codes "USB timing"))
render_text c s size socd_menu = some (snprintf size (socd_text s.input))
render_text c s size (radio_menu r) = radio_text c size r s.input
render_text c s size (radio_item r i) = radio_item_text c size r i s.input
render_text c s size (action a) = some (copied size (action_name a))
render_text c s size delay_text = some (delay_item_text size s.report_delay_ticks)
render_text c s size (version_row first) =
    some (copy_text size (if first then some c.version else none))

abbrev pub show_caret : Item → Bool
show_caret (version_row first) = false
show_caret _ = true

-- One line: the caret, the text, and the null byte at its end. `none` is a write behind the buffer.
unfoldable pub draw_item : MenuConfig → Menu → Bool → Item → Option (List ℕ)
draw_item c s at_cursor item =
    let caret = if show_caret item then (if at_cursor then codes "> " else codes "  ") else [] in
    let size = display_width - length caret in
    elim (render_text c s size item) [
      | none ↦ none
      | some text ↦ if ltb size text.count then none else some (until_nul (caret ++ text.bytes))
    ]

-- The rows from i on, k of them; an index behind the items is a fault.
unfoldable pub draw_rows : MenuConfig → Menu → ℕ → ℕ → Option (List (Option (List ℕ)))
draw_rows c s zero i = some []
draw_rows c s (suc k) i = elim (draw_rows c s k (i + 1)) [
  | none ↦ none
  | some rest ↦
      if ltb i (length s.menu_items)
      then (elim (get_elem? s.menu_items (s.menu_scroll_index + i)) [
        | none ↦ none
        | some item ↦ elim (draw_item c s (s.menu_scroll_index + i == s.menu_selected_index) item) [
          | none ↦ none
          | some line ↦ some (some line ∷ rest)
        ]
      ])
      else some (none ∷ rest)
]

unfoldable pub menu_draw : MenuConfig → Menu → Option Menu
menu_draw c s =
    if s.menu_opened
    then (elim (draw_rows c s display_rows 0) [
      | none ↦ none
      | some rows ↦ some (record s { screen = Screen.lines rows })
    ])
    else some (record s { screen = Screen.logo })
