-- ===== src/Shell/Names.antt =====
-- src/shell.cpp: the names that `parse_button` knows.
use passinglink.Common.{
  ℕ, Bool, true, false, none, some, List, [], ◌++◌, if◌then◌else◌, ◌≡◌, refl, ◌∙◌, ltb,
}
use passinglink.Util.{codes}
use passinglink.Input.Types.{
  Gpio, stick_up, stick_down, stick_right, stick_left, button_north, button_east, button_south,
  button_west, button_l1, button_l2, button_l3, button_r1, button_r2, button_r3, button_start,
  button_select, button_home, button_touchpad, button_menu, button_w, button_thumb_left,
  button_thumb_right, mode_lock, mode_ps3, mode_ls, mode_rs, mode_dpad, index, gpios, RawInputState,
}
use passinglink.Shell.{gpio_name, shorten, set_member, parse_entries, parse_button}

-- How an argument begins, and the value that this means.
pub data Sign : Type 0 where
  bare plus minus : Sign

unfoldable pub sign_text : Sign → List ℕ
sign_text bare = []
sign_text plus = codes "+"
sign_text minus = codes "-"

unfoldable pub sign_value : Sign → Bool
sign_value bare = true
sign_value plus = true
sign_value minus = false

-- The short names; the switches for the mode have none but their names.
unfoldable pub short_name : Gpio → List ℕ
short_name stick_up = codes "up"
short_name stick_down = codes "down"
short_name stick_right = codes "right"
short_name stick_left = codes "left"
short_name button_north = codes "north"
short_name button_east = codes "east"
short_name button_south = codes "south"
short_name button_west = codes "west"
short_name button_l1 = codes "l1"
short_name button_l2 = codes "l2"
short_name button_l3 = codes "l3"
short_name button_r1 = codes "r1"
short_name button_r2 = codes "r2"
short_name button_r3 = codes "r3"
short_name button_start = codes "start"
short_name button_select = codes "select"
short_name button_home = codes "home"
short_name button_touchpad = codes "touchpad"
short_name button_menu = codes "menu"
short_name button_w = codes "w"
short_name button_thumb_left = codes "thumb_left"
short_name button_thumb_right = codes "thumb_right"
short_name mode_lock = codes "mode_lock"
short_name mode_ps3 = codes "mode_ps3"
short_name mode_ls = codes "mode_ls"
short_name mode_rs = codes "mode_rs"
short_name mode_dpad = codes "mode_dpad"

-- The two spellings of an entry.
unfoldable pub spelling : Bool → Gpio → List ℕ
spelling short g = if short then short_name g else gpio_name g

-- A spelling of an entry up to `mode_lock` is found among the entries, the others are not; none begins with a sign.
Spelled : Bool → Gpio → Type 0
Spelled short g =
    (value : Bool) (state : RawInputState)
    → (parse_entries gpios value (spelling short g) state
        ≡ (if ltb (index g) 23 then some (true, set_member g value state) else none))
      × (parse_button state (spelling short g) ≡ parse_entries gpios true (spelling short g) state)

full-Spelled : (g : Gpio) → Spelled false g
unfolding Spelled parse_button parse_entries gpio_name shorten short_name spelling
full-Spelled stick_up value state = (refl, refl)
full-Spelled stick_down value state = (refl, refl)
full-Spelled stick_right value state = (refl, refl)
full-Spelled stick_left value state = (refl, refl)
full-Spelled button_north value state = (refl, refl)
full-Spelled button_east value state = (refl, refl)
full-Spelled button_south value state = (refl, refl)
full-Spelled button_west value state = (refl, refl)
full-Spelled button_l1 value state = (refl, refl)
full-Spelled button_l2 value state = (refl, refl)
full-Spelled button_l3 value state = (refl, refl)
full-Spelled button_r1 value state = (refl, refl)
full-Spelled button_r2 value state = (refl, refl)
full-Spelled button_r3 value state = (refl, refl)
full-Spelled button_start value state = (refl, refl)
full-Spelled button_select value state = (refl, refl)
full-Spelled button_home value state = (refl, refl)
full-Spelled button_touchpad value state = (refl, refl)
full-Spelled button_menu value state = (refl, refl)
full-Spelled button_w value state = (refl, refl)
full-Spelled button_thumb_left value state = (refl, refl)
full-Spelled button_thumb_right value state = (refl, refl)
full-Spelled mode_lock value state = (refl, refl)
full-Spelled mode_ps3 value state = (refl, refl)
full-Spelled mode_ls value state = (refl, refl)
full-Spelled mode_rs value state = (refl, refl)
full-Spelled mode_dpad value state = (refl, refl)

short-Spelled : (g : Gpio) → Spelled true g
unfolding Spelled parse_button parse_entries gpio_name shorten short_name spelling
short-Spelled stick_up value state = (refl, refl)
short-Spelled stick_down value state = (refl, refl)
short-Spelled stick_right value state = (refl, refl)
short-Spelled stick_left value state = (refl, refl)
short-Spelled button_north value state = (refl, refl)
short-Spelled button_east value state = (refl, refl)
short-Spelled button_south value state = (refl, refl)
short-Spelled button_west value state = (refl, refl)
short-Spelled button_l1 value state = (refl, refl)
short-Spelled button_l2 value state = (refl, refl)
short-Spelled button_l3 value state = (refl, refl)
short-Spelled button_r1 value state = (refl, refl)
short-Spelled button_r2 value state = (refl, refl)
short-Spelled button_r3 value state = (refl, refl)
short-Spelled button_start value state = (refl, refl)
short-Spelled button_select value state = (refl, refl)
short-Spelled button_home value state = (refl, refl)
short-Spelled button_touchpad value state = (refl, refl)
short-Spelled button_menu value state = (refl, refl)
short-Spelled button_w value state = (refl, refl)
short-Spelled button_thumb_left value state = (refl, refl)
short-Spelled button_thumb_right value state = (refl, refl)
short-Spelled mode_lock value state = (refl, refl)
short-Spelled mode_ps3 value state = (refl, refl)
short-Spelled mode_ls value state = (refl, refl)
short-Spelled mode_rs value state = (refl, refl)
short-Spelled mode_dpad value state = (refl, refl)

spelling-Spelled : (short : Bool) (g : Gpio) → Spelled short g
spelling-Spelled true g = short-Spelled g
spelling-Spelled false g = full-Spelled g

-- An argument that names an entry up to `mode_lock`, in full or by its short name, with a sign or without, is known and
-- sets the member of the entry, and no other, to the value of the sign; the names of the entries after it read a
-- null pointer.
pub parse_button-spelling :
    (sign : Sign) (short : Bool) (g : Gpio) (state : RawInputState)
    → parse_button state (sign_text sign ++ spelling short g)
      ≡ (if ltb (index g) 23 then some (true, set_member g (sign_value sign) state) else none)
unfolding Spelled parse_button sign_text sign_value
parse_button-spelling bare short g state =
    let found = spelling-Spelled short g true state in found.1 ∙ found.0
parse_button-spelling plus short g state = (spelling-Spelled short g true state).0
parse_button-spelling minus short g state = (spelling-Spelled short g false state).0
