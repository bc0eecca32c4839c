-- ===== src/Input/MenuButton.antt =====
-- src/input/profile.cpp, `input_profile_parse_menu`: the menu button, and the directions while it is held.
use passinglink.Common.{
  ℕ, ◌+◌, ◌-◌, ◌%◌, ◌^◌, Bool, true, false, not, ◌&&◌, none, some, ltb, ◌==◌, if◌then◌else◌, ℤ, pos,
  negsuc,
}
use passinglink.Socd.{Axis}
use passinglink.Input.Types.{
  ButtonRecord, MenuInput, Board, Input, menu_open, menu_close, menu_input,
}
use passinglink.Input.Lock.{call, input_get_lock_tick}
use passinglink.Input.Profile.{StickOutput}

abbrev pub is_zero : ℤ → Bool
is_zero (pos n) = n == 0
is_zero (negsuc n) = false

abbrev pub is_minus_one : ℤ → Bool
is_minus_one (pos n) = false
is_minus_one (negsuc n) = n == 0

abbrev pub is_one : ℤ → Bool
is_one (pos n) = n == 1
is_one (negsuc n) = false

-- The menu follows a direction that was pressed at this very tick.
abbrev pub is_fresh : Axis → ℕ → Bool
is_fresh a tick = not (is_zero a.value) && a.tick == tick

menu_stick : StickOutput → ℕ → Input → Input
menu_stick stick tick s =
    if is_fresh stick.x tick
    then call (menu_input (if is_minus_one stick.x.value then MenuInput.left else MenuInput.right))
        s
    else if is_fresh stick.y tick
    then call (menu_input (if is_minus_one stick.y.value then MenuInput.up else MenuInput.down)) s
    else s

open_menu : Input → Input
open_menu s = if s.menu_opened then s else call menu_open (record s { menu_opened = true })

close_menu : Input → Input
close_menu s = if s.menu_opened then record (call menu_close s) { menu_opened = false } else s

-- uint64_t subtraction
abbrev pub sub64 : ℕ → ℕ → ℕ
sub64 a b = (a + 2 ^ 64 - b) % 2 ^ 64

unfoldable pub input_profile_parse_menu :
    Board → ButtonRecord → StickOutput → ℕ → Input → Bool × Input
unfolding menu_stick open_menu close_menu input_get_lock_tick
input_profile_parse_menu b menu_button stick tick s =
    if not menu_button.state then (false, close_menu s) else elim (input_get_lock_tick s) [
      | none ↦ (true, menu_stick stick tick (open_menu s))
      | some lock_tick ↦
          if ltb (sub64 tick menu_button.tick) b.menu_hold_time then (false, s) else (
            true,
            menu_stick stick tick (if ltb lock_tick menu_button.tick then open_menu s else s),
          )
    ]
