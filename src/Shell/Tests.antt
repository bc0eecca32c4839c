-- ===== src/Shell/Tests.antt =====
-- Arguments of the shell command `input modify`.
use passinglink.Common.{true, false, none, some, ◌≡◌, refl}
use passinglink.Util.{codes}
use passinglink.Input.Types.{button_home, RawInputState}
use passinglink.Shell.{gpio_name, shorten, set_member, parse_entries, parse_button}
use passinglink.Shell.Names.{
  minus, sign_text, sign_value, short_name, spelling, parse_button-spelling,
}

abbrev nothing_held : RawInputState
nothing_held g = false

parse_button-spelling_example :
    parse_button nothing_held (codes "-home")
    ≡ some (true, set_member button_home false nothing_held)
unfolding sign_text spelling sign_value short_name
parse_button-spelling_example = parse_button-spelling minus true button_home nothing_held

-- A name that is not known reads a null pointer.
unknown_name : parse_button nothing_held (codes "turbo") ≡ none
unfolding parse_button parse_entries shorten gpio_name
unknown_name = refl
