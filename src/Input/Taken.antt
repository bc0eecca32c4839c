-- ===== src/Input/Taken.antt =====
-- What a profile shows of the buttons (src/input/profile.cpp), and when the menu takes the input.
use passinglink.Common.{
  ℕ, Bool, true, false, not, ◌&&◌, if◌then◌else◌, ◌≡◌, refl, ap, ◌∙◌, subst, arith, inl, inr, ◌==◌,
  ◌||◌, leb, ◌+◌, ◌-◌, ◌%◌, ◌^◌, Bool-cases,
}
use passinglink.Input.Types.{
  TouchpadData, RawInputState, Button, InputState, Board, Input, StickState, button_menu, mode_lock,
  ButtonRecord,
}
use passinglink.Input.Profile.{
  Profile, default_profile, dashblock_profile, tigerknee_profile, button_mapping, StickOutput,
}
use passinglink.Input.MenuButton.{input_profile_parse_menu}
use passinglink.Input.Compose.{mapped_button, hide_locked, write_output, parse_with, history_at}
use passinglink.Input.Parse.{debounce_entry}
use passinglink.Input.Output.{physical, read_pin, mapped_button-physical, menu-mapped}

-- The buttons that a lock hides.
abbrev pub is_hidden : Button → Bool
is_hidden Button.select = true
is_hidden Button.start = true
is_hidden Button.home = true
is_hidden button = false

hide_locked_lem :
    (locked : Bool) (f : Button → Bool) (button : Button)
    → hide_locked locked f button ≡ (f button && not (locked && is_hidden button))
hide_locked_lem locked f Button.select = ground arith
hide_locked_lem locked f button = ground arith

-- What a button of the host shows, from the pins and the lock.
abbrev pub shows : Board → Profile → RawInputState → Bool → Button → Bool
shows b p raw locked button = read_pin raw (physical b p button) && not (locked && is_hidden button)

write_output-button :
    (b : Board) (p : Profile) (stick : StickOutput) (raw : RawInputState) (s : Input)
    (out : InputState) (button : Button)
    → (write_output b p stick raw s out).button button ≡ shows b p raw s.input_locked button
unfolding write_output
write_output-button b p stick raw s out button =
    hide_locked_lem s.input_locked (mapped_button (button_mapping b p) raw) button
    ∙ ap (λ v. v && not (s.input_locked && is_hidden button))
        (mapped_button-physical b p raw button)

-- Whether the input is locked at the sample: as the switch is debounced, on a board that reads it.
abbrev pub lock_of : Board → RawInputState → ℕ → Input → Bool
lock_of b raw tick s =
    if b.reads_mode_lock then (debounce_entry b raw tick s mode_lock).0 else s.input_locked

-- Whether a menu button takes the input: it is held, and, while the input is locked, has been for the hold time.
abbrev pub takes : Board → ℕ → ButtonRecord → Bool → Bool
takes b tick menu locked =
    b.has_display
    && (b.available button_menu
        && (menu.state
            && (not locked || leb b.menu_hold_time ((tick + 2 ^ 64 - menu.tick) % 2 ^ 64))))

-- The same for the menu button of the board, with its record after the sample.
abbrev pub menu_takes : Board → RawInputState → ℕ → Input → Bool
menu_takes b raw tick s =
    takes b tick (debounce_entry b raw tick s button_menu).1 (lock_of b raw tick s)

-- A state with nothing pressed and the sticks in the middle.
abbrev pub at_rest : TouchpadData → InputState
at_rest touch = record {
  left_stick_x = 0x80;
  left_stick_y = 0x80;
  right_stick_x = 0x80;
  right_stick_y = 0x80;
  dpad = StickState.neutral;
  button = λ _. false;
  touchpad_data = touch;
}

-- Everything is at rest if the menu takes the input, and else every button is shown.
abbrev pub Shows : Board → Profile → RawInputState → Bool → Bool → InputState → InputState → Type 0
Shows b p raw taken locked rest out =
    if taken
    then out ≡ rest
    else ((button : Button) → out.button button ≡ shows b p raw locked button)

-- What the host is shown after a sample, by the debounced pins.
abbrev pub ShownBy : Board → Profile → RawInputState → ℕ → Input → InputState → Type 0
ShownBy b p raw tick s out =
    Shows b p (λ g. (debounce_entry b raw tick s g).0) (menu_takes b raw tick s)
      (lock_of b raw tick s) (at_rest s.touchpad_data) out

menu_handles :
    (b : Board) (menu : ButtonRecord) (stick : StickOutput) (tick : ℕ) (s : Input)
    → (input_profile_parse_menu b menu stick tick s).0 ≡ (
        menu.state
        && (not s.input_locked || leb b.menu_hold_time ((tick + 2 ^ 64 - menu.tick) % 2 ^ 64)))
unfolding input_profile_parse_menu
menu_handles b menu stick tick s = ground arith

menu_keeps_lock :
    (b : Board) (menu : ButtonRecord) (stick : StickOutput) (tick : ℕ) (s : Input)
    → (input_profile_parse_menu b menu stick tick s).1.input_locked ≡ s.input_locked
unfolding input_profile_parse_menu
menu_keeps_lock b menu stick tick s = ground arith

menu-unmapped :
    (b : Board) (p : Profile)
    → b.available button_menu ≡ false
    → button_mapping b p button_menu ≡ 0xff
unfolding button_mapping
menu-unmapped b default_profile h = rw h
menu-unmapped b dashblock_profile h = rw h
menu-unmapped b tigerknee_profile h = rw h

module _ (b : Board) (p : Profile) (stick : StickOutput) (raw : RawInputState) (s : Input)
    (out : InputState) where
  buttons_shown :
      (t : Input)
      → t.input_locked ≡ s.input_locked
      → (button : Button)
      → (write_output b p stick raw t out).button button ≡ shows b p raw s.input_locked button
  buttons_shown t e button =
      write_output-button b p stick raw t out button ∙ ap (λ locked. shows b p raw locked button) e

  with_menu :
      (has_menu handled : Bool) (t : Input)
      → t.input_locked ≡ s.input_locked
      → let r : Input × InputState =
          if has_menu
          then (if handled then (t, out) else (t, write_output b p stick raw t out))
          else (s, write_output b p stick raw s out) in
        Shows b p raw (has_menu && handled) s.input_locked out r.1
  with_menu true true t e = refl
  with_menu true false t e = buttons_shown t e
  with_menu false handled t e = buttons_shown s refl

  handled-takes :
      (tick : ℕ)
      → let menu = button_mapping b p button_menu in
        ((b.has_display && not (menu == 0xff))
          && (input_profile_parse_menu b (history_at s.button_history menu) stick tick s).0)
        ≡ takes b tick (s.button_history button_menu) s.input_locked
  handled-takes tick = elim (Bool-cases (b.available button_menu)) [
    | inl here ↦
        let mapped = menu-mapped b p here in
        let handles = menu_handles b (s.button_history button_menu) stick tick s in
        rw (mapped, here) (ground (arith, handles))
    | inr none_here ↦
        let unmapped = menu-unmapped b p none_here in rw (unmapped, none_here) (ground arith)
  ]

  pub parse_with-Shows :
      (tick : ℕ)
      → Shows b p raw
          (takes b tick (s.button_history button_menu) s.input_locked)
          s.input_locked
          out
          (parse_with b p stick raw tick s out).1
  unfolding parse_with
  parse_with-Shows tick =
      let menu = button_mapping b p button_menu in
      let r = input_profile_parse_menu b (history_at s.button_history menu) stick tick s in
      subst
        (λ taken. Shows b p raw taken s.input_locked out (parse_with b p stick raw tick s out).1)
        (handled-takes tick)
        (with_menu (b.has_display && not (menu == 0xff)) r.0 r.1
          (menu_keeps_lock b (history_at s.button_history menu) stick tick s))
