-- ===== src/Usb/Pins.antt =====
-- From the pins to the console: src/input/input.cpp and src/output/usb/nx/hid.cpp together.
mod Tests
use passinglink.Common.{
  ℕ, ◌<◌, Bool, true, false, Option, none, some, List, length, take, ◌≡◌, refl, arith, ℤ, pos,
  negsuc, if◌then◌else◌, not, ◌&&◌, ◌||◌, ◌==◌, Option-cases, inl, inr, subst,
}
use passinglink.Usb.Report.{HasByteSticks, host_values, view_of}
use passinglink.Usb.Nx.{
  get_input_report, report_descriptor, host_view, nx_buttons, input_report-host_view,
}
use passinglink.Input.Types.{
  button_menu, button_w, InputState, OutputMode, Board, Input, RawInputState,
}
use passinglink.Input.Profile.{Profile, StickOutput, active_profile, button_mapping, input_socd}
use passinglink.Input.Compose.{
  stick_scale, place_stick, write_output, history_at, parse_with, input_profile_parse,
}
use passinglink.Input.MenuButton.{input_profile_parse_menu}
use passinglink.Input.Taken.{ShownBy}
use passinglink.Input.Shown.{parse_succeeds}
use passinglink.Input.Parse.{input_parse, input_prepare, neutral_output}

stick_scale_lt : (v : ℤ) → stick_scale v < 256
unfolding stick_scale
stick_scale_lt (negsuc n) = omega arith
stick_scale_lt (pos n) = ground arith

place-HasByteSticks :
    (mode : OutputMode) (stick : StickOutput) (out : InputState)
    → HasByteSticks out
    → HasByteSticks (place_stick mode stick out)
unfolding place_stick
place-HasByteSticks OutputMode.dpad stick out h = h
place-HasByteSticks OutputMode.left_stick stick out h =
    (stick_scale_lt stick.x.value, stick_scale_lt stick.y.value, h.2, h.3)
place-HasByteSticks OutputMode.right_stick stick out h =
    (h.0, h.1, stick_scale_lt stick.x.value, stick_scale_lt stick.y.value)

write-HasByteSticks :
    (b : Board) (p : Profile) (stick : StickOutput) (raw : RawInputState) (s : Input)
    (out : InputState)
    → HasByteSticks out
    → HasByteSticks (write_output b p stick raw s out)
unfolding write_output
write-HasByteSticks b p stick raw s out h = place-HasByteSticks s.output_mode stick out h

abbrev HasSticks : Input × InputState → Type 0
HasSticks r = HasByteSticks r.1

module _ (b : Board) (p : Profile) (raw : RawInputState) (s : Input) (out : InputState)
    (h : HasByteSticks out) where
  after_menu :
      (stick : StickOutput) (handled : Bool) (s' : Input)
      → HasSticks (if handled then (s', out) else (s', write_output b p stick raw s' out))
  after_menu stick true s' = h
  after_menu stick false s' = write-HasByteSticks b p stick raw s' out h

  with_menu :
      (stick : StickOutput) (has_menu handled : Bool) (s' : Input)
      → HasSticks (
          if has_menu
          then (if handled then (s', out) else (s', write_output b p stick raw s' out))
          else (s, write_output b p stick raw s out))
  with_menu stick true handled s' = after_menu stick handled s'
  with_menu stick false handled s' = write-HasByteSticks b p stick raw s out h

  parse_with-HasByteSticks :
      (stick : StickOutput) (tick : ℕ) → HasSticks (parse_with b p stick raw tick s out)
  unfolding parse_with
  parse_with-HasByteSticks stick tick =
      let menu = button_mapping b p button_menu in
      let r = input_profile_parse_menu b (history_at s.button_history menu) stick tick s in
      with_menu stick (b.has_display && not (menu == 0xff)) r.0 r.1

abbrev SomeSticks : Option (Input × InputState) → Type 0
SomeSticks none = Unit
SomeSticks (some r) = HasSticks r

profile_parse-SomeSticks :
    (b : Board) (p : Profile) (raw : RawInputState) (tick : ℕ) (s : Input) (out : InputState)
    → HasByteSticks out
    → SomeSticks (input_profile_parse b p raw tick s out)
unfolding input_profile_parse
profile_parse-SomeSticks b p raw tick s out h =
    elim (input_socd b p raw s)
      as (λ o.
        SomeSticks
          (elim o [ none ↦ none | some stick ↦ some (parse_with b p stick raw tick s out) ])) [
            | none ↦ tt
            | some stick ↦ parse_with-HasByteSticks b p raw s out h stick tick
          ]

parse-SomeSticks :
    (b : Board) (raw : RawInputState) (tick : ℕ) (s : Input) → SomeSticks (input_parse b raw tick s)
unfolding input_parse
parse-SomeSticks b raw tick s =
    elim (Option-cases (active_profile b (input_prepare b raw tick s).1)) [
      | inl e ↦ rw (input_parse, e) tt
      | inr (p, e) ↦
          rw (input_parse, e)
            (profile_parse-SomeSticks b p _ tick _
              (neutral_output (input_prepare b raw tick s).1.touchpad_data)
              (omega arith, omega arith, omega arith, omega arith))
    ]

-- With a profile selected, on a board that has a display or lacks `button_w`, `input_parse` succeeds on a sample of the
-- pins, and the console that reads the report of the Switch then sees the state that it made of them:
-- everything at rest if the menu takes the input (a menu button of a board with a display, whose debounced record is
-- held, and for the hold time while the input is locked), and else each button as the debounced pin of its
-- profile, with select, start and home hidden while the input is locked.
pub pins-host_view :
    (b : Board) (raw : RawInputState) (tick : ℕ) (s : Input) (p : Profile) (buf : List ℕ)
    → (b.has_display || not (b.available button_w)) ≡ true
    → active_profile b s ≡ some p
    → length buf ≡ 64
    → (r : Input × InputState) × (input_parse b raw tick s ≡ some r)
      × ShownBy b p raw tick s r.1
      × (host_view
            (host_values 0 report_descriptor (take 8 (get_input_report (some r.1) 0x01 buf).buf))
          ≡ view_of nx_buttons r.1)
pins-host_view b raw tick s p buf fits e len =
    let (r, parsed, shown) = parse_succeeds b raw tick s p fits e in
    let bytes = subst SomeSticks parsed (parse-SomeSticks b raw tick s) in
    (r, parsed, shown, (input_report-host_view r.1 buf bytes len).2)
