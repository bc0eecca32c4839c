-- ===== src/Usb/Ps3.antt =====
-- src/output/usb/ps3/hid.h and hid.cpp: the driver of the PlayStation 3.
pub mod Reads
pub mod Players
use passinglink.Common.{
  ℕ, ◌+◌, ◌*◌, ◌^◌, ◌<◌, ◌/◌, ◌%◌, ◌≢◌, Bool, true, false, not, ◌&&◌, Option, none, some, List, [],
  ◌∷◌, ◌++◌, map, ◌≡◌, refl, sym, ◌∙◌, arith, ap, to_bit, length, take, drop, get_or, set,
  if◌then◌else◌, ◌==◌, ltb, replicate,
}
use passinglink.Usb.Fields.{
  Field, field, Fit, pack, unpack, widths, values, of_bytes, to_bytes, length-to_bytes, capacity,
  host-read,
}
use passinglink.Usb.Descriptor.{widths_of_report}
use passinglink.Usb.Hid.{pl_report_descriptor}
use passinglink.Usb.Report.{
  ReportType, input, output, feature, Reply, copy_into, length-copy_into, take-copy_into, dpad_code,
  report_buttons, button_fields, HostView, host_values, view_of, HasByteSticks, to_bit_lt,
  hat-code_8, dpad_code_lt, button_fields-Fit, replicate-Fit, hat_direction, held_bits, sticks_of,
}
use passinglink.Led.{Led, Leds, LedState, led_on, led_off, led_set, set_state, led_update}
use passinglink.Input.Types.{StickState, Button, InputState}

unfoldable pub report_descriptor : List ℕ
report_descriptor =
    0x05 ∷ 0x01 ∷ 0x09 ∷ 0x05 ∷ 0xA1 ∷ 0x01 ∷ 0x15 ∷ 0x00 ∷ 0x25 ∷ 0x01 ∷ 0x35 ∷ 0x00 ∷ 0x45 ∷ 0x01
    ∷ 0x75 ∷ 0x01 ∷ 0x95 ∷ 0x0D ∷ 0x05 ∷ 0x09 ∷ 0x19 ∷ 0x01 ∷ 0x29 ∷ 0x0D ∷ 0x81 ∷ 0x02 ∷ 0x95
    ∷ 0x03 ∷ 0x81 ∷ 0x01 ∷ 0x05 ∷ 0x01 ∷ 0x25 ∷ 0x07 ∷ 0x46 ∷ 0x3B ∷ 0x01 ∷ 0x75 ∷ 0x04 ∷ 0x95
    ∷ 0x01 ∷ 0x65 ∷ 0x14 ∷ 0x09 ∷ 0x39 ∷ 0x81 ∷ 0x42 ∷ 0x65 ∷ 0x00 ∷ 0x95 ∷ 0x01 ∷ 0x81 ∷ 0x01
    ∷ 0x26 ∷ 0xFF ∷ 0x00 ∷ 0x46 ∷ 0xFF ∷ 0x00 ∷ 0x09 ∷ 0x30 ∷ 0x09 ∷ 0x31 ∷ 0x09 ∷ 0x32 ∷ 0x09
    ∷ 0x35 ∷ 0x75 ∷ 0x08 ∷ 0x95 ∷ 0x04 ∷ 0x81 ∷ 0x02 ∷ 0x06 ∷ 0x00 ∷ 0xFF ∷ 0x09 ∷ 0x20 ∷ 0x09
    ∷ 0x21 ∷ 0x09 ∷ 0x22 ∷ 0x09 ∷ 0x23 ∷ 0x09 ∷ 0x24 ∷ 0x09 ∷ 0x25 ∷ 0x09 ∷ 0x26 ∷ 0x09 ∷ 0x27
    ∷ 0x09 ∷ 0x28 ∷ 0x09 ∷ 0x29 ∷ 0x09 ∷ 0x2A ∷ 0x09 ∷ 0x2B ∷ 0x95 ∷ 0x0C ∷ 0x81 ∷ 0x02 ∷ 0x0A
    ∷ 0x21 ∷ 0x26 ∷ 0x95 ∷ 0x08 ∷ 0xB1 ∷ 0x02 ∷ 0x0A ∷ 0x21 ∷ 0x26 ∷ 0x91 ∷ 0x02 ∷ 0x26 ∷ 0xFF
    ∷ 0x03 ∷ 0x46 ∷ 0xFF ∷ 0x03 ∷ 0x09 ∷ 0x2C ∷ 0x09 ∷ 0x2D ∷ 0x09 ∷ 0x2E ∷ 0x09 ∷ 0x2F ∷ 0x75
    ∷ 0x10 ∷ 0x95 ∷ 0x04 ∷ 0x81 ∷ 0x02 ∷ 0xC0 ∷ pl_report_descriptor

-- The members of `OutputReport` after the buttons.
abbrev pub rest_of_report : InputState → List Field
rest_of_report s =
    field 3 0
      ∷ field 4 (dpad_code 8 s.dpad)
      ∷ field 4 0
      ∷ field 8 s.left_stick_x
      ∷ field 8 s.left_stick_y
      ∷ field 8 s.right_stick_x
      ∷ field 8 s.right_stick_y
      ∷ replicate 13 (field 8 0)
    ++ field 8 0x02
      ∷ field 8 0
      ∷ field 8 0x02
      ∷ field 8 0
      ∷ field 8 0x02
      ∷ field 8 0
      ∷ field 8 0x02
      ∷ []

-- `OutputReport`, filled from the input.
unfoldable pub output_report : InputState → List Field
output_report s = button_fields report_buttons s ++ rest_of_report s

abbrev pub report_bytes : InputState → List ℕ
report_bytes s = to_bytes 27 (pack (output_report s))

-- `sampled` is what `input_get_state` gives, `none` where it fails.
unfoldable pub get_input_report : Option InputState → ℕ → List ℕ → Reply
get_input_report sampled report_id buf =
    if not (report_id == 0x01)
    then record { size = none; buf = buf }
    else if not (length buf == 64)
    then record { size = none; buf = buf }
    else elim sampled [
      | none ↦ record { size = none; buf = buf }
      | some s ↦ record { size = some 27; buf = copy_into (report_bytes s) buf }
    ]

-- A buffer has room for the first byte: the USB stack passes its control buffer.
unfoldable pub get_feature_report : ℕ → List ℕ → Reply
get_feature_report report_id buf =
    if report_id == 0
    then (if ltb (length buf) 8 then record { size = none; buf = set buf 0 report_id } else record {
      size = some 8;
      buf = copy_into (0x21 ∷ 0x26 ∷ 0x02 ∷ 0x04 ∷ 0x00 ∷ 0x00 ∷ 0x00 ∷ 0x00 ∷ []) buf;
    })
    else record { size = none; buf = set buf 0 report_id }

unfoldable pub get_report : Option InputState → Option ReportType → ℕ → List ℕ → Reply
unfolding get_input_report get_feature_report
get_report sampled none report_id buf = record { size = none; buf = buf }
get_report sampled (some feature) report_id buf = get_feature_report report_id buf
get_report sampled (some input) report_id buf = get_input_report sampled report_id buf
get_report sampled (some output) report_id buf = record { size = none; buf = buf }

pub record Ps3Hid : Type 0 where
  pub controller_number : ℕ  -- uint8_t, 0xFF at first

unfoldable pub probe_result : Ps3Hid → Bool
probe_result s = not (s.controller_number == 0xff)

-- `if (controller_number_ & bit) led_on(led)`, after all four were switched off.
abbrev pub light : ℕ → ℕ → Led → Leds → Leds
light number bit led leds = if number / bit % 2 == 1 then (led_on led none leds).1 else leds

unfoldable pub interrupt_out : List ℕ → Ps3Hid × Leds → Ps3Hid × Leds
interrupt_out buf (s, leds) =
    if length buf == 8
    then (let number = get_or buf 2 0 in
        let off_1 = (led_off Led.p1 none leds).1 in
        let off_2 = (led_off Led.p2 none off_1).1 in
        let off_3 = (led_off Led.p3 none off_2).1 in
        let off_4 = (led_off Led.p4 none off_3).1 in
        (
          record s { controller_number = number },
          light number 8 Led.p4
              (light number 4 Led.p3 (light number 2 Led.p2 (light number 1 Led.p1 off_4))),
        ))
    else (s, leds)
