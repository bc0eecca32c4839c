-- ===== src/Ps4/Report/Layout.antt =====
-- The descriptor and the struct `OutputReport` of src/output/usb/ps4/hid.cpp.
use passinglink.Common.{ℕ, ◌%◌, List, [], ◌∷◌, ◌++◌, to_bit, replicate}
use passinglink.Usb.Fields.{Field, field}
use passinglink.Usb.Report.{dpad_code, report_buttons, button_fields}
use passinglink.Input.Types.{Button, InputState, TouchpadXy, TouchpadData}

unfoldable pub report_descriptor : List ℕ
report_descriptor =
    0x05 ∷ 0x01 ∷ 0x09 ∷ 0x05 ∷ 0xA1 ∷ 0x01 ∷ 0x85 ∷ 0x01 ∷ 0x09 ∷ 0x30 ∷ 0x09 ∷ 0x31 ∷ 0x09 ∷ 0x32
    ∷ 0x09 ∷ 0x35 ∷ 0x15 ∷ 0x00 ∷ 0x26 ∷ 0xFF ∷ 0x00 ∷ 0x75 ∷ 0x08 ∷ 0x95 ∷ 0x04 ∷ 0x81 ∷ 0x02
    ∷ 0x09 ∷ 0x39 ∷ 0x15 ∷ 0x00 ∷ 0x25 ∷ 0x07 ∷ 0x35 ∷ 0x00 ∷ 0x46 ∷ 0x3B ∷ 0x01 ∷ 0x65 ∷ 0x14
    ∷ 0x75 ∷ 0x04 ∷ 0x95 ∷ 0x01 ∷ 0x81 ∷ 0x42 ∷ 0x65 ∷ 0x00 ∷ 0x05 ∷ 0x09 ∷ 0x19 ∷ 0x01 ∷ 0x29
    ∷ 0x0E ∷ 0x15 ∷ 0x00 ∷ 0x25 ∷ 0x01 ∷ 0x75 ∷ 0x01 ∷ 0x95 ∷ 0x0E ∷ 0x81 ∷ 0x02 ∷ 0x06 ∷ 0x00
    ∷ 0xFF ∷ 0x09 ∷ 0x20 ∷ 0x75 ∷ 0x06 ∷ 0x95 ∷ 0x01 ∷ 0x81 ∷ 0x02 ∷ 0x05 ∷ 0x01 ∷ 0x09 ∷ 0x33
    ∷ 0x09 ∷ 0x34 ∷ 0x15 ∷ 0x00 ∷ 0x26 ∷ 0xFF ∷ 0x00 ∷ 0x75 ∷ 0x08 ∷ 0x95 ∷ 0x02 ∷ 0x81 ∷ 0x02
    ∷ 0x06 ∷ 0x00 ∷ 0xFF ∷ 0x09 ∷ 0x21 ∷ 0x95 ∷ 0x36 ∷ 0x81 ∷ 0x02 ∷ 0x85 ∷ 0x05 ∷ 0x09 ∷ 0x22
    ∷ 0x95 ∷ 0x1F ∷ 0x91 ∷ 0x02 ∷ 0x85 ∷ 0x03 ∷ 0x0A ∷ 0x21 ∷ 0x27 ∷ 0x95 ∷ 0x2F ∷ 0xB1 ∷ 0x02
    ∷ 0xC0 ∷ 0x06 ∷ 0xF0 ∷ 0xFF ∷ 0x09 ∷ 0x40 ∷ 0xA1 ∷ 0x01 ∷ 0x85 ∷ 0xF0 ∷ 0x09 ∷ 0x47 ∷ 0x95
    ∷ 0x3F ∷ 0xB1 ∷ 0x02 ∷ 0x85 ∷ 0xF1 ∷ 0x09 ∷ 0x48 ∷ 0x95 ∷ 0x3F ∷ 0xB1 ∷ 0x02 ∷ 0x85 ∷ 0xF2
    ∷ 0x09 ∷ 0x49 ∷ 0x95 ∷ 0x0F ∷ 0xB1 ∷ 0x02 ∷ 0x85 ∷ 0xF3 ∷ 0x0A ∷ 0x01 ∷ 0x47 ∷ 0x95 ∷ 0x07
    ∷ 0xB1 ∷ 0x02 ∷ 0xC0 ∷ []

abbrev pub touch_fields : TouchpadXy → List Field
touch_fields p =
    field 7 p.counter
    ∷ field 1 p.unpressed
    ∷ field 8 p.data_0
    ∷ field 8 p.data_1
    ∷ field 8 p.data_2
    ∷ []

-- The members of `OutputReport` after the first thirteen buttons.
abbrev pub rest_of_report : InputState → TouchpadData → ℕ → List Field
rest_of_report s touch counter =
    field 1 (to_bit (s.button Button.touchpad))
      ∷ field 6 (counter % 64)
      ∷ field 8 0
      ∷ field 8 0
      ∷ field 24 0
      ∷ replicate 22 (field 8 0)
    ++ touch_fields touch.p1
    ++ touch_fields touch.p2
    ++ replicate 21 (field 8 0)

-- `OutputReport`, filled from the input, the touchpad and the counter.
unfoldable pub output_report : InputState → TouchpadData → ℕ → List Field
output_report s touch counter =
    field 8 0x01
      ∷ field 8 s.left_stick_x
      ∷ field 8 s.left_stick_y
      ∷ field 8 s.right_stick_x
      ∷ field 8 s.right_stick_y
      ∷ field 4 (dpad_code 15 s.dpad)
      ∷ button_fields report_buttons s
    ++ rest_of_report s touch counter
