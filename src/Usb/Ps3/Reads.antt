-- ===== src/Usb/Ps3/Reads.antt =====
-- What a host reads from the input report of src/output/usb/ps3/hid.cpp.
use passinglink.Common.{
  ℕ, ◌^◌, some, List, [], ◌∷◌, ◌++◌, ◌≡◌, refl, sym, ◌∙◌, arith, length, take, drop, get_or,
  replicate,
}
use passinglink.Usb.Fields.{
  Field, field, Fit, pack, widths, values, length-to_bytes, capacity, host-read,
}
use passinglink.Usb.Descriptor.{widths_of_report}
use passinglink.Usb.Hid.{pl_report_descriptor}
use passinglink.Usb.Report.{
  length-copy_into, take-copy_into, dpad_code, report_buttons, button_fields, HostView, host_values,
  view_of, HasByteSticks, hat-code_8, dpad_code_lt, button_fields-Fit, replicate-Fit, pack-append,
  hat_direction,
}
use passinglink.Usb.Ps3.{
  report_descriptor, rest_of_report, output_report, report_bytes, get_input_report,
}
use passinglink.Input.Types.{InputState}

-- The same bits in the fields that the descriptor announces: three single bits of padding, twelve
-- pressure values, and four sensors of sixteen bits.
abbrev quiet_values : List Field
quiet_values = replicate 12 (field 8 0) ++ replicate 4 (field 16 0x200) ++ []

abbrev placed : InputState → List Field
placed s =
    field 4 (dpad_code 8 s.dpad)
    ∷ field 4 0
    ∷ field 8 s.left_stick_x
    ∷ field 8 s.left_stick_y
    ∷ field 8 s.right_stick_x
    ∷ field 8 s.right_stick_y
    ∷ quiet_values

abbrev announced_rest : InputState → List Field
announced_rest s = replicate 3 (field 1 0) ++ placed s

announced : InputState → List Field
announced s = button_fields report_buttons s ++ announced_rest s

pack-announced : (s : InputState) → pack (output_report s) ≡ pack (announced s)
unfolding output_report announced
pack-announced s = pack-append report_buttons s (rest_of_report s) (announced_rest s) (omega arith)

widths_lem : (s : InputState) → widths (announced s) ≡ widths_of_report 0 report_descriptor
unfolding announced report_descriptor widths_of_report pl_report_descriptor
widths_lem s = refl

capacity_lem : (s : InputState) → capacity (widths (announced s)) ≡ 256 ^ 27
unfolding announced
capacity_lem s = refl

announced-Fit : (s : InputState) → HasByteSticks s → Fit (announced s)
unfolding announced
announced-Fit s h = button_fields-Fit report_buttons s (announced_rest s) (
    replicate-Fit 3 1 0 (placed s) (omega arith) (
      dpad_code_lt 8 s.dpad (omega arith),
      (
        omega arith,
        (
          h.0,
          (
            h.1,
            (
              h.2,
              (
                h.3,
                replicate-Fit 12 8 0 (replicate 4 (field 16 0x200) ++ []) (omega arith)
                    (replicate-Fit 4 16 0x200 [] (omega arith) tt),
              ),
            ),
          ),
        ),
      ),
    ))

-- The buttons are the first thirteen values, the hat the seventeenth, the sticks the four from the
-- nineteenth on.
abbrev pub host_view : List ℕ → HostView
host_view vs = record {
  buttons = take 13 vs;
  hat = hat_direction (get_or vs 16 8);
  sticks = take 4 (drop 18 vs);
}

-- The sensors of the controller at rest: half of 1023.
abbrev pub sensors : List ℕ → List ℕ
sensors vs = drop 34 vs

seen :
    (s : InputState)
    → (host_view (values (announced s)) ≡ view_of report_buttons s)
      × (sensors (values (announced s)) ≡ replicate 4 512)
unfolding announced
seen s = (rw (hat-code_8 s.dpad) refl, refl)

host_values_lem :
    (s : InputState)
    → HasByteSticks s
    → host_values 0 report_descriptor (report_bytes s) ≡ values (announced s)
host_values_lem s h =
    rw (pack-announced s, sym (widths_lem s))
      (host-read (announced s) 27 (announced-Fit s h) (capacity_lem s))

-- A host that reads an input report of the PlayStation 3 by the descriptor sees each button, the direction
-- of the pad and the four stick values of the input, and the sensors in the middle of their range. The
-- report is 27 bytes of a 64-byte buffer.
pub input_report-sensors :
    (s : InputState) (buf : List ℕ)
    → HasByteSticks s
    → length buf ≡ 64
    → let reply = get_input_report (some s) 0x01 buf in
      let seen_values = host_values 0 report_descriptor (take 27 reply.buf) in
      (reply.size ≡ some 27)
      × (length reply.buf ≡ 64)
      × ((host_view seen_values ≡ view_of report_buttons s)
          × (sensors seen_values ≡ replicate 4 512))
unfolding get_input_report
input_report-sensors s buf h len = rw len (
  refl,
  length-copy_into (report_bytes s) buf (omega (arith, length-to_bytes 27 (pack (output_report s))))
      ∙ len,
  rw
      (
        take-copy_into (report_bytes s) buf 27 (length-to_bytes 27 (pack (output_report s))),
        host_values_lem s h,
      )
      (seen s),
)
