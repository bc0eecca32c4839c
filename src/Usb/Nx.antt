-- ===== src/Usb/Nx.antt =====
-- src/output/usb/nx/hid.h and hid.cpp: the driver of the Switch.
use passinglink.Common.{
  ℕ, ◌^◌, ◌/◌, ◌%◌, Bool, true, not, ◌&&◌, Option, none, some, List, [], ◌∷◌, ◌++◌, ◌≡◌, refl, sym,
  ◌∙◌, arith, to_bit, length, take, drop, get_or, set, if◌then◌else◌, ◌==◌,
}
use passinglink.Usb.Fields.{
  Field, field, Fit, pack, widths, values, to_bytes, length-to_bytes, capacity, host-read,
}
use passinglink.Usb.Descriptor.{widths_of_report}
use passinglink.Usb.Hid.{pl_report_descriptor}
use passinglink.Usb.Report.{
  ReportType, input, output, feature, Reply, copy_into, length-copy_into, take-copy_into, dpad_code,
  report_buttons, button_fields, HostView, host_values, view_of, HasByteSticks, to_bit_lt,
  hat-code_8, dpad_code_lt, button_fields-Fit, hat_direction,
}
use passinglink.Input.Types.{Button, InputState}

unfoldable pub report_descriptor : List ℕ
report_descriptor =
    0x05 ∷ 0x01 ∷ 0x09 ∷ 0x05 ∷ 0xA1 ∷ 0x01 ∷ 0x15 ∷ 0x00 ∷ 0x25 ∷ 0x01 ∷ 0x35 ∷ 0x00 ∷ 0x45 ∷ 0x01
    ∷ 0x75 ∷ 0x01 ∷ 0x95 ∷ 0x10 ∷ 0x05 ∷ 0x09 ∷ 0x19 ∷ 0x01 ∷ 0x29 ∷ 0x10 ∷ 0x81 ∷ 0x02 ∷ 0x05
    ∷ 0x01 ∷ 0x25 ∷ 0x07 ∷ 0x46 ∷ 0x3B ∷ 0x01 ∷ 0x75 ∷ 0x04 ∷ 0x95 ∷ 0x01 ∷ 0x65 ∷ 0x14 ∷ 0x09
    ∷ 0x39 ∷ 0x81 ∷ 0x42 ∷ 0x65 ∷ 0x00 ∷ 0x95 ∷ 0x01 ∷ 0x81 ∷ 0x01 ∷ 0x26 ∷ 0xFF ∷ 0x00 ∷ 0x46
    ∷ 0xFF ∷ 0x00 ∷ 0x09 ∷ 0x30 ∷ 0x09 ∷ 0x31 ∷ 0x09 ∷ 0x32 ∷ 0x09 ∷ 0x35 ∷ 0x75 ∷ 0x08 ∷ 0x95
    ∷ 0x04 ∷ 0x81 ∷ 0x02 ∷ 0x06 ∷ 0x00 ∷ 0xFF ∷ 0x09 ∷ 0x20 ∷ 0x95 ∷ 0x01 ∷ 0x81 ∷ 0x02 ∷ 0x0A
    ∷ 0x21 ∷ 0x26 ∷ 0x95 ∷ 0x08 ∷ 0x91 ∷ 0x02 ∷ 0xC0 ∷ pl_report_descriptor

-- The members of `OutputReport` after the first thirteen buttons.
abbrev rest_of_report : InputState → List Field
rest_of_report s =
    field 1 (to_bit (s.button Button.touchpad))
    ∷ field 1 0
    ∷ field 1 0
    ∷ field 4 (dpad_code 8 s.dpad)
    ∷ field 4 0
    ∷ field 8 s.left_stick_x
    ∷ field 8 s.left_stick_y
    ∷ field 8 s.right_stick_x
    ∷ field 8 s.right_stick_y
    ∷ field 8 0
    ∷ []

-- `OutputReport`, filled from the input.
unfoldable pub output_report : InputState → List Field
output_report s = button_fields report_buttons s ++ rest_of_report s

abbrev report_bytes : InputState → List ℕ
report_bytes s = to_bytes 8 (pack (output_report s))

-- `sampled` is what `input_get_state` gives, `none` where it fails.
unfoldable pub get_input_report : Option InputState → ℕ → List ℕ → Reply
get_input_report sampled report_id buf =
    if not (report_id == 0x01)
    then record { size = none; buf = buf }
    else if not (length buf == 64)
    then record { size = none; buf = buf }
    else elim sampled [
      | none ↦ record { size = none; buf = buf }
      | some s ↦ record { size = some 8; buf = copy_into (report_bytes s) buf }
    ]

-- A buffer has room for the byte: the USB stack passes its control buffer.
unfoldable pub get_feature_report : ℕ → List ℕ → Reply
get_feature_report report_id buf = record { size = none; buf = set buf 0 report_id }

unfoldable pub get_report : Option InputState → Option ReportType → ℕ → List ℕ → Reply
unfolding get_input_report get_feature_report
get_report sampled none report_id buf = record { size = none; buf = buf }
get_report sampled (some feature) report_id buf = get_feature_report report_id buf
get_report sampled (some input) report_id buf = get_input_report sampled report_id buf
get_report sampled (some output) report_id buf = record { size = none; buf = buf }

pub record NxHid : Type 0 where
  pub input_halt_cleared : Bool
  pub output_halt_cleared : Bool

unfoldable pub clear_halt : ℕ → NxHid → NxHid
clear_halt endpoint s =
    if endpoint / 128 % 2 == 1
    then record s { input_halt_cleared = true }
    else record s { output_halt_cleared = true }

unfoldable pub probe_result : NxHid → Bool
probe_result s = s.input_halt_cleared && s.output_halt_cleared

output_report-Fit : (s : InputState) → HasByteSticks s → Fit (output_report s)
unfolding output_report
output_report-Fit s h = button_fields-Fit report_buttons s (rest_of_report s) (
  to_bit_lt (s.button Button.touchpad),
  (
    omega arith,
    (
      omega arith,
      (
        dpad_code_lt 8 s.dpad (omega arith),
        (omega arith, (h.0, (h.1, (h.2, (h.3, (omega arith, tt)))))),
      ),
    ),
  ),
)

widths_lem : (s : InputState) → widths (output_report s) ≡ widths_of_report 0 report_descriptor
unfolding output_report report_descriptor widths_of_report pl_report_descriptor
widths_lem s = refl

-- The buttons are the first fourteen values, the hat the seventeenth, the sticks the last but one four.
abbrev pub host_view : List ℕ → HostView
host_view vs = record {
  buttons = take 14 vs;
  hat = hat_direction (get_or vs 16 8);
  sticks = take 4 (drop 18 vs);
}

abbrev pub nx_buttons : List Button
nx_buttons = report_buttons ++ Button.touchpad ∷ []

capacity_lem : (s : InputState) → capacity (widths (output_report s)) ≡ 256 ^ 8
unfolding output_report
capacity_lem s = refl

seen : (s : InputState) → host_view (values (output_report s)) ≡ view_of nx_buttons s
unfolding output_report
seen s = rw (hat-code_8 s.dpad) refl

host_view_lem :
    (s : InputState)
    → HasByteSticks s
    → host_view (host_values 0 report_descriptor (report_bytes s)) ≡ view_of nx_buttons s
host_view_lem s h =
    rw (sym (widths_lem s), host-read (output_report s) 8 (output_report-Fit s h) (capacity_lem s))
      (seen s)

-- A host that reads an input report of the Switch by the descriptor sees each button, the direction of
-- the pad and the four stick values of the input. The report is eight bytes of a 64-byte buffer.
pub input_report-host_view :
    (s : InputState) (buf : List ℕ)
    → HasByteSticks s
    → length buf ≡ 64
    → let reply = get_input_report (some s) 0x01 buf in
      (reply.size ≡ some 8)
      × (length reply.buf ≡ 64)
      × (host_view (host_values 0 report_descriptor (take 8 reply.buf)) ≡ view_of nx_buttons s)
unfolding get_input_report
input_report-host_view s buf h len = rw len (
  refl,
  length-copy_into (report_bytes s) buf (omega (arith, length-to_bytes 8 (pack (output_report s))))
      ∙ len,
  rw (take-copy_into (report_bytes s) buf 8 (length-to_bytes 8 (pack (output_report s))))
      (host_view_lem s h),
)
