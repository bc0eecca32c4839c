-- ===== src/Ps4/Report/Reads.antt =====
-- What a host reads from the input report of src/output/usb/ps4/hid.cpp.
use passinglink.Common.{
  ℕ, ◌+◌, ◌*◌, ◌^◌, ◌<◌, ◌%◌, some, List, [], ◌∷◌, ◌++◌, ◌≡◌, refl, sym, ap, ap₂, suc, arith,
  to_bit, length, take, drop, get_or, replicate,
}
use passinglink.Usb.Fields.{Field, field, Fit, pack, widths, values, to_bytes, capacity, host-read}
use passinglink.Usb.Descriptor.{widths_of_report}
use passinglink.Usb.Report.{
  dpad_code, report_buttons, button_fields, HostView, host_values, view_of, HasByteSticks,
  to_bit_lt, hat-code_15, dpad_code_lt, button_fields-Fit, replicate-Fit, pack-append,
  hat_direction,
}
use passinglink.Input.Types.{Button, InputState, TouchpadXy, TouchpadData}
use passinglink.Ps4.Report.Layout.{report_descriptor, output_report, rest_of_report}
use passinglink.Ps4.Report.{Ps4Hid, get_input_report}

-- The bytes of a point of the touchpad.
abbrev pub touch_bytes : TouchpadXy → List ℕ
touch_bytes p = (p.counter + 128 * p.unpressed) ∷ p.data_0 ∷ p.data_1 ∷ p.data_2 ∷ []

abbrev pub FitsTouch : TouchpadXy → Type 0
FitsTouch p =
    (p.counter < 128) × (p.unpressed < 2) × (p.data_0 < 256) × (p.data_1 < 256) × (p.data_2 < 256)

byte_fields : List ℕ → List Field
byte_fields [] = []
byte_fields (b ∷ bs) = field 8 b ∷ byte_fields bs

-- The bits after the first thirteen buttons in the fields that the descriptor announces.
abbrev announced_rest : InputState → TouchpadData → ℕ → List Field
announced_rest s touch counter =
    field 1 (to_bit (s.button Button.touchpad))
      ∷ field 6 (counter % 64)
      ∷ field 8 0
      ∷ field 8 0
      ∷ replicate 25 (field 8 0)
    ++ (byte_fields (touch_bytes touch.p1)
        ++ (byte_fields (touch_bytes touch.p2) ++ (replicate 21 (field 8 0) ++ [])))

-- The report after its number.
announced : InputState → TouchpadData → ℕ → List Field
announced s touch counter =
    field 8 s.left_stick_x
      ∷ field 8 s.left_stick_y
      ∷ field 8 s.right_stick_x
      ∷ field 8 s.right_stick_y
      ∷ field 4 (dpad_code 15 s.dpad)
      ∷ button_fields report_buttons s
    ++ announced_rest s touch counter

pack-rest :
    (s : InputState) (touch : TouchpadData) (counter : ℕ)
    → pack (rest_of_report s touch counter) ≡ pack (announced_rest s touch counter)
unfolding byte_fields
pack-rest s touch counter = omega arith

pack-announced :
    (s : InputState) (touch : TouchpadData) (counter : ℕ)
    → pack (output_report s touch counter) ≡ 1 + 256 * pack (announced s touch counter)
unfolding output_report announced
pack-announced s touch counter =
    rw
      (pack-append report_buttons s (rest_of_report s touch counter)
        (announced_rest s touch counter) (pack-rest s touch counter))
      refl

widths_lem :
    (s : InputState) (touch : TouchpadData) (counter : ℕ)
    → widths (announced s touch counter) ≡ widths_of_report 1 report_descriptor
unfolding announced byte_fields report_descriptor widths_of_report
widths_lem s touch counter = refl

capacity_lem :
    (s : InputState) (touch : TouchpadData) (counter : ℕ)
    → capacity (widths (announced s touch counter)) ≡ 256 ^ 63
unfolding announced byte_fields
capacity_lem s touch counter = refl

append-Fit : (fs gs : List Field) → Fit fs → Fit gs → Fit (fs ++ gs)
append-Fit [] gs h k = k
append-Fit (f ∷ fs) gs h k = (h.0, append-Fit fs gs h.1 k)

touch-Fit : (p : TouchpadXy) → FitsTouch p → Fit (byte_fields (touch_bytes p))
unfolding byte_fields
touch-Fit p h = (omega (arith, h.0, h.1), (h.2, (h.3, (h.4, tt))))

announced-Fit :
    (s : InputState) (touch : TouchpadData) (counter : ℕ)
    → HasByteSticks s
    → FitsTouch touch.p1
    → FitsTouch touch.p2
    → Fit (announced s touch counter)
unfolding announced
announced-Fit s touch counter h t1 t2 =
    let zeros = replicate-Fit 21 8 0 [] (omega arith) tt in
    let points = append-Fit (byte_fields (touch_bytes touch.p1)) _ (touch-Fit touch.p1 t1) (
      append-Fit (byte_fields (touch_bytes touch.p2)) (replicate 21 (field 8 0) ++ [])
        (touch-Fit touch.p2 t2) zeros) in
    (
      h.0,
      (
        h.1,
        (
          h.2,
          (
            h.3,
            (
              dpad_code_lt 15 s.dpad (omega arith),
              button_fields-Fit report_buttons s (announced_rest s touch counter) (
                to_bit_lt (s.button Button.touchpad),
                (
                  omega arith,
                  (omega arith, (omega arith, replicate-Fit 25 8 0 _ (omega arith) points)),
                ),
              ),
            ),
          ),
        ),
      ),
    )

-- The sticks come first, then the hat, fourteen buttons, and the counter of reports. The bytes of the two
-- touches are eight of the vendor's values.
abbrev pub host_view : List ℕ → HostView
host_view vs = record {
  buttons = take 14 (drop 5 vs);
  hat = hat_direction (get_or vs 4 15);
  sticks = take 4 vs;
}

abbrev pub report_counter : List ℕ → ℕ
report_counter vs = get_or vs 19 0

abbrev pub touches : List ℕ → List ℕ
touches vs = take 8 (drop 47 vs)

abbrev pub ps4_buttons : List Button
ps4_buttons = report_buttons ++ Button.touchpad ∷ []

seen :
    (s : InputState) (touch : TouchpadData) (counter : ℕ)
    → let vs = values (announced s touch counter) in
      (host_view vs ≡ view_of ps4_buttons s)
      × (report_counter vs ≡ counter % 64)
      × (touches vs ≡ touch_bytes touch.p1 ++ touch_bytes touch.p2)
unfolding announced byte_fields
seen s touch counter = (rw (hat-code_15 s.dpad) refl, refl, refl)

to_bytes_report : (k m : ℕ) → to_bytes (suc k) (1 + 256 * m) ≡ 1 ∷ to_bytes k m
unfolding to_bytes
to_bytes_report k m = ap₂ ◌∷◌ (omega arith) (ap (to_bytes k) (omega arith))

host_values_lem :
    (s : InputState) (touch : TouchpadData) (counter : ℕ)
    → HasByteSticks s
    → FitsTouch touch.p1
    → FitsTouch touch.p2
    → to_bytes 64 (pack (output_report s touch counter))
        ≡ 1 ∷ to_bytes 63 (pack (announced s touch counter))
      × (host_values 1 report_descriptor (to_bytes 63 (pack (announced s touch counter)))
          ≡ values (announced s touch counter))
host_values_lem s touch counter h t1 t2 = (
  rw (pack-announced s touch counter) (to_bytes_report 63 (pack (announced s touch counter))),
  rw (sym (widths_lem s touch counter)) (
      host-read (announced s touch counter) 63 (announced-Fit s touch counter h t1 t2)
        (capacity_lem s touch counter)),
)

-- A host that reads an input report of the PlayStation 4 by the descriptor, after its number, sees each
-- button, the direction of the pad, the four stick values and the touches of the input. It fills the
-- 64-byte buffer. The report's counter goes up by one, modulo 64, from each report to the next.
pub input_report-touches :
    (s : InputState) (touch : TouchpadData) (hid : Ps4Hid) (buf : List ℕ)
    → HasByteSticks s
    → FitsTouch touch.p1
    → FitsTouch touch.p2
    → length buf ≡ 64
    → let (reply, next) = get_input_report (some s) touch 0x01 buf hid in
      let vs = host_values 1 report_descriptor (drop 1 reply.buf) in
      (reply.size ≡ some 64)
      × (take 1 reply.buf ≡ 1 ∷ [])
      × ((host_view vs ≡ view_of ps4_buttons s)
          × (report_counter vs ≡ hid.last_report_counter % 64)
          × (touches vs ≡ touch_bytes touch.p1 ++ touch_bytes touch.p2))
      × (next.last_report_counter % 64 ≡ (hid.last_report_counter % 64 + 1) % 64)
unfolding get_input_report
input_report-touches s touch hid buf h t1 t2 len =
    let e = host_values_lem s touch hid.last_report_counter h t1 t2 in
    rw (len, e.0, e.1) (refl, refl, seen s touch hid.last_report_counter, omega arith)
