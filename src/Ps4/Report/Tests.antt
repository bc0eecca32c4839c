-- ===== src/Ps4/Report/Tests.antt =====
-- The reports of the PlayStation 4 at concrete inputs.
use passinglink.Common.{
  ℕ, ◌+◌, ◌%◌, Bool, true, false, some, List, [], ◌∷◌, ◌++◌, ◌≡◌, refl, arith, take, drop,
  replicate,
}
use passinglink.Usb.Report.{Reply, host_values, view_of}
use passinglink.Input.Types.{StickState, Button, InputState, TouchpadXy, TouchpadData}
use passinglink.Ps4.Auth.{Ps4Key, Auth, sending_signature}
use passinglink.Ps4.Auth.Chunks.{IsKey, advanced}
use passinglink.Ps4.Auth.Machine.{initial}
use passinglink.Ps4.Auth.Total.{Sized}
use passinglink.Ps4.Report.{Ps4Hid, get_input_report, check_crc, get_feature_report, set_report}
use passinglink.Ps4.Report.Layout.{report_descriptor}
use passinglink.Ps4.Report.Reads.{
  input_report-touches, host_view, ps4_buttons, report_counter, touches, touch_bytes,
}
use passinglink.Ps4.Report.Features.{set_report-Sized, next_bytes, chunk_report-check_crc}
use passinglink.Usb.Report.{ReportType}

abbrev touched : TouchpadXy
touched = record { counter = 5; unpressed = 0; data_0 = 1; data_1 = 2; data_2 = 3 }

abbrev pressed : Button → Bool
pressed Button.north = true
pressed Button.touchpad = true
pressed _ = false

abbrev points : TouchpadData
points = record { p1 = touched; p2 = touched }

abbrev sample : InputState
sample = record {
  left_stick_x = 0;
  left_stick_y = 255;
  right_stick_x = 128;
  right_stick_y = 17;
  dpad = StickState.neutral;
  button = pressed;
  touchpad_data = points;
}

abbrev buffer : List ℕ
buffer = replicate 64 0xaa

-- A stand-in for the CRC: the sum of the bytes.
abbrev sum : List ℕ → ℕ
sum [] = 0
sum (b ∷ bs) = b + sum bs

abbrev key : Ps4Key
key = record {
  serial = replicate 16 1;
  rsa_n = some (replicate 256 2);
  rsa_e = some (replicate 256 3);
  signature = replicate 256 4;
}

abbrev sending : Auth
sending = record initial {
  auth_state = record { type = sending_signature; nonce_id = 9; next_part = 0; padding = 0 };
  nonce_signature = replicate 256 7;
}

abbrev hid : Ps4Hid
hid = record { last_report_counter = 63; auth = sending }

abbrev packet : List ℕ
packet = 0xf0 ∷ 9 ∷ 4 ∷ replicate 61 0

input_report-touches_example :
    let (reply, next) = get_input_report (some sample) points 0x01 buffer hid in
    let vs = host_values 1 report_descriptor (drop 1 reply.buf) in
    (reply.size ≡ some 64)
    × (take 1 reply.buf ≡ 1 ∷ [])
    × ((host_view vs ≡ view_of ps4_buttons sample)
        × (report_counter vs ≡ 63)
        × (touches vs ≡ touch_bytes touched ++ touch_bytes touched))
    × (next.last_report_counter % 64 ≡ 0)
input_report-touches_example =
    input_report-touches sample points hid buffer
      (omega arith, omega arith, omega arith, omega arith)
      (omega arith, omega arith, omega arith, omega arith, omega arith)
      (omega arith, omega arith, omega arith, omega arith, omega arith) refl

set_report-Sized_example :
    Sized (set_report sum true (some key) (some ReportType.feature) 0xf0 packet initial)
set_report-Sized_example =
    set_report-Sized sum true (some key) (some ReportType.feature) 0xf0 packet initial refl

key-IsKey : IsKey key (replicate 256 2) (replicate 256 3)
key-IsKey = record {
  serial_sized = refl;
  rsa_n_bytes = refl;
  rsa_n_sized = refl;
  rsa_e_bytes = refl;
  rsa_e_sized = refl;
  signature_sized = refl;
}

chunk_report-check_crc_example :
    (reply : Reply) × (get_feature_report sum true key 0xf1 buffer hid
      ≡ some (reply, record hid { auth = advanced sending }))
    × (reply.size ≡ some 64)
    × (check_crc sum reply.buf ≡ true)
    × (take 60 reply.buf
        ≡ 0xf1 ∷ 9 ∷ 0 ∷ 0 ∷ next_bytes key (replicate 256 2) (replicate 256 3) sending)
chunk_report-check_crc_example =
    chunk_report-check_crc sum key (replicate 256 2) (replicate 256 3) buffer hid key-IsKey refl
      (omega arith) refl refl
