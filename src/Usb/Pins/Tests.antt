-- ===== src/Usb/Pins/Tests.antt =====
-- A button on a pin, read by the console.
use passinglink.Common.{true, false, ◌==◌, some, [], take, replicate, ◌≡◌, refl}
use passinglink.Socd.{SocdType}
use passinglink.Usb.Report.{host_values, view_of}
use passinglink.Usb.Nx.{get_input_report, report_descriptor, host_view, nx_buttons}
use passinglink.Usb.Pins.{pins-host_view}
use passinglink.Input.Types.{
  InputState, OutputMode, Board, Input, RawInputState, Gpio, button_south, index, TouchpadXy,
}
use passinglink.Input.Profile.{default_profile, active_profile}
use passinglink.Input.Parse.{input_parse}
use passinglink.Input.Taken.{ShownBy}

abbrev board : Board
board = record {
  available = λ _. true;
  has_display = true;
  is_microdash = false;
  reads_mode_lock = false;
  transition_time = 50;
  menu_hold_time = 20000;
}

abbrev untouched : TouchpadXy
untouched = record { counter = 0; unpressed = 1; data_0 = 0; data_1 = 0; data_2 = 0 }

abbrev start : Input
start = record {
  button_history = λ _. record { state = false; tick = 0 };
  output_mode = OutputMode.dpad;
  input_locked = false;
  input_lock_tick = 0;
  active_profile_idx = 0;
  socd_type_x = SocdType.neutral;
  socd_type_y = SocdType.negative;
  menu_opened = false;
  touchpad_data = record { p1 = untouched; p2 = untouched };
  effects = [];
}

-- Only the button of the index is down.
abbrev only : Gpio → RawInputState
only g h = index g == index h

pins-host_view_example :
    (r : Input × InputState) × (input_parse board (only button_south) 90 start ≡ some r)
    × ShownBy board default_profile (only button_south) 90 start r.1
    × (host_view (
          host_values 0 report_descriptor
            (take 8 (get_input_report (some r.1) 0x01 (replicate 64 0)).buf))
        ≡ view_of nx_buttons r.1)
pins-host_view_example =
    pins-host_view board (only button_south) 90 start default_profile (replicate 64 0) refl
      (unfold active_profile in refl) refl
