-- ===== src/Usb/Tests.antt =====
-- The drivers of the Switch and of the PlayStation 3 at concrete inputs.
use passinglink.Common.{
  ℕ, Bool, true, false, Option, none, some, List, [], ◌∷◌, ◌≡◌, refl, arith, length, take,
  replicate, length-replicate,
}
use passinglink.Common.{◌++◌}
use passinglink.Usb.Status.{
  StatusCode, suspend, resume, UsbStatus, statuses, reboots, resume-reboots,
}
use passinglink.Usb.Write.{Writer, WriteEvent, int_in_ready, clear_halt, work, on_events}
use passinglink.Usb.Write.Alive.{is_alive, events_alive}
use passinglink.Usb.Report.{Reply, host_values, view_of, report_buttons}
use passinglink.Usb.Nx.{get_input_report as nx_report}
use passinglink.Usb.Ps3.{
  get_input_report as ps3_report, report_descriptor as ps3_descriptor, interrupt_out,
}
use passinglink.Usb.Ps3.Reads.{input_report-sensors, sensors, host_view as ps3_view}
use passinglink.Usb.Ps3.Players.{interrupt_out-players}
use passinglink.Led.{Led, LedState}
use passinglink.Usb.Probe.{ProbeType, ProbeOptions, ProbePins, asked_driver}
use passinglink.Usb.Probe.Order.{probing, Settled, probing-Settled}
use passinglink.Provisioning.{FlashResults, provisioning_init}
use passinglink.Usb.Hid.{PlState, PlOptions, set_report_pl}
use passinglink.Usb.Hid.Upload.{send_chunks, flat}
use passinglink.Usb.Hid.Provisioned.{provisioning_init-upload}
use passinglink.Usb.Fields.{of_bytes}
use passinglink.Usb.Report.{ReportType}
use passinglink.Input.Types.{StickState, Button, InputState, TouchpadXy}

abbrev untouched : TouchpadXy
untouched = record { counter = 0; unpressed = 1; data_0 = 0; data_1 = 0; data_2 = 0 }

abbrev pressed : Button → Bool
pressed Button.south = true
pressed Button.r1 = true
pressed Button.home = true
pressed _ = false

abbrev sample : InputState
sample = record {
  left_stick_x = 0;
  left_stick_y = 255;
  right_stick_x = 128;
  right_stick_y = 17;
  dpad = StickState.south_east;
  button = pressed;
  touchpad_data = record { p1 = untouched; p2 = untouched };
}

abbrev buffer : List ℕ
buffer = replicate 64 0xaa

abbrev led_on_pin : LedState
led_on_pin = record {
  has_device = true;
  counter = 0;
  duration_ticks = 0;
  interval_ticks = 0;
  initialized = true;
  on = false;
  flashing = false;
  lit = false;
  queued = none;
}

abbrev message : List ℕ
message = 0 ∷ 0 ∷ 5 ∷ 0 ∷ 0 ∷ 0 ∷ 0 ∷ 0 ∷ []

input_report-sensors_example :
    let reply = ps3_report (some sample) 0x01 buffer in
    let seen_values = host_values 0 ps3_descriptor (take 27 reply.buf) in
    (reply.size ≡ some 27)
    × (length reply.buf ≡ 64)
    × ((ps3_view seen_values ≡ view_of report_buttons sample)
        × (sensors seen_values ≡ replicate 4 512))
input_report-sensors_example =
    input_report-sensors sample buffer (omega arith, omega arith, omega arith, omega arith) refl

interrupt_out-players_example :
    (((interrupt_out message (record { controller_number = 0xff }, λ l. led_on_pin)).1) Led.p3).lit
    ≡ true
interrupt_out-players_example =
    interrupt_out-players message (record { controller_number = 0xff }) (λ l. led_on_pin) Led.p3
      refl (ground arith) (refl, refl)

abbrev options : PlOptions
options = record { runtime_provisioning = true; warm_boot = false }

abbrev working_flash : FlashResults
working_flash = record { opened = true; erased = true; written = true }

abbrev fresh : PlState
fresh = record {
  provisioning = record {
    provisioning_buffer = replicate 4096 0;
    provisioning_length = 0;
    flash_area = [];
  };
  restart = none;
}

-- The magic number, a board name of one letter, and nothing else.
abbrev header_chunk : List ℕ
header_chunk = 0x4c ∷ 0x21 ∷ 0x09 ∷ 0x12 ∷ b'B' ∷ replicate 57 0

abbrev three_chunks : List (List ℕ)
three_chunks = header_chunk ∷ replicate 62 1 ∷ replicate 62 2 ∷ []

provisioning_init-upload_example :
    (t u : PlState) × (send_chunks options working_flash 0 three_chunks fresh ≡ some t)
    × (set_report_pl options working_flash
          (some ReportType.feature)
          0x44
          (0x44 ∷ 0x4c ∷ 0x21 ∷ 0x09 ∷ 0x12 ∷ [])
          t
        ≡ some (true, u))
    × (u.provisioning.flash_area ≡ flat three_chunks)
    × (provisioning_init true (u.provisioning.flash_area ++ 0xff ∷ []) ≡ true)
unfolding of_bytes
provisioning_init-upload_example =
    provisioning_init-upload options working_flash three_chunks fresh (0xff ∷ []) refl refl refl
      refl (length-replicate {A = ℕ} 4096 0) refl (refl, (refl, (refl, tt))) (omega arith)
      (omega arith)

abbrev all_drivers : ProbeOptions
all_drivers = record {
  has_switch = true;
  has_ps3 = true;
  has_ps4 = true;
  switch_probe = true;
  ps3_probe = true;
  reboot_probe = true;
  mode_switch = false;
}

abbrev pins_with : Bool → ProbePins
pins_with north = record {
  mode_ps3 = true;
  button_west = false;
  button_north = north;
  button_r1 = false;
}

-- A host that talks to the driver of the PlayStation 3 only.
abbrev only_ps3 : ProbeType → Bool
only_ps3 ProbeType.ps3 = true
only_ps3 _ = false

probing-Settled_example :
    Settled (some ProbeType.ps3) (probing 5 all_drivers only_ps3 (some (pins_with false)))
probing-Settled_example =
    probing-Settled all_drivers only_ps3 (some (pins_with false)) (refl, refl)
      (unfold asked_driver in refl)

-- The driver of the Switch at one input; it has no state.
abbrev nx_driver : List ℕ → Unit {0} → Option (Reply × Unit {0})
nx_driver buf d = some (nx_report (some sample) 0x01 buf, d)

abbrev waiting : Writer (Unit {0})
waiting = record {
  driver = tt;
  metrics = record { reports = 0; average = none; input_tick = none; latencies = [] };
  report_delay_ticks = 22;
  scheduled = some 100;
  in_flight = none;
  touchpad_polls = 0;
}

abbrev some_events : List (ℕ × WriteEvent)
some_events =
    (101, work none) ∷ (130, work (some 8)) ∷ (140, int_in_ready) ∷ (150, clear_halt 0x81) ∷ []

events_alive_example :
    (t : Writer (Unit {0})) × (on_events 31 nx_driver some_events waiting ≡ some t)
    × (is_alive t ≡ true)
unfolding nx_report
events_alive_example =
    events_alive 31 nx_driver some_events waiting (λ d. (8, _, d, refl)) (unfold is_alive in refl)

-- Nothing happened before; the host clears a halt between a suspension and a resumption that is two seconds later.
abbrev quiet_start : UsbStatus
quiet_start = record { suspend_timestamp = none; calls = [] }

abbrev halt_cleared : List (ℕ × Bool × StatusCode)
halt_cleared = (600, false, StatusCode.clear_halt 0x81) ∷ []

resume-reboots_example :
    let cycle = (500, false, suspend) ∷ halt_cleared ++ (2500, false, resume) ∷ [] in
    let t = statuses true cycle quiet_start in (reboots t.calls ≡ 1) × (t.suspend_timestamp ≡ none)
resume-reboots_example = resume-reboots true false false 500 2500 halt_cleared quiet_start refl
