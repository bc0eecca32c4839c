-- ===== src/Usb/Probe.antt =====
-- src/output/usb/usb.cpp and probe_type.h: the drivers are tried one after the other, until one reports
-- that the host talks to it. `none` stands for a null pointer or an empty `optional` that is read.
pub mod Order
use passinglink.Common.{
  Bool, true, false, not, ◌&&◌, Option, none, some, List, [], ◌∷◌, ◌++◌, if◌then◌else◌,
}
use passinglink.Led.{Led}

pub data ProbeType : Type 0 where
  nx ps3 ps4 : ProbeType

-- The options of the build: the drivers that it has, those that are probed besides the PlayStation 4, and
-- REBOOT_PROBE; `mode_switch` tells whether the board has the pin `mode_ps3`.
pub record ProbeOptions : Type 0 where
  pub has_switch : Bool
  pub has_ps3 : Bool
  pub has_ps4 : Bool
  pub switch_probe : Bool
  pub ps3_probe : Bool
  pub reboot_probe : Bool
  pub mode_switch : Bool

-- The pins that `usb_probe` reads.
pub record ProbePins : Type 0 where
  pub mode_ps3 : Bool
  pub button_west : Bool
  pub button_north : Bool
  pub button_r1 : Bool

-- Calls to the LEDs, the display and the USB stack.
pub data ProbeEffect : Type 0 where
  led_off led_undo led_on : Led → ProbeEffect
  led_flash : Led → ProbeEffect
  display_probe : Bool → ProbeType → ProbeEffect
  hid_uninit : ProbeEffect

-- The statics; `boot_probe` survives a reboot. `running` is the driver of `usb_hid_init`, `check_queued` the
-- delayed work, `rebooting` tells that the board is restarting.
pub record Probing : Type 0 where
  pub current_probe : Option ProbeType
  pub boot_probe : Option ProbeType
  pub running : Option ProbeType
  pub check_queued : Bool
  pub rebooting : Bool
  pub effects : List ProbeEffect

unfoldable pub probe_type_first : ProbeOptions → Option ProbeType
probe_type_first o =
    if o.switch_probe
    then some nx
    else if o.ps3_probe
    then some ps3
    else if o.has_ps4
    then some ps4
    else none

unfoldable pub probe_type_next : ProbeOptions → ProbeType → Option ProbeType
probe_type_next o nx = if o.ps3_probe then some ps3 else if o.has_ps4 then some ps4 else none
probe_type_next o ps3 = if o.has_ps4 then some ps4 else none
probe_type_next o ps4 = none

abbrev pub probe_type_led : ProbeType → Led
probe_type_led nx = Led.p1
probe_type_led ps3 = Led.p2
probe_type_led ps4 = Led.p3

-- `ProbeTypeHid` is not null.
unfoldable pub probe_type_hid : ProbeOptions → ProbeType → Bool
probe_type_hid o nx = o.has_switch
probe_type_hid o ps3 = o.has_ps3
probe_type_hid o ps4 = o.has_ps4

start_driver : ProbeOptions → ProbeType → Probing → Option Probing
start_driver o p s =
    if probe_type_hid o p
    then some (record s {
      current_probe = some p;
      running = some p;
      check_queued = true;
      effects =
          s.effects
          ++ led_off Led.p1
            ∷ led_off Led.p2
            ∷ led_off Led.p3
            ∷ led_off Led.p4
            ∷ led_on (probe_type_led p)
            ∷ [];
    })
    else none

unfoldable pub usb_probe_start : ProbeOptions → Probing → Option Probing
unfolding start_driver
usb_probe_start o s = elim s.current_probe [
  | some p ↦ start_driver o p s
  | none ↦ elim (probe_type_first o) [
    | none ↦ some s
    | some p ↦ start_driver o p (record s { effects = s.effects ++ display_probe true p ∷ [] })
  ]
]

abbrev pub use_driver : ProbeType → Probing → Probing
use_driver p s = record s { running = some p; effects = s.effects ++ display_probe false p ∷ [] }

-- The driver that the mode switch or a held button asks for.
unfoldable pub asked_driver : ProbeOptions → ProbePins → Option ProbeType
asked_driver o pins =
    if o.mode_switch && (o.has_ps4 && not pins.mode_ps3)
    then some ps4
    else if o.has_switch && pins.button_west
    then some nx
    else if o.has_ps3 && pins.button_north
    then some ps3
    else if o.has_ps4 && pins.button_r1
    then some ps4
    else none

-- `usb_probe`; `pins` is `none` where they cannot be read.
unfoldable pub usb_probe : ProbeOptions → Option ProbePins → Probing → Option Probing
usb_probe o pins s = elim (if o.reboot_probe then s.boot_probe else none) [
  | some p ↦ usb_probe_start o (record s { current_probe = some p })
  | none ↦ elim pins [
    | none ↦ usb_probe_start o (record s { current_probe = none })
    | some read ↦ elim (asked_driver o read) [
      | some p ↦ some (use_driver p s)
      | none ↦ usb_probe_start o (record s { current_probe = none })
    ]
  ]
]

unfoldable pub usb_probe_selected : ProbeOptions → ProbeType → Probing → Probing
usb_probe_selected o p s = record s {
  boot_probe = if o.reboot_probe then none else s.boot_probe;
  effects =
      s.effects
      ++ led_undo (probe_type_led p)
        ∷ led_flash Led.p1
        ∷ led_flash Led.p2
        ∷ led_flash Led.p3
        ∷ led_flash Led.p4
        ∷ display_probe false p
        ∷ [];
}

-- `usb_probe_check`, which the kernel runs once for each submission; `result` is what `ProbeResult` gives.
unfoldable pub usb_probe_check : ProbeOptions → (ProbeType → Bool) → Probing → Option Probing
usb_probe_check o result s = elim s.current_probe [
  | none ↦ none
  | some p ↦
      let taken = record s { check_queued = false } in
      if result p then some (usb_probe_selected o p taken) else elim (probe_type_next o p) [
        | none ↦ some (usb_probe_selected o p taken)
        | some q ↦
            if o.reboot_probe
            then some (record taken { boot_probe = some q; rebooting = true })
            else usb_probe_start o (record taken {
              current_probe = some q;
              running = none;
              effects = taken.effects ++ hid_uninit ∷ [];
            })
      ]
]

-- A restart of the board: only `boot_probe` is kept, and `usb_init` calls `usb_probe`.
unfoldable pub restart : ProbeOptions → Option ProbePins → Probing → Option Probing
restart o pins s = usb_probe o pins (record {
  current_probe = none;
  boot_probe = s.boot_probe;
  running = none;
  check_queued = false;
  rebooting = false;
  effects = [];
})
