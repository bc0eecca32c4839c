-- ===== src/Usb/Probe/Order.antt =====
-- Which driver the probing of src/output/usb/usb.cpp settles on.
use passinglink.Common.{
  ℕ, zero, suc, Bool, true, false, not, ◌||◌, Option, none, some, List, [], ◌∷◌, ◌++◌,
  if◌then◌else◌, ◌≡◌, refl, arith,
}
use passinglink.Usb.Probe.{
  ProbeType, nx, ps3, ps4, ProbeOptions, ProbePins, Probing, probe_type_first, probe_type_next,
  probe_type_hid, usb_probe, usb_probe_start, usb_probe_check, usb_probe_selected, restart,
  start_driver, asked_driver, use_driver,
}

-- What happens next to a board while it probes: a restart, or the queued check.
unfoldable pub advance :
    ProbeOptions → (ProbeType → Bool) → Option ProbePins → Probing → Option Probing
advance o result pins s =
    if s.rebooting
    then restart o pins s
    else if s.check_queued
    then usb_probe_check o result s
    else some s

unfoldable pub advances :
    ℕ → ProbeOptions → (ProbeType → Bool) → Option ProbePins → Probing → Option Probing
advances zero o result pins s = some s
advances (suc n) o result pins s = elim (advance o result pins s) [
  | none ↦ none
  | some t ↦ advances n o result pins t
]

-- A driver that is tried is built.
abbrev pub IsBuildable : ProbeOptions → Type 0
IsBuildable o =
    ((not o.switch_probe || o.has_switch) ≡ true) × ((not o.ps3_probe || o.has_ps3) ≡ true)

-- The drivers that are tried, in order.
abbrev pub tried : ProbeOptions → List ProbeType
tried o =
    (if o.switch_probe then nx ∷ [] else [])
    ++ ((if o.ps3_probe then ps3 ∷ [] else []) ++ (if o.has_ps4 then ps4 ∷ [] else []))

-- The first that succeeds, or the last.
abbrev pub first_success : (ProbeType → Bool) → List ProbeType → Option ProbeType
first_success result [] = none
first_success result (p ∷ []) = some p
first_success result (p ∷ q ∷ ps) = if result p then some p else first_success result (q ∷ ps)

abbrev pub Settled : Option ProbeType → Option Probing → Type 0
Settled p none = ⊥
Settled p (some s) =
    (s.running ≡ p) × (s.check_queued ≡ false) × (s.rebooting ≡ false) × (s.boot_probe ≡ none)

-- A board whose memory holds no driver to try.
abbrev pub powered_off : Probing
powered_off = record {
  current_probe = none;
  boot_probe = none;
  running = none;
  check_queued = false;
  rebooting = false;
  effects = [];
}

-- From power-on: `usb_probe`, and n further events.
unfoldable pub probing : ℕ → ProbeOptions → (ProbeType → Bool) → Option ProbePins → Option Probing
probing n o result pins = elim (restart o pins powered_off) [
  | none ↦ none
  | some s ↦ advances n o result pins s
]

-- The driver that the pins ask for, where they can be read.
abbrev pub asked : ProbeOptions → Option ProbePins → Option ProbeType
asked o none = none
asked o (some pins) = asked_driver o pins

-- Unless the pins ask for a driver, five events after power-on the probing has settled on the first driver
-- that reports success, or on the last one that is tried: with or without reboots no check is queued, no
-- restart is due, and no driver is left to be tried at the next boot.
pub probing-Settled :
    (o : ProbeOptions) (result : ProbeType → Bool) (pins : Option ProbePins)
    → IsBuildable o
    → asked o pins ≡ none
    → Settled (first_success result (tried o)) (probing 5 o result pins)
unfolding probing restart usb_probe usb_probe_start start_driver advances advance usb_probe_check
    usb_probe_selected probe_type_first probe_type_next probe_type_hid
probing-Settled o result none h e = ground arith
probing-Settled o result (some pins) h e = ground arith

advance_idle :
    (o : ProbeOptions) (result : ProbeType → Bool) (pins : Option ProbePins) (s : Probing)
    → s.rebooting ≡ false
    → s.check_queued ≡ false
    → advance o result pins s ≡ some s
unfolding advance
advance_idle o result pins s r c = ground arith

advances_idle :
    (n : ℕ) (o : ProbeOptions) (result : ProbeType → Bool) (pins : Option ProbePins) (s : Probing)
    → s.rebooting ≡ false
    → s.check_queued ≡ false
    → advances n o result pins s ≡ some s
unfolding advances
advances_idle zero o result pins s r c = refl
advances_idle (suc n) o result pins s r c =
    rw (advances, advance_idle o result pins s r c) (advances_idle n o result pins s r c)

restart_asked :
    (o : ProbeOptions) (pins : Option ProbePins) (p : ProbeType)
    → asked o pins ≡ some p
    → restart o pins powered_off ≡ some (use_driver p powered_off)
unfolding restart usb_probe
restart_asked o pins p e = ground arith

-- A driver that the pins ask for at power-on is used at once, and nothing is probed afterwards.
pub probing-asked :
    (n : ℕ) (o : ProbeOptions) (result : ProbeType → Bool) (pins : Option ProbePins) (p : ProbeType)
    → asked o pins ≡ some p
    → Settled (some p) (probing n o result pins)
unfolding probing
probing-asked n o result pins p e =
    rw
      (
        probing,
        restart_asked o pins p e,
        advances_idle n o result pins (use_driver p powered_off) refl refl,
      )
      (refl, refl, refl, refl)
