-- ===== src/Led/Tests.antt =====
-- The LEDs at concrete inputs.
use passinglink.Common.{◌/◌, suc, true, false, none, ◌≡◌, refl, arith}
use passinglink.Led.{LedState, flash_state, run_works}
use passinglink.Led.Flash.{flash_ends, toggled}

abbrev led_at_rest : LedState
led_at_rest = record {
  has_device = true;
  counter = 7;
  duration_ticks = 0;
  interval_ticks = 0;
  initialized = true;
  on = true;
  flashing = false;
  lit = true;
  queued = none;
}

flash_ends_example :
    let begun = flash_state 10 3 led_at_rest in
    let ended = run_works (suc (10 / 3)) begun in
    ((run_works 3 begun).lit ≡ toggled 3 true)
    × (ended.flashing ≡ false)
    × (ended.lit ≡ true)
    × (ended.queued ≡ none)
flash_ends_example = flash_ends led_at_rest 10 3 3 refl refl (omega arith) (omega arith)
