-- ===== src/Led/Flash.antt =====
-- How often `led_update` runs after `led_flash` (src/output/led.cpp).
use native.Mathlib.Nat.{mul-div-le, mul_comm, mod-lt, mod-add-div}
use passinglink.Common.{
  ℕ, zero, suc, ◌-◌, ◌*◌, ◌/◌, ◌<◌, ◌≤◌, Bool, true, false, not, none, some, ◌≡◌, refl, ap, arith,
  ◌∙◌,
}
use passinglink.Led.{LedState, run_work, run_works, led_update, flash_state}

abbrev pub toggled : ℕ → Bool → Bool
toggled zero b = b
toggled (suc n) b = toggled n (not b)

-- An LED that flashes: its work item is queued.
abbrev pub running : (counter duration interval : ℕ) (on lit : Bool) → LedState
running c d i on lit = record {
  has_device = true;
  counter = c;
  duration_ticks = d;
  interval_ticks = i;
  initialized = true;
  on = on;
  flashing = true;
  lit = lit;
  queued = some i;
}

-- An LED at rest after a flash.
abbrev pub finished : (counter : ℕ) (on : Bool) → LedState
finished c on = record {
  has_device = true;
  counter = c;
  duration_ticks = 0;
  interval_ticks = 0;
  initialized = true;
  on = on;
  flashing = false;
  lit = on;
  queued = none;
}

run-running_ge :
    (c d i : ℕ) (on lit : Bool)
    → i ≤ d
    → run_work (running c d i on lit) ≡ running c (d - i) i on (not lit)
unfolding run_work led_update
run-running_ge c d i on lit h = ground arith

run-running_lt :
    (c d i : ℕ) (on lit : Bool) → d < i → run_work (running c d i on lit) ≡ finished c on
unfolding run_work led_update
run-running_lt c d i on lit h = ground arith

toggles :
    (k c d i : ℕ) (on lit : Bool)
    → k * i ≤ d
    → run_works k (running c d i on lit) ≡ running c (d - k * i) i on (toggled k lit)
unfolding run_works
toggles zero c d i on lit h = ap (λ m. running c m i on lit) (omega arith)
toggles (suc k) c d i on lit h = rw (run-running_ge c d i on lit (omega arith)) (
    toggles k c (d - i) i on (not lit) (omega arith)
    ∙ ap (λ m. running c m i on (toggled k (not lit))) (omega arith))

run_works-suc : (n : ℕ) (s : LedState) → run_works (suc n) s ≡ run_work (run_works n s)
unfolding run_works
run_works-suc zero s = refl
run_works-suc (suc n) s = run_works-suc n (run_work s)

flash-running :
    (s : LedState) (d i : ℕ)
    → s.has_device ≡ true
    → s.initialized ≡ true
    → flash_state d i s ≡ running s.counter d i s.on s.lit
unfolding flash_state
flash-running s d i h k = ground arith

whole_le : (d i : ℕ) → d / i * i ≤ d
whole_le d i = omega (arith, mul-div-le d i, mul_comm i (d / i))

rest_lt : (d i : ℕ) → 0 < i → d - d / i * i < i
rest_lt d i h = omega (arith, mod-lt d h, mod-add-div d i, mul_comm i (d / i))

-- After k intervals within the duration of a flash of an LED that has a pin, the pin has been toggled k
-- times; the run of the work item after the last whole interval ends the flash, with the pin as the LED
-- was set last, and queues nothing.
pub flash_ends :
    (s : LedState) (duration interval k : ℕ)
    → s.has_device ≡ true
    → s.initialized ≡ true
    → 0 < interval
    → k * interval ≤ duration
    → let begun = flash_state duration interval s in
      let ended = run_works (suc (duration / interval)) begun in
      ((run_works k begun).lit ≡ toggled k s.lit)
      × (ended.flashing ≡ false)
      × (ended.lit ≡ s.on)
      × (ended.queued ≡ none)
flash_ends s d i k h j pos_i le =
    rw
      (
        flash-running s d i h j,
        run_works-suc,
        toggles (d / i) s.counter d i s.on s.lit (whole_le d i),
        run-running_lt s.counter (d - d / i * i) i s.on (toggled (d / i) s.lit) (rest_lt d i pos_i),
      )
      (ap (λ r. r.lit) (toggles k s.counter d i s.on s.lit le), refl, refl, refl)
