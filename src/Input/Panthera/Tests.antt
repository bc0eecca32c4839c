-- ===== src/Input/Panthera/Tests.antt =====
-- Runs of the polls of the touchpad.
use passinglink.Common.{true, false, none, some, ◌∷◌, ◌≡◌, refl, arith, replicate}
use passinglink.Input.Types.{TouchpadXy}
use passinglink.Input.Touchpad.{x_of, y_of}
use passinglink.Input.Panthera.{TouchpadOutput, Touchpad, touch_x, touch_y}
use passinglink.Input.Panthera.Polls.{polls, polls-x_of, rounds, rounds-failures}

-- A touch at (0x123, 0x456) on a pad that no finger was on.
abbrev touch : TouchpadOutput
touch = record {
  touchpoints = 1;
  p1 = record { xh = 1; yh = 4; xl = 3; xm = 2; yl = 6; ym = 5 };
  p2 = record { xh = 0; yh = 0; xl = 0; xm = 0; yl = 0; ym = 0 };
}

abbrev untouched : TouchpadXy
untouched = record { counter = 127; unpressed = 1; data_0 = 0; data_1 = 0; data_2 = 0 }

abbrev pad : Touchpad
pad = record {
  succeeded_once = false;
  disabled = false;
  attempts = 0;
  counter = 0;
  touchpad_data = record { p1 = untouched; p2 = untouched };
}

polls-x_of_example :
    let p = (polls 8 (some touch) pad).touchpad_data.p1 in
    (x_of p ≡ 0x123) × (y_of p ≡ 0x456) × (p.unpressed ≡ 0) × (p.counter ≡ 0)
unfolding touch_x touch_y
polls-x_of_example =
    polls-x_of touch pad refl refl (omega arith) (omega arith) (omega arith) (omega arith)

rounds-failures_example : (rounds (none ∷ some touch ∷ replicate 130 none) pad).disabled ≡ true
rounds-failures_example =
    rounds-failures (none ∷ some touch ∷ replicate 130 none) pad refl refl refl refl
