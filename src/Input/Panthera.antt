-- ===== src/Input/Panthera.antt =====
-- src/input/touchpad/panthera.cpp: polling the touchpad. What the I2C bus answers to a read is an argument, `none`
-- for an error.
pub mod Polls
mod Tests
use passinglink.Common.{
  ℕ, zero, suc, ◌+◌, ◌-◌, ◌*◌, ◌/◌, ◌%◌, ◌<◌, ◌≤◌, Bool, true, false, not, ◌&&◌, Option, none, some,
  List, [], ◌∷◌, ltb, leb, ◌==◌, if◌then◌else◌, Bool-cases, inl, inr, ◌≡◌, refl, ap, ap₂, subst,
  sym, ◌∙◌, arith,
}
use passinglink.Input.Types.{TouchpadXy, TouchpadData}
use passinglink.Input.Touchpad.{set_x, set_y, x_of, y_of, x_of-set_x}

-- `TouchpadXYFormat`: fields of four bits.
pub record TouchpadXyFormat : Type 0 where
  pub xh : ℕ
  pub yh : ℕ
  pub xl : ℕ
  pub xm : ℕ
  pub yl : ℕ
  pub ym : ℕ

-- `TouchpadOutput`, without the bytes that are not known.
pub record TouchpadOutput : Type 0 where
  pub touchpoints : ℕ
  pub p1 : TouchpadXyFormat
  pub p2 : TouchpadXyFormat

-- The statics of panthera.cpp, and `touchpad_data`.
pub record Touchpad : Type 0 where
  pub succeeded_once : Bool
  pub disabled : Bool
  pub attempts : ℕ
  pub counter : ℕ
  pub touchpad_data : TouchpadData

abbrev pub lift : TouchpadXy → TouchpadXy
lift p = record p { unpressed = 1 }

-- A read that failed.
unfoldable pub read_failed : Touchpad → Touchpad
read_failed s =
    if not s.succeeded_once
    then record s {
      attempts = (s.attempts + 1) % 256;
      disabled = if ltb 128 s.attempts then true else s.disabled;
    }
    else s

unfoldable pub touch_x : TouchpadXyFormat → ℕ
touch_x p = p.xh * 256 + p.xm * 16 + p.xl

unfoldable pub touch_y : TouchpadXyFormat → ℕ
touch_y p = p.yh * 256 + p.ym * 16 + p.yl

-- A finger on the pad: the counter goes on when there was none.
unfoldable pub press : TouchpadXyFormat → TouchpadXy → TouchpadXy
press at p =
    let begun =
      if p.unpressed == 0 then p else record p { counter = (p.counter + 1) % 128; unpressed = 0 } in
    set_y (touch_y at) (set_x (touch_x at) begun)

unfoldable pub read_done : TouchpadOutput → Touchpad → Touchpad
read_done input s = record s {
  touchpad_data = record s.touchpad_data {
    p1 =
        if leb 1 input.touchpoints
        then press input.p1 s.touchpad_data.p1
        else lift s.touchpad_data.p1;
  };
}

unfoldable pub input_touchpad_poll : Option TouchpadOutput → Touchpad → Touchpad
input_touchpad_poll read s =
    if s.disabled
    then s
    else if (s.counter + 1) % 256 == 8
    then (elim read [
      | none ↦ read_failed (record s { counter = 0 })
      | some input ↦ read_done input (record s { counter = 0 })
    ])
    else record s { counter = (s.counter + 1) % 256 }

-- `input_touchpad_init`, without its calls to the device.
unfoldable pub input_touchpad_init : Touchpad → Touchpad
input_touchpad_init s = record s {
  touchpad_data = record { p1 = lift s.touchpad_data.p1; p2 = lift s.touchpad_data.p2 };
}
