-- ===== src/Led.antt =====
-- src/output/led.h and led.cpp: LEDs that are set, and that flash by a delayed work item.
pub mod Flash
pub mod Set
mod Tests
use passinglink.Common.{
  ℕ, ◌+◌, ◌-◌, ◌%◌, ◌^◌, Bool, true, false, not, ◌&&◌, Option, none, some, List, [], ◌∷◌, ltb, ◌==◌,
  if◌then◌else◌, zero, suc,
}

pub data Led : Type 0 where
  front p1 p2 p3 p4 : Led

-- `LedState`, with the level of its pin, and the delay with which its work item is queued.
pub record LedState : Type 0 where
  pub has_device : Bool  -- led_device
  pub counter : ℕ  -- uint32_t
  pub duration_ticks : ℕ  -- uint32_t
  pub interval_ticks : ℕ  -- uint32_t
  pub initialized : Bool
  pub on : Bool
  pub flashing : Bool
  pub lit : Bool
  pub queued : Option ℕ

abbrev pub pin_set : Bool → LedState → LedState
pin_set value s = if s.has_device then record s { lit = value } else s

abbrev pub pin_toggle : LedState → LedState
pin_toggle s = if s.has_device then record s { lit = not s.lit } else s

abbrev pub led_schedule_update : LedState → LedState
led_schedule_update s = if s.initialized then record s { queued = some s.interval_ticks } else s

unfoldable pub led_update : LedState → LedState
led_update s =
    if s.flashing
    then (if ltb s.duration_ticks s.interval_ticks
        then record (pin_set s.on s) { interval_ticks = 0; duration_ticks = 0; flashing = false }
        else led_schedule_update
            (record (pin_toggle s) { duration_ticks = s.duration_ticks - s.interval_ticks }))
    else pin_set s.on s

-- The LED's own part of `led_set`: the counter that is returned, and the new state.
unfoldable pub set_state : Bool → Option ℕ → LedState → ℕ × LedState
unfolding led_update
set_state value none s =
    let next = (s.counter + 1) % 2 ^ 32 in
    let told = record s { on = value } in
    (next, record (if s.flashing then told else led_update told) { counter = next })
set_state value (some expected) s =
    if expected == s.counter
    then (let told = record s { on = value } in
        (expected, if s.flashing then told else led_update told))
    else (s.counter, s)

abbrev pub Leds : Type 0
Leds = Led → LedState

abbrev pub led_index : Led → ℕ
led_index Led.front = 0
led_index Led.p1 = 1
led_index Led.p2 = 2
led_index Led.p3 = 3
led_index Led.p4 = 4

-- `led_states[led] = s`
abbrev pub put : Led → LedState → Leds → Leds
put led s leds l = if led_index led == led_index l then s else leds l

unfoldable pub led_set : Led → Bool → Option ℕ → Leds → ℕ × Leds
led_set led value expected leds =
    let (counter, s) = set_state value expected (leds led) in (counter, put led s leds)

unfoldable pub led_on : Led → Option ℕ → Leds → ℕ × Leds
unfolding led_set
led_on led expected leds = led_set led true expected leds

unfoldable pub led_off : Led → Option ℕ → Leds → ℕ × Leds
unfolding led_set
led_off led expected leds = led_set led false expected leds

-- The durations are in ticks: the arguments of `k_ms_to_ticks_ceil32` are its results here.
unfoldable pub flash_state : ℕ → ℕ → LedState → LedState
flash_state duration interval s =
    led_schedule_update
      (record s { flashing = true; duration_ticks = duration; interval_ticks = interval })

unfoldable pub led_flash : Led → ℕ → ℕ → Leds → Leds
unfolding flash_state
led_flash led duration interval leds = put led (flash_state duration interval (leds led)) leds

-- The kernel takes the queued work item, and calls `led_update`.
unfoldable pub run_work : LedState → LedState
run_work s = elim s.queued [ none ↦ s | some delay ↦ led_update (record s { queued = none }) ]

unfoldable pub run_works : ℕ → LedState → LedState
unfolding run_work
run_works zero s = s
run_works (suc n) s = run_works n (run_work s)
