-- ===== src/Input/Pins.antt =====
-- src/input/input.cpp: reading the pins. A device of Zephyr is a number; what the device tree and the driver of the
-- ports give is the record `PinTree`.
pub mod Slots
pub mod Found
pub mod Read
mod Tests
use passinglink.Common.{
  ℕ, zero, suc, ◌+◌, ◌-◌, ◌/◌, ◌%◌, ◌^◌, Bool, true, false, not, ◌&&◌, Option, none, some, List, [],
  ◌∷◌, ◌++◌, ltb, ◌==◌, length, get_or, if◌then◌else◌,
}
use passinglink.Input.Types.{Gpio, index, gpios, RawInputState, Board, Input, InputState}
use passinglink.Input.Queue.{Queue, input_queue_get_state}
use passinglink.Input.Panthera.{Touchpad, input_touchpad_init}
use passinglink.Input.Parse.{input_parse}

-- `binding` is `device_get_binding` for the port of an entry, `configured` whether `gpio_pin_configure` succeeds,
-- `read` is `gpio_port_get_raw`, with `none` for an error.
pub record PinTree : Type 0 where
  pub binding : Gpio → Option ℕ
  pub pin : Gpio → ℕ
  pub active_low : Gpio → Bool
  pub configured : Gpio → Bool
  pub read : ℕ → Option ℕ

abbrev pub gpio_port_count : ℕ
gpio_port_count = 4

-- `devices` are the slots of `gpio_devices` that are filled, `gpio_device_count` of them; the others are null pointers,
-- which no device is.
pub record Ports : Type 0 where
  pub devices : List ℕ
  pub gpio_indices : ℕ → ℕ

-- The loop of `gpio_device_add`, from the slot i on.
unfoldable pub find_device : ℕ → List ℕ → ℕ → Option ℕ
find_device device [] i = none
find_device device (d ∷ ds) i =
    let rest = find_device device ds (i + 1) in if device == d then some i else rest

-- `none` where the code panics.
unfoldable pub gpio_device_add : ℕ → Ports → Option (ℕ × Ports)
gpio_device_add device s = elim (find_device device s.devices 0) [
  | some i ↦ some (i, s)
  | none ↦
      if length s.devices == gpio_port_count
      then none
      else some (length s.devices, record s { devices = s.devices ++ device ∷ [] })
]

abbrev pub set_index : ℕ → ℕ → Ports → Ports
set_index i offset s = record s { gpio_indices = λ j. if j == i then offset else s.gpio_indices j }

-- What the macro `PL_GPIO` of `input_gpio_init` does for an entry.
unfoldable pub init_gpio : Board → PinTree → Gpio → Ports → Option Ports
init_gpio b t g s =
    if b.available g
    then (elim (t.binding g) [
      | none ↦ none
      | some device ↦
          if t.configured g
          then (elim (gpio_device_add device s) [
            | none ↦ none
            | some added ↦ some (set_index (index g) added.0 added.1)
          ])
          else none
    ])
    else some s

unfoldable pub init_gpios : Board → PinTree → List Gpio → Ports → Option Ports
init_gpios b t [] s = some s
init_gpios b t (g ∷ gs) s = elim (init_gpio b t g s) [ none ↦ none | some r ↦ init_gpios b t gs r ]

unfoldable pub input_gpio_init : Board → PinTree → Ports → Option Ports
input_gpio_init b t s = init_gpios b t gpios s

-- The values of the ports, in the order of `gpio_devices`.
unfoldable pub port_values : PinTree → List ℕ → Option (List ℕ)
port_values t [] = some []
port_values t (d ∷ ds) = elim (t.read d) [
  | none ↦ none
  | some value ↦ elim (port_values t ds) [ none ↦ none | some rest ↦ some (value ∷ rest) ]
]

abbrev pub is_set : ℕ → ℕ → Bool
is_set value pin = value / 2 ^ pin % 2 == 1

-- The reading of an entry; `garbage` is what the array of the values holds behind them, and an entry that is not
-- available keeps what `out` has.
unfoldable pub gpio_value :
    Board → PinTree → Ports → (ℕ → ℕ) → List ℕ → RawInputState → RawInputState
gpio_value b t s garbage values out g =
    if b.available g
    then (let device_index = s.gpio_indices (index g) in
        let value = is_set (get_or values device_index (garbage device_index)) (t.pin g) in
        if t.active_low g then not value else value)
    else out g

-- Where the raw state comes from: CONFIG_PASSINGLINK_INPUT_NONE, CONFIG_PASSINGLINK_INPUT_EXTERNAL with its static
-- `input_state`, or the pins.
pub data Source : Type 0 where
  no_input : Source
  external : RawInputState → Source
  pins : PinTree → Ports → (ℕ → ℕ) → Source

-- The part of `input_get_raw_state` behind the queue. `none` where the code panics.
unfoldable pub source_state : Board → Source → RawInputState → Option RawInputState
source_state b no_input out = some (λ _. false)
source_state b (external input_state) out = some input_state
source_state b (pins t s garbage) out = elim (port_values t s.devices) [
  | none ↦ none
  | some values ↦ some (gpio_value b t s garbage values out)
]

unfoldable pub input_set_raw_state : RawInputState → Source → Source
input_set_raw_state given no_input = no_input
input_set_raw_state given (external input_state) = external given
input_set_raw_state given (pins t s garbage) = pins t s garbage

-- With CONFIG_PASSINGLINK_INPUT_QUEUE; the tick is that of `k_uptime_ticks`.
unfoldable pub input_get_raw_state :
    Board → ℕ → Source → Queue → RawInputState → Option (RawInputState × Queue)
input_get_raw_state b now source q out = elim (input_queue_get_state now q) [
  | none ↦ none
  | some played ↦ elim played.0 [
    | some state ↦ some (state, played.1)
    | none ↦ elim (source_state b source out) [ none ↦ none | some state ↦ some (state, played.1) ]
  ]
]

-- `raw_tick` and `tick` are the ticks at which the queue and `input_parse` read the clock.
unfoldable pub input_get_state :
    Board → ℕ → ℕ → Source → Queue → RawInputState → Input → Option ((Input × InputState) × Queue)
input_get_state b raw_tick tick source q out s =
    elim (input_get_raw_state b raw_tick source q out) [
      | none ↦ none
      | some raw ↦ elim (input_parse b raw.0 tick s) [ none ↦ none | some r ↦ some (r, raw.1) ]
    ]

-- `input_init`; `input_profile_init` does nothing.
unfoldable pub input_init : Board → PinTree → Ports × Touchpad → Option (Ports × Touchpad)
input_init b t (ports, touchpad) = elim (input_gpio_init b t ports) [
  | none ↦ none
  | some r ↦ some (r, input_touchpad_init touchpad)
]
