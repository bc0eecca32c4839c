-- ===== src/Shell.antt =====
-- src/shell.cpp: the shell commands for the input. Texts are without their null byte, and what the shell prints is left
-- out.
pub mod Names
mod Tests
use passinglink.Common.{
  ℕ, Bool, true, false, ◌||◌, ◌&&◌, Option, none, some, List, [], ◌∷◌, ltb, ◌==◌, length, take,
  drop, if◌then◌else◌,
}
use passinglink.Util.{codes}
use passinglink.Input.Types.{
  Gpio, stick_up, stick_down, stick_right, stick_left, button_north, button_east, button_south,
  button_west, button_l1, button_l2, button_l3, button_r1, button_r2, button_r3, button_start,
  button_select, button_home, button_touchpad, button_menu, button_w, button_thumb_left,
  button_thumb_right, mode_lock, mode_ps3, mode_ls, mode_rs, mode_dpad, index, gpios, RawInputState,
  Board,
}
use passinglink.Input.Queue.{
  Queue, input_queue_alloc, input_queue_append, input_queue_free, input_queue_set_active,
}
use passinglink.Input.Pins.{Source, external, input_set_raw_state, input_get_raw_state}
use passinglink.Gundam.{released, pressed, write}
use passinglink.Bt.Camera.{same_text}

-- `#name` for an entry of `PL_GPIOS`
unfoldable pub gpio_name : Gpio → List ℕ
gpio_name stick_up = codes "stick_up"
gpio_name stick_down = codes "stick_down"
gpio_name stick_right = codes "stick_right"
gpio_name stick_left = codes "stick_left"
gpio_name button_north = codes "button_north"
gpio_name button_east = codes "button_east"
gpio_name button_south = codes "button_south"
gpio_name button_west = codes "button_west"
gpio_name button_l1 = codes "button_l1"
gpio_name button_l2 = codes "button_l2"
gpio_name button_l3 = codes "button_l3"
gpio_name button_r1 = codes "button_r1"
gpio_name button_r2 = codes "button_r2"
gpio_name button_r3 = codes "button_r3"
gpio_name button_start = codes "button_start"
gpio_name button_select = codes "button_select"
gpio_name button_home = codes "button_home"
gpio_name button_touchpad = codes "button_touchpad"
gpio_name button_menu = codes "button_menu"
gpio_name button_w = codes "button_w"
gpio_name button_thumb_left = codes "button_thumb_left"
gpio_name button_thumb_right = codes "button_thumb_right"
gpio_name mode_lock = codes "mode_lock"
gpio_name mode_ps3 = codes "mode_ps3"
gpio_name mode_ls = codes "mode_ls"
gpio_name mode_rs = codes "mode_rs"
gpio_name mode_dpad = codes "mode_dpad"

abbrev pub starts_with : List ℕ → List ℕ → Bool
starts_with prefix name = same_text (take (length prefix) name) prefix

-- `none` is a null pointer.
unfoldable pub shorten : List ℕ → Option (List ℕ)
shorten name =
    if starts_with (codes "button_") name
    then some (drop 7 name)
    else if starts_with (codes "stick_") name
    then some (drop 6 name)
    else none

abbrev pub set_member : Gpio → Bool → RawInputState → RawInputState
set_member g value state h = if index h == index g then value else state h

-- The tests that the macro makes for the entries: what `parse_button` returns, and the state. `none` is a null pointer
-- that `strcmp` reads.
unfoldable pub parse_entries :
    List Gpio → Bool → List ℕ → RawInputState → Option (Bool × RawInputState)
parse_entries [] value arg state = some (false, state)
parse_entries (g ∷ gs) value arg state =
    let rest = parse_entries gs value arg state in
    if same_text arg (gpio_name g)
    then some (true, set_member g value state)
    else (elim (shorten (gpio_name g)) [
      | none ↦ none
      | some short ↦ if same_text arg short then some (true, set_member g value state) else rest
    ])

unfoldable pub parse_button : RawInputState → List ℕ → Option (Bool × RawInputState)
parse_button state [] = parse_entries gpios true [] state
parse_button state (c ∷ arg) =
    if c == b'+'
    then parse_entries gpios true arg state
    else if c == b'-'
    then parse_entries gpios false arg state
    else parse_entries gpios true (c ∷ arg) state

-- `cmd_input_clear` prints that it clears the input.
unfoldable pub cmd_input_clear : Source → Source
cmd_input_clear source = source

-- The loop over the arguments, as `parse_button`: whether all of them are known.
unfoldable pub parse_buttons : RawInputState → List (List ℕ) → Option (Bool × RawInputState)
parse_buttons state [] = some (true, state)
parse_buttons state (arg ∷ args) = elim (parse_button state arg) [
  | none ↦ none
  | some r ↦ if r.0 then parse_buttons r.1 args else some r
]

-- `args` are the arguments behind the name of the command. With an external input; `now` is the tick of the queue.
unfoldable pub cmd_input_modify :
    Board → ℕ → List (List ℕ) → Source → Queue → Option (Source × Queue)
cmd_input_modify b now args source q = elim (input_get_raw_state b now source q released) [
  | none ↦ none
  | some read ↦
      if length args == 0 then some (source, read.1) else (elim (parse_buttons read.0 args) [
        | none ↦ none
        | some r ↦ some ((if r.0 then input_set_raw_state r.1 source else source), read.1)
      ])
]

-- The delay is `K_USEC(33333)` in ticks. `none` is a list of nodes without end.
unfoldable pub cmd_input_home : ℕ → ℕ → Queue → Option Queue
cmd_input_home delay now q =
    let (head, r) = input_queue_alloc q in
    elim head [
      | none ↦ some r
      | some h ↦
          (let (next, t) = input_queue_append h (write h (pressed button_home) delay r) in
            elim next [
              | none ↦ input_queue_free (some h) t
              | some n ↦ input_queue_set_active now (some h) true (write n released delay t)
            ])
    ]
