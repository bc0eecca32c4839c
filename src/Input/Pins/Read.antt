-- ===== src/Input/Pins/Read.antt =====
-- src/input/input.cpp: what `input_get_raw_state` reads from the pins.
use passinglink.Common.{
  ℕ, zero, suc, ◌≤◌, Bool, true, not, none, some, List, [], ◌∷◌, map, ◌≡◌, refl, ap, sym, length,
  get_elem?, get_or, is_some, if◌then◌else◌, ◌||◌, Bool-cases, inl, inr,
}
use mathlib.Core.Bool.{true≢false}
use passinglink.Input.Types.{Gpio, index, button_w, RawInputState, Board, Input, InputState}
use passinglink.Input.Profile.{Profile, active_profile}
use passinglink.Input.Parse.{input_parse}
use passinglink.Input.Taken.{ShownBy}
use passinglink.Input.Shown.{parse_succeeds}
use passinglink.Input.Queue.{Queue, input_queue_get_state}
use passinglink.Input.Pins.{
  PinTree, Ports, input_gpio_init, port_values, is_set, gpio_value, Source, pins, source_state,
  input_get_raw_state, input_get_state,
}
use passinglink.Input.Pins.Slots.{has}
use passinglink.Input.Pins.Found.{Wired, Slotted, input_gpio_init-Slotted}

port_values-map :
    (t : PinTree) (value : ℕ → ℕ) (ds : List ℕ)
    → ((d : ℕ) → t.read d ≡ some (value d))
    → port_values t ds ≡ some (map value ds)
unfolding port_values
port_values-map t value [] reads = refl
port_values-map t value (d ∷ ds) reads =
    rw (port_values, reads d, port_values-map t value ds reads) refl

get_or-map :
    (value : ℕ → ℕ) (ds : List ℕ) (i d x : ℕ)
    → get_elem? ds i ≡ some d
    → get_or (map value ds) i x ≡ value d
get_or-map value [] i d x e = absurd (true≢false (sym (ap is_some e)))
get_or-map value (c ∷ ds) zero d x e = ap (λ o. elim o [ none ↦ value c | some y ↦ value y ]) e
get_or-map value (c ∷ ds) (suc i) d x e = get_or-map value ds i d x e

pub not_queued :
    (now : ℕ) (q : Queue) → q.queue_next ≡ none → input_queue_get_state now q ≡ some (none, q)
unfolding input_queue_get_state
not_queued now q idle =
    elim q.queue_next
        as (λ v.
          let r = record q { queue_next = v } in
          v ≡ none → input_queue_get_state now r ≡ some (none, r)) [
            | none ↦ λ _. refl
            | some p ↦ λ e. absurd (true≢false (sym (ap is_some (sym e))))
          ]
      idle

raw_state_lem :
    (b : Board) (t : PinTree) (s : Ports) (garbage : ℕ → ℕ) (values : List ℕ) (now : ℕ) (q : Queue)
    (out : RawInputState)
    → q.queue_next ≡ none
    → port_values t s.devices ≡ some values
    → input_get_raw_state b now (pins t s garbage) q out
      ≡ some (gpio_value b t s garbage values out, q)
unfolding input_get_raw_state source_state
raw_state_lem b t s garbage values now q out idle read =
    rw (input_get_raw_state, not_queued now q idle, source_state, read) refl

-- What the pin of an entry shows: the bit of its own port, inverted if the pin is active low.
unfoldable pub pin_shows : PinTree → (Gpio → ℕ) → (ℕ → ℕ) → Gpio → Bool
pin_shows t device value g =
    let level = is_set (value (device g)) (t.pin g) in if t.active_low g then not level else level

-- On a board whose pins can be configured, on at most four ports that can be read: after the initialization from empty
-- slots, which succeeds, and while no input is queued, the raw state is read without a panic, keeps the queue, and has
-- for each pin of the board what the pin shows, whatever it was before, and its former value for the others.
pub input_get_raw_state-pin_shows :
    (b : Board) (t : PinTree) (device : Gpio → ℕ) (ports : List ℕ) (value : ℕ → ℕ)
    (indices garbage : ℕ → ℕ) (now : ℕ) (q : Queue) (out : RawInputState)
    → length ports ≤ 4
    → ((h : Gpio) → b.available h ≡ true → t.binding h ≡ some (device h))
    → ((h : Gpio) → b.available h ≡ true → t.configured h ≡ true)
    → ((h : Gpio) → b.available h ≡ true → has (device h) ports ≡ true)
    → ((d : ℕ) → t.read d ≡ some (value d))
    → q.queue_next ≡ none
    → (s : Ports) × (raw : RawInputState) × (input_gpio_init b t
          (record { devices = []; gpio_indices = indices })
        ≡ some s)
      × (input_get_raw_state b now (pins t s garbage) q out ≡ some (raw, q))
      × ((g : Gpio) → raw g ≡ (if b.available g then pin_shows t device value g else out g))
unfolding gpio_value pin_shows Slotted
input_get_raw_state-pin_shows b t device ports value indices garbage now q out few bound configured
      among reads idle =
    let wired : Wired b t device ports = record {
      few = few;
      bound = bound;
      configured = configured;
      among = among;
    } in
    let started = input_gpio_init-Slotted b t device ports indices wired in
    let s = started.0 in
    let index_of : Gpio → ℕ = λ g. s.gpio_indices (index g) in
    (
      s,
      gpio_value b t s garbage (map value s.devices) out,
      started.1,
      raw_state_lem b t s garbage (map value s.devices) now q out idle
          (port_values-map t value s.devices reads),
      λ g. elim (Bool-cases (b.available g)) [
        | inl here ↦ rw here (
            ap (λ v. if t.active_low g then not (is_set v (t.pin g)) else is_set v (t.pin g))
              (get_or-map value s.devices (index_of g) (device g) (garbage (index_of g))
                (started.2 g here)))
        | inr absent ↦ rw absent refl
      ],
    )

get_state_lem :
    (b : Board) (source : Source) (raw_tick tick : ℕ) (q after : Queue) (out raw : RawInputState)
    (s : Input) (r : Input × InputState)
    → input_get_raw_state b raw_tick source q out ≡ some (raw, after)
    → input_parse b raw tick s ≡ some r
    → input_get_state b raw_tick tick source q out s ≡ some (r, after)
unfolding input_get_state
get_state_lem b source raw_tick tick q after out raw s r read parsed =
    rw (input_get_state, read, parsed) refl

-- On a board whose pins can be configured, on at most four ports that can be read, with a profile selected, that has a
-- display or lacks `button_w`: after the initialization from empty slots, which succeeds, and while no input is
-- queued, `input_get_state` returns a state and keeps the queue. There is one raw state that has for each pin of the
-- board the bit of its own port, inverted if the pin is active low, and else what was there before. The state shows
-- this raw state, debounced: everything at rest if the menu takes the input (a menu button of a board with a display,
-- whose record is held, and for the hold time while the input is locked), and else each button as the
-- profile maps it, with select, start and home hidden while the input is locked.
pub input_get_state-ShownBy :
    (b : Board) (t : PinTree) (device : Gpio → ℕ) (ports : List ℕ) (value : ℕ → ℕ)
    (indices garbage : ℕ → ℕ) (raw_tick tick : ℕ) (q : Queue) (out : RawInputState) (s : Input)
    (p : Profile)
    → length ports ≤ 4
    → ((h : Gpio) → b.available h ≡ true → t.binding h ≡ some (device h))
    → ((h : Gpio) → b.available h ≡ true → t.configured h ≡ true)
    → ((h : Gpio) → b.available h ≡ true → has (device h) ports ≡ true)
    → ((d : ℕ) → t.read d ≡ some (value d))
    → q.queue_next ≡ none
    → active_profile b s ≡ some p
    → (b.has_display || not (b.available button_w)) ≡ true
    → (slots : Ports) × (raw : RawInputState) × (r : Input × InputState) × (input_gpio_init b t
          (record { devices = []; gpio_indices = indices })
        ≡ some slots)
      × (input_get_state b raw_tick tick (pins t slots garbage) q out s ≡ some (r, q))
      × ShownBy b p raw tick s r.1
      × ((g : Gpio) → raw g ≡ (if b.available g then pin_shows t device value g else out g))
input_get_state-ShownBy b t device ports value indices garbage raw_tick tick q out s p few bound
      configured among reads idle chosen fits =
    let (slots, raw, started, read, shows) =
      input_get_raw_state-pin_shows b t device ports value indices garbage raw_tick q out few bound
        configured among reads idle in
    let (r, parsed, shown) = parse_succeeds b raw tick s p fits chosen in
    (
      slots,
      raw,
      r,
      started,
      get_state_lem b (pins t slots garbage) raw_tick tick q q out raw s r read parsed,
      shown,
      shows,
    )
