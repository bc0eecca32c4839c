-- ===== src/Gundam.antt =====
-- src/opt/gundam.cpp: the spectator camera, moved by presses that are queued. The state of the input queue
-- is a part of the state here.
-- `Lay` and `Grow` are about the nodes that are laid out, `Ways` and `Play` about following them, `Moves`,
-- `Camera` and `Failure` about the whole move.
pub mod Lay
pub mod Grow
pub mod Ways
pub mod Moves
pub mod Play
pub mod Camera
pub mod Failure
mod Tests
use passinglink.Common.{
  ℕ, zero, suc, ◌+◌, ◌-◌, ◌%◌, Bool, true, false, Option, none, some, ltb, ◌==◌, if◌then◌else◌,
}
use passinglink.Input.Types.{Gpio, stick_up, stick_down, index, RawInputState}
use passinglink.Input.Queue.{
  InputQueue, Queue, put, input_queue_alloc, input_queue_append, input_queue_free,
  input_queue_is_active, input_queue_set_active,
}

pub record Gundam : Type 0 where
  pub current_cam : ℕ
  pub queue : Queue

-- `state = {}`, and the same with one button.
abbrev pub released : RawInputState
released _ = false

abbrev pub pressed : Gpio → RawInputState
pressed gpio other = index other == index gpio

-- The assignments to `cur->state` and `cur->delay`.
abbrev pub write : ℕ → RawInputState → ℕ → Queue → Queue
write cur state delay q = record q {
  storage = put cur (record (q.storage cur) { state = state; delay = delay }) q.storage;
}

unfoldable pub reset_cam : ℕ → Gundam → Gundam
reset_cam x g = record g { current_cam = x }

-- The loop of `adjust_cam`; the delay is `K_USEC(33333)` in ticks. `none` is a failure to allocate.
unfoldable pub press_times : ℕ → Gpio → ℕ → ℕ → Queue → Option ℕ × Queue
press_times zero gpio delay cur q = (some cur, q)
press_times (suc count) gpio delay cur q =
    let (next, r) = input_queue_append cur (write cur (pressed gpio) delay q) in
    elim next [
      | none ↦ (none, r)
      | some n ↦
          (let (last, t) = input_queue_append n (write n released delay r) in
            elim last [ none ↦ (none, t) | some m ↦ press_times count gpio delay m t ])
    ]

-- An int8_t is given by its byte.
abbrev pub count_of : ℕ → ℕ
count_of offset = if ltb offset 128 then offset else 256 - offset

abbrev pub button_of : ℕ → Gpio
button_of offset = if ltb offset 128 then stick_up else stick_down

-- The queue that `adjust_cam` lays out and plays; `none` is a list of nodes without end.
unfoldable pub play_presses : ℕ → ℕ → ℕ → Queue → Option Queue
play_presses delay now offset q =
    let (head, r) = input_queue_alloc q in
    elim head [
      | none ↦ some r
      | some h ↦
          (let (last, t) = press_times (count_of offset) (button_of offset) delay h r in
            elim last [
              | none ↦ input_queue_free (some h) t
              | some m ↦ input_queue_set_active now (some h) true (write m released 0 t)
            ])
    ]

unfoldable pub adjust_cam : ℕ → ℕ → ℕ → Bool → Gundam → Option Gundam
adjust_cam delay now offset recording g =
    if input_queue_is_active g.queue
    then some g
    else (let cam = if recording then (g.current_cam + offset) % 256 else g.current_cam in
        if offset == 0
        then some (record g { current_cam = cam })
        else (elim (play_presses delay now offset g.queue) [
          | none ↦ none
          | some q ↦ some (record { current_cam = cam; queue = q })
        ]))

-- `x - current_cam` is converted to an int8_t.
unfoldable pub set_cam : ℕ → ℕ → ℕ → Bool → Gundam → Option Gundam
set_cam delay now x recording g = adjust_cam delay now ((x + 256 - g.current_cam) % 256) recording g
