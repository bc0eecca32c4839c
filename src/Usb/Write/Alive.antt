-- ===== src/Usb/Write/Alive.antt =====
-- The writing of input reports (src/output/usb/hid.cpp) never comes to a stop.
use passinglink.Common.{
  ℕ, Bool, true, false, ◌||◌, Option, none, some, List, [], ◌∷◌, is_some, replicate, leb,
  if◌then◌else◌, ◌≡◌, refl, arith,
}
use passinglink.Usb.Report.{Reply}
use passinglink.Usb.Write.{
  Writer, WriteEvent, int_in_ready, set_idle, clear_halt, work, submit_write, send_report,
  write_report, on_event, on_events,
}

-- A write is to come, or a report is with the host.
unfoldable pub is_alive : {D : Type 0} → Writer D → Bool
is_alive w = is_some w.scheduled || is_some w.in_flight

module _ {D : Type 0} (us_per_tick : ℕ) (get_report : List ℕ → D → Option (Reply × D)) where
  -- A reply that is a report leaves a write to come, or the report with the host.
  send_alive :
      (now : ℕ) (answer : Option ℕ) (w : Writer D) (size : ℕ) (out : List ℕ) (d : D)
      → is_alive (
          send_report us_per_tick get_report now answer w
            (record { size = some size; buf = out }, d))
        ≡ true
  unfolding send_report is_alive submit_write
  send_alive now none w size out d = refl
  send_alive now (some written) w size out d = ground arith

  write_alive :
      (now : ℕ) (answer : Option ℕ) (w : Writer D)
      → ((d : D)
          → (size : ℕ) × (out : List ℕ) × (e : D) × (get_report (replicate 64 0) d
              ≡ some (record { size = some size; buf = out }, e)))
      → (t : Writer D) × (write_report us_per_tick get_report now answer w ≡ some t)
        × (is_alive t ≡ true)
  unfolding write_report
  write_alive now answer w answers =
      let (size, out, e, h) = answers w.driver in
      (
        send_report us_per_tick get_report now answer w (record { size = some size; buf = out }, e),
        rw (h, write_report) refl,
        send_alive now answer w size out e,
      )

  event_alive :
      (now : ℕ) (event : WriteEvent) (w : Writer D)
      → ((d : D)
          → (size : ℕ) × (out : List ℕ) × (e : D) × (get_report (replicate 64 0) d
              ≡ some (record { size = some size; buf = out }, e)))
      → is_alive w ≡ true
      → (t : Writer D) × (on_event us_per_tick get_report now event w ≡ some t)
        × (is_alive t ≡ true)
  unfolding on_event is_alive submit_write
  event_alive now int_in_ready w answers =
      elim w.in_flight
        as (λ sent.
          let u = record w { in_flight = sent } in
          is_alive u ≡ true
          → (t : Writer D) × (on_event us_per_tick get_report now int_in_ready u ≡ some t)
            × (is_alive t ≡ true)) [
              | none ↦ λ alive. (record w { in_flight = none }, refl, alive)
              | some bytes ↦ λ _. (_, refl, refl)
            ]
  event_alive now set_idle w answers = λ alive. (_, refl, refl)
  event_alive now (clear_halt endpoint) w answers = λ alive. (_, refl, ground arith)
  event_alive now (work answer) w answers =
      elim w.scheduled
        as (λ due.
          let u = record w { scheduled = due } in
          is_alive u ≡ true
          → (t : Writer D) × (on_event us_per_tick get_report now (work answer) u ≡ some t)
            × (is_alive t ≡ true)) [
              | none ↦ λ alive. (record w { scheduled = none }, refl, alive)
              | some tick ↦ λ alive.
                  elim (leb tick now)
                    as (λ b.
                      (t : Writer D) × ((if b
                          then write_report us_per_tick get_report now answer
                              (record w { scheduled = none })
                          else some (record w { scheduled = some tick }))
                        ≡ some t)
                      × (is_alive t ≡ true)) [
                        | true ↦ write_alive now answer (record w { scheduled = none }) answers
                        | false ↦ (record w { scheduled = some tick }, refl, alive)
                      ]
            ]

  -- If in every state the driver fills the buffer of 64 zeros with a report, then from any state in which a write is to come
  -- or a report is with the host, every sequence of events runs to its end, and leaves such a state.
  pub events_alive :
      (events : List (ℕ × WriteEvent)) (w : Writer D)
      → ((d : D)
          → (size : ℕ) × (out : List ℕ) × (e : D) × (get_report (replicate 64 0) d
              ≡ some (record { size = some size; buf = out }, e)))
      → is_alive w ≡ true
      → (t : Writer D) × (on_events us_per_tick get_report events w ≡ some t) × (is_alive t ≡ true)
  unfolding on_events
  events_alive [] w answers alive = (w, refl, alive)
  events_alive ((now, event) ∷ events) w answers alive =
      let (r, e, alive_r) = event_alive now event w answers alive in
      let (t, rest, alive_t) = events_alive events r answers alive_r in
      (t, rw (e, on_events) rest, alive_t)
