-- ===== src/Usb/Write.antt =====
-- The writes of src/output/usb/hid.cpp to the endpoint of the input reports, with
-- CONFIG_PASSINGLINK_OUTPUT_USB_DEFERRED: each write is delayed, and the next one is asked for when it is sent.
pub mod Alive
use passinglink.Common.{
  ℕ, ◌+◌, ◌/◌, ◌%◌, Bool, true, false, Option, none, some, List, [], ◌∷◌, take, leb, ◌==◌,
  if◌then◌else◌, replicate,
}
use passinglink.Usb.Report.{Reply}
use passinglink.Metrics.{Metrics, metrics_record_input_read, metrics_record_usb_write}

-- The driver's state, the statics, and what the USB stack and the kernel hold: the tick at which the delayed work
-- runs, and the report that the host has not read yet.
pub record Writer (D : Type 0) : Type 0 where
  pub driver : D
  pub metrics : Metrics
  pub report_delay_ticks : ℕ
  pub scheduled : Option ℕ
  pub in_flight : Option (List ℕ)
  pub touchpad_polls : ℕ

-- The calls of the USB stack and of the kernel. `work` has the answer of `hid_int_ep_write`: the bytes that were
-- written, or `none` for an error.
pub data WriteEvent : Type 0 where
  int_in_ready set_idle : WriteEvent
  clear_halt : ℕ → WriteEvent
  work : Option ℕ → WriteEvent

-- `get_report` is the driver's, for input report 1; its outer `none` is a fault.
module _ {D : Type 0} (us_per_tick : ℕ) (get_report : List ℕ → D → Option (Reply × D)) where
  unfoldable pub submit_write : ℕ → Writer D → Writer D
  submit_write now w = record w {
    scheduled = some (now + w.report_delay_ticks);
    touchpad_polls = w.touchpad_polls + 1;
  }

  -- `write_report` from the driver's reply on.
  unfoldable pub send_report : ℕ → Option ℕ → Writer D → Reply × D → Writer D
  send_report now answer w (reply, d) =
      let r = record w { driver = d; metrics = metrics_record_input_read now w.metrics } in
      elim reply.size [
        | none ↦ r
        | some size ↦ elim answer [
          | none ↦ submit_write now r
          | some written ↦ record r { in_flight = some (take written (take size reply.buf)) }
        ]
      ]

  unfoldable pub write_report : ℕ → Option ℕ → Writer D → Option (Writer D)
  write_report now answer w = elim (get_report (replicate 64 0) w.driver) [
    | none ↦ none
    | some reply ↦ some (send_report now answer w reply)
  ]

  -- One event; those that the stack and the kernel do not raise in the state change nothing.
  unfoldable pub on_event : ℕ → WriteEvent → Writer D → Option (Writer D)
  on_event now int_in_ready w = elim w.in_flight [
    | none ↦ some w
    | some _ ↦ some (
        submit_write now (record w {
          in_flight = none;
          metrics = metrics_record_usb_write us_per_tick now w.metrics;
        }))
  ]
  on_event now set_idle w = some (submit_write now w)
  on_event now (clear_halt endpoint) w =
      some (if endpoint / 128 % 2 == 1 then submit_write now w else w)
  on_event now (work answer) w = elim w.scheduled [
    | none ↦ some w
    | some tick ↦
        if leb tick now then write_report now answer (record w { scheduled = none }) else some w
  ]

  unfoldable pub on_events : List (ℕ × WriteEvent) → Writer D → Option (Writer D)
  on_events [] w = some w
  on_events ((now, e) ∷ events) w = elim (on_event now e w) [
    | none ↦ none
    | some r ↦ on_events events r
  ]
