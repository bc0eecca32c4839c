-- ===== src/Display/Screen.antt =====
-- src/display/display.cpp and ssd1306.cpp: what stands on the display after the status line is drawn.
use passinglink.Common.{
  ℕ, ◌+◌, ◌*◌, ◌<◌, Bool, true, some, List, ◌∷◌, ◌==◌, ◌≡◌, refl, ap, ◌∙◌, length, get_or,
  if◌then◌else◌, arith,
}
use passinglink.Usb.Probe.{ProbeType}
use passinglink.Display.Commands.{ssd1306_data}
use passinglink.Display.Frame.{
  Driver, set_row, display_set_line, display_blit, blit, send_frame, blit_work,
}
use passinglink.Display.Glyph.{text_column}
use passinglink.Display.Row.{set_row-text_column}
use passinglink.Display.Status.{
  Status, status_line, Memory, DisplayState, display_draw_status_line, redraw,
  display_update_latency, display_set_locked, display_set_connection_type,
}
use passinglink.Display.Line.{layout, status_line-layout}

-- The calls that change the status line.
pub data Update : Type 0 where
  latency : ℕ → Update
  locked : Bool → Update
  connection : Bool → ProbeType → Update

unfoldable pub update : Memory → Update → DisplayState → DisplayState
update m (latency us) s = display_update_latency m us s
update m (locked l) s = display_set_locked m l s
update m (connection probing kind) s = display_set_connection_type m probing kind s

-- What the update means for the status.
unfoldable pub updated : Update → Status → Status
updated (latency us) s = record s { latency = some us }
updated (locked l) s = record s { locked = l }
updated (connection probing kind) s = record s { probing = probing; probe_type = kind }

-- The frame that the next run of the work item sends.
unfoldable pub next_frame : Driver → List (List ℕ)
next_frame s = (blit_work s).sent

pub redraw_lem :
    (m : Memory) (s : DisplayState) (x k : ℕ)
    → s.driver.initialized ≡ true
    → length s.driver.display.buffer ≡ 512
    → k < 4
    → x < 128
    → ((redraw m s).status ≡ s.status)
      × (get_or (redraw m s).driver.display.buffer (x * 4 + k) 0 ≡ (
          if k == 3
          then text_column m.past (layout s.status) x
          else get_or s.driver.display.buffer (x * 4 + k) 0))
      × (next_frame (redraw m s).driver
          ≡ ssd1306_data (redraw m s).driver.display.buffer ∷ s.driver.sent)
unfolding display_draw_status_line display_set_line display_blit next_frame blit_work send_frame
    blit set_row
redraw_lem m s x k init full k4 x128 = rw init (
  refl,
  (set_row-text_column m.past 3 x k (some (status_line m.last s.status)) s.driver.display full
        (omega arith) k4 x128).0
      ∙ ap
          (λ text.
            if k == 3
            then text_column m.past text x
            else get_or s.driver.display.buffer (x * 4 + k) 0)
          (status_line-layout m.last s.status).0,
  refl,
)

-- After a change of the latency, the lock or the connection on a display that works, the status is the changed one,
-- the last row shows its layout, the rows above it are as before, and the next run of the work item sends
-- exactly this frame.
pub update-layout :
    (m : Memory) (u : Update) (s : DisplayState) (x k : ℕ)
    → s.driver.initialized ≡ true
    → length s.driver.display.buffer ≡ 512
    → k < 4
    → x < 128
    → ((update m u s).status ≡ updated u s.status)
      × (get_or (update m u s).driver.display.buffer (x * 4 + k) 0 ≡ (
          if k == 3
          then text_column m.past (layout (updated u s.status)) x
          else get_or s.driver.display.buffer (x * 4 + k) 0))
      × (next_frame (update m u s).driver
          ≡ ssd1306_data (update m u s).driver.display.buffer ∷ s.driver.sent)
unfolding update updated display_update_latency display_set_locked display_set_connection_type
update-layout m (latency us) s x k init full k4 x128 =
    redraw_lem m (record s { status = updated (latency us) s.status }) x k init full k4 x128
update-layout m (locked l) s x k init full k4 x128 =
    redraw_lem m (record s { status = updated (locked l) s.status }) x k init full k4 x128
update-layout m (connection probing kind) s x k init full k4 x128 =
    redraw_lem m (record s { status = updated (connection probing kind) s.status }) x k init full k4
      x128
