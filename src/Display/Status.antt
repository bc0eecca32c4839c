-- ===== src/Display/Status.antt =====
-- src/display/display.cpp: the status line, the last row of the display.
use passinglink.Common.{
  ℕ, ◌-◌, Bool, true, false, Option, none, some, List, [], ◌∷◌, ◌++◌, if◌then◌else◌, length,
  replicate, set, write_at,
}
use passinglink.Util.{codes, copy_text, snprintf, decimal}
use passinglink.Usb.Probe.{ProbeType, nx, ps3, ps4}
use passinglink.Display.Frame.{
  Driver, display_set_line, display_draw_logo, display_blit, Bus, ssd1306_init,
}

abbrev pub display_width : ℕ
display_width = 21

abbrev pub display_rows : ℕ
display_rows = 3

-- The statics of display.cpp.
pub record Status : Type 0 where
  pub locked : Bool
  pub probing : Bool
  pub latency : Option ℕ
  pub probe_type : ProbeType

unfoldable pub probe_name : ProbeType → List ℕ
probe_name nx = codes "Switch"
probe_name ps3 = codes "PS3"
probe_name ps4 = codes "PS4"

-- `%4u` for a `uint32_t`.
unfoldable pub padded : ℕ → List ℕ
padded n = let digits = decimal 10 n in replicate (4 - length digits) b' ' ++ digits

unfoldable pub latency_text : Option ℕ → List ℕ
latency_text none = codes " ???us"
latency_text (some us) = padded us ++ codes "us"

-- Where `LOCKED` is written.
unfoldable pub locked_at : Status → ℕ
locked_at s = elim s.probe_type [ nx ↦ if s.probing then 8 else 9 | ps3 ↦ 7 | ps4 ↦ 7 ]

-- The buffer of `display_draw_status_line` before the latency is written; its last byte is `last`, which the
-- `memset` leaves out.
unfoldable pub status_start : ℕ → Status → List ℕ
status_start last s =
    let name = copy_text 22 (some (probe_name s.probe_type)) in
    let blank = replicate display_width b' ' ++ last ∷ [] in
    let named = write_at blank 0 name.bytes in
    let probed = if s.probing then set named name.count b'?' else named in
    if s.locked then write_at probed (locked_at s) (codes "LOCKED") else probed

unfoldable pub status_line : ℕ → Status → List ℕ
status_line last s =
    set (write_at (status_start last s) 15 (snprintf 7 (latency_text s.latency)).bytes)
      display_width 0

-- The parameters of the calls: the memory behind the font, and the byte on the stack.
pub record Memory : Type 0 where
  pub past : ℕ → ℕ
  pub last : ℕ

-- The statics of display.cpp and of ssd1306.cpp.
pub record DisplayState : Type 0 where
  pub status : Status
  pub driver : Driver

unfoldable pub display_draw_status_line : Memory → DisplayState → DisplayState
display_draw_status_line m s = record s {
  driver = display_set_line m.past display_rows (some (status_line m.last s.status)) s.driver;
}

-- What every update ends with.
abbrev pub redraw : Memory → DisplayState → DisplayState
redraw m s =
    let drawn = display_draw_status_line m s in record drawn { driver = display_blit drawn.driver }

unfoldable pub display_update_latency : Memory → ℕ → DisplayState → DisplayState
display_update_latency m us s =
    redraw m (record s { status = record s.status { latency = some us } })

unfoldable pub display_set_locked : Memory → Bool → DisplayState → DisplayState
display_set_locked m locked s = redraw m (record s { status = record s.status { locked = locked } })

unfoldable pub display_set_connection_type : Memory → Bool → ProbeType → DisplayState → DisplayState
display_set_connection_type m probing kind s =
    redraw m (record s { status = record s.status { probing = probing; probe_type = kind } })

-- The statics after `display_init`; its call of `menu_init`, which `Menu.Navigate` models, changes none of them.
unfoldable pub display_init : Memory → Bus → DisplayState → DisplayState
display_init m bus s = redraw m (record s {
  status = record s.status { locked = false; probing = true; probe_type = nx };
  driver = display_draw_logo (ssd1306_init bus s.driver).0;
})
