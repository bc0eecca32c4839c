-- ===== src/Display/Tests.antt =====
-- Examples for the display.
use passinglink.Common.{
  ℕ, ◌+◌, ◌-◌, ◌*◌, ◌<◌, true, false, none, some, [], ◌∷◌, ltb, ◌≡◌, refl, arith, length,
  length-replicate, replicate, get_or, take,
}
use passinglink.Util.{decimal, codes}
use passinglink.Usb.Probe.{nx, ps4}
use passinglink.Menu.Items.{Screen}
use passinglink.Display.Font.{font}
use passinglink.Display.Commands.{ssd1306_data, init_commands}
use passinglink.Display.Bus.{joined}
use passinglink.Display.Frame.{Display, drawable, font_byte, Driver, Bus}
use passinglink.Display.Glyph.{text_column}
use passinglink.Display.Status.{Status, padded, latency_text, Memory, DisplayState, display_init}
use passinglink.Display.Line.{head_text, layout}
use passinglink.Display.Screen.{connection, update, updated, next_frame, update-layout}
use passinglink.Display.Lines.{draw_screen, has_three_rows, draw_screen-column}
use passinglink.Display.Start.{display_init-layout}

abbrev blank : Display
blank = record { buffer = replicate 512 0; dirty = false }

abbrev memory : Memory
memory = record { past = λ i. 0; last = 0xff }

-- The bus takes the commands in the third try.
abbrev bus : Bus
bus = record { takes = λ n. ltb 1 n; garbage = λ n. replicate n 0xff }

abbrev idle : Driver
idle = record { display = blank; initialized = true; submitted = false; sent = [] }

abbrev off : Driver
off = record { display = blank; initialized = false; submitted = false; sent = [] }

abbrev locked_status : Status
locked_status = record { locked = true; probing = false; latency = some 950; probe_type = ps4 }

abbrev home : DisplayState
home = record { status = locked_status; driver = idle }

sized : (n : ℕ) → length (bus.garbage n) ≡ n
sized n = length-replicate {A = ℕ} n 0xff

update-layout_example :
    let s = update memory (connection true nx) home in
    (s.status ≡ updated (connection true nx) locked_status)
    × (get_or s.driver.display.buffer (127 * 4 + 3) 0
        ≡ text_column (λ i. 0) (codes "Switch? LOCKED  950us") 127)
    × (next_frame s.driver ≡ ssd1306_data s.driver.display.buffer ∷ [])
unfolding updated layout head_text latency_text padded decimal
update-layout_example =
    update-layout memory (connection true nx) home 127 3 refl refl (omega arith) (omega arith)

abbrev menu_screen : Screen
menu_screen = Screen.lines (some (codes "> Lock") ∷ none ∷ none ∷ [])

early : (u : ℕ) → u < 2 → bus.takes u ≡ false
early u h = ground arith

display_init-layout_example :
    let s = display_init memory bus (record { status = locked_status; driver = off }) in
    (get_or s.driver.display.buffer (5 * 4 + 3) 0
      ≡ text_column (λ i. 0) (codes "Switch?         950us") 5)
    × (next_frame s.driver
        ≡ ssd1306_data s.driver.display.buffer
          ∷ (0x00 ∷ 0xaf ∷ [])
          ∷ (0x00 ∷ joined init_commands)
          ∷ [])
unfolding layout head_text latency_text padded decimal
display_init-layout_example =
    display_init-layout memory bus 2 (record { status = locked_status; driver = off }) 5 3
      (omega arith) early refl refl sized (omega arith) (omega arith)

-- The character 0x7f is drawn from the bytes behind the table.
past_font : (past : ℕ → ℕ) → font_byte past (5 * (drawable 0x7f - 0x20)) ≡ past 475
unfolding font_byte font drawable
past_font past = refl

-- A latency of more than four digits loses its unit.
long_latency : take 6 (latency_text (some 12345)) ≡ codes "12345u"
unfolding latency_text padded decimal
long_latency = refl

-- One line of a menu on a blank display.
abbrev one_line : Screen
one_line = Screen.lines (some (codes "> Lock") ∷ none ∷ none ∷ [])

draw_screen-column_example :
    let s = draw_screen (λ _. 0) one_line idle in
    (get_or s.display.buffer (16 * 4 + 0) 0 ≡ text_column (λ _. 0) (codes "> Lock") 16)
    × (length s.display.buffer ≡ 512)
    × (next_frame s ≡ ssd1306_data s.display.buffer ∷ [])
unfolding has_three_rows
draw_screen-column_example =
    draw_screen-column (λ _. 0) one_line idle 16 0 refl refl refl (omega arith) (omega arith)
