-- ===== src/Display/Frame.antt =====
-- src/display/ssd1306.cpp: the class `Display`, the statics of the driver and its functions.
use passinglink.Common.{
  ℕ, zero, suc, ◌+◌, ◌-◌, ◌*◌, Bool, true, false, ◌||◌, Option, none, some, List, [], ◌∷◌, ltb,
  ◌==◌, if◌then◌else◌, get_or, set, replicate,
}
use passinglink.Display.Font.{font, display_logo}
use passinglink.Display.Commands.{
  ssd1306_command, ssd1306_data, init_commands, ssd1306_set_display_on,
}

-- `buffer` is that of `first_`; `buffer_idx_` is not used.
pub record Display : Type 0 where
  pub buffer : List ℕ
  pub dirty : Bool

-- The constructor clears the buffer and leaves `dirty_` as the memory has it.
unfoldable pub new_display : Display → Display
new_display d = record d { buffer = replicate 512 0 }

-- One step of the text: the character that is drawn, before it is checked, and the line that is left. A line
-- ends with its first null byte.
unfoldable pub next_character : Option (List ℕ) → ℕ × Option (List ℕ)
next_character none = (0x20, none)
next_character (some []) = (0x20, none)
next_character (some (c ∷ cs)) = if c == 0 then (0x20, none) else (c, some cs)

unfoldable pub drawable : ℕ → ℕ
drawable c = if ltb c 0x20 || ltb 0x7f c then 0x20 else c

-- A byte of `font`; `past` gives the memory behind it.
unfoldable pub font_byte : (ℕ → ℕ) → ℕ → ℕ
font_byte past i = get_or font i (past i)

-- The loop over the five bytes of a character, of which `left` are left from the i-th on.
unfoldable pub draw_character : (ℕ → ℕ) → ℕ → ℕ → ℕ → ℕ → ℕ → List ℕ → List ℕ
draw_character past row_idx pixel_idx character i zero buf = buf
draw_character past row_idx pixel_idx character i (suc left) buf =
    draw_character past row_idx pixel_idx character (i + 1) left
      (set buf ((pixel_idx + i) * 4 + row_idx) (font_byte past (5 * (character - 0x20) + i)))

-- The loop over the characters of a row, of which `left` are left from `column_idx` on.
unfoldable pub draw_columns : (ℕ → ℕ) → ℕ → ℕ → ℕ → Option (List ℕ) → List ℕ → List ℕ
draw_columns past row_idx column_idx zero line buf = buf
draw_columns past row_idx column_idx (suc left) line buf =
    let pixel_idx = column_idx * 6 + 2 in
    let step = next_character line in
    draw_columns past row_idx (column_idx + 1) left step.1 (
      set (draw_character past row_idx pixel_idx (drawable step.0) 0 5 buf)
        ((pixel_idx + 5) * 4 + row_idx) 0)

unfoldable pub set_row : (ℕ → ℕ) → ℕ → Option (List ℕ) → Display → Display
set_row past row_idx line d = record d {
  buffer = draw_columns past row_idx 0 21 line (set (set d.buffer row_idx 0) (row_idx + 4) 0);
  dirty = true;
}

-- The inner loop of `draw_logo`: the buffer and the logo that is left.
unfoldable pub logo_rows : ℕ → ℕ → ℕ → List ℕ × List ℕ → List ℕ × List ℕ
logo_rows x y zero s = s
logo_rows x y (suc left) (buf, []) = (buf, [])
logo_rows x y (suc left) (buf, b ∷ logo) = logo_rows x (y + 1) left (set buf (x * 4 + y) b, logo)

unfoldable pub logo_columns : ℕ → ℕ → List ℕ × List ℕ → List ℕ × List ℕ
logo_columns x zero s = s
logo_columns x (suc left) s = logo_columns (x + 1) left (logo_rows x 0 3 s)

unfoldable pub draw_logo : Display → Display
draw_logo d = record d { buffer = (logo_columns 0 128 (d.buffer, display_logo)).0; dirty = true }

-- The display after `blit`, and the messages on the bus.
unfoldable pub blit : Display → Display × List (List ℕ)
blit d = if d.dirty then (record d { dirty = false }, ssd1306_data d.buffer ∷ []) else (d, [])

-- The statics of the driver: `submitted` tells that `ssd1306_blit_work` is in its queue, `sent` lists the messages that
-- are given to the bus, the last one first, without those of the failed tries of `ssd1306_init`.
pub record Driver : Type 0 where
  pub display : Display
  pub initialized : Bool
  pub submitted : Bool
  pub sent : List (List ℕ)

unfoldable pub display_set_line : (ℕ → ℕ) → ℕ → Option (List ℕ) → Driver → Driver
display_set_line past row_idx line s =
    if s.initialized then record s { display = set_row past row_idx line s.display } else s

unfoldable pub display_draw_logo : Driver → Driver
display_draw_logo s = if s.initialized then record s { display = draw_logo s.display } else s

unfoldable pub display_blit : Driver → Driver
display_blit s = if s.initialized then record s { submitted = true } else s

-- `display.blit()` with its message sent.
unfoldable pub send_frame : Driver → Driver
send_frame s =
    let b = blit s.display in
    record s { display = b.0; sent = elim b.1 [ [] ↦ s.sent | message ∷ _ ↦ message ∷ s.sent ] }

-- The thread of `ssd1306_work_q` takes the work item and runs it.
unfoldable pub blit_work : Driver → Driver
blit_work s = if s.submitted then send_frame (record s { submitted = false }) else s

-- What the environment gives to `ssd1306_init`: whether the bus takes the commands in each of the tries, and
-- the n bytes of a buffer before it is filled.
pub record Bus : Type 0 where
  pub takes : ℕ → Bool
  pub garbage : ℕ → List ℕ

-- The first part of a try that succeeded.
unfoldable pub started : Bus → ℕ → Driver → Driver
started bus try s =
    let cleared = record s {
      display = new_display s.display;
      initialized = true;
      submitted = false;
      sent = ssd1306_command (bus.garbage 29) init_commands ∷ s.sent;
    } in
    let shown = send_frame cleared in
    record shown {
      sent = ssd1306_command (bus.garbage 2) (ssd1306_set_display_on true ∷ []) ∷ shown.sent;
    }

-- The loop of `ssd1306_init`, with `left` tries left; the second part counts the pauses of 100 milliseconds.
unfoldable pub init_loop : Bus → ℕ → ℕ → Driver → Driver × ℕ
init_loop bus try zero s = (s, 0)
init_loop bus try (suc left) s =
    let rest = init_loop bus (try + 1) left (record s { initialized = false }) in
    if bus.takes try then (started bus try s, 0) else (rest.0, rest.1 + 1)

unfoldable pub ssd1306_init : Bus → Driver → Driver × ℕ
ssd1306_init bus s = init_loop bus 0 50 (record s { initialized = false })
