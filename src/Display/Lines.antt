-- ===== src/Display/Lines.antt =====
-- src/display/menu.cpp and ssd1306.cpp: what stands on the display after the menu is drawn.
use passinglink.Common.{
  ℕ, zero, suc, ◌+◌, ◌*◌, ◌<◌, ◌≤◌, Bool, true, false, Option, List, [], ◌∷◌, ltb, ◌==◌, ◌≡◌, refl,
  ap, ap₂, sym, subst, ◌∙◌, length, get_or, if◌then◌else◌, arith,
}
use passinglink.Menu.Items.{Screen}
use passinglink.Display.Font.{display_logo}
use passinglink.Display.Commands.{ssd1306_data}
use passinglink.Display.Frame.{
  Driver, draw_logo, display_set_line, display_draw_logo, display_blit, blit, send_frame, blit_work,
}
use passinglink.Display.Glyph.{shown_text, text_column}
use passinglink.Display.Row.{set_row-text_column}
use passinglink.Display.Logo.{draw_logo-bytes}
use passinglink.Display.Screen.{next_frame}

-- The calls of `menu_draw` for the rows from i on.
unfoldable pub draw_lines : (ℕ → ℕ) → ℕ → List (Option (List ℕ)) → Driver → Driver
draw_lines past i [] s = s
draw_lines past i (line ∷ lines) s = draw_lines past (i + 1) lines (display_set_line past i line s)

-- What `menu_draw` does to the driver.
unfoldable pub draw_screen : (ℕ → ℕ) → Screen → Driver → Driver
draw_screen past Screen.logo s = display_blit (display_draw_logo s)
draw_screen past (Screen.lines rows) s = display_blit (draw_lines past 0 rows s)

-- The pixels of the k-th row of some lines; the rows behind them are as before.
abbrev pub line_column : (ℕ → ℕ) → List (Option (List ℕ)) → ℕ → ℕ → ℕ → ℕ
line_column past [] k x old = old
line_column past (line ∷ lines) zero x old = text_column past (shown_text line) x
line_column past (line ∷ lines) (suc k) x old = line_column past lines k x old

-- The pixels of a row of a screen.
abbrev pub screen_column : (ℕ → ℕ) → Screen → ℕ → ℕ → ℕ → ℕ
screen_column past Screen.logo k x old = if ltb k 3 then get_or display_logo (x * 3 + k) 0 else old
screen_column past (Screen.lines rows) k x old = line_column past rows k x old

set_line_lem :
    (past : ℕ → ℕ) (i x k : ℕ) (line : Option (List ℕ)) (s : Driver)
    → s.initialized ≡ true
    → length s.display.buffer ≡ 512
    → i < 4
    → k < 4
    → x < 128
    → ((display_set_line past i line s).initialized ≡ true)
      × (length (display_set_line past i line s).display.buffer ≡ 512)
      × (get_or (display_set_line past i line s).display.buffer (x * 4 + k) 0 ≡ (
          if k == i
          then text_column past (shown_text line) x
          else get_or s.display.buffer (x * 4 + k) 0))
      × ((display_set_line past i line s).sent ≡ s.sent)
      × ((display_set_line past i line s).display.dirty ≡ true)
unfolding display_set_line
set_line_lem past i x k line s init full i4 k4 x128 =
    let drawn = set_row-text_column past i x k line s.display full i4 k4 x128 in
    rw init (refl, drawn.1, drawn.0, refl, drawn.2)

draw_lines-keeps :
    (past : ℕ → ℕ) (i x : ℕ) (rows : List (Option (List ℕ))) (s : Driver)
    → s.initialized ≡ true
    → length s.display.buffer ≡ 512
    → i + length rows ≤ 4
    → x < 128
    → ((draw_lines past i rows s).initialized ≡ true)
      × (length (draw_lines past i rows s).display.buffer ≡ 512)
      × ((draw_lines past i rows s).sent ≡ s.sent)
      × ((draw_lines past i rows s).display.dirty
          ≡ (if length rows == 0 then s.display.dirty else true))
unfolding draw_lines
draw_lines-keeps past i x [] s init full fits x128 = (init, full, refl, refl)
draw_lines-keeps past i x (line ∷ lines) s init full fits x128 =
    let step = set_line_lem past i x 0 line s init full (omega arith) (omega arith) x128 in
    let rest =
      draw_lines-keeps past (i + 1) x lines (display_set_line past i line s) step.0 step.1
        (omega arith) x128 in
    let some_row : (suc (length lines) == 0) ≡ false = ground arith in
    let dirty =
      elim (length lines == 0)
        as (λ b. (if b then (display_set_line past i line s).display.dirty else true) ≡ true) [
          | true ↦ step.4
          | false ↦ refl
        ] in
    (rest.0, rest.1, rest.2 ∙ step.3, rest.3 ∙ dirty ∙ rw some_row refl)

draw_lines-below :
    (past : ℕ → ℕ) (i x k : ℕ) (rows : List (Option (List ℕ))) (s : Driver)
    → s.initialized ≡ true
    → length s.display.buffer ≡ 512
    → i + length rows ≤ 4
    → k < i
    → k < 4
    → x < 128
    → get_or (draw_lines past i rows s).display.buffer (x * 4 + k) 0
      ≡ get_or s.display.buffer (x * 4 + k) 0
unfolding draw_lines
draw_lines-below past i x k [] s init full fits below k4 x128 = refl
draw_lines-below past i x k (line ∷ lines) s init full fits below k4 x128 =
    let step = set_line_lem past i x k line s init full (omega arith) k4 x128 in
    let other : (k == i) ≡ false = ground arith in
    draw_lines-below past (i + 1) x k lines (display_set_line past i line s) step.0 step.1
      (omega arith) (omega arith) k4 x128
    ∙ step.2
    ∙ rw other refl

draw_lines-column :
    (past : ℕ → ℕ) (i x t : ℕ) (rows : List (Option (List ℕ))) (s : Driver)
    → s.initialized ≡ true
    → length s.display.buffer ≡ 512
    → i + length rows ≤ 4
    → i + t < 4
    → x < 128
    → get_or (draw_lines past i rows s).display.buffer (x * 4 + (i + t)) 0
      ≡ line_column past rows t x (get_or s.display.buffer (x * 4 + (i + t)) 0)
unfolding draw_lines
draw_lines-column past i x t [] s init full fits it4 x128 = refl
draw_lines-column past i x zero (line ∷ lines) s init full fits it4 x128 =
    let step = set_line_lem past i x (i + 0) line s init full (omega arith) it4 x128 in
    let here : (i + 0 == i) ≡ true = ground arith in
    draw_lines-below past (i + 1) x (i + 0) lines (display_set_line past i line s) step.0 step.1
      (omega arith) (omega arith) it4 x128
    ∙ step.2
    ∙ rw here refl
draw_lines-column past i x (suc t) (line ∷ lines) s init full fits it4 x128 =
    let step = set_line_lem past i x (i + suc t) line s init full (omega arith) it4 x128 in
    let there : i + suc t ≡ i + 1 + t = omega arith in
    let other : (i + suc t == i) ≡ false = ground arith in
    ap
      (λ j.
        get_or (draw_lines past (i + 1) lines (display_set_line past i line s)).display.buffer
          (x * 4 + j) 0)
      there
    ∙ draw_lines-column past (i + 1) x t lines (display_set_line past i line s) step.0 step.1
        (omega arith) (omega arith) x128
    ∙ ap (line_column past lines t x) (
        ap (λ j. get_or (display_set_line past i line s).display.buffer (x * 4 + j) 0)
          (omega (arith, there))
        ∙ step.2
        ∙ rw other refl)

blit_lem :
    (s : Driver)
    → s.initialized ≡ true
    → s.display.dirty ≡ true
    → ((display_blit s).display ≡ s.display)
      × (next_frame (display_blit s) ≡ ssd1306_data s.display.buffer ∷ s.sent)
unfolding display_blit next_frame blit_work send_frame blit
blit_lem s init dirty = rw (init, dirty) (refl, refl)

-- The logo, or as many lines as the menu has rows.
unfoldable pub has_three_rows : Screen → Bool
has_three_rows Screen.logo = true
has_three_rows (Screen.lines rows) = length rows == 3

-- The menu or the logo on a display that works: each of the rows that the screen has shows it, the others, in
-- particular the status line, are as before, and the next run of the work item sends exactly this frame. A
-- screen of lines has the three rows of the menu.
pub draw_screen-column :
    (past : ℕ → ℕ) (screen : Screen) (s : Driver) (x k : ℕ)
    → s.initialized ≡ true
    → length s.display.buffer ≡ 512
    → has_three_rows screen ≡ true
    → k < 4
    → x < 128
    → (get_or (draw_screen past screen s).display.buffer (x * 4 + k) 0
        ≡ screen_column past screen k x (get_or s.display.buffer (x * 4 + k) 0))
      × (length (draw_screen past screen s).display.buffer ≡ 512)
      × (next_frame (draw_screen past screen s)
          ≡ ssd1306_data (draw_screen past screen s).display.buffer ∷ s.sent)
unfolding has_three_rows draw_screen display_draw_logo display_blit next_frame blit_work send_frame
    blit draw_logo
draw_screen-column past Screen.logo s x k init full rows k4 x128 =
    let drawn = draw_logo-bytes x k s.display full k4 x128 in rw init (drawn.0, drawn.1, refl)
draw_screen-column past (Screen.lines rows) s x k init full few k4 x128 =
    let three : length rows ≡ 3 = ground arith in
    let keeps = draw_lines-keeps past 0 x rows s init full (omega arith) x128 in
    let k_row : 0 + k ≡ k = omega arith in
    let drawn =
      subst
        (λ j.
          get_or (draw_lines past 0 rows s).display.buffer (x * 4 + j) 0
          ≡ line_column past rows k x (get_or s.display.buffer (x * 4 + j) 0))
        k_row (draw_lines-column past 0 x k rows s init full (omega arith) (omega arith) x128) in
    let marked = keeps.3 ∙ ap (λ n. if n == 0 then s.display.dirty else true) three in
    let sending = blit_lem (draw_lines past 0 rows s) keeps.0 marked in
    (
      ap (λ d. get_or d.buffer (x * 4 + k) 0) sending.0 ∙ drawn,
      ap (λ d. length d.buffer) sending.0 ∙ keeps.1,
      sending.1 ∙ ap₂ (λ d l. ssd1306_data d.buffer ∷ l) (sym sending.0) keeps.2,
    )
