-- ===== src/Display/Start.antt =====
-- src/display/display.cpp and ssd1306.cpp: the start of the display.
use passinglink.Common.{
  ℕ, zero, suc, ◌+◌, ◌*◌, ◌<◌, true, false, List, [], ◌∷◌, ltb, ◌==◌, ◌≡◌, refl, ap, ap₂,
  Bool-cases, inl, inr, sym, ◌∙◌, length, length-replicate, replicate, get_or, if◌then◌else◌, arith,
}
use passinglink.Usb.Probe.{nx}
use passinglink.Display.Font.{display_logo}
use passinglink.Display.Commands.{
  ssd1306_cmd_size, ssd1306_data, init_commands, init_commands_size, ssd1306_set_display_on,
}
use passinglink.Display.Bus.{joined, ssd1306_command-joined}
use passinglink.Display.Frame.{
  Display, new_display, Driver, blit, send_frame, Bus, started, init_loop, ssd1306_init, draw_logo,
  display_draw_logo,
}
use passinglink.Display.Glyph.{text_column}
use passinglink.Display.Logo.{draw_logo-bytes}
use passinglink.Display.Status.{Status, Memory, DisplayState, redraw, display_init}
use passinglink.Display.Line.{layout}
use passinglink.Display.Screen.{next_frame, redraw_lem}

init_loop-takes :
    (bus : Bus) (try left t : ℕ) (s : Driver)
    → t < left
    → ((u : ℕ) → u < t → bus.takes (try + u) ≡ false)
    → bus.takes (try + t) ≡ true
    → init_loop bus try left s ≡ (started bus (try + t) s, t)
unfolding init_loop started
init_loop-takes bus try zero t s tl fails takes = absurd (omega arith)
init_loop-takes bus try (suc left) zero s tl fails takes =
    let now : try + 0 ≡ try = omega arith in
    let here : bus.takes try ≡ true = ap bus.takes (sym now) ∙ takes in
    rw here (ap (λ n. (started bus n s, 0)) (sym now))
init_loop-takes bus try (suc left) (suc t) s tl fails takes =
    let now : try ≡ try + 0 = omega arith in
    let here : bus.takes try ≡ false = ap bus.takes now ∙ fails 0 (omega arith) in
    let after : (u : ℕ) → try + 1 + u ≡ try + suc u = λ u. omega arith in
    let next : try + suc t ≡ try + 1 + t = omega arith in
    let rest =
      init_loop-takes bus (try + 1) left t (record s { initialized = false }) (omega arith)
        (λ u h. ap bus.takes (after u) ∙ fails (suc u) (omega arith))
        (ap bus.takes (sym next) ∙ takes) in
    rw here (
      ap (λ (r : Driver × ℕ). (r.0, r.1 + 1)) rest
      ∙ ap₂ (λ n k. (started bus n s, k)) (sym next) (omega arith))

init_loop-fails :
    (bus : Bus) (try left : ℕ) (s : Driver)
    → s.initialized ≡ false
    → ((u : ℕ) → u < left → bus.takes (try + u) ≡ false)
    → init_loop bus try left s ≡ (s, left)
unfolding init_loop
init_loop-fails bus try zero s init fails = refl
init_loop-fails bus try (suc left) s init fails =
    let now : try ≡ try + 0 = omega arith in
    let here : bus.takes try ≡ false = ap bus.takes now ∙ fails 0 (omega arith) in
    let after : (u : ℕ) → try + 1 + u ≡ try + suc u = λ u. omega arith in
    let same : record s { initialized = false } ≡ s =
      ap (λ b. record s { initialized = b }) (sym init) in
    rw (here, same)
      (ap (λ (r : Driver × ℕ). (r.0, r.1 + 1))
          (init_loop-fails bus (try + 1) left s init
            (λ u h. ap bus.takes (after u) ∙ fails (suc u) (omega arith)))
        ∙ ap (λ k. (s, k)) (omega arith))

-- When the bus takes the commands in the t-th of the fifty tries first, counted from 0, the driver is started
-- after t pauses with a cleared buffer and no work queued; from statics that are zero it has sent the commands of
-- the start and the one that switches the display on, and no frame.
pub ssd1306_init-takes :
    (bus : Bus) (t : ℕ) (s : Driver)
    → t < 50
    → ((u : ℕ) → u < t → bus.takes u ≡ false)
    → bus.takes t ≡ true
    → s.display.dirty ≡ false
    → ((n : ℕ) → length (bus.garbage n) ≡ n)
    → ssd1306_init bus s ≡ (
      record {
        display = record { buffer = replicate 512 0; dirty = false };
        initialized = true;
        submitted = false;
        sent = (0x00 ∷ 0xaf ∷ []) ∷ (0x00 ∷ joined init_commands) ∷ s.sent;
      },
      t,
    )
unfolding ssd1306_init started send_frame blit new_display ssd1306_set_display_on ssd1306_cmd_size
ssd1306_init-takes bus t s t50 fails takes clean sized =
    let from_0 : (u : ℕ) → 0 + u ≡ u = λ u. omega arith in
    init_loop-takes bus 0 50 t (record s { initialized = false }) t50
      (λ u h. ap bus.takes (from_0 u) ∙ fails u h) (ap bus.takes (from_0 t) ∙ takes)
    ∙ rw
        (
          clean,
          ssd1306_command-joined (bus.garbage 29) init_commands
              (sized 29 ∙ ap (λ n. n + 1) (sym init_commands_size)),
          ssd1306_command-joined (bus.garbage 2) (ssd1306_set_display_on true ∷ []) (sized 2),
        )
        refl

-- When the bus takes the commands in none of the tries, fifty pauses later the driver is as it was, not
-- started.
pub ssd1306_init-fails :
    (bus : Bus) (s : Driver)
    → ((u : ℕ) → u < 50 → bus.takes u ≡ false)
    → ssd1306_init bus s ≡ (record s { initialized = false }, 50)
unfolding ssd1306_init
ssd1306_init-fails bus s fails =
    let from_0 : (u : ℕ) → 0 + u ≡ u = λ u. omega arith in
    init_loop-fails bus 0 50 (record s { initialized = false }) refl
      (λ u h. ap bus.takes (from_0 u) ∙ fails u h)

-- The logo and the status line on an empty display.
first_screen :
    (m : Memory) (status : Status) (sent : List (List ℕ)) (x k : ℕ)
    → k < 4
    → x < 128
    → let blank : Display = record { buffer = replicate 512 0; dirty = false } in
      let shown : DisplayState = record {
        status = status;
        driver = record {
          display = draw_logo blank;
          initialized = true;
          submitted = false;
          sent = sent;
        };
      } in
      (get_or (redraw m shown).driver.display.buffer (x * 4 + k) 0 ≡ (
        if ltb k 3
        then get_or display_logo (x * 3 + k) 0
        else text_column m.past (layout status) x))
      × (next_frame (redraw m shown).driver
          ≡ ssd1306_data (redraw m shown).driver.display.buffer ∷ sent)
first_screen m status sent x k k4 x128 =
    let blank : Display = record { buffer = replicate 512 0; dirty = false } in
    let logo = draw_logo-bytes x k blank (length-replicate {A = ℕ} 512 0) k4 x128 in
    let drawn =
      redraw_lem m
        (record {
          status = status;
          driver = record {
            display = draw_logo blank;
            initialized = true;
            submitted = false;
            sent = sent;
          };
        })
        x k refl logo.1 k4 x128 in
    (
      drawn.1 ∙ elim (Bool-cases (ltb k 3)) [
        | inl above ↦
            let not_3 : (k == 3) ≡ false = ground arith in
            rw (not_3, above) (logo.0 ∙ rw above refl)
        | inr below ↦ let is_3 : (k == 3) ≡ true = ground arith in rw (is_3, below) refl
      ],
      drawn.2,
    )

-- When the bus takes the commands of the start in some try, first in the t-th, and the statics of the driver are
-- zero before: after `display_init` the three upper rows show the logo and the last one the layout of a controller
-- that is not locked and probes for a Switch, and the next run of the work item sends this frame, after the commands.
pub display_init-layout :
    (m : Memory) (bus : Bus) (t : ℕ) (s : DisplayState) (x k : ℕ)
    → t < 50
    → ((u : ℕ) → u < t → bus.takes u ≡ false)
    → bus.takes t ≡ true
    → s.driver.display.dirty ≡ false
    → ((n : ℕ) → length (bus.garbage n) ≡ n)
    → k < 4
    → x < 128
    → (get_or (display_init m bus s).driver.display.buffer (x * 4 + k) 0 ≡ (
        if ltb k 3
        then get_or display_logo (x * 3 + k) 0
        else text_column m.past
            (layout (record s.status { locked = false; probing = true; probe_type = nx }))
            x))
      × (next_frame (display_init m bus s).driver
          ≡ ssd1306_data (display_init m bus s).driver.display.buffer
            ∷ (0x00 ∷ 0xaf ∷ [])
            ∷ (0x00 ∷ joined init_commands)
            ∷ s.driver.sent)
unfolding display_init display_draw_logo
display_init-layout m bus t s x k t50 fails takes clean sized k4 x128 =
    rw
      (ap (λ (r : Driver × ℕ). r.0) (ssd1306_init-takes bus t s.driver t50 fails takes clean sized))
      (first_screen m (record s.status { locked = false; probing = true; probe_type = nx })
        ((0x00 ∷ 0xaf ∷ []) ∷ (0x00 ∷ joined init_commands) ∷ s.driver.sent) x k k4 x128)
