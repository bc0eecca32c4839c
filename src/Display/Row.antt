-- ===== src/Display/Row.antt =====
-- src/display/ssd1306.cpp: what a row of text looks like.
use passinglink.Common.{
  ℕ, zero, suc, ◌+◌, ◌-◌, ◌*◌, ◌/◌, ◌%◌, ◌<◌, true, Option, List, ltb, ltb→lt, ◌==◌, Bool-cases,
  inl, inr, ◌≢◌, ◌≡◌, refl, ap, ◌∙◌, length, get_or, set, length-set, get_or-set_self,
  get_or-set_ne, if◌then◌else◌, arith,
}
use passinglink.Display.Frame.{Display, draw_columns, set_row}
use passinglink.Display.Glyph.{
  shown_text, character_at, pixels_at, text_column, length-draw_columns, draw_columns-other,
  draw_columns-text,
}

-- The pixels of the two empty columns and of the text.
drawn_row :
    (past : ℕ → ℕ) (row x k : ℕ) (line : Option (List ℕ)) (d : Display)
    → length d.buffer ≡ 512
    → row < 4
    → k ≡ row
    → x < 128
    → get_or (set_row past row line d).buffer (x * 4 + k) 0 ≡ text_column past (shown_text line) x
unfolding set_row text_column pixels_at character_at
drawn_row past row x k line d full r same x128 = elim (Bool-cases (ltb x 2)) [
  | inl margin ↦
      let low : x < 2 = ltb→lt x 2 margin in
      let k4 : k < 4 = omega arith in
      draw_columns-other past row 0 21 x k line (set (set d.buffer row 0) (row + 4) 0) r k4
        (inr (omega arith))
      ∙ margin_byte x low
      ∙ rw margin refl
  | inr text ↦
      let split : x * 4 + k ≡ ((0 + (x - 2) / 6) * 6 + 2 + (x - 2) % 6) * 4 + row = ground arith in
      ap (λ j. get_or (draw_columns past row 0 21 line (set (set d.buffer row 0) (row + 4) 0)) j 0)
        split
      ∙ draw_columns-text past row 0 21 ((x - 2) / 6) ((x - 2) % 6) line
          (set (set d.buffer row 0) (row + 4) 0) r (omega arith) (omega arith)
          (omega (arith, length-set (set d.buffer row 0) (row + 4) 0, length-set d.buffer row 0))
      ∙ rw text refl
]
  where
    margin_byte : (x : ℕ) → x < 2 → get_or (set (set d.buffer row 0) (row + 4) 0) (x * 4 + k) 0 ≡ 0
    margin_byte zero low =
        get_or-set_ne (set d.buffer row 0) (row + 4) (0 * 4 + k) 0 0 (λ e. absurd (omega arith))
        ∙ ap (λ j. get_or (set d.buffer row 0) j 0) (omega arith)
        ∙ get_or-set_self d.buffer row 0 0 (omega arith)
    margin_byte (suc zero) low =
        ap (λ j. get_or (set (set d.buffer row 0) (row + 4) 0) j 0) (omega arith)
        ∙ get_or-set_self (set d.buffer row 0) (row + 4) 0 0
            (omega (arith, length-set d.buffer row 0))
    margin_byte (suc (suc x)) low = absurd (omega arith)

-- The pixels of the other rows.
drawn_else :
    (past : ℕ → ℕ) (row x k : ℕ) (line : Option (List ℕ)) (d : Display)
    → row < 4
    → k < 4
    → k ≢ row
    → get_or (set_row past row line d).buffer (x * 4 + k) 0 ≡ get_or d.buffer (x * 4 + k) 0
unfolding set_row
drawn_else past row x k line d r k4 ne =
    draw_columns-other past row 0 21 x k line (set (set d.buffer row 0) (row + 4) 0) r k4 (inl ne)
    ∙ get_or-set_ne (set d.buffer row 0) (row + 4) (x * 4 + k) 0 0 (λ e. ne (omega arith))
    ∙ get_or-set_ne d.buffer row (x * 4 + k) 0 0 (λ e. ne (omega arith))

-- Drawing a line in one of the four rows of a full buffer gives that row the columns of the text, leaves the
-- pixels of the other rows, keeps the length of the buffer and marks it.
pub set_row-text_column :
    (past : ℕ → ℕ) (row x k : ℕ) (line : Option (List ℕ)) (d : Display)
    → length d.buffer ≡ 512
    → row < 4
    → k < 4
    → x < 128
    → (get_or (set_row past row line d).buffer (x * 4 + k) 0 ≡ (
        if k == row then text_column past (shown_text line) x else get_or d.buffer (x * 4 + k) 0))
      × (length (set_row past row line d).buffer ≡ 512)
      × ((set_row past row line d).dirty ≡ true)
unfolding set_row
set_row-text_column past row x k line d full r k4 x128 = (
  elim (Bool-cases (k == row)) [
    | inl same ↦ rw same (drawn_row past row x k line d full r (ground arith) x128)
    | inr ne ↦ rw ne (drawn_else past row x k line d r k4 (λ e. ground arith))
  ],
  length-draw_columns past row 0 21 line (set (set d.buffer row 0) (row + 4) 0)
      ∙ length-set (set d.buffer row 0) (row + 4) 0
      ∙ length-set d.buffer row 0
      ∙ full,
  refl,
)
