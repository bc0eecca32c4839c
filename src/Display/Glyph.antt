-- ===== src/Display/Glyph.antt =====
-- src/display/ssd1306.cpp: how the characters of a row are drawn.
use passinglink.Common.{
  ℕ, zero, suc, ◌+◌, ◌-◌, ◌*◌, ◌/◌, ◌%◌, ◌<◌, ◌≤◌, true, false, Option, none, some, List, [], ◌∷◌,
  ltb, ◌==◌, Bool-cases, ◌⊎◌, inl, inr, ◌≢◌, ◌≡◌, refl, ap, ◌∙◌, length, get_or, set, length-set,
  get_or-set_self, get_or-set_ne, if◌then◌else◌, arith,
}
use passinglink.Util.{until_nul}
use passinglink.Display.Frame.{next_character, drawable, font_byte, draw_character, draw_columns}

-- The text of a line: its bytes before the first null byte; a null pointer is an empty line.
abbrev pub shown_text : Option (List ℕ) → List ℕ
shown_text none = []
shown_text (some line) = until_nul line

unfoldable pub character_at : Option (List ℕ) → ℕ → ℕ
character_at line column = get_or (shown_text line) column 0x20

-- The eight pixels of the column t of a text, at six columns for a character; there are spaces behind its end.
unfoldable pub pixels_at : (ℕ → ℕ) → List ℕ → ℕ → ℕ
pixels_at past text t =
    if t % 6 == 5
    then 0
    else font_byte past (5 * (drawable (get_or text (t / 6) 0x20) - 0x20) + t % 6)

-- The columns of a row of text: two that are empty, and the text.
unfoldable pub text_column : (ℕ → ℕ) → List ℕ → ℕ → ℕ
text_column past text x = if ltb x 2 then 0 else pixels_at past text (x - 2)

next_first : (line : Option (List ℕ)) → (next_character line).0 ≡ character_at line 0
unfolding next_character character_at
next_first none = refl
next_first (some []) = refl
next_first (some (c ∷ cs)) =
    elim (c == 0)
      as (λ b.
        let step : ℕ × Option (List ℕ) = if b then (0x20, none) else (c, some cs) in
        step.0 ≡ get_or (if b then [] else c ∷ until_nul cs) 0 0x20) [ true ↦ refl | false ↦ refl ]

next_rest :
    (line : Option (List ℕ)) (k : ℕ)
    → character_at (next_character line).1 k ≡ character_at line (suc k)
unfolding next_character character_at
next_rest none k = refl
next_rest (some []) k = refl
next_rest (some (c ∷ cs)) k =
    elim (c == 0)
      as (λ b.
        let step : ℕ × Option (List ℕ) = if b then (0x20, none) else (c, some cs) in
        character_at step.1 k ≡ get_or (if b then [] else c ∷ until_nul cs) (suc k) 0x20) [
          | true ↦ refl
          | false ↦ refl
        ]

module _ (past : ℕ → ℕ) (row : ℕ) where
  length-draw_character :
      (p c i left : ℕ) (buf : List ℕ) → length (draw_character past row p c i left buf) ≡ length buf
  unfolding draw_character
  length-draw_character p c i zero buf = refl
  length-draw_character p c i (suc left) buf =
      length-draw_character p c (i + 1) left (set buf ((p + i) * 4 + row) _)
      ∙ length-set buf ((p + i) * 4 + row) _

  pub length-draw_columns :
      (c n : ℕ) (line : Option (List ℕ)) (buf : List ℕ)
      → length (draw_columns past row c n line buf) ≡ length buf
  unfolding draw_columns
  length-draw_columns c zero line buf = refl
  length-draw_columns c (suc n) line buf =
      length-draw_columns (c + 1) n (next_character line).1 _
      ∙ length-set (draw_character past row (c * 6 + 2) (drawable (next_character line).0) 0 5 buf)
          ((c * 6 + 2 + 5) * 4 + row) 0
      ∙ length-draw_character (c * 6 + 2) (drawable (next_character line).0) 0 5 buf

  -- A byte that a character does not touch.
  draw_character-other :
      (p c i left j : ℕ) (buf : List ℕ)
      → ((t : ℕ) → i ≤ t → t < i + left → (p + t) * 4 + row ≢ j)
      → get_or (draw_character past row p c i left buf) j 0 ≡ get_or buf j 0
  unfolding draw_character
  draw_character-other p c i zero j buf far = refl
  draw_character-other p c i (suc left) j buf far =
      draw_character-other p c (i + 1) left j (set buf ((p + i) * 4 + row) _)
        (λ t low high. far t (omega arith) (omega arith))
      ∙ get_or-set_ne buf ((p + i) * 4 + row) j _ 0 (far i (omega arith) (omega arith))

  draw_character-byte :
      (p c i left t : ℕ) (buf : List ℕ)
      → i ≤ t
      → t < i + left
      → (p + t) * 4 + row < length buf
      → get_or (draw_character past row p c i left buf) ((p + t) * 4 + row) 0
        ≡ font_byte past (5 * (c - 0x20) + t)
  unfolding draw_character
  draw_character-byte p c i zero t buf low high fits = absurd (omega arith)
  draw_character-byte p c i (suc left) t buf low high fits = elim (Bool-cases (i == t)) [
    | inl here ↦
        let same : i ≡ t = ground arith in
        let back : t ≡ i = omega arith in
        draw_character-other p c (i + 1) left ((p + t) * 4 + row) (set buf ((p + i) * 4 + row) _)
          (λ u low_u high_u. λ e. absurd (omega arith))
        ∙ ap
            (λ k.
              get_or (set buf ((p + i) * 4 + row) (font_byte past (5 * (c - 0x20) + i)))
                ((p + k) * 4 + row) 0)
            back
        ∙ get_or-set_self buf ((p + i) * 4 + row) _ 0 (omega arith)
        ∙ ap (λ k. font_byte past (5 * (c - 0x20) + k)) same
    | inr apart ↦
        draw_character-byte p c (i + 1) left t (set buf ((p + i) * 4 + row) _) (ground arith)
          (omega arith)
          (omega (arith, length-set buf ((p + i) * 4 + row) (font_byte past (5 * (c - 0x20) + i))))
  ]

  pub draw_columns-other :
      (c n x k : ℕ) (line : Option (List ℕ)) (buf : List ℕ)
      → row < 4
      → k < 4
      → (k ≢ row) ⊎ (x < c * 6 + 2)
      → get_or (draw_columns past row c n line buf) (x * 4 + k) 0 ≡ get_or buf (x * 4 + k) 0
  unfolding draw_columns
  draw_columns-other c zero x k line buf r k4 far = refl
  draw_columns-other c (suc n) x k line buf r k4 far =
      draw_columns-other (c + 1) n x k (next_character line).1 _ r k4 (further far)
      ∙ get_or-set_ne
          (draw_character past row (c * 6 + 2) (drawable (next_character line).0) 0 5 buf)
          ((c * 6 + 2 + 5) * 4 + row) (x * 4 + k) 0 0 (apart far 5)
      ∙ draw_character-other (c * 6 + 2) (drawable (next_character line).0) 0 5 (x * 4 + k) buf
          (λ t low high. apart far t)
    where
      further : (k ≢ row) ⊎ (x < c * 6 + 2) → (k ≢ row) ⊎ (x < (c + 1) * 6 + 2)
      further (inl ne) = inl ne
      further (inr below) = inr (omega arith)

      apart : (k ≢ row) ⊎ (x < c * 6 + 2) → (t : ℕ) → (c * 6 + 2 + t) * 4 + row ≢ x * 4 + k
      apart (inl ne) t = λ e. ne (omega arith)
      apart (inr below) t = λ e. absurd (omega arith)

  -- One character and the space behind it.
  draw_one :
      (p c t : ℕ) (buf : List ℕ)
      → t < 6
      → (p + t) * 4 + row < length buf
      → get_or
          (set (draw_character past row p c 0 5 buf) ((p + 5) * 4 + row) 0)
          ((p + t) * 4 + row)
          0
        ≡ (if t == 5 then 0 else font_byte past (5 * (c - 0x20) + t))
  draw_one p c t buf t6 fits = elim (Bool-cases (t == 5)) [
    | inl last ↦
        let is_5 : t ≡ 5 = ground arith in
        ap
          (λ k.
            get_or (set (draw_character past row p c 0 5 buf) ((p + 5) * 4 + row) 0)
              ((p + k) * 4 + row) 0)
          is_5
        ∙ get_or-set_self (draw_character past row p c 0 5 buf) ((p + 5) * 4 + row) 0 0
            (omega (arith, length-draw_character p c 0 5 buf))
        ∙ rw last refl
    | inr before ↦
        let not_5 : t ≢ 5 = λ e. ground arith in
        get_or-set_ne (draw_character past row p c 0 5 buf) ((p + 5) * 4 + row) ((p + t) * 4 + row)
          0 0 (λ e. not_5 (omega arith))
        ∙ draw_character-byte p c 0 5 t buf (omega arith) (omega arith) fits
        ∙ rw before refl
  ]

  pub draw_columns-text :
      (c n m t : ℕ) (line : Option (List ℕ)) (buf : List ℕ)
      → row < 4
      → m < n
      → t < 6
      → ((c + m) * 6 + 2 + t) * 4 + row < length buf
      → get_or (draw_columns past row c n line buf) (((c + m) * 6 + 2 + t) * 4 + row) 0
        ≡ (if t == 5 then 0 else font_byte past (5 * (drawable (character_at line m) - 0x20) + t))
  unfolding draw_columns
  draw_columns-text c zero m t line buf r mn t6 fits = absurd (omega arith)
  draw_columns-text c (suc n) zero t line buf r mn t6 fits =
      let here : ((c + 0) * 6 + 2 + t) * 4 + row ≡ (c * 6 + 2 + t) * 4 + row = omega arith in
      draw_columns-other (c + 1) n ((c + 0) * 6 + 2 + t) row (next_character line).1
        (set (draw_character past row (c * 6 + 2) (drawable (next_character line).0) 0 5 buf)
          ((c * 6 + 2 + 5) * 4 + row) 0)
        r r (inr (omega arith))
      ∙ ap
          (λ k.
            get_or
              (set (draw_character past row (c * 6 + 2) (drawable (next_character line).0) 0 5 buf)
                ((c * 6 + 2 + 5) * 4 + row) 0)
              k 0)
          here
      ∙ draw_one (c * 6 + 2) (drawable (next_character line).0) t buf t6 (omega arith)
      ∙ ap (λ d. if t == 5 then 0 else font_byte past (5 * (drawable d - 0x20) + t))
          (next_first line)
  draw_columns-text c (suc n) (suc m) t line buf r mn t6 fits =
      let drawn = draw_character past row (c * 6 + 2) (drawable (next_character line).0) 0 5 buf in
      let there : ((c + suc m) * 6 + 2 + t) * 4 + row ≡ ((c + 1 + m) * 6 + 2 + t) * 4 + row =
        omega arith in
      ap
        (λ k.
          get_or
            (draw_columns past row (c + 1) n (next_character line).1
              (set drawn ((c * 6 + 2 + 5) * 4 + row) 0))
            k 0)
        there
      ∙ draw_columns-text (c + 1) n m t (next_character line).1
          (set drawn ((c * 6 + 2 + 5) * 4 + row) 0) r (omega arith) t6
          (omega (
            arith,
            length-set drawn ((c * 6 + 2 + 5) * 4 + row) 0,
            length-draw_character (c * 6 + 2) (drawable (next_character line).0) 0 5 buf,
          ))
      ∙ ap (λ d. if t == 5 then 0 else font_byte past (5 * (drawable d - 0x20) + t))
          (next_rest line m)
