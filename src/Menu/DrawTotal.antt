-- ===== src/Menu/DrawTotal.antt =====
-- `menu_draw` of src/display/menu.cpp stays within its arrays and its buffer of 21 bytes and the null byte.
use passinglink.Common.{
  ℕ, zero, suc, ◌+◌, ◌-◌, ◌≤◌, Bool, true, false, Option, none, some, List, [], ◌∷◌, ◌++◌, ltb,
  ◌==◌, length, ◌≡◌, refl, arith, if◌then◌else◌,
}
use passinglink.Util.{Written, codes, until_nul}
use passinglink.Menu.Items.{Item, Menu, MenuConfig, Screen}
use passinglink.Menu.Render.{
  display_width, show_caret, display_rows, draw_item, draw_rows, menu_draw,
}
use passinglink.Menu.Shape.{IsShown, AreBelow, get-AreBelow}
use passinglink.Menu.Valid.{AreShown}
use passinglink.Menu.Texts.{Fits, text-Fits}

line_found :
    (size : ℕ) {o : Option Written} (f : Written → List ℕ)
    → Fits size o
    → (line : List ℕ) × ((elim o [
      | none ↦ none
      | some t ↦ if ltb size t.count then none else some (f t)
    ])
        ≡ some line)
line_found size {o} f (w, e, le) =
    let fits : ltb size w.count ≡ false = ground arith in (f w, rw (e, fits) refl)

abbrev caret : Bool → Item → List ℕ
caret at_cursor item =
    if show_caret item then (if at_cursor then codes "> " else codes "  ") else []

caret_small : (at_cursor : Bool) (item : Item) → 19 ≤ display_width - length (caret at_cursor item)
caret_small at_cursor item = ground arith

item_drawn :
    (c : MenuConfig) (s : Menu) (at_cursor : Bool) (item : Item)
    → IsShown c item
    → AreShown c s.input s.report_delay_ticks
    → (line : List ℕ) × (draw_item c s at_cursor item ≡ some line)
unfolding draw_item
item_drawn c s at_cursor item shown ok =
    let size = display_width - length (caret at_cursor item) in
    line_found size (λ text. until_nul (caret at_cursor item ++ text.bytes))
      (text-Fits c s size item (caret_small at_cursor item) shown ok)

rows_drawn :
    (c : MenuConfig) (s : Menu) (r k i : ℕ)
    → AreBelow c r s.menu_items
    → AreShown c s.input s.report_delay_ticks
    → s.menu_scroll_index ≤ length s.menu_items - 3
    → i + k ≤ 3
    → (rows : List (Option (List ℕ))) × (draw_rows c s k i ≡ some rows)
unfolding draw_rows
rows_drawn c s r zero i below ok h le = ([], refl)
rows_drawn c s r (suc k) i below ok h le =
    elim (ltb i (length s.menu_items))
        as (λ b.
          ltb i (length s.menu_items) ≡ b
          → (rows : List (Option (List ℕ))) × (draw_rows c s (suc k) i ≡ some rows)) [
            | true ↦ λ e.
                let (rest, e_rest) = rows_drawn c s r k (i + 1) below ok h (omega arith) in
                let (item, e_item, _, shown) =
                  get-AreBelow c r s.menu_items (s.menu_scroll_index + i) below (ground arith) in
                let (line, e_line) =
                  item_drawn c s (s.menu_scroll_index + i == s.menu_selected_index) item shown ok in
                (some line ∷ rest, rw (e_rest, e, e_item, e_line) refl)
            | false ↦ λ e.
                let (rest, e_rest) = rows_drawn c s r k (i + 1) below ok h (omega arith) in
                (none ∷ rest, rw (e_rest, e) refl)
          ]
      refl

-- Drawing changes what is shown, and nothing else.
pub draw_lem :
    (c : MenuConfig) (s : Menu) (r : ℕ)
    → AreBelow c r s.menu_items
    → AreShown c s.input s.report_delay_ticks
    → s.menu_scroll_index ≤ length s.menu_items - 3
    → (shown : Screen) × (menu_draw c s ≡ some (record s { screen = shown }))
unfolding menu_draw
draw_lem c s r below ok h =
    elim s.menu_opened
        as (λ b.
          s.menu_opened ≡ b
          → (shown : Screen) × (menu_draw c s ≡ some (record s { screen = shown }))) [
            | true ↦ λ e.
                let (rows, e_rows) = rows_drawn c s r display_rows 0 below ok h (omega arith) in
                (Screen.lines rows, simp (e_rows, e) refl)
            | false ↦ λ e. (Screen.logo, simp e refl)
          ]
      refl

pub draw_closed :
    (c : MenuConfig) (s : Menu)
    → s.menu_opened ≡ false
    → menu_draw c s ≡ some (record s { screen = Screen.logo })
unfolding menu_draw
draw_closed c s e = simp e refl
