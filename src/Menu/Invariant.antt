-- ===== src/Menu/Invariant.antt =====
-- The functions of src/display/menu.cpp keep its statics valid, and never fault on valid ones.
use passinglink.Common.{
  ℕ, ◌+◌, ◌<◌, Bool, true, false, Option, none, some, List, [], ◌∷◌, ltb, ltb→lt, ◌==◌, length, ◌≡◌,
  refl, subst, arith, if◌then◌else◌,
}
use passinglink.Containers.Stack.{empty}
use passinglink.Input.Types.{MenuInput}
use passinglink.Menu.Items.{Location, Menu, MenuConfig, Screen}
use passinglink.Menu.Render.{menu_draw}
use passinglink.Menu.Navigate.{menu_fetch_items, menu_pop, cursor_up, cursor_down, menu_input}
use passinglink.Menu.Shape.{rank, get-AreBelow}
use passinglink.Menu.Valid.{AreItems, IsCursor, IsWell, HasMenu, IsValid}
use passinglink.Menu.Steps.{pop-IsWell, push_item}
use passinglink.Menu.DrawTotal.{draw_lem, draw_closed}

-- Drawing a valid state works, and changes what is shown only.
pub draw_valid :
    (c : MenuConfig) (s : Menu)
    → IsValid c s
    → (shown : Screen) × (menu_draw c s ≡ some (record s { screen = shown }))
draw_valid c s =
    elim s.menu_stack
      as (λ stack.
        let u = record s { menu_stack = stack } in
        IsValid c u → (shown : Screen) × (menu_draw c u ≡ some (record u { screen = shown }))) [
          | [] ↦ λ h. (Screen.logo, draw_closed c (record s { menu_stack = [] }) (ground arith))
          | top ∷ rest ↦ λ h.
              draw_lem c (record s { menu_stack = top ∷ rest }) (rank top.menu) h.0.1.1 h.0.3
                (omega (arith, h.0.1.0, h.0.2))
        ]

pub draw-IsValid :
    (c : MenuConfig) (s : Menu) → IsValid c s → (t : Menu) × (menu_draw c s ≡ some t) × IsValid c t
draw-IsValid c s valid =
    let (shown, e) = draw_valid c s valid in (record s { screen = shown }, e, valid)

-- A call that does not fault, and leaves a valid state.
abbrev pub Works : MenuConfig → Option Menu → Type 0
Works c o = (t : Menu) × (o ≡ some t) × IsValid c t

-- What is made of a result is drawn.
pub drawn :
    (c : MenuConfig) (f : Menu → Menu) {o : Option Menu} {s : Menu}
    → o ≡ some s
    → IsValid c (f s)
    → Works c (elim o [ none ↦ none | some t ↦ menu_draw c (f t) ])
drawn c f {o} {s} e valid =
    let (t, drawing, next) = draw-IsValid c (f s) valid in (t, rw e drawing, next)

pub either :
    (c : MenuConfig) (b : Bool) {x y : Option Menu}
    → (b ≡ true → Works c x)
    → (b ≡ false → Works c y)
    → Works c (if b then x else y)
either c true f g = f refl
either c false f g = g refl

left-HasMenu :
    (c : MenuConfig) (s : Menu)
    → HasMenu s
    → (length s.menu_stack == 1) ≡ false
    → HasMenu (menu_pop c s)
unfolding menu_pop menu_fetch_items
left-HasMenu c s =
    elim s.menu_stack
      as (λ stack.
        let t = record s { menu_stack = stack } in
        HasMenu t → (length stack == 1) ≡ false → HasMenu (menu_pop c t)) [
          | [] ↦ λ h _. h
          | top ∷ [] ↦ λ _ e. absurd (ground arith)
          | top ∷ (k ∷ ls) ↦ λ _ _. ground arith
        ]

up-IsCursor :
    (c : MenuConfig) (stack : List Location) (s : Menu)
    → IsCursor c stack s.menu_scroll_index s.menu_selected_index
    → IsCursor c stack (cursor_up s).menu_scroll_index (cursor_up s).menu_selected_index
unfolding cursor_up
up-IsCursor c [] s h = tt
up-IsCursor c (top ∷ rest) s h = ground arith

down-IsCursor :
    (c : MenuConfig) (s : Menu)
    → IsWell c s
    → s.menu_selected_index + 1 < length s.menu_items
    → IsCursor c s.menu_stack (cursor_down s).menu_scroll_index (cursor_down s).menu_selected_index
unfolding cursor_down
down-IsCursor c s =
    elim s.menu_stack
      as (λ stack.
        let t = record s { menu_stack = stack } in
        IsWell c t
        → s.menu_selected_index + 1 < length s.menu_items
        → IsCursor c stack (cursor_down t).menu_scroll_index (cursor_down t).menu_selected_index) [
          | [] ↦ λ h lt. tt
          | top ∷ rest ↦ λ h lt. let size = h.1.0 in let range = h.2 in ground arith
        ]

up-Works :
    (c : MenuConfig) (tick : ℕ) (s : Menu)
    → IsValid c s
    → Works c (menu_input c tick MenuInput.up s)
unfolding menu_input cursor_up
up-Works c tick s (well, has) =
    either c (s.menu_selected_index == 0) (λ _. (s, refl, (well, has)))
      (λ _.
        draw-IsValid c (cursor_up s)
          ((well.0, well.1, up-IsCursor c s.menu_stack s well.2, well.3), has))

down-Works :
    (c : MenuConfig) (tick : ℕ) (s : Menu)
    → IsValid c s
    → Works c (menu_input c tick MenuInput.down s)
unfolding menu_input cursor_down
down-Works c tick s (well, has) =
    either c (ltb (s.menu_selected_index + 1) (length s.menu_items))
      (λ e.
        draw-IsValid c (cursor_down s)
          ((well.0, well.1, down-IsCursor c s well (ltb→lt _ _ e), well.3), has))
      (λ _. (s, refl, (well, has)))

left-Works :
    (c : MenuConfig) (tick : ℕ) (s : Menu)
    → IsValid c s
    → Works c (menu_input c tick MenuInput.left s)
unfolding menu_input
left-Works c tick s (well, has) =
    either c (length s.menu_stack == 1) (λ _. (s, refl, (well, has)))
      (λ e. draw-IsValid c (menu_pop c s) (pop-IsWell c s well, left-HasMenu c s has e))

pub some-HasMenu : (s : Menu) → empty s.menu_stack ≡ false → HasMenu s
some-HasMenu s e = rw e (ground arith)

right_on :
    (c : MenuConfig) (tick : ℕ) (s : Menu) (top : Location) (rest : List Location)
    → 1000 < c.us_of_ticks 1001
    → s.menu_stack ≡ top ∷ rest
    → IsWell c s
    → Works c (menu_input c tick MenuInput.right s)
unfolding menu_input
right_on c tick s top rest slow e well =
    let items = subst (λ st. AreItems c st s.menu_items) e well.1 in
    let cursor = subst (λ st. IsCursor c st s.menu_scroll_index s.menu_selected_index) e well.2 in
    let (item, e_item, below, shown) =
      get-AreBelow c (rank top.menu) s.menu_items s.menu_selected_index items.1
        (omega (arith, items.0, cursor.0)) in
    let (t, pushing, next, on) = push_item c tick item s top rest slow e well below shown in
    rw (e_item, menu_input) (drawn c (λ u. u) pushing (next, some-HasMenu t on))

right-Works :
    (c : MenuConfig) (tick : ℕ) (s : Menu)
    → 1000 < c.us_of_ticks 1001
    → empty s.menu_stack ≡ false
    → IsWell c s
    → Works c (menu_input c tick MenuInput.right s)
right-Works c tick s slow =
    elim s.menu_stack
      as (λ stack.
        let t = record s { menu_stack = stack } in
        empty stack ≡ false → IsWell c t → Works c (menu_input c tick MenuInput.right t)) [
          | [] ↦ λ e _. absurd (ground arith)
          | top ∷ rest ↦ λ _ well.
              right_on c tick (record s { menu_stack = top ∷ rest }) top rest slow refl well
        ]

-- If 1001 ticks are longer than a millisecond, then every input in a valid state with a menu on the stack
-- succeeds, so that it finds its item and its place on the stack and draws within the display's lines,
-- and leaves a valid state.
pub input-IsValid :
    (c : MenuConfig) (tick : ℕ) (i : MenuInput) (s : Menu)
    → 1000 < c.us_of_ticks 1001
    → empty s.menu_stack ≡ false
    → IsValid c s
    → (t : Menu) × (menu_input c tick i s ≡ some t) × IsValid c t
input-IsValid c tick MenuInput.up s slow on valid = up-Works c tick s valid
input-IsValid c tick MenuInput.down s slow on valid = down-Works c tick s valid
input-IsValid c tick MenuInput.left s slow on valid = left-Works c tick s valid
input-IsValid c tick MenuInput.right s slow on valid = right-Works c tick s slow on valid.0
