-- ===== src/Menu/Choice.antt =====
-- What choosing an item of src/display/menu.cpp does, and going back.
use passinglink.Common.{
  ℕ, ◌<◌, false, none, some, List, [], ◌∷◌, ◌==◌, length, get_elem?, ◌≡◌, refl, sym, ap, subst, ◌∙◌,
  arith,
}
use passinglink.Containers.Stack.{empty}
use passinglink.Input.Types.{Input, MenuInput}
use passinglink.Input.Profile.{input_profile_activate}
use passinglink.Menu.Items.{
  Radio, mode, profile, socd_x, socd_y, Item, radio_item, action, Location, Menu, MenuConfig,
  Screen, on_enter, on_option_selected, get_option_count, get_selected_option,
}
use passinglink.Menu.Navigate.{menu_fetch_items, menu_push, menu_pop, menu_input}
use passinglink.Menu.Shape.{rank, get-AreBelow}
use passinglink.Menu.Valid.{IsPath, AreItems, IsCursor, IsWell, IsValid, path_length}
use passinglink.Menu.Kept.{on_enter-IsKept}
use passinglink.Menu.Steps.{pop-IsWell, pushed_on, push_menu, push_leaf, leaf-IsWell, menu-IsWell}
use passinglink.Menu.Invariant.{draw_valid, some-HasMenu}

-- The option that was chosen is the one that is selected.
selected-on_option :
    (c : MenuConfig) (r : Radio) (i : ℕ) (s : Input)
    → i < get_option_count c.board r
    → get_selected_option r (on_option_selected r i s) ≡ i
unfolding get_selected_option on_option_selected get_option_count input_profile_activate
selected-on_option c mode i s lt = ground arith
selected-on_option c profile i s lt = refl
selected-on_option c socd_x i s lt = ground arith
selected-on_option c socd_y i s lt = ground arith

-- Right on an item, with what `menu_push` makes of it.
right_lem :
    (c : MenuConfig) (tick : ℕ) (item : Item) (s t : Menu)
    → get_elem? s.menu_items s.menu_selected_index ≡ some item
    → menu_push c tick item s ≡ some t
    → IsValid c t
    → (shown : Screen) × (menu_input c tick MenuInput.right s ≡ some (record t { screen = shown }))
unfolding menu_input
right_lem c tick item s t e_item pushing valid =
    let (shown, drawing) = draw_valid c t valid in (shown, rw (e_item, menu_input, pushing) drawing)

-- If 1001 ticks are longer than a millisecond, then in a valid state with a menu on the stack pressing
-- Right on option i of a radio menu selects that option, and leaves the cursor, the window and the stack
-- of menus where they are.
pub right_selects :
    (c : MenuConfig) (tick : ℕ) (r : Radio) (i : ℕ) (s : Menu)
    → 1000 < c.us_of_ticks 1001
    → i < get_option_count c.board r
    → empty s.menu_stack ≡ false
    → IsValid c s
    → get_elem? s.menu_items s.menu_selected_index ≡ some (radio_item r i)
    → (t : Menu) × (menu_input c tick MenuInput.right s ≡ some t)
      × (get_selected_option r t.input ≡ i)
      × (t.menu_stack ≡ s.menu_stack)
      × (t.menu_scroll_index ≡ s.menu_scroll_index)
      × (t.menu_selected_index ≡ s.menu_selected_index)
unfolding on_enter menu_fetch_items
right_selects c tick r i s slow lt on (well, has) e_item =
    let u = (on_enter c tick (radio_item r i) s).1 in
    let kept = on_enter-IsKept c tick (radio_item r i) s slow lt well.3 in
    let valid : IsValid c (menu_fetch_items c u) =
      (leaf-IsWell c s u kept well, some-HasMenu (menu_fetch_items c u) on) in
    let (shown, e) =
      right_lem c tick (radio_item r i) s (menu_fetch_items c u) e_item
        (push_leaf c tick (radio_item r i) s refl) valid in
    (_, e, selected-on_option c r i s.input lt, refl, refl, refl)

left_lem :
    (c : MenuConfig) (tick : ℕ) (s : Menu)
    → (length s.menu_stack == 1) ≡ false
    → IsValid c (menu_pop c s)
    → (shown : Screen) × (menu_input c tick MenuInput.left s
        ≡ some (record (menu_pop c s) { screen = shown }))
unfolding menu_input
left_lem c tick s several valid =
    let (shown, drawing) = draw_valid c (menu_pop c s) valid in (shown, rw several drawing)

on_enter_menu :
    (c : MenuConfig) (tick : ℕ) (item : Item) (s : Menu)
    → 0 < rank item
    → (on_enter c tick item s).1 ≡ s
unfolding on_enter
on_enter_menu c tick (radio_item r i) s pos = absurd (omega arith)
on_enter_menu c tick (action a) s pos = absurd (omega arith)
on_enter_menu c tick item s pos = refl

top_of :
    (stack : List Location)
    → empty stack ≡ false
    → (top : Location) × (rest : List Location) × (stack ≡ top ∷ rest)
top_of [] e = absurd (ground arith)
top_of (top ∷ rest) e = (top, rest, refl)

-- A menu among the items of the one on top is below it.
item-rank :
    (c : MenuConfig) (s : Menu) (top : Location) (rest : List Location) (item : Item)
    → s.menu_stack ≡ top ∷ rest
    → IsWell c s
    → get_elem? s.menu_items s.menu_selected_index ≡ some item
    → rank item < rank top.menu
item-rank c s top rest item e well e_item =
    let items = subst (λ st. AreItems c st s.menu_items) e well.1 in
    let cursor = subst (λ st. IsCursor c st s.menu_scroll_index s.menu_selected_index) e well.2 in
    let (other, e_other, below, _) =
      get-AreBelow c (rank top.menu) s.menu_items s.menu_selected_index items.1
        (omega (arith, items.0, cursor.0)) in
    subst (λ o. elim o [ none ↦ Unit {0} | some i ↦ rank i < rank top.menu ]) (sym e_other ∙ e_item)
      below

-- In a valid state with a menu on the stack, pressing Right on an item that is a menu and then Left goes back to the
-- same stack of menus, with the cursor and the window on the items where they were.
pub right-left_back :
    (c : MenuConfig) (tick later : ℕ) (item : Item) (s : Menu)
    → 0 < rank item
    → empty s.menu_stack ≡ false
    → IsValid c s
    → get_elem? s.menu_items s.menu_selected_index ≡ some item
    → (t u : Menu) × (menu_input c tick MenuInput.right s ≡ some t)
      × (menu_input c later MenuInput.left t ≡ some u)
      × (u.menu_stack ≡ s.menu_stack)
      × (u.menu_scroll_index ≡ s.menu_scroll_index)
      × (u.menu_selected_index ≡ s.menu_selected_index)
unfolding menu_fetch_items menu_pop
right-left_back c tick later item s pos on (well, has) e_item =
    let (top, rest, e) = top_of s.menu_stack on in
    let below = item-rank c s top rest item e well e_item in
    let same = on_enter_menu c tick item s pos in
    let deep = path_length c top rest (subst (IsPath c) e well.0) in
    let next = menu-IsWell c item s s top rest e (refl, refl, refl, refl, well.3) well pos below in
    let pushing =
      push_menu c tick item s pos
        (omega (arith, ap (λ v. length v.menu_stack) same, ap length e, deep.0))
      ∙ ap (λ v. some (pushed_on c item v)) same in
    let (shown, e_right) =
      right_lem c tick item s (pushed_on c item s) e_item pushing (next, ground arith) in
    let t = record (pushed_on c item s) { screen = shown } in
    let (_, e_left) =
      left_lem c later t (ground (arith, ap length e))
        (pop-IsWell c t next, some-HasMenu (menu_pop c t) on) in
    (t, _, e_right, e_left, refl, refl, refl)
