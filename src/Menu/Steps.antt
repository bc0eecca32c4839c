-- ===== src/Menu/Steps.antt =====
-- What `menu_push` and `menu_pop` of src/display/menu.cpp keep.
use passinglink.Common.{
  ℕ, zero, suc, ◌<◌, true, false, some, List, [], ◌∷◌, lt→ltb, ◌==◌, length, ◌≡◌, refl, sym, ap,
  subst, ◌∙◌, arith,
}
use passinglink.Containers.Stack.{empty}
use passinglink.Menu.Items.{Item, Location, Menu, MenuConfig, on_enter}
use passinglink.Menu.Navigate.{menu_fetch_items, menu_push, menu_pop, menu_pop_all}
use passinglink.Menu.Shape.{rank, size_of, IsShown, on_enter-rank, size_pos}
use passinglink.Menu.Valid.{
  InRange, IsPath, IsCursor, AreShown, IsWell, path_length, start-InRange, fetch-AreItems,
}
use passinglink.Menu.Kept.{IsKept, on_enter-IsKept}

pub pop-IsWell : (c : MenuConfig) (s : Menu) → IsWell c s → IsWell c (menu_pop c s)
unfolding menu_pop menu_fetch_items
pop-IsWell c s =
    elim s.menu_stack
      as (λ stack.
        let t = record s { menu_stack = stack } in IsWell c t → IsWell c (menu_pop c t)) [
          | [] ↦ λ h. h
          | top ∷ [] ↦ λ h. (tt, refl, tt, h.3)
          | top ∷ (k ∷ ls) ↦ λ h.
              let u = record s {
                menu_stack = k ∷ ls;
                menu_scroll_index = top.scroll_index;
                menu_selected_index = top.selected_index;
              } in
              (h.0.2, fetch-AreItems c u, h.0.1, h.3)
        ]

pub pop-flags :
    (c : MenuConfig) (s : Menu)
    → ((menu_pop c s).menu_opened ≡ s.menu_opened)
      × ((menu_pop c s).keep_menu_spot ≡ s.keep_menu_spot)
unfolding menu_pop menu_fetch_items
pop-flags c s =
    elim s.menu_stack
      as (λ stack.
        let t = record s { menu_stack = stack } in
        ((menu_pop c t).menu_opened ≡ s.menu_opened)
        × ((menu_pop c t).keep_menu_spot ≡ s.keep_menu_spot)) [
          | [] ↦ (refl, refl)
          | top ∷ rest ↦ (refl, refl)
        ]

pub pop-stack :
    (c : MenuConfig) (s : Menu) (top : Location) (rest : List Location)
    → s.menu_stack ≡ top ∷ rest
    → (menu_pop c s).menu_stack ≡ rest
unfolding menu_pop menu_fetch_items
pop-stack c s top rest e = rw e refl

-- All menus popped: valid, nothing on the stack, and the flags are as they were.
pub pop_all_lem :
    (c : MenuConfig) (stack : List Location) (s : Menu)
    → IsWell c s
    → s.menu_stack ≡ stack
    → IsWell c (menu_pop_all c stack s)
      × ((menu_pop_all c stack s).menu_stack ≡ [])
      × ((menu_pop_all c stack s).keep_menu_spot ≡ s.keep_menu_spot)
unfolding menu_pop_all
pop_all_lem c [] s well e = (well, e, refl)
pop_all_lem c (top ∷ rest) s well e =
    let (w, empty, kept) =
      pop_all_lem c rest (menu_pop c s) (pop-IsWell c s well) (pop-stack c s top rest e) in
    (w, empty, kept ∙ (pop-flags c s).1)

-- A leaf runs, and the items are read again.
pub push_leaf :
    (c : MenuConfig) (tick : ℕ) (item : Item) (s : Menu)
    → rank item ≡ 0
    → menu_push c tick item s ≡ some (menu_fetch_items c (on_enter c tick item s).1)
unfolding menu_push
push_leaf c tick item s e =
    let leaf : (on_enter c tick item s).0 ≡ false = on_enter-rank c tick item s ∙ rw e refl in
    simp leaf refl

-- A menu goes on the stack, with the cursor to come back to.
abbrev pub pushed_on : MenuConfig → Item → Menu → Menu
pushed_on c item t =
    let loc : Location = record {
      menu = item;
      scroll_index = t.menu_scroll_index;
      selected_index = t.menu_selected_index;
    } in
    record (menu_fetch_items c (record t { menu_stack = loc ∷ t.menu_stack })) {
      menu_scroll_index = 0;
      menu_selected_index = 0;
    }

pub push_menu :
    (c : MenuConfig) (tick : ℕ) (item : Item) (s : Menu)
    → 0 < rank item
    → length (on_enter c tick item s).1.menu_stack < 8
    → menu_push c tick item s ≡ some (pushed_on c item (on_enter c tick item s).1)
unfolding menu_push
push_menu c tick item s pos room =
    let entered : (on_enter c tick item s).0 ≡ true =
      on_enter-rank c tick item s ∙ rw (lt→ltb 0 (rank item) pos) refl in
    let fits : (length (on_enter c tick item s).1.menu_stack == 8) ≡ false = ground arith in
    simp (entered, fits) refl

fetch-IsWell :
    (c : MenuConfig) (s : Menu)
    → IsPath c s.menu_stack
    → IsCursor c s.menu_stack s.menu_scroll_index s.menu_selected_index
    → AreShown c s.input s.report_delay_ticks
    → IsWell c (menu_fetch_items c s)
unfolding menu_fetch_items
fetch-IsWell c s path cursor ok = (path, fetch-AreItems c s, cursor, ok)

kept-IsCursor :
    (c : MenuConfig) (s t : Menu)
    → IsKept c s t
    → IsWell c s
    → IsCursor c s.menu_stack t.menu_scroll_index t.menu_selected_index
kept-IsCursor c s t kept well = rw (kept.1, kept.2) well.2

pub leaf-IsWell :
    (c : MenuConfig) (s t : Menu) → IsKept c s t → IsWell c s → IsWell c (menu_fetch_items c t)
leaf-IsWell c s t kept well =
    fetch-IsWell c t (rw kept.0 well.0) (rw kept.0 (kept-IsCursor c s t kept well)) kept.4

pub menu-IsWell :
    (c : MenuConfig) (item : Item) (s t : Menu) (top : Location) (rest : List Location)
    → s.menu_stack ≡ top ∷ rest
    → IsKept c s t
    → IsWell c s
    → 0 < rank item
    → rank item < rank top.menu
    → IsWell c (pushed_on c item t)
unfolding menu_fetch_items
menu-IsWell c item s t top rest e kept well pos below =
    let loc : Location = record {
      menu = item;
      scroll_index = t.menu_scroll_index;
      selected_index = t.menu_selected_index;
    } in
    let u = record t { menu_stack = loc ∷ t.menu_stack } in
    let path = subst (IsPath c) e well.0 in
    let back : InRange (size_of c top.menu) t.menu_scroll_index t.menu_selected_index =
      subst (λ st. IsCursor c st t.menu_scroll_index t.menu_selected_index) e
        (kept-IsCursor c s t kept well) in
    (
      subst (λ st. IsPath c (loc ∷ st)) (sym (kept.0 ∙ e)) ((pos, below), back, path),
      fetch-AreItems c u,
      start-InRange (size_of c item) (size_pos c item pos),
      kept.4,
    )

-- Entering an item of the menu on top never fails, and there is still a menu on the stack.
pub push_item :
    (c : MenuConfig) (tick : ℕ) (item : Item) (s : Menu) (top : Location) (rest : List Location)
    → 1000 < c.us_of_ticks 1001
    → s.menu_stack ≡ top ∷ rest
    → IsWell c s
    → rank item < rank top.menu
    → IsShown c item
    → (t : Menu) × (menu_push c tick item s ≡ some t) × IsWell c t × (empty t.menu_stack ≡ false)
unfolding menu_fetch_items
push_item c tick item s top rest slow e well below shown =
    let t = (on_enter c tick item s).1 in
    let kept = on_enter-IsKept c tick item s slow shown well.3 in
    let deep = path_length c top rest (subst (IsPath c) e well.0) in
    let size : length t.menu_stack ≡ suc (length rest) = ap length (kept.0 ∙ e) in
    elim (rank item)
        as (λ r.
          rank item ≡ r
          → (t : Menu) × (menu_push c tick item s ≡ some t)
            × IsWell c t
            × (empty t.menu_stack ≡ false)) [
              | zero ↦ λ z.
                  (_, push_leaf c tick item s z, leaf-IsWell c s t kept well, ap empty (kept.0 ∙ e))
              | suc r ↦ λ z. (
                _,
                push_menu c tick item s (omega arith) (omega arith),
                menu-IsWell c item s t top rest e kept well (omega arith) below,
                refl,
              )
            ]
      refl
