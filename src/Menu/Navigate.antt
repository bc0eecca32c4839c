-- ===== src/Menu/Navigate.antt =====
-- The stack of menus and the cursor (src/display/menu.cpp, from `menu_fetch_items` on).
use passinglink.Common.{
  ℕ, ◌+◌, ◌-◌, true, false, Option, none, some, List, [], ◌∷◌, ltb, leb, ◌==◌, if◌then◌else◌,
  length, get_elem?,
}
use passinglink.Containers.Stack.{push}
use passinglink.Input.Types.{MenuInput}
use passinglink.Menu.Items.{Item, main_menu, Location, Menu, MenuConfig, items_of, on_enter}
use passinglink.Menu.Render.{display_rows, menu_draw}

unfoldable pub menu_fetch_items : MenuConfig → Menu → Menu
menu_fetch_items c s = record s {
  menu_items = elim s.menu_stack [ [] ↦ [] | top ∷ _ ↦ items_of c s top.menu ];
}

unfoldable pub menu_push : MenuConfig → ℕ → Item → Menu → Option Menu
menu_push c tick item s =
    let (is_menu, t) = on_enter c tick item s in
    if is_menu
    then (elim (push 8
        (record {
          menu = item;
          scroll_index = t.menu_scroll_index;
          selected_index = t.menu_selected_index;
        })
        t.menu_stack) [
          | none ↦ none
          | some pushed ↦ some (record (menu_fetch_items c (record t { menu_stack = pushed })) {
            menu_scroll_index = 0;
            menu_selected_index = 0;
          })
        ])
    else some (menu_fetch_items c t)

-- `on_exit` does nothing for any object.
unfoldable pub menu_pop : MenuConfig → Menu → Menu
menu_pop c s = elim s.menu_stack [
  | [] ↦ s
  | top ∷ rest ↦ menu_fetch_items c (record s {
    menu_scroll_index = top.scroll_index;
    menu_selected_index = top.selected_index;
    menu_stack = rest;
  })
]

-- `while (!menu_stack.empty()) menu_pop();`, along the stack
unfoldable pub menu_pop_all : MenuConfig → List Location → Menu → Menu
menu_pop_all c [] s = s
menu_pop_all c (top ∷ rest) s = menu_pop_all c rest (menu_pop c s)

unfoldable pub menu_open : MenuConfig → ℕ → Menu → Option Menu
menu_open c tick s =
    elim (if s.keep_menu_spot
      then some s
      else menu_push c tick main_menu (menu_pop_all c s.menu_stack s)) [
        | none ↦ none
        | some t ↦ menu_draw c (record t { menu_opened = true })
      ]

unfoldable pub menu_close : MenuConfig → Menu → Option Menu
menu_close c s =
    let t = if s.keep_menu_spot then s else menu_pop_all c s.menu_stack s in
    menu_draw c (record t { menu_opened = false })

unfoldable pub cursor_up : Menu → Menu
cursor_up s =
    let selected = s.menu_selected_index - 1 in
    record s {
      menu_selected_index = selected;
      menu_scroll_index =
          if ltb selected s.menu_scroll_index then selected else s.menu_scroll_index;
    }

unfoldable pub cursor_down : Menu → Menu
cursor_down s =
    let selected = s.menu_selected_index + 1 in
    record s {
      menu_selected_index = selected;
      menu_scroll_index =
          if leb (s.menu_scroll_index + display_rows) selected
          then s.menu_scroll_index + 1
          else s.menu_scroll_index;
    }

-- `none` is an index behind the items, or a fault further on.
unfoldable pub menu_input : MenuConfig → ℕ → MenuInput → Menu → Option Menu
menu_input c tick MenuInput.up s =
    if s.menu_selected_index == 0 then some s else menu_draw c (cursor_up s)
menu_input c tick MenuInput.down s =
    if ltb (s.menu_selected_index + 1) (length s.menu_items)
    then menu_draw c (cursor_down s)
    else some s
menu_input c tick MenuInput.left s =
    if length s.menu_stack == 1 then some s else menu_draw c (menu_pop c s)
menu_input c tick MenuInput.right s = elim (get_elem? s.menu_items s.menu_selected_index) [
  | none ↦ none
  | some item ↦ elim (menu_push c tick item s) [ none ↦ none | some t ↦ menu_draw c t ]
]

-- The statics after `menu_init`, with the input's as they are.
unfoldable pub menu_init : MenuConfig → ℕ → Menu → Option Menu
menu_init c tick s = menu_push c tick main_menu (record s { menu_stack = []; menu_items = [] })
