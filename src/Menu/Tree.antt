-- ===== src/Menu/Tree.antt =====
-- The tree of menus of src/display/menu.cpp: which entries each menu has, and that the statics follow it.
use Prim.{Unit, tt}
use passinglink.Common.{
  ℕ, true, false, some, List, [], ◌∷◌, map, get_elem?, is_some, if◌then◌else◌, ◌≡◌, refl, sym,
  arith,
}
use mathlib.Core.Bool.{true≢false}
use passinglink.Input.Lock.{input_get_lock_tick}
use passinglink.Input.Profile.{input_profile_count}
use passinglink.Menu.Items.{
  mode, profile, socd_x, socd_y, Item, main_menu, output_menu, settings_menu, about_menu,
  version_menu, socd_menu, usb_delay_menu, radio_menu, radio_item, action, delay_text, version_row,
  lock, unlock, increase, decrease, remember, forget, dfu, get_option_count, Location, Menu,
  MenuConfig, items_of, on_enter, run_action, usb_delay_increase, usb_delay_decrease,
}
use passinglink.Menu.Navigate.{menu_fetch_items, menu_pop, menu_pop_all}

-- The two names that an entry changes between stand for one entry.
abbrev pub label : Item → Item
label (action unlock) = action lock
label (action forget) = action remember
label item = item

-- The entries of the menus.
abbrev pub entries : MenuConfig → Item → List Item
entries c main_menu = action lock ∷ output_menu ∷ settings_menu ∷ about_menu ∷ []
entries c output_menu = radio_menu mode ∷ radio_menu profile ∷ socd_menu ∷ []
entries c settings_menu = usb_delay_menu ∷ action remember ∷ action dfu ∷ []
entries c about_menu = version_menu ∷ []
entries c socd_menu = radio_menu socd_x ∷ radio_menu socd_y ∷ []
entries c usb_delay_menu = delay_text ∷ action increase ∷ action decrease ∷ []
entries c version_menu = version_row true ∷ version_row false ∷ version_row false ∷ []
entries c (radio_menu mode) = radio_item mode 0 ∷ radio_item mode 1 ∷ radio_item mode 2 ∷ []
entries c (radio_menu profile) =
    if c.board.has_display
    then radio_item profile 0 ∷ radio_item profile 1 ∷ radio_item profile 2 ∷ []
    else radio_item profile 0 ∷ []
entries c (radio_menu socd_x) =
    radio_item socd_x 0 ∷ radio_item socd_x 1 ∷ radio_item socd_x 2 ∷ radio_item socd_x 3 ∷ []
entries c (radio_menu socd_y) =
    radio_item socd_y 0 ∷ radio_item socd_y 1 ∷ radio_item socd_y 2 ∷ radio_item socd_y 3 ∷ []
entries c item = []

-- The items are the entries of the menu on top.
abbrev pub AreListed : MenuConfig → List Location → List Item → Type 0
AreListed c [] items = items ≡ []
AreListed c (top ∷ rest) items = map label items ≡ entries c top.menu

-- The main menu is at the bottom; each other menu is the entry of the one below that the cursor to go back to is on.
abbrev pub AreOpened : MenuConfig → List Location → Type 0
AreOpened c [] = Unit {0}
AreOpened c (l ∷ []) = l.menu ≡ main_menu
AreOpened c (l ∷ (k ∷ ls)) =
    (get_elem? (entries c k.menu) l.selected_index ≡ some l.menu) × AreOpened c (k ∷ ls)

abbrev pub IsListed : MenuConfig → Menu → Type 0
IsListed c s = AreListed c s.menu_stack s.menu_items × AreOpened c s.menu_stack

items_of-entries :
    (c : MenuConfig) (s : Menu) (item : Item) → map label (items_of c s item) ≡ entries c item
unfolding items_of get_option_count input_profile_count
items_of-entries c s main_menu =
    elim (is_some (input_get_lock_tick s.input))
      as (λ b.
        map label
          (action (if b then unlock else lock) ∷ output_menu ∷ settings_menu ∷ about_menu ∷ [])
        ≡ entries c main_menu) [ true ↦ refl | false ↦ refl ]
items_of-entries c s settings_menu =
    elim s.keep_menu_spot
      as (λ b.
        map label (usb_delay_menu ∷ action (if b then remember else forget) ∷ action dfu ∷ [])
        ≡ entries c settings_menu) [ true ↦ refl | false ↦ refl ]
items_of-entries c s (radio_menu profile) = ground arith
items_of-entries c s (radio_menu mode) = refl
items_of-entries c s (radio_menu socd_x) = refl
items_of-entries c s (radio_menu socd_y) = refl
items_of-entries c s output_menu = refl
items_of-entries c s about_menu = refl
items_of-entries c s version_menu = refl
items_of-entries c s socd_menu = refl
items_of-entries c s usb_delay_menu = refl
items_of-entries c s (radio_item r i) = refl
items_of-entries c s (action a) = refl
items_of-entries c s delay_text = refl
items_of-entries c s (version_row first) = refl

pub fetch-IsListed :
    (c : MenuConfig) (s : Menu) → AreOpened c s.menu_stack → IsListed c (menu_fetch_items c s)
unfolding menu_fetch_items
fetch-IsListed c s opened = (listed s.menu_stack, opened)
  where
    listed :
        (stack : List Location)
        → AreListed c stack (elim stack [ [] ↦ [] | top ∷ _ ↦ items_of c s top.menu ])
    listed [] = refl
    listed (top ∷ rest) = items_of-entries c s top.menu

pub pop-IsListed : (c : MenuConfig) (s : Menu) → IsListed c s → IsListed c (menu_pop c s)
unfolding menu_pop
pop-IsListed c s =
    elim s.menu_stack
      as (λ stack.
        let t = record s { menu_stack = stack } in IsListed c t → IsListed c (menu_pop c t)) [
          | [] ↦ λ h. h
          | top ∷ [] ↦ λ h.
              fetch-IsListed c
                (record s {
                  menu_scroll_index = top.scroll_index;
                  menu_selected_index = top.selected_index;
                  menu_stack = [];
                })
                tt
          | top ∷ (k ∷ ls) ↦ λ h.
              fetch-IsListed c
                (record s {
                  menu_scroll_index = top.scroll_index;
                  menu_selected_index = top.selected_index;
                  menu_stack = k ∷ ls;
                })
                h.1.1
        ]

pub pop_all-IsListed :
    (c : MenuConfig) (stack : List Location) (s : Menu)
    → IsListed c s
    → IsListed c (menu_pop_all c stack s)
unfolding menu_pop_all
pop_all-IsListed c [] s h = h
pop_all-IsListed c (top ∷ rest) s h = pop_all-IsListed c rest (menu_pop c s) (pop-IsListed c s h)

-- A menu is entered without an effect, and has one name only.
pub enter_menu :
    (c : MenuConfig) (tick : ℕ) (item : Item) (s : Menu)
    → (on_enter c tick item s).0 ≡ true
    → ((on_enter c tick item s).1 ≡ s) × (label item ≡ item)
unfolding on_enter
enter_menu c tick (radio_item r i) s h = absurd (true≢false (sym h))
enter_menu c tick (action a) s h = absurd (true≢false (sym h))
enter_menu c tick delay_text s h = absurd (true≢false (sym h))
enter_menu c tick (version_row first) s h = absurd (true≢false (sym h))
enter_menu c tick item s h = (refl, refl)

pub enter-stack :
    (c : MenuConfig) (tick : ℕ) (item : Item) (s : Menu)
    → (on_enter c tick item s).1.menu_stack ≡ s.menu_stack
unfolding on_enter run_action usb_delay_increase usb_delay_decrease
enter-stack c tick item s = ground arith
