-- ===== src/Menu/Listed.antt =====
-- What opening, closing and the inputs of src/display/menu.cpp do to the menus on the stack and their entries.
use Prim.{Unit, tt}
use passinglink.Common.{
  ℕ, zero, suc, ◌+◌, true, false, Bool, Option, none, some, List, [], ◌∷◌, map, ◌==◌, length,
  get_elem?, if◌then◌else◌, ltb, ◌≡◌, refl, sym, ap, subst, ◌∙◌,
}
use mathlib.Core.Bool.{true≢false}
use passinglink.Common.{is_some}
use passinglink.Input.Types.{MenuInput}
use passinglink.Menu.Items.{Item, main_menu, Location, Menu, MenuConfig, Screen, on_enter}
use passinglink.Menu.Render.{draw_rows, display_rows, menu_draw}
use passinglink.Menu.Navigate.{
  menu_fetch_items, menu_push, menu_pop, menu_pop_all, menu_open, menu_close, menu_input, menu_init,
  cursor_up, cursor_down,
}
use passinglink.Menu.Tree.{
  label, AreListed, AreOpened, IsListed, fetch-IsListed, pop-IsListed, pop_all-IsListed, enter_menu,
  enter-stack,
}

-- The result, where there is no fault, follows the tree.
abbrev pub Keeps : MenuConfig → Option Menu → Type 0
Keeps c none = Unit {0}
Keeps c (some t) = IsListed c t

pub some-IsListed :
    (c : MenuConfig) {o : Option Menu} {t : Menu} → Keeps c o → o ≡ some t → IsListed c t
some-IsListed c kept e = subst (Keeps c) e kept

draw-Keeps : (c : MenuConfig) (s : Menu) → IsListed c s → Keeps c (menu_draw c s)
unfolding menu_draw
draw-Keeps c s h =
    elim s.menu_opened
      as (λ b. Keeps c (
        if b
        then (elim (draw_rows c s display_rows 0) [
          | none ↦ none
          | some rows ↦ some (record s { screen = Screen.lines rows })
        ])
        else some (record s { screen = Screen.logo }))) [
          | true ↦
              elim (draw_rows c s display_rows 0)
                as (λ o. Keeps c (elim o [
                  | none ↦ none
                  | some rows ↦ some (record s { screen = Screen.lines rows })
                ])) [ none ↦ tt | some rows ↦ h ]
          | false ↦ h
        ]

-- What is drawn after a step.
then_drawn :
    (c : MenuConfig) (o : Option Menu) (f : Menu → Menu)
    → ((t : Menu) → IsListed c t → IsListed c (f t))
    → Keeps c o
    → Keeps c (elim o [ none ↦ none | some t ↦ menu_draw c (f t) ])
then_drawn c none f keep h = tt
then_drawn c (some t) f keep h = draw-Keeps c (f t) (keep t h)

get-label :
    (is : List Item) (k : ℕ) (item : Item)
    → get_elem? is k ≡ some item
    → get_elem? (map label is) k ≡ some (label item)
get-label [] k item e = absurd (true≢false (sym (ap is_some e)))
get-label (i ∷ is) zero item e = ap (λ o. elim o [ none ↦ none | some x ↦ some (label x) ]) e
get-label (i ∷ is) (suc k) item e = get-label is k item e

opened-entry :
    (c : MenuConfig) (stack : List Location) (items : List Item) (l : Location)
    → AreListed c stack items
    → AreOpened c stack
    → label l.menu ≡ l.menu
    → get_elem? items l.selected_index ≡ some l.menu
    → AreOpened c (l ∷ stack)
opened-entry c [] items l listed opened e at = absurd (
    true≢false
      (sym (ap (λ is. is_some (get_elem? is l.selected_index)) (sym listed) ∙ ap is_some at)))
opened-entry c (k ∷ ls) items l listed opened e at = (
  ap (λ is. get_elem? is l.selected_index) (sym listed)
      ∙ get-label items l.selected_index l.menu at
      ∙ ap some e,
  opened,
)

push_menu-Keeps :
    (c : MenuConfig) (item : Item) (s : Menu)
    → let l : Location = record {
      menu = item;
      scroll_index = s.menu_scroll_index;
      selected_index = s.menu_selected_index;
    } in
      AreOpened c (l ∷ s.menu_stack)
      → Keeps c (elim (if length s.menu_stack == 8 then none else some (l ∷ s.menu_stack)) [
        | none ↦ none
        | some pushed ↦ some (record (menu_fetch_items c (record s { menu_stack = pushed })) {
          menu_scroll_index = 0;
          menu_selected_index = 0;
        })
      ])
push_menu-Keeps c item s opened =
    let l : Location = record {
      menu = item;
      scroll_index = s.menu_scroll_index;
      selected_index = s.menu_selected_index;
    } in
    elim (length s.menu_stack == 8)
      as (λ b. Keeps c (elim (if b then none else some (l ∷ s.menu_stack)) [
        | none ↦ none
        | some pushed ↦ some (record (menu_fetch_items c (record s { menu_stack = pushed })) {
          menu_scroll_index = 0;
          menu_selected_index = 0;
        })
      ])) [
        | true ↦ tt
        | false ↦ fetch-IsListed c (record s { menu_stack = l ∷ s.menu_stack }) opened
      ]

-- The entry under the cursor is entered.
push-Keeps :
    (c : MenuConfig) (tick : ℕ) (item : Item) (s : Menu)
    → IsListed c s
    → get_elem? s.menu_items s.menu_selected_index ≡ some item
    → Keeps c (menu_push c tick item s)
unfolding menu_push
push-Keeps c tick item s h at =
    let r = on_enter c tick item s in
    elim r.0
        as (λ b.
          r.0 ≡ b
          → Keeps c (
              if b
              then (elim (if length r.1.menu_stack == 8
                  then none
                  else some (
                      record {
                        menu = item;
                        scroll_index = r.1.menu_scroll_index;
                        selected_index = r.1.menu_selected_index;
                      }
                      ∷ r.1.menu_stack)) [
                        | none ↦ none
                        | some pushed ↦
                            some
                              (record (menu_fetch_items c (record (r.1) { menu_stack = pushed })) {
                                menu_scroll_index = 0;
                                menu_selected_index = 0;
                              })
                      ])
              else some (menu_fetch_items c r.1))) [
                | true ↦ λ e.
                    let (same, name) = enter_menu c tick item s e in
                    push_menu-Keeps c item r.1 (
                      subst
                        (λ (t : Menu). AreOpened c (
                          record {
                            menu = item;
                            scroll_index = t.menu_scroll_index;
                            selected_index = t.menu_selected_index;
                          }
                          ∷ t.menu_stack))
                        (sym same)
                        (opened-entry c s.menu_stack s.menu_items
                          (record {
                            menu = item;
                            scroll_index = s.menu_scroll_index;
                            selected_index = s.menu_selected_index;
                          })
                          h.0 h.1 name at))
                | false ↦ λ _.
                    fetch-IsListed c r.1 (subst (AreOpened c) (sym (enter-stack c tick item s)) h.1)
              ]
      refl

-- The main menu on an empty stack.
root-Keeps :
    (c : MenuConfig) (tick : ℕ) (s : Menu)
    → s.menu_stack ≡ []
    → Keeps c (menu_push c tick main_menu s)
unfolding menu_push on_enter
root-Keeps c tick s e = push_menu-Keeps c main_menu s (
    subst
      (λ stack. AreOpened c (
        record {
          menu = main_menu;
          scroll_index = s.menu_scroll_index;
          selected_index = s.menu_selected_index;
        }
        ∷ stack))
      (sym e) refl)

pub init-Keeps : (c : MenuConfig) (tick : ℕ) (s : Menu) → Keeps c (menu_init c tick s)
unfolding menu_init
init-Keeps c tick s = root-Keeps c tick (record s { menu_stack = []; menu_items = [] }) refl

pop-stack :
    (c : MenuConfig) (s : Menu) (top : Location) (rest : List Location)
    → s.menu_stack ≡ top ∷ rest
    → (menu_pop c s).menu_stack ≡ rest
unfolding menu_pop menu_fetch_items
pop-stack c s top rest e = rw e refl

pop_all-stack :
    (c : MenuConfig) (stack : List Location) (s : Menu)
    → s.menu_stack ≡ stack
    → (menu_pop_all c stack s).menu_stack ≡ []
unfolding menu_pop_all
pop_all-stack c [] s e = e
pop_all-stack c (top ∷ rest) s e = pop_all-stack c rest (menu_pop c s) (pop-stack c s top rest e)

pub open-Keeps :
    (c : MenuConfig) (tick : ℕ) (s : Menu) → IsListed c s → Keeps c (menu_open c tick s)
unfolding menu_open
open-Keeps c tick s h =
    then_drawn c
      (if s.keep_menu_spot
        then some s
        else menu_push c tick main_menu (menu_pop_all c s.menu_stack s))
      (λ t. record t { menu_opened = true }) (λ t kept. kept)
      (elim s.keep_menu_spot
        as (λ b.
          Keeps c
            (if b then some s else menu_push c tick main_menu (menu_pop_all c s.menu_stack s))) [
              | true ↦ h
              | false ↦
                  root-Keeps c tick (menu_pop_all c s.menu_stack s)
                    (pop_all-stack c s.menu_stack s refl)
            ])

pub close-Keeps : (c : MenuConfig) (s : Menu) → IsListed c s → Keeps c (menu_close c s)
unfolding menu_close
close-Keeps c s h =
    draw-Keeps c
      (record (if s.keep_menu_spot then s else menu_pop_all c s.menu_stack s) {
        menu_opened = false;
      })
      (elim s.keep_menu_spot as (λ b. IsListed c (if b then s else menu_pop_all c s.menu_stack s)) [
        | true ↦ h
        | false ↦ pop_all-IsListed c s.menu_stack s h
      ])

right-Keeps :
    (c : MenuConfig) (tick : ℕ) (s : Menu)
    → IsListed c s
    → Keeps c (menu_input c tick MenuInput.right s)
unfolding menu_input
right-Keeps c tick s h =
    elim (get_elem? s.menu_items s.menu_selected_index)
        as (λ o.
          get_elem? s.menu_items s.menu_selected_index ≡ o
          → Keeps c (elim o [
            | none ↦ none
            | some item ↦ elim (menu_push c tick item s) [ none ↦ none | some t ↦ menu_draw c t ]
          ])) [
            | none ↦ λ _. tt
            | some item ↦ λ at.
                then_drawn c (menu_push c tick item s) (λ t. t) (λ t kept. kept)
                  (push-Keeps c tick item s h at)
          ]
      refl

-- A step that is taken, or not.
either :
    (c : MenuConfig) (b : Bool) (o o' : Option Menu)
    → Keeps c o
    → Keeps c o'
    → Keeps c (if b then o else o')
either c true o o' h h' = h
either c false o o' h h' = h'

pub input-Keeps :
    (c : MenuConfig) (tick : ℕ) (i : MenuInput) (s : Menu)
    → IsListed c s
    → Keeps c (menu_input c tick i s)
unfolding menu_input cursor_up cursor_down
input-Keeps c tick MenuInput.up s h =
    either c (s.menu_selected_index == 0) (some s) (menu_draw c (cursor_up s)) h
      (draw-Keeps c (cursor_up s) h)
input-Keeps c tick MenuInput.down s h =
    either c (ltb (s.menu_selected_index + 1) (length s.menu_items)) (menu_draw c (cursor_down s))
      (some s) (draw-Keeps c (cursor_down s) h) h
input-Keeps c tick MenuInput.left s h =
    either c (length s.menu_stack == 1) (some s) (menu_draw c (menu_pop c s)) h
      (draw-Keeps c (menu_pop c s) (pop-IsListed c s h))
input-Keeps c tick MenuInput.right s h = right-Keeps c tick s h
