-- ===== src/Menu/Reach.antt =====
-- Every state that src/display/menu.cpp reaches from `menu_init` is valid.
use passinglink.Common.{
  ℕ, ◌<◌, true, false, Option, none, some, [], ◌∷◌, length, ◌≡◌, refl, sym, ap, subst, ◌∙◌, arith,
  if◌then◌else◌,
}
use passinglink.Containers.Stack.{empty}
use passinglink.Input.Types.{Input, MenuInput}
use passinglink.Menu.Items.{main_menu, Location, Menu, MenuConfig, on_enter}
use passinglink.Menu.Navigate.{
  menu_fetch_items, menu_push, menu_pop_all, menu_open, menu_close, menu_input, menu_init,
}
use passinglink.Menu.Valid.{AreShown, IsWell, HasMenu, IsValid, start-InRange, fetch-AreItems}
use passinglink.Menu.Tree.{IsListed}
use passinglink.Menu.Listed.{some-IsListed, init-Keeps, open-Keeps, close-Keeps, input-Keeps}
use passinglink.Menu.Steps.{pop_all_lem, pushed_on, push_menu}
use passinglink.Menu.Invariant.{Works, draw-IsValid, drawn, some-HasMenu, input-IsValid}

-- The main menu on an empty stack.
root_push :
    (c : MenuConfig) (tick : ℕ) (s : Menu)
    → s.menu_stack ≡ []
    → IsWell c s
    → (t : Menu) × (menu_push c tick main_menu s ≡ some t)
      × IsWell c t
      × (empty t.menu_stack ≡ false)
unfolding menu_fetch_items on_enter
root_push c tick s e well =
    let loc : Location = record {
      menu = main_menu;
      scroll_index = s.menu_scroll_index;
      selected_index = s.menu_selected_index;
    } in
    let u = record s { menu_stack = loc ∷ s.menu_stack } in
    (
      pushed_on c main_menu s,
      push_menu c tick main_menu s (omega arith) (omega (arith, ap length e)),
      (rw e refl, fetch-AreItems c u, start-InRange 4 (omega arith), well.3),
      refl,
    )

open_ready :
    (c : MenuConfig) (tick : ℕ) (s : Menu)
    → IsValid c s
    → (t : Menu) × ((if s.keep_menu_spot
          then some s
          else menu_push c tick main_menu (menu_pop_all c s.menu_stack s))
        ≡ some t)
      × IsWell c t
      × (empty t.menu_stack ≡ false)
open_ready c tick s valid =
    elim s.keep_menu_spot
        as (λ keep.
          s.keep_menu_spot ≡ keep
          → (t : Menu) × ((if keep
                then some s
                else menu_push c tick main_menu (menu_pop_all c s.menu_stack s))
              ≡ some t)
            × IsWell c t
            × (empty t.menu_stack ≡ false)) [
              | true ↦ λ e. (s, refl, valid.0, let has = valid.1 in ground arith)
              | false ↦ λ _.
                  let (well, none_left, _) = pop_all_lem c s.menu_stack s valid.0 refl in
                  root_push c tick (menu_pop_all c s.menu_stack s) none_left well
            ]
      refl

-- Opening the menu works in every valid state, and leaves one on the stack.
pub open-IsValid :
    (c : MenuConfig) (tick : ℕ) (s : Menu)
    → IsValid c s
    → (t : Menu) × (menu_open c tick s ≡ some t) × IsValid c t
unfolding menu_open
open-IsValid c tick s valid =
    let (t, e, well, on) = open_ready c tick s valid in
    drawn c (λ u. record u { menu_opened = true }) e
      (well, some-HasMenu (record t { menu_opened = true }) on)

pub close-IsValid :
    (c : MenuConfig) (s : Menu) → IsValid c s → (t : Menu) × (menu_close c s ≡ some t) × IsValid c t
unfolding menu_close
close-IsValid c s (well, has) =
    draw-IsValid c
      (record (if s.keep_menu_spot then s else menu_pop_all c s.menu_stack s) {
        menu_opened = false;
      })
      (elim s.keep_menu_spot
          as (λ keep.
            s.keep_menu_spot ≡ keep
            → IsValid c (record (if keep then s else menu_pop_all c s.menu_stack s) {
              menu_opened = false;
            })) [
              | true ↦ λ e. (well, ground arith)
              | false ↦ λ e.
                  let (popped, _, kept) = pop_all_lem c s.menu_stack s well refl in
                  (popped, let keep = kept ∙ e in ground arith)
            ]
        refl)

-- The states of the statics: `menu_init`, then calls of `menu_open` and `menu_close`, of `menu_input` while the menu
-- is open, and changes of the input's statics elsewhere.
pub data Reaches : MenuConfig → Menu → Type 0 where
  starts :
      {c : MenuConfig} {t : Menu} (s : Menu)
      → (tick : ℕ) → AreShown c s.input s.report_delay_ticks
      → menu_init c tick s ≡ some t
      → Reaches c t
  opens :
      {c : MenuConfig} {t : Menu} (s : Menu)
      → (tick : ℕ) → Reaches c s
      → menu_open c tick s ≡ some t
      → Reaches c t
  closes :
      {c : MenuConfig} {t : Menu} (s : Menu) → Reaches c s → menu_close c s ≡ some t → Reaches c t
  enters :
      {c : MenuConfig} {t : Menu} (s : Menu)
      → (tick : ℕ) (i : MenuInput) → Reaches c s
      → s.menu_opened ≡ true
      → menu_input c tick i s ≡ some t
      → Reaches c t
  parses :
      {c : MenuConfig} (s : Menu)
      → (input : Input) → Reaches c s
      → input.active_profile_idx ≡ s.input.active_profile_idx
      → Reaches c (record s { input = input })

same_state : (c : MenuConfig) {o : Option Menu} {t : Menu} → Works c o → o ≡ some t → IsValid c t
same_state c (u, e, valid) h =
    subst (λ o. elim o [ none ↦ Unit {0} | some x ↦ IsValid c x ]) (sym e ∙ h) valid

init-IsValid :
    (c : MenuConfig) (tick : ℕ) (s : Menu)
    → AreShown c s.input s.report_delay_ticks
    → Works c (menu_init c tick s)
unfolding menu_init
init-IsValid c tick s ok =
    let u = record s { menu_stack = []; menu_items = [] } in
    let (t, e, well, on) = root_push c tick u refl (tt, refl, tt, ok) in
    (t, e, (well, some-HasMenu t on))

opened-stack : (s : Menu) → HasMenu s → s.menu_opened ≡ true → empty s.menu_stack ≡ false
opened-stack s has e = ground arith

each_state : (c : MenuConfig) (s : Menu) → 1000 < c.us_of_ticks 1001 → Reaches c s → IsValid c s
each_state c s slow (starts r tick ok e) = same_state c (init-IsValid c tick r ok) e
each_state c s slow (opens r tick h e) =
    same_state c (open-IsValid c tick r (each_state c r slow h)) e
each_state c s slow (closes r h e) = same_state c (close-IsValid c r (each_state c r slow h)) e
each_state c s slow (enters r tick i h is_open e) =
    let valid = each_state c r slow h in
    same_state c (input-IsValid c tick i r slow (opened-stack r valid.1 is_open) valid) e
each_state c s slow (parses r input h e) =
    let valid = each_state c r slow h in
    ((valid.0.0, valid.0.1, valid.0.2, (rw e valid.0.3.0, valid.0.3.1)), valid.1)

Reaches-IsListed : (c : MenuConfig) (s : Menu) → Reaches c s → IsListed c s
Reaches-IsListed c s (starts r tick ok e) = some-IsListed c (init-Keeps c tick r) e
Reaches-IsListed c s (opens r tick h e) =
    some-IsListed c (open-Keeps c tick r (Reaches-IsListed c r h)) e
Reaches-IsListed c s (closes r h e) = some-IsListed c (close-Keeps c r (Reaches-IsListed c r h)) e
Reaches-IsListed c s (enters r tick i h is_open e) =
    some-IsListed c (input-Keeps c tick i r (Reaches-IsListed c r h)) e
Reaches-IsListed c s (parses r input h e) = Reaches-IsListed c r h

-- If 1001 ticks are longer than a millisecond, every state that the menu reaches from `menu_init` by opening, closing
-- and, while it is open, by inputs, with changes of the input that keep the profile in between, is valid: a menu that
-- is open or kept is on the stack, at its bottom is the main menu, and each other menu is the entry of the one below
-- it that the cursor to go back to is on, with that cursor in its window; the items are the entries of the menu
-- on top, where lock may stand as unlock and remember as forget, and the cursor and the window are on them.
pub Reaches-IsValid :
    (c : MenuConfig) (s : Menu)
    → 1000 < c.us_of_ticks 1001
    → Reaches c s
    → IsValid c s × IsListed c s
Reaches-IsValid c s slow h = (each_state c s slow h, Reaches-IsListed c s h)
