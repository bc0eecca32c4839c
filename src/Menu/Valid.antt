-- ===== src/Menu/Valid.antt =====
-- What holds of the menu's statics between two calls (src/display/menu.cpp).
use passinglink.Common.{
  ℕ, ◌+◌, ◌-◌, ◌<◌, ◌≤◌, false, ◌&&◌, ◌||◌, List, [], ◌∷◌, length, ◌≡◌, refl, ap, arith,
}
use passinglink.Containers.Stack.{empty}
use passinglink.Input.Types.{Input}
use passinglink.Input.Profile.{input_profile_count}
use passinglink.Menu.Items.{Item, main_menu, Location, Menu, MenuConfig, items_of}
use passinglink.Menu.Navigate.{menu_fetch_items}
use passinglink.Menu.Shape.{rank, size_of, AreBelow, length-items_of, items_of-AreBelow}

-- The cursor is on one of n items and in the window, and the window is over items.
abbrev pub InRange : ℕ → ℕ → ℕ → Type 0
InRange n scroll selected =
    (selected < n) × (scroll ≤ selected) × (selected < scroll + 3) × (scroll ≤ n - 3)

-- The main menu is at the bottom; each other menu is below the one it was opened from, and goes back to
-- a cursor within it.
abbrev pub IsPath : MenuConfig → List Location → Type 0
IsPath c [] = Unit {0}
IsPath c (l ∷ []) = l.menu ≡ main_menu
IsPath c (l ∷ (k ∷ ls)) =
    ((0 < rank l.menu) × (rank l.menu < rank k.menu))
    × InRange (size_of c k.menu) l.scroll_index l.selected_index
    × IsPath c (k ∷ ls)

-- The items are those of the menu on top, as many as it has, and the cursor is in them.
abbrev pub AreItems : MenuConfig → List Location → List Item → Type 0
AreItems c [] items = items ≡ []
AreItems c (top ∷ rest) items =
    (length items ≡ size_of c top.menu) × AreBelow c (rank top.menu) items

abbrev pub IsCursor : MenuConfig → List Location → ℕ → ℕ → Type 0
IsCursor c [] scroll selected = Unit {0}
IsCursor c (top ∷ rest) scroll selected = InRange (size_of c top.menu) scroll selected

-- The numbers that the rows show.
abbrev pub AreShown : MenuConfig → Input → ℕ → Type 0
AreShown c input ticks = (input.active_profile_idx < input_profile_count c.board) × (ticks ≤ 1001)

-- The stack, the items and the cursor belong together.
abbrev pub IsWell : MenuConfig → Menu → Type 0
IsWell c s =
    IsPath c s.menu_stack
    × AreItems c s.menu_stack s.menu_items
    × IsCursor c s.menu_stack s.menu_scroll_index s.menu_selected_index
    × AreShown c s.input s.report_delay_ticks

-- There is a menu on the stack when one is open, and when it is to be kept.
abbrev pub HasMenu : Menu → Type 0
HasMenu s = ((s.menu_opened || s.keep_menu_spot) && empty s.menu_stack) ≡ false

-- What the functions of menu.cpp need of its statics.
abbrev pub IsValid : MenuConfig → Menu → Type 0
IsValid c s = IsWell c s × HasMenu s

-- A menu of n items starts at its first.
pub start-InRange : (n : ℕ) → 0 < n → InRange n 0 0
start-InRange n h = omega arith

-- The bottom of a path has rank 4, and each menu on it one that is less: there are at most four.
pub path_length :
    (c : MenuConfig) (l : Location) (ls : List Location)
    → IsPath c (l ∷ ls)
    → (length ls + rank l.menu ≤ 4) × (0 < rank l.menu)
path_length c l [] h = let e = ap rank h in omega arith
path_length c l (k ∷ ls) h = let deeper = path_length c k ls h.2 in omega arith

pub fetch-AreItems :
    (c : MenuConfig) (s : Menu) → AreItems c s.menu_stack (menu_fetch_items c s).menu_items
unfolding menu_fetch_items
fetch-AreItems c s =
    elim s.menu_stack
      as (λ stack. AreItems c stack (elim stack [ [] ↦ [] | top ∷ _ ↦ items_of c s top.menu ])) [
        | [] ↦ refl
        | top ∷ rest ↦ (length-items_of c s top.menu, items_of-AreBelow c s top.menu)
      ]
