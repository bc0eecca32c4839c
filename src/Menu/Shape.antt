-- ===== src/Menu/Shape.antt =====
-- The tree of menus of src/display/menu.cpp: how deep it is, and how many items each menu has.
use passinglink.Common.{
  ℕ, zero, suc, ◌+◌, ◌<◌, ◌≤◌, true, false, some, List, [], ◌∷◌, length, get_elem?, ◌≡◌, refl, ap,
  arith, if◌then◌else◌, ltb,
}
use passinglink.Input.Profile.{input_profile_count}
use passinglink.Menu.Items.{
  Radio, mode, profile, socd_x, socd_y, Item, main_menu, output_menu, settings_menu, about_menu,
  version_menu, socd_menu, usb_delay_menu, radio_menu, radio_item, action, delay_text, version_row,
  radio_items, get_option_count, Menu, MenuConfig, items_of, on_enter,
}

-- How many levels of menus an object opens at most; 0 for a leaf.
abbrev pub rank : Item → ℕ
rank main_menu = 4
rank output_menu = 3
rank settings_menu = 3
rank about_menu = 3
rank socd_menu = 2
rank version_menu = 2
rank usb_delay_menu = 2
rank (radio_menu r) = 1
rank _ = 0

-- A radio item stands for one of the options.
abbrev pub IsShown : MenuConfig → Item → Type 0
IsShown c (radio_item r i) = i < get_option_count c.board r
IsShown c _ = Unit {0}

abbrev pub size_of : MenuConfig → Item → ℕ
size_of c main_menu = 4
size_of c output_menu = 3
size_of c settings_menu = 3
size_of c about_menu = 1
size_of c socd_menu = 2
size_of c version_menu = 3
size_of c usb_delay_menu = 3
size_of c (radio_menu r) = get_option_count c.board r
size_of c _ = 0

-- The items of a menu of the rank: lower ranks, and options that exist.
abbrev pub AreBelow : MenuConfig → ℕ → List Item → Type 0
AreBelow c r [] = Unit {0}
AreBelow c r (i ∷ is) = (rank i < r) × IsShown c i × AreBelow c r is

length-radio_items : (r : Radio) (n i : ℕ) → length (radio_items r n i) ≡ n
length-radio_items r zero i = refl
length-radio_items r (suc n) i = ap suc (length-radio_items r n (i + 1))

pub length-items_of :
    (c : MenuConfig) (s : Menu) (item : Item) → length (items_of c s item) ≡ size_of c item
unfolding items_of
length-items_of c s main_menu = refl
length-items_of c s output_menu = refl
length-items_of c s settings_menu = refl
length-items_of c s about_menu = refl
length-items_of c s version_menu = refl
length-items_of c s socd_menu = refl
length-items_of c s usb_delay_menu = refl
length-items_of c s (radio_menu r) = length-radio_items r (get_option_count c.board r) 0
length-items_of c s (radio_item r i) = refl
length-items_of c s (action a) = refl
length-items_of c s delay_text = refl
length-items_of c s (version_row first) = refl

radio_items-AreBelow :
    (c : MenuConfig) (r : Radio) (n i : ℕ)
    → i + n ≤ get_option_count c.board r
    → AreBelow c 1 (radio_items r n i)
radio_items-AreBelow c r zero i h = tt
radio_items-AreBelow c r (suc n) i h =
    (omega arith, omega arith, radio_items-AreBelow c r n (i + 1) (omega arith))

pub items_of-AreBelow :
    (c : MenuConfig) (s : Menu) (item : Item) → AreBelow c (rank item) (items_of c s item)
unfolding items_of
items_of-AreBelow c s main_menu = omega arith
items_of-AreBelow c s output_menu = omega arith
items_of-AreBelow c s settings_menu = omega arith
items_of-AreBelow c s about_menu = omega arith
items_of-AreBelow c s version_menu = omega arith
items_of-AreBelow c s socd_menu = omega arith
items_of-AreBelow c s usb_delay_menu = omega arith
items_of-AreBelow c s (radio_menu r) =
    radio_items-AreBelow c r (get_option_count c.board r) 0 (omega arith)
items_of-AreBelow c s (radio_item r i) = tt
items_of-AreBelow c s (action a) = tt
items_of-AreBelow c s delay_text = tt
items_of-AreBelow c s (version_row first) = tt

-- An index within the items gives one of them.
pub get-AreBelow :
    (c : MenuConfig) (r : ℕ) (is : List Item) (k : ℕ)
    → AreBelow c r is
    → k < length is
    → (i : Item) × (get_elem? is k ≡ some i) × (rank i < r) × IsShown c i
get-AreBelow c r [] k h lt = absurd (omega arith)
get-AreBelow c r (i ∷ is) zero h lt = (i, refl, h.0, h.1)
get-AreBelow c r (i ∷ is) (suc k) h lt = get-AreBelow c r is k h.2 (omega arith)

-- Menus are entered, leaves are not, and every menu has an item.
pub on_enter-rank :
    (c : MenuConfig) (tick : ℕ) (item : Item) (s : Menu)
    → (on_enter c tick item s).0 ≡ (if ltb 0 (rank item) then true else false)
unfolding on_enter
on_enter-rank c tick main_menu s = refl
on_enter-rank c tick output_menu s = refl
on_enter-rank c tick settings_menu s = refl
on_enter-rank c tick about_menu s = refl
on_enter-rank c tick version_menu s = refl
on_enter-rank c tick socd_menu s = refl
on_enter-rank c tick usb_delay_menu s = refl
on_enter-rank c tick (radio_menu r) s = refl
on_enter-rank c tick (radio_item r i) s = refl
on_enter-rank c tick (action a) s = refl
on_enter-rank c tick delay_text s = refl
on_enter-rank c tick (version_row first) s = refl

pub size_pos : (c : MenuConfig) (item : Item) → 0 < rank item → 0 < size_of c item
unfolding get_option_count input_profile_count
size_pos c (radio_menu mode) h = omega arith
size_pos c (radio_menu profile) h = ground arith
size_pos c (radio_menu socd_x) h = omega arith
size_pos c (radio_menu socd_y) h = omega arith
size_pos c item h = ground arith
