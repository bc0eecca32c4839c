-- ===== src/Menu/Texts.antt =====
-- The texts of src/display/menu.cpp fit the buffers that `menu_draw` gives them.
use passinglink.Common.{
  ℕ, zero, suc, ◌+◌, ◌-◌, ◌<◌, ◌≤◌, ◌*◌, ◌/◌, ◌%◌, true, false, Option, none, some, List, [], ◌∷◌,
  ◌++◌, ltb, ◌==◌, length, length-append, get_elem?, ◌≡◌, refl, ap, arith, if◌then◌else◌,
}
use passinglink.Util.{Written, codes, copy_text, snprintf, decimal, then_text}
use passinglink.Input.Types.{Input, Board}
use passinglink.Input.Profile.{Profile, profiles, input_profile_count}
use passinglink.Menu.Items.{
  Radio, mode, profile, socd_x, socd_y, Item, main_menu, output_menu, settings_menu, about_menu,
  version_menu, socd_menu, usb_delay_menu, radio_menu, radio_item, action, delay_text, version_row,
  Menu, MenuConfig, get_selected_option, get_option_count,
}
use passinglink.Menu.Render.{
  profile_name, copied, join, radio_name, socd_text, get_option_name, radio_text, radio_item_text,
  delay_item_text, render_text,
}
use passinglink.Menu.Shape.{IsShown}
use passinglink.Menu.Valid.{AreShown}

-- A result, and that it fits.
abbrev pub Fits : ℕ → Option Written → Type 0
Fits size o = (w : Written) × (o ≡ some w) × (w.count ≤ size)

copied_fits : (size : ℕ) (text : List ℕ) → (copied size text).count ≤ size
unfolding copy_text
copied_fits size text = omega arith

join_fits : (size : ℕ) (a b c : List ℕ) → (join size a b c).count ≤ size
unfolding copy_text
join_fits size a b c = omega arith

get_name :
    (ps : List Profile) (i : ℕ)
    → i < length ps
    → (name : List ℕ) × ((elim (get_elem? ps i) [ none ↦ none | some p ↦ some (profile_name p) ])
        ≡ some name)
get_name [] i h = absurd (omega arith)
get_name (p ∷ ps) zero h = (profile_name p, refl)
get_name (p ∷ ps) (suc i) h = get_name ps i (omega arith)

then_fits :
    (size : ℕ) (a b : List ℕ)
    → (then_text (copied size a) (copied (size - (copied size a).count) b)).count ≤ size
unfolding copy_text
then_fits size a b = omega arith

name_found :
    (b : Board) (r : Radio) (i : ℕ)
    → i < get_option_count b r
    → (name : List ℕ) × (get_option_name b r i ≡ some name)
unfolding get_option_name get_option_count input_profile_count
name_found b mode i h = (_, refl)
name_found b profile i h = get_name (profiles b) i h
name_found b socd_x i h = (_, refl)
name_found b socd_y i h = (_, refl)

selected_shown :
    (c : MenuConfig) (s : Input) (r : Radio)
    → s.active_profile_idx < input_profile_count c.board
    → get_selected_option r s < get_option_count c.board r
unfolding get_selected_option get_option_count
selected_shown c s mode h = ground arith
selected_shown c s profile h = h
selected_shown c s socd_x h = ground arith
selected_shown c s socd_y h = ground arith

abbrev power_of_ten : ℕ → ℕ
power_of_ten zero = 1
power_of_ten (suc m) = 10 * power_of_ten m

length-decimal : (m k n : ℕ) → n < 10 * power_of_ten m → length (decimal k n) ≤ m + 1
unfolding decimal
length-decimal m zero n h = omega arith
length-decimal zero (suc k) n h =
    elim (ltb n 10)
        as (λ b.
          ltb n 10 ≡ b
          → length ((if b then [] else decimal k (n / 10)) ++ (b'0' + n % 10) ∷ []) ≤ 1) [
            | true ↦ λ e. omega arith
            | false ↦ λ e. absurd (ground arith)
          ]
      refl
length-decimal (suc m) (suc k) n h =
    let rest = length-decimal m k (n / 10) (omega arith) in
    rw (length-append (if ltb n 10 then [] else decimal k (n / 10)) ((b'0' + n % 10) ∷ []))
      (ground arith)

socd_fits : (s : Input) → length (socd_text s) ≤ 19
socd_fits s = ground arith

delay_fits : (size ticks : ℕ) → 19 ≤ size → ticks ≤ 1001 → (delay_item_text size ticks).count ≤ size
unfolding delay_item_text snprintf copy_text
delay_fits size ticks h le = omega (
  arith,
  length-decimal 3 10 ticks (omega arith),
  length-append (decimal 10 ticks) (codes " ticks"),
)

none_fits : (size : ℕ) → (copy_text size none).count ≤ size
unfolding copy_text
none_fits size = omega arith

found-Fits :
    (size : ℕ) {o : Option (List ℕ)} {name : List ℕ} (f : List ℕ → Written)
    → (f name).count ≤ size
    → o ≡ some name
    → Fits size (elim o [ none ↦ none | some n ↦ some (f n) ])
found-Fits size {o} {name} f h e =
    (f name, ap (λ p. elim p [ none ↦ none | some n ↦ some (f n) ]) e, h)

pub text-Fits :
    (c : MenuConfig) (s : Menu) (size : ℕ) (item : Item)
    → 19 ≤ size
    → IsShown c item
    → AreShown c s.input s.report_delay_ticks
    → Fits size (render_text c s size item)
unfolding render_text radio_text radio_item_text delay_item_text snprintf
text-Fits c s size (radio_menu r) h shown ok =
    let (name, e) =
      name_found c.board r (get_selected_option r s.input) (selected_shown c s.input r ok.0) in
    found-Fits size (λ name. join size (radio_name r) (codes ": ") name)
      (join_fits size (radio_name r) (codes ": ") name) e
text-Fits c s size (radio_item r i) h shown ok =
    let (name, e) = name_found c.board r i shown in
    found-Fits size
      (λ name.
        then_text
          (copied size (if get_selected_option r s.input == i then codes "[*] " else codes "[ ] "))
          (copied
            (size
              - (copied size (
                  if get_selected_option r s.input == i then codes "[*] " else codes "[ ] ")).count)
            name))
      (then_fits size _ name) e
text-Fits c s size socd_menu h shown ok = (_, refl, let fits = socd_fits s.input in omega arith)
text-Fits c s size delay_text h shown ok = (_, refl, delay_fits size s.report_delay_ticks h ok.1)
text-Fits c s size (version_row true) h shown ok = (_, refl, copied_fits size c.version)
text-Fits c s size (version_row false) h shown ok = (_, refl, none_fits size)
text-Fits c s size (action a) h shown ok = (_, refl, copied_fits size _)
text-Fits c s size main_menu h shown ok = (_, refl, copied_fits size _)
text-Fits c s size output_menu h shown ok = (_, refl, copied_fits size _)
text-Fits c s size settings_menu h shown ok = (_, refl, copied_fits size _)
text-Fits c s size about_menu h shown ok = (_, refl, copied_fits size _)
text-Fits c s size version_menu h shown ok = (_, refl, copied_fits size _)
text-Fits c s size usb_delay_menu h shown ok = (_, refl, copied_fits size _)
