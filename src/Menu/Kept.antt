-- ===== src/Menu/Kept.antt =====
-- What entering an object of src/display/menu.cpp leaves alone.
use passinglink.Common.{
  ℕ, ◌+◌, ◌<◌, Bool, true, false, ltb, ◌≢◌, ◌%◌, ◌^◌, ◌≡◌, refl, ap, arith, if◌then◌else◌,
}
use passinglink.Input.Types.{Input}
use passinglink.Input.Lock.{input_set_locked}
use passinglink.Input.Profile.{input_profile_activate}
use passinglink.Menu.Items.{
  Radio, mode, profile, socd_x, socd_y, Action, lock, unlock, increase, decrease, remember, forget,
  dfu, Item, radio_item, action, Menu, MenuConfig, metrics_reset, menu_effect, on_enter, run_action,
  on_option_selected, get_option_count, usb_delay_increase, usb_delay_decrease,
}
use passinglink.Menu.Shape.{IsShown}
use passinglink.Menu.Valid.{AreShown}

-- What the object that is entered leaves alone.
abbrev pub IsKept : MenuConfig → Menu → Menu → Type 0
IsKept c s t =
    (t.menu_stack ≡ s.menu_stack)
    × (t.menu_scroll_index ≡ s.menu_scroll_index)
    × (t.menu_selected_index ≡ s.menu_selected_index)
    × (t.menu_opened ≡ s.menu_opened)
    × AreShown c t.input t.report_delay_ticks

set_locked-profile :
    (c : MenuConfig) (locked : Bool) (tick : ℕ) (s : Input)
    → (input_set_locked c.board locked tick s).active_profile_idx ≡ s.active_profile_idx
unfolding input_set_locked
set_locked-profile c locked tick s = ground arith

not_last :
    (c : MenuConfig) (ticks : ℕ)
    → 1000 < c.us_of_ticks 1001
    → ltb 1000 (c.us_of_ticks ticks) ≡ false
    → ticks ≢ 1001
not_last c ticks slow h e = let same = ap c.us_of_ticks e in absurd (ground arith)

increase-IsKept :
    (c : MenuConfig) (s : Menu)
    → 1000 < c.us_of_ticks 1001
    → AreShown c s.input s.report_delay_ticks
    → IsKept c s (usb_delay_increase c s)
unfolding usb_delay_increase
increase-IsKept c s slow ok =
    elim (ltb 1000 (c.us_of_ticks s.report_delay_ticks))
        as (λ b.
          ltb 1000 (c.us_of_ticks s.report_delay_ticks) ≡ b
          → IsKept c s (
              if b
              then s
              else menu_effect metrics_reset
                  (record s { report_delay_ticks = (s.report_delay_ticks + 1) % 2 ^ 32 }))) [
                    | true ↦ λ e. (refl, refl, refl, refl, ok)
                    | false ↦ λ e. (
                      refl,
                      refl,
                      refl,
                      refl,
                      (ok.0, let less = not_last c s.report_delay_ticks slow e in omega arith),
                    )
                  ]
      refl

decrease-IsKept :
    (c : MenuConfig) (s : Menu)
    → AreShown c s.input s.report_delay_ticks
    → IsKept c s (usb_delay_decrease s)
unfolding usb_delay_decrease
decrease-IsKept c s ok = ground arith

run_action-IsKept :
    (c : MenuConfig) (tick : ℕ) (a : Action) (s : Menu)
    → 1000 < c.us_of_ticks 1001
    → AreShown c s.input s.report_delay_ticks
    → IsKept c s (run_action c tick a s)
unfolding run_action
run_action-IsKept c tick lock s slow ok =
    (refl, refl, refl, refl, omega (arith, set_locked-profile c true tick s.input))
run_action-IsKept c tick unlock s slow ok =
    (refl, refl, refl, refl, omega (arith, set_locked-profile c false tick s.input))
run_action-IsKept c tick increase s slow ok = increase-IsKept c s slow ok
run_action-IsKept c tick decrease s slow ok = decrease-IsKept c s ok
run_action-IsKept c tick remember s slow ok = (refl, refl, refl, refl, ok)
run_action-IsKept c tick forget s slow ok = (refl, refl, refl, refl, ok)
run_action-IsKept c tick dfu s slow ok = (refl, refl, refl, refl, ok)

select-AreShown :
    (c : MenuConfig) (r : Radio) (i : ℕ) (s : Menu)
    → i < get_option_count c.board r
    → AreShown c s.input s.report_delay_ticks
    → AreShown c (on_option_selected r i s.input) s.report_delay_ticks
unfolding on_option_selected get_option_count input_profile_activate
select-AreShown c mode i s lt ok = ok
select-AreShown c profile i s lt ok = (lt, ok.1)
select-AreShown c socd_x i s lt ok = ok
select-AreShown c socd_y i s lt ok = ok

pub on_enter-IsKept :
    (c : MenuConfig) (tick : ℕ) (item : Item) (s : Menu)
    → 1000 < c.us_of_ticks 1001
    → IsShown c item
    → AreShown c s.input s.report_delay_ticks
    → IsKept c s (on_enter c tick item s).1
unfolding on_enter
on_enter-IsKept c tick (radio_item r i) s slow shown ok =
    (refl, refl, refl, refl, select-AreShown c r i s shown ok)
on_enter-IsKept c tick (action a) s slow shown ok = run_action-IsKept c tick a s slow ok
on_enter-IsKept c tick item s slow shown ok = (refl, refl, refl, refl, ok)
