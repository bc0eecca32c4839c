-- ===== src/Input/Shown.antt =====
-- `input_parse` (src/input/input.cpp) from the raw pins to the buttons that the host is shown.
use passinglink.Common.{
  ℕ, Bool, true, false, not, some, if◌then◌else◌, ◌≡◌, refl, ap, ◌∙◌, subst, arith, ◌||◌, none, ap₂,
}
use passinglink.Input.Types.{RawInputState, InputState, Board, Input, button_menu, button_w, Gpio}
use passinglink.Input.Lock.{input_set_locked}
use passinglink.Input.Profile.{Profile, socd_axes, active_profile}
use passinglink.Input.Compose.{parse_with, input_profile_parse}
use passinglink.Input.Parse.{
  debounce_entry, input_prepare, input_parse, input_parse_mode, neutral_output,
}
use passinglink.Input.Room.{input_socd-fits}
use passinglink.Input.Taken.{at_rest, lock_of, takes, Shows, ShownBy, parse_with-Shows}

touchpad-prepare :
    (b : Board) (raw : RawInputState) (tick : ℕ) (s : Input)
    → (input_prepare b raw tick s).1.touchpad_data ≡ s.touchpad_data
unfolding input_prepare input_parse_mode input_set_locked
touchpad-prepare b raw tick s = ground arith

profile-prepare :
    (b : Board) (raw : RawInputState) (tick : ℕ) (s : Input)
    → active_profile b (input_prepare b raw tick s).1 ≡ active_profile b s
unfolding input_prepare input_parse_mode input_set_locked active_profile
profile-prepare b raw tick s = ground arith

history-prepare :
    (b : Board) (raw : RawInputState) (tick : ℕ) (s : Input) (g : Gpio)
    → (input_prepare b raw tick s).1.button_history g ≡ (debounce_entry b raw tick s g).1
unfolding input_prepare input_parse_mode input_set_locked
history-prepare b raw tick s g = ground arith

lock-prepare :
    (b : Board) (raw : RawInputState) (tick : ℕ) (s : Input)
    → (input_prepare b raw tick s).1.input_locked ≡ lock_of b raw tick s
unfolding input_prepare input_parse_mode input_set_locked
lock-prepare b raw tick s = ground arith

Shows-same :
    (b : Board) (p : Profile) (raw : RawInputState) (out : InputState) {taken taken' : Bool}
    {locked locked' : Bool} {rest rest' : InputState}
    → taken ≡ taken'
    → locked ≡ locked'
    → rest ≡ rest'
    → Shows b p raw taken locked rest out
    → Shows b p raw taken' locked' rest' out
Shows-same b p raw out {taken} {taken'} {locked} {locked'} {rest} {rest'} e f g shown =
    subst (λ v. Shows b p raw taken' locked' v out) g
      (subst (λ v. Shows b p raw taken' v rest out) f
        (subst (λ v. Shows b p raw v locked rest out) e shown))

-- What `input_parse` returns where it succeeds.
abbrev parsed : Board → RawInputState → ℕ → Input → Profile → Input × InputState
parsed b raw tick s p =
    let (debounced, t) = input_prepare b raw tick s in
    parse_with b p (socd_axes b p debounced t) debounced tick t (neutral_output t.touchpad_data)

parse_some :
    (b : Board) (raw : RawInputState) (tick : ℕ) (s : Input) (p : Profile)
    → active_profile b (input_prepare b raw tick s).1 ≡ some p
    → input_parse b raw tick s
      ≡ (if b.has_display || not (b.available button_w) then some (parsed b raw tick s p) else none)
unfolding input_parse input_profile_parse
parse_some b raw tick s p e =
    let (debounced, t) = input_prepare b raw tick s in
    rw (e, input_parse) (rw (input_socd-fits b p debounced t e, input_profile_parse) (chosen _))
  where
    chosen :
        (fits : Bool)
        → (elim (if fits
            then some (socd_axes b p (input_prepare b raw tick s).0 (input_prepare b raw tick s).1)
            else none) [
              | none ↦ none
              | some stick ↦ some (
                  parse_with b p stick
                    (input_prepare b raw tick s).0
                    tick
                    (input_prepare b raw tick s).1
                    (neutral_output (input_prepare b raw tick s).1.touchpad_data))
            ])
          ≡ (if fits then some (parsed b raw tick s p) else none)
    chosen true = refl
    chosen false = refl

-- With a profile selected `input_parse` succeeds exactly on a board that has a display or lacks `button_w`. If the
-- board has a display and a menu button, whose debounced record is held, and for the hold time while the
-- input is locked, the state that it makes is at rest; else each button shows the debounced state of its
-- physical button, with select, start and home hidden while the input is locked.
pub input_parse-Shown :
    (b : Board) (raw : RawInputState) (tick : ℕ) (s : Input) (p : Profile)
    → active_profile b s ≡ some p
    → (r : Input × InputState) × (input_parse b raw tick s
        ≡ (if b.has_display || not (b.available button_w) then some r else none))
      × ShownBy b p raw tick s r.1
unfolding input_prepare
input_parse-Shown b raw tick s p e =
    let (debounced, t) = input_prepare b raw tick s in
    let shown =
      parse_with-Shows b p (socd_axes b p debounced t) debounced t (neutral_output t.touchpad_data)
        tick in
    (
      parsed b raw tick s p,
      parse_some b raw tick s p (profile-prepare b raw tick s ∙ e),
      Shows-same b p debounced (parsed b raw tick s p).1
          (ap₂ (λ menu locked. takes b tick menu locked) (history-prepare b raw tick s button_menu)
            (lock-prepare b raw tick s))
          (lock-prepare b raw tick s) (ap at_rest (touchpad-prepare b raw tick s)) shown,
    )

pub parse_succeeds :
    (b : Board) (raw : RawInputState) (tick : ℕ) (s : Input) (p : Profile)
    → (b.has_display || not (b.available button_w)) ≡ true
    → active_profile b s ≡ some p
    → (r : Input × InputState) × (input_parse b raw tick s ≡ some r) × ShownBy b p raw tick s r.1
parse_succeeds b raw tick s p fits e =
    let (r, parse, shown) = input_parse-Shown b raw tick s p e in
    (r, parse ∙ ap (λ room. if room then some r else none) fits, shown)
