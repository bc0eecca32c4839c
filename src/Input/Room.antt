-- ===== src/Input/Room.antt =====
-- Whether the entries that a profile writes fit `socd_buf` (src/input/profile.cpp).
use passinglink.Common.{
  ◌≤◌, false, not, ◌||◌, some, length, leb, ◌≡◌, arith, ℕ, none, true, if◌then◌else◌, refl,
}
use passinglink.Input.Types.{RawInputState, Board, Input, button_w}
use passinglink.Input.Profile.{
  Profile, default_profile, active_profile, socd_x, socd_y, socd_buf_size, input_socd, socd_axes,
}

default_of :
    (b : Board) (p : Profile) (s : Input)
    → b.has_display ≡ false
    → active_profile b s ≡ some p
    → p ≡ default_profile
unfolding active_profile
default_of b p s h e = ground arith

-- The entries that the active profile writes for the horizontal axis fit `socd_buf`; those for the
-- vertical axis do exactly if the board has a display or lacks `button_w`.
pub socd_buf-fits :
    (b : Board) (p : Profile) (raw : RawInputState) (s : Input)
    → active_profile b s ≡ some p
    → (length (socd_x b p raw s.button_history) ≤ socd_buf_size b)
      × (leb (length (socd_y b p raw s.button_history)) (socd_buf_size b)
          ≡ (b.has_display || not (b.available button_w)))
unfolding socd_x socd_y
socd_buf-fits b p raw s e = ground (arith, default_of b p s)

le→leb : {m n : ℕ} → m ≤ n → leb m n ≡ true
le→leb h = ground arith

-- So `input_socd` of the active profile gives the axes exactly on such a board.
pub input_socd-fits :
    (b : Board) (p : Profile) (raw : RawInputState) (s : Input)
    → active_profile b s ≡ some p
    → input_socd b p raw s
      ≡ (if b.has_display || not (b.available button_w) then some (socd_axes b p raw s) else none)
unfolding input_socd
input_socd-fits b p raw s e =
    let (x_fits, y_fits) = socd_buf-fits b p raw s e in rw (le→leb x_fits, y_fits) refl
