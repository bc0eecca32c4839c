-- ===== src/Socd/Tests.antt =====
-- Runs of src/input/socd.cpp, and its theorems at concrete inputs.
use mathlib.Core.List.{Memᴰ}
use passinglink.Common.{ℕ, ◌≤◌, true, false, List, [], ◌∷◌, ◌≡◌, refl, pos, minus_one, ◌⊎◌}
use passinglink.Socd.{ButtonType, SocdInputs, SocdType, is_pressed, input_socd_parse}
use passinglink.Socd.Collect.{first_override}
use passinglink.Socd.Laws.{
  any_held, outcome, All, Follows, socd_parse-value, socd_parse_last-newest,
  socd_parse_last-Follows,
}

abbrev left : ℕ → SocdInputs
left tick = record {
  input_value = 1;
  input_tick = tick;
  button_type = ButtonType.negative;
  overrides = false;
}

abbrev right : ℕ → SocdInputs
right tick = record {
  input_value = 1;
  input_tick = tick;
  button_type = ButtonType.positive;
  overrides = false;
}

abbrev thumb : SocdInputs
thumb = record {
  input_value = 1;
  input_tick = 3;
  button_type = ButtonType.neutral;
  overrides = true;
}

abbrev both : List SocdInputs
both = left 7 ∷ right 5 ∷ []

cancels : input_socd_parse SocdType.neutral both ≡ record { value = pos 0; tick = 7 }
unfolding input_socd_parse
cancels = refl

last_wins : input_socd_parse SocdType.last both ≡ record { value = minus_one; tick = 7 }
unfolding input_socd_parse
last_wins = refl

socd_parse-value_example :
    (input_socd_parse SocdType.positive both).value
    ≡ outcome SocdType.positive
        (any_held ButtonType.positive both)
        (any_held ButtonType.negative both)
socd_parse-value_example =
    socd_parse-value SocdType.positive both (λ e. cc) (unfold first_override in refl)

socd_parse_last-newest_example : 5 ≤ (input_socd_parse SocdType.last both).tick
socd_parse_last-newest_example =
    socd_parse_last-newest both (right 5) (unfold first_override in refl)
      (Memᴰ.tail (Memᴰ.head refl)) refl

socd_parse_last-Follows_example :
    Follows (input_socd_parse SocdType.last both) both
    ⊎ (All (λ i. is_pressed i ≡ false) both
        × (input_socd_parse SocdType.last both ≡ record { value = pos 0; tick = 0 }))
socd_parse_last-Follows_example = socd_parse_last-Follows both (unfold first_override in refl)
