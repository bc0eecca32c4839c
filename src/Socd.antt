-- ===== src/Socd.antt =====
-- src/input/socd.h and src/input/socd.cpp: cleaning of simultaneous opposite cardinal directions.
-- `input_socd_parse` resolves the buttons of one axis to a value in {-1, 0, 1} and the tick at
-- which it was chosen. Ticks are `uint64_t` values that are only compared and copied here.
pub mod Collect
pub mod Laws
mod Tests
use passinglink.Common.{
  ℕ, ◌<◌, Bool, true, false, not, ◌&&◌, Option, none, some, List, [], ◌∷◌, ltb, ◌==◌, if◌then◌else◌,
  is_some, max, ℤ, pos, negsuc, minus_one,
}

pub data SocdType : Type 0 where
  neutral last negative positive : SocdType

pub data ButtonType : Type 0 where
  positive neutral negative : ButtonType

-- `static_cast<int>(button_type)`
abbrev pub int_of : ButtonType → ℤ
int_of ButtonType.positive = pos 1
int_of ButtonType.neutral = pos 0
int_of ButtonType.negative = minus_one

pub record Axis : Type 0 where
  pub value : ℤ
  pub tick : ℕ

pub record SocdInputs : Type 0 where
  pub input_value : ℕ
  pub input_tick : ℕ
  pub button_type : ButtonType
  pub overrides : Bool

-- The locals `newest_positive`, `newest_neutral` and `newest_negative`.
pub record Newest : Type 0 where
  pub positive : Option ℕ
  pub neutral : Option ℕ
  pub negative : Option ℕ

abbrev pub no_input : Newest
no_input = record { positive = none; neutral = none; negative = none }

abbrev pub is_pressed : SocdInputs → Bool
is_pressed i = not (i.input_value == 0)

-- `if (!*target || **target < tick) target->reset(tick)`
unfoldable pub reset_newer : Option ℕ → ℕ → Option ℕ
reset_newer none tick = some tick
reset_newer (some t) tick = if ltb t tick then some tick else some t

-- The `switch` that picks `target`, and the update of it.
unfoldable pub note : ButtonType → ℕ → Newest → Newest
unfolding reset_newer
note ButtonType.positive tick n = record n { positive = reset_newer n.positive tick }
note ButtonType.neutral tick n = record n { neutral = reset_newer n.neutral tick }
note ButtonType.negative tick n = record n { negative = reset_newer n.negative tick }

-- How the loop over the inputs ends: by the `return` of a held override, or at the end of the span.
pub data Scan : Type 0 where
  overridden : Axis → Scan
  scanned : Newest → Scan

unfoldable pub scan : List SocdInputs → Newest → Scan
unfolding note
scan [] n = scanned n
scan (i ∷ is) n =
    let rest = scan is (if is_pressed i then note i.button_type i.input_tick n else n) in
    if is_pressed i && i.overrides
    then overridden (record { value = int_of i.button_type; tick = i.input_tick })
    else rest

-- `newest_positive.valid() - newest_negative.valid()`
abbrev pub sub_valid : Bool → Bool → ℤ
sub_valid true true = pos 0
sub_valid true false = pos 1
sub_valid false true = minus_one
sub_valid false false = pos 0

abbrev pub get_or_zero : Option ℕ → ℕ
get_or_zero none = 0
get_or_zero (some t) = t

-- The locals `newest_tick` and `newest_value`, and one use of the macro `X(tick, value)`.
abbrev Latest : Type 0
Latest = Option ℕ × Option ℤ

consider : Option ℕ → ℤ → Latest → Latest
consider none value l = l
consider (some t) value (none, v) = (some t, some value)
consider (some t) value (some t', v) = if ltb t' t then (some t, some value) else (some t', v)

abbrev pub value_or_zero : Option ℤ → ℤ
value_or_zero none = pos 0
value_or_zero (some v) = v

resolve_last : Newest → Axis
unfolding consider
resolve_last n =
    let l =
      consider n.negative minus_one
        (consider n.neutral (pos 0) (consider n.positive (pos 1) (none, none))) in
    record { value = value_or_zero l.1; tick = get_or_zero l.0 }

-- `if (first) { value, *first } else if (second) { value', *second } else { 0, 0 }`
prefer : Option ℕ → ℤ → Option ℕ → ℤ → Axis
prefer (some t) v second v' = record { value = v; tick = t }
prefer none v (some t) v' = record { value = v'; tick = t }
prefer none v none v' = record { value = pos 0; tick = 0 }

-- The `switch (type)` after the loop, and what follows it for `Last`.
unfoldable pub resolve : SocdType → Newest → Axis
unfolding resolve_last prefer
resolve SocdType.neutral n = record {
  value = sub_valid (is_some n.positive) (is_some n.negative);
  tick = max (get_or_zero n.positive) (get_or_zero n.negative);
}
resolve SocdType.positive n = prefer n.positive (pos 1) n.negative minus_one
resolve SocdType.negative n = prefer n.negative minus_one n.positive (pos 1)
resolve SocdType.last n = resolve_last n

abbrev pub finish : SocdType → Scan → Axis
finish type (overridden a) = a
finish type (scanned n) = resolve type n

unfoldable pub input_socd_parse : SocdType → List SocdInputs → Axis
unfolding scan resolve
input_socd_parse type inputs = finish type (scan inputs no_input)
