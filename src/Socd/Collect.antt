-- ===== src/Socd/Collect.antt =====
-- What the loop of `input_socd_parse` (src/input/socd.cpp) collects, against a plain description:
-- for each kind of button the greatest tick of the held buttons of that kind.
use passinglink.Common.{
  ℕ, Bool, true, false, ◌&&◌, Option, none, some, List, [], ◌∷◌, if◌then◌else◌, ◌≡◌, ◌∙◌, ap, arith,
  max, Bool-cases, inl, inr,
}
use passinglink.Socd.{
  ButtonType, SocdInputs, Newest, no_input, is_pressed, reset_newer, note, overridden, scanned,
  scan, int_of,
}

-- The later of two optional ticks.
abbrev pub later : Option ℕ → Option ℕ → Option ℕ
later none b = b
later (some a) none = some a
later (some a) (some b) = some (max a b)

abbrev pub same_type : ButtonType → ButtonType → Bool
same_type ButtonType.positive ButtonType.positive = true
same_type ButtonType.neutral ButtonType.neutral = true
same_type ButtonType.negative ButtonType.negative = true
same_type _ _ = false

abbrev pub is_held : ButtonType → SocdInputs → Bool
is_held t i = is_pressed i && same_type t i.button_type

-- The greatest tick of the held buttons of one kind.
unfoldable pub newest_tick : ButtonType → List SocdInputs → Option ℕ
newest_tick t [] = none
newest_tick t (i ∷ is) = later (if is_held t i then some i.input_tick else none) (newest_tick t is)

abbrev pub newest_of : List SocdInputs → Newest
newest_of is = record {
  positive = newest_tick ButtonType.positive is;
  neutral = newest_tick ButtonType.neutral is;
  negative = newest_tick ButtonType.negative is;
}

abbrev pub is_override : SocdInputs → Bool
is_override i = is_pressed i && i.overrides

-- The first held button that overrides the others.
unfoldable pub first_override : List SocdInputs → Option SocdInputs
first_override [] = none
first_override (i ∷ is) = if is_override i then some i else first_override is

abbrev later_all : Newest → Newest → Newest
later_all a b = record {
  positive = later a.positive b.positive;
  neutral = later a.neutral b.neutral;
  negative = later a.negative b.negative;
}

later_assoc : (a b c : Option ℕ) → later (later a b) c ≡ later a (later b c)
later_assoc a b c = ground arith

note-later :
    (t : ButtonType) (k : ℕ) (n m : Newest)
    → later_all (note t k n) m ≡ later_all n (later_all (note t k no_input) m)
unfolding note reset_newer
note-later t k n m = ground arith

scan_step :
    (i : SocdInputs) (n : Newest) (is : List SocdInputs)
    → later_all (if is_pressed i then note i.button_type i.input_tick n else n) (newest_of is)
      ≡ later_all n (newest_of (i ∷ is))
unfolding note reset_newer newest_tick
scan_step i n is = ground arith

-- With no override held, the loop ends with the newest tick of each kind.
pub scan_lem :
    (is : List SocdInputs) (n : Newest)
    → first_override is ≡ none
    → scan is n ≡ scanned (later_all n (newest_of is))
unfolding scan first_override newest_tick
scan_lem [] n h = ground arith
scan_lem (i ∷ is) n h = elim (Bool-cases (is_override i)) [
  | inl over ↦ ground arith
  | inr plain ↦ rw plain (
      scan_lem is (if is_pressed i then note i.button_type i.input_tick n else n) (rw plain at h)
      ∙ ap scanned (scan_step i n is))
]

-- With an override held, the loop ends at the first one.
pub scan-override :
    (is : List SocdInputs) (n : Newest) (i : SocdInputs)
    → first_override is ≡ some i
    → scan is n ≡ overridden (record { value = int_of i.button_type; tick = i.input_tick })
unfolding scan first_override
scan-override [] n i h = ground arith
scan-override (j ∷ is) n i h =
    ground
      (arith, scan-override is (if is_pressed j then note j.button_type j.input_tick n else n) i)
