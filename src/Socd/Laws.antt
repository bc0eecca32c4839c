-- ===== src/Socd/Laws.antt =====
-- What `input_socd_parse` (src/input/socd.cpp) promises for each way of resolving opposite
-- directions.
use mathlib.Core.List.{Memᴰ}
use passinglink.Common.{
  ℕ, ◌≤◌, Bool, true, false, ◌||◌, Option, none, some, List, [], ◌∷◌, if◌then◌else◌, ◌≡◌, refl, ap,
  sym, subst, arith, ◌⊎◌, inl, inr, pos, ℤ, minus_one, is_some, ◌≢◌,
}
use passinglink.Socd.{
  ButtonType, SocdInputs, Newest, no_input, is_pressed, Axis, sub_valid, note, scan, int_of,
  SocdType, finish, resolve, input_socd_parse,
}
use passinglink.Socd.Collect.{
  newest_tick, newest_of, is_held, first_override, scan_lem, scan-override,
}

abbrev pub axis_of : SocdInputs → Axis
axis_of i = record { value = int_of i.button_type; tick = i.input_tick }

-- Whatever the type, the first held button that overrides the others decides the axis.
pub socd_parse-override :
    (type : SocdType) (is : List SocdInputs) (i : SocdInputs)
    → first_override is ≡ some i
    → input_socd_parse type is ≡ axis_of i
unfolding input_socd_parse
socd_parse-override type is i h = ap (finish type) (scan-override is no_input i h)

pub socd_parse-resolve :
    (type : SocdType) (is : List SocdInputs)
    → first_override is ≡ none
    → input_socd_parse type is ≡ resolve type (newest_of is)
unfolding input_socd_parse
socd_parse-resolve type is h = ap (finish type) (scan_lem is no_input h)

-- Some held button is of the kind.
unfoldable pub any_held : ButtonType → List SocdInputs → Bool
any_held t [] = false
any_held t (i ∷ is) = is_held t i || any_held t is

any_held-newest :
    (t : ButtonType) (is : List SocdInputs) → is_some (newest_tick t is) ≡ any_held t is
unfolding newest_tick any_held
any_held-newest t [] = refl
any_held-newest t (i ∷ is) = ground (arith, any_held-newest t is)

-- The value of an axis from what is held on its two sides.
abbrev pub outcome : SocdType → Bool → Bool → ℤ
outcome SocdType.positive true n = pos 1
outcome SocdType.negative p true = minus_one
outcome type p n = sub_valid p n

-- Unless the last input wins or an override is held, the value depends on the held sides alone:
-- opposite directions cancel for `Neutral`, and the side that the type names wins otherwise.
pub socd_parse-value :
    (type : SocdType) (is : List SocdInputs)
    → type ≢ SocdType.last
    → first_override is ≡ none
    → (input_socd_parse type is).value
      ≡ outcome type (any_held ButtonType.positive is) (any_held ButtonType.negative is)
unfolding resolve
socd_parse-value type is h e = ground (
  arith,
  socd_parse-resolve type is e,
  any_held-newest ButtonType.positive is,
  any_held-newest ButtonType.negative is,
)

abbrev pub All {ℓ κ} : {A : Type ℓ} → (A → Type κ) → List A → Type κ
All P [] = Unit
All P (x ∷ xs) = P x × All P xs

-- The axis follows a button of the list that is held.
abbrev pub Follows : Axis → List SocdInputs → Type 0
Follows r is = (i : SocdInputs) × Memᴰ i is × (is_pressed i ≡ true) × (axis_of i ≡ r)

newest_split :
    (t : ButtonType) (i : SocdInputs) (is : List SocdInputs) (k : ℕ)
    → newest_tick t (i ∷ is) ≡ some k
    → ((is_pressed i ≡ true) × (axis_of i ≡ record { value = int_of t; tick = k }))
      ⊎ (newest_tick t is ≡ some k)
unfolding newest_tick
newest_split t i is k h = ground arith

-- A tick that is not `none` is that of a held button of the kind.
newest-Follows :
    (t : ButtonType) (is : List SocdInputs) (k : ℕ)
    → newest_tick t is ≡ some k
    → Follows (record { value = int_of t; tick = k }) is
newest-Follows t [] k h = absurd (unfold newest_tick in cc)
newest-Follows t (i ∷ is) k h = elim (newest_split t i is k h) [
  | inl here ↦ (i, Memᴰ.head refl, here.0, here.1)
  | inr rest ↦ let f = newest-Follows t is k rest in (f.0, Memᴰ.tail f.1, f.2, f.3)
]

abbrev Below : Option ℕ → ℕ → Type 0
Below none m = Unit
Below (some k) m = k ≤ m

newest-Below :
    (is : List SocdInputs) (m : ℕ)
    → Below (newest_tick ButtonType.positive is) m
    → Below (newest_tick ButtonType.neutral is) m
    → Below (newest_tick ButtonType.negative is) m
    → All (λ i. is_pressed i ≡ true → i.input_tick ≤ m) is
unfolding newest_tick
newest-Below [] m p z n = tt
newest-Below (i ∷ is) m p z n =
    (ground arith, newest-Below is m (ground arith) (ground arith) (ground arith))

resolve_last-Below :
    (n : Newest)
    → let m = (resolve SocdType.last n).tick in
      Below n.positive m × Below n.neutral m × Below n.negative m
unfolding resolve
resolve_last-Below n = (ground arith, ground arith, ground arith)

-- The axis is neutral because nothing is held, or stands for the newest button of some kind.
resolve_last-cases :
    (n : Newest)
    → ((n ≡ no_input) × (resolve SocdType.last n ≡ record { value = pos 0; tick = 0 }))
      ⊎ ((k : ℕ) × (n.positive ≡ some k)
          × (resolve SocdType.last n ≡ record { value = pos 1; tick = k }))
      ⊎ ((k : ℕ) × (n.neutral ≡ some k)
          × (resolve SocdType.last n ≡ record { value = pos 0; tick = k }))
      ⊎ ((k : ℕ) × (n.negative ≡ some k)
          × (resolve SocdType.last n ≡ record { value = minus_one; tick = k }))
unfolding resolve
resolve_last-cases n = ground arith

All-mem {ℓ κ} : {A : Type ℓ} (P : A → Type κ) {x : A} (xs : List A) → All P xs → Memᴰ x xs → P x
All-mem P [] h m = elim m [ ]
All-mem P (y ∷ ys) h (Memᴰ.head e) = subst P (sym e) h.0
All-mem P (y ∷ ys) h (Memᴰ.tail m) = All-mem P ys h.1 m

-- With the last input winning and no override held, no held button is newer than the axis.
pub socd_parse_last-newest :
    (is : List SocdInputs) (i : SocdInputs)
    → first_override is ≡ none
    → Memᴰ i is
    → is_pressed i ≡ true
    → i.input_tick ≤ (input_socd_parse SocdType.last is).tick
socd_parse_last-newest is i h m pressed =
    let b = resolve_last-Below (newest_of is) in
    rw (socd_parse-resolve SocdType.last is h) (
      All-mem
        (λ j. is_pressed j ≡ true → j.input_tick ≤ (resolve SocdType.last (newest_of is)).tick) is
        (newest-Below is _ b.0 b.1 b.2) m pressed)

none_held : (is : List SocdInputs) → newest_of is ≡ no_input → All (λ i. is_pressed i ≡ false) is
unfolding newest_tick
none_held [] h = tt
none_held (i ∷ is) h = (ground arith, none_held is (ground arith))

-- With the last input winning and no override held, the axis has the direction and the tick of a
-- held button, or nothing is held and it is neutral with tick 0.
pub socd_parse_last-Follows :
    (is : List SocdInputs)
    → first_override is ≡ none
    → Follows (input_socd_parse SocdType.last is) is
      ⊎ (All (λ i. is_pressed i ≡ false) is
          × (input_socd_parse SocdType.last is ≡ record { value = pos 0; tick = 0 }))
socd_parse_last-Follows is h =
    rw (socd_parse-resolve SocdType.last is h) (elim (resolve_last-cases (newest_of is)) [
      | inl e ↦ inr (none_held is e.0, e.1)
      | inr (inl p) ↦ inl (rw p.2 (newest-Follows ButtonType.positive is p.0 p.1))
      | inr (inr (inl z)) ↦ inl (rw z.2 (newest-Follows ButtonType.neutral is z.0 z.1))
      | inr (inr (inr n)) ↦ inl (rw n.2 (newest-Follows ButtonType.negative is n.0 n.1))
    ])

-- A value of an axis: -1, 0 or 1.
abbrev pub IsSign : ℤ → Type 0
IsSign v = (v ≡ minus_one) ⊎ (v ≡ pos 0) ⊎ (v ≡ pos 1)

scan-IsSign :
    (type : SocdType) (is : List SocdInputs) (n : Newest) → IsSign (finish type (scan is n)).value
unfolding scan resolve
scan-IsSign type [] n = ground arith
scan-IsSign type (i ∷ is) n =
    ground
      (arith, scan-IsSign type is (if is_pressed i then note i.button_type i.input_tick n else n))

-- Whatever is held, an axis has the value -1, 0 or 1.
pub socd_parse-IsSign :
    (type : SocdType) (is : List SocdInputs) → IsSign (input_socd_parse type is).value
unfolding input_socd_parse
socd_parse-IsSign type is = scan-IsSign type is no_input
