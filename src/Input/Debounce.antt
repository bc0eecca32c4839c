-- ===== src/Input/Debounce.antt =====
-- What `input_debounce` (src/input/input.cpp) does to a button over time.
use passinglink.Common.{
  leb, ℕ, ◌+◌, ◌^◌, ◌≤◌, ◌<◌, Bool, true, false, List, [], ◌∷◌, if◌then◌else◌, ◌≡◌, refl, arith,
  ◌⊎◌, inl, inr, not, ◌&&◌, ap,
}
use passinglink.Input.Types.{ButtonRecord}
use passinglink.Input.Parse.{same_bool, input_debounce}

-- A sample: what the pin reads, and when.
abbrev Sample : Type 0
Sample = Bool × ℕ

module _ (transition_time : ℕ) where
  -- The ticks at which the value that `input_debounce` returns differs from the one before.
  unfoldable pub change_ticks : Bool → ButtonRecord → List Sample → List ℕ
  change_ticks before h [] = []
  change_ticks before h ((current, tick) ∷ rest) =
      let (value, h') = input_debounce transition_time current h tick in
      let later = change_ticks value h' rest in
      if same_bool before value then later else tick ∷ later

  -- The ticks of the samples that differ from the value and come a transition time after its last change.
  abbrev pub accepted : ℕ → Bool → List Sample → List ℕ
  accepted last value [] = []
  accepted last value ((current, tick) ∷ rest) =
      let changed = accepted tick current rest in
      let kept = accepted last value rest in
      if leb (last + transition_time) tick && not (same_bool value current)
      then tick ∷ changed
      else kept

  -- The clock does not run backwards, and has not wrapped.
  abbrev pub Ordered : ℕ → List Sample → Type 0
  Ordered now [] = now < 2 ^ 64
  Ordered now ((current, tick) ∷ rest) = (now ≤ tick) × Ordered tick rest

  -- Each tick comes at least the transition time after the one before.
  abbrev pub Spaced : ℕ → List ℕ → Type 0
  Spaced before [] = Unit
  Spaced before (t ∷ ts) = (before + transition_time ≤ t) × Spaced t ts

  -- A sample that comes a transition time after the last change is taken, any other leaves the
  -- value as it is recorded; the record changes only with the value.
  pub debounce-value :
      (current : Bool) (h : ButtonRecord) (tick : ℕ)
      → h.tick ≤ tick
      → tick < 2 ^ 64
      → input_debounce transition_time current h tick ≡ (
          let value = if leb (h.tick + transition_time) tick then current else h.state in
          (value, if same_bool value h.state then h else record { state = value; tick = tick }))
  unfolding input_debounce
  debounce-value current h tick le lt = ground arith

  Ordered-lt : (now : ℕ) (l : List Sample) → Ordered now l → now < 2 ^ 64
  Ordered-lt now [] o = o
  Ordered-lt now ((current, tick) ∷ rest) o = omega (arith, Ordered-lt tick rest o.1)

  Ordered-le : (a b : ℕ) (l : List Sample) → a ≤ b → Ordered b l → Ordered a l
  Ordered-le a b [] le o = omega arith
  Ordered-le a b ((current, tick) ∷ rest) le o = (omega arith, o.1)

  debounce_cases :
      (current : Bool) (h : ButtonRecord) (tick : ℕ)
      → h.tick ≤ tick
      → tick < 2 ^ 64
      → let taken = leb (h.tick + transition_time) tick && not (same_bool h.state current) in
        ((input_debounce transition_time current h tick ≡ (h.state, h)) × (taken ≡ false))
        ⊎ ((input_debounce transition_time current h tick
              ≡ (current, record { state = current; tick = tick }))
            × (taken ≡ true)
            × (same_bool h.state current ≡ false)
            × (h.tick + transition_time ≤ tick))
  unfolding input_debounce
  debounce_cases current h tick le lt = ground arith

  same_bool_refl : (b : Bool) → same_bool b b ≡ true
  same_bool_refl true = refl
  same_bool_refl false = refl

  -- However the pin bounces, the value that `input_debounce` returns changes exactly at the samples that differ
  -- from it and come at least the transition time after its last change; so its changes are at
  -- least the transition time apart.
  pub change_ticks-Spaced :
      (h : ButtonRecord) (samples : List Sample)
      → Ordered h.tick samples
      → (change_ticks h.state h samples ≡ accepted h.tick h.state samples)
        × Spaced h.tick (change_ticks h.state h samples)
  unfolding change_ticks
  change_ticks-Spaced h [] o = (refl, tt)
  change_ticks-Spaced h ((current, tick) ∷ rest) o =
      elim (debounce_cases current h tick o.0 (Ordered-lt tick rest o.1)) [
        | inl (same, kept) ↦
            let later = change_ticks-Spaced h rest (Ordered-le h.tick tick rest o.0 o.1) in
            rw (same, same_bool_refl h.state, kept) later
        | inr (flip, taken, changed, late) ↦
            let next : ButtonRecord = record { state = current; tick = tick } in
            let later = change_ticks-Spaced next rest o.1 in
            rw (flip, taken, changed) (ap (λ l. tick ∷ l) later.0, (late, later.1))
      ]
