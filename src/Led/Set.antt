-- ===== src/Led/Set.antt =====
-- What `led_set` (src/output/led.cpp) does to the LED that it names, and to the others.
use passinglink.Common.{
  ℕ, ◌+◌, ◌%◌, ◌^◌, ◌<◌, List, [], ◌∷◌, length, Bool, true, false, none, some, ◌≡◌, ◌≢◌, refl,
  arith, ◌==◌,
}
use passinglink.Led.{
  Led, LedState, Leds, led_index, led_set, set_state, led_update, led_on, led_off,
}

-- An LED that has a pin and does not flash.
abbrev pub IsSteady : LedState → Type 0
IsSteady s = (s.has_device ≡ true) × (s.flashing ≡ false)

abbrev pub Shows : Bool → LedState → Type 0
Shows value s = (s.has_device ≡ true) × (s.flashing ≡ false) × (s.lit ≡ value)

set_state-Shows :
    (value : Bool) (s : LedState) → IsSteady s → Shows value (set_state value none s).1
unfolding set_state led_update
set_state-Shows value s h = (ground arith, ground arith, ground arith)

==_refl : (n : ℕ) → (n == n) ≡ true
==_refl n = ground arith

pub on-Shows : (l : Led) (leds : Leds) → IsSteady (leds l) → Shows true ((led_on l none leds).1 l)
unfolding led_on led_set
on-Shows l leds h = rw (==_refl (led_index l)) (set_state-Shows true (leds l) h)

pub off-Shows :
    (l : Led) (leds : Leds) → IsSteady (leds l) → Shows false ((led_off l none leds).1 l)
unfolding led_off led_set
off-Shows l leds h = rw (==_refl (led_index l)) (set_state-Shows false (leds l) h)

pub on-other :
    (l k : Led) (leds : Leds) → led_index l ≢ led_index k → (led_on l none leds).1 k ≡ leds k
unfolding led_on led_set
on-other l k leds h = ground arith

pub off-other :
    (l k : Led) (leds : Leds) → led_index l ≢ led_index k → (led_off l none leds).1 k ≡ leds k
unfolding led_off led_set
off-other l k leds h = ground arith

-- Unconditional calls of `led_set` on one LED, in order.
abbrev pub set_all : List Bool → LedState → LedState
set_all [] s = s
set_all (v ∷ vs) s = set_all vs (set_state v none s).1

counter-set_state :
    (v : Bool) (s : LedState) → (set_state v none s).1.counter ≡ (s.counter + 1) % 2 ^ 32
unfolding set_state
counter-set_state v s = refl

told-set_state : (v : Bool) (s : LedState) → (set_state v none s).0 ≡ (s.counter + 1) % 2 ^ 32
unfolding set_state
told-set_state v s = refl

counter-set_all :
    (vs : List Bool) (s : LedState)
    → s.counter < 2 ^ 32
    → (set_all vs s).counter ≡ (s.counter + length vs) % 2 ^ 32
counter-set_all [] s h = omega arith
counter-set_all (v ∷ vs) s h = omega (
  arith,
  counter-set_state v s,
  counter-set_all vs (set_state v none s).1 (omega (arith, counter-set_state v s)),
)

set_state-stale : (v : Bool) (c : ℕ) (s : LedState) → c ≢ s.counter → (set_state v (some c) s).1 ≡ s
unfolding set_state
set_state-stale v c s h = ground arith

-- An undo, a call with the counter that an earlier call returned, changes nothing once another call came
-- in between, for fewer than 2^32 of them.
pub set_state-undo :
    (s : LedState) (v w : Bool) (vs : List Bool)
    → 0 < length vs
    → length vs < 2 ^ 32
    → let (c, done) = set_state v none s in
      (set_state w (some c) (set_all vs done)).1 ≡ set_all vs done
set_state-undo s v w vs h k =
    let done = (set_state v none s).1 in
    set_state-stale w (set_state v none s).0 (set_all vs done) (λ e. omega (
      arith,
      e,
      told-set_state v s,
      counter-set_state v s,
      counter-set_all vs done (omega (arith, counter-set_state v s)),
    ))
