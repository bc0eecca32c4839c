-- ===== src/Input/Pins/Slots.antt =====
-- src/input/input.cpp: `gpio_device_add` finds a slot.
use passinglink.Common.{
  ℕ, zero, suc, ◌+◌, ◌<◌, ◌≤◌, Bool, true, false, ◌||◌, none, some, List, [], ◌∷◌, ◌++◌, ◌==◌,
  Bool-cases, ◌⊎◌, inl, inr, ◌≡◌, refl, ap, sym, subst, ◌∙◌, length, get_elem?, length-append,
  to_bit, is_some, arith,
}
use mathlib.Core.Bool.{true≢false}
use passinglink.Input.Pins.{gpio_port_count, Ports, find_device, gpio_device_add}

abbrev pub has : ℕ → List ℕ → Bool
has d [] = false
has d (e ∷ es) = d == e || has d es

-- How many of some ports are among the devices.
abbrev pub filled : List ℕ → List ℕ → ℕ
filled [] ds = 0
filled (p ∷ ps) ds = to_bit (has p ds) + filled ps ds

filled_le : (ps ds : List ℕ) → filled ps ds ≤ length ps
filled_le [] ds = omega arith
filled_le (p ∷ ps) ds = elim (has p ds) as (λ b. to_bit b + filled ps ds ≤ suc (length ps)) [
  | true ↦ omega (arith, filled_le ps ds)
  | false ↦ omega (arith, filled_le ps ds)
]

has-append : (p d : ℕ) (ds : List ℕ) → has p (ds ++ d ∷ []) ≡ (has p ds || p == d)
has-append p d [] = elim (p == d) as (λ b. (b || false) ≡ b) [ true ↦ refl | false ↦ refl ]
has-append p d (e ∷ es) =
    elim (p == e) as (λ b. (b || has p (es ++ d ∷ [])) ≡ ((b || has p es) || p == d)) [
      | true ↦ refl
      | false ↦ has-append p d es
    ]

to_bit_or : (a b : Bool) → to_bit a ≤ to_bit (a || b)
to_bit_or true b = omega arith
to_bit_or false b = elim b as (λ b. 0 ≤ to_bit b) [ true ↦ omega arith | false ↦ omega arith ]

filled_grows : (ps ds : List ℕ) (d : ℕ) → filled ps ds ≤ filled ps (ds ++ d ∷ [])
filled_grows [] ds d = omega arith
filled_grows (p ∷ ps) ds d =
    rw (has-append p d ds) (omega (arith, to_bit_or (has p ds) (p == d), filled_grows ps ds d))

filled_more :
    (ps ds : List ℕ) (d : ℕ)
    → has d ps ≡ true
    → has d ds ≡ false
    → filled ps ds < filled ps (ds ++ d ∷ [])
filled_more [] ds d there new = absurd (true≢false (sym there))
filled_more (p ∷ ps) ds d there new = elim (Bool-cases (d == p)) [
  | inl here ↦
      let same : d ≡ p = ground arith in
      let new_p : has p ds ≡ false = subst (λ q. has q ds ≡ false) same new in
      let found : (p == d) ≡ true = ground arith in
      rw (has-append p d ds, new_p, found) (omega (arith, filled_grows ps ds d))
  | inr other ↦
      let rest : has d ps ≡ true = sym (rw other refl) ∙ there in
      rw (has-append p d ds)
        (omega (arith, to_bit_or (has p ds) (p == d), filled_more ps ds d rest new))
]

find_cases :
    (d : ℕ) (ds : List ℕ) (i : ℕ)
    → ((find_device d ds i ≡ none) × (has d ds ≡ false))
      ⊎ ((k : ℕ) × (find_device d ds i ≡ some (i + k)) × (get_elem? ds k ≡ some d))
unfolding find_device
find_cases d [] i = inl (refl, refl)
find_cases d (e ∷ es) i = elim (Bool-cases (d == e)) [
  | inl here ↦ inr (0, rw here (ap some (omega arith)), ap some (ground arith))
  | inr other ↦ elim (find_cases d es (i + 1)) [
    | inl nothing ↦ inl (rw other nothing.0, rw other nothing.1)
    | inr found ↦
        let k = found.0 in inr (suc k, rw other (found.1 ∙ ap some (omega arith)), found.2)
  ]
]

get_elem?-append :
    (ds es : List ℕ) (i d : ℕ) → get_elem? ds i ≡ some d → get_elem? (ds ++ es) i ≡ some d
get_elem?-append [] es i d e = absurd (true≢false (sym (ap is_some e)))
get_elem?-append (x ∷ ds) es zero d e = e
get_elem?-append (x ∷ ds) es (suc i) d e = get_elem?-append ds es i d e

get_elem?-last : (ds : List ℕ) (d : ℕ) → get_elem? (ds ++ d ∷ []) (length ds) ≡ some d
get_elem?-last [] d = refl
get_elem?-last (x ∷ ds) d = get_elem?-last ds d

-- What `gpio_device_add` returns: the device is at the slot, and the devices before are where they were.
pub record Added (ports : List ℕ) (device : ℕ) (s : Ports) : Type 0 where
  pub slot : ℕ
  pub after : Ports
  pub result : gpio_device_add device s ≡ some (slot, after)
  pub found : get_elem? after.devices slot ≡ some device
  pub kept : (i d : ℕ) → get_elem? s.devices i ≡ some d → get_elem? after.devices i ≡ some d
  pub room : length after.devices ≤ filled ports after.devices
  pub same_indices : after.gpio_indices ≡ s.gpio_indices

pub added :
    (ports : List ℕ) (device : ℕ) (s : Ports)
    → length ports ≤ gpio_port_count
    → has device ports ≡ true
    → length s.devices ≤ filled ports s.devices
    → Added ports device s
unfolding gpio_device_add
added ports device s few there room = elim (find_cases device s.devices 0) [
  | inr old ↦ record {
    slot = 0 + old.0;
    after = s;
    result = rw (gpio_device_add, old.1) refl;
    found = subst (λ i. get_elem? s.devices i ≡ some device) (omega arith) old.2;
    kept = λ i d e. e;
    room = room;
    same_indices = refl;
  }
  | inl new ↦
      let more = filled_more ports s.devices device there new.1 in
      let bound = filled_le ports (s.devices ++ device ∷ []) in
      let free : (length s.devices == gpio_port_count) ≡ false = ground (arith, more, bound) in
      record {
        slot = length s.devices;
        after = record s { devices = s.devices ++ device ∷ [] };
        result = rw (gpio_device_add, new.0, free) refl;
        found = get_elem?-last s.devices device;
        kept = λ i d e. get_elem?-append s.devices (device ∷ []) i d e;
        room = omega (arith, length-append s.devices (device ∷ []));
        same_indices = refl;
      }
]
