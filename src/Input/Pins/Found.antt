-- ===== src/Input/Pins/Found.antt =====
-- src/input/input.cpp: `input_gpio_init` gives each pin the slot of its own port.
use passinglink.Common.{
  ℕ, zero, suc, ◌≤◌, true, none, some, List, [], ◌∷◌, ◌==◌, Bool-cases, inl, inr, ◌≡◌, refl, ap,
  sym, subst, ◌∙◌, length, get_elem?, is_some, arith,
}
use mathlib.Core.Bool.{true≢false}
use passinglink.Input.Types.{
  Gpio, stick_up, stick_down, stick_right, stick_left, button_north, button_east, button_south,
  button_west, button_l1, button_l2, button_l3, button_r1, button_r2, button_r3, button_start,
  button_select, button_home, button_touchpad, button_menu, button_w, button_thumb_left,
  button_thumb_right, mode_lock, mode_ps3, mode_ls, mode_rs, mode_dpad, index, gpios, Board,
}
use passinglink.Input.Pins.{PinTree, Ports, set_index, init_gpio, init_gpios, input_gpio_init}
use passinglink.Input.Pins.Slots.{has, filled, added}

gpio_at : (g : Gpio) → get_elem? gpios (index g) ≡ some g
gpio_at stick_up = refl
gpio_at stick_down = refl
gpio_at stick_right = refl
gpio_at stick_left = refl
gpio_at button_north = refl
gpio_at button_east = refl
gpio_at button_south = refl
gpio_at button_west = refl
gpio_at button_l1 = refl
gpio_at button_l2 = refl
gpio_at button_l3 = refl
gpio_at button_r1 = refl
gpio_at button_r2 = refl
gpio_at button_r3 = refl
gpio_at button_start = refl
gpio_at button_select = refl
gpio_at button_home = refl
gpio_at button_touchpad = refl
gpio_at button_menu = refl
gpio_at button_w = refl
gpio_at button_thumb_left = refl
gpio_at button_thumb_right = refl
gpio_at mode_lock = refl
gpio_at mode_ps3 = refl
gpio_at mode_ls = refl
gpio_at mode_rs = refl
gpio_at mode_dpad = refl

index-injective : (g h : Gpio) → index g ≡ index h → g ≡ h
index-injective g h e =
    ap (λ o. elim o [ none ↦ g | some x ↦ x ])
      (sym (gpio_at g) ∙ ap (get_elem? gpios) e ∙ gpio_at h)

-- The pins of a board that work: `device` is the port of each, and the ports are among at most four.
pub record Wired (b : Board) (t : PinTree) (device : Gpio → ℕ) (ports : List ℕ) : Type 0 where
  pub few : length ports ≤ 4
  pub bound : (g : Gpio) → b.available g ≡ true → t.binding g ≡ some (device g)
  pub configured : (g : Gpio) → b.available g ≡ true → t.configured g ≡ true
  pub among : (g : Gpio) → b.available g ≡ true → has (device g) ports ≡ true

-- The slot of an entry is that of its port.
unfoldable pub Slotted : (Gpio → ℕ) → Ports → Gpio → Type 0
Slotted device s g = get_elem? s.devices (s.gpio_indices (index g)) ≡ some (device g)

set_index-Slotted :
    (device : Gpio → ℕ) (g : Gpio) (i : ℕ) (s : Ports)
    → get_elem? s.devices i ≡ some (device g)
    → Slotted device (set_index (index g) i s) g
unfolding Slotted
set_index-Slotted device g i s found =
    let here : (index g == index g) ≡ true = ground arith in rw here found

set_index-keeps :
    (device : Gpio → ℕ) (g h : Gpio) (i : ℕ) (s : Ports)
    → get_elem? s.devices i ≡ some (device g)
    → Slotted device s h
    → Slotted device (set_index (index g) i s) h
unfolding Slotted
set_index-keeps device g h i s found old = elim (Bool-cases (index h == index g)) [
  | inl same ↦
      let e : g ≡ h = index-injective g h (ground arith) in
      rw same (found ∙ ap (λ x. some (device x)) e)
  | inr other ↦ rw other old
]

module _ (b : Board) (t : PinTree) (device : Gpio → ℕ) (ports : List ℕ) where
  record Step (g : Gpio) (s : Ports) : Type 0 where
    after : Ports
    result : init_gpio b t g s ≡ some after
    room : length after.devices ≤ filled ports after.devices
    slotted : b.available g ≡ true → Slotted device after g
    kept : (h : Gpio) → Slotted device s h → Slotted device after h

  init_gpio-Step :
      (g : Gpio) (s : Ports)
      → Wired b t device ports
      → length s.devices ≤ filled ports s.devices
      → Step g s
  unfolding init_gpio Slotted
  init_gpio-Step g s wired room = elim (Bool-cases (b.available g)) [
    | inr missing ↦ record {
      after = s;
      result = rw missing refl;
      room = room;
      slotted = λ here. absurd (true≢false (sym here ∙ missing));
      kept = λ h e. e;
    }
    | inl here ↦
        let a = added ports (device g) s wired.few (wired.among g here) room in
        record {
          after = set_index (index g) a.slot a.after;
          result = rw (here, wired.bound g here, wired.configured g here, a.result) refl;
          room = a.room;
          slotted = λ _. set_index-Slotted device g a.slot a.after a.found;
          kept = λ h e. set_index-keeps device g h a.slot a.after a.found (
              subst
                (λ (slots : ℕ → ℕ). get_elem? a.after.devices (slots (index h)) ≡ some (device h))
                (sym a.same_indices) (a.kept (s.gpio_indices (index h)) (device h) e));
        }
  ]

  -- What `init_gpios` returns.
  record Steps (gs : List Gpio) (s : Ports) : Type 0 where
    after : Ports
    result : init_gpios b t gs s ≡ some after
    kept : (h : Gpio) → Slotted device s h → Slotted device after h
    slotted :
        (i : ℕ) (h : Gpio) → get_elem? gs i ≡ some h → b.available h ≡ true → Slotted device after h

  init_gpios-Steps :
      (gs : List Gpio) (s : Ports)
      → Wired b t device ports
      → length s.devices ≤ filled ports s.devices
      → Steps gs s
  unfolding init_gpios
  init_gpios-Steps [] s wired room = record {
    after = s;
    result = refl;
    kept = λ h e. e;
    slotted = λ i h e here. absurd (true≢false (sym (ap is_some e)));
  }
  init_gpios-Steps (g ∷ gs) s wired room =
      let step = init_gpio-Step g s wired room in
      let rest = init_gpios-Steps gs step.after wired step.room in
      record {
        after = rest.after;
        result = rw (init_gpios, step.result) rest.result;
        kept = λ h e. rest.kept h (step.kept h e);
        slotted = later step rest;
      }
    where
      later :
          (step : Step g s) (rest : Steps gs step.after) (i : ℕ) (h : Gpio)
          → get_elem? (g ∷ gs) i ≡ some h
          → b.available h ≡ true
          → Slotted device rest.after h
      later step rest zero h e here =
          let same : g ≡ h = ap (λ o. elim o [ none ↦ g | some x ↦ x ]) e in
          rest.kept h
            (subst (Slotted device step.after) same (step.slotted (ap b.available same ∙ here)))
      later step rest (suc i) h e here = rest.slotted i h e here

-- With pins that work on ports that are among four, the initialization of the pins succeeds, from empty slots, and each
-- pin of the board has the slot of its port.
pub input_gpio_init-Slotted :
    (b : Board) (t : PinTree) (device : Gpio → ℕ) (ports : List ℕ) (indices : ℕ → ℕ)
    → Wired b t device ports
    → (s : Ports) × (input_gpio_init b t (record { devices = []; gpio_indices = indices }) ≡ some s)
      × ((g : Gpio) → b.available g ≡ true → Slotted device s g)
unfolding input_gpio_init
input_gpio_init-Slotted b t device ports indices wired =
    let all =
      init_gpios-Steps b t device ports gpios (record { devices = []; gpio_indices = indices })
        wired (omega arith) in
    (all.after, all.result, λ g here. all.slotted (index g) g (gpio_at g) here)
