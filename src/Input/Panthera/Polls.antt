-- ===== src/Input/Panthera/Polls.antt =====
-- src/input/touchpad/panthera.cpp: what the polls of the touchpad come to.
use passinglink.Common.{
  ℕ, zero, suc, ◌+◌, ◌%◌, ◌<◌, ◌≤◌, true, false, Option, none, some, List, [], ◌∷◌, ltb, leb, ◌==◌,
  if◌then◌else◌, Bool-cases, inl, inr, ◌≡◌, refl, ap, ap₂, subst, sym, ◌∙◌, arith,
}
use passinglink.Input.Types.{TouchpadXy, TouchpadData}
use passinglink.Input.Touchpad.{set_x, set_y, x_of, y_of}
use passinglink.Input.Panthera.{
  TouchpadXyFormat, TouchpadOutput, Touchpad, read_failed, touch_x, touch_y, press, read_done,
  input_touchpad_poll,
}

-- n polls in each of which the bus would answer the same.
abbrev pub polls : ℕ → Option TouchpadOutput → Touchpad → Touchpad
polls zero read s = s
polls (suc n) read s = polls n read (input_touchpad_poll read s)

-- Eight polls for each answer.
abbrev pub rounds : List (Option TouchpadOutput) → Touchpad → Touchpad
rounds [] s = s
rounds (read ∷ reads) s = rounds reads (polls 8 read s)

-- How many reads fail.
abbrev pub failures : List (Option TouchpadOutput) → ℕ
failures [] = 0
failures (none ∷ reads) = suc (failures reads)
failures (some _ ∷ reads) = failures reads

-- What eight polls do.
unfoldable pub answer : Option TouchpadOutput → Touchpad → Touchpad
answer none s = read_failed s
answer (some input) s = read_done input s

-- A pad that is on, with its counter at n.
abbrev on_at : ℕ → Touchpad → Touchpad
on_at n s = record s { disabled = false; counter = n }

on_at_start : (s : Touchpad) → s.disabled ≡ false → s.counter ≡ 0 → s ≡ on_at 0 s
on_at_start s on start = ap₂ (λ b n. record s { disabled = b; counter = n }) on start

eight_polls :
    (read : Option TouchpadOutput) (s : Touchpad)
    → polls 8 read (on_at 0 s) ≡ answer read (on_at 0 s)
unfolding input_touchpad_poll answer
eight_polls none s = refl
eight_polls (some input) s = refl

-- Eight polls use one read of the bus.
polls-answer :
    (read : Option TouchpadOutput) (s : Touchpad)
    → s.disabled ≡ false
    → s.counter ≡ 0
    → polls 8 read s ≡ answer read s
polls-answer read s on start =
    let same = on_at_start s on start in
    ap (polls 8 read) same ∙ eight_polls read s ∙ ap (answer read) (sym same)

press_lem :
    (at : TouchpadXyFormat) (p : TouchpadXy)
    → touch_x at < 4096
    → touch_y at < 4096
    → p.data_1 < 256
    → (x_of (press at p) ≡ touch_x at)
      × (y_of (press at p) ≡ touch_y at)
      × ((press at p).unpressed ≡ 0)
      × ((press at p).counter ≡ (if p.unpressed == 0 then p.counter else (p.counter + 1) % 128))
unfolding press set_x set_y x_of y_of
press_lem at p x_fits y_fits fits = elim (Bool-cases (p.unpressed == 0)) [
  | inl held ↦ rw held (omega arith, omega arith, ground arith, refl)
  | inr free ↦ rw free (omega arith, omega arith, refl, refl)
]

touched_lem :
    (input : TouchpadOutput) (s : Touchpad)
    → 1 ≤ input.touchpoints
    → (answer (some input) s).touchpad_data.p1 ≡ press input.p1 s.touchpad_data.p1
unfolding answer read_done
touched_lem input s touched =
    let here : leb 1 input.touchpoints ≡ true = ground arith in rw here refl

-- On a pad that is on, eight polls of which the last finds a finger show it, at its twelve bits, which the host
-- reads; the touch is counted, modulo 128, if there was none before.
pub polls-x_of :
    (input : TouchpadOutput) (s : Touchpad)
    → s.disabled ≡ false
    → s.counter ≡ 0
    → 1 ≤ input.touchpoints
    → touch_x input.p1 < 4096
    → touch_y input.p1 < 4096
    → s.touchpad_data.p1.data_1 < 256
    → let old = s.touchpad_data.p1 in
      let p = (polls 8 (some input) s).touchpad_data.p1 in
      (x_of p ≡ touch_x input.p1)
      × (y_of p ≡ touch_y input.p1)
      × (p.unpressed ≡ 0)
      × (p.counter ≡ (if old.unpressed == 0 then old.counter else (old.counter + 1) % 128))
polls-x_of input s on start touched x_fits y_fits fits =
    let shown : (polls 8 (some input) s).touchpad_data.p1 ≡ press input.p1 s.touchpad_data.p1 =
      ap (λ (t : Touchpad). t.touchpad_data.p1) (polls-answer (some input) s on start)
      ∙ touched_lem input s touched in
    subst
      (λ p.
        (x_of p ≡ touch_x input.p1)
        × (y_of p ≡ touch_y input.p1)
        × (p.unpressed ≡ 0)
        × (p.counter ≡ (
            if s.touchpad_data.p1.unpressed == 0
            then s.touchpad_data.p1.counter
            else (s.touchpad_data.p1.counter + 1) % 128)))
      (sym shown) (press_lem input.p1 s.touchpad_data.p1 x_fits y_fits fits)

rounds_off :
    (reads : List (Option TouchpadOutput)) (s : Touchpad)
    → (rounds reads (record s { disabled = true })).disabled ≡ true
unfolding input_touchpad_poll
rounds_off [] s = refl
rounds_off (read ∷ reads) s = rounds_off reads s

-- A pad that is on after a failed reads.
abbrev tried : ℕ → TouchpadData → Touchpad
tried a touch = record {
  succeeded_once = false;
  disabled = false;
  attempts = a;
  counter = 0;
  touchpad_data = touch;
}

rounds_on :
    (reads : List (Option TouchpadOutput)) (a : ℕ) (touch : TouchpadData)
    → a ≤ 129
    → (rounds reads (tried a touch)).disabled ≡ ltb 129 (a + failures reads)
unfolding answer read_done read_failed
rounds_on [] a touch le = ground arith
rounds_on (some input ∷ reads) a touch le =
    ap (λ t. (rounds reads t).disabled) (eight_polls (some input) (tried a touch))
    ∙ rounds_on reads a (answer (some input) (tried a touch)).touchpad_data le
rounds_on (none ∷ reads) a touch le =
    ap (λ t. (rounds reads t).disabled) (eight_polls none (tried a touch))
    ∙ elim (Bool-cases (ltb 128 a)) [
      | inl last ↦
          let over : ltb 129 (a + suc (failures reads)) ≡ true = ground arith in
          ap
            (λ b.
              (rounds reads (record (tried a touch) {
                attempts = (a + 1) % 256;
                disabled = if b then true else false;
              })).disabled)
            last
          ∙ rounds_off reads (record (tried a touch) { attempts = (a + 1) % 256 })
          ∙ sym over
      | inr more ↦
          let small : (a + 1) % 256 ≡ a + 1 = ground arith in
          let next : a + 1 + failures reads ≡ a + suc (failures reads) = omega arith in
          ap₂
            (λ b n.
              (rounds reads (record (tried a touch) {
                attempts = n;
                disabled = if b then true else false;
              })).disabled)
            more small
          ∙ rounds_on reads (a + 1) touch (ground arith)
          ∙ ap (ltb 129) next
    ]

fresh_lem :
    (s : Touchpad)
    → s.succeeded_once ≡ false
    → s.disabled ≡ false
    → s.counter ≡ 0
    → s.attempts ≡ 0
    → s ≡ tried 0 s.touchpad_data
fresh_lem s never on start fresh =
    on_at_start s on start
    ∙ ap₂ (λ b a. record s { succeeded_once = b; attempts = a; disabled = false; counter = 0 })
        never fresh

-- From a fresh pad, however failed reads and good ones are mixed: the pad is switched off once more than 129
-- reads have failed, and not before.
pub rounds-failures :
    (reads : List (Option TouchpadOutput)) (s : Touchpad)
    → s.succeeded_once ≡ false
    → s.disabled ≡ false
    → s.counter ≡ 0
    → s.attempts ≡ 0
    → (rounds reads s).disabled ≡ ltb 129 (failures reads)
rounds-failures reads s never on start fresh =
    ap (λ t. (rounds reads t).disabled) (fresh_lem s never on start fresh)
    ∙ rounds_on reads 0 s.touchpad_data (omega arith)
    ∙ ap (ltb 129) (omega arith)
