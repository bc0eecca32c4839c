-- ===== src/Usb/Ps3/Players.antt =====
-- The players' LEDs after `PS3Hid::InterruptOut` (src/output/usb/ps3/hid.cpp).
use passinglink.Common.{
  ℕ, ◌/◌, ◌%◌, ◌≢◌, Bool-cases, inl, inr, Bool, false, none, List, ◌≡◌, refl, arith, length, get_or,
  ◌==◌,
}
use passinglink.Led.Set.{IsSteady, Shows, on-Shows, off-Shows, on-other, off-other}
use passinglink.Led.{led_index, Led, Leds, led_off}
use passinglink.Usb.Ps3.{Ps3Hid, interrupt_out, light}

-- The bit of a player's LED in the third byte that the console sends.
abbrev pub player_bit : Led → ℕ → Bool
player_bit Led.front n = false
player_bit Led.p1 n = n / 1 % 2 == 1
player_bit Led.p2 n = n / 2 % 2 == 1
player_bit Led.p3 n = n / 4 % 2 == 1
player_bit Led.p4 n = n / 8 % 2 == 1

light-Shows :
    (n bit : ℕ) (l : Led) (leds : Leds)
    → Shows false (leds l)
    → Shows (n / bit % 2 == 1) (light n bit l leds l)
light-Shows n bit l leds h = elim (Bool-cases (n / bit % 2 == 1)) [
  | inl e ↦ rw e (on-Shows l leds (h.0, h.1))
  | inr e ↦ rw e h
]

light-other :
    (n bit : ℕ) (l k : Led) (leds : Leds)
    → led_index l ≢ led_index k
    → light n bit l leds k ≡ leds k
light-other n bit l k leds h = ground (arith, on-other l k leds h)

-- All four players' LEDs off.
abbrev dark : Leds → Leds
dark leds =
    let off_1 = (led_off Led.p1 none leds).1 in
    let off_2 = (led_off Led.p2 none off_1).1 in
    let off_3 = (led_off Led.p3 none off_2).1 in (led_off Led.p4 none off_3).1

dark-Shows :
    (leds : Leds) (led : Led) → led ≢ Led.front → IsSteady (leds led) → Shows false (dark leds led)
dark-Shows leds Led.front ne st = absurd (ne refl)
dark-Shows leds Led.p1 ne st =
    rw
      (
        off-other Led.p4 Led.p1
            ((led_off Led.p3 none (led_off Led.p2 none (led_off Led.p1 none leds).1).1).1)
            (omega arith),
        off-other Led.p3 Led.p1 ((led_off Led.p2 none (led_off Led.p1 none leds).1).1)
            (omega arith),
        off-other Led.p2 Led.p1 ((led_off Led.p1 none leds).1) (omega arith),
      )
      (off-Shows Led.p1 (leds) st)
dark-Shows leds Led.p2 ne st =
    rw
      (
        off-other Led.p4 Led.p2
            ((led_off Led.p3 none (led_off Led.p2 none (led_off Led.p1 none leds).1).1).1)
            (omega arith),
        off-other Led.p3 Led.p2 ((led_off Led.p2 none (led_off Led.p1 none leds).1).1)
            (omega arith),
      )
      (off-Shows Led.p2 ((led_off Led.p1 none leds).1)
        (rw (off-other Led.p1 Led.p2 (leds) (omega arith)) st))
dark-Shows leds Led.p3 ne st =
    rw
      (off-other Led.p4 Led.p3
        ((led_off Led.p3 none ((led_off Led.p2 none ((led_off Led.p1 none leds).1)).1)).1)
        (omega arith))
      (off-Shows Led.p3 ((led_off Led.p2 none (led_off Led.p1 none leds).1).1) (
        rw
          (
            off-other Led.p2 Led.p3 ((led_off Led.p1 none leds).1) (omega arith),
            off-other Led.p1 Led.p3 (leds) (omega arith),
          )
          st))
dark-Shows leds Led.p4 ne st =
    off-Shows Led.p4 ((led_off Led.p3 none (led_off Led.p2 none (led_off Led.p1 none leds).1).1).1)
      (rw
        (
          off-other Led.p3 Led.p4 ((led_off Led.p2 none (led_off Led.p1 none leds).1).1)
              (omega arith),
          off-other Led.p2 Led.p4 ((led_off Led.p1 none leds).1) (omega arith),
          off-other Led.p1 Led.p4 (leds) (omega arith),
        )
        st)

abbrev lit_by : ℕ → Leds → Leds
lit_by n leds = light n 8 Led.p4 (light n 4 Led.p3 (light n 2 Led.p2 (light n 1 Led.p1 leds)))

lit_by-Shows :
    (n : ℕ) (leds : Leds) (led : Led)
    → led ≢ Led.front
    → Shows false (leds led)
    → Shows (player_bit led n) (lit_by n leds led)
lit_by-Shows n leds Led.front ne st = absurd (ne refl)
lit_by-Shows n leds Led.p1 ne st =
    rw
      (
        light-other n 8 Led.p4 Led.p1
            (light n 4 Led.p3 (light n 2 Led.p2 (light n 1 Led.p1 (leds)))) (omega arith),
        light-other n 4 Led.p3 Led.p1 (light n 2 Led.p2 (light n 1 Led.p1 (leds))) (omega arith),
        light-other n 2 Led.p2 Led.p1 (light n 1 Led.p1 (leds)) (omega arith),
      )
      (light-Shows n 1 Led.p1 (leds) st)
lit_by-Shows n leds Led.p2 ne st =
    rw
      (
        light-other n 8 Led.p4 Led.p2
            (light n 4 Led.p3 (light n 2 Led.p2 (light n 1 Led.p1 (leds)))) (omega arith),
        light-other n 4 Led.p3 Led.p2 (light n 2 Led.p2 (light n 1 Led.p1 (leds))) (omega arith),
      )
      (light-Shows n 2 Led.p2 (light n 1 Led.p1 (leds))
        (rw (light-other n 1 Led.p1 Led.p2 (leds) (omega arith)) st))
lit_by-Shows n leds Led.p3 ne st =
    rw
      (light-other n 8 Led.p4 Led.p3 (light n 4 Led.p3 (light n 2 Led.p2 (light n 1 Led.p1 (leds))))
        (omega arith))
      (light-Shows n 4 Led.p3 (light n 2 Led.p2 (light n 1 Led.p1 (leds))) (
        rw
          (
            light-other n 2 Led.p2 Led.p3 (light n 1 Led.p1 (leds)) (omega arith),
            light-other n 1 Led.p1 Led.p3 (leds) (omega arith),
          )
          st))
lit_by-Shows n leds Led.p4 ne st =
    light-Shows n 8 Led.p4 (light n 4 Led.p3 (light n 2 Led.p2 (light n 1 Led.p1 (leds)))) (
      rw
        (
          light-other n 4 Led.p3 Led.p4 (light n 2 Led.p2 (light n 1 Led.p1 (leds))) (omega arith),
          light-other n 2 Led.p2 Led.p4 (light n 1 Led.p1 (leds)) (omega arith),
          light-other n 1 Led.p1 Led.p4 (leds) (omega arith),
        )
        st)

-- After a message of eight bytes each player's LED that has a pin and does not flash is lit exactly if its
-- bit of the third byte is set.
pub interrupt_out-players :
    (buf : List ℕ) (s : Ps3Hid) (leds : Leds) (led : Led)
    → length buf ≡ 8
    → led ≢ Led.front
    → IsSteady (leds led)
    → (((interrupt_out buf (s, leds)).1) led).lit ≡ player_bit led (get_or buf 2 0)
unfolding interrupt_out
interrupt_out-players buf s leds led h ne st =
    rw h (lit_by-Shows (get_or buf 2 0) (dark leds) led ne (dark-Shows leds led ne st)).2
