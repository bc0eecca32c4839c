-- ===== src/Input/Bits.antt =====
-- `get_bit` (src/input/profile.cpp) reads the member of a `RawInputState` that has the index.
use passinglink.Common.{
  ℕ, ◌/◌, ◌%◌, ◌≤◌, Bool, true, false, ◌≡◌, refl, ap, ◌∙◌, arith, ◌==◌, to_bit,
}
use passinglink.Input.Types.{
  Gpio, stick_up, stick_down, stick_right, stick_left, button_north, button_east, button_south,
  button_west, button_l1, button_l2, button_l3, button_r1, button_r2, button_r3, button_start,
  button_select, button_home, button_touchpad, button_menu, button_w, button_thumb_left,
  button_thumb_right, mode_lock, mode_ps3, mode_ls, mode_rs, mode_dpad, index, RawInputState,
}
use passinglink.Input.Compose.{pack_byte, raw_bytes, get_bit}

bit_test : (b : Bool) → (to_bit b == 1) ≡ b
bit_test true = refl
bit_test false = refl

to_bit_le : (b : Bool) → to_bit b ≤ 1
to_bit_le true = omega arith
to_bit_le false = omega arith

-- The bits of a byte, from the lowest.
module _ (a b c d e f g h : Bool) where
  abbrev byte : ℕ
  byte = pack_byte a b c d e f g h

  bits :
      (byte / 1 % 2 ≡ to_bit a)
      × (byte / 2 % 2 ≡ to_bit b)
      × (byte / 4 % 2 ≡ to_bit c)
      × (byte / 8 % 2 ≡ to_bit d)
      × (byte / 16 % 2 ≡ to_bit e)
      × (byte / 32 % 2 ≡ to_bit f)
      × (byte / 64 % 2 ≡ to_bit g)
      × (byte / 128 % 2 ≡ to_bit h)
  bits = omega (
    arith,
    to_bit_le a,
    to_bit_le b,
    to_bit_le c,
    to_bit_le d,
    to_bit_le e,
    to_bit_le f,
    to_bit_le g,
    to_bit_le h,
  )

read : (x : ℕ) (b : Bool) → x ≡ to_bit b → (x == 1) ≡ b
read x b e = ap (λ n. n == 1) e ∙ bit_test b

-- Each member of a `RawInputState` is found in memory at its index.
pub get_bit-index : (raw : RawInputState) (g : Gpio) → get_bit (raw_bytes raw) (index g) ≡ raw g
unfolding get_bit
get_bit-index raw stick_up =
    read _ (raw stick_up)
      (bits (raw stick_up) (raw stick_down) (raw stick_right) (raw stick_left) (raw button_north)
        (raw button_east) (raw button_south) (raw button_west)).0
get_bit-index raw stick_down =
    read _ (raw stick_down)
      (bits (raw stick_up) (raw stick_down) (raw stick_right) (raw stick_left) (raw button_north)
        (raw button_east) (raw button_south) (raw button_west)).1
get_bit-index raw stick_right =
    read _ (raw stick_right)
      (bits (raw stick_up) (raw stick_down) (raw stick_right) (raw stick_left) (raw button_north)
        (raw button_east) (raw button_south) (raw button_west)).2
get_bit-index raw stick_left =
    read _ (raw stick_left)
      (bits (raw stick_up) (raw stick_down) (raw stick_right) (raw stick_left) (raw button_north)
        (raw button_east) (raw button_south) (raw button_west)).3
get_bit-index raw button_north =
    read _ (raw button_north)
      (bits (raw stick_up) (raw stick_down) (raw stick_right) (raw stick_left) (raw button_north)
        (raw button_east) (raw button_south) (raw button_west)).4
get_bit-index raw button_east =
    read _ (raw button_east)
      (bits (raw stick_up) (raw stick_down) (raw stick_right) (raw stick_left) (raw button_north)
        (raw button_east) (raw button_south) (raw button_west)).5
get_bit-index raw button_south =
    read _ (raw button_south)
      (bits (raw stick_up) (raw stick_down) (raw stick_right) (raw stick_left) (raw button_north)
        (raw button_east) (raw button_south) (raw button_west)).6
get_bit-index raw button_west =
    read _ (raw button_west)
      (bits (raw stick_up) (raw stick_down) (raw stick_right) (raw stick_left) (raw button_north)
        (raw button_east) (raw button_south) (raw button_west)).7
get_bit-index raw button_l1 =
    read _ (raw button_l1)
      (bits (raw button_l1) (raw button_l2) (raw button_l3) (raw button_r1) (raw button_r2)
        (raw button_r3) (raw button_start) (raw button_select)).0
get_bit-index raw button_l2 =
    read _ (raw button_l2)
      (bits (raw button_l1) (raw button_l2) (raw button_l3) (raw button_r1) (raw button_r2)
        (raw button_r3) (raw button_start) (raw button_select)).1
get_bit-index raw button_l3 =
    read _ (raw button_l3)
      (bits (raw button_l1) (raw button_l2) (raw button_l3) (raw button_r1) (raw button_r2)
        (raw button_r3) (raw button_start) (raw button_select)).2
get_bit-index raw button_r1 =
    read _ (raw button_r1)
      (bits (raw button_l1) (raw button_l2) (raw button_l3) (raw button_r1) (raw button_r2)
        (raw button_r3) (raw button_start) (raw button_select)).3
get_bit-index raw button_r2 =
    read _ (raw button_r2)
      (bits (raw button_l1) (raw button_l2) (raw button_l3) (raw button_r1) (raw button_r2)
        (raw button_r3) (raw button_start) (raw button_select)).4
get_bit-index raw button_r3 =
    read _ (raw button_r3)
      (bits (raw button_l1) (raw button_l2) (raw button_l3) (raw button_r1) (raw button_r2)
        (raw button_r3) (raw button_start) (raw button_select)).5
get_bit-index raw button_start =
    read _ (raw button_start)
      (bits (raw button_l1) (raw button_l2) (raw button_l3) (raw button_r1) (raw button_r2)
        (raw button_r3) (raw button_start) (raw button_select)).6
get_bit-index raw button_select =
    read _ (raw button_select)
      (bits (raw button_l1) (raw button_l2) (raw button_l3) (raw button_r1) (raw button_r2)
        (raw button_r3) (raw button_start) (raw button_select)).7
get_bit-index raw button_home =
    read _ (raw button_home)
      (bits (raw button_home) (raw button_touchpad) (raw button_menu) (raw button_w)
        (raw button_thumb_left) (raw button_thumb_right) (raw mode_lock) (raw mode_ps3)).0
get_bit-index raw button_touchpad =
    read _ (raw button_touchpad)
      (bits (raw button_home) (raw button_touchpad) (raw button_menu) (raw button_w)
        (raw button_thumb_left) (raw button_thumb_right) (raw mode_lock) (raw mode_ps3)).1
get_bit-index raw button_menu =
    read _ (raw button_menu)
      (bits (raw button_home) (raw button_touchpad) (raw button_menu) (raw button_w)
        (raw button_thumb_left) (raw button_thumb_right) (raw mode_lock) (raw mode_ps3)).2
get_bit-index raw button_w =
    read _ (raw button_w)
      (bits (raw button_home) (raw button_touchpad) (raw button_menu) (raw button_w)
        (raw button_thumb_left) (raw button_thumb_right) (raw mode_lock) (raw mode_ps3)).3
get_bit-index raw button_thumb_left =
    read _ (raw button_thumb_left)
      (bits (raw button_home) (raw button_touchpad) (raw button_menu) (raw button_w)
        (raw button_thumb_left) (raw button_thumb_right) (raw mode_lock) (raw mode_ps3)).4
get_bit-index raw button_thumb_right =
    read _ (raw button_thumb_right)
      (bits (raw button_home) (raw button_touchpad) (raw button_menu) (raw button_w)
        (raw button_thumb_left) (raw button_thumb_right) (raw mode_lock) (raw mode_ps3)).5
get_bit-index raw mode_lock =
    read _ (raw mode_lock)
      (bits (raw button_home) (raw button_touchpad) (raw button_menu) (raw button_w)
        (raw button_thumb_left) (raw button_thumb_right) (raw mode_lock) (raw mode_ps3)).6
get_bit-index raw mode_ps3 =
    read _ (raw mode_ps3)
      (bits (raw button_home) (raw button_touchpad) (raw button_menu) (raw button_w)
        (raw button_thumb_left) (raw button_thumb_right) (raw mode_lock) (raw mode_ps3)).7
get_bit-index raw mode_ls =
    read _ (raw mode_ls)
      (bits (raw mode_ls) (raw mode_rs) (raw mode_dpad) false false false false false).0
get_bit-index raw mode_rs =
    read _ (raw mode_rs)
      (bits (raw mode_ls) (raw mode_rs) (raw mode_dpad) false false false false false).1
get_bit-index raw mode_dpad =
    read _ (raw mode_dpad)
      (bits (raw mode_ls) (raw mode_rs) (raw mode_dpad) false false false false false).2
