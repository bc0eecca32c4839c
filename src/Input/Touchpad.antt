-- ===== src/Input/Touchpad.antt =====
-- src/input/touchpad.h: the 12-bit coordinates of a touch, packed into three bytes.
use passinglink.Common.{ℕ, ◌+◌, ◌*◌, ◌/◌, ◌%◌, ◌<◌, ◌≡◌, arith}
use passinglink.Input.Types.{TouchpadXy}

-- `data[0] = x & 0xff; data[1] = (data[1] & 0xf0) | ((x >> 8) & 0xf)`. The two operands of `|` have no
-- bit in common, so that it is their sum.
unfoldable pub set_x : ℕ → TouchpadXy → TouchpadXy
set_x x t = record t { data_0 = x % 256; data_1 = t.data_1 / 16 % 16 * 16 + x / 256 % 16 }

-- `data[1] = (data[1] & 0x0f) | ((y & 0xf) << 4); data[2] = y >> 4`
unfoldable pub set_y : ℕ → TouchpadXy → TouchpadXy
set_y y t = record t { data_1 = t.data_1 % 16 + y % 16 * 16; data_2 = y / 16 % 256 }

-- The coordinates as the host reads them: 12 bits of x, then 12 bits of y.
unfoldable pub x_of : TouchpadXy → ℕ
x_of t = t.data_0 + t.data_1 % 16 * 256

unfoldable pub y_of : TouchpadXy → ℕ
y_of t = t.data_1 / 16 + t.data_2 * 16

-- A 12-bit coordinate that is written is read back, and writing one coordinate keeps the other.
pub x_of-set_x :
    (x y : ℕ) (t : TouchpadXy)
    → x < 4096
    → y < 4096
    → t.data_1 < 256
    → (x_of (set_x x t) ≡ x)
      × (y_of (set_x x t) ≡ y_of t)
      × (y_of (set_y y t) ≡ y)
      × (x_of (set_y y t) ≡ x_of t)
unfolding set_x set_y x_of y_of
x_of-set_x x y t hx hy ht = (omega arith, omega arith, omega arith, omega arith)
