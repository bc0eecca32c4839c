-- ===== src/Usb/Report.antt =====
-- What the drivers in src/output/usb share: replies to GetReport, the buttons and the hat of an input
-- report, and what the host sees of them.
use passinglink.Common.{
  ℕ, ◌+◌, ◌*◌, ◌^◌, ◌<◌, Bool, true, false, Option, some, List, [], ◌∷◌, ◌++◌, map, ◌≡◌, refl,
  arith, ap, zero, suc, replicate, ◌∙◌, ◌≤◌, take-append_le, take_all, length-append, length-drop,
  to_bit, length, take, drop, get_or,
}
use passinglink.Usb.Fields.{Field, field, Fit, pack, unpack, of_bytes}
use passinglink.Usb.Descriptor.{widths_of_report}
use passinglink.Input.Types.{StickState, Button, InputState}

-- `HidReportType`
pub data ReportType : Type 0 where
  input output feature : ReportType

abbrev pub is_feature : Option ReportType → Bool
is_feature (some feature) = true
is_feature _ = false

-- What GetReport returns, `none` for -1, and the caller's buffer afterwards.
pub record Reply : Type 0 where
  pub size : Option ℕ
  pub buf : List ℕ

-- `memcpy(buf.data(), bytes, sizeof(bytes))` into a buffer that has room.
unfoldable pub copy_into : List ℕ → List ℕ → List ℕ
copy_into bytes buf = bytes ++ drop (length bytes) buf

-- The `switch` over the pad of `GetInputReport`; the code at rest differs between the consoles.
abbrev pub dpad_code : ℕ → StickState → ℕ
dpad_code rest StickState.north = 0
dpad_code rest StickState.north_east = 1
dpad_code rest StickState.east = 2
dpad_code rest StickState.south_east = 3
dpad_code rest StickState.south = 4
dpad_code rest StickState.south_west = 5
dpad_code rest StickState.west = 6
dpad_code rest StickState.north_west = 7
dpad_code rest StickState.neutral = rest

-- The first thirteen buttons of `OutputReport`, in its order.
abbrev pub report_buttons : List Button
report_buttons =
    Button.west ∷ Button.south ∷ Button.east ∷ Button.north ∷ Button.l1 ∷ Button.r1 ∷ Button.l2
    ∷ Button.r2 ∷ Button.select ∷ Button.start ∷ Button.l3 ∷ Button.r3 ∷ Button.home ∷ []

abbrev pub button_fields : List Button → InputState → List Field
button_fields [] s = []
button_fields (b ∷ bs) s = field 1 (to_bit (s.button b)) ∷ button_fields bs s

-- A hat switch counts eighths of a turn, clockwise from north; other values are its null state.
unfoldable pub hat_direction : ℕ → StickState
hat_direction hat =
    get_or
      (StickState.north ∷ StickState.north_east ∷ StickState.east ∷ StickState.south_east
        ∷ StickState.south ∷ StickState.south_west ∷ StickState.west ∷ StickState.north_west ∷ [])
      hat StickState.neutral

-- What a host makes of a report.
pub record HostView : Type 0 where
  pub buttons : List ℕ
  pub hat : StickState
  pub sticks : List ℕ

-- The values that the host reads from the bytes of an input report, by the descriptor.
abbrev pub host_values : ℕ → List ℕ → List ℕ → List ℕ
host_values id descriptor bytes = unpack (widths_of_report id descriptor) (of_bytes bytes)

abbrev pub held_bits : List Button → InputState → List ℕ
held_bits bs s = map (λ b. to_bit (s.button b)) bs

abbrev pub sticks_of : InputState → List ℕ
sticks_of s = s.left_stick_x ∷ s.left_stick_y ∷ s.right_stick_x ∷ s.right_stick_y ∷ []

-- The view that shows an input exactly.
abbrev pub view_of : List Button → InputState → HostView
view_of bs s = record { buttons = held_bits bs s; hat = s.dpad; sticks = sticks_of s }

abbrev pub HasByteSticks : InputState → Type 0
HasByteSticks s =
    (s.left_stick_x < 256)
    × (s.left_stick_y < 256)
    × (s.right_stick_x < 256)
    × (s.right_stick_y < 256)

pub to_bit_lt : (b : Bool) → to_bit b < 2
to_bit_lt b = ground arith

pub hat-code_8 : (d : StickState) → hat_direction (dpad_code 8 d) ≡ d
unfolding hat_direction
hat-code_8 StickState.neutral = refl
hat-code_8 StickState.north = refl
hat-code_8 StickState.north_east = refl
hat-code_8 StickState.east = refl
hat-code_8 StickState.south_east = refl
hat-code_8 StickState.south = refl
hat-code_8 StickState.south_west = refl
hat-code_8 StickState.west = refl
hat-code_8 StickState.north_west = refl

pub dpad_code_lt : (rest : ℕ) (d : StickState) → rest < 16 → dpad_code rest d < 16
dpad_code_lt rest d h = ground arith

pub button_fields-Fit :
    (bs : List Button) (s : InputState) (fs : List Field) → Fit fs → Fit (button_fields bs s ++ fs)
button_fields-Fit [] s fs h = h
button_fields-Fit (b ∷ bs) s fs h = (to_bit_lt (s.button b), button_fields-Fit bs s fs h)

pub take-copy_into :
    (bytes buf : List ℕ) (n : ℕ) → length bytes ≡ n → take n (copy_into bytes buf) ≡ bytes
unfolding copy_into
take-copy_into bytes buf n e =
    take-append_le n bytes (drop (length bytes) buf) (omega arith) ∙ take_all n bytes (omega arith)

pub length-copy_into :
    (bytes buf : List ℕ) → length bytes ≤ length buf → length (copy_into bytes buf) ≡ length buf
unfolding copy_into
length-copy_into bytes buf h =
    omega (arith, length-append bytes (drop (length bytes) buf), length-drop (length bytes) buf)

pub replicate-Fit :
    (n w v : ℕ) (fs : List Field) → v < 2 ^ w → Fit fs → Fit (replicate n (field w v) ++ fs)
replicate-Fit zero w v fs h k = k
replicate-Fit (suc n) w v fs h k = (h, replicate-Fit n w v fs h k)

pub hat-code_15 : (d : StickState) → hat_direction (dpad_code 15 d) ≡ d
unfolding hat_direction
hat-code_15 StickState.neutral = refl
hat-code_15 StickState.north = refl
hat-code_15 StickState.north_east = refl
hat-code_15 StickState.east = refl
hat-code_15 StickState.south_east = refl
hat-code_15 StickState.south = refl
hat-code_15 StickState.south_west = refl
hat-code_15 StickState.west = refl
hat-code_15 StickState.north_west = refl

pub pack-append :
    (bs : List Button) (s : InputState) (fs gs : List Field)
    → pack fs ≡ pack gs
    → pack (button_fields bs s ++ fs) ≡ pack (button_fields bs s ++ gs)
pack-append [] s fs gs e = e
pack-append (b ∷ bs) s fs gs e = ap (λ m. to_bit (s.button b) + 2 * m) (pack-append bs s fs gs e)
