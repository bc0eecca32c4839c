-- ===== src/Usb/Fields.antt =====
-- Packed bit fields: the members of a packed struct of the drivers in src/output/usb, the first in the
-- lowest bits, and the bytes that it fills.
use native.Mathlib.Nat.{pow-suc, mul-suc, mul-le-mul_left}
use passinglink.Common.{
  ℕ, zero, suc, ◌+◌, ◌*◌, ◌/◌, ◌%◌, ◌^◌, ◌<◌, List, [], ◌∷◌, length, ◌≡◌, refl, ap, ap₂, subst, ◌∙◌,
  arith,
}

pub record Field : Type 0 where
  pub width : ℕ
  pub value : ℕ

abbrev pub field : ℕ → ℕ → Field
field w v = record { width = w; value = v }

abbrev pub pack : List Field → ℕ
pack [] = 0
pack (f ∷ fs) = f.value + 2 ^ f.width * pack fs

-- The values of fields of the given widths.
abbrev pub unpack : List ℕ → ℕ → List ℕ
unpack [] n = []
unpack (w ∷ ws) n = n % 2 ^ w ∷ unpack ws (n / 2 ^ w)

abbrev pub widths : List Field → List ℕ
widths [] = []
widths (f ∷ fs) = f.width ∷ widths fs

abbrev pub values : List Field → List ℕ
values [] = []
values (f ∷ fs) = f.value ∷ values fs

-- Every value fits its width.
abbrev pub Fit : List Field → Type 0
Fit [] = Unit {0}
Fit (f ∷ fs) = (f.value < 2 ^ f.width) × Fit fs

-- The bytes of a number, the lowest first, and back.
unfoldable pub to_bytes : ℕ → ℕ → List ℕ
to_bytes zero n = []
to_bytes (suc k) n = n % 256 ∷ to_bytes k (n / 256)

unfoldable pub of_bytes : List ℕ → ℕ
of_bytes [] = 0
of_bytes (b ∷ bs) = b + 256 * of_bytes bs

mod_field : (m v r : ℕ) → v < m → (v + m * r) % m ≡ v
mod_field m v r h = grind arith

div_field : (m v r : ℕ) → v < m → (v + m * r) / m ≡ r
div_field m v r h = grind arith

pub unpack-pack : (fs : List Field) → Fit fs → unpack (widths fs) (pack fs) ≡ values fs
unpack-pack [] h = refl
unpack-pack (f ∷ fs) h =
    ap₂ ◌∷◌ (mod_field (2 ^ f.width) f.value (pack fs) h.0)
      (ap (unpack (widths fs)) (div_field (2 ^ f.width) f.value (pack fs) h.0) ∙ unpack-pack fs h.1)

pub of_bytes-to_bytes : (k n : ℕ) → n < 256 ^ k → of_bytes (to_bytes k n) ≡ n
unfolding to_bytes of_bytes
of_bytes-to_bytes zero n h = omega arith
of_bytes-to_bytes (suc k) n h =
    omega (arith, of_bytes-to_bytes k (n / 256) (omega (arith, h, pow-suc 256 k)))

-- The numbers that fields of the widths can hold.
abbrev pub capacity : List ℕ → ℕ
capacity [] = 1
capacity (w ∷ ws) = 2 ^ w * capacity ws

step_bound : (m r v p : ℕ) → v < m → p < r → v + m * p < m * r
step_bound m r v p h k =
    omega (arith, h, mul-le-mul_left {m = suc p} {n = r} m (omega arith), mul-suc m p)

pub pack-bound : (fs : List Field) → Fit fs → pack fs < capacity (widths fs)
pack-bound [] h = omega arith
pack-bound (f ∷ fs) h =
    step_bound (2 ^ f.width) (capacity (widths fs)) f.value (pack fs) h.0 (pack-bound fs h.1)

pub length-to_bytes : (k n : ℕ) → length (to_bytes k n) ≡ k
unfolding to_bytes
length-to_bytes zero n = refl
length-to_bytes (suc k) n = ap suc (length-to_bytes k (n / 256))

-- The host that reads `k` bytes by the widths gets the values back.
pub host-read :
    (fs : List Field) (k : ℕ)
    → Fit fs
    → capacity (widths fs) ≡ 256 ^ k
    → unpack (widths fs) (of_bytes (to_bytes k (pack fs))) ≡ values fs
host-read fs k h e =
    ap (unpack (widths fs))
      (of_bytes-to_bytes k (pack fs) (subst (λ m. pack fs < m) e (pack-bound fs h)))
    ∙ unpack-pack fs h
