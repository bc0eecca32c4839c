-- ===== src/Containers/Bitmap.antt =====
-- Bits in an array of bytes: `Bitmap` of src/types.h and `Bitset` of src/malloc.cpp.
use native.Mathlib.Nat.{pow-succ', div-div-eq-div-mul, div-eq_of_lt}
use passinglink.Common.{
  ℕ, zero, suc, ◌+◌, ◌-◌, ◌*◌, ◌/◌, ◌%◌, ◌^◌, ◌<◌, ◌≤◌, Bool, true, false, Option, none, some, List,
  ◌==◌, ltb, if◌then◌else◌, length, get_or, set, ◌≡◌, ◌≢◌, refl, sym, subst, arith, get_or-set_self,
  get_or-set_ne, ap, ◌∙◌, length-set, ltb→lt, Bool-cases, inl, inr,
}

-- `byte & (1 << k)`
abbrev pub bit_of : ℕ → ℕ → Bool
bit_of byte k = byte / 2 ^ k % 2 == 1

-- `byte |= 1 << k` and `byte &= ~(1 << k)`
abbrev pub or_bit : ℕ → ℕ → ℕ
or_bit byte k = if bit_of byte k then byte else byte + 2 ^ k

abbrev pub clear_bit : ℕ → ℕ → ℕ
clear_bit byte k = if bit_of byte k then byte - 2 ^ k else byte

unfoldable pub get : List ℕ → ℕ → Bool
get bytes idx = bit_of (get_or bytes (idx / 8) 0) (idx % 8)

abbrev with_bit : Bool → ℕ → ℕ → ℕ
with_bit value byte k = if value then or_bit byte k else clear_bit byte k

unfoldable pub set_to : List ℕ → ℕ → Bool → List ℕ
set_to bytes idx value = set bytes (idx / 8) (with_bit value (get_or bytes (idx / 8) 0) (idx % 8))

-- The first index from i on, among n, whose bit is not set.
unfoldable pub find_unset : List ℕ → ℕ → ℕ → Option ℕ
find_unset bytes zero i = none
find_unset bytes (suc n) i =
    let rest = find_unset bytes n (i + 1) in if get bytes i then rest else some i

div-pow : (byte k : ℕ) → byte / 2 ^ suc k ≡ byte / 2 / 2 ^ k
div-pow byte k = ap (λ p. byte / p) (pow-succ' 2 k) ∙ sym (div-div-eq-div-mul byte 2 (2 ^ k))

bit_of-suc : (byte k : ℕ) → bit_of byte (suc k) ≡ bit_of (byte / 2) k
bit_of-suc byte k = ap (λ q. q % 2 == 1) (div-pow byte k)

set_bit_le : (byte k : ℕ) → bit_of byte k ≡ true → 2 ^ k ≤ byte
set_bit_le byte k h =
    elim (ltb byte (2 ^ k)) as (λ b. ltb byte (2 ^ k) ≡ b → 2 ^ k ≤ byte) [
      | true ↦ λ e. let small = div-eq_of_lt (ltb→lt byte (2 ^ k) e) in absurd (ground arith)
      | false ↦ λ e. ground arith
    ]
      refl

with_bit-suc :
    (value : Bool) (byte k : ℕ)
    → with_bit value byte (suc k) ≡ 2 * with_bit value (byte / 2) k + byte % 2
with_bit-suc value byte k =
    let same = bit_of-suc byte k in
    let double = pow-succ' 2 k in
    elim (Bool-cases (bit_of (byte / 2) k)) [
      | inl e ↦ let low = set_bit_le (byte / 2) k e in rw (same, e, double) (ground arith)
      | inr e ↦ rw (same, e, double) (ground arith)
    ]

bit_at : (value : Bool) (byte k : ℕ) → bit_of (with_bit value byte k) k ≡ value
bit_at value byte zero = ground arith
bit_at value byte (suc k) =
    bit_of-suc (with_bit value byte (suc k)) k
    ∙ ap (λ b. bit_of b k) (let e = with_bit-suc value byte k in omega arith)
    ∙ bit_at value (byte / 2) k

bit_beside :
    (value : Bool) (byte k j : ℕ) → k ≢ j → bit_of (with_bit value byte k) j ≡ bit_of byte j
bit_beside value byte zero zero h = absurd (h refl)
bit_beside value byte zero (suc j) h =
    bit_of-suc (with_bit value byte 0) j
    ∙ ap (λ b. bit_of b j) (ground arith)
    ∙ sym (bit_of-suc byte j)
bit_beside value byte (suc k) zero h = let e = with_bit-suc value byte k in ground arith
bit_beside value byte (suc k) (suc j) h =
    bit_of-suc (with_bit value byte (suc k)) j
    ∙ ap (λ b. bit_of b j) (let e = with_bit-suc value byte k in omega arith)
    ∙ bit_beside value (byte / 2) k j (λ e. h (ap suc e))
    ∙ sym (bit_of-suc byte j)

pub length-set_to :
    (bytes : List ℕ) (i : ℕ) (value : Bool) → length (set_to bytes i value) ≡ length bytes
unfolding set_to
length-set_to bytes i value =
    length-set bytes (i / 8) (with_bit value (get_or bytes (i / 8) 0) (i % 8))

pub get-set_to_self :
    (bytes : List ℕ) (i : ℕ) (value : Bool)
    → i / 8 < length bytes
    → get (set_to bytes i value) i ≡ value
unfolding get set_to
get-set_to_self bytes i value h =
    let byte = get_or bytes (i / 8) 0 in
    ap (λ b. bit_of b (i % 8)) (get_or-set_self bytes (i / 8) (with_bit value byte (i % 8)) 0 h)
    ∙ bit_at value byte (i % 8)

pub get-set_to_ne :
    (bytes : List ℕ) (i j : ℕ) (value : Bool)
    → i / 8 < length bytes
    → i ≢ j
    → get (set_to bytes i value) j ≡ get bytes j
unfolding get set_to
get-set_to_ne bytes i j value h ne =
    let byte = get_or bytes (i / 8) 0 in
    let written = with_bit value byte (i % 8) in
    elim (Bool-cases (i / 8 == j / 8)) [
      | inl e ↦
          let same : j / 8 ≡ i / 8 = ground arith in
          rw (same, get_or-set_self bytes (i / 8) written 0 h)
            (bit_beside value byte (i % 8) (j % 8) (ground arith))
      | inr e ↦
          ap (λ b. bit_of b (j % 8)) (get_or-set_ne bytes (i / 8) (j / 8) written 0 (ground arith))
    ]

-- What is found is not set, and all before it are.
pub find_unset-found :
    (bytes : List ℕ) (n i k : ℕ)
    → find_unset bytes n i ≡ some k
    → (i ≤ k) × (k < i + n) × (get bytes k ≡ false) × ((j : ℕ) → i ≤ j → j < k → get bytes j ≡ true)
unfolding find_unset
find_unset-found bytes zero i k h = absurd (ground arith)
find_unset-found bytes (suc n) i k h = elim (Bool-cases (get bytes i)) [
  | inl e ↦
      let (low, high, free, before) = find_unset-found bytes n (i + 1) k (ground arith) in
      (
        omega arith,
        omega arith,
        free,
        λ j ge lt. elim (Bool-cases (i == j)) [
          | inl s ↦ let here : j ≡ i = ground arith in rw here e
          | inr s ↦ before j (ground arith) lt
        ],
      )
  | inr e ↦
      let here : k ≡ i = ground arith in
      rw here (omega arith, omega arith, e, λ j ge lt. absurd (omega arith))
]

pub find_unset-none :
    (bytes : List ℕ) (n i j : ℕ)
    → find_unset bytes n i ≡ none
    → i ≤ j
    → j < i + n
    → get bytes j ≡ true
unfolding find_unset
find_unset-none bytes zero i j h ge lt = absurd (omega arith)
find_unset-none bytes (suc n) i j h ge lt = elim (Bool-cases (i == j)) [
  | inl s ↦ let here : i ≡ j = ground arith in subst (λ k. get bytes k ≡ true) here (ground arith)
  | inr s ↦ find_unset-none bytes n (i + 1) j (ground arith) (ground arith) (omega arith)
]

pub get-set_to :
    (bytes : List ℕ) (k i : ℕ) (value : Bool)
    → k / 8 < length bytes
    → get (set_to bytes k value) i ≡ (if i == k then value else get bytes i)
get-set_to bytes k i value h = elim (Bool-cases (i == k)) [
  | inl e ↦
      let here : i ≡ k = ground arith in
      rw here (rw (get-set_to_self bytes k value h) (ground arith))
  | inr e ↦ rw (get-set_to_ne bytes k i value h (ground arith), e) refl
]
