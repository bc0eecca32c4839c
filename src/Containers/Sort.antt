-- ===== src/Containers/Sort.antt =====
-- src/types.h: `min`, `swap` and `insertion_sort`. A range between two iterators is a list.
mod Tests
use passinglink.Common.{
  ℕ, zero, suc, ◌+◌, ◌-◌, ◌≤◌, Bool, true, false, not, ◌&&◌, Option, none, some, List, [], ◌∷◌,
  length, length-set, set, get_elem?, ◌==◌, if◌then◌else◌, to_bit, is_some, Bool-cases, ◌⊎◌, inl,
  inr, ◌≡◌, refl, ap, sym, subst, ◌∙◌, arith,
}
use mathlib.Core.Bool.{true≢false}

module _ {A : Type 0} (cmp : A → A → Bool) where
  -- `min` over a range, from the index i on: the index and the value of the best so far are given. The first
  -- comparison, of the first value with itself, changes nothing.
  unfoldable pub min_from : ℕ → A → ℕ → List A → ℕ × A
  min_from at best i [] = (at, best)
  min_from at best i (y ∷ ys) =
      let later = min_from i y (i + 1) ys in
      let same = min_from at best (i + 1) ys in if cmp best y then later else same

  -- The loop of `insertion_sort`, with a turn for each value.
  unfoldable pub sort_turns : ℕ → List A → List A
  sort_turns zero xs = xs
  sort_turns (suc n) [] = []
  sort_turns (suc n) (x ∷ xs) =
      let found = min_from 0 x 1 xs in
      found.1 ∷ sort_turns n (if found.0 == 0 then xs else set xs (found.0 - 1) x)

  unfoldable pub insertion_sort : List A → List A
  insertion_sort xs = sort_turns (length xs) xs

  -- How many values pass a test.
  abbrev pub count : (A → Bool) → List A → ℕ
  count test [] = 0
  count test (x ∷ xs) = to_bit (test x) + count test xs

  -- No value has one behind it that it compares true with.
  abbrev pub is_sorted : List A → Bool
  is_sorted [] = true
  is_sorted (x ∷ xs) = count (cmp x) xs == 0 && is_sorted xs

  -- What the search has found: the best value so far, or one of the list behind it.
  Found : ℕ → A → ℕ → List A → ℕ × A → Type 0
  Found at best i xs r =
      ((r.0 ≡ at) × (r.1 ≡ best)) ⊎ ((j : ℕ) × (r.0 ≡ i + j) × (get_elem? xs j ≡ some r.1))

  min_from-Found :
      (at : ℕ) (best : A) (i : ℕ) (xs : List A) → Found at best i xs (min_from at best i xs)
  unfolding min_from Found
  min_from-Found at best i [] = inl (refl, refl)
  min_from-Found at best i (y ∷ ys) = elim (Bool-cases (cmp best y)) [
    | inl better ↦
        rw (min_from, better)
          (elim (min_from-Found i y (i + 1) ys) [
            | inl first ↦ inr (0, first.0 ∙ omega arith, ap some (sym first.1))
            | inr (j, at_j, there) ↦ inr (suc j, at_j ∙ omega arith, there)
          ])
    | inr worse ↦
        rw (min_from, worse)
          (elim (min_from-Found at best (i + 1) ys) [
            | inl first ↦ inl first
            | inr (j, at_j, there) ↦ inr (suc j, at_j ∙ omega arith, there)
          ])
  ]

  -- A value put in the place of another.
  count-set :
      (test : A → Bool) (xs : List A) (j : ℕ) (x m : A)
      → get_elem? xs j ≡ some m
      → to_bit (test m) + count test (set xs j x) ≡ to_bit (test x) + count test xs
  count-set test [] j x m e = absurd (true≢false (sym (ap is_some e)))
  count-set test (y ∷ ys) zero x m e =
      let same : to_bit (test m) ≡ to_bit (test y) =
        ap (λ o. elim o [ none ↦ 0 | some v ↦ to_bit (test v) ]) (sym e) in
      omega arith
  count-set test (y ∷ ys) (suc j) x m e = omega (arith, count-set test ys j x m e)

  -- The values that are left after a turn.
  rest_of : A → List A → List A
  rest_of x xs =
      let found = min_from 0 x 1 xs in if found.0 == 0 then xs else set xs (found.0 - 1) x

  length-rest_of : (x : A) (xs : List A) → length (rest_of x xs) ≡ length xs
  unfolding rest_of
  length-rest_of x xs =
      elim ((min_from 0 x 1 xs).0 == 0)
        as (λ b. length (if b then xs else set xs ((min_from 0 x 1 xs).0 - 1) x) ≡ length xs) [
          | true ↦ refl
          | false ↦ length-set xs ((min_from 0 x 1 xs).0 - 1) x
        ]

  -- A turn keeps the values.
  count-turn :
      (test : A → Bool) (x : A) (xs : List A)
      → to_bit (test (min_from 0 x 1 xs).1) + count test (rest_of x xs)
        ≡ to_bit (test x) + count test xs
  unfolding rest_of Found
  count-turn test x xs = elim (min_from-Found 0 x 1 xs) [
    | inl first ↦
        let here : ((min_from 0 x 1 xs).0 == 0) ≡ true = ground (arith, first.0) in
        rw here (ap (λ m. to_bit (test m) + count test xs) first.1)
    | inr (j, at_j, there) ↦
        let apart : ((min_from 0 x 1 xs).0 == 0) ≡ false = ground (arith, at_j) in
        let place : (min_from 0 x 1 xs).0 - 1 ≡ j = omega (arith, at_j) in
        rw (apart, place) (count-set test xs j x (min_from 0 x 1 xs).1 there)
  ]

  count-sort_turns :
      (test : A → Bool) (n : ℕ) (xs : List A) → count test (sort_turns n xs) ≡ count test xs
  unfolding sort_turns rest_of
  count-sort_turns test zero xs = refl
  count-sort_turns test (suc n) [] = refl
  count-sort_turns test (suc n) (x ∷ xs) =
      ap (λ k. to_bit (test (min_from 0 x 1 xs).1) + k) (count-sort_turns test n (rest_of x xs))
      ∙ count-turn test x xs

  -- The value that is found comes before no other, if `cmp` is a strict order in which values can be
  -- equivalent.
  min_from-first :
      (at : ℕ) (best : A) (i : ℕ) (xs : List A)
      → ((a b : A) → cmp a b ≡ true → cmp b a ≡ false)
      → ((a b c : A) → cmp a b ≡ false → cmp b c ≡ false → cmp a c ≡ false)
      → (cmp (min_from at best i xs).1 best ≡ false)
        × (count (cmp (min_from at best i xs).1) xs ≡ 0)
  unfolding min_from
  min_from-first at best i [] asym trans =
      (elim (Bool-cases (cmp best best)) [ inl e ↦ asym best best e | inr e ↦ e ], refl)
  min_from-first at best i (y ∷ ys) asym trans = elim (Bool-cases (cmp best y)) [
    | inl better ↦
        let found = min_from-first i y (i + 1) ys asym trans in
        let m = (min_from i y (i + 1) ys).1 in
        let none_y : to_bit (cmp m y) ≡ 0 = ap to_bit found.0 in
        subst Before
          (sym
            (ap (λ b. if b then min_from i y (i + 1) ys else min_from at best (i + 1) ys) better))
          (trans m y best found.0 (asym best y better), omega (arith, none_y, found.1))
    | inr worse ↦
        let found = min_from-first at best (i + 1) ys asym trans in
        let m = (min_from at best (i + 1) ys).1 in
        let none_y : to_bit (cmp m y) ≡ 0 = ap to_bit (trans m best y found.0 worse) in
        subst Before
          (sym (ap (λ b. if b then min_from i y (i + 1) ys else min_from at best (i + 1) ys) worse))
          (found.0, omega (arith, none_y, found.1))
  ]
    where
      Before : ℕ × A → Type 0
      Before r = (cmp r.1 best ≡ false) × (to_bit (cmp r.1 y) + count (cmp r.1) ys ≡ 0)

  sort_turns-is_sorted :
      (n : ℕ) (xs : List A)
      → length xs ≤ n
      → ((a b : A) → cmp a b ≡ true → cmp b a ≡ false)
      → ((a b c : A) → cmp a b ≡ false → cmp b c ≡ false → cmp a c ≡ false)
      → is_sorted (sort_turns n xs) ≡ true
  unfolding sort_turns rest_of
  sort_turns-is_sorted zero [] le asym trans = refl
  sort_turns-is_sorted zero (x ∷ xs) le asym trans = absurd (omega arith)
  sort_turns-is_sorted (suc n) [] le asym trans = refl
  sort_turns-is_sorted (suc n) (x ∷ xs) le asym trans =
      let m = (min_from 0 x 1 xs).1 in
      let found = min_from-first 0 x 1 xs asym trans in
      let turn = count-turn (cmp m) x xs in
      let none_x : to_bit (cmp m x) ≡ 0 = ap to_bit found.0 in
      let none_left : count (cmp m) (sort_turns n (rest_of x xs)) ≡ 0 =
        count-sort_turns (cmp m) n (rest_of x xs) ∙ omega (arith, turn, none_x, found.1) in
      let empty : (count (cmp m) (sort_turns n (rest_of x xs)) == 0) ≡ true =
        ap (λ k. k == 0) none_left in
      rw empty
        (sort_turns-is_sorted n (rest_of x xs) (omega (arith, length-rest_of x xs)) asym trans)

  -- Where `cmp` is asymmetric, and its negation is transitive, no value in a sorted range has one behind it that it
  -- compares true with, and each value stands in it as often as before, whatever test counts it.
  pub insertion_sort-is_sorted :
      (test : A → Bool) (xs : List A)
      → ((a b : A) → cmp a b ≡ true → cmp b a ≡ false)
      → ((a b c : A) → cmp a b ≡ false → cmp b c ≡ false → cmp a c ≡ false)
      → (is_sorted (insertion_sort xs) ≡ true) × (count test (insertion_sort xs) ≡ count test xs)
  unfolding insertion_sort
  insertion_sort-is_sorted test xs asym trans = (
    sort_turns-is_sorted (length xs) xs (omega arith) asym trans,
    count-sort_turns test (length xs) xs,
  )
