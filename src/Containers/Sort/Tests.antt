-- ===== src/Containers/Sort/Tests.antt =====
-- Runs of `insertion_sort`.
use passinglink.Common.{ℕ, true, false, List, [], ◌∷◌, ltb, ◌==◌, ◌≡◌, refl, arith}
use passinglink.Containers.Sort.{
  min_from, sort_turns, insertion_sort, count, is_sorted, insertion_sort-is_sorted,
}

abbrev numbers : List ℕ
numbers = 3 ∷ 9 ∷ 3 ∷ 7 ∷ []

-- With `<` the largest value comes first.
descending : insertion_sort ltb numbers ≡ 9 ∷ 7 ∷ 3 ∷ 3 ∷ []
unfolding insertion_sort sort_turns min_from
descending = refl

ltb_asym : (a b : ℕ) → ltb a b ≡ true → ltb b a ≡ false
ltb_asym a b h = ground arith

ltb_trans : (a b c : ℕ) → ltb a b ≡ false → ltb b c ≡ false → ltb a c ≡ false
ltb_trans a b c h k = ground arith

insertion_sort-is_sorted_example :
    (is_sorted ltb (insertion_sort ltb numbers) ≡ true)
    × (count ltb (λ n. n == 3) (insertion_sort ltb numbers) ≡ 2)
insertion_sort-is_sorted_example =
    insertion_sort-is_sorted ltb (λ n. n == 3) numbers ltb_asym ltb_trans
