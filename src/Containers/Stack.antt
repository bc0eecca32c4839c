-- ===== src/Containers/Stack.antt =====
-- `stack` of src/types.h: the last element pushed comes first in the list. `none` is a PANIC.
use passinglink.Common.{
  ℕ, Bool, true, false, Option, none, some, List, [], ◌∷◌, ◌==◌, if◌then◌else◌, length,
}

module _ {ℓ} {A : Type ℓ} where
  abbrev pub front : List A → Option A
  front [] = none
  front (x ∷ xs) = some x

  abbrev pub push : ℕ → A → List A → Option (List A)
  push capacity x xs = if length xs == capacity then none else some (x ∷ xs)

  abbrev pub pop : List A → Option (List A)
  pop [] = none
  pop (x ∷ xs) = some xs

  abbrev pub empty : List A → Bool
  empty [] = true
  empty (x ∷ xs) = false
