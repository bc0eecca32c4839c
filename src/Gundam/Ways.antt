-- ===== src/Gundam/Ways.antt =====
-- Ways over the nodes that src/opt/gundam.cpp lays out: their lengths, their last node, and their bits.
use passinglink.Common.{
  ℕ, zero, suc, ◌*◌, Bool, true, false, not, ◌&&◌, ◌||◌, none, some, List, [], ◌∷◌, ◌==◌,
  if◌then◌else◌, length, ◌≡◌, inl, inr, refl, ap, arith, Bool-cases,
}
use passinglink.Input.Types.{Gpio, RawInputState}
use passinglink.Input.Queue.{InputQueue, put}
use passinglink.Gundam.Grow.{at_same}
use passinglink.Gundam.Lay.{Walk, ends, steps, states, presses}

pub length-presses : (n : ℕ) (gpio : Gpio) → length (presses n gpio) ≡ 2 * n
length-presses zero gpio = refl
length-presses (suc n) gpio = omega (arith, length-presses n gpio)

pub length-states : (way : List (ℕ × RawInputState)) → length (states way) ≡ length way
length-states [] = refl
length-states (x ∷ way) = ap suc (length-states way)

before_last :
    (st : ℕ → InputQueue) (p d n : ℕ) → (st p).next ≡ some n → (st d).next ≡ none → (p == d) ≡ false
before_last st p d n e_next last = elim (Bool-cases (p == d)) [
  | inl e ↦
      let same : p ≡ d = ground arith in
      let next = ap (λ i. (st i).next) same in absurd (ground arith)
  | inr e ↦ e
]

-- The last node is written behind the others.
pub Walk-write :
    (st : ℕ → InputQueue) (delay p d : ℕ) (way : List (ℕ × RawInputState)) (node : InputQueue)
    → Walk st delay p way d
    → (st d).next ≡ none
    → Walk (put d node st) delay p way d
Walk-write st delay p d [] node ends last = ends
Walk-write st delay p d (x ∷ way) node (steps n e_state e_delay e_next rest) last =
    let beside = before_last st p d n e_next last in
    steps n (simp beside e_state) (simp beside e_delay) (simp beside e_next)
      (Walk-write st delay n d way node rest last)

-- The bits after the nodes of the queue are freed, from those before they were taken.
pub bits_back :
    (old : ℕ → Bool) (h j : ℕ) (on_j taken_j laid_j after_j : Bool)
    → old h ≡ false
    → taken_j ≡ (if j == h then true else old j)
    → (on_j && not (j == h) && taken_j) ≡ false
    → laid_j ≡ (on_j || taken_j)
    → ((j == h) ≡ true → on_j ≡ true)
    → after_j ≡ (not on_j && laid_j)
    → after_j ≡ old j
bits_back old h j on_j taken_j laid_j after_j unset taking fresh laying on_h freeing =
    elim (Bool-cases (j == h)) [
      | inl e ↦ let clear = at_same old h j false e unset in let member = on_h e in ground arith
      | inr e ↦ ground arith
    ]
