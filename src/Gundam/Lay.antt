-- ===== src/Gundam/Lay.antt =====
-- The nodes that src/opt/gundam.cpp lays out: one for each state, in order, from a node that is given out.
use passinglink.Common.{
  ℕ, zero, suc, ◌<◌, ◌≤◌, Bool, true, false, not, ◌&&◌, ◌||◌, Option, none, some, List, [], ◌∷◌,
  ◌==◌, if◌then◌else◌, length, ◌≡◌, refl, fun_ext, ap, arith,
}
use passinglink.Input.Types.{Gpio, RawInputState}
use passinglink.Containers.Bitmap.{get}
use passinglink.Input.Queue.{InputQueue, Queue, input_queue_append}
use passinglink.Input.Queue.Avail.{IsAvail, free_below}
use passinglink.Gundam.{released, pressed, write, press_times}

-- The states one after the other, from node `cur` on: the last node that is appended has no state yet.
unfoldable pub lay : ℕ → List RawInputState → ℕ → Queue → Option ℕ × Queue
lay delay [] cur q = (some cur, q)
lay delay (s ∷ ss) cur q =
    let (next, r) = input_queue_append cur (write cur s delay q) in
    elim next [ none ↦ (none, r) | some n ↦ lay delay ss n r ]

-- What the loop of `adjust_cam` lays out.
abbrev pub presses : ℕ → Gpio → List RawInputState
presses zero gpio = []
presses (suc n) gpio = pressed gpio ∷ released ∷ presses n gpio

pub press_times-lay :
    (count : ℕ) (gpio : Gpio) (delay cur : ℕ) (q : Queue)
    → press_times count gpio delay cur q ≡ lay delay (presses count gpio) cur q
unfolding press_times lay
press_times-lay zero gpio delay cur q = refl
press_times-lay (suc n) gpio delay cur q =
    ap
      (λ f.
        let (next, r) = input_queue_append cur (write cur (pressed gpio) delay q) in
        elim next [
          | none ↦ (none, r)
          | some k ↦
              (let (last, t) = input_queue_append k (write k released delay r) in
                elim last [ none ↦ (none, t) | some m ↦ f m t ])
        ])
      (fun_ext (λ m. fun_ext (λ t. press_times-lay n gpio delay m t)))

-- From node p the states are linked one after the other, and end at node d.
pub data Walk : (ℕ → InputQueue) → ℕ → ℕ → List (ℕ × RawInputState) → ℕ → Type 0 where
  ends : {st : ℕ → InputQueue} {delay d : ℕ} → Walk st delay d [] d
  steps :
      {st : ℕ → InputQueue} {delay p d : ℕ} {s : RawInputState} {rest : List (ℕ × RawInputState)}
      → (n : ℕ) → (st p).state ≡ s
      → (st p).delay ≡ delay
      → (st p).next ≡ some n
      → Walk st delay n rest d
      → Walk st delay p ((p, s) ∷ rest) d

-- Whether a node is on the way, its end included.
abbrev pub on : ℕ → List (ℕ × RawInputState) → ℕ → Bool
on j [] d = j == d
on j (x ∷ rest) d = j == x.0 || on j rest d

abbrev pub states : List (ℕ × RawInputState) → List RawInputState
states [] = []
states (x ∷ rest) = x.1 ∷ states rest

pub Walk-on :
    {st : ℕ → InputQueue} {delay p d : ℕ} {way : List (ℕ × RawInputState)}
    → Walk st delay p way d
    → on p way d ≡ true
Walk-on ends = ground arith
Walk-on (steps n e_state e_delay e_next rest) = ground arith

-- A queue laid out from node `cur`, as far as nodes were free (`done` if there were enough): the way from
-- it to the last node that was appended.
pub record Laid (delay cur : ℕ) (ss : List RawInputState) (q : Queue) : Type 0 where
  pub done : Bool
  pub way : List (ℕ × RawInputState)
  pub last : ℕ
  pub after : Queue
  pub runs : lay delay ss cur q ≡ ((if done then some last else none), after)
  pub walk : Walk after.storage delay cur way last
  pub shows : done ≡ true → states way ≡ ss
  pub enough : length ss ≤ free_below q.storage_bitmap 1024 → done ≡ true
  pub needs : done ≡ true → length ss ≤ free_below q.storage_bitmap 1024
  pub short : length way ≤ length ss
  pub avail : IsAvail after
  pub fresh : (j : ℕ) → (on j way last && not (j == cur) && get q.storage_bitmap j) ≡ false
  pub bits : (j : ℕ) → get after.storage_bitmap j ≡ (on j way last || get q.storage_bitmap j)
  pub kept :
      (j : ℕ) → get q.storage_bitmap j ≡ true → (j == cur) ≡ false → after.storage j ≡ q.storage j
  pub no_next : (after.storage last).next ≡ none
  pub small : (j : ℕ) → on j way last ≡ true → j < 1024
  pub same_next : after.queue_next ≡ q.queue_next
  pub same_head : after.next_free_head ≡ q.next_free_head
  pub same_tick : after.next_tick ≡ q.next_tick
