-- ===== src/Gundam/Tests.antt =====
-- The camera (src/opt/gundam.cpp) at a concrete input: from 1 to 3, with all nodes free.
use passinglink.Common.{
  ℕ, zero, suc, ◌+◌, ◌-◌, ◌/◌, ◌%◌, true, false, none, some, List, [], ◌∷◌, ◌++◌, map, replicate,
  get_or, ◌≡◌, refl, arith,
}
use passinglink.Containers.Bitmap.{get}
use passinglink.Input.Queue.{Queue}
use passinglink.Input.Queue.Avail.{IsAvail, free_below}
use passinglink.Gundam.{Gundam, released, count_of, set_cam}
use passinglink.Gundam.Play.{play, are_due}
use passinglink.Gundam.Camera.{set_cam_plays, shorter_way}
use passinglink.Gundam.Failure.{set_cam_outcome}
use passinglink.Common.{◌<◌, ◌≤◌, ◌*◌, ◌⊎◌, if◌then◌else◌, is_some}

abbrev all_free : Gundam
all_free = record {
  current_cam = 1;
  queue = record {
    storage_last_avail = 0;
    storage_bitmap = replicate 128 0;
    storage = λ _. record { state = released; delay = 0; next = none };
    input = released;
    queue_next = none;
    next_free_head = none;
    next_tick = 0;
  };
}

zeros : (k i : ℕ) → get_or {A = ℕ} (replicate k 0) i 0 ≡ 0
zeros zero i = refl
zeros (suc k) zero = refl
zeros (suc k) (suc i) = zeros k i

unused : (i : ℕ) → get (replicate 128 0) i ≡ false
unfolding get
unused i = let byte = zeros 128 (i / 8) in ground arith

free_below-all : (n : ℕ) → free_below (replicate 128 0) n ≡ n
unfolding free_below
free_below-all zero = refl
free_below-all (suc n) = let rest = free_below-all n in let here = unused n in ground arith

all_free-IsAvail : IsAvail all_free.queue
all_free-IsAvail = (refl, omega arith, λ j. ground arith)

abbrev ticks : List ℕ
ticks = 101 ∷ 500 ∷ 900 ∷ 1300 ∷ 1700 ∷ []

set_cam_plays_example :
    (t : Gundam) × (u : Queue) × (set_cam 333 100 3 true all_free ≡ some t)
    × (t.current_cam ≡ 3)
    × (play ticks t.queue ≡ some (map some (shorter_way 1 3 ++ (released ∷ [])), u))
    × (u.queue_next ≡ none)
    × (u.next_free_head ≡ none)
    × (get u.storage_bitmap 7 ≡ get all_free.queue.storage_bitmap 7)
set_cam_plays_example =
    set_cam_plays 333 100 3 7 ticks all_free (omega arith) (omega arith) (omega arith)
      all_free-IsAvail refl refl (omega (arith, free_below-all 1024)) (unfold are_due in refl) refl

-- No node is free.
abbrev none_free : Gundam
none_free = record all_free { queue = record all_free.queue { storage_bitmap = replicate 128 255 } }

none_free-IsAvail : IsAvail none_free.queue
none_free-IsAvail = (refl, omega arith, λ j. ground arith)

set_cam_outcome_example :
    (t : Gundam) × (set_cam 333 100 3 true none_free ≡ some t)
    × (t.current_cam ≡ (if true then 3 else none_free.current_cam))
    × (((2 * count_of ((3 + 256 - 1) % 256) + 1 ≤ free_below none_free.queue.storage_bitmap 1024)
          × (is_some t.queue.queue_next ≡ true))
        ⊎ ((free_below none_free.queue.storage_bitmap 1024 < 2 * count_of ((3 + 256 - 1) % 256) + 1)
            × (t.queue.queue_next ≡ none)
            × (t.queue.next_free_head ≡ none)
            × (get t.queue.storage_bitmap 7 ≡ get none_free.queue.storage_bitmap 7)))
set_cam_outcome_example =
    set_cam_outcome 333 100 3 7 true none_free (omega arith) (omega arith) (omega arith)
      none_free-IsAvail refl refl
