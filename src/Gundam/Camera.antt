-- ===== src/Gundam/Camera.antt =====
-- What moving the camera of src/opt/gundam.cpp shows to the host, until its nodes are free again.
use passinglink.Common.{
  ℕ, ◌+◌, ◌-◌, ◌*◌, ◌%◌, ◌<◌, ◌≤◌, Bool, true, false, Option, none, some, List, [], ◌∷◌, ◌++◌, map,
  ◌==◌, if◌then◌else◌, length, ◌≡◌, ◌≢◌, refl, ap, ◌∙◌, arith, is_some, sym, ltb, leb, zero, suc,
}
use passinglink.Input.Types.{Gpio, stick_up, stick_down, RawInputState}
use passinglink.Containers.Bitmap.{get}
use passinglink.Input.Queue.{Queue, input_queue_is_active}
use passinglink.Input.Queue.Avail.{IsAvail, free_below}
use passinglink.Gundam.{Gundam, released, count_of, button_of, play_presses, adjust_cam, set_cam}
use passinglink.Gundam.Lay.{presses}
use passinglink.Gundam.Play.{play, are_due}
use passinglink.Gundam.Moves.{play_presses_lem}

-- The number after a move.
abbrev pub cam_after : ℕ → Bool → ℕ → ℕ
cam_after cam recording offset = if recording then (cam + offset) % 256 else cam

pub adjust_lem :
    (delay now offset : ℕ) (recording : Bool) (g : Gundam)
    → g.queue.queue_next ≡ none
    → offset ≢ 0
    → (q : Queue) → play_presses delay now offset g.queue ≡ some q
    → adjust_cam delay now offset recording g
      ≡ some (record { current_cam = cam_after g.current_cam recording offset; queue = q })
unfolding adjust_cam input_queue_is_active
adjust_lem delay now offset recording g idle ne q e =
    let moved : (offset == 0) ≡ false = ground arith in
    ap (λ n. if is_some n then some g else moving) idle ∙ rw (moved, e) refl
  where
    moving : Option Gundam
    moving =
        if offset == 0
        then some (record g { current_cam = cam_after g.current_cam recording offset })
        else (elim (play_presses delay now offset g.queue) [
          | none ↦ none
          | some r ↦
              some (record { current_cam = cam_after g.current_cam recording offset; queue = r })
        ])

-- The steps from a number up to another, round from 255 to 0.
abbrev pub steps_up : ℕ → ℕ → ℕ
steps_up from to = if leb from to then to - from else 256 - from + to

-- The shorter way from a number to another: the presses of the stick upward, or downward where the way up has at
-- least 128 steps.
abbrev pub shorter_way : ℕ → ℕ → List RawInputState
shorter_way from to =
    if ltb (steps_up from to) 128
    then presses (steps_up from to) stick_up
    else presses (256 - steps_up from to) stick_down

length-presses : (n : ℕ) (gpio : Gpio) → length (presses n gpio) ≡ 2 * n
length-presses zero gpio = refl
length-presses (suc n) gpio = omega (arith, length-presses n gpio)

offset-steps_up : (from to : ℕ) → from < 256 → to < 256 → steps_up from to ≡ (to + 256 - from) % 256
offset-steps_up from to lt lt' = ground arith

presses-way :
    (up : ℕ)
    → (if ltb up 128 then presses up stick_up else presses (256 - up) stick_down)
      ≡ presses (count_of up) (button_of up)
presses-way up =
    elim (ltb up 128)
      as (λ b.
        (if b then presses up stick_up else presses (256 - up) stick_down)
        ≡ presses (if b then up else 256 - up) (if b then stick_up else stick_down)) [
          | true ↦ refl
          | false ↦ refl
        ]

shorter_way-presses :
    (from to : ℕ)
    → from < 256
    → to < 256
    → let offset = (to + 256 - from) % 256 in
      shorter_way from to ≡ presses (count_of offset) (button_of offset)
shorter_way-presses from to lt lt' =
    ap (λ up. if ltb up 128 then presses up stick_up else presses (256 - up) stick_down)
      (offset-steps_up from to lt lt')
    ∙ presses-way ((to + 256 - from) % 256)

-- While no queue is played and at least 257 nodes are free, set_cam to another number, with recording,
-- succeeds and sets the number. If the queue is then read once after each of its states is due, it shows
-- one press and one release of the stick for each step of the shorter way between the numbers, modulo 256,
-- upward, or downward where the way up has at least 128 steps, and a release at the end; afterwards nothing is played, and every node is as free as before.
pub set_cam_plays :
    (delay now x j : ℕ) (nows : List ℕ) (g : Gundam)
    → x < 256
    → g.current_cam < 256
    → x ≢ g.current_cam
    → IsAvail g.queue
    → g.queue.queue_next ≡ none
    → g.queue.next_free_head ≡ none
    → 257 ≤ free_below g.queue.storage_bitmap 1024
    → are_due now delay nows ≡ true
    → length nows ≡ length (shorter_way g.current_cam x) + 1
    → (t : Gundam) × (u : Queue) × (set_cam delay now x true g ≡ some t)
      × (t.current_cam ≡ x)
      × (play nows t.queue ≡ some (map some (shorter_way g.current_cam x ++ (released ∷ [])), u))
      × (u.queue_next ≡ none)
      × (u.next_free_head ≡ none)
      × (get u.storage_bitmap j ≡ get g.queue.storage_bitmap j)
unfolding set_cam
set_cam_plays delay now x j nows g byte cam_byte ne avail idle head room due size =
    let offset = (x + 256 - g.current_cam) % 256 in
    let way = shorter_way-presses g.current_cam x cam_byte byte in
    let count = ap length way ∙ length-presses (count_of offset) (button_of offset) in
    let moves =
      play_presses_lem delay now offset nows g.queue (omega arith) avail head (ground arith) due
        (omega (arith, size, count)) in
    (
      record { current_cam = (g.current_cam + offset) % 256; queue = moves.queued },
      moves.after,
      adjust_lem delay now offset true g idle (omega arith) moves.queued moves.runs,
      omega arith,
      moves.shown ∙ ap (λ l. some (map some (l ++ (released ∷ [])), moves.after)) (sym way),
      moves.idle,
      moves.no_head,
      moves.bits j,
    )
