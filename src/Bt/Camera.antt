-- ===== src/Bt/Camera.antt =====
-- src/opt/gundam.cpp: the Bluetooth service and the shell command of the camera.
use passinglink.Common.{
  ℕ, ◌+◌, ◌-◌, ◌%◌, ◌<◌, Bool, true, false, not, ◌&&◌, ◌||◌, Option, none, some, List, [], ◌∷◌, ltb,
  ◌==◌, length, get_elem?, get_or, is_some, if◌then◌else◌, ◌≡◌, refl, ap, ◌∙◌, Bool-cases, inl, inr,
  arith,
}
use passinglink.Util.{codes}
use passinglink.Input.Queue.{input_queue_is_active}
use passinglink.Input.Queue.Avail.{IsAvail}
use passinglink.Gundam.{Gundam, reset_cam, adjust_cam, set_cam}
use passinglink.Gundam.Failure.{set_cam_outcome}
use passinglink.Bt.{Answer, took, invalid_offset, AttrRead}

unfoldable pub bt_gundam_read : AttrRead → ℕ → ℕ → Gundam → Answer
bt_gundam_read attr_read len offset g = attr_read (g.current_cam ∷ []) len offset

-- The two numbers are the delay and the tick of `set_cam`.
unfoldable pub bt_gundam_write : ℕ → ℕ → List ℕ → ℕ → Gundam → Option (Answer × Gundam)
bt_gundam_write delay now buf offset g =
    if ltb 0 offset || not (length buf == 1)
    then some (invalid_offset, g)
    else (elim (set_cam delay now (get_or buf 0 0) true g) [
      | none ↦ none
      | some t ↦ some (took (length buf), t)
    ])

unfoldable pub bt_gundam_reset_read : AttrRead → ℕ → ℕ → Gundam → Answer
bt_gundam_reset_read attr_read len offset g = attr_read (g.current_cam ∷ []) len offset

unfoldable pub bt_gundam_reset_write : List ℕ → ℕ → Gundam → Answer × Gundam
bt_gundam_reset_write buf offset g =
    if ltb 0 offset || not (length buf == 1)
    then (invalid_offset, g)
    else (took (length buf), reset_cam (get_or buf 0 0) g)

-- `strcmp`
abbrev pub same_text : List ℕ → List ℕ → Bool
same_text [] [] = true
same_text [] (c ∷ cs) = false
same_text (b ∷ bs) [] = false
same_text (b ∷ bs) (c ∷ cs) = b == c && same_text bs cs

-- The argument of `cmd_cam`; an offset of -1 is the byte 255.
unfoldable pub cam_argument : ℕ → ℕ → List ℕ → Gundam → Option Gundam
cam_argument delay now text g =
    if same_text text (codes "reset")
    then some (reset_cam 1 g)
    else if same_text text (codes "next")
    then adjust_cam delay now 1 false g
    else if same_text text (codes "prev")
    then adjust_cam delay now 255 false g
    else if ltb (get_or text 0 0) b'0' || ltb b'9' (get_or text 0 0)
    then some g
    else set_cam delay now (get_or text 0 0 - b'0') true g

-- `argv` has the name of the command first.
unfoldable pub cmd_cam : ℕ → ℕ → List (List ℕ) → Gundam → Option Gundam
cmd_cam delay now argv g = elim (get_elem? argv 1) [
  | none ↦ some g
  | some text ↦ if length argv == 2 then cam_argument delay now text g else some g
]

-- Setting the camera to the number that it has.
stay_lem :
    (delay now x : ℕ) (g : Gundam)
    → x < 256
    → g.current_cam ≡ x
    → g.queue.queue_next ≡ none
    → set_cam delay now x true g ≡ some (record g { current_cam = x })
unfolding set_cam adjust_cam input_queue_is_active
stay_lem delay now x g byte e idle =
    let nothing : (x + 256 - g.current_cam) % 256 ≡ 0 = omega arith in
    let same : (g.current_cam + 0) % 256 ≡ x = omega arith in
    ap (λ o. adjust_cam delay now o true g) nothing
    ∙ ap (λ b. if b then some g else some (record g { current_cam = (g.current_cam + 0) % 256 }))
        (ap is_some idle)
    ∙ ap (λ c. some (record g { current_cam = c })) same

-- While no queue is played, a number that is written is taken, and is what a read sends afterwards, whether or not
-- the camera could be moved.
pub bt_gundam_read-bt_gundam_write :
    (attr_read : AttrRead) (delay now x len offset : ℕ) (g : Gundam)
    → x < 256
    → g.current_cam < 256
    → IsAvail g.queue
    → g.queue.queue_next ≡ none
    → g.queue.next_free_head ≡ none
    → (t : Gundam) × (bt_gundam_write delay now (x ∷ []) 0 g ≡ some (took 1, t))
      × (bt_gundam_read attr_read len offset t ≡ attr_read (x ∷ []) len offset)
unfolding bt_gundam_read bt_gundam_write
bt_gundam_read-bt_gundam_write attr_read delay now x len offset g byte cam_byte avail idle head =
    elim (Bool-cases (x == g.current_cam)) [
      | inr apart ↦
          let moved =
            set_cam_outcome delay now x 0 true g byte cam_byte (λ e. ground arith) avail idle
              head in
          (
            moved.0,
            rw (bt_gundam_write, moved.1) refl,
            ap (λ c. attr_read (c ∷ []) len offset) moved.2,
          )
      | inl same ↦
          let e : g.current_cam ≡ x = ground arith in
          (
            record g { current_cam = x },
            rw (bt_gundam_write, stay_lem delay now x g byte e idle) refl,
            refl,
          )
    ]
