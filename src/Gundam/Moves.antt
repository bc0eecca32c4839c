-- ===== src/Gundam/Moves.antt =====
-- The queue that src/opt/gundam.cpp lays out is played to its end.
use passinglink.Common.{
  ℕ, ◌+◌, ◌*◌, ◌<◌, ◌≤◌, true, false, Option, none, some, List, [], ◌∷◌, ◌++◌, map, ◌==◌,
  if◌then◌else◌, length, ◌≡◌, refl, ap, sym, ◌∙◌, arith,
}
use passinglink.Input.Types.{RawInputState}
use passinglink.Containers.Bitmap.{get, get-set_to}
use passinglink.Input.Queue.{Queue, free_nodes, input_queue_alloc, input_queue_set_active}
use passinglink.Input.Queue.Avail.{IsAvail, free_below, free_below-taken, taken, alloc_lem}
use passinglink.Gundam.{released, write, count_of, button_of, press_times, play_presses}
use passinglink.Gundam.Grow.{at_same, lay_lem}
use passinglink.Gundam.Lay.{Walk-on, on, presses, press_times-lay, Laid}
use passinglink.Gundam.Play.{play, are_due, play-Walk}
use passinglink.Gundam.Ways.{length-presses, length-states, Walk-write, bits_back}

-- What moving the camera by the offset queues, and what is shown of it until nothing is left.
pub record Moves (delay now offset : ℕ) (nows : List ℕ) (q : Queue) : Type 0 where
  pub queued : Queue
  pub after : Queue
  pub runs : play_presses delay now offset q ≡ some queued
  pub shown :
      play nows queued
      ≡ some (map some (presses (count_of offset) (button_of offset) ++ (released ∷ [])), after)
  pub idle : after.queue_next ≡ none
  pub no_head : after.next_free_head ≡ none
  pub avail : IsAvail after
  pub bits : (j : ℕ) → get after.storage_bitmap j ≡ get q.storage_bitmap j

-- The rest of `adjust_cam` after the first node is allocated.
abbrev pub after_head : ℕ → ℕ → ℕ → Option ℕ × Queue → Option Queue
after_head delay now offset a = elim a.0 [
  | none ↦ some a.1
  | some k ↦
      (let (last, t) = press_times (count_of offset) (button_of offset) delay k a.1 in
        elim last [
          | none ↦ free_nodes 1024 (some k) t
          | some m ↦ input_queue_set_active now (some k) true (write m released 0 t)
        ])
]

-- What `adjust_cam` does once the nodes are laid out.
pub Laid-run :
    (delay now offset h : ℕ) (q : Queue)
    → (laid : Laid delay h (presses (count_of offset) (button_of offset)) (taken h q))
    → input_queue_alloc q ≡ (some h, taken h q)
    → play_presses delay now offset q ≡ (elim (if laid.done then some laid.last else none) [
      | none ↦ free_nodes 1024 (some h) laid.after
      | some m ↦ input_queue_set_active now (some h) true (write m released 0 laid.after)
    ])
unfolding play_presses
Laid-run delay now offset h q laid e =
    ap (after_head delay now offset) e
    ∙ ap
        (λ a. elim a.0 [
          | none ↦ free_nodes 1024 (some h) a.1
          | some m ↦ input_queue_set_active now (some h) true (write m released 0 a.1)
        ])
        (press_times-lay (count_of offset) (button_of offset) delay h (taken h q) ∙ laid.runs)

-- A queue that is laid out from node h is played to its end.
Laid-Moves :
    (delay now offset h : ℕ) (nows : List ℕ) (q : Queue)
    → (laid : Laid delay h (presses (count_of offset) (button_of offset)) (taken h q))
    → offset < 256
    → IsAvail q
    → q.next_free_head ≡ none
    → input_queue_alloc q ≡ (some h, taken h q)
    → h < 1024
    → get q.storage_bitmap h ≡ false
    → are_due now delay nows ≡ true
    → length nows ≡ 2 * count_of offset + 1
    → laid.done ≡ true
    → Moves delay now offset nows q
unfolding input_queue_set_active free_nodes
Laid-Moves delay now offset h nows q laid byte avail head e lt unset due size done =
    let r = taken h q in
    let ss = presses (count_of offset) (button_of offset) in
    let long = length-presses (count_of offset) (button_of offset) in
    let bit : (j : ℕ) → get r.storage_bitmap j ≡ (if j == h then true else get q.storage_bitmap j) =
      λ j. get-set_to q.storage_bitmap h j true (omega (arith, avail.0)) in
    let w = write laid.last released 0 laid.after in
    let active = record w { next_free_head = some h; queue_next = some h; next_tick = now } in
    let at_last : (laid.last == laid.last) ≡ true = ground arith in
    let last_state : (active.storage laid.last).state ≡ released = simp at_last refl in
    let way =
      Walk-write laid.after.storage delay h laid.last laid.way
        (record (laid.after.storage laid.last) { state = released; delay = 0 }) laid.walk
        laid.no_next in
    let nodes : length laid.way ≡ 2 * count_of offset =
      sym (length-states laid.way) ∙ ap length (laid.shows done) ∙ long in
    let played =
      play-Walk delay laid.last h laid.way h laid.way nows active way (ground arith) laid.small
        (simp at_last laid.no_next) laid.avail refl refl way due (omega arith) in
    record {
      queued = active;
      after = played.after;
      runs =
          Laid-run delay now offset h q laid e
          ∙ ap
              (λ b. elim (if b then some laid.last else none) [
                | none ↦ free_nodes 1024 (some h) laid.after
                | some m ↦ input_queue_set_active now (some h) true (write m released 0 laid.after)
              ])
              done
          ∙ ap
              (λ o. elim (free_nodes 1024 o w) [
                | none ↦ none
                | some freed ↦
                    some (record freed {
                      next_free_head = some h;
                      queue_next = some h;
                      next_tick = now;
                    })
              ])
              (laid.same_head ∙ head);
      shown =
          played.runs
          ∙ ap (λ l. some (map some (l ++ ((active.storage laid.last).state ∷ [])), played.after))
              (laid.shows done)
          ∙ ap (λ s. some (map some (ss ++ (s ∷ [])), played.after)) last_state;
      idle = played.idle;
      no_head = played.released;
      avail = played.avail;
      bits = λ j.
          bits_back (get q.storage_bitmap) h j (on j laid.way laid.last) (get r.storage_bitmap j)
            (get laid.after.storage_bitmap j) (get played.after.storage_bitmap j) unset (bit j)
            (laid.fresh j) (laid.bits j)
            (λ same. at_same (λ k. on k laid.way laid.last) h j true same (Walk-on laid.walk))
            (played.bits j);
    }

pub head-Laid :
    (delay h : ℕ) (ss : List RawInputState) (q : Queue)
    → IsAvail q
    → h < 1024
    → get q.storage_bitmap h ≡ false
    → IsAvail (taken h q)
    → Laid delay h ss (taken h q)
head-Laid delay h ss q avail lt unset avail_h =
    let here : (h == h) ≡ true = ground arith in
    let bit = get-set_to q.storage_bitmap h h true (omega (arith, avail.0)) in
    lay_lem delay h ss (taken h q) avail_h lt (bit ∙ rw here refl) (simp here refl)

pub play_presses_lem :
    (delay now offset : ℕ) (nows : List ℕ) (q : Queue)
    → offset < 256
    → IsAvail q
    → q.next_free_head ≡ none
    → 2 * count_of offset + 1 ≤ free_below q.storage_bitmap 1024
    → are_due now delay nows ≡ true
    → length nows ≡ 2 * count_of offset + 1
    → Moves delay now offset nows q
play_presses_lem delay now offset nows q byte avail head room due size =
    let (h, e, lt, unset, avail_h) = alloc_lem q avail (omega arith) in
    let laid =
      head-Laid delay h (presses (count_of offset) (button_of offset)) q avail lt unset avail_h in
    let long = length-presses (count_of offset) (button_of offset) in
    let count = free_below-taken q.storage_bitmap h 1024 (omega (arith, avail.0)) unset in
    Laid-Moves delay now offset h nows q laid byte avail head e lt unset due size
      (laid.enough (ground arith))
