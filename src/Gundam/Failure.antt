-- ===== src/Gundam/Failure.antt =====
-- Moving the camera (src/opt/gundam.cpp) with whatever number of nodes is free.
use passinglink.Common.{
  ℕ, ◌+◌, ◌-◌, ◌*◌, ◌%◌, ◌<◌, ◌≤◌, Bool, true, false, none, some, ltb, if◌then◌else◌, length,
  is_some, ◌≡◌, ◌≢◌, ◌⊎◌, inl, inr, refl, ap, ◌∙◌, arith, ltb→lt, Bool-cases,
}
use passinglink.Containers.Bitmap.{get, get-set_to}
use passinglink.Input.Queue.{Queue, free_nodes, input_queue_alloc, input_queue_set_active}
use passinglink.Input.Queue.Avail.{
  IsAvail, free_below, free_below-taken, taken, alloc_lem, alloc-full,
}
use passinglink.Gundam.{Gundam, released, write, count_of, button_of, play_presses, set_cam}
use passinglink.Gundam.Lay.{Walk-on, on, presses, Laid}
use passinglink.Gundam.Play.{free-Walk}
use passinglink.Gundam.Camera.{cam_after, adjust_lem}
use passinglink.Gundam.Moves.{after_head, Laid-run, head-Laid}
use passinglink.Gundam.Ways.{bits_back, length-presses}
use passinglink.Gundam.Grow.{at_same}

-- What is left: a queue that is played, or nothing, with the nodes as free as before.
pub record Outcome (delay now offset : ℕ) (q : Queue) : Type 0 where
  pub after : Queue
  pub runs : play_presses delay now offset q ≡ some after
  pub avail : IsAvail after
  pub plays :
      (j : ℕ)
      → ((2 * count_of offset + 1 ≤ free_below q.storage_bitmap 1024)
          × (is_some after.queue_next ≡ true))
        ⊎ ((free_below q.storage_bitmap 1024 < 2 * count_of offset + 1)
            × (after.queue_next ≡ q.queue_next)
            × (after.next_free_head ≡ q.next_free_head)
            × (get after.storage_bitmap j ≡ get q.storage_bitmap j))

-- All presses are laid out.
Outcome-played :
    (delay now offset h : ℕ) (q : Queue)
    → (laid : Laid delay h (presses (count_of offset) (button_of offset)) (taken h q)) → IsAvail q
    → q.next_free_head ≡ none
    → input_queue_alloc q ≡ (some h, taken h q)
    → h < 1024
    → get q.storage_bitmap h ≡ false
    → laid.done ≡ true
    → Outcome delay now offset q
unfolding input_queue_set_active free_nodes
Outcome-played delay now offset h q laid avail head e lt unset done =
    let w = write laid.last released 0 laid.after in
    let count = free_below-taken q.storage_bitmap h 1024 (omega (arith, avail.0)) unset in
    let room = laid.needs done in
    let long = length-presses (count_of offset) (button_of offset) in
    record {
      after = record w { next_free_head = some h; queue_next = some h; next_tick = now };
      runs =
          Laid-run delay now offset h q laid e
          ∙ ap
              (λ b. elim (if b then some laid.last else none) [
                | none ↦ free_nodes 1024 (some h) laid.after
                | some m ↦ input_queue_set_active now (some h) true (write m released 0 laid.after)
              ])
              done
          ∙ ap
              (λ o. elim (free_nodes 1024 o w) [
                | none ↦ none
                | some freed ↦
                    some (record freed {
                      next_free_head = some h;
                      queue_next = some h;
                      next_tick = now;
                    })
              ])
              (laid.same_head ∙ head);
      avail = laid.avail;
      plays = λ j. inl (ground arith, refl);
    }

-- The nodes run out, and those that were taken are freed.
Outcome-freed :
    (delay now offset h : ℕ) (q : Queue)
    → (laid : Laid delay h (presses (count_of offset) (button_of offset)) (taken h q))
    → offset < 256
    → IsAvail q
    → input_queue_alloc q ≡ (some h, taken h q)
    → h < 1024
    → get q.storage_bitmap h ≡ false
    → laid.done ≡ false
    → Outcome delay now offset q
Outcome-freed delay now offset h q laid byte avail e lt unset undone =
    let ss = presses (count_of offset) (button_of offset) in
    let long = length-presses (count_of offset) (button_of offset) in
    let short = laid.short in
    let count = free_below-taken q.storage_bitmap h 1024 (omega (arith, avail.0)) unset in
    let few = too_few in
    let freed =
      free-Walk 1024 delay h laid.last laid.way laid.after laid.walk laid.no_next laid.avail
        (ground arith) laid.small in
    record {
      after = freed.after;
      runs =
          Laid-run delay now offset h q laid e
          ∙ ap
              (λ b. elim (if b then some laid.last else none) [
                | none ↦ free_nodes 1024 (some h) laid.after
                | some m ↦ input_queue_set_active now (some h) true (write m released 0 laid.after)
              ])
              undone
          ∙ freed.runs;
      avail = freed.avail;
      plays = λ j. inr (
        ground arith,
        freed.same_next ∙ laid.same_next,
        freed.same_head ∙ laid.same_head,
        bits_back (get q.storage_bitmap) h j (on j laid.way laid.last)
            (get (taken h q).storage_bitmap j) (get laid.after.storage_bitmap j)
            (get freed.after.storage_bitmap j) unset
            (get-set_to q.storage_bitmap h j true (omega (arith, avail.0))) (laid.fresh j)
            (laid.bits j)
            (λ same. at_same (λ k. on k laid.way laid.last) h j true same (Walk-on laid.walk))
            (freed.bits j),
      );
    }
  where
    too_few :
        free_below (taken h q).storage_bitmap 1024
        < length (presses (count_of offset) (button_of offset))
    too_few =
        elim (Bool-cases (
          ltb (free_below (taken h q).storage_bitmap 1024)
            (length (presses (count_of offset) (button_of offset))))) [
              | inl e ↦ ltb→lt _ _ e
              | inr e ↦ let done = laid.enough (ground arith) in absurd (ground arith)
            ]

-- Not even the first node is free.
Outcome-none :
    (delay now offset : ℕ) (q : Queue)
    → IsAvail q
    → free_below q.storage_bitmap 1024 ≡ 0
    → Outcome delay now offset q
unfolding play_presses
Outcome-none delay now offset q avail full = record {
  after = q;
  runs = ap (after_head delay now offset) (alloc-full q avail full);
  avail = avail;
  plays = λ j. inr (omega arith, refl, refl, refl);
}

outcome_lem :
    (delay now offset : ℕ) (q : Queue)
    → offset < 256
    → IsAvail q
    → q.next_free_head ≡ none
    → Outcome delay now offset q
outcome_lem delay now offset q byte avail head =
    elim (Bool-cases (ltb 0 (free_below q.storage_bitmap 1024))) [
      | inl e ↦
          let (h, e_alloc, lt, unset, avail_h) =
            alloc_lem q avail (ltb→lt 0 (free_below q.storage_bitmap 1024) e) in
          let laid =
            head-Laid delay h (presses (count_of offset) (button_of offset)) q avail lt unset
              avail_h in
          elim (Bool-cases laid.done) [
            | inl done ↦ Outcome-played delay now offset h q laid avail head e_alloc lt unset done
            | inr undone ↦
                Outcome-freed delay now offset h q laid byte avail e_alloc lt unset undone
          ]
      | inr e ↦ Outcome-none delay now offset q avail (ground arith)
    ]

-- While no queue is played, set_cam to another number always succeeds, and sets the number if it is to be
-- recorded. If enough nodes are free for two per step between the numbers and one more, then a queue is
-- played; otherwise none is, and every node is as free as before.
pub set_cam_outcome :
    (delay now x j : ℕ) (recording : Bool) (g : Gundam)
    → x < 256
    → g.current_cam < 256
    → x ≢ g.current_cam
    → IsAvail g.queue
    → g.queue.queue_next ≡ none
    → g.queue.next_free_head ≡ none
    → (t : Gundam) × (set_cam delay now x recording g ≡ some t)
      × (t.current_cam ≡ (if recording then x else g.current_cam))
      × (((2 * count_of ((x + 256 - g.current_cam) % 256) + 1
              ≤ free_below g.queue.storage_bitmap 1024)
            × (is_some t.queue.queue_next ≡ true))
          ⊎ ((free_below g.queue.storage_bitmap 1024
                < 2 * count_of ((x + 256 - g.current_cam) % 256) + 1)
              × (t.queue.queue_next ≡ none)
              × (t.queue.next_free_head ≡ none)
              × (get t.queue.storage_bitmap j ≡ get g.queue.storage_bitmap j)))
unfolding set_cam
set_cam_outcome delay now x j recording g byte cam_byte ne avail idle head =
    let offset = (x + 256 - g.current_cam) % 256 in
    let outcome = outcome_lem delay now offset g.queue (omega arith) avail head in
    (
      record { current_cam = cam_after g.current_cam recording offset; queue = outcome.after },
      adjust_lem delay now offset recording g idle (omega arith) outcome.after outcome.runs,
      ground arith,
      elim (outcome.plays j) [
        | inl h ↦ inl h
        | inr (few, same_next, same_head, bits) ↦
            inr (few, same_next ∙ idle, same_head ∙ head, bits)
      ],
    )
