-- ===== src/Gundam/Play.antt =====
-- Playing nodes that are linked one after the other (src/input/queue.cpp), and freeing them.
use passinglink.Common.{
  ℕ, zero, suc, ◌+◌, ◌<◌, Bool, true, false, not, ◌&&◌, Option, none, some, List, [], ◌∷◌, ◌++◌,
  map, ltb, length, ◌≡◌, refl, ap, ◌∙◌, arith,
}
use passinglink.Input.Types.{RawInputState}
use passinglink.Containers.Bitmap.{get, get-set_to}
use passinglink.Input.Queue.{Queue, release, free_nodes, input_queue_get_state}
use passinglink.Input.Queue.Avail.{IsAvail, release-IsAvail}
use passinglink.Gundam.Lay.{Walk, ends, steps, on, states}

-- What freeing the nodes of a way leaves.
pub record Freed (fuel p : ℕ) (way : List (ℕ × RawInputState)) (d : ℕ) (q : Queue) : Type 0 where
  pub after : Queue
  pub runs : free_nodes fuel (some p) q ≡ some after
  pub bits : (j : ℕ) → get after.storage_bitmap j ≡ (not (on j way d) && get q.storage_bitmap j)
  pub avail : IsAvail after
  pub same_input : after.input ≡ q.input
  pub same_next : after.queue_next ≡ q.queue_next
  pub same_head : after.next_free_head ≡ q.next_free_head

pub free-Walk :
    (fuel delay p d : ℕ) (way : List (ℕ × RawInputState)) (q : Queue)
    → Walk q.storage delay p way d
    → (q.storage d).next ≡ none
    → IsAvail q
    → length way < fuel
    → ((j : ℕ) → on j way d ≡ true → j < 1024)
    → Freed fuel p way d q
unfolding free_nodes
free-Walk zero delay p d way q walk last avail room small = absurd (omega arith)
free-Walk (suc fuel) delay p d way q ends last avail room small =
    let lt = small d (ground arith) in
    record {
      after = release d q;
      runs = rw last refl;
      bits =
          λ j. rw (get-set_to q.storage_bitmap d j false (omega (arith, avail.0))) (ground arith);
      avail = release-IsAvail d q lt avail;
      same_input = refl;
      same_next = refl;
      same_head = refl;
    }
free-Walk (suc fuel) delay p d (x ∷ more) q (steps n e_state e_delay e_next rest) last avail room
      small =
    let lt = small p (ground arith) in
    let inner =
      free-Walk fuel delay n d more (release p q) rest last (release-IsAvail p q lt avail)
        (omega arith) (λ j h. small j (ground arith)) in
    record {
      after = inner.after;
      runs = rw e_next inner.runs;
      bits = λ j.
          let bit = get-set_to q.storage_bitmap p j false (omega (arith, avail.0)) in
          let old = inner.bits j in ground arith;
      avail = inner.avail;
      same_input = inner.same_input;
      same_next = inner.same_next;
      same_head = inner.same_head;
    }

-- `input_queue_get_state` at one tick after the other.
unfoldable pub play : List ℕ → Queue → Option (List (Option RawInputState) × Queue)
play [] q = some ([], q)
play (now ∷ later) q = elim (input_queue_get_state now q) [
  | none ↦ none
  | some (state, r) ↦ elim (play later r) [ none ↦ none | some (rest, t) ↦ some (state ∷ rest, t) ]
]

-- Each tick is after the one that its node is due at.
unfoldable pub are_due : ℕ → ℕ → List ℕ → Bool
are_due tick delay [] = true
are_due tick delay (now ∷ later) = ltb tick now && are_due (tick + delay) delay later

get_state-linked :
    (now p n : ℕ) (q : Queue)
    → q.queue_next ≡ some p
    → ltb q.next_tick now ≡ true
    → (q.storage p).next ≡ some n
    → input_queue_get_state now q
      ≡ some (
        some (q.storage p).state,
        record q {
          input = (q.storage p).state;
          next_tick = q.next_tick + (q.storage p).delay;
          queue_next = some n;
        },
      )
unfolding input_queue_get_state
get_state-linked now p n q e_next due e_link =
    rw (e_next, input_queue_get_state, due, e_link)
      (ap
        (λ v. some (
          some (q.storage p).state,
          record q {
            input = (q.storage p).state;
            next_tick = q.next_tick + (q.storage p).delay;
            queue_next = v;
          },
        ))
        e_link)

-- The state before the nodes are freed, when the last has been read.
abbrev read_last : ℕ → Queue → Queue
read_last d q = record q {
  input = (q.storage d).state;
  next_tick = q.next_tick + (q.storage d).delay;
  queue_next = (q.storage d).next;
}

get_state-last :
    (now d h : ℕ) (way : List (ℕ × RawInputState)) (q : Queue)
    → q.queue_next ≡ some d
    → q.next_free_head ≡ some h
    → ltb q.next_tick now ≡ true
    → (q.storage d).next ≡ none
    → (freed : Freed 1024 h way d (read_last d q))
    → input_queue_get_state now q
      ≡ some (some (q.storage d).state, record freed.after { next_free_head = none })
unfolding input_queue_get_state
get_state-last now d h way q e_next e_head due e_link freed =
    let freeing : free_nodes 1024 q.next_free_head (read_last d q) ≡ some freed.after =
      ap (λ o. free_nodes 1024 o (read_last d q)) e_head ∙ freed.runs in
    rw (e_next, input_queue_get_state, due, e_link, freeing)
      (ap (λ i. some (some i, record freed.after { next_free_head = none })) freed.same_input)

-- What playing leaves: the states came one after the other, nothing is active, and the nodes are free.
pub record Played (nows : List ℕ) (outs : List RawInputState) (q : Queue)
    (whole : List (ℕ × RawInputState)) (d : ℕ) : Type 0 where
  pub after : Queue
  pub runs : play nows q ≡ some (map some outs, after)
  pub idle : after.queue_next ≡ none
  pub released : after.next_free_head ≡ none
  pub avail : IsAvail after
  pub bits : (j : ℕ) → get after.storage_bitmap j ≡ (not (on j whole d) && get q.storage_bitmap j)

-- One state, and then the rest.
play_next :
    (now : ℕ) (later : List ℕ) (q r t : Queue) (state : RawInputState) (outs : List RawInputState)
    → input_queue_get_state now q ≡ some (some state, r)
    → play later r ≡ some (map some outs, t)
    → play (now ∷ later) q ≡ some (map some (state ∷ outs), t)
unfolding play
play_next now later q r t state outs e rest = rw (e, rest, play) refl

module _ (delay d h : ℕ) (whole : List (ℕ × RawInputState)) where
  pub play-Walk :
      (p : ℕ) (way : List (ℕ × RawInputState)) (nows : List ℕ) (q : Queue)
      → Walk q.storage delay h whole d
      → length whole < 1024
      → ((j : ℕ) → on j whole d ≡ true → j < 1024)
      → (q.storage d).next ≡ none
      → IsAvail q
      → q.queue_next ≡ some p
      → q.next_free_head ≡ some h
      → Walk q.storage delay p way d
      → are_due q.next_tick delay nows ≡ true
      → length nows ≡ length way + 1
      → Played nows (states way ++ ((q.storage d).state ∷ [])) q whole d
  unfolding play are_due
  play-Walk p way [] q all room small last avail e_next e_head walk due size = absurd (omega arith)
  play-Walk p [] (now ∷ (x ∷ xs)) q all room small last avail e_next e_head walk due size =
      absurd (omega arith)
  play-Walk p [] (now ∷ []) q all room small last avail e_next e_head ends due size =
      let freed = free-Walk 1024 delay h d whole (read_last d q) all last avail room small in
      record {
        after = record freed.after { next_free_head = none };
        runs =
            play_next now [] q (record freed.after { next_free_head = none }) _ (q.storage d).state
              [] (get_state-last now d h whole q e_next e_head (ground arith) last freed) refl;
        idle = freed.same_next ∙ last;
        released = refl;
        avail = freed.avail;
        bits = freed.bits;
      }
  play-Walk p (y ∷ ys) (now ∷ later) q all room small last avail e_next e_head
        (steps n e_state e_delay e_link rest) due size =
      let r = record q {
        input = (q.storage p).state;
        next_tick = q.next_tick + (q.storage p).delay;
        queue_next = some n;
      } in
      let inner =
        play-Walk n ys later r all room small last avail refl e_head rest
          (rw e_delay (ground arith)) (omega arith) in
      record {
        after = inner.after;
        runs =
            play_next now later q r inner.after (q.storage p).state
              (states ys ++ ((q.storage d).state ∷ []))
              (get_state-linked now p n q e_next (ground arith) e_link) inner.runs
            ∙ ap (λ s. some (map some (s ∷ (states ys ++ ((q.storage d).state ∷ []))), inner.after))
                e_state;
        idle = inner.idle;
        released = inner.released;
        avail = inner.avail;
        bits = inner.bits;
      }
