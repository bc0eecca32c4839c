-- ===== src/Gundam/Grow.antt =====
-- Laying out nodes (src/opt/gundam.cpp): one node more, until there is one for each state or none is free.
use passinglink.Common.{
  ℕ, ◌<◌, ◌≤◌, Bool, true, false, not, ◌&&◌, ◌||◌, none, some, List, [], ◌∷◌, ltb, ltb→lt, ◌==◌,
  if◌then◌else◌, length, ◌≡◌, inl, inr, refl, ap, ◌∙◌, arith, Bool-cases,
}
use passinglink.Input.Types.{RawInputState}
use passinglink.Containers.Bitmap.{get, get-set_to}
use passinglink.Input.Queue.{Queue, link, input_queue_append}
use passinglink.Input.Queue.Avail.{
  IsAvail, free_below, free_below-taken, taken, append_lem, append-full,
}
use passinglink.Gundam.{write}
use passinglink.Gundam.Lay.{lay, ends, steps, on, Walk-on, Laid}

-- The state after one more node.
abbrev linked : ℕ → ℕ → ℕ → RawInputState → Queue → Queue
linked delay cur n s q = link n none (link cur (some n) (taken n (write cur s delay q)))

next_none :
    (delay cur n : ℕ) (s : RawInputState) (q : Queue)
    → ((linked delay cur n s q).storage n).next ≡ none
next_none delay cur n s q = let here : (n == n) ≡ true = ground arith in simp here refl

node_at :
    (delay cur n : ℕ) (s : RawInputState) (q : Queue)
    → (cur == n) ≡ false
    → (linked delay cur n s q).storage cur ≡ record { state = s; delay = delay; next = some n }
node_at delay cur n s q ne = let here : (cur == cur) ≡ true = ground arith in simp (ne, here) refl

node_beside :
    (delay cur n j : ℕ) (s : RawInputState) (q : Queue)
    → (j == n) ≡ false
    → (j == cur) ≡ false
    → (linked delay cur n s q).storage j ≡ q.storage j
node_beside delay cur n j s q ne_n ne_cur = simp (ne_n, ne_cur) refl

different : (bits : List ℕ) (i j : ℕ) → get bits i ≡ true → get bits j ≡ false → (i == j) ≡ false
different bits i j h h' = elim (Bool-cases (i == j)) [
  | inl e ↦ let same = ap (get bits) (let s : i ≡ j = ground arith in s) in absurd (ground arith)
  | inr e ↦ e
]

pub at_same : (f : ℕ → Bool) (i j : ℕ) (b : Bool) → (j == i) ≡ true → f i ≡ b → f j ≡ b
at_same f i j b e h = ap f (let s : j ≡ i = ground arith in s) ∙ h

fresh_on :
    (used : ℕ → Bool) (n j : ℕ) (on_j old here : Bool)
    → used n ≡ false
    → (on_j && not (j == n) && old) ≡ false
    → old ≡ (if j == n then true else used j)
    → ((here || on_j) && not here && used j) ≡ false
fresh_on used n j on_j old here unset fresh bit = elim (Bool-cases (j == n)) [
  | inl e ↦ let clear = at_same used n j false e unset in ground arith
  | inr e ↦ ground arith
]

bits_on :
    (used on_way : ℕ → Bool) (cur n j : ℕ) {after old : Bool}
    → used cur ≡ true
    → on_way n ≡ true
    → after ≡ (on_way j || old)
    → old ≡ (if j == n then true else used j)
    → after ≡ ((j == cur || on_way j) || used j)
bits_on used on_way cur n j {after} {old} on_cur on_n after_eq bit = elim (Bool-cases (j == n)) [
  | inl e ↦ let way = at_same on_way n j true e on_n in ground arith
  | inr e ↦ elim (Bool-cases (j == cur)) [
    | inl e_cur ↦ let in_use = at_same used cur j true e_cur on_cur in ground arith
    | inr e_cur ↦ ground arith
  ]
]

extend :
    (delay cur n : ℕ) (s : RawInputState) (ss : List RawInputState) (q : Queue)
    → IsAvail q
    → cur < 1024
    → n < 1024
    → get q.storage_bitmap cur ≡ true
    → get q.storage_bitmap n ≡ false
    → input_queue_append cur (write cur s delay q) ≡ (some n, linked delay cur n s q)
    → Laid delay n ss (linked delay cur n s q)
    → Laid delay cur (s ∷ ss) q
unfolding lay
extend delay cur n s ss q avail lt lt_n on_cur unset e inner =
    let ne = different q.storage_bitmap cur n on_cur unset in
    let r = linked delay cur n s q in
    let bit : (j : ℕ) → get r.storage_bitmap j ≡ (if j == n then true else get q.storage_bitmap j) =
      λ j. get-set_to q.storage_bitmap n j true (omega (arith, avail.0)) in
    let count = free_below-taken q.storage_bitmap n 1024 (omega (arith, avail.0)) unset in
    let kept_cur : inner.after.storage cur ≡ record { state = s; delay = delay; next = some n } =
      inner.kept cur (bit cur ∙ rw (ne, on_cur) refl) ne ∙ node_at delay cur n s q ne in
    record {
      done = inner.done;
      way = (cur, s) ∷ inner.way;
      last = inner.last;
      after = inner.after;
      runs = ap (λ a. elim a.0 [ none ↦ (none, a.1) | some m ↦ lay delay ss m a.1 ]) e ∙ inner.runs;
      walk =
          steps n (ap (λ v. v.state) kept_cur) (ap (λ v. v.delay) kept_cur)
            (ap (λ v. v.next) kept_cur) inner.walk;
      shows = λ h. ap (λ l. s ∷ l) (inner.shows h);
      enough = λ h.
          inner.enough
            (let room : length ss ≤ free_below r.storage_bitmap 1024 = ground arith in room);
      needs = λ h. let room = inner.needs h in ground arith;
      short = let inner_short = inner.short in omega arith;
      avail = inner.avail;
      fresh = λ j.
          fresh_on (get q.storage_bitmap) n j (on j inner.way inner.last) (get r.storage_bitmap j)
            (j == cur) unset (inner.fresh j) (bit j);
      bits = λ j.
          bits_on (get q.storage_bitmap) (λ k. on k inner.way inner.last) cur n j on_cur
            (Walk-on inner.walk) (inner.bits j) (bit j);
      kept = λ j on_j ne_cur.
          let ne_n = different q.storage_bitmap j n on_j unset in
          inner.kept j (bit j ∙ rw (ne_n, on_j) refl) ne_n
          ∙ node_beside delay cur n j s q ne_n ne_cur;
      no_next = inner.no_next;
      small = λ j h. elim (Bool-cases (j == cur)) [
        | inl e ↦ ground arith
        | inr e ↦ inner.small j (ground arith)
      ];
      same_next = inner.same_next;
      same_head = inner.same_head;
      same_tick = inner.same_tick;
    }

-- One node, which is in use.
bits_of_one :
    (used : ℕ → Bool) (cur : ℕ) → used cur ≡ true → (j : ℕ) → used j ≡ (j == cur || used j)
bits_of_one used cur on_cur j = elim (Bool-cases (j == cur)) [
  | inl e ↦ let same = at_same used cur j true e on_cur in ground arith
  | inr e ↦ ground arith
]

-- Nothing is appended when no node is free.
stopped :
    (delay cur : ℕ) (s : RawInputState) (ss : List RawInputState) (q : Queue)
    → IsAvail q
    → cur < 1024
    → get q.storage_bitmap cur ≡ true
    → (q.storage cur).next ≡ none
    → free_below q.storage_bitmap 1024 ≡ 0
    → Laid delay cur (s ∷ ss) q
unfolding lay
stopped delay cur s ss q avail lt on_cur last full =
    let here : (cur == cur) ≡ true = ground arith in
    record {
      done = false;
      way = [];
      last = cur;
      after = write cur s delay q;
      runs =
          ap (λ a. elim a.0 [ none ↦ (none, a.1) | some m ↦ lay delay ss m a.1 ])
            (append-full cur (write cur s delay q) avail full);
      walk = ends;
      shows = λ h. absurd (ground arith);
      enough = λ h. absurd (omega arith);
      needs = λ h. absurd (ground arith);
      short = omega arith;
      avail = avail;
      fresh = λ j. ground arith;
      bits = bits_of_one (get q.storage_bitmap) cur on_cur;
      kept = λ j _ ne. simp ne refl;
      no_next = simp here last;
      small = λ j h. ground arith;
      same_next = refl;
      same_head = refl;
      same_tick = refl;
    }

pub lay_lem :
    (delay cur : ℕ) (ss : List RawInputState) (q : Queue)
    → IsAvail q
    → cur < 1024
    → get q.storage_bitmap cur ≡ true
    → (q.storage cur).next ≡ none
    → Laid delay cur ss q
unfolding lay
lay_lem delay cur [] q avail lt on_cur last = record {
  done = true;
  way = [];
  last = cur;
  after = q;
  runs = refl;
  walk = ends;
  shows = λ _. refl;
  enough = λ _. refl;
  needs = λ _. omega arith;
  short = omega arith;
  avail = avail;
  fresh = λ j. ground arith;
  bits = bits_of_one (get q.storage_bitmap) cur on_cur;
  kept = λ j _ _. refl;
  no_next = last;
  small = λ j h. ground arith;
  same_next = refl;
  same_head = refl;
  same_tick = refl;
}
lay_lem delay cur (s ∷ ss) q avail lt on_cur last =
    elim (Bool-cases (ltb 0 (free_below q.storage_bitmap 1024))) [
      | inl some_free ↦
          let (n, e, lt_n, unset, avail_n) =
            append_lem cur (write cur s delay q) avail
              (ltb→lt 0 (free_below q.storage_bitmap 1024) some_free) in
          let r = linked delay cur n s q in
          let on_n : get r.storage_bitmap n ≡ true =
            get-set_to q.storage_bitmap n n true (omega (arith, avail.0)) ∙ ground arith in
          extend delay cur n s ss q avail lt lt_n on_cur unset e
            (lay_lem delay n ss r avail_n lt_n on_n (next_none delay cur n s q))
      | inr full ↦ stopped delay cur s ss q avail lt on_cur last (ground arith)
    ]
