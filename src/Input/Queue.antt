-- ===== src/Input/Queue.antt =====
-- src/input/queue.h and queue.cpp: inputs that are played instead of the pins'. A pointer into
-- `queue_storage` is its index, `none` a null pointer.
pub mod Avail
use passinglink.Common.{
  ℕ, zero, suc, ◌+◌, ◌-◌, Bool, true, false, Option, none, some, List, [], ◌∷◌, ltb, ◌==◌, is_some,
  if◌then◌else◌,
}
use passinglink.Input.Types.{RawInputState}
use passinglink.Containers.Bitmap.{set_to, find_unset}

pub record InputQueue : Type 0 where
  pub state : RawInputState
  pub delay : ℕ
  pub next : Option ℕ

-- The statics of queue.cpp.
pub record Queue : Type 0 where
  pub storage_last_avail : ℕ
  pub storage_bitmap : List ℕ
  pub storage : ℕ → InputQueue
  pub input : RawInputState
  pub queue_next : Option ℕ
  pub next_free_head : Option ℕ
  pub next_tick : ℕ

abbrev pub storage_size : ℕ
storage_size = 1024

-- A write to an entry of `queue_storage`.
abbrev pub put : ℕ → InputQueue → (ℕ → InputQueue) → ℕ → InputQueue
put i node storage j = if j == i then node else storage j

abbrev pub link : ℕ → Option ℕ → Queue → Queue
link i next q = record q { storage = put i (record (q.storage i) { next = next }) q.storage }

unfoldable pub input_queue_alloc : Queue → Option ℕ × Queue
input_queue_alloc q =
    elim (find_unset q.storage_bitmap (storage_size - q.storage_last_avail) q.storage_last_avail) [
      | none ↦ (none, q)
      | some i ↦ (
        some i,
        link i none (record q {
          storage_bitmap = set_to q.storage_bitmap i true;
          storage_last_avail = i + 1;
        }),
      )
    ]

unfoldable pub input_queue_append : ℕ → Queue → Option ℕ × Queue
input_queue_append head q =
    let (tail, r) = input_queue_alloc q in
    elim tail [ none ↦ (none, r) | some t ↦ (some t, link t none (link head (some t) r)) ]

-- One turn of the loop of `input_queue_free`.
abbrev pub release : ℕ → Queue → Queue
release p q = record q {
  storage_bitmap = set_to q.storage_bitmap p false;
  storage_last_avail = if ltb p q.storage_last_avail then p else q.storage_last_avail;
}

-- `input_queue_free` of at most `fuel` nodes; `none` when there are more.
unfoldable pub free_nodes : ℕ → Option ℕ → Queue → Option Queue
free_nodes fuel none q = some q
free_nodes zero (some p) q = none
free_nodes (suc fuel) (some p) q = free_nodes fuel (q.storage p).next (release p q)

-- As many turns as there are nodes.
abbrev pub input_queue_free : Option ℕ → Queue → Option Queue
input_queue_free p q = free_nodes storage_size p q

-- The tick is that of `k_uptime_ticks`. The outer `none` is a list of nodes without end.
unfoldable pub input_queue_get_state : ℕ → Queue → Option (Option RawInputState × Queue)
input_queue_get_state now q = elim q.queue_next [
  | none ↦ some (none, q)
  | some p ↦
      let node = q.storage p in
      let r = record q {
        input = node.state;
        next_tick = q.next_tick + node.delay;
        queue_next = node.next;
      } in
      if ltb q.next_tick now
      then (elim node.next [
        | none ↦ elim (input_queue_free r.next_free_head r) [
          | none ↦ none
          | some freed ↦ some (some freed.input, record freed { next_free_head = none })
        ]
        | some _ ↦ some (some r.input, r)
      ])
      else some (some q.input, q)
]

unfoldable pub input_queue_is_active : Queue → Bool
input_queue_is_active q = is_some q.queue_next

unfoldable pub input_queue_set_active : ℕ → Option ℕ → Bool → Queue → Option Queue
input_queue_set_active now queue consume q = elim (input_queue_free q.next_free_head q) [
  | none ↦ none
  | some freed ↦ some (record freed {
    next_free_head = if consume then queue else none;
    queue_next = queue;
    next_tick = now;
  })
]
