-- ===== src/Input/Queue/Avail.antt =====
-- The bitmap of src/input/queue.cpp and its hint: what allocating, appending and freeing do to them.
use passinglink.Common.{
  ℕ, zero, suc, ◌+◌, ◌-◌, ◌/◌, ◌<◌, ◌≤◌, Bool, true, false, not, ◌&&◌, Option, none, some, List,
  ltb, ◌==◌, if◌then◌else◌, length, ◌≡◌, inl, inr, refl, ap, ◌∙◌, arith, ltb→lt, Bool-cases,
  Option-cases,
}
use passinglink.Containers.Bitmap.{
  get, set_to, find_unset, find_unset-found, find_unset-none, get-set_to, length-set_to,
}
use passinglink.Input.Queue.{Queue, link, release, input_queue_alloc, input_queue_append}

-- There is a bit for each node, and every node before the hint is in use.
abbrev pub IsAvail : Queue → Type 0
IsAvail q =
    (length q.storage_bitmap ≡ 128)
    × (q.storage_last_avail ≤ 1024)
    × ((j : ℕ) → (ltb j q.storage_last_avail && not (get q.storage_bitmap j)) ≡ false)

used_before :
    (q : Queue) (j : ℕ) → IsAvail q → j < q.storage_last_avail → get q.storage_bitmap j ≡ true
used_before q j (_, _, used) lt = let fact = used j in ground arith

-- How many of the first n nodes are not in use.
unfoldable pub free_below : List ℕ → ℕ → ℕ
free_below bits zero = 0
free_below bits (suc n) = free_below bits n + (if get bits n then 0 else 1)

free_below-none :
    (bits : List ℕ) (n : ℕ) → ((j : ℕ) → j < n → get bits j ≡ true) → free_below bits n ≡ 0
unfolding free_below
free_below-none bits zero all = refl
free_below-none bits (suc n) all =
    let set_n = all n (omega arith) in
    let before = free_below-none bits n (λ j lt. all j (omega arith)) in ground arith

pub free_below-taken :
    (bits : List ℕ) (i n : ℕ)
    → i / 8 < length bits
    → get bits i ≡ false
    → free_below (set_to bits i true) n + (if ltb i n then 1 else 0) ≡ free_below bits n
unfolding free_below
free_below-taken bits i zero room unset = ground arith
free_below-taken bits i (suc n) room unset =
    let before = free_below-taken bits i n room unset in
    let here = get-set_to bits i n true room in
    elim (Bool-cases (n == i)) [
      | inl e ↦
          let same : get bits n ≡ false =
            ap (get bits) (let s : n ≡ i = ground arith in s) ∙ unset in
          ground arith
      | inr e ↦ ground arith
    ]

-- The state after node i is given out.
abbrev pub taken : ℕ → Queue → Queue
taken i q =
    link i none
      (record q { storage_bitmap = set_to q.storage_bitmap i true; storage_last_avail = i + 1 })

not_below : {k : ℕ} {bit : Bool} (j : ℕ) → (j < k → bit ≡ true) → (ltb j k && not bit) ≡ false
not_below {k} {bit} j h = elim (Bool-cases (ltb j k)) [
  | inl e ↦ let in_use = h (ltb→lt j k e) in ground arith
  | inr e ↦ ground arith
]

-- Up to node i all are in use, once it is.
used_to :
    (q : Queue) (i j : ℕ)
    → IsAvail q
    → ((k : ℕ) → q.storage_last_avail ≤ k → k < i → get q.storage_bitmap k ≡ true)
    → j < i + 1
    → (if j == i then true else get q.storage_bitmap j) ≡ true
used_to q i j avail before lt = elim (Bool-cases (j == i)) [
  | inl e ↦ rw e refl
  | inr e ↦ elim (Bool-cases (ltb j q.storage_last_avail)) [
    | inl b ↦ rw e (used_before q j avail (ltb→lt j q.storage_last_avail b))
    | inr b ↦ rw e (before j (ground arith) (ground arith))
  ]
]

-- While a node is free, one is given out, and the hint stays true.
pub alloc_lem :
    (q : Queue)
    → IsAvail q
    → 0 < free_below q.storage_bitmap 1024
    → (i : ℕ) × (input_queue_alloc q ≡ (some i, taken i q))
      × (i < 1024)
      × (get q.storage_bitmap i ≡ false)
      × IsAvail (taken i q)
unfolding input_queue_alloc
alloc_lem q (size, hint, used) some_free =
    elim (Option-cases
      (find_unset q.storage_bitmap (1024 - q.storage_last_avail) q.storage_last_avail)) [
        | inl e ↦
            let all = free_below-none q.storage_bitmap 1024 (λ j lt.
              elim (Bool-cases (ltb j q.storage_last_avail)) [
                | inl b ↦ used_before q j (size, hint, used) (ltb→lt j q.storage_last_avail b)
                | inr b ↦
                    find_unset-none q.storage_bitmap (1024 - q.storage_last_avail)
                      q.storage_last_avail j e (ground arith) (ground arith)
              ]) in
            absurd (omega arith)
        | inr (i, e) ↦
            let (low, high, unset, before) =
              find_unset-found q.storage_bitmap (1024 - q.storage_last_avail) q.storage_last_avail i
                e in
            (
              i,
              rw (e, input_queue_alloc) refl,
              omega arith,
              unset,
              (
                length-set_to q.storage_bitmap i true ∙ size,
                omega arith,
                λ j. not_below j (λ lt.
                    rw (get-set_to q.storage_bitmap i j true (omega arith))
                      (used_to q i j (size, hint, used) before lt)),
              ),
            )
      ]

pub append_lem :
    (cur : ℕ) (q : Queue)
    → IsAvail q
    → 0 < free_below q.storage_bitmap 1024
    → (i : ℕ) × (input_queue_append cur q ≡ (some i, link i none (link cur (some i) (taken i q))))
      × (i < 1024)
      × (get q.storage_bitmap i ≡ false)
      × IsAvail (taken i q)
unfolding input_queue_append
append_lem cur q avail some_free =
    let (i, e, lt, unset, next) = alloc_lem q avail some_free in
    let linked : Option ℕ × Queue → Option ℕ × Queue = λ a. elim a.0 [
      | none ↦ (none, a.1)
      | some t ↦ (some t, link t none (link cur (some t) a.1))
    ] in
    (i, ap linked e, lt, unset, next)

pub release-IsAvail : (p : ℕ) (q : Queue) → p < 1024 → IsAvail q → IsAvail (release p q)
release-IsAvail p q lt (size, hint, used) = (
  length-set_to q.storage_bitmap p false ∙ size,
  ground arith,
  λ j. rw (get-set_to q.storage_bitmap p j false (omega arith)) (let old = used j in ground arith),
)

-- While none is free, none is given out, and nothing changes.
pub alloc-full :
    (q : Queue) → IsAvail q → free_below q.storage_bitmap 1024 ≡ 0 → input_queue_alloc q ≡ (none, q)
unfolding input_queue_alloc
alloc-full q (size, hint, used) full =
    elim (Option-cases
      (find_unset q.storage_bitmap (1024 - q.storage_last_avail) q.storage_last_avail)) [
        | inl e ↦ rw (e, input_queue_alloc) refl
        | inr (i, e) ↦
            let (low, high, unset, before) =
              find_unset-found q.storage_bitmap (1024 - q.storage_last_avail) q.storage_last_avail i
                e in
            let count = free_below-taken q.storage_bitmap i 1024 (omega arith) unset in
            absurd (ground arith)
      ]

pub append-full :
    (cur : ℕ) (q : Queue)
    → IsAvail q
    → free_below q.storage_bitmap 1024 ≡ 0
    → input_queue_append cur q ≡ (none, q)
unfolding input_queue_append
append-full cur q avail full =
    let linked : Option ℕ × Queue → Option ℕ × Queue = λ a. elim a.0 [
      | none ↦ (none, a.1)
      | some t ↦ (some t, link t none (link cur (some t) a.1))
    ] in
    ap linked (alloc-full q avail full)
