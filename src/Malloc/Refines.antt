-- ===== src/Malloc/Refines.antt =====
-- The allocator of src/malloc.cpp as a set of blocks: 0 to 34 are those of 264 bytes, 35 is the one of 528.
use passinglink.Common.{
  ℕ, ◌+◌, ◌-◌, ◌*◌, ◌/◌, ◌<◌, ◌≤◌, Bool, true, false, not, ◌&&◌, ◌||◌, Option, none, some, List,
  ltb, leb, ◌==◌, if◌then◌else◌, length, ◌≡◌, ◌≢◌, ◌⊎◌, inl, inr, refl, ap, sym, subst, ◌∙◌, arith,
  ltb→lt, lt→ltb, Bool-cases, Option-cases,
}
use passinglink.Containers.Bitmap.{
  get, set_to, find_unset, find_unset-found, find_unset-none, get-set_to, length-set_to,
}
use passinglink.Malloc.{Allocator, size_of_bucket_264, alloc, free_in, malloc, free}

-- Whether a block is given out.
unfoldable pub is_live : Allocator → ℕ → Bool
is_live s i = if ltb i 35 then get s.bucket_264 i else if i == 35 then get s.bucket_528 0 else false

-- Where a block is, and how long.
unfoldable pub block_of : ℕ → ℕ → ℕ
block_of base i = if ltb i 35 then base + i * 264 else base + size_of_bucket_264

abbrev pub usable : ℕ → ℕ
usable i = if ltb i 35 then 264 else 528

-- Whether `malloc` looks at a block for a size.
abbrev pub serves : ℕ → ℕ → Bool
serves size i = if leb size 264 then ltb i 35 else leb size 528 && i == 35

abbrev pub IsSized : Allocator → Type 0
IsSized s = (length s.bucket_264 ≡ 5) × (length s.bucket_528 ≡ 1)

-- What a request for the size gives: block k that was free and is given out, or nothing, when none is free; block
-- i is as it was if it is not k.
abbrev pub Allocates : ℕ → ℕ → Allocator → ℕ → Option ℕ × Allocator → Type 0
Allocates base size s i (none, t) =
    ((is_live s i || not (serves size i)) ≡ true) × (is_live t i ≡ is_live s i)
Allocates base size s i (some ptr, t) =
    (k : ℕ) × (ptr ≡ block_of base k)
    × (serves size k ≡ true)
    × (is_live s k ≡ false)
    × (is_live t i ≡ (if i == k then true else is_live s i))

-- One bucket: nothing is free, or the first block that is free is given out.
alloc-cases :
    (size count blocks : ℕ) (used : List ℕ)
    → ((alloc size count blocks used ≡ (none, used)) × ((j : ℕ) → j < count → get used j ≡ true))
      ⊎ ((k : ℕ) × (alloc size count blocks used ≡ (some (blocks + k * size), set_to used k true))
          × (k < count)
          × (get used k ≡ false))
unfolding alloc
alloc-cases size count blocks used = elim (Option-cases (find_unset used count 0)) [
  | inl e ↦
      inl (rw (e, alloc) refl, λ j lt. find_unset-none used count 0 j e (omega arith) (omega arith))
  | inr (k, e) ↦
      let (_, high, unset, _) = find_unset-found used count 0 k e in
      inr (k, rw (e, alloc) refl, omega arith, unset)
]

malloc_264 :
    (base size i : ℕ) (s : Allocator)
    → leb size 264 ≡ true
    → IsSized s
    → Allocates base size s i (malloc base size s)
unfolding malloc is_live block_of
malloc_264 base size i s small sized = elim (alloc-cases 264 35 base s.bucket_264) [
  | inl (e, full) ↦ rw (small, e) (none_left (λ lt. full i lt), refl)
  | inr (k, e, lt, unset) ↦
      let below = lt→ltb k 35 lt in
      let written = get-set_to s.bucket_264 k i true (omega arith) in
      rw (small, e) (k, rw below refl, ground arith, rw below unset, ground arith)
]
  where
    none_left : (i < 35 → get s.bucket_264 i ≡ true) → (is_live s i || not (serves size i)) ≡ true
    none_left full = elim (Bool-cases (ltb i 35)) [
      | inl l ↦ let used = full (ltb→lt i 35 l) in ground arith
      | inr l ↦ ground arith
    ]

malloc_528 :
    (base size i : ℕ) (s : Allocator)
    → leb size 264 ≡ false
    → leb size 528 ≡ true
    → IsSized s
    → Allocates base size s i (malloc base size s)
unfolding malloc is_live block_of
malloc_528 base size i s large small sized =
    elim (alloc-cases 528 1 (base + size_of_bucket_264) s.bucket_528) [
      | inl (e, full) ↦ let used = full 0 (omega arith) in rw (large, small, e) (ground arith, refl)
      | inr (k, e, lt, unset) ↦
          let first : k ≡ 0 = omega arith in
          let written = get-set_to s.bucket_528 0 0 true (omega arith) in
          rw (large, small, e, first)
            (
              35,
              omega arith,
              ground arith,
              subst (λ j. get s.bucket_528 j ≡ false) first unset,
              ground arith,
            )
    ]

-- With five and one bytes of bits, a request gives a block that was free and is long enough, and no other block changes; or it gives
-- nothing, changes no block, and every block that serves the size is given out.
pub malloc-Allocates :
    (base size i : ℕ) (s : Allocator) → IsSized s → Allocates base size s i (malloc base size s)
unfolding malloc is_live
malloc-Allocates base size i s sized = elim (Bool-cases (leb size 264)) [
  | inl small ↦ malloc_264 base size i s small sized
  | inr large ↦ elim (Bool-cases (leb size 528)) [
    | inl small ↦ malloc_528 base size i s large small sized
    | inr huge ↦ rw (large, huge) (ground arith, refl)
  ]
]

free_264 :
    (base k : ℕ) (s : Allocator)
    → k < 35
    → free base (base + k * 264) s ≡ record s { bucket_264 = set_to s.bucket_264 k false }
unfolding free free_in
free_264 base k s lt =
    let here : (base + k * 264 - base) / 264 ≡ k = omega arith in
    let low : leb base (base + k * 264) ≡ true = ground arith in
    let high : ltb (base + k * 264) (base + size_of_bucket_264) ≡ true = ground arith in
    rw (low, high, here) refl

free_528 :
    (base : ℕ) (s : Allocator)
    → free base (base + size_of_bucket_264) s
      ≡ record s { bucket_528 = set_to s.bucket_528 0 false }
unfolding free free_in
free_528 base s =
    let next = base + size_of_bucket_264 in
    let here : (next - next) / 528 ≡ 0 = omega arith in
    let low : leb base next ≡ true = ground arith in
    let behind : ltb next next ≡ false = ground arith in
    let low_next : leb next next ≡ true = ground arith in
    let high : ltb next (next + 532) ≡ true = ground arith in
    rw (low, behind, low_next, high, here) refl

-- Freeing a block takes it back, and no other block changes.
pub free_lem :
    (base k i : ℕ) (s : Allocator)
    → IsSized s
    → k < 36
    → is_live (free base (block_of base k) s) i ≡ (if i == k then false else is_live s i)
unfolding is_live block_of
free_lem base k i s sized lt = elim (Bool-cases (ltb k 35)) [
  | inl e ↦
      let below = ltb→lt k 35 e in
      let written = get-set_to s.bucket_264 k i false (omega arith) in
      rw (e, free_264 base k s below) (ground arith)
  | inr e ↦
      let written = get-set_to s.bucket_528 0 0 false (omega arith) in
      rw (e, free_528 base s) (ground arith)
]

-- Two blocks never overlap.
blocks_apart :
    (base i k : ℕ)
    → i < 36
    → k < 36
    → i ≢ k
    → (block_of base i + usable i ≤ block_of base k)
      ⊎ (block_of base k + usable k ≤ block_of base i)
unfolding block_of
blocks_apart base i k lt lt_k ne = ground arith

apart :
    (base size i ptr : ℕ) (s : Allocator) (r : Option ℕ × Allocator)
    → Allocates base size s i r
    → is_live s i ≡ true
    → r.0 ≡ some ptr
    → (ptr + size ≤ block_of base i) ⊎ (block_of base i + usable i ≤ ptr)
unfolding is_live
apart base size i ptr s (none, t) h live e = absurd (ground arith)
apart base size i ptr s (some p, t) (k, place, fits, unset, _) live e =
    let others =
      blocks_apart base k i (ground arith) (ground arith)
        (λ same. let no = differ same in ground arith) in
    let long : size ≤ usable k = ground arith in let same : p ≡ ptr = ground arith in ground arith
  where
    differ : k ≡ i → Bool.true ≡ false
    differ same = sym live ∙ sym (ap (is_live s) same) ∙ unset

-- With five and one bytes of bits, the memory that a request gives neither reaches into a block that is
-- given out already nor begins within one.
pub malloc-apart :
    (base size i ptr : ℕ) (s : Allocator)
    → IsSized s
    → is_live s i ≡ true
    → (malloc base size s).0 ≡ some ptr
    → (ptr + size ≤ block_of base i) ⊎ (block_of base i + usable i ≤ ptr)
malloc-apart base size i ptr s sized live e =
    apart base size i ptr s (malloc base size s) (malloc-Allocates base size i s sized) live e

alloc-sized :
    (size count blocks : ℕ) (used : List ℕ) → length (alloc size count blocks used).1 ≡ length used
alloc-sized size count blocks used = elim (alloc-cases size count blocks used) [
  | inl (e, _) ↦ rw e refl
  | inr (k, e, _, _) ↦ rw e (length-set_to used k true)
]

malloc-IsSized : (base size : ℕ) (s : Allocator) → IsSized s → IsSized (malloc base size s).1
unfolding malloc
malloc-IsSized base size s sized =
    let small = alloc-sized 264 35 base s.bucket_264 in
    let large = alloc-sized 528 1 (base + size_of_bucket_264) s.bucket_528 in ground arith

freed :
    (base size ptr i : ℕ) (s : Allocator) (r : Option ℕ × Allocator)
    → IsSized r.1
    → Allocates base size s i r
    → r.0 ≡ some ptr
    → is_live (free base ptr r.1) i ≡ is_live s i
freed base size ptr i s (none, t) sized h e = absurd (ground arith)
freed base size ptr i s (some p, t) sized (k, place, fits, unset, others) e =
    let same : ptr ≡ block_of base k = (let here : ptr ≡ p = ground arith in here) ∙ place in
    rw (same, free_lem base k i t sized (ground arith), others) (back (Bool-cases (i == k)))
  where
    back :
        ((i == k) ≡ true) ⊎ ((i == k) ≡ false)
        → (if i == k then false else if i == k then true else is_live s i) ≡ is_live s i
    back (inl e) = let here : i ≡ k = ground arith in rw (here, unset) (ground arith)
    back (inr e) = rw e refl

-- With five and one bytes of bits, freeing the memory that a request gave brings back the blocks that were given out before.
pub free-malloc :
    (base size ptr i : ℕ) (s : Allocator)
    → IsSized s
    → (malloc base size s).0 ≡ some ptr
    → is_live (free base ptr (malloc base size s).1) i ≡ is_live s i
free-malloc base size ptr i s sized e =
    freed base size ptr i s (malloc base size s) (malloc-IsSized base size s sized)
      (malloc-Allocates base size i s sized) e
