-- ===== src/Malloc.antt =====
-- src/malloc.cpp: the allocator that replaces the one of the C library, with its two buckets. Its memory
-- is not modelled, the addresses are: `base` is that of `allocator`, on a machine whose int has four bytes.
-- `none` is a null pointer.
pub mod Refines
mod Tests
use passinglink.Common.{
  ℕ, zero, suc, ◌+◌, ◌-◌, ◌*◌, ◌/◌, ◌<◌, ◌≤◌, Bool, true, false, ◌&&◌, Option, none, some, List,
  ltb, leb, ◌==◌, is_some, if◌then◌else◌,
}
use passinglink.Containers.Bitmap.{set_to, find_unset}

-- `errno` and the bits of `used_` in the two buckets.
pub record Allocator : Type 0 where
  pub bucket_264 : List ℕ
  pub bucket_528 : List ℕ
  pub errno : ℕ

abbrev pub enomem : ℕ
enomem = 12

-- `sizeof` of the first bucket: 35 blocks of 264 bytes, five bytes for the bits, and three of padding.
abbrev pub size_of_bucket_264 : ℕ
size_of_bucket_264 = 9248

-- One block of 528 bytes, a byte for its bit, and the padding.
abbrev pub size_of_bucket_528 : ℕ
size_of_bucket_528 = 532

-- `Bucket::alloc`, with the size and the number of the blocks and the address of the first.
unfoldable pub alloc : ℕ → ℕ → ℕ → List ℕ → Option ℕ × List ℕ
alloc size count blocks used = elim (find_unset used count 0) [
  | none ↦ (none, used)
  | some idx ↦ (some (blocks + idx * size), set_to used idx true)
]

-- `Bucket::free`
unfoldable pub free_in : ℕ → ℕ → ℕ → List ℕ → List ℕ
free_in size blocks ptr used = set_to used ((ptr - blocks) / size) false

abbrev pub errno_after : Option ℕ → ℕ → ℕ
errno_after ptr errno = if is_some ptr then errno else enomem

-- `Allocator::malloc`
unfoldable pub malloc : ℕ → ℕ → Allocator → Option ℕ × Allocator
malloc base size s =
    if leb size 264
    then (let (ptr, used) = alloc 264 35 base s.bucket_264 in
        (ptr, record s { bucket_264 = used; errno = errno_after ptr s.errno }))
    else if leb size 528
    then (let (ptr, used) = alloc 528 1 (base + size_of_bucket_264) s.bucket_528 in
        (ptr, record s { bucket_528 = used; errno = errno_after ptr s.errno }))
    else (none, record s { errno = enomem })

-- `Allocator::free`
unfoldable pub free : ℕ → ℕ → Allocator → Allocator
free base ptr s =
    let next = base + size_of_bucket_264 in
    if leb base ptr && ltb ptr next
    then record s { bucket_264 = free_in 264 base ptr s.bucket_264 }
    else if leb next ptr && ltb ptr (next + size_of_bucket_528)
    then record s { bucket_528 = free_in 528 next ptr s.bucket_528 }
    else s
