-- ===== src/Malloc/Tests.antt =====
-- The allocator (src/malloc.cpp) at concrete inputs.
use passinglink.Common.{ℕ, some, [], ◌∷◌, ◌≡◌, refl}
use passinglink.Containers.Bitmap.{get, set_to, find_unset}
use passinglink.Malloc.{Allocator, alloc, malloc, free}
use passinglink.Malloc.Refines.{is_live, Allocates, malloc-Allocates, free-malloc}

-- Blocks 0, 1 and 3 are given out.
abbrev some_used : Allocator
some_used = record { bucket_264 = 0b1011 ∷ 0 ∷ 0 ∷ 0 ∷ 0 ∷ []; bucket_528 = 0 ∷ []; errno = 0 }

abbrev base : ℕ
base = 0x20000000

given : (malloc base 100 some_used).0 ≡ some 0x20000210
unfolding malloc alloc find_unset get set_to
given = refl

malloc-Allocates_example : Allocates base 100 some_used 3 (malloc base 100 some_used)
malloc-Allocates_example = malloc-Allocates base 100 3 some_used (refl, refl)

free-malloc_example :
    is_live (free base 0x20000210 (malloc base 100 some_used).1) 3 ≡ is_live some_used 3
free-malloc_example = free-malloc base 100 0x20000210 3 some_used (refl, refl) given
