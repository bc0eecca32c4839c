-- ===== src/Ps4/Auth/Total.antt =====
-- `set_nonce` (src/output/usb/ps4/auth.cpp) on parts that stay within the buffer of the nonce.
use passinglink.Common.{
  length-write_at, ℕ, ◌+◌, ◌*◌, ◌≤◌, Bool, Option, none, some, List, ◌≡◌, ◌∙◌, arith, length,
}
use passinglink.Ps4.Auth.{Ps4Key, Auth, AuthState, set_nonce, store_part, cas}

-- A result that is no fault, with the buffer of the nonce at its full size.
abbrev pub Sized : Option (Bool × Auth) → Type 0
Sized none = ⊥
Sized (some r) = length r.1.nonce ≡ 256

store_part-Sized :
    (current : AuthState) (id part : ℕ) (bytes : List ℕ) (s : Auth)
    → length s.nonce ≡ 256
    → part * 56 + length bytes ≤ 256
    → Sized (some (store_part current id part bytes s))
unfolding store_part cas
store_part-Sized current id part bytes s n h =
    let w = length-write_at s.nonce bytes (part * 56) (omega arith) ∙ n in ground (arith, w)

pub set_nonce-Sized :
    (key : Option Ps4Key) (id part : ℕ) (bytes : List ℕ) (s : Auth)
    → length s.nonce ≡ 256
    → (part ≤ 4 → part * 56 + length bytes ≤ 256)
    → Sized (set_nonce key id part bytes s)
unfolding set_nonce
set_nonce-Sized none id part bytes s n h = n
set_nonce-Sized (some key) id part bytes s n h =
    ground (arith, store_part-Sized s.auth_state id part bytes s n)
