-- ===== src/Ps4/Auth.antt =====
-- src/output/usb/ps4/auth.h and auth.cpp: the host sends a nonce in five parts, a work item signs
-- it on another thread, and the host reads the signature back in nineteen chunks.
-- `none` stands for a fault of the C++ code: a PANIC, or a write outside of `nonce`.
pub mod Copy
pub mod Machine
pub mod Nonce
pub mod Chunks
pub mod Total
mod Tests
use passinglink.Common.{
  ℕ, suc, ◌+◌, ◌-◌, ◌*◌, ◌%◌, Bool, true, false, not, ◌&&◌, ◌||◌, Option, none, some, List, [], ◌∷◌,
  ◌++◌, ltb, leb, ◌==◌, if◌then◌else◌, length, take, drop, replicate, write_at,
}

pub data AuthStateType : Type 0 where
  receiving_nonce waiting_to_sign signing sending_signature : AuthStateType

pub record AuthState : Type 0 where
  pub type : AuthStateType
  pub nonce_id : ℕ  -- uint8_t
  pub next_part : ℕ  -- uint8_t
  pub padding : ℕ  -- uint8_t

-- What `provisioning_data_get()->ps4_key` points to. The two public numbers of the RSA context are
-- kept as the 256 bytes that `mbedtls_mpi_write_binary` makes of them, `none` where it fails.
pub record Ps4Key : Type 0 where
  pub serial : List ℕ
  pub rsa_n : Option (List ℕ)
  pub rsa_e : Option (List ℕ)
  pub signature : List ℕ

-- The statics of auth.cpp, with the work item: `queued` while `k_work_sign` waits on the main queue,
-- `signing` the local `new_state` of `sign_nonce` between its two exchanges.
pub record Auth : Type 0 where
  pub auth_state : AuthState
  pub nonce : List ℕ
  pub nonce_signature : List ℕ
  pub queued : Bool
  pub in_progress : Option AuthState

abbrev pub same_type : AuthStateType → AuthStateType → Bool
same_type receiving_nonce receiving_nonce = true
same_type waiting_to_sign waiting_to_sign = true
same_type signing signing = true
same_type sending_signature sending_signature = true
same_type _ _ = false

-- `atomic_u32<AuthState>::cas` compares the four bytes, and stores where they agree.
abbrev pub same_state : AuthState → AuthState → Bool
same_state a b =
    same_type a.type b.type
    && (a.nonce_id == b.nonce_id)
    && (a.next_part == b.next_part)
    && (a.padding == b.padding)

unfoldable pub cas : AuthState → AuthState → Auth → Bool × Auth
cas expected new_value s =
    if same_state s.auth_state expected
    then (true, record s { auth_state = new_value })
    else (false, s)

abbrev pub part_size : ℕ
part_size = 56

-- `set_nonce` from the state that it loaded on: the copy, the new state, the exchange, and the
-- submission of the work item after the last part.
abbrev pub next_state : AuthState → ℕ → ℕ → AuthState
next_state s id part =
    if part == 4
    then record s { type = waiting_to_sign }
    else if part == 0
    then record s { nonce_id = id }
    else record s { next_part = (s.next_part + 1) % 256 }

store_part : AuthState → ℕ → ℕ → List ℕ → Auth → Bool × Auth
unfolding cas
store_part current id part bytes s =
    let copied = record s { nonce = write_at s.nonce (part * part_size) bytes } in
    let (exchanged, s') = cas current (next_state current id part) copied in
    if exchanged then (true, record s' { queued = s'.queued || part == 4 }) else (false, s')

-- `key` is `none` where the provisioning data or its PS4 key is missing.
unfoldable pub set_nonce : Option Ps4Key → ℕ → ℕ → List ℕ → Auth → Option (Bool × Auth)
unfolding store_part
set_nonce none id part bytes s = some (false, s)
set_nonce (some key) id part bytes s =
    if not (same_type s.auth_state.type receiving_nonce)
    then some (false, s)
    else if ltb 4 part
    then some (false, s)
    else if not (part == 0) && not (id == s.auth_state.nonce_id)
    then some (false, s)
    else if ltb (length s.nonce) (part * part_size + length bytes)
    then none
    else some (store_part s.auth_state id part bytes s)

-- `sign_nonce` up to its first exchange. The work queue runs it once for each submission.
unfoldable pub sign_nonce_begin : Auth → Auth
unfolding cas
sign_nonce_begin s =
    let current = s.auth_state in
    let new_state = record current { type = signing } in
    let started = record s { queued = false } in
    if not s.queued
    then s
    else if not (same_type current.type waiting_to_sign)
    then started
    else let (exchanged, s') = cas current new_state started in
      if exchanged then record s' { in_progress = some new_state } else s'

-- The rest of `sign_nonce`. `sign` hashes the nonce with `mbedtls_sha256_ret` and signs the hash with
-- `mbedtls_rsa_rsassa_pss_sign`; `none` where one of them fails.
sign_nonce_finish : (List ℕ → Option (List ℕ)) → AuthState → Auth → Auth
unfolding cas
sign_nonce_finish sign current s =
    let idle = record s { in_progress = none } in
    elim (sign s.nonce) [
      | none ↦ idle
      | some signature ↦
          (cas current (record current { type = sending_signature; next_part = 0 })
            (record idle { nonce_signature = signature })).1
    ]

unfoldable pub sign_nonce_end : (List ℕ → Option (List ℕ)) → Auth → Auth
unfolding sign_nonce_finish
sign_nonce_end sign s = elim s.in_progress [
  | none ↦ s
  | some current ↦ sign_nonce_finish sign current s
]

-- One entry of the table in `copy_signature`: `arg` as the bytes that `function` reads, `none` where
-- `copy_mpi` panics.
pub record SignaturePart : Type 0 where
  pub part_length : ℕ
  pub bytes : Option (List ℕ)

-- `copy_generic` into a buffer of `size` bytes: the bytes that it copies.
unfoldable pub copy_generic : ℕ → ℕ → List ℕ → ℕ → List ℕ
copy_generic size offset arg expected_size =
    let bytes = expected_size - offset in
    take (if ltb size bytes then size else bytes) (drop offset arg)

-- The loop of `copy_signature`, with the size that is left of the buffer. The result is what it wrote.
unfoldable pub copy_parts : List SignaturePart → ℕ → ℕ → Option (List ℕ)
copy_parts [] size offset = if size == 0 then some [] else none
copy_parts (p ∷ ps) size offset = elim (leb p.part_length offset) [
  | true ↦ copy_parts ps size (offset - p.part_length)
  | false ↦ elim p.bytes [
    | none ↦ none
    | some arg ↦
        let copied = copy_generic size offset arg p.part_length in
        elim (size - length copied == 0) [
          | true ↦ some copied
          | false ↦ elim (copy_parts ps (size - length copied) 0) [
            | none ↦ none
            | some rest ↦ some (copied ++ rest)
          ]
        ]
  ]
]

abbrev pub signature_parts : List ℕ → Ps4Key → List SignaturePart
signature_parts nonce_signature key =
    record { part_length = 256; bytes = some nonce_signature }
    ∷ record { part_length = 16; bytes = some key.serial }
    ∷ record { part_length = 256; bytes = key.rsa_n }
    ∷ record { part_length = 256; bytes = key.rsa_e }
    ∷ record { part_length = 256; bytes = some key.signature }
    ∷ record { part_length = 24; bytes = some (replicate 24 0) }
    ∷ []

unfoldable pub copy_signature : List ℕ → Ps4Key → ℕ → ℕ → Option (List ℕ)
unfolding copy_parts copy_generic
copy_signature nonce_signature key size offset =
    copy_parts (signature_parts nonce_signature key) size offset

abbrev pub after_chunk : AuthState → AuthState
after_chunk s =
    let next = (s.next_part + 1) % 256 in
    if next == 19
    then record s { type = receiving_nonce; next_part = 0 }
    else record s { next_part = next }

-- `get_next_signature_chunk` on a buffer of `size` bytes: the bytes written, where it returns true.
unfoldable pub get_next_signature_chunk : Ps4Key → ℕ → Auth → Option (Option (List ℕ) × Auth)
unfolding copy_signature cas
get_next_signature_chunk key size s =
    let current = s.auth_state in
    if not (size == 56)
    then some (none, s)
    else if not (same_type current.type sending_signature)
    then some (none, s)
    else elim (copy_signature s.nonce_signature key size (current.next_part * 56)) [
      | none ↦ none
      | some chunk ↦
          let (exchanged, s') = cas current (after_chunk current) s in
          some (if exchanged then some chunk else none, s')
    ]
