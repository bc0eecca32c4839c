-- ===== src/Ps4/Auth/Tests.antt =====
-- Runs of src/output/usb/ps4/auth.cpp, and its theorems at concrete inputs.
use passinglink.Common.{
  arith, ℕ, ◌<◌, ◌∷◌, true, Option, none, some, List, [], ◌++◌, replicate, ◌≡◌, refl,
}
use passinglink.Ps4.Auth.Copy.{copy_parts_lem}
use passinglink.Ps4.Auth.{
  SignaturePart, copy_parts, waiting_to_sign, signing, sending_signature, Ps4Key, Auth, set_nonce,
  sign_nonce_begin, sign_nonce_end,
}
use passinglink.Ps4.Auth.Machine.{
  initial, Step, Reach, initial-Inv, Reach-Inv, reachable_signed, sign_failure_final,
}
use passinglink.Ps4.Auth.Nonce.{send_parts, send_parts_lem}
use passinglink.Ps4.Auth.Chunks.{IsKey, response, read_chunks, finished, read_chunks_lem}

abbrev key : Ps4Key
key = record {
  serial = replicate 16 1;
  rsa_n = some (replicate 256 2);
  rsa_e = some (replicate 256 3);
  signature = replicate 256 4;
}

key-IsKey : IsKey key (replicate 256 2) (replicate 256 3)
key-IsKey = record {
  serial_sized = refl;
  rsa_n_bytes = refl;
  rsa_n_sized = refl;
  rsa_e_bytes = refl;
  rsa_e_sized = refl;
  signature_sized = refl;
}

-- Signing that answers every nonce with the same bytes, and signing that always fails.
abbrev signer : List ℕ → Option (List ℕ)
signer nonce = some (replicate 256 9)

abbrev broken : List ℕ → Option (List ℕ)
broken nonce = none

-- The last part alone starts the signing.
abbrev after_last_part : Auth
after_last_part = record initial {
  auth_state = record { type = waiting_to_sign; nonce_id = 0; next_part = 0; padding = 0 };
  nonce = replicate 224 0 ++ replicate 32 7;
  queued = true;
}

last_part_alone : set_nonce (some key) 0 4 (replicate 32 7) initial ≡ some (true, after_last_part)
unfolding set_nonce
last_part_alone = refl

to_signing :
    (sign : List ℕ → Option (List ℕ)) → Reach key sign initial (sign_nonce_begin after_last_part)
to_signing sign =
    Reach.next (Reach.next Reach.here (Step.receive 0 4 (replicate 32 7) true last_part_alone))
      (Step.begin refl)

to_sending : Reach key signer initial (sign_nonce_end signer (sign_nonce_begin after_last_part))
to_sending = Reach.next (to_signing signer) (Step.end refl)

reachable_signed_example :
    let s = sign_nonce_end signer (sign_nonce_begin after_last_part) in
    (signer s.nonce ≡ some s.nonce_signature) × (s.auth_state.next_part < 19)
unfolding sign_nonce_begin sign_nonce_end
reachable_signed_example =
    reachable_signed key signer (sign_nonce_end signer (sign_nonce_begin after_last_part))
      to_sending refl

sign_failure_final_example :
    let s = sign_nonce_end broken (sign_nonce_begin after_last_part) in
    (s ≡ s) × (s.auth_state.type ≡ signing)
unfolding sign_nonce_begin
sign_failure_final_example =
    sign_failure_final key broken (sign_nonce_begin after_last_part)
      (sign_nonce_end broken (sign_nonce_begin after_last_part))
      (record { type = signing; nonce_id = 0; next_part = 0; padding = 0 })
      (Reach-Inv key broken (to_signing broken) (initial-Inv key broken)) refl refl refl Reach.here

send_parts_lem_example :
    (t : Auth) × (send_parts key 5 0
        (replicate 56 1 ∷ replicate 56 2 ∷ replicate 56 3 ∷ replicate 56 4 ∷ replicate 32 5 ∷ [])
        initial
      ≡ some t)
    × (t.nonce
        ≡ (((replicate 56 1 ++ replicate 56 2) ++ replicate 56 3) ++ replicate 56 4)
          ++ replicate 32 5)
    × (t.auth_state.type ≡ waiting_to_sign)
    × (t.auth_state.nonce_id ≡ 5)
    × (t.queued ≡ true)
send_parts_lem_example =
    send_parts_lem key 5 (replicate 56 1) (replicate 56 2) (replicate 56 3) (replicate 56 4)
      (replicate 32 5) initial refl refl refl refl refl refl refl

abbrev ready : Auth
ready = record initial {
  auth_state = record { type = sending_signature; nonce_id = 5; next_part = 0; padding = 0 };
  nonce_signature = replicate 256 9;
}

read_chunks_lem_example :
    read_chunks key 19 ready
    ≡ some (response (replicate 256 9) key (replicate 256 2) (replicate 256 3), finished ready)
read_chunks_lem_example =
    read_chunks_lem key (replicate 256 2) (replicate 256 3) key-IsKey ready refl refl refl

-- A window over the boundary of two parts.
abbrev two_parts : List SignaturePart
two_parts =
    record { part_length = 2; bytes = some (1 ∷ 2 ∷ []) }
    ∷ record { part_length = 3; bytes = some (3 ∷ 4 ∷ 5 ∷ []) }
    ∷ []

copy_parts_lem_example : copy_parts two_parts 3 1 ≡ some (2 ∷ 3 ∷ 4 ∷ [])
copy_parts_lem_example =
    copy_parts_lem two_parts 3 1 ((1 ∷ 2 ∷ [], refl, refl), ((3 ∷ 4 ∷ 5 ∷ [], refl, refl), tt))
      (omega arith) (omega arith)
