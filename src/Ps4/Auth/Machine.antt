-- ===== src/Ps4/Auth/Machine.antt =====
-- The authentication state machine of src/output/usb/ps4/auth.cpp under every interleaving of the
-- USB callbacks with the signing thread.
use passinglink.Common.{
  length-write_at, ℕ, ◌*◌, Bool, true, false, Option, none, some, List, replicate, length, ◌<◌, ◌≡◌,
  refl, sym, ap, ◌∙◌, subst, ◌⊎◌, arith,
}
use passinglink.Ps4.Auth.{
  AuthState, receiving_nonce, waiting_to_sign, signing, sending_signature, Ps4Key, Auth, set_nonce,
  sign_nonce_begin, sign_nonce_end, get_next_signature_chunk, part_size,
}

-- The statics at start-up.
abbrev pub initial : Auth
initial = record {
  auth_state = record { type = receiving_nonce; nonce_id = 0; next_part = 0; padding = 0 };
  nonce = replicate 256 0;
  nonce_signature = replicate 256 0;
  queued = false;
  in_progress = none;
}

module _ (key : Ps4Key) (sign : List ℕ → Option (List ℕ)) where
  -- What can happen next: the host sends a nonce part or reads a chunk, or the signing thread goes on.
  pub data Step : Auth → Auth → Type 0 where
    receive :
        {s t : Auth} (id part : ℕ) (bytes : List ℕ) (done : Bool)
        → set_nonce (some key) id part bytes s ≡ some (done, t)
        → Step s t
    read :
        {s t : Auth} (size : ℕ) (chunk : Option (List ℕ))
        → get_next_signature_chunk key size s ≡ some (chunk, t)
        → Step s t
    begin : {s t : Auth} → sign_nonce_begin s ≡ t → Step s t
    end : {s t : Auth} → sign_nonce_end sign s ≡ t → Step s t

  pub data Reach (s : Auth) : Auth → Type 0 where
    here : Reach s s
    next : {t u : Auth} → Reach s t → Step t u → Reach s u

  pub record Inv (s : Auth) : Type 0 where
    pub idle : s.auth_state.type ≡ receiving_nonce → (s.queued ≡ false) × (s.in_progress ≡ none)
    pub waiting : s.auth_state.type ≡ waiting_to_sign → (s.queued ≡ true) × (s.in_progress ≡ none)
    pub busy :
        s.auth_state.type ≡ signing
        → (s.queued ≡ false) × ((s.in_progress ≡ none) ⊎ (s.in_progress ≡ some s.auth_state))
    pub signed :
        s.auth_state.type ≡ sending_signature
        → (s.queued ≡ false)
          × (s.in_progress ≡ none)
          × (sign s.nonce ≡ some s.nonce_signature)
          × (s.auth_state.next_part < 19)
    pub sized : length s.nonce ≡ 256

  pub initial-Inv : Inv initial
  initial-Inv = ground arith

  receive-Inv :
      (s t : Auth) (id part : ℕ) (bytes : List ℕ) (done : Bool)
      → set_nonce (some key) id part bytes s ≡ some (done, t)
      → Inv s
      → Inv t
  unfolding set_nonce
  receive-Inv s t id part bytes done e v =
      ground (arith, length-write_at s.nonce bytes (part * part_size))

  read-Inv :
      (s t : Auth) (size : ℕ) (chunk : Option (List ℕ))
      → get_next_signature_chunk key size s ≡ some (chunk, t)
      → Inv s
      → Inv t
  unfolding get_next_signature_chunk
  read-Inv s t size chunk e v = ground arith

  begin-Inv : (s : Auth) → Inv s → Inv (sign_nonce_begin s)
  unfolding sign_nonce_begin
  begin-Inv s v = ground arith

  end-Inv : (s : Auth) → Inv s → Inv (sign_nonce_end sign s)
  unfolding sign_nonce_end
  end-Inv s v = ground arith

  Step-Inv : {s t : Auth} → Step s t → Inv s → Inv t
  Step-Inv {s} {t} (receive id part bytes done e) v = receive-Inv s t id part bytes done e v
  Step-Inv {s} {t} (read size chunk e) v = read-Inv s t size chunk e v
  Step-Inv {s} (begin e) v = subst Inv e (begin-Inv s v)
  Step-Inv {s} (end e) v = subst Inv e (end-Inv s v)

  pub Reach-Inv : {s t : Auth} → Reach s t → Inv s → Inv t
  Reach-Inv here v = v
  Reach-Inv (next r st) v = Step-Inv st (Reach-Inv r v)

  -- In every state that the callbacks and the signing thread can reach together, a signature that is
  -- ready to be sent is the signature of the nonce in the buffer, and the next chunk exists.
  pub reachable_signed :
      (s : Auth)
      → Reach initial s
      → s.auth_state.type ≡ sending_signature
      → (sign s.nonce ≡ some s.nonce_signature) × (s.auth_state.next_part < 19)
  reachable_signed s r h =
      let (_, _, ready, within) = (Reach-Inv r initial-Inv).signed h in (ready, within)

  -- The signing thread gave up: nothing is queued and nothing runs, and the state stays `Signing`.
  pub record IsStuck (s : Auth) : Type 0 where
    pub at_signing : s.auth_state.type ≡ signing
    pub not_queued : s.queued ≡ false
    pub not_running : s.in_progress ≡ none

  receive_stuck :
      (s t : Auth) (id part : ℕ) (bytes : List ℕ) (done : Bool)
      → IsStuck s
      → set_nonce (some key) id part bytes s ≡ some (done, t)
      → t ≡ s
  unfolding set_nonce
  receive_stuck s t id part bytes done h e = ground arith

  read_stuck :
      (s t : Auth) (size : ℕ) (chunk : Option (List ℕ))
      → IsStuck s
      → get_next_signature_chunk key size s ≡ some (chunk, t)
      → t ≡ s
  unfolding get_next_signature_chunk
  read_stuck s t size chunk h e = ground arith

  begin_stuck : (s : Auth) → IsStuck s → sign_nonce_begin s ≡ s
  unfolding sign_nonce_begin
  begin_stuck s h = ground arith

  end_stuck : (s : Auth) → IsStuck s → sign_nonce_end sign s ≡ s
  unfolding sign_nonce_end
  end_stuck s h = ground arith

  Step-stuck : {s t : Auth} → Step s t → IsStuck s → t ≡ s
  Step-stuck {s} {t} (receive id part bytes done e) h = receive_stuck s t id part bytes done h e
  Step-stuck {s} {t} (read size chunk e) h = read_stuck s t size chunk h e
  Step-stuck {s} (begin e) h = sym e ∙ begin_stuck s h
  Step-stuck {s} (end e) h = sym e ∙ end_stuck s h

  Reach-stuck : {s t : Auth} → Reach s t → IsStuck s → t ≡ s
  Reach-stuck here h = refl
  Reach-stuck (next r st) h = let e = Reach-stuck r h in Step-stuck st (subst IsStuck (sym e) h) ∙ e

  failure-IsStuck :
      (s : Auth) (current : AuthState)
      → Inv s
      → s.in_progress ≡ some current
      → s.auth_state.type ≡ signing
      → sign s.nonce ≡ none
      → IsStuck (sign_nonce_end sign s)
  unfolding sign_nonce_end
  failure-IsStuck s current v p t e = ground arith

  -- If hashing or signing fails, the state stays `Signing`, and nothing that the host or the signing
  -- thread does afterwards changes anything.
  pub sign_failure_final :
      (s t : Auth) (current : AuthState)
      → Inv s
      → s.in_progress ≡ some current
      → s.auth_state.type ≡ signing
      → sign s.nonce ≡ none
      → Reach (sign_nonce_end sign s) t
      → (t ≡ sign_nonce_end sign s) × (t.auth_state.type ≡ signing)
  sign_failure_final s t current v p h e r =
      let stuck = failure-IsStuck s current v p h e in
      let same = Reach-stuck r stuck in
      (same, ap (λ (u : Auth). u.auth_state.type) same ∙ stuck.at_signing)
