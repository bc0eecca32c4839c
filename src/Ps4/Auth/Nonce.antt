-- ===== src/Ps4/Auth/Nonce.antt =====
-- How `set_nonce` (src/output/usb/ps4/auth.cpp) puts a nonce together.
use passinglink.Common.{
  take-write, write_at, length-write_at, ℕ, ◌+◌, ◌*◌, ◌≤◌, ◌<◌, true, false, Option, none, some,
  List, [], ◌∷◌, ◌++◌, length, take, ◌≡◌, ◌≢◌, refl, sym, ap, ◌∙◌, arith, ◌==◌, if◌then◌else◌,
  length-append, append-nil, drop_all,
}
use passinglink.Ps4.Auth.{
  receiving_nonce, waiting_to_sign, Ps4Key, Auth, set_nonce, part_size, next_state,
}

-- What `set_nonce` does with a part that it accepts.
abbrev accepted : ℕ → ℕ → List ℕ → Auth → Auth
accepted id part bytes s = record s {
  auth_state = next_state s.auth_state id part;
  nonce = write_at s.nonce (part * part_size) bytes;
  queued = if part == 4 then true else s.queued;
}

-- A part is accepted in the receiving state if its number is at most 4, its nonce id is the current
-- one or it is part 0, and it fits: the order of the parts is not checked.
pub set_nonce_accepts :
    (key : Ps4Key) (id part : ℕ) (bytes : List ℕ) (s : Auth)
    → s.auth_state.type ≡ receiving_nonce
    → part ≤ 4
    → (part ≢ 0 → id ≡ s.auth_state.nonce_id)
    → part * part_size + length bytes ≤ length s.nonce
    → set_nonce (some key) id part bytes s ≡ some (true, accepted id part bytes s)
unfolding set_nonce
set_nonce_accepts key id part bytes s t p i fits = ground arith

-- The parts `part`, `part + 1`, … that are still expected: the first `part * 56` bytes are `got`.
record Receiving (id part : ℕ) (got : List ℕ) (s : Auth) : Type 0 where
  at_receiving : s.auth_state.type ≡ receiving_nonce
  same_id : part ≢ 0 → id ≡ s.auth_state.nonce_id
  sized : length s.nonce ≡ 256
  prefix : take (part * part_size) s.nonce ≡ got
  prefix_sized : length got ≡ part * part_size

part-Receiving :
    (id part : ℕ) (got bytes : List ℕ) (s : Auth)
    → Receiving id part got s
    → part < 4
    → length bytes ≡ part_size
    → Receiving id (part + 1) (got ++ bytes) (accepted id part bytes s)
part-Receiving id part got bytes s r lt e = record {
  at_receiving = ground (arith, r);
  same_id = ground (arith, r);
  sized = ground (arith, r, length-write_at s.nonce bytes (part * part_size));
  prefix = rw r.prefix (take-write got bytes _ _ (omega (arith, r.prefix_sized)));
  prefix_sized = ground (arith, r, length-append got bytes);
}

-- The host's side of the exchange: the parts in order, `none` if one of them is refused.
unfoldable pub send_parts : Ps4Key → ℕ → ℕ → List (List ℕ) → Auth → Option Auth
send_parts key id part [] s = some s
send_parts key id part (bytes ∷ parts) s = elim (set_nonce (some key) id part bytes s) [
  | some (true, t) ↦ send_parts key id (part + 1) parts t
  | some (false, t) ↦ none
  | none ↦ none
]

send_step :
    (key : Ps4Key) (id part : ℕ) (bytes : List ℕ) (parts : List (List ℕ)) (s t : Auth)
    → set_nonce (some key) id part bytes s ≡ some (true, t)
    → send_parts key id part (bytes ∷ parts) s ≡ send_parts key id (part + 1) parts t
unfolding send_parts
send_step key id part bytes parts s t h = rw (h, send_parts)

part_sent :
    (key : Ps4Key) (id part : ℕ) (got bytes : List ℕ) (s : Auth)
    → Receiving id part got s
    → part ≤ 4
    → part * part_size + length bytes ≤ 256
    → set_nonce (some key) id part bytes s ≡ some (true, accepted id part bytes s)
part_sent key id part got bytes s r le fits =
    set_nonce_accepts key id part bytes s r.at_receiving le r.same_id (omega (arith, r.sized))

last_written :
    (id : ℕ) (got bytes : List ℕ) (s : Auth)
    → Receiving id 4 got s
    → length bytes ≡ 32
    → write_at s.nonce (4 * part_size) bytes ≡ got ++ bytes
last_written id got bytes s r e =
    rw (r.prefix, drop_all (4 * part_size + length bytes) s.nonce (omega (arith, r.sized)))
      (ap (λ l. got ++ l) (append-nil bytes))

-- Five parts sent in order, of 56, 56, 56, 56 and 32 bytes, are all accepted; the buffer then holds
-- them end to end, and the signing work item is queued.
pub send_parts_lem :
    (key : Ps4Key) (id : ℕ) (a b c d e : List ℕ) (s : Auth)
    → s.auth_state.type ≡ receiving_nonce
    → length s.nonce ≡ 256
    → length a ≡ 56
    → length b ≡ 56
    → length c ≡ 56
    → length d ≡ 56
    → length e ≡ 32
    → (t : Auth) × (send_parts key id 0 (a ∷ b ∷ c ∷ d ∷ e ∷ []) s ≡ some t)
      × (t.nonce ≡ (((a ++ b) ++ c) ++ d) ++ e)
      × (t.auth_state.type ≡ waiting_to_sign)
      × (t.auth_state.nonce_id ≡ id)
      × (t.queued ≡ true)
send_parts_lem key id a b c d e s h z la lb lc ld le =
    (s5, sent, last_written id _ e s4 r4 le, refl, sym (r4.same_id (omega arith)), refl)
  where
    s1 : Auth
    s1 = accepted id 0 a s

    s2 : Auth
    s2 = accepted id 1 b s1

    s3 : Auth
    s3 = accepted id 2 c s2

    s4 : Auth
    s4 = accepted id 3 d s3

    s5 : Auth
    s5 = accepted id 4 e s4

    r0 : Receiving id 0 [] s
    r0 = record {
      at_receiving = h;
      same_id = λ ne. absurd (ne refl);
      sized = z;
      prefix = refl;
      prefix_sized = refl;
    }

    r1 : Receiving id 1 a s1
    r1 = part-Receiving id 0 [] a s r0 (omega arith) la

    r2 : Receiving id 2 (a ++ b) s2
    r2 = part-Receiving id 1 a b s1 r1 (omega arith) lb

    r3 : Receiving id 3 ((a ++ b) ++ c) s3
    r3 = part-Receiving id 2 (a ++ b) c s2 r2 (omega arith) lc

    r4 : Receiving id 4 (((a ++ b) ++ c) ++ d) s4
    r4 = part-Receiving id 3 ((a ++ b) ++ c) d s3 r3 (omega arith) ld

    sent : send_parts key id 0 (a ∷ b ∷ c ∷ d ∷ e ∷ []) s ≡ some s5
    sent =
        send_step key id 0 a _ s s1 (part_sent key id 0 [] a s r0 (omega arith) (omega arith))
        ∙ send_step key id 1 b _ s1 s2 (part_sent key id 1 _ b s1 r1 (omega arith) (omega arith))
        ∙ send_step key id 2 c _ s2 s3 (part_sent key id 2 _ c s2 r2 (omega arith) (omega arith))
        ∙ send_step key id 3 d _ s3 s4 (part_sent key id 3 _ d s3 r3 (omega arith) (omega arith))
        ∙ send_step key id 4 e _ s4 s5 (part_sent key id 4 _ e s4 r4 (omega arith) (omega arith))
        ∙ unfold send_parts in refl
