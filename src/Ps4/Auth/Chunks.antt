-- ===== src/Ps4/Auth/Chunks.antt =====
-- What the host reads with `get_next_signature_chunk` (src/output/usb/ps4/auth.cpp).
use passinglink.Common.{
  ℕ, zero, suc, ◌+◌, ◌*◌, ◌≤◌, ◌<◌, Option, none, some, List, [], ◌++◌, length, take, drop,
  replicate, ◌≡◌, refl, sym, ap, ◌∙◌, subst, arith, append-nil, length-append, take_all,
  take-append-drop, drop-drop, length-drop, length-take, ◌==◌, if◌then◌else◌,
}
use passinglink.Ps4.Auth.{
  receiving_nonce, sending_signature, Ps4Key, Auth, signature_parts, copy_signature,
  get_next_signature_chunk, after_chunk,
}
use passinglink.Ps4.Auth.Copy.{Complete, blob, copy_parts_lem}

-- The arrays of the key have the lengths that their C++ declarations give them.
pub record IsKey (key : Ps4Key) (n e : List ℕ) : Type 0 where
  pub serial_sized : length key.serial ≡ 16
  pub rsa_n_bytes : key.rsa_n ≡ some n
  pub rsa_n_sized : length n ≡ 256
  pub rsa_e_bytes : key.rsa_e ≡ some e
  pub rsa_e_sized : length e ≡ 256
  pub signature_sized : length key.signature ≡ 256

-- The whole answer: the signature of the nonce, the serial number, the public key, the signature of
-- the key, and padding.
abbrev pub response : List ℕ → Ps4Key → List ℕ → List ℕ → List ℕ
response signature key n e =
    signature ++ (key.serial ++ (n ++ (e ++ (key.signature ++ (replicate 24 0 ++ [])))))

module _ (key : Ps4Key) (n e signature : List ℕ) (k : IsKey key n e)
    (sized : length signature ≡ 256) where
  parts-Complete : Complete (signature_parts signature key)
  parts-Complete = (
    (signature, refl, sized),
    (
      (key.serial, refl, k.serial_sized),
      (
        (n, k.rsa_n_bytes, k.rsa_n_sized),
        (
          (e, k.rsa_e_bytes, k.rsa_e_sized),
          ((key.signature, refl, k.signature_sized), ((replicate 24 0, refl, refl), tt)),
        ),
      ),
    ),
  )

  blob-response : blob (signature_parts signature key) ≡ response signature key n e
  blob-response = rw (k.rsa_n_bytes, k.rsa_e_bytes)

  length-response : length (response signature key n e) ≡ 1064
  length-response = omega (
    arith,
    sized,
    k.serial_sized,
    k.rsa_n_sized,
    k.rsa_e_sized,
    k.signature_sized,
    length-append signature (key.serial ++ (n ++ (e ++ (key.signature ++ (replicate 24 0 ++ []))))),
    length-append key.serial (n ++ (e ++ (key.signature ++ (replicate 24 0 ++ [])))),
    length-append n (e ++ (key.signature ++ (replicate 24 0 ++ []))),
    length-append e (key.signature ++ (replicate 24 0 ++ [])),
    length-append key.signature (replicate 24 0 ++ []),
  )

  copy_chunk :
      (part : ℕ)
      → part < 19
      → copy_signature signature key 56 (part * 56)
        ≡ some (take 56 (drop (part * 56) (response signature key n e)))
  unfolding copy_signature
  copy_chunk part lt =
      subst (λ l. copy_signature signature key 56 (part * 56) ≡ some (take 56 (drop (part * 56) l)))
        blob-response
        (copy_parts_lem (signature_parts signature key) 56 (part * 56) parts-Complete (omega arith)
          (omega (arith, ap length blob-response, length-response)))

-- `count` reads in a row, laid end to end, `none` if one of them is refused or panics.
unfoldable pub read_chunks : Ps4Key → ℕ → Auth → Option (List ℕ × Auth)
read_chunks key zero s = some ([], s)
read_chunks key (suc count) s = elim (get_next_signature_chunk key 56 s) [
  | none ↦ none
  | some (none, t) ↦ none
  | some (some chunk, t) ↦ elim (read_chunks key count t) [
    | none ↦ none
    | some (rest, u) ↦ some (chunk ++ rest, u)
  ]
]

chunk_read :
    (key : Ps4Key) (s : Auth) (chunk : List ℕ)
    → s.auth_state.type ≡ sending_signature
    → copy_signature s.nonce_signature key 56 (s.auth_state.next_part * 56) ≡ some chunk
    → get_next_signature_chunk key 56 s
      ≡ some (some chunk, record s { auth_state = after_chunk s.auth_state })
unfolding get_next_signature_chunk
chunk_read key s chunk t e = ground arith

read_step :
    (key : Ps4Key) (count : ℕ) (s t u : Auth) (chunk rest : List ℕ)
    → get_next_signature_chunk key 56 s ≡ some (some chunk, t)
    → read_chunks key count t ≡ some (rest, u)
    → read_chunks key (suc count) s ≡ some (chunk ++ rest, u)
unfolding read_chunks
read_step key count s t u chunk rest h e = rw (h, read_chunks) (rw e)

-- After the last chunk: ready for the next nonce.
abbrev pub finished : Auth → Auth
finished s = record s {
  auth_state = record (s.auth_state) { type = receiving_nonce; next_part = 0 };
}

-- After any other chunk.
abbrev pub advanced : Auth → Auth
advanced s = record s {
  auth_state = record (s.auth_state) { next_part = s.auth_state.next_part + 1 };
}

after_last :
    (s : Auth)
    → s.auth_state.next_part + 1 ≡ 19
    → record s { auth_state = after_chunk s.auth_state } ≡ finished s
after_last s h = ground arith

after_other :
    (s : Auth)
    → s.auth_state.next_part + 1 < 19
    → record s { auth_state = after_chunk s.auth_state } ≡ advanced s
after_other s h = ground arith

after_any :
    (s : Auth)
    → s.auth_state.next_part < 19
    → record s { auth_state = after_chunk s.auth_state }
      ≡ (if s.auth_state.next_part == 18 then finished s else advanced s)
after_any s h = ground arith

window-drop :
    (part : ℕ) (l : List ℕ)
    → take 56 (drop (part * 56) l) ++ drop ((part + 1) * 56) l ≡ drop (part * 56) l
window-drop part l =
    ap (λ k. take 56 (drop (part * 56) l) ++ drop k l) same
    ∙ ap (λ r. take 56 (drop (part * 56) l) ++ r) (sym (drop-drop 56 (part * 56) l))
    ∙ take-append-drop 56 (drop (part * 56) l)
  where
    same : (part + 1) * 56 ≡ part * 56 + 56
    same = omega arith

module _ (key : Ps4Key) (n e : List ℕ) (k : IsKey key n e) where
  abbrev chunk_of : Auth → List ℕ
  chunk_of s = take 56 (drop (s.auth_state.next_part * 56) (response s.nonce_signature key n e))

  chunk_at :
      (s : Auth)
      → s.auth_state.type ≡ sending_signature
      → s.auth_state.next_part < 19
      → length s.nonce_signature ≡ 256
      → get_next_signature_chunk key 56 s
        ≡ some (some (chunk_of s), record s { auth_state = after_chunk s.auth_state })
  chunk_at s t lt sized =
      chunk_read key s _ t (copy_chunk key n e s.nonce_signature k sized s.auth_state.next_part lt)

  -- A read gives the 56 bytes of the answer that are next, and moves on.
  pub next_chunk :
      (s : Auth)
      → s.auth_state.type ≡ sending_signature
      → s.auth_state.next_part < 19
      → length s.nonce_signature ≡ 256
      → (get_next_signature_chunk key 56 s
          ≡ some (
            some
                (take 56 (drop (s.auth_state.next_part * 56) (response s.nonce_signature key n e))),
            if s.auth_state.next_part == 18 then finished s else advanced s,
          ))
        × (length
              (take 56 (drop (s.auth_state.next_part * 56) (response s.nonce_signature key n e)))
            ≡ 56)
  next_chunk s t lt sized =
      let body = drop (s.auth_state.next_part * 56) (response s.nonce_signature key n e) in
      (
        chunk_at s t lt sized ∙ ap (λ u. some (some (chunk_of s), u)) (after_any s lt),
        omega (
          arith,
          length-take 56 body,
          length-drop (s.auth_state.next_part * 56) (response s.nonce_signature key n e),
          length-response key n e s.nonce_signature k sized,
        ),
      )

  read_from :
      (count : ℕ) (s : Auth)
      → s.auth_state.type ≡ sending_signature
      → s.auth_state.next_part + suc count ≡ 19
      → length s.nonce_signature ≡ 256
      → read_chunks key (suc count) s
        ≡ some (drop (s.auth_state.next_part * 56) (response s.nonce_signature key n e), finished s)
  read_from zero s t at sized =
      read_step key 0 s (finished s) (finished s) _ []
        (chunk_at s t (omega arith) sized ∙ ap (λ u. some (some (chunk_of s), u)) (after_last s at))
        (unfold read_chunks in refl)
      ∙ ap (λ l. some (l, finished s)) (append-nil _ ∙ take_all 56 _ short)
    where
      short : length (drop (s.auth_state.next_part * 56) (response s.nonce_signature key n e)) ≤ 56
      short = omega (
        arith,
        length-drop (s.auth_state.next_part * 56) (response s.nonce_signature key n e),
        length-response key n e s.nonce_signature k sized,
      )
  read_from (suc count) s t at sized =
      read_step key (suc count) s (advanced s) (finished s) _ _
        (chunk_at s t (omega arith) sized
          ∙ ap (λ u. some (some (chunk_of s), u)) (after_other s (omega arith)))
        (read_from count (advanced s) t (omega arith) sized)
      ∙ ap (λ l. some (l, finished s)) (window-drop s.auth_state.next_part _)

  -- From a fresh signature on, nineteen reads of 56 bytes all succeed, give the host the whole
  -- answer in order, and leave the state ready for the next nonce.
  pub read_chunks_lem :
      (s : Auth)
      → s.auth_state.type ≡ sending_signature
      → s.auth_state.next_part ≡ 0
      → length s.nonce_signature ≡ 256
      → read_chunks key 19 s ≡ some (response s.nonce_signature key n e, finished s)
  read_chunks_lem s t first sized =
      read_from 18 s t (omega arith) sized
      ∙ ap (λ (p : ℕ). some (drop (p * 56) (response s.nonce_signature key n e), finished s)) first
