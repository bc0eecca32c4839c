-- ===== src/Ps4/Report/Features.antt =====
-- The feature reports of src/output/usb/ps4/hid.cpp: packets with a CRC, and the nonce that is received.
use passinglink.Common.{
  ℕ, ◌+◌, ◌-◌, ◌*◌, ◌≤◌, Bool, true, false, ◌||◌, Option, some, List, [], ◌∷◌, ◌++◌, ◌≡◌, refl, ◌∙◌,
  ap, arith, subst, length, take, drop, set, get_or, ltb, length-append, length-take, length-drop,
  length-set, take-append_le, drop-append_ge, take_all, ◌<◌, ◌==◌, if◌then◌else◌,
}
use passinglink.Usb.Fields.{to_bytes, length-to_bytes}
use passinglink.Usb.Report.{ReportType, Reply, copy_into, take-copy_into, length-copy_into}
use passinglink.Ps4.Auth.{Ps4Key, Auth, sending_signature, get_next_signature_chunk}
use passinglink.Ps4.Auth.Chunks.{IsKey, response, finished, advanced, next_chunk}
use passinglink.Ps4.Auth.Total.{Sized, set_nonce-Sized}
use passinglink.Ps4.Report.{
  Ps4Hid, check_crc, write_with_crc, same_bytes, get_feature_report, signature_report, nonce_bytes,
  set_report,
}

same_bytes_refl : (bs : List ℕ) → same_bytes bs bs ≡ true
same_bytes_refl [] = refl
same_bytes_refl (b ∷ bs) = ground (arith, same_bytes_refl bs)

take_exact : (xs ys : List ℕ) (n : ℕ) → n ≡ length xs → take n (xs ++ ys) ≡ xs
take_exact xs ys n e = take-append_le n xs ys (omega arith) ∙ take_all n xs (omega arith)

drop_exact : (xs ys : List ℕ) (n : ℕ) → n ≡ length xs → drop n (xs ++ ys) ≡ ys
drop_exact xs ys n e =
    drop-append_ge n xs ys (omega arith)
    ∙ ap (λ k. drop k ys) {x = n - length xs} {y = 0} (omega arith)

copied_front : (xs ys buf : List ℕ) → take (length xs) (copy_into (xs ++ ys) buf) ≡ xs
unfolding copy_into
copied_front xs ys buf =
    take-append_le (length xs) (xs ++ ys) (drop (length (xs ++ ys)) buf)
      (omega (arith, length-append xs ys))
    ∙ take_exact xs ys (length xs) refl

not_short : (n : ℕ) → 4 ≤ n → ltb n 4 ≡ false
not_short n h = ground arith

has_room : (d n : ℕ) → n + 4 ≤ d → (ltb d 4 || ltb (d - 4) n) ≡ false
has_room d n h = ground arith

module _ (crc : List ℕ → ℕ) where
  check_sealed : (src : List ℕ) → check_crc crc (src ++ to_bytes 4 (crc src)) ≡ true
  unfolding check_crc
  check_sealed src =
      let n = length-append src (to_bytes 4 (crc src)) in
      let four = length-to_bytes 4 (crc src) in
      rw
        (
          not_short (length (src ++ to_bytes 4 (crc src))) (omega arith),
          take_exact src (to_bytes 4 (crc src)) (length (src ++ to_bytes 4 (crc src)) - 4)
              (omega arith),
          drop_exact src (to_bytes 4 (crc src)) (length (src ++ to_bytes 4 (crc src)) - 4)
              (omega arith),
        )
        (same_bytes_refl (to_bytes 4 (crc src)))

  -- A buffer with room gets the packet and its CRC, and the packet passes the check of CRCs.
  pub check_crc-write_with_crc :
      (dst src : List ℕ)
      → length src + 4 ≤ length dst
      → let reply = write_with_crc crc dst src in
        (reply.size ≡ some (length src + 4))
        × (length reply.buf ≡ length dst)
        × (take (length src) reply.buf ≡ src)
        × (check_crc crc (take (length src + 4) reply.buf) ≡ true)
  unfolding write_with_crc
  check_crc-write_with_crc dst src h =
      let packet = src ++ to_bytes 4 (crc src) in
      let n = length-append src (to_bytes 4 (crc src)) in
      let four = length-to_bytes 4 (crc src) in
      rw (has_room (length dst) (length src) h) (
        refl,
        length-copy_into packet dst (omega arith),
        copied_front src (to_bytes 4 (crc src)) dst,
        rw (take-copy_into packet dst (length src + 4) (omega arith)) (check_sealed src),
      )

length-nonce_bytes :
    (bs : List ℕ) (part : ℕ)
    → length bs ≡ 64
    → get_or bs 2 0 ≡ part
    → part ≤ 4
    → part * 56 + length (nonce_bytes bs) ≤ 256
length-nonce_bytes bs part h e le =
    let body = length-drop 4 bs in
    let cut = length-take (length (drop 4 bs) - 4) (drop 4 bs) in
    let whole = take (length (drop 4 bs) - 4) (drop 4 bs) in
    let last = length-take (length whole - 24) whole in rw e (ground (arith, body, cut, last))

-- Whatever packet the host sends, SetReport never writes outside of the buffer of the nonce: it gives a
-- result, and the buffer keeps its size.
pub set_report-Sized :
    (crc : List ℕ → ℕ) (has_auth : Bool) (key : Option Ps4Key) (type : Option ReportType) (id : ℕ)
    (bytes : List ℕ) (s : Auth)
    → length s.nonce ≡ 256
    → Sized (set_report crc has_auth key type id bytes s)
unfolding set_report
set_report-Sized crc has_auth key type id bytes s n = ground (
  arith,
  λ (h : length bytes ≡ 64).
      set_nonce-Sized key (get_or bytes 1 0) (get_or bytes 2 0) (nonce_bytes bytes) s n
        (length-nonce_bytes bytes (get_or bytes 2 0) h refl),
)

signature_report_lem :
    (crc : List ℕ → ℕ) (key : Ps4Key) (marked chunk : List ℕ) (s t : Auth)
    → s.auth_state.type ≡ sending_signature
    → length marked ≡ 64
    → get_next_signature_chunk key 56 s ≡ some (some chunk, t)
    → signature_report crc key marked s
      ≡ some (
        write_with_crc crc marked
            (0xf1 ∷ s.auth_state.nonce_id ∷ s.auth_state.next_part ∷ 0 ∷ chunk),
        t,
      )
unfolding signature_report
signature_report_lem crc key marked chunk s t ready len next = rw (len, next) (simp ready refl)

-- The 56 bytes of the answer that the host reads next: the answer is the signature of the nonce, the serial number,
-- the public key, the signature of the key, and padding.
abbrev pub next_bytes : Ps4Key → List ℕ → List ℕ → Auth → List ℕ
next_bytes key n e s =
    take 56 (drop (s.auth_state.next_part * 56) (response s.nonce_signature key n e))

-- While a signature of 256 bytes is sent, with a chunk below 19 to come and a key whose parts have their sizes, reading
-- report 0xF1 into a 64-byte buffer fills it with a packet that passes the check of CRCs and holds the
-- report, the nonce, the number of the chunk, and the 56 bytes of the answer from 56 times that number on;
-- then the next chunk is to come, or after the last one the next nonce.
pub chunk_report-check_crc :
    (crc : List ℕ → ℕ) (key : Ps4Key) (n e buf : List ℕ) (hid : Ps4Hid)
    → IsKey key n e
    → hid.auth.auth_state.type ≡ sending_signature
    → hid.auth.auth_state.next_part < 19
    → length hid.auth.nonce_signature ≡ 256
    → length buf ≡ 64
    → (reply : Reply) × (get_feature_report crc true key 0xf1 buf hid
        ≡ some (
          reply,
          record hid {
            auth =
                if hid.auth.auth_state.next_part == 18
                then finished hid.auth
                else advanced hid.auth;
          },
        ))
      × (reply.size ≡ some 64)
      × (check_crc crc reply.buf ≡ true)
      × (take 60 reply.buf
          ≡ 0xf1
            ∷ hid.auth.auth_state.nonce_id
            ∷ hid.auth.auth_state.next_part
            ∷ 0
            ∷ next_bytes key n e hid.auth)
unfolding get_feature_report
chunk_report-check_crc crc key n e buf hid k ready part signed len =
    let marked = set buf 0 0xf1 in
    let chunk = next_bytes key n e hid.auth in
    let src = 0xf1 ∷ hid.auth.auth_state.nonce_id ∷ hid.auth.auth_state.next_part ∷ 0 ∷ chunk in
    let fits = length-set buf 0 0xf1 ∙ len in
    let next = next_chunk key n e k hid.auth ready part signed in
    let size : length chunk ≡ 56 = next.1 in
    let sealed = check_crc-write_with_crc crc marked src (omega arith) in
    (
      write_with_crc crc marked src,
      rw (signature_report_lem crc key marked chunk hid.auth _ ready fits next.0) refl,
      sealed.0 ∙ ap some (omega arith),
      subst (λ bs. check_crc crc bs ≡ true)
          (take_all (length src + 4) (write_with_crc crc marked src).buf (omega arith)) sealed.3,
      subst (λ j. take j (write_with_crc crc marked src).buf ≡ src) {x = length src} {y = 60}
          (omega arith) sealed.2,
    )
