-- ===== src/Usb/Hid/Upload.antt =====
-- Provisioning over USB: `Hid::SetReportPL` (src/output/usb/hid.cpp) and src/provisioning.cpp together.
use passinglink.Common.{
  ℕ, ◌+◌, ◌*◌, ◌≤◌, max, true, false, Option, none, some, List, [], ◌∷◌, ◌++◌, length, take, drop,
  ◌≡◌, refl, sym, subst, ◌∙◌, arith, write_at, length-write_at, take-write, append-nil,
  append_assoc, length-append,
}
use passinglink.Usb.Fields.{of_bytes}
use passinglink.Usb.Report.{ReportType}
use passinglink.Provisioning.{FlashResults, provisioning_write, provisioning_flush}
use passinglink.Usb.Hid.{set_report_pl, PlState, PlOptions, write_report, flush_report}

-- The host's side: the chunks in packets that are numbered from k on; `none` if one of them is refused.
unfoldable pub send_chunks : PlOptions → FlashResults → ℕ → List (List ℕ) → PlState → Option PlState
send_chunks options flash k [] s = some s
send_chunks options flash k (chunk ∷ chunks) s =
    elim (set_report_pl options flash (some ReportType.feature) 0x43 (0x43 ∷ k ∷ chunk) s) [
      | some (true, t) ↦ send_chunks options flash (k + 1) chunks t
      | some (false, t) ↦ none
      | none ↦ none
    ]

-- The buffer begins with what has been sent, and the length counts it.
record Holds (sent : List ℕ) (s : PlState) : Type 0 where
  sized : length s.provisioning.provisioning_buffer ≡ 4096
  front : take (length sent) s.provisioning.provisioning_buffer ≡ sent
  counted : s.provisioning.provisioning_length ≡ length sent

stored : ℕ → List ℕ → PlState → PlState
stored k chunk s = record s {
  provisioning = record s.provisioning {
    provisioning_buffer = write_at s.provisioning.provisioning_buffer (k * 62) chunk;
    provisioning_length = max s.provisioning.provisioning_length (k * 62 + length chunk);
  };
}

stored-Holds :
    (k : ℕ) (sent chunk : List ℕ) (s : PlState)
    → Holds sent s
    → length sent ≡ k * 62
    → k * 62 + length chunk ≤ 4096
    → Holds (sent ++ chunk) (stored k chunk s)
unfolding stored
stored-Holds k sent chunk s h e le = record {
  sized =
      length-write_at s.provisioning.provisioning_buffer chunk (k * 62) (omega (arith, h.sized))
      ∙ h.sized;
  front =
      rw (sym e, h.front)
        (take-write sent chunk
          (drop (length sent + length chunk) s.provisioning.provisioning_buffer)
          (length (sent ++ chunk)) (length-append sent chunk));
  counted = omega (arith, h.counted, length-append sent chunk);
}

chunk_taken :
    (options : PlOptions) (flash : FlashResults) (k : ℕ) (chunk : List ℕ) (s : PlState)
    → options.runtime_provisioning ≡ true
    → k * 62 + length chunk ≤ 4096
    → set_report_pl options flash (some ReportType.feature) 0x43 (0x43 ∷ k ∷ chunk) s
      ≡ some (true, stored k chunk s)
unfolding set_report_pl write_report provisioning_write stored
chunk_taken options flash k chunk s on le = ground arith

abbrev pub flushed : PlState → PlState
flushed s = record s {
  provisioning = record s.provisioning {
    flash_area = take s.provisioning.provisioning_length s.provisioning.provisioning_buffer;
  };
}

flush_taken :
    (options : PlOptions) (flash : FlashResults) (s : PlState)
    → options.runtime_provisioning ≡ true
    → flash.opened ≡ true
    → flash.erased ≡ true
    → flash.written ≡ true
    → set_report_pl options flash
        (some ReportType.feature)
        0x44
        (0x44 ∷ 0x4c ∷ 0x21 ∷ 0x09 ∷ 0x12 ∷ [])
        s
      ≡ some (true, flushed s)
unfolding set_report_pl flush_report provisioning_flush of_bytes
flush_taken options flash s on opened erased written = ground arith

abbrev pub flat : List (List ℕ) → List ℕ
flat [] = []
flat (chunk ∷ chunks) = chunk ++ flat chunks

abbrev pub AreFull : List (List ℕ) → Type 0
AreFull [] = Unit {0}
AreFull (chunk ∷ chunks) = (length chunk ≡ 62) × AreFull chunks

module _ (options : PlOptions) (flash : FlashResults) where
  chunks_held :
      (k : ℕ) (sent : List ℕ) (chunks : List (List ℕ)) (s : PlState)
      → options.runtime_provisioning ≡ true
      → AreFull chunks
      → (k + length chunks) * 62 ≤ 4096
      → Holds sent s
      → length sent ≡ k * 62
      → (t : PlState) × (send_chunks options flash k chunks s ≡ some t)
        × Holds (sent ++ flat chunks) t
  unfolding send_chunks
  chunks_held k sent [] s on full le h e =
      (s, refl, subst (λ bs. Holds bs s) (sym (append-nil sent)) h)
  chunks_held k sent (chunk ∷ chunks) s on full le h e =
      let taken = chunk_taken options flash k chunk s on (omega (arith, full.0)) in
      let held = stored-Holds k sent chunk s h e (omega (arith, full.0)) in
      let (t, sends, holds) =
        chunks_held (k + 1) (sent ++ chunk) chunks (stored k chunk s) on full.1 (omega arith) held
          (omega (arith, full.0, length-append sent chunk)) in
      (
        t,
        rw (send_chunks, taken) sends,
        subst (λ bs. Holds bs t) (append_assoc sent chunk (flat chunks)) holds,
      )

  -- Provisioning data that a host sends in packets of 62 bytes, numbered from 0, after start-up and within
  -- the buffer, is all accepted; flushing it with the right magic number then puts exactly these bytes
  -- into the flash area, if the flash driver succeeds.
  pub upload-flush :
      (chunks : List (List ℕ)) (s : PlState)
      → options.runtime_provisioning ≡ true
      → flash.opened ≡ true
      → flash.erased ≡ true
      → flash.written ≡ true
      → length s.provisioning.provisioning_buffer ≡ 4096
      → s.provisioning.provisioning_length ≡ 0
      → AreFull chunks
      → length chunks ≤ 66
      → (t u : PlState) × (send_chunks options flash 0 chunks s ≡ some t)
        × (set_report_pl options flash
              (some ReportType.feature)
              0x44
              (0x44 ∷ 0x4c ∷ 0x21 ∷ 0x09 ∷ 0x12 ∷ [])
              t
            ≡ some (true, u))
        × (u.provisioning.flash_area ≡ flat chunks)
  upload-flush chunks s on opened erased written size empty full le =
      let start : Holds [] s = record { sized = size; front = refl; counted = empty } in
      let (t, sends, holds) = chunks_held 0 [] chunks s on full (omega arith) start refl in
      (
        t,
        flushed t,
        sends,
        flush_taken options flash t on opened erased written,
        subst (λ n. take n t.provisioning.provisioning_buffer ≡ flat chunks) (sym holds.counted)
            holds.front,
      )
