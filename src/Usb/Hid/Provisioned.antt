-- ===== src/Usb/Hid/Provisioned.antt =====
-- src/output/usb/hid.cpp and src/provisioning.cpp: provisioning data that is uploaded is found at the next start.
use passinglink.Common.{
  ℕ, ◌*◌, ◌≤◌, true, false, not, some, List, [], ◌∷◌, ◌++◌, leb, ◌==◌, length, take, drop,
  length-append, length-drop, take-append_le, drop-append_le, if◌then◌else◌, ◌≡◌, refl, ap, ap₂,
  ◌∙◌, arith,
}
use passinglink.Util.{until_nul}
use passinglink.Usb.Fields.{of_bytes}
use passinglink.Usb.Report.{ReportType}
use passinglink.Provisioning.{FlashResults, provisioning_init}
use passinglink.Usb.Hid.{PlState, PlOptions, set_report_pl}
use passinglink.Usb.Hid.Upload.{send_chunks, flat, AreFull, upload-flush}

-- Only the header of the data counts.
init-append :
    (bytes rest : List ℕ)
    → 132 ≤ length bytes
    → provisioning_init true (bytes ++ rest) ≡ provisioning_init true bytes
unfolding provisioning_init
init-append bytes rest long =
    ap₂
      (λ version name.
        if not (of_bytes version == 0x1209214c)
        then false
        else not (leb 128 (length (until_nul name))))
      (take-append_le 4 bytes rest (omega arith))
      (ap (take 128) (drop-append_le 4 bytes rest (omega arith))
        ∙ take-append_le 128 (drop 4 bytes) rest (omega (arith, length-drop 4 bytes)))

length-flat : (chunks : List (List ℕ)) → AreFull chunks → length (flat chunks) ≡ length chunks * 62
length-flat [] full = omega arith
length-flat (chunk ∷ chunks) full =
    omega (arith, length-append chunk (flat chunks), length-flat chunks full.1, full.0)

-- Provisioning data that a host sends after start-up in three or more packets of 62 bytes, numbered from 0, and within the
-- buffer, is all accepted; flushing it with the right magic number then puts exactly these bytes into the flash
-- area, if the flash driver succeeds, and at the next start, whatever the rest of the area holds, they are taken
-- exactly if their magic number is right and their board name ends within its 128 bytes.
pub provisioning_init-upload :
    (options : PlOptions) (flash : FlashResults) (chunks : List (List ℕ)) (s : PlState)
    (rest : List ℕ)
    → options.runtime_provisioning ≡ true
    → flash.opened ≡ true
    → flash.erased ≡ true
    → flash.written ≡ true
    → length s.provisioning.provisioning_buffer ≡ 4096
    → s.provisioning.provisioning_length ≡ 0
    → AreFull chunks
    → 3 ≤ length chunks
    → length chunks ≤ 66
    → (t u : PlState) × (send_chunks options flash 0 chunks s ≡ some t)
      × (set_report_pl options flash
            (some ReportType.feature)
            0x44
            (0x44 ∷ 0x4c ∷ 0x21 ∷ 0x09 ∷ 0x12 ∷ [])
            t
          ≡ some (true, u))
      × (u.provisioning.flash_area ≡ flat chunks)
      × (provisioning_init true (u.provisioning.flash_area ++ rest) ≡ (
          if of_bytes (take 4 (flat chunks)) == 0x1209214c
          then not (leb 128 (length (until_nul (take 128 (drop 4 (flat chunks))))))
          else false))
unfolding provisioning_init
provisioning_init-upload options flash chunks s rest on opened erased written size empty full
      some_data le =
    let (t, u, sends, flushes, holds) =
      upload-flush options flash chunks s on opened erased written size empty full le in
    let long : 132 ≤ length (flat chunks) = omega (arith, length-flat chunks full) in
    (
      t,
      u,
      sends,
      flushes,
      holds,
      ap (λ area. provisioning_init true (area ++ rest)) holds
          ∙ init-append (flat chunks) rest long
          ∙ elim (of_bytes (take 4 (flat chunks)) == 0x1209214c)
              as (λ b.
                (if not b
                  then false
                  else not (leb 128 (length (until_nul (take 128 (drop 4 (flat chunks)))))))
                ≡ (if b
                    then not (leb 128 (length (until_nul (take 128 (drop 4 (flat chunks))))))
                    else false)) [ true ↦ refl | false ↦ refl ],
    )
