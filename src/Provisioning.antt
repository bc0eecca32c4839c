-- ===== src/Provisioning.antt =====
-- src/provisioning.cpp: provisioning data is gathered in a buffer, and written to flash as a whole.
use passinglink.Common.{
  ℕ, ◌+◌, Bool, true, false, not, Option, none, some, List, [], ltb, leb, ◌==◌, if◌then◌else◌,
  length, take, drop, write_at, max,
}
use passinglink.Util.{until_nul}
use passinglink.Usb.Fields.{of_bytes}

-- The statics for run-time provisioning, and the contents of the flash area from its start on.
pub record Provisioning : Type 0 where
  pub provisioning_buffer : List ℕ  -- char[4096]
  pub provisioning_length : ℕ
  pub flash_area : List ℕ

unfoldable pub provisioning_write : List ℕ → ℕ → Provisioning → Bool × Provisioning
provisioning_write bytes offset s = if ltb 4096 (length bytes + offset) then (false, s) else (
  true,
  record s {
    provisioning_buffer = write_at s.provisioning_buffer offset bytes;
    provisioning_length = max s.provisioning_length (offset + length bytes);
  },
)

-- What the flash driver answers.
pub record FlashResults : Type 0 where
  pub opened : Bool
  pub erased : Bool
  pub written : Bool

-- An area that is erased and not written holds nothing of use.
unfoldable pub provisioning_flush : FlashResults → Provisioning → Bool × Provisioning
provisioning_flush flash s =
    if flash.opened
    then (if flash.erased
        then (if flash.written
            then (true, record s { flash_area = take s.provisioning_length s.provisioning_buffer })
            else (false, record s { flash_area = [] }))
        else (false, s))
    else (false, s)

-- `strnlen`
abbrev pub strnlen : List ℕ → ℕ → ℕ
strnlen text size = length (until_nul (take size text))

-- `provisioning_init`: whether `pd` points to the flash area afterwards, which holds these bytes, in an image that has
-- the area or not. It is a null pointer before.
unfoldable pub provisioning_init : Bool → List ℕ → Bool
provisioning_init has_area flash =
    if not has_area
    then false
    else if not (of_bytes (take 4 flash) == 0x1209214c)
    then false
    else not (leb 128 (strnlen (drop 4 flash) 128))

-- `provisioning_data_get`: the bytes at `pd`.
unfoldable pub provisioning_data_get : Bool → List ℕ → Option (List ℕ)
provisioning_data_get has_area flash = if provisioning_init has_area flash then some flash else none
