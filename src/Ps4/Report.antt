-- ===== src/Ps4/Report.antt =====
-- src/output/usb/ps4/hid.h and hid.cpp: the reports of the PlayStation 4 driver. The CRC of Zephyr's
-- `crc32_ieee` is an argument, `crc`; `none` stands for a fault of the authentication code.
pub mod Layout
pub mod Reads
pub mod Features
mod Tests
use passinglink.Common.{
  ℕ, zero, suc, ◌+◌, ◌-◌, ◌*◌, ◌%◌, Bool, true, false, not, ◌&&◌, ◌||◌, Option, none, some, List,
  [], ◌∷◌, ◌++◌, to_bit, length, take, drop, get_or, set, if◌then◌else◌, ◌==◌, ltb, replicate,
}
use passinglink.Usb.Fields.{to_bytes, pack}
use passinglink.Usb.Report.{ReportType, input, output, feature, is_feature, Reply, copy_into}
use passinglink.Input.Types.{InputState, TouchpadData}
use passinglink.Ps4.Auth.{
  Ps4Key, Auth, AuthStateType, sending_signature, same_type, set_nonce, get_next_signature_chunk,
}
use passinglink.Ps4.Report.Layout.{output_report}

pub record Ps4Hid : Type 0 where
  pub last_report_counter : ℕ  -- uint8_t
  pub auth : Auth

abbrev pub same_bytes : List ℕ → List ℕ → Bool
same_bytes [] [] = true
same_bytes (x ∷ xs) (y ∷ ys) = x == y && same_bytes xs ys
same_bytes _ _ = false

-- A reply of -1.
abbrev pub refused : List ℕ → Reply
refused buf = record { size = none; buf = buf }

-- An array of a fixed size is the answer, if the buffer has just that size.
abbrev pub constant_reply : List ℕ → List ℕ → Reply
constant_reply bytes buf =
    if not (length buf == length bytes)
    then refused buf
    else record { size = some (length buf); buf = bytes }

abbrev pub output_0x03 : List ℕ
output_0x03 =
    0x03 ∷ 0x21 ∷ 0x27 ∷ 0x04 ∷ 0x40 ∷ 0x07 ∷ 0x2c ∷ 0x56 ∷ 0x00 ∷ 0x00 ∷ 0x00 ∷ 0x00 ∷ 0x00 ∷ 0x00
    ∷ 0x00 ∷ 0x00 ∷ 0x00 ∷ 0x00 ∷ 0x0d ∷ 0x0d ∷ 0x00 ∷ 0x00 ∷ 0x00 ∷ 0x00 ∷ 0x00 ∷ 0x00 ∷ 0x00
    ∷ 0x00 ∷ 0x00 ∷ 0x00 ∷ 0x00 ∷ 0x00 ∷ 0x00 ∷ 0x00 ∷ 0x00 ∷ 0x00 ∷ 0x00 ∷ 0x00 ∷ 0x00 ∷ 0x00
    ∷ 0x00 ∷ 0x00 ∷ 0x00 ∷ 0x00 ∷ 0x00 ∷ 0x00 ∷ 0x00 ∷ 0x00 ∷ []

abbrev pub output_0xf3 : List ℕ
output_0xf3 = 0xf3 ∷ 0x0 ∷ 0x38 ∷ 0x38 ∷ 0 ∷ 0 ∷ 0 ∷ 0 ∷ []

-- The part of the nonce in a packet: without its header, its CRC, and the filling of the last part.
abbrev pub nonce_bytes : List ℕ → List ℕ
nonce_bytes data_bytes =
    let body = drop 4 data_bytes in
    let part = take (length body - 4) body in
    if get_or data_bytes 2 0 == 4 then take (length part - 24) part else part

-- `sampled` is what `input_get_state` gives, `none` where it fails.
unfoldable pub get_input_report :
    Option InputState → TouchpadData → ℕ → List ℕ → Ps4Hid → Reply × Ps4Hid
get_input_report sampled touch report_id buf s =
    if not (report_id == 0x01)
    then (refused buf, s)
    else if not (length buf == 64)
    then (refused buf, s)
    else elim sampled [
      | none ↦ (refused buf, s)
      | some i ↦ (
        record {
          size = some (length buf);
          buf = to_bytes 64 (pack (output_report i touch s.last_report_counter));
        },
        record s { last_report_counter = (s.last_report_counter + 1) % 256 },
      )
    ]

module _ (crc : List ℕ → ℕ) where
  unfoldable pub check_crc : List ℕ → Bool
  check_crc data_bytes =
      if ltb (length data_bytes) 4
      then false
      else same_bytes (to_bytes 4 (crc (take (length data_bytes - 4) data_bytes)))
          (drop (length data_bytes - 4) data_bytes)

  unfoldable pub write_with_crc : List ℕ → List ℕ → Reply
  write_with_crc dst src =
      if ltb (length dst) 4 || ltb (length dst - 4) (length src) then refused dst else record {
        size = some (length src + 4);
        buf = copy_into (src ++ to_bytes 4 (crc src)) dst;
      }

  -- Report 0xF1, the next chunk of the signature: `marked` is the buffer with the report's number.
  unfoldable pub signature_report : Ps4Key → List ℕ → Auth → Option (Reply × Auth)
  signature_report key marked s =
      if not (same_type s.auth_state.type sending_signature)
      then some (refused marked, s)
      else if not (length marked == 64)
      then some (refused marked, s)
      else elim (get_next_signature_chunk key 56 s) [
        | none ↦ none
        | some (none, t) ↦ some (refused marked, t)
        | some (some chunk, t) ↦ some (
          write_with_crc marked (0xf1 ∷ s.auth_state.nonce_id ∷ s.auth_state.next_part ∷ 0 ∷ chunk),
          t,
        )
      ]

  -- Report 0xF2, the state of the signature.
  unfoldable pub signing_report : List ℕ → Auth → Reply
  signing_report marked s = write_with_crc marked (
      0xf2
      ∷ s.auth_state.nonce_id
      ∷ (if same_type s.auth_state.type sending_signature then 0 else 16)
      ∷ replicate 9 0)

  -- `has_auth` is CONFIG_PASSINGLINK_OUTPUT_USB_PS4_AUTH. A buffer has room for the first byte: the USB
  -- stack passes its control buffer.
  unfoldable pub get_feature_report : Bool → Ps4Key → ℕ → List ℕ → Ps4Hid → Option (Reply × Ps4Hid)
  get_feature_report has_auth key report_id buf s =
      let marked = set buf 0 report_id in
      if report_id == 0x03
      then some (constant_reply output_0x03 marked, s)
      else if report_id == 0xf1
      then (if not has_auth
          then some (refused marked, s)
          else elim (signature_report key marked s.auth) [
            | none ↦ none
            | some (reply, t) ↦ some (reply, record s { auth = t })
          ])
      else if report_id == 0xf2
      then some (if has_auth then signing_report marked s.auth else refused marked, s)
      else if report_id == 0xf3
      then some (constant_reply output_0xf3 marked, s)
      else some (refused marked, s)

  unfoldable pub get_report :
      Bool
      → Ps4Key
      → Option InputState
      → TouchpadData
      → Option ReportType
      → ℕ
      → List ℕ
      → Ps4Hid
      → Option (Reply × Ps4Hid)
  get_report has_auth key sampled touch none report_id buf s = some (refused buf, s)
  get_report has_auth key sampled touch (some feature) report_id buf s =
      get_feature_report has_auth key report_id buf s
  get_report has_auth key sampled touch (some input) report_id buf s =
      some (get_input_report sampled touch report_id buf s)
  get_report has_auth key sampled touch (some output) report_id buf s = some (refused buf, s)

  unfoldable pub set_report :
      Bool → Option Ps4Key → Option ReportType → ℕ → List ℕ → Auth → Option (Bool × Auth)
  set_report has_auth key type report_id data_bytes s =
      if not (is_feature type)
      then some (false, s)
      else if not (report_id == 0xf0)
      then some (false, s)
      else if not has_auth
      then some (true, s)
      else if not (length data_bytes == 64)
      then some (false, s)
      else if not (check_crc data_bytes)
      then some (false, s)
      else set_nonce key (get_or data_bytes 1 0) (get_or data_bytes 2 0) (nonce_bytes data_bytes) s
