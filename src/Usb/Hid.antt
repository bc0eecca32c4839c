-- ===== src/Usb/Hid.antt =====
-- src/output/usb/hid.h and hid.cpp: what the drivers of all consoles share.
pub mod Upload
pub mod Provisioned
use passinglink.Common.{
  ℕ, ◌+◌, ◌-◌, ◌*◌, ◌/◌, ◌%◌, min, Bool, true, false, not, ◌&&◌, Option, none, some, List, [], ◌∷◌,
  ◌++◌, ltb, ◌==◌, if◌then◌else◌, length, take, drop, set, get_or,
}
use passinglink.Usb.Fields.{of_bytes}
use passinglink.Usb.Report.{ReportType, input, output, feature, is_feature, Reply, copy_into}
use passinglink.Provisioning.{Provisioning, FlashResults, provisioning_write, provisioning_flush}

-- `PL_HID_REPORT_DESCRIPTOR`
unfoldable pub pl_report_descriptor : List ℕ
pl_report_descriptor =
    0x06 ∷ 0x42 ∷ 0xFF ∷ 0x09 ∷ 0x01 ∷ 0xA1 ∷ 0x01 ∷ 0x75 ∷ 0x08 ∷ 0x95 ∷ 0x3f ∷ 0x85 ∷ 0x40 ∷ 0x0A
    ∷ 0x40 ∷ 0x42 ∷ 0xB1 ∷ 0x02 ∷ 0x85 ∷ 0x41 ∷ 0x0A ∷ 0x41 ∷ 0x42 ∷ 0xB1 ∷ 0x02 ∷ 0x85 ∷ 0x42
    ∷ 0x0A ∷ 0x42 ∷ 0x42 ∷ 0xB1 ∷ 0x02 ∷ 0x85 ∷ 0x43 ∷ 0x0A ∷ 0x43 ∷ 0x42 ∷ 0xB1 ∷ 0x02 ∷ 0x85
    ∷ 0x44 ∷ 0x0A ∷ 0x44 ∷ 0x42 ∷ 0xB1 ∷ 0x02 ∷ 0xC0 ∷ []

-- `wValue` of a request: the type of the report, where it has one, and its number.
unfoldable pub decode_hid_report_value : ℕ → Option (Option ReportType × ℕ)
decode_hid_report_value value =
    let type = value / 256 % 256 in
    let id = value % 256 in
    if type == 0
    then some (none, id)
    else if type == 1
    then some (some input, id)
    else if type == 2
    then some (some output, id)
    else if type == 3
    then some (some feature, id)
    else none

-- `Hid::GetReportPL`, `none` where the driver is to answer. `version` is what `version_string` points to;
-- `runtime_provisioning` is CONFIG_PASSINGLINK_RUNTIME_PROVISIONING. A buffer has room for the byte.
unfoldable pub get_report_pl : List ℕ → Bool → Option ReportType → ℕ → List ℕ → Option Reply
get_report_pl version runtime_provisioning type report_id buf =
    if not (is_feature type)
    then none
    else if report_id == 0x40
    then (let len = min (length buf) (length version) in
        some (record { size = some len; buf = copy_into (take len version) buf }))
    else if report_id == 0x42
    then some (record { size = some 1; buf = set buf 0 (if runtime_provisioning then 1 else 0) })
    else none

-- The ways in which a request restarts the board.
pub data Restart : Type 0 where
  reboot mcuboot_enter : Restart

pub record PlState : Type 0 where
  pub provisioning : Provisioning
  pub restart : Option Restart

-- What the build has: run-time provisioning, and the boot loader's warm boot.
pub record PlOptions : Type 0 where
  pub runtime_provisioning : Bool
  pub warm_boot : Bool

reboot_report : PlOptions → List ℕ → PlState → PlState
reboot_report options bytes s =
    if not (length bytes == 2)
    then s
    else if get_or bytes 1 0 == 1
    then record s { restart = some reboot }
    else if options.warm_boot && (get_or bytes 1 0 == 2)
    then record s { restart = some mcuboot_enter }
    else s

write_report : List ℕ → PlState → Bool × PlState
write_report bytes s =
    if ltb (length bytes) 2
    then (false, s)
    else (let (done, p) =
          provisioning_write (drop 2 bytes) (get_or bytes 1 0 * 62) s.provisioning in
        (done, record s { provisioning = p }))

flush_report : FlashResults → List ℕ → PlState → Bool × PlState
flush_report flash bytes s =
    if not (length bytes == 5)
    then (false, s)
    else if not (of_bytes (drop 1 bytes) == 0x1209214c)
    then (false, s)
    else (let (done, p) = provisioning_flush flash s.provisioning in
        (done, record s { provisioning = p }))

-- `Hid::SetReportPL`, `none` where the driver is to answer.
unfoldable pub set_report_pl :
    PlOptions → FlashResults → Option ReportType → ℕ → List ℕ → PlState → Option (Bool × PlState)
unfolding reboot_report write_report flush_report
set_report_pl options flash type report_id bytes s =
    if not (is_feature type)
    then none
    else if report_id == 0x41
    then some (false, reboot_report options bytes s)
    else if options.runtime_provisioning && (report_id == 0x43)
    then some (write_report bytes s)
    else if options.runtime_provisioning && (report_id == 0x44)
    then some (flush_report flash bytes s)
    else none

-- The operations `get_report` and `set_report` that the USB stack calls, on the functions of the driver that
-- is set, and its state; `none` stands for a fault of the driver. The results are the length of the answer
-- (`none` for -1), and whether the report was taken.
module _ {D : Type 0} where
  unfoldable pub get_report_op :
      List ℕ
      → Bool
      → (Option ReportType → ℕ → List ℕ → D → Option (Reply × D))
      → ℕ
      → List ℕ
      → D
      → Option (Reply × D)
  get_report_op version runtime_provisioning driver value buf d =
      elim (decode_hid_report_value value) [
        | none ↦ some (record { size = none; buf = buf }, d)
        | some (type, id) ↦ elim (get_report_pl version runtime_provisioning type id buf) [
          | some reply ↦ some (reply, d)
          | none ↦ driver type id buf d
        ]
      ]

  unfoldable pub set_report_op :
      PlOptions
      → FlashResults
      → (Option ReportType → ℕ → List ℕ → D → Option (Bool × D))
      → ℕ
      → List ℕ
      → PlState × D
      → Option (Bool × (PlState × D))
  set_report_op options flash driver value bytes (s, d) = elim (decode_hid_report_value value) [
    | none ↦ some (false, (s, d))
    | some (type, id) ↦ elim (set_report_pl options flash type id bytes s) [
      | some (done, t) ↦ some (done, (t, d))
      | none ↦ elim (driver type id bytes d) [ none ↦ none | some (done, e) ↦ some (done, (s, e)) ]
    ]
  ]
