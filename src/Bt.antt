-- ===== src/Bt.antt =====
-- src/bt/bt.cpp, and the Bluetooth service and shell command of src/opt/gundam.cpp: the services that are read and
-- written by Bluetooth. `bt_gatt_attr_read` of Zephyr is an argument.
pub mod Camera
pub mod Written
mod Tests
use passinglink.Common.{
  ℕ, ◌+◌, ◌/◌, ◌%◌, Bool, true, false, not, ◌&&◌, ◌||◌, Option, none, some, List, [], ◌∷◌, ltb,
  ◌==◌, length, if◌then◌else◌,
}
use passinglink.Input.Types.{Gpio, index, RawInputState, Board}
use passinglink.Input.Compose.{raw_bytes, get_bit}
use passinglink.Input.Queue.{Queue}
use passinglink.Input.Pins.{Source, input_set_raw_state, input_get_raw_state}

-- The results of the callbacks: what a read sends, how many bytes a write took, or an error of the protocol.
pub data Answer : Type 0 where
  sent : List ℕ → Answer
  took : ℕ → Answer
  error : ℕ → Answer

-- `BT_ATT_ERR_INVALID_OFFSET`
abbrev pub invalid_offset : Answer
invalid_offset = error 0x07

-- The value of an attribute, the length of the buffer and the offset.
abbrev pub AttrRead : Type 0
AttrRead = List ℕ → ℕ → ℕ → Answer

unfoldable pub bt_version_str_read : AttrRead → List ℕ → ℕ → ℕ → Answer
bt_version_str_read attr_read version len offset = attr_read version len offset

unfoldable pub bt_version_branch_read : AttrRead → List ℕ → ℕ → ℕ → Answer
bt_version_branch_read attr_read git_branch len offset = attr_read git_branch len offset

unfoldable pub bt_version_commit_read : AttrRead → List ℕ → ℕ → ℕ → Answer
bt_version_commit_read attr_read git_commit len offset = attr_read git_commit len offset

-- `sizeof(RawInputState)`
abbrev pub raw_size : ℕ
raw_size = 4

-- The bytes of a `RawInputState` read as its members.
abbrev pub raw_of : List ℕ → RawInputState
raw_of bytes g = get_bit bytes (index g)

-- The bytes of the raw state go through `bt_gatt_attr_read`.
unfoldable pub bt_input_read :
    AttrRead → Board → ℕ → Source → Queue → RawInputState → ℕ → ℕ → Option (Answer × Queue)
bt_input_read attr_read b now source q out len offset =
    elim (input_get_raw_state b now source q out) [
      | none ↦ none
      | some read ↦ some (attr_read (raw_bytes read.0) len offset, read.1)
    ]

unfoldable pub bt_input_write : List ℕ → ℕ → Source → Answer × Source
bt_input_write buf offset source =
    if ltb 0 offset || not (length buf == raw_size)
    then (invalid_offset, source)
    else (took (length buf), input_set_raw_state (raw_of buf) source)

-- The calls of `bluetooth_init`, and with what key.
pub data BtCall : Type 0 where
  bt_enable bt_set_name bt_conn_cb_register bt_le_adv_start : BtCall
  bt_passkey_set : ℕ → BtCall

-- The calls up to the first that fails; `works` is what the stack answers, and `key` is
-- CONFIG_PASSINGLINK_BT_PAIRING_KEY with CONFIG_PASSINGLINK_BT_AUTHENTICATION.
unfoldable pub bluetooth_init : Option ℕ → (BtCall → Bool) → List BtCall
bluetooth_init key works =
    let advertise = bt_conn_cb_register ∷ bt_le_adv_start ∷ [] in
    let paired : List BtCall = elim key [
      | none ↦ advertise
      | some k ↦ bt_passkey_set k ∷ (if works (bt_passkey_set k) then advertise else [])
    ] in
    bt_enable
    ∷ (if works bt_enable then bt_set_name ∷ (if works bt_set_name then paired else []) else [])
