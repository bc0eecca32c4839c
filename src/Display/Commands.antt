-- ===== src/Display/Commands.antt =====
-- src/display/ssd1306.cpp: the commands of the controller, and how they are packed into one message.
use passinglink.Common.{
  ℕ, ◌+◌, ◌*◌, ◌%◌, Bool, true, false, List, [], ◌∷◌, length, set, write_at, if◌then◌else◌, to_bit,
  ◌≡◌, refl,
}

unfoldable pub ssd1306_set_contrast : ℕ → List ℕ
ssd1306_set_contrast contrast = 0x81 ∷ contrast ∷ []

unfoldable pub ssd1306_set_entire_display_on : Bool → List ℕ
ssd1306_set_entire_display_on on = (if on then 0xa5 else 0xa4) ∷ []

unfoldable pub ssd1306_set_inverse : Bool → List ℕ
ssd1306_set_inverse inverse = (if inverse then 0xa7 else 0xa6) ∷ []

unfoldable pub ssd1306_set_display_on : Bool → List ℕ
ssd1306_set_display_on on = (if on then 0xaf else 0xae) ∷ []

pub data ScrollDirection : Type 0 where
  scroll_right scroll_left : ScrollDirection

pub data ScrollInterval : Type 0 where
  frame_5 frame_64 frame_128 frame_256 frame_3 frame_4 frame_25 frame_2 : ScrollInterval

abbrev pub interval_code : ScrollInterval → ℕ
interval_code frame_5 = 0
interval_code frame_64 = 1
interval_code frame_128 = 2
interval_code frame_256 = 3
interval_code frame_3 = 4
interval_code frame_4 = 5
interval_code frame_25 = 6
interval_code frame_2 = 7

unfoldable pub ssd1306_setup_horizontal_scroll : ScrollDirection → ℕ → ℕ → ScrollInterval → List ℕ
ssd1306_setup_horizontal_scroll direction start_page end_page interval =
    elim direction [ scroll_right ↦ 0x26 | scroll_left ↦ 0x27 ]
    ∷ 0
    ∷ start_page
    ∷ interval_code interval
    ∷ end_page
    ∷ 0
    ∷ 0xff
    ∷ []

unfoldable pub ssd1306_setup_horizontal_vertical_scroll :
    ScrollDirection → ℕ → ℕ → ScrollInterval → ℕ → List ℕ
ssd1306_setup_horizontal_vertical_scroll direction start_page end_page interval vertical_offset =
    elim direction [ scroll_right ↦ 0x29 | scroll_left ↦ 0x2a ]
    ∷ 0
    ∷ start_page
    ∷ interval_code interval
    ∷ end_page
    ∷ 0
    ∷ vertical_offset
    ∷ []

unfoldable pub ssd1306_deactivate_scroll : List ℕ
ssd1306_deactivate_scroll = 0x2e ∷ []

unfoldable pub ssd1306_activate_scroll : List ℕ
ssd1306_activate_scroll = 0x2f ∷ []

unfoldable pub ssd1306_set_vertical_scroll_area : ℕ → ℕ → List ℕ
ssd1306_set_vertical_scroll_area top rows = 0xa3 ∷ top ∷ rows ∷ []

unfoldable pub ssd1306_set_column_start_address_lower : ℕ → List ℕ
ssd1306_set_column_start_address_lower nybble = nybble % 16 ∷ []

unfoldable pub ssd1306_set_column_start_address_upper : ℕ → List ℕ
ssd1306_set_column_start_address_upper nybble = (0x10 + nybble % 16) ∷ []

pub data MemoryAddressingMode : Type 0 where
  horizontal vertical page : MemoryAddressingMode

unfoldable pub ssd1306_set_memory_addressing_mode : MemoryAddressingMode → List ℕ
ssd1306_set_memory_addressing_mode mode =
    0x20 ∷ elim mode [ horizontal ↦ 0 | vertical ↦ 1 | page ↦ 2 ] ∷ []

unfoldable pub ssd1306_set_column_address : ℕ → ℕ → List ℕ
ssd1306_set_column_address start end = 0x21 ∷ start ∷ end ∷ []

unfoldable pub ssd1306_set_page_address : ℕ → ℕ → List ℕ
ssd1306_set_page_address start end = 0x22 ∷ start ∷ end ∷ []

unfoldable pub ssd1306_set_page_start_address : ℕ → List ℕ
ssd1306_set_page_start_address address = (0xb0 + address % 8) ∷ []

unfoldable pub ssd1306_set_display_start_line : ℕ → List ℕ
ssd1306_set_display_start_line line = (0x40 + line % 64) ∷ []

unfoldable pub ssd1306_set_segment_remap : Bool → List ℕ
ssd1306_set_segment_remap remap = (0xa0 + to_bit remap) ∷ []

-- `(ratio - 1) & 0b111111`
unfoldable pub ssd1306_set_multiplex_ratio : ℕ → List ℕ
ssd1306_set_multiplex_ratio ratio = 0xa8 ∷ (ratio + 63) % 64 ∷ []

-- The array has two elements, and one is given.
unfoldable pub ssd1306_set_com_output_scan_direction : Bool → List ℕ
ssd1306_set_com_output_scan_direction remapped = (0xc0 + 8 * to_bit remapped) ∷ 0 ∷ []

unfoldable pub ssd1306_set_display_offset : ℕ → List ℕ
ssd1306_set_display_offset offset = 0xd3 ∷ offset ∷ []

pub data PinConfiguration : Type 0 where
  sequential alternative : PinConfiguration

pub data LeftRightRemap : Type 0 where
  enabled disabled : LeftRightRemap

unfoldable pub ssd1306_set_com_pins : PinConfiguration → LeftRightRemap → List ℕ
ssd1306_set_com_pins pin lr =
    0xda
    ∷ (2 + elim pin [ sequential ↦ 0 | alternative ↦ 16 ] + elim lr [ enabled ↦ 32 | disabled ↦ 0 ])
    ∷ []

unfoldable pub ssd1306_set_display_clock : ℕ → ℕ → List ℕ
ssd1306_set_display_clock divide_ratio freq =
    0xd5 ∷ ((divide_ratio + 7) % 8 + 16 * (freq % 16)) ∷ []

unfoldable pub ssd1306_set_precharge_period : ℕ → ℕ → List ℕ
ssd1306_set_precharge_period phase1 phase2 = 0xd9 ∷ (phase1 % 16 + 16 * (phase2 % 16)) ∷ []

unfoldable pub ssd1306_set_vcom_dselect_level : ℕ → List ℕ
ssd1306_set_vcom_dselect_level level = 0xdb ∷ 16 * (level % 8) ∷ []

unfoldable pub ssd1306_nop : List ℕ
ssd1306_nop = 0xe3 ∷ []

unfoldable pub ssd1306_set_enable_charge_pump : Bool → List ℕ
ssd1306_set_enable_charge_pump enable = 0x8d ∷ (16 + 4 * to_bit enable) ∷ []

unfoldable pub ssd1306_write_byte : ℕ → List ℕ
ssd1306_write_byte byte = 0x40 ∷ byte ∷ []

unfoldable pub ssd1306_cmd_size : List (List ℕ) → ℕ
ssd1306_cmd_size [] = 0
ssd1306_cmd_size (arg ∷ args) = length arg + ssd1306_cmd_size args

-- `offset` is where the pointer `buf` points to in the buffer.
unfoldable pub ssd1306_cmd_pack : List ℕ → ℕ → List (List ℕ) → List ℕ
ssd1306_cmd_pack buf offset [] = buf
ssd1306_cmd_pack buf offset (arg ∷ args) =
    ssd1306_cmd_pack (write_at buf offset arg) (offset + length arg) args

-- The message of `ssd1306_command`; `garbage` is what its buffer holds before.
unfoldable pub ssd1306_command : List ℕ → List (List ℕ) → List ℕ
ssd1306_command garbage commands = ssd1306_cmd_pack (set garbage 0 0x00) 1 commands

-- The two parts of the transfer of `ssd1306_data`, which the bus joins.
unfoldable pub ssd1306_data : List ℕ → List ℕ
ssd1306_data bytes = 0x40 ∷ bytes

-- The commands that `ssd1306_init` sends.
unfoldable pub init_commands : List (List ℕ)
init_commands =
    ssd1306_set_multiplex_ratio 32
    ∷ ssd1306_set_display_offset 0
    ∷ ssd1306_set_display_start_line 0
    ∷ ssd1306_set_segment_remap true
    ∷ ssd1306_set_com_output_scan_direction true
    ∷ ssd1306_set_com_pins sequential disabled
    ∷ ssd1306_set_entire_display_on false
    ∷ ssd1306_set_inverse false
    ∷ ssd1306_set_display_clock 1 128
    ∷ ssd1306_set_precharge_period 1 15
    ∷ ssd1306_set_enable_charge_pump true
    ∷ ssd1306_set_memory_addressing_mode vertical
    ∷ ssd1306_set_contrast 0xff
    ∷ ssd1306_set_column_address 0 127
    ∷ ssd1306_set_page_address 0 3
    ∷ []

pub init_commands_size : ssd1306_cmd_size init_commands ≡ 28
unfolding ssd1306_cmd_size init_commands ssd1306_set_multiplex_ratio ssd1306_set_display_offset
    ssd1306_set_display_start_line ssd1306_set_segment_remap ssd1306_set_com_output_scan_direction
    ssd1306_set_com_pins ssd1306_set_entire_display_on ssd1306_set_inverse ssd1306_set_display_clock
    ssd1306_set_precharge_period ssd1306_set_enable_charge_pump ssd1306_set_memory_addressing_mode
    ssd1306_set_contrast ssd1306_set_column_address ssd1306_set_page_address
init_commands_size = refl
