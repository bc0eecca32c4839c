-- ===== src/Usb/Descriptor.antt =====
-- Reading a HID report descriptor: the widths of the fields of an input report. An item is a prefix byte,
-- whose two low bits give the number of data bytes, and the data, the lowest byte first.
use passinglink.Common.{ℕ, ◌+◌, ◌-◌, ◌*◌, ◌%◌, List, [], ◌∷◌, ◌++◌, ◌==◌, if◌then◌else◌, replicate}

-- The global items that matter, and the item that is being read.
pub record Reader : Type 0 where
  pub report_size : ℕ
  pub report_count : ℕ
  pub report_id : ℕ
  pub tag : ℕ
  pub data_left : ℕ
  pub item_value : ℕ
  pub scale : ℕ
  pub input_widths : List ℕ

abbrev start : Reader
start = record {
  report_size = 0;
  report_count = 0;
  report_id = 0;
  tag = 0;
  data_left = 0;
  item_value = 0;
  scale = 1;
  input_widths = [];
}

-- Report Size, Report Count, Report ID, and the main item Input.
abbrev finish_item : ℕ → Reader → Reader
finish_item id r =
    if r.tag == 0x74
    then record r { report_size = r.item_value }
    else if r.tag == 0x94
    then record r { report_count = r.item_value }
    else if r.tag == 0x84
    then record r { report_id = r.item_value }
    else if r.tag == 0x80
    then record r {
      input_widths =
          r.input_widths
          ++ (if r.report_id == id then replicate r.report_count r.report_size else []);
    }
    else r

abbrev begin_item : ℕ → ℕ → Reader → Reader
begin_item id prefix r =
    let fresh = record r {
      tag = prefix - prefix % 4;
      data_left = if prefix % 4 == 3 then 4 else prefix % 4;
      item_value = 0;
      scale = 1;
    } in
    if prefix % 4 == 0 then finish_item id fresh else fresh

abbrev more_data : ℕ → ℕ → Reader → Reader
more_data id byte r =
    let further = record r {
      item_value = r.item_value + byte * r.scale;
      scale = r.scale * 256;
      data_left = r.data_left - 1;
    } in
    if r.data_left == 1 then finish_item id further else further

pub read_items : ℕ → List ℕ → Reader → Reader
read_items id [] r = r
read_items id (byte ∷ bytes) r =
    read_items id bytes (if r.data_left == 0 then begin_item id byte r else more_data id byte r)

-- The widths of the fields of the input report with the id, in order (0 where no id is announced).
unfoldable pub widths_of_report : ℕ → List ℕ → List ℕ
unfolding read_items
widths_of_report id descriptor = (read_items id descriptor start).input_widths
