-- ===== src/Log/Starting.antt =====
-- How a log starts and ends: setVisibility, setTimeStamp, clear, isPresent, init and invalidate.
use codal_microbit_v.Base.{
  ℕ, zero, suc, ◌+◌, ◌-◌, ◌/◌, Bool, true, false, not, ◌&&◌, ◌||◌, List, [], ◌∷◌, ◌++◌, length,
  take, drop, replicate, min, ltb, leb, ◌==◌, if◌then◌else◌,
}
use codal_microbit_v.FsCache
use codal_microbit_v.Log.{
  Board, metadata_size, journal_size, header_bytes, log_version, LogMetaData, meta_bytes,
  ColumnEntry, TimeStampFormat, no_format, milliseconds, seconds, minutes, hours, days, divisor,
  Log, cache_write, direct_write, direct_erase,
}
use codal_microbit_v.Log.Text.{codes, c_string, text_eq, pad_string, write_num}

abbrev pub units : TimeStampFormat → List ℕ
units no_format = []
units milliseconds = codes "milliseconds"
units seconds = codes "seconds"
units minutes = codes "minutes"
units hours = codes "hours"
units days = codes "days"

abbrev pub time_heading : TimeStampFormat → List ℕ
time_heading format = codes "Time (" ++ (units format ++ codes ")")

-- Each key moves one place to the front, the values stay, and the last entry goes.
pub shift_keys : List ColumnEntry → List ColumnEntry
shift_keys [] = []
shift_keys (e ∷ []) = []
shift_keys (e ∷ f ∷ es) = record e { key = f.key } ∷ shift_keys (f ∷ es)

abbrev pub first_key : List ColumnEntry → List ℕ
first_key [] = []
first_key (e ∷ es) = e.key

-- _setTimeStamp on a log that is initialised.
unfoldable pub put_time_stamp : Log → TimeStampFormat → Log
unfolding shift_keys text_eq
put_time_stamp l format =
    let old_none = divisor l.time_stamp_format == 0 in
    if divisor l.time_stamp_format == divisor format && old_none
    then l
    else let headed = record l { time_stamp_heading = time_heading format } in
      let early = l.data_start == l.data_end && ltb 0 (length l.row_data) in
      if early && text_eq (first_key l.row_data) (time_heading format)
      then headed
      else record headed {
        row_data = if early && not old_none then shift_keys l.row_data else l.row_data;
        time_stamp_format = format;
        time_stamp_changed = true;
      }

-- `strtoul` reads a field up to its NUL.
abbrev pub closed_field : List ℕ → ℕ → ℕ → List ℕ
closed_field bytes start size = take (size - 1) (drop start bytes) ++ 0 ∷ []

abbrev pub blank_number : List ℕ
blank_number = codes "0x00000000" ++ 0 ∷ []

-- The names that end in a NUL, as many as were counted.
unfoldable pub parse_headings : ℕ → List ℕ → List ColumnEntry
unfolding c_string
parse_headings zero s = []
parse_headings (suc n) s =
    record { key = c_string s; value = [] } ∷ parse_headings n (drop (length (c_string s) + 1) s)

pub is_heading_end : ℕ → Bool
is_heading_end c = c == b',' || c == 10

unfoldable pub terminate : List ℕ → List ℕ
unfolding is_heading_end
terminate [] = []
terminate (c ∷ s) = (if is_heading_end c then 0 else c) ∷ terminate s

unfoldable pub count_headings : List ℕ → ℕ
unfolding is_heading_end
count_headings [] = 0
count_headings (c ∷ s) = if is_heading_end c then count_headings s + 1 else count_headings s

-- `JournalEntry::containsOnly`.
unfoldable pub contains_only : ℕ → List ℕ → Bool
contains_only value [] = true
contains_only value (c ∷ s) = if c == value then contains_only value s else false

module _ (board : Board) where
  open board use {nvm}

  unfoldable pub set_visibility : Log → Bool → Log
  set_visibility l visible =
      let size = nvm.flash_end - nvm.flash_start in
      let same =
        (l.file_config.file_size == size)
        && (if visible then l.file_config.visible else not l.file_config.visible) in
      if l.file_config.present && same then l else record l {
        file_config = record { present = true; file_size = size; visible = visible };
        remounts = l.remounts + 1;
      }

  -- The pages from `p` on that start no later than `last`.
  pub erase_pages : ℕ → Log → ℕ → ℕ → Log
  unfolding direct_erase
  erase_pages zero l p last = l
  erase_pages (suc fuel) l p last = elim (leb p last) [
    | false ↦ l
    | true ↦ erase_pages fuel (direct_erase board l p) (p + board.page_size) last
  ]

  -- The assignments at the top of _clear.
  abbrev pub reset : Log → Log
  reset l = record l {
    start_address = header_bytes;
    journal_pages = journal_size / board.page_size;
    journal_start = header_bytes + metadata_size;
    journal_head = header_bytes + metadata_size;
    data_start = header_bytes + metadata_size + journal_size;
    data_end = header_bytes + metadata_size + journal_size;
    log_end = nvm.flash_end - 4;
    initialised = false;
    row_started = false;
    full = false;
    headings_changed = false;
    time_stamp_changed = false;
    heading_start = 0;
    heading_length = 0;
    row_count = 0;
    row_data = [];
  }

  abbrev pub new_meta_data : Log → LogMetaData
  new_meta_data l = record {
    version = log_version;
    log_end = write_num blank_number l.log_end;
    data_start = write_num blank_number l.data_start;
    daplink_version = take 4 (pad_string 4 (board.decimal (min board.daplink 9999)) 4) ++ 0 ∷ [];
  }

  unfoldable pub clear : Log → Bool → Log
  unfolding erase_pages direct_write cache_write set_visibility put_time_stamp
  clear l full_erase =
      let l1 = direct_write board (reset l) (reset l).log_end (replicate 4 0) in
      let l2 = record l1 { cache = FsCache.clear l1.cache } in
      let last = if full_erase then l2.log_end else l2.data_start in
      let l3 = erase_pages (suc last) l2 nvm.flash_start last in
      let l4 = direct_write board l3 nvm.flash_start board.header in
      let l5 = record l4 { meta_data = new_meta_data l4 } in
      let l6 = cache_write board l5 l5.start_address (meta_bytes l5.meta_data) in
      let l7 = cache_write board l6 l6.journal_head (replicate 8 b'0') in
      let l8 = set_visibility l7 (not full_erase) in
      put_time_stamp (record l8 { initialised = true }) l8.time_stamp_format
