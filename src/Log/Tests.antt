-- ===== src/Log/Tests.antt =====
-- A small log on concrete inputs.
use codal_microbit_v.Base.{
  Memory, ℕ, ◌+◌, ◌%◌, ◌≡◌, ◌⊎◌, refl, arith, true, false, ◌&&◌, some, List, [], ◌∷◌, length,
  get_or, replicate, length-replicate, ltb, leb, ◌==◌, if◌then◌else◌, ok, pos, negsuc,
}
use codal_microbit_v.FsCache
use codal_microbit_v.FsCache.Coherence.{IsCoherent}
use codal_microbit_v.FsCache.Tests.{nvm, cache, cache-IsCoherent}
use codal_microbit_v.Log.{Board, ColumnEntry, no_format, Log}
use codal_microbit_v.Log.Text.{codes, text_eq, starts_arrow, cleaned}
use codal_microbit_v.Log.Cleaning.{has_arrow, has_separator, cleaned_lem}
use codal_microbit_v.Log.Columns.{put_value, has_key}
use codal_microbit_v.Log.Columns.Keys.{AreDistinct, value_of, put_value_lem}
use codal_microbit_v.Log.Reading.{csv, is_newline, read_data, get_row}
use codal_microbit_v.Log.Reading.Finding.{HasRows, get_row_lem, get_row_back}
use codal_microbit_v.Log.Reading.Formats.{read_data_lem}
use codal_microbit_v.Log.Rows.{log_string}
use codal_microbit_v.Log.Rows.Texts.{is_text}
use codal_microbit_v.Log.Rows.Logged.{CanTake, log_string_lem, log_string-get_row}

-- A page of 64 bytes; the libraries' functions are not reached.
abbrev board : Board
board = record {
  nvm = nvm;
  page_size = 64;
  erase = λ m p x. if leb p x && ltb x (p + 64) then 255 else m x;
  header = replicate 2048 b' ';
  header_is_page = length-replicate {A = ℕ} 2048 b' ';
  daplink = 255;
  strtoul = λ s. 0;
  decimal = λ n. (b'0' + n % 10) ∷ [];
}

-- The rows "ab" and "c", and erased memory.
abbrev memory : Memory
memory x =
    if x == 0
    then b'a'
    else if x == 1
    then b'b'
    else if x == 2
    then 10
    else if x == 3
    then b'c'
    else if x == 4
    then 10
    else 255

abbrev rows : List (List ℕ)
rows = codes "ab" ∷ codes "c" ∷ []

abbrev columns : List ColumnEntry
columns = record { key = codes "x"; value = codes "1" } ∷ []

abbrev log : Log
log = record {
  cache = cache memory;
  initialised = true;
  row_started = true;
  full = false;
  serial_mirror = true;
  start_address = 0;
  journal_pages = 0;
  journal_start = 0;
  journal_head = 0;
  data_start = 0;
  data_end = 5;
  log_end = 60;
  heading_start = 0;
  heading_length = 0;
  row_count = 2;
  headings_changed = false;
  time_stamp_changed = false;
  row_data = columns;
  meta_data = record { version = []; log_end = []; data_start = []; daplink_version = [] };
  time_stamp_format = no_format;
  time_stamp_heading = [];
  file_config = record { present = false; file_size = 0; visible = false };
  remounts = 0;
  events = [];
  serial = [];
}

log-HasRows : HasRows board log rows
unfolding is_newline FsCache.init
log-HasRows = record {
  started = refl;
  coherent = cache-IsCoherent memory;
  rows_are = ((refl, refl, refl, (refl, refl, refl, refl)), ((refl, refl, refl, refl), tt));
  end_is = refl;
  lower = omega arith;
  upper = omega arith;
  small = omega arith;
}

log-CanTake : CanTake board log rows (codes "xyz")
unfolding FsCache.init
log-CanTake = record {
  has_rows = log-HasRows;
  bytes = λ x. ground arith;
  erased = λ x le lt. ground arith;
  fits = omega arith;
  log_end_low = omega arith;
  on_page = omega arith;
  in_block = refl;
}

cleans : cleaned true (codes "a-->b,c") ≡ codes "a___b_c"
unfolding cleaned
cleans = refl

cleaned_lem_example :
    let t = cleaned true (codes "a-->b,c") in
    (has_arrow t ≡ false)
    × (has_separator true t ≡ false)
    × (length t ≡ 7)
    × ((i : ℕ) → (get_or t i 0 ≡ get_or (codes "a-->b,c") i 0) ⊎ (get_or t i 0 ≡ b'_'))
    × (cleaned true t ≡ t)
cleaned_lem_example = cleaned_lem true (codes "a-->b,c")

put_value_lem_example :
    let m = put_value log (codes "y") (codes "2,3") in
    AreDistinct m.row_data
    × (value_of m.row_data (codes "y") ≡ some (codes "2_3"))
    × (value_of m.row_data (codes "x") ≡ some (codes "1"))
unfolding cleaned value_of has_key text_eq
put_value_lem_example = put_value_lem log (codes "y") (codes "2,3") (codes "x") (refl, tt) refl

read_data_lem_example :
    let (r, l1) = read_data board log 1 3 csv 5 in
    (r ≡ ok (codes "b\nc")) × IsCoherent l1.cache × (l1.cache.flash ≡ memory)
unfolding FsCache.init
read_data_lem_example =
    read_data_lem board log 1 3 csv 5 refl (cache-IsCoherent memory) (omega arith) (omega arith)
      (omega arith) (omega arith)

get_row_lem_example :
    let (row, l1) = get_row board log (pos 1) in
    (row ≡ codes "c") × IsCoherent l1.cache × (l1.cache.flash ≡ memory)
unfolding FsCache.init
get_row_lem_example = get_row_lem board log rows log-HasRows 1 refl (omega arith)

-- The first row is not found from the end.
get_row_back_example :
    let (row, l1) = get_row board log (negsuc 1) in
    (row ≡ []) × IsCoherent l1.cache × (l1.cache.flash ≡ memory)
unfolding FsCache.init
get_row_back_example = get_row_back board log rows log-HasRows 1 (omega arith)

log_string_lem_example :
    let (r, l1) = log_string board log (codes "xyz\n") in
    (r ≡ ok tt) × HasRows board l1 (codes "ab" ∷ codes "c" ∷ codes "xyz" ∷ []) × (l1.row_count ≡ 3)
unfolding is_text has_arrow has_separator starts_arrow
log_string_lem_example = log_string_lem board rows (codes "xyz") log log-CanTake refl refl refl

log_string-get_row_example :
    (get_row board (log_string board log (codes "xyz\n")).1 (pos 2)).0 ≡ codes "xyz"
unfolding is_text has_arrow has_separator starts_arrow
log_string-get_row_example =
    log_string-get_row board rows (codes "xyz") log 2 log-CanTake refl refl refl refl (omega arith)
