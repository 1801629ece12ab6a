-- ===== src/Log/Rows.antt =====
-- Rows: _logString, which appends a line to the log, and beginRow, logData and endRow.
pub mod Appending
pub mod Texts
pub mod Logged
use codal_microbit_v.Base.{
  ℕ, zero, suc, ◌+◌, ◌-◌, ◌*◌, ◌/◌, ◌%◌, ◌^◌, Bool, true, false, not, ◌&&◌, ◌||◌, List, [], ◌∷◌,
  ◌++◌, length, take, drop, replicate, min, ltb, leb, ◌==◌, if◌then◌else◌, Result, ok, err,
  no_resources, invalid_state,
}
use codal_microbit_v.FsCache
use codal_microbit_v.Log.{
  Board, cache_block_size, journal_entry_size, meta_size, TimeStampFormat, divisor, log_full,
  new_row, Log, heading_count, notify, cache_write, direct_erase,
}
use codal_microbit_v.Log.Text.{c_string, hex_digits, pad_string, cleaned}
use codal_microbit_v.Log.Columns.{
  add_heading, put_value, empty_values, join, keys, values, has_value,
}
use codal_microbit_v.Log.Starting.{set_visibility}
use codal_microbit_v.Log.Loading.{init}

-- `setSerialMirroring`.
pub set_serial_mirroring : Log → Bool → Log
set_serial_mirroring l enable = record l { serial_mirror = enable }

-- The text of a time stamp: `t` counts milliseconds, or hundredths of the other units.
pub stamp_text : (ℕ → List ℕ) → TimeStampFormat → ℕ → List ℕ
unfolding pad_string
stamp_text decimal format time =
    let t = time / divisor format in
    let fine = ltb 1 (divisor format) in
    let whole = if fine then t % 1000000000 / 100 else t % 1000000000 in
    let billions = if fine then t / 1000000000 / 100 else t / 1000000000 in
    let fraction = if fine then t % 1000000000 % 100 else 0 in
    let front =
      if billions == 0 then decimal whole else decimal billions ++ pad_string 9 (decimal whole) 9 in
    if fine then front ++ b'.' ∷ pad_string 2 (decimal fraction) 2 else front

-- _beginRow where no row is open.
abbrev pub fresh_row : Log → Log
fresh_row l = record l { row_data = empty_values l.row_data; row_started = true }

module _ (board : Board) where
  open board use {nvm}

  -- The loop over the pages that the line lies in; `bytes` are those not written yet.
  unfoldable pub write_pages : ℕ → Log → List ℕ → Log
  unfolding direct_erase cache_write
  write_pages zero l bytes = l
  write_pages (suc fuel) l bytes = elim (ltb 0 (length bytes)) [
    | false ↦ l
    | true ↦
        let space = board.page_size - l.data_end % board.page_size in
        let n = min (length bytes) space in
        let l1 =
          if leb space (length bytes) && ltb (l.data_end + space) l.log_end
          then direct_erase board l ((l.data_end / board.page_size + 1) * board.page_size)
          else l in
        let l2 = cache_write board l1 l1.data_end (take n bytes) in
        write_pages fuel (record l2 { data_end = l2.data_end + n }) (drop n bytes)
  ]

  -- The journal's head moves on; a page that it comes to is erased.
  pub move_head : Log → Log
  unfolding direct_erase
  move_head l =
      let next = l.journal_head + journal_entry_size in
      let head = if next == l.data_start then l.journal_start else next in
      if next % board.page_size == 0
      then (let l1 = record l { journal_head = head; cache = (FsCache.erase l.cache head).1 } in
          direct_erase board l1 head)
      else record l { journal_head = next }

  -- A new entry of the journal, and the old one cleared.
  unfoldable pub write_journal : Log → Log
  unfolding move_head cache_write hex_digits
  write_journal l =
      let l1 = move_head l in
      let size = (l1.data_end - l1.data_start) / cache_block_size * cache_block_size in
      let l2 = cache_write board l1 l1.journal_head (hex_digits 8 size) in
      cache_write board l2 l.journal_head (replicate journal_entry_size 0)

  abbrev pub mirrored : Log → List ℕ → Log
  mirrored l bytes =
      if l.serial_mirror && ltb 0 (length bytes)
      then record l { serial = l.serial ++ (take (length bytes - 1) bytes ++ 13 ∷ 10 ∷ []) }
      else l

  -- A line that does not fit.
  unfoldable pub refuse_line : Log → Result (Unit {0}) × Log
  unfolding cache_write
  refuse_line l =
      let marked =
        if l.full
        then l
        else (let l1 = cache_write board l (l.log_end + 1) (b'F' ∷ b'U' ∷ b'L' ∷ []) in
            record l1 { full = true }) in
      (err no_resources, notify log_full marked)

  -- What follows the loop: the journal, where the data have come to another block of the cache, and
  -- the count. All of a line is written, so that the last return is not reached.
  unfoldable pub finish_line : Log → Log → Result (Unit {0}) × Log
  unfolding write_journal
  finish_line old l =
      let l1 =
        if l.data_end / cache_block_size == old.data_end / cache_block_size
        then l
        else write_journal l in
      (ok tt, notify new_row (record l1 { row_count = l1.row_count + 1 }))

  -- A line that fits.
  unfoldable pub append_line : Log → List ℕ → Result (Unit {0}) × Log
  append_line l line =
      let bytes = cleaned false line in
      finish_line l (write_pages (length bytes) (mirrored l bytes) bytes)

  -- The line, if there is room for it.
  unfoldable pub put_line : Log → List ℕ → Result (Unit {0}) × Log
  put_line l line =
      if ltb ((l.log_end + 2 ^ 32 - l.data_end) % 2 ^ 32) (length line)
      then refuse_line l
      else append_line l line

  -- The file is shown again before the first line.
  abbrev pub shown : Log → Log
  shown l = if l.data_start == l.data_end then set_visibility board l true else l

  -- _logString.
  unfoldable pub log_string : Log → List ℕ → Result (Unit {0}) × Log
  log_string l s = put_line (shown (init board l)) (c_string s)

  -- `init` comes first again in `_beginRow`, where it does nothing.
  unfoldable pub log_data : Log → List ℕ → List ℕ → Log
  unfolding init put_value empty_values
  log_data l key value =
      let l1 = init board l in put_value (if l1.row_started then l1 else fresh_row l1) key value

  -- The column of the time, where one is to be added.
  pub add_time_column : Log → Log
  unfolding add_heading
  add_time_column l =
      if l.time_stamp_changed
      then (let l1 = record l { time_stamp_changed = false } in
          if divisor l.time_stamp_format == 0
          then l1
          else add_heading l1 l.time_stamp_heading [] (l.data_start == l.data_end))
      else l

  -- The time, where the row has a value; `time` is the system's, in milliseconds.
  pub add_time : Log → ℕ → Log
  unfolding log_data stamp_text has_value
  add_time l time =
      if has_value l.row_data && not (divisor l.time_stamp_format == 0)
      then log_data l l.time_stamp_heading (stamp_text board.decimal l.time_stamp_format time)
      else l

  -- The line of headings: the old ones are zeroed, and the new ones stored behind them and logged.
  pub write_headings : Log → Log
  unfolding cache_write log_string join keys
  write_headings l =
      if l.headings_changed
      then (let start =
            if l.heading_start == 0 then l.start_address + meta_size else l.heading_start in
          let line = join (keys l.row_data) in
          let l1 = cache_write board l start (replicate l.heading_length 0) in
          let l2 = cache_write board l1 (start + l.heading_length) line in
          let l3 =
            (log_string
              (record l2 { heading_start = start + l.heading_length; heading_length = length line })
              line).1 in
          record l3 { headings_changed = false })
      else l

  pub write_values : Log → Log
  unfolding log_string join values has_value
  write_values l = if has_value l.row_data then (log_string l (join (values l.row_data))).1 else l

  unfoldable pub end_row : Log → ℕ → Result (Unit {0}) × Log
  unfolding init add_time_column add_time write_headings write_values
  end_row l time =
      if l.row_started
      then (let l1 =
            write_values (write_headings (add_time (add_time_column (init board l)) time)) in
          (if l1.full then err no_resources else ok tt, record l1 { row_started = false }))
      else (err invalid_state, l)

  pub begin_row : Log → ℕ → Result (Unit {0}) × Log
  unfolding init end_row empty_values
  begin_row l time =
      let l1 = init board l in
      let l2 = if l1.row_started then (end_row l1 time).1 else l1 in (ok tt, fresh_row l2)
