-- ===== src/FastLog/Saving.antt =====
-- saveLog: the rows in the queue, oldest first, as rows of text in the log.
use codal_microbit_v.Base.{
  ℕ, zero, suc, ◌+◌, ◌^◌, ◌%◌, true, false, ◌&&◌, Option, none, some, List, [], ◌∷◌, ltb, ◌==◌,
  if◌then◌else◌, ℤ, pos,
}
use codal_microbit_v.Circular.{
  CircularBuffer, Value, nothing, uint32_value, int32_value, float_value, signed, unsigned,
}
use codal_microbit_v.Circular.Queue.{pop, count}
use codal_microbit_v.Log.{Board, TimeStampFormat, no_format, divisor, Log}
use codal_microbit_v.Log.Starting.{time_heading}
use codal_microbit_v.Log.Loading
use codal_microbit_v.Log.Rows
use codal_microbit_v.FastLog.{LogColumnEntry, FastLog}

-- The conversions of numbers by libraries: the text of an `int`, the text of a float as floatToStr
-- makes it, and a float as an `int`.
pub record Texts : Type 0 where
  pub int_text : ℤ → List ℕ
  pub float_text : List ℕ → List ℕ
  pub float_int : List ℕ → ℤ

-- `(int)value.uint32Val` is the number's two's complement.
abbrev pub value_text : Texts → Value → List ℕ
value_text texts nothing = []
value_text texts (uint32_value v) = texts.int_text (signed 32 v)
value_text texts (int32_value v) = texts.int_text v
value_text texts (float_value bytes) = texts.float_text bytes

-- The time of a row; an element without a type leaves the one before.
abbrev pub time_offset : Texts → ℤ → Value → ℤ
time_offset texts old nothing = old
time_offset texts old (uint32_value v) = signed 32 v
time_offset texts old (int32_value v) = v
time_offset texts old (float_value bytes) = texts.float_int bytes

abbrev pub time_format_string : TimeStampFormat → List ℕ
time_format_string format = if divisor format == 0 then [] else time_heading format

unfoldable pub drop_elements : ℕ → CircularBuffer → CircularBuffer
drop_elements zero b = b
drop_elements (suc n) b = drop_elements n (pop b).1

module _ (board : Board) (texts : Texts) (now : ℕ) where
  abbrev pub time_text : TimeStampFormat → ℕ → ℤ → List ℕ
  time_text format start offset =
      Rows.stamp_text board.decimal format ((start + unsigned 64 offset) % 2 ^ 64)

  -- The cells of a row.
  unfoldable pub save_cells : List LogColumnEntry → ℕ → CircularBuffer → Log → CircularBuffer × Log
  save_cells cs zero b log = (b, log)
  save_cells [] (suc n) b log = (b, log)
  save_cells (c ∷ cs) (suc n) b log =
      save_cells cs n (pop b).1 (Rows.log_data board log c.key (value_text texts (pop b).0))

  -- A row: its time, which is dropped where it is not wanted, and its cells.
  unfoldable pub save_row : FastLog → ℤ → CircularBuffer → Log → (CircularBuffer × Log) × ℤ
  unfolding save_cells
  save_row l old b log0 =
      let log = (Rows.begin_row board log0 now).1 in
      let timed = l.time_stamp_enabled && ltb 0 (divisor l.time_stamp_format) in
      let offset = if timed then time_offset texts old (pop b).0 else old in
      let stamped =
        if timed
        then Rows.log_data board log (time_format_string l.time_stamp_format)
            (time_text l.time_stamp_format l.log_start_time offset)
        else log in
      let (b1, log1) =
        save_cells l.row_data l.column_count (if l.time_stamp_enabled then (pop b).1 else b)
          stamped in
      ((b1, (Rows.end_row board log1 now).1), offset)

  -- Rows until the queue is empty; each takes an element from it where there are columns.
  unfoldable pub save_rows : ℕ → FastLog → ℤ → CircularBuffer → Log → CircularBuffer × Log
  unfolding save_row
  save_rows zero l old b log = (b, log)
  save_rows (suc fuel) l old b log = elim (count b == 0) [
    | true ↦ (b, log)
    | false ↦ let ((b1, log1), offset) = save_row l old b log in save_rows fuel l offset b1 log1
  ]

  -- How many elements belong to no whole row. Without columns the source divides by 0 here.
  abbrev pub extra_cells : FastLog → ℕ → ℕ
  extra_cells l entries =
      if l.time_stamp_enabled then entries % (l.column_count + 1) else entries % l.column_count

  -- The whole of saveLog on a queue; `log` is the copy of the runtime's log that it works on.
  unfoldable pub save_queue : FastLog → CircularBuffer → Log → CircularBuffer × Log
  unfolding drop_elements save_rows
  save_queue l b log0 =
      let log = Rows.set_serial_mirroring (Loading.set_time_stamp board log0 no_format) false in
      if count b == 0
      then (b, log)
      else save_rows (count b) l (pos 0) (drop_elements (extra_cells l (count b)) b) log

  abbrev pub saved : FastLog → CircularBuffer × Log → FastLog × Log
  saved l (b, log) = (record l { logger = some b }, log)

  abbrev pub save_logger : FastLog → Option CircularBuffer → Log → FastLog × Log
  save_logger l none log = (l, log)
  save_logger l (some b) log = saved l (save_queue l b log)

  unfoldable pub save_log : FastLog → Log → FastLog × Log
  unfolding save_queue
  save_log l log = if l.initialised then save_logger l l.logger log else (l, log)
