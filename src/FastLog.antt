-- ===== src/FastLog.antt =====
-- inc/MicroBitFastLog.h and source/MicroBitFastLog.cpp: rows of numbers collected in the queue of
-- Circular, and saved to the log of Log. What follows a NULL pointer in the queue is none.
pub mod Saving
pub mod Shape
pub mod Logged
mod Tests
use codal_microbit_v.Base.{
  Memory, ℕ, zero, suc, ◌+◌, ◌-◌, ◌*◌, ◌^◌, ◌%◌, Bool, true, false, not, ◌&&◌, Option, none, some,
  List, [], ◌∷◌, ◌++◌, length, take, replicate, ltb, ◌==◌, if◌then◌else◌, ℤ, pos, negsuc,
}
use codal_microbit_v.Circular.{
  CircularBuffer, new_buffer, Value, nothing, uint32_value, int32_value, float_value,
}
use codal_microbit_v.Circular.Queue.{push_float, push_unsigned, push_int}
use codal_microbit_v.Log.{TimeStampFormat, no_format, milliseconds, divisor}
use codal_microbit_v.Log.Text.{text_eq}

abbrev pub default_columns : ℕ
default_columns = 3

-- The type of the entry is that of its value.
pub record LogColumnEntry : Type 0 where
  pub key : List ℕ
  pub value : Value

-- `row_data` is empty for NULL, and `logger` none.
pub record FastLog : Type 0 where
  pub initialised : Bool
  pub row_started : Bool
  pub first_row_logged : Bool
  pub user_set_columns : Bool
  pub time_stamp_enabled : Bool
  pub column_count : ℕ
  pub row_data : List LogColumnEntry
  pub logger : Option CircularBuffer
  pub time_stamp_format : TimeStampFormat
  pub log_start_time : ℕ

abbrev pub blank_entry : LogColumnEntry
blank_entry = record { key = []; value = nothing }

-- The constructors: without arguments, with a number of columns, and with the queue's size, where the
-- number of columns may be -1, here none.
abbrev pub new_default : FastLog
new_default = record {
  initialised = false;
  row_started = false;
  first_row_logged = false;
  user_set_columns = false;
  time_stamp_enabled = true;
  column_count = default_columns;
  row_data = [];
  logger = none;
  time_stamp_format = milliseconds;
  log_start_time = 0;
}

abbrev pub new_columns : ℕ → FastLog
new_columns columns = record new_default {
  user_set_columns = true;
  time_stamp_enabled = false;
  column_count = columns;
  time_stamp_format = no_format;
}

abbrev pub new_sized : Memory → Option ℕ → ℕ → FastLog
new_sized m none size = record new_default {
  time_stamp_enabled = false;
  logger = some (new_buffer m (some size));
  time_stamp_format = no_format;
}
new_sized m (some columns) size = record (new_columns columns) {
  logger = some (new_buffer m (some size));
}

-- The row's values from the first `n` columns: those that are set are counted up to the first that
-- is not.
unfoldable pub set_columns : ℕ → List LogColumnEntry → ℕ
set_columns zero cs = 0
set_columns (suc n) [] = 0
set_columns (suc n) (c ∷ cs) = elim c.value [
  | nothing ↦ 0
  | uint32_value v ↦ set_columns n cs + 1
  | int32_value v ↦ set_columns n cs + 1
  | float_value v ↦ set_columns n cs + 1
]

-- The types of the first `n` columns are reset.
unfoldable pub clear_values : ℕ → List LogColumnEntry → List LogColumnEntry
clear_values zero cs = cs
clear_values (suc n) [] = []
clear_values (suc n) (c ∷ cs) = record c { value = nothing } ∷ clear_values n cs

-- The loop of _storeValue over the first `n` columns: none where there is no place.
unfoldable pub store_in : ℕ → List LogColumnEntry → List ℕ → Value → Option (List LogColumnEntry)
unfolding text_eq
store_in zero cs key value = none
store_in (suc n) [] key value = none
store_in (suc n) (c ∷ cs) key value =
    let k = if length c.key == 0 then key else c.key in
    let rest = store_in n cs key value in
    if text_eq k key
    then some (record { key = k; value = value } ∷ cs)
    else elim rest [ none ↦ none | some ds ↦ some (record c { key = k } ∷ ds) ]

-- Five more columns, of which the first takes the value.
abbrev pub more_columns : FastLog → List ℕ → Value → FastLog
more_columns l key value = record l {
  row_data =
      take l.column_count l.row_data
      ++ record { key = key; value = value } ∷ replicate 4 blank_entry;
  column_count = l.column_count + 5;
}

-- `memory` is what the queue's memory holds at first; `now` is the system's time in milliseconds.
module _ (alloc : ℕ → Bool) (float_of : ℤ → List ℕ) (memory : Memory) (now : ℕ) where
  -- The allocations succeed.
  unfoldable pub init : FastLog → FastLog
  init l = if l.initialised then l else record l {
    row_data = replicate l.column_count blank_entry;
    logger = elim l.logger [ none ↦ some (new_buffer memory none) | some b ↦ some b ];
    log_start_time = now;
    initialised = true;
  }

  unfoldable pub set_time_stamp : FastLog → TimeStampFormat → FastLog
  set_time_stamp l0 unit =
      let l = init l0 in
      let none_before = divisor l.time_stamp_format == 0 in
      if divisor l.time_stamp_format == divisor unit && none_before
      then l
      else if not l.time_stamp_enabled && l.first_row_logged
      then l
      else record l {
        time_stamp_format = unit;
        time_stamp_enabled = if divisor unit == 0 then l.first_row_logged else true;
      }

  unfoldable pub push_value : Value → CircularBuffer → Option CircularBuffer
  unfolding push_int push_unsigned push_float
  push_value nothing b = push_int alloc float_of (pos 0) b
  push_value (uint32_value v) b = push_unsigned alloc float_of v b
  push_value (int32_value v) b = push_int alloc float_of v b
  push_value (float_value bytes) b = push_float alloc float_of bytes b

  unfoldable pub push_columns : ℕ → List LogColumnEntry → CircularBuffer → Option CircularBuffer
  unfolding push_value
  push_columns zero cs b = some b
  push_columns (suc n) [] b = some b
  push_columns (suc n) (c ∷ cs) b = elim (push_value c.value b) [
    | none ↦ none
    | some d ↦ push_columns n cs d
  ]

  -- The first row fixes the number of columns, unless the program has.
  abbrev pub settled : FastLog → FastLog
  settled l = if l.first_row_logged then l else record l {
    column_count =
        if l.user_set_columns then l.column_count else set_columns l.column_count l.row_data;
    first_row_logged = true;
  }

  -- The time since the start, where it is wanted, and the row.
  unfoldable pub push_row : FastLog → CircularBuffer → Option CircularBuffer
  unfolding push_columns
  push_row l b =
      let stamped =
        if l.time_stamp_enabled
        then push_int alloc float_of (pos ((now + 2 ^ 64 - l.log_start_time) % 2 ^ 64 % 1000000000))
            b
        else some b in
      elim stamped [ none ↦ none | some d ↦ push_columns l.column_count l.row_data d ]

  -- The row is over once the queue has it.
  abbrev pub with_logger : FastLog → Option CircularBuffer → Option FastLog
  with_logger l none = none
  with_logger l (some b) = some (record l { logger = some b; row_started = false })

  abbrev pub push_to : FastLog → Option CircularBuffer → Option CircularBuffer
  push_to l none = none
  push_to l (some b) = push_row l b

  unfoldable pub end_row : FastLog → Option FastLog
  unfolding init push_row set_columns
  end_row l =
      if l.row_started
      then (let l1 = settled (init l) in with_logger l1 (push_to l1 l1.logger))
      else some l

  abbrev pub fresh_row : FastLog → FastLog
  fresh_row l = record l { row_data = clear_values l.column_count l.row_data; row_started = true }

  abbrev pub begun : Option FastLog → Option FastLog
  begun none = none
  begun (some l) = some (fresh_row l)

  unfoldable pub begin_row : FastLog → Option FastLog
  unfolding init end_row clear_values
  begin_row l0 = let l = init l0 in begun (if l.row_started then end_row l else some l)

  unfoldable pub store_started : FastLog → List ℕ → Value → FastLog
  unfolding store_in
  store_started l key value = elim (store_in l.column_count l.row_data key value) [
    | some cs ↦ record l { row_data = cs }
    | none ↦
        if not l.first_row_logged && not l.user_set_columns then more_columns l key value else l
  ]

  -- `init` comes first again in `beginRow`, where it does nothing.
  unfoldable pub store_value : FastLog → List ℕ → Value → FastLog
  unfolding init store_started clear_values
  store_value l0 key value =
      let l = init l0 in store_started (if l.row_started then l else fresh_row l) key value

  -- logData of an `int`; of the other types it stores the value as it is.
  unfoldable pub log_int : FastLog → List ℕ → ℤ → FastLog
  unfolding store_value
  log_int l key (pos n) = store_value l key (uint32_value n)
  log_int l key (negsuc n) = store_value l key (int32_value (negsuc n))
