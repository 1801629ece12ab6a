-- ===== src/FastLog/Tests.antt =====
-- A fast log with one column on concrete inputs.
use codal_microbit_v.Base.{
  Memory, ℕ, ◌≡◌, refl, Bool, true, none, some, List, [], ◌∷◌, length, ℤ, pos, arith,
}
use codal_microbit_v.Circular.{uint32_value, bytes_number, init}
use codal_microbit_v.Circular.Bytes.{queue, region}
use codal_microbit_v.Circular.Queue.{count, get}
use codal_microbit_v.Log.{seconds}
use codal_microbit_v.Log.Text.{codes}
use codal_microbit_v.FastLog
use codal_microbit_v.FastLog.{FastLog, new_columns, log_int, end_row}
use codal_microbit_v.FastLog.Shape.{SameShape, HasShape}
use codal_microbit_v.FastLog.Logged.{push_all, rows_have_length}

abbrev memory : Memory
memory x = x

abbrev alloc : ℕ → Bool
alloc i = true

abbrev float_of : ℤ → List ℕ
float_of v = 0 ∷ 0 ∷ 0 ∷ 0 ∷ []

-- A row has been logged, and another one is open.
abbrev fast_log : FastLog
fast_log = record (new_columns 1) {
  initialised = true;
  row_started = true;
  first_row_logged = true;
  row_data = record { key = codes "x"; value = uint32_value 5 } ∷ [];
  logger = some (queue memory 4 1 (some (region 4 0 1)));
}

-- The value of the row joins the queue.
logged_twice :
    elim (end_row alloc float_of memory 9
        (log_int alloc float_of memory 9 fast_log (codes "x") (pos 6)))
      as (λ o. Type 0) [
        | none ↦ ⊥
        | some l ↦ elim l.logger as (λ o. Type 0) [
          | none ↦ ⊥
          | some b ↦ (count b ≡ 2) × (get b 0 ≡ uint32_value 0) × (get b 1 ≡ uint32_value 6)
        ]
      ]
unfolding end_row log_int count get bytes_number init
logged_twice = (refl, refl, refl)

rows_have_length_example :
    (end_row alloc float_of memory 9 fast_log
      ≡ FastLog.with_logger alloc float_of memory 9 fast_log (
          push_all alloc float_of memory 9
            (uint32_value 5 ∷ [])
            (queue memory 4 1 (some (region 4 0 1)))))
    × (length (uint32_value 5 ∷ []) ≡ 1)
    × SameShape fast_log (FastLog.set_time_stamp alloc float_of memory 9 fast_log seconds)
    × SameShape fast_log
        (FastLog.store_value alloc float_of memory 9 fast_log (codes "y") (uint32_value 3))
    × HasShape fast_log (FastLog.begin_row alloc float_of memory 9 fast_log)
    × HasShape fast_log (end_row alloc float_of memory 9 fast_log)
rows_have_length_example =
    rows_have_length alloc float_of memory 9 fast_log (queue memory 4 1 (some (region 4 0 1)))
      seconds (codes "y") (uint32_value 3) refl refl refl refl (omega arith)
