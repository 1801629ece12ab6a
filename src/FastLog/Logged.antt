-- ===== src/FastLog/Logged.antt =====
-- What endRow puts into the queue, and how long the rows are.
use codal_microbit_v.Base.{
  Memory, ℕ, zero, suc, ◌+◌, ◌-◌, ◌^◌, ◌%◌, ◌≤◌, ◌≡◌, refl, ap, ◌∙◌, arith, Bool, true, false,
  Option, none, some, List, [], ◌∷◌, ◌++◌, length, if◌then◌else◌, Bool-cases, inl, inr, ℤ, pos,
}
use codal_microbit_v.Circular.{CircularBuffer, Value, int32_value}
use codal_microbit_v.Circular.Queue.{push_int}
use codal_microbit_v.Log.{TimeStampFormat}
use codal_microbit_v.FastLog.{
  FastLog, LogColumnEntry, init, set_time_stamp, push_value, push_columns, push_row, push_to,
  settled, with_logger, end_row, begin_row, store_value,
}
use codal_microbit_v.FastLog.Shape.{SameShape, HasShape, rows_keep_shape}

-- The values of the first `n` columns.
abbrev pub values : ℕ → List LogColumnEntry → List Value
values zero cs = []
values (suc n) [] = []
values (suc n) (c ∷ cs) = c.value ∷ values n cs

length-values : (n : ℕ) (cs : List LogColumnEntry) → n ≤ length cs → length (values n cs) ≡ n
length-values zero cs le = refl
length-values (suc n) [] le = absurd (omega arith)
length-values (suc n) (c ∷ cs) le = ap suc (length-values n cs (omega arith))

-- The elements of a row: the milliseconds since the start, where rows are stamped, and the values.
abbrev pub row_values : ℕ → FastLog → List Value
row_values now l =
    (if l.time_stamp_enabled
      then int32_value (pos ((now + 2 ^ 64 - l.log_start_time) % 2 ^ 64 % 1000000000)) ∷ []
      else [])
    ++ values l.column_count l.row_data

abbrev pub row_length : FastLog → ℕ
row_length l = if l.time_stamp_enabled then suc l.column_count else l.column_count

and_then_ext :
    {A B : Type 0} (o : Option A) (f g : A → Option B)
    → ((a : A) → f a ≡ g a)
    → elim o as (λ o. Option B) [ none ↦ none | some a ↦ f a ]
      ≡ elim o as (λ o. Option B) [ none ↦ none | some a ↦ g a ]
and_then_ext none f g same = refl
and_then_ext (some a) f g same = same a

if_true : {A : Type 0} (b : Bool) (x y : A) → b ≡ true → (if b then x else y) ≡ x
if_true b x y e = rw e refl

module _ (alloc : ℕ → Bool) (float_of : ℤ → List ℕ) (memory : Memory) (now : ℕ) where
  -- Values pushed one after the other.
  unfoldable pub push_all : List Value → CircularBuffer → Option CircularBuffer
  push_all [] b = some b
  push_all (v ∷ vs) b = elim (push_value alloc float_of memory now v b) [
    | none ↦ none
    | some d ↦ push_all vs d
  ]

  push_columns_lem :
      (n : ℕ) (cs : List LogColumnEntry) (b : CircularBuffer)
      → push_columns alloc float_of memory now n cs b ≡ push_all (values n cs) b
  unfolding push_columns push_all
  push_columns_lem zero cs b = refl
  push_columns_lem (suc n) [] b = refl
  push_columns_lem (suc n) (c ∷ cs) b =
      and_then_ext (push_value alloc float_of memory now c.value b)
        (push_columns alloc float_of memory now n cs) (push_all (values n cs))
        (push_columns_lem n cs)

  -- With or without an element before the others.
  push_all_after :
      (stamped : Bool) (v : Value) (vs : List Value) (b : CircularBuffer)
      → elim (if stamped then push_value alloc float_of memory now v b else some b)
          as (λ o. Option CircularBuffer) [ none ↦ none | some d ↦ push_all vs d ]
        ≡ push_all ((if stamped then v ∷ [] else []) ++ vs) b
  unfolding push_all
  push_all_after true v vs b = refl
  push_all_after false v vs b = refl

  push_row_cases :
      (stamped : Bool) (t : ℤ) (n : ℕ) (cs : List LogColumnEntry) (b : CircularBuffer)
      → elim (if stamped then push_int alloc float_of t b else some b)
          as (λ o. Option CircularBuffer) [
            | none ↦ none
            | some d ↦ push_columns alloc float_of memory now n cs d
          ]
        ≡ push_all ((if stamped then int32_value t ∷ [] else []) ++ values n cs) b
  unfolding push_value
  push_row_cases stamped t n cs b =
      and_then_ext (if stamped then push_int alloc float_of t b else some b)
        (push_columns alloc float_of memory now n cs) (push_all (values n cs))
        (push_columns_lem n cs)
      ∙ push_all_after stamped (int32_value t) (values n cs) b

  push_row_lem :
      (l : FastLog) (b : CircularBuffer)
      → push_row alloc float_of memory now l b ≡ push_all (row_values now l) b
  unfolding push_row
  push_row_lem l b =
      push_row_cases l.time_stamp_enabled
        (pos ((now + 2 ^ 64 - l.log_start_time) % 2 ^ 64 % 1000000000)) l.column_count l.row_data b

  length-row_values :
      (l : FastLog) → l.column_count ≤ length l.row_data → length (row_values now l) ≡ row_length l
  length-row_values l le = elim (Bool-cases l.time_stamp_enabled) [
    | inl stamped ↦ rw stamped (ap suc (length-values l.column_count l.row_data le))
    | inr plain ↦ rw plain (length-values l.column_count l.row_data le)
  ]

  end_row_pushes :
      (l : FastLog) (b : CircularBuffer)
      → l.initialised ≡ true
      → l.first_row_logged ≡ true
      → l.row_started ≡ true
      → l.logger ≡ some b
      → end_row alloc float_of memory now l
        ≡ with_logger alloc float_of memory now l (push_all (row_values now l) b)
  unfolding end_row init
  end_row_pushes l b ready first started has =
      if_true l.row_started (pushed (ready_row (init alloc float_of memory now l))) (some l) started
      ∙ ap (λ k. pushed (ready_row k)) (if_true l.initialised l _ ready)
      ∙ ap pushed (if_true l.first_row_logged l _ first)
      ∙ ap (λ o. with_logger alloc float_of memory now l (push_to alloc float_of memory now l o))
          has
      ∙ ap (with_logger alloc float_of memory now l) (push_row_lem l b)
    where
      ready_row : FastLog → FastLog
      ready_row k = settled alloc float_of memory now k

      pushed : FastLog → Option FastLog
      pushed k =
          with_logger alloc float_of memory now k (push_to alloc float_of memory now k k.logger)

  -- Of a fast log that is initialised, has logged a row, has another open, and has a queue and an entry
  -- for every column: endRow pushes exactly the milliseconds since the start, where rows are stamped,
  -- and then the value of every column, in order; none is pushed behind one that goes wrong. That is an
  -- element for every column and, where rows are stamped, one more. setTimeStamp, logData and, where
  -- they do not go wrong, beginRow and endRow change neither the number of columns nor whether rows are
  -- stamped.
  pub rows_have_length :
      (l : FastLog) (b : CircularBuffer) (unit : TimeStampFormat) (key : List ℕ) (value : Value)
      → l.initialised ≡ true
      → l.first_row_logged ≡ true
      → l.row_started ≡ true
      → l.logger ≡ some b
      → l.column_count ≤ length l.row_data
      → (end_row alloc float_of memory now l
          ≡ with_logger alloc float_of memory now l (push_all (row_values now l) b))
        × (length (row_values now l) ≡ row_length l)
        × SameShape l (set_time_stamp alloc float_of memory now l unit)
        × SameShape l (store_value alloc float_of memory now l key value)
        × HasShape l (begin_row alloc float_of memory now l)
        × HasShape l (end_row alloc float_of memory now l)
  rows_have_length l b unit key value ready first started has le =
      let kept = rows_keep_shape alloc float_of memory now l unit key value first in
      (
        end_row_pushes l b ready first started has,
        length-row_values l le,
        kept.0,
        kept.1,
        kept.2,
        kept.3,
      )
