-- ===== src/FastLog/Shape.antt =====
-- The shape of the rows does not change once one is in the queue: saveLog counts on that.
use mathlib.Core.Path.{subst}
use codal_microbit_v.Base.{
  Memory, ℕ, ◌≡◌, refl, sym, ◌∙◌, arith, Bool, true, false, not, ◌&&◌, Option, none, some, List,
  ◌==◌, if◌then◌else◌, Option-cases, Bool-cases, inl, inr, ℤ,
}
use codal_microbit_v.Circular.{CircularBuffer, Value}
use codal_microbit_v.Log.{TimeStampFormat, divisor}
use codal_microbit_v.FastLog.{
  FastLog, store_in, init, set_time_stamp, settled, with_logger, push_to, end_row, fresh_row, begun,
  begin_row, store_started, store_value,
}

-- `l` follows `k`, which has logged a row: rows are still as long.
pub record SameShape (k l : FastLog) : Type 0 where
  pub logged : l.first_row_logged ≡ true
  pub columns : l.column_count ≡ k.column_count
  pub stamped : l.time_stamp_enabled ≡ k.time_stamp_enabled

SameShape-trans : (j k l : FastLog) → SameShape j k → SameShape k l → SameShape j l
SameShape-trans j k l p q = record {
  logged = q.logged;
  columns = q.columns ∙ p.columns;
  stamped = q.stamped ∙ p.stamped;
}

-- The operation, if it does not go wrong, keeps the shape.
abbrev pub HasShape : FastLog → Option FastLog → Type 0
HasShape k none = Unit {0}
HasShape k (some l) = SameShape k l

HasShape-trans : (j k : FastLog) (o : Option FastLog) → SameShape j k → HasShape k o → HasShape j o
HasShape-trans j k none p h = tt
HasShape-trans j k (some l) p h = SameShape-trans j k l p h

module _ (alloc : ℕ → Bool) (float_of : ℤ → List ℕ) (memory : Memory) (now : ℕ) where
  init-SameShape :
      (l : FastLog) → l.first_row_logged ≡ true → SameShape l (init alloc float_of memory now l)
  unfolding init
  init-SameShape l first = elim (Bool-cases l.initialised) [
    | inl y ↦ simp (y) (record { logged = first; columns = refl; stamped = refl })
    | inr n ↦ simp (n) (record { logged = first; columns = refl; stamped = refl })
  ]

  set_time_stamp-SameShape :
      (l : FastLog) (unit : TimeStampFormat)
      → l.first_row_logged ≡ true
      → SameShape l (set_time_stamp alloc float_of memory now l unit)
  unfolding set_time_stamp
  set_time_stamp-SameShape l0 unit first =
      let l = init alloc float_of memory now l0 in
      let p = init-SameShape l0 first in
      elim (Bool-cases
        (divisor l.time_stamp_format == divisor unit && divisor l.time_stamp_format == 0)) [
          | inl y ↦ rw y p
          | inr n ↦ rw n (elim (Bool-cases (not l.time_stamp_enabled && l.first_row_logged)) [
            | inl off ↦ rw off p
            | inr on ↦
                let kept : (if divisor unit == 0 then l.first_row_logged else true)
                    ≡ l.time_stamp_enabled =
                  ground (arith, p.logged) in
                rw on
                  (record { logged = p.logged; columns = p.columns; stamped = kept ∙ p.stamped })
          ])
        ]

  settled-SameShape :
      (l : FastLog) → l.first_row_logged ≡ true → SameShape l (settled alloc float_of memory now l)
  settled-SameShape l first =
      simp (first) (record { logged = first; columns = refl; stamped = refl })

  with_logger-HasShape :
      (k l : FastLog) (o : Option CircularBuffer)
      → SameShape k l
      → HasShape k (with_logger alloc float_of memory now l o)
  with_logger-HasShape k l none p = tt
  with_logger-HasShape k l (some b) p = record {
    logged = p.logged;
    columns = p.columns;
    stamped = p.stamped;
  }

  fresh_row-SameShape :
      (k l : FastLog) → SameShape k l → SameShape k (fresh_row alloc float_of memory now l)
  fresh_row-SameShape k l p = record { logged = p.logged; columns = p.columns; stamped = p.stamped }

  store_started-SameShape :
      (k l : FastLog) (key : List ℕ) (value : Value)
      → SameShape k l
      → SameShape k (store_started alloc float_of memory now l key value)
  unfolding store_started
  store_started-SameShape k l key value p =
      elim (Option-cases (store_in l.column_count l.row_data key value)) [
        | inr found ↦
            rw (found.1, store_started)
              (record { logged = p.logged; columns = p.columns; stamped = p.stamped })
        | inl absent ↦
            let fixed : (not l.first_row_logged && not l.user_set_columns) ≡ false =
              ground (arith, p.logged) in
            rw (absent, store_started) (rw fixed p)
      ]

  end_row-HasShape :
      (l : FastLog) → l.first_row_logged ≡ true → HasShape l (end_row alloc float_of memory now l)
  unfolding end_row
  end_row-HasShape l first =
      let l1 = init alloc float_of memory now l in
      let p = init-SameShape l first in
      let l2 = settled alloc float_of memory now l1 in
      let q = SameShape-trans l l1 l2 p (settled-SameShape l1 p.logged) in
      let pushed =
        with_logger alloc float_of memory now l2 (push_to alloc float_of memory now l2 l2.logger) in
      elim (Bool-cases l.row_started) [
        | inl y ↦
            subst (λ (b : Bool). HasShape l (if b then pushed else some l)) (sym y)
              (with_logger-HasShape l l2 (push_to alloc float_of memory now l2 l2.logger) q)
        | inr n ↦
            subst (λ (b : Bool). HasShape l (if b then pushed else some l)) (sym n)
              (record { logged = first; columns = refl; stamped = refl })
      ]

  begun-HasShape :
      (k : FastLog) (o : Option FastLog)
      → HasShape k o
      → HasShape k (begun alloc float_of memory now o)
  begun-HasShape k none h = tt
  begun-HasShape k (some l) h = fresh_row-SameShape k l h

  begin_row-HasShape :
      (l : FastLog) → l.first_row_logged ≡ true → HasShape l (begin_row alloc float_of memory now l)
  unfolding begin_row
  begin_row-HasShape l first =
      let l1 = init alloc float_of memory now l in
      let p = init-SameShape l first in
      let ended = end_row alloc float_of memory now l1 in
      let kept : HasShape l (if l1.row_started then ended else some l1) =
        elim (Bool-cases l1.row_started) [
          | inl y ↦
              subst (λ (b : Bool). HasShape l (if b then ended else some l1)) (sym y)
                (HasShape-trans l l1 ended p (end_row-HasShape l1 p.logged))
          | inr n ↦ subst (λ (b : Bool). HasShape l (if b then ended else some l1)) (sym n) p
        ] in
      begun-HasShape l _ kept

  store_value-SameShape :
      (l : FastLog) (key : List ℕ) (value : Value)
      → l.first_row_logged ≡ true
      → SameShape l (store_value alloc float_of memory now l key value)
  unfolding store_value
  store_value-SameShape l key value first =
      let l1 = init alloc float_of memory now l in
      let p = init-SameShape l first in
      let open_row = fresh_row alloc float_of memory now l1 in
      let kept : SameShape l (if l1.row_started then l1 else open_row) =
        elim (Bool-cases l1.row_started) [
          | inl y ↦ subst (λ (b : Bool). SameShape l (if b then l1 else open_row)) (sym y) p
          | inr n ↦
              subst (λ (b : Bool). SameShape l (if b then l1 else open_row)) (sym n)
                (fresh_row-SameShape l l1 p)
        ] in
      store_started-SameShape l _ key value kept

  -- Once a row has been logged, setTimeStamp, logData and, where they do not go wrong, beginRow and
  -- endRow change neither the number of columns nor whether rows are stamped.
  pub rows_keep_shape :
      (l : FastLog) (unit : TimeStampFormat) (key : List ℕ) (value : Value)
      → l.first_row_logged ≡ true
      → SameShape l (set_time_stamp alloc float_of memory now l unit)
        × SameShape l (store_value alloc float_of memory now l key value)
        × HasShape l (begin_row alloc float_of memory now l)
        × HasShape l (end_row alloc float_of memory now l)
  rows_keep_shape l unit key value first = (
    set_time_stamp-SameShape l unit first,
    store_value-SameShape l key value first,
    begin_row-HasShape l first,
    end_row-HasShape l first,
  )
