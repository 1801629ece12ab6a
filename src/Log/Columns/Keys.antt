-- ===== src/Log/Columns/Keys.antt =====
-- The columns as a table of values by their keys.
use mathlib.Core.Bool.{false≢true}
use codal_microbit_v.Base.{
  ℕ, ◌≡◌, refl, sym, ap, ap₂, ◌∙◌, arith, Bool, true, false, Option, none, some, List, [], ◌∷◌,
  ◌++◌, ◌==◌, eq→==, ==→eq, if◌then◌else◌, Bool-cases, inl, inr,
}
use codal_microbit_v.Log.{ColumnEntry, Log}
use codal_microbit_v.Log.Text.{text_eq, cleaned}
use codal_microbit_v.Log.Columns.{has_key, set_value, add_heading, put_value}

pub text_eq_refl : (s : List ℕ) → text_eq s s ≡ true
unfolding text_eq
text_eq_refl [] = refl
text_eq_refl (c ∷ s) = rw (eq→== c c refl) (text_eq_refl s)

pub text_eq_sound : (s t : List ℕ) → text_eq s t ≡ true → s ≡ t
unfolding text_eq
text_eq_sound [] [] h = refl
text_eq_sound [] (d ∷ t) h = cc
text_eq_sound (c ∷ s) [] h = cc
text_eq_sound (c ∷ s) (d ∷ t) h = elim (Bool-cases (c == d)) [
  | inl y ↦
      let same : text_eq s t ≡ true = ground arith in ap₂ ◌∷◌ (==→eq c d y) (text_eq_sound s t same)
  | inr n ↦ ground arith
]

text_eq_apart : (s t : List ℕ) → text_eq s t ≡ false → text_eq t s ≡ false
text_eq_apart s t h = elim (Bool-cases (text_eq t s)) [
  | inl y ↦ absurd (false≢true (sym h ∙ (rw (text_eq_sound t s y) (text_eq_refl s))))
  | inr n ↦ n
]

-- The value of the first entry with the key.
unfoldable pub value_of : List ColumnEntry → List ℕ → Option (List ℕ)
value_of [] key = none
value_of (e ∷ es) key = if text_eq e.key key then some e.value else value_of es key

-- No two entries have one key.
abbrev pub AreDistinct : List ColumnEntry → Type 0
AreDistinct [] = Unit {0}
AreDistinct (e ∷ es) = (has_key es e.key ≡ false) × AreDistinct es

has_key-set_value :
    (es : List ColumnEntry) (key value other : List ℕ)
    → has_key (set_value es key value) other ≡ has_key es other
unfolding has_key set_value
has_key-set_value [] key value other = refl
has_key-set_value (e ∷ es) key value other = elim (Bool-cases (text_eq e.key key)) [
  | inl y ↦ simp (y)
  | inr n ↦ simp (n, has_key-set_value es key value other)
]

set_value-AreDistinct :
    (es : List ColumnEntry) (key value : List ℕ)
    → AreDistinct es
    → AreDistinct (set_value es key value)
unfolding set_value
set_value-AreDistinct [] key value d = tt
set_value-AreDistinct (e ∷ es) key value d = elim (Bool-cases (text_eq e.key key)) [
  | inl y ↦ rw y d
  | inr n ↦
      rw n (has_key-set_value es key value e.key ∙ d.0, set_value-AreDistinct es key value d.1)
]

value_of-set_value :
    (es : List ColumnEntry) (key value : List ℕ)
    → has_key es key ≡ true
    → value_of (set_value es key value) key ≡ some value
unfolding has_key set_value value_of
value_of-set_value [] key value h = cc
value_of-set_value (e ∷ es) key value h = elim (Bool-cases (text_eq e.key key)) [
  | inl y ↦ simp (y)
  | inr n ↦
      let there : has_key es key ≡ true = ground arith in
      simp (n, value_of-set_value es key value there)
]

value_of-set_value_ne :
    (es : List ColumnEntry) (key value other : List ℕ)
    → text_eq key other ≡ false
    → value_of (set_value es key value) other ≡ value_of es other
unfolding set_value value_of
value_of-set_value_ne [] key value other ne = refl
value_of-set_value_ne (e ∷ es) key value other ne = elim (Bool-cases (text_eq e.key key)) [
  | inl y ↦
      let not_other : text_eq e.key other ≡ false = (rw (text_eq_sound e.key key y) ne) in
      simp (y, not_other)
  | inr n ↦ simp (n, value_of-set_value_ne es key value other ne)
]

-- An entry put at the end.
module _ (e : ColumnEntry) where
  has_key-append :
      (es : List ColumnEntry) (other : List ℕ)
      → text_eq e.key other ≡ false
      → has_key (es ++ e ∷ []) other ≡ has_key es other
  unfolding has_key
  has_key-append [] other ne = rw ne refl
  has_key-append (f ∷ es) other ne =
      ap (λ (b : Bool). if text_eq f.key other then true else b) (has_key-append es other ne)

  value_of-append :
      (es : List ColumnEntry)
      → has_key es e.key ≡ false
      → value_of (es ++ e ∷ []) e.key ≡ some e.value
  unfolding has_key value_of
  value_of-append [] h = rw (text_eq_refl e.key) refl
  value_of-append (f ∷ es) h = elim (Bool-cases (text_eq f.key e.key)) [
    | inl y ↦ ground arith
    | inr n ↦
        let rest : has_key es e.key ≡ false = ground arith in simp (n, value_of-append es rest)
  ]

  value_of-append_ne :
      (es : List ColumnEntry) (other : List ℕ)
      → text_eq e.key other ≡ false
      → value_of (es ++ e ∷ []) other ≡ value_of es other
  unfolding value_of
  value_of-append_ne [] other ne = rw ne refl
  value_of-append_ne (f ∷ es) other ne =
      ap (λ (o : Option (List ℕ)). if text_eq f.key other then some f.value else o)
        (value_of-append_ne es other ne)

  append-AreDistinct :
      (es : List ColumnEntry)
      → has_key es e.key ≡ false
      → AreDistinct es
      → AreDistinct (es ++ e ∷ [])
  unfolding has_key
  append-AreDistinct [] h d = (refl, tt)
  append-AreDistinct (f ∷ es) h d = elim (Bool-cases (text_eq f.key e.key)) [
    | inl y ↦ ground arith
    | inr n ↦
        let rest : has_key es e.key ≡ false = ground arith in
        let apart : text_eq e.key f.key ≡ false = text_eq_apart f.key e.key n in
        (has_key-append es f.key apart ∙ d.0, append-AreDistinct es rest d.1)
  ]

-- The part of logData that comes once a row is open, which cleans key and value and puts the value
-- into the row: if the row's keys are distinct they stay so; the value is then found under its key,
-- whether the column was there or is new, and the value of any other key is as it was.
pub put_value_lem :
    (l : Log) (key value other : List ℕ)
    → AreDistinct l.row_data
    → text_eq (cleaned true key) other ≡ false
    → let m = put_value l key value in
      AreDistinct m.row_data
      × (value_of m.row_data (cleaned true key) ≡ some (cleaned true value))
      × (value_of m.row_data other ≡ value_of l.row_data other)
unfolding put_value add_heading
put_value_lem l key value other d ne = elim (Bool-cases (has_key l.row_data (cleaned true key))) [
  | inl y ↦ simp (y) (
    set_value-AreDistinct l.row_data k v d,
    value_of-set_value l.row_data k v y,
    value_of-set_value_ne l.row_data k v other ne,
  )
  | inr n ↦ simp (n) (
    append-AreDistinct e l.row_data n d,
    value_of-append e l.row_data n,
    value_of-append_ne e l.row_data other ne,
  )
]
  where
    k : List ℕ
    k = cleaned true key

    v : List ℕ
    v = cleaned true value

    e : ColumnEntry
    e = record { key = k; value = v }
