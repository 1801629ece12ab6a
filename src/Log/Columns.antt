-- ===== src/Log/Columns.antt =====
-- The columns of a log: addHeading, and the part of _logData that stores a value.
pub mod Keys
use codal_microbit_v.Base.{
  ℕ, zero, suc, ◌+◌, ◌≡◌, Bool, true, false, not, List, [], ◌∷◌, ◌++◌, Option, none, some, length,
  ltb, ◌==◌, if◌then◌else◌,
}
use codal_microbit_v.Log.{ColumnEntry, LogEvent, new_header, Log, notify}
use codal_microbit_v.Log.Text.{text_eq, cleaned}

unfoldable pub has_key : List ColumnEntry → List ℕ → Bool
has_key [] key = false
has_key (e ∷ es) key = if text_eq e.key key then true else has_key es key

-- The value of the first entry with the key.
unfoldable pub set_value : List ColumnEntry → List ℕ → List ℕ → List ColumnEntry
set_value [] key value = []
set_value (e ∷ es) key value =
    if text_eq e.key key then (record e { value = value }) ∷ es else e ∷ set_value es key value

-- The allocation of the longer array succeeds.
unfoldable pub add_heading : Log → List ℕ → List ℕ → Bool → Log
unfolding has_key
add_heading l key value head =
    if has_key l.row_data key
    then l
    else let column : ColumnEntry = record { key = key; value = value } in
      notify new_header (record l {
        row_data = if head then column ∷ l.row_data else l.row_data ++ column ∷ [];
        headings_changed = true;
      })

-- From the cleaning of the two texts on.
unfoldable pub put_value : Log → List ℕ → List ℕ → Log
unfolding add_heading set_value cleaned
put_value l key value =
    let k = cleaned true key in
    let v = cleaned true value in
    if has_key l.row_data k
    then record l { row_data = set_value l.row_data k v }
    else add_heading l k v false

-- All values of a row are emptied.
unfoldable pub empty_values : List ColumnEntry → List ColumnEntry
empty_values [] = []
empty_values (e ∷ es) = record e { value = [] } ∷ empty_values es

-- The loops of _endRow that join the keys, or the values, with commas; the line ends with a newline.
unfoldable pub join : List (List ℕ) → List ℕ
join [] = 10 ∷ []
join (s ∷ []) = s ++ 10 ∷ []
join (s ∷ t ∷ ss) = s ++ b',' ∷ join (t ∷ ss)

unfoldable pub keys : List ColumnEntry → List (List ℕ)
keys [] = []
keys (e ∷ es) = e.key ∷ keys es

unfoldable pub values : List ColumnEntry → List (List ℕ)
values [] = []
values (e ∷ es) = e.value ∷ values es

unfoldable pub has_value : List ColumnEntry → Bool
has_value [] = false
has_value (e ∷ es) = if ltb 0 (length e.value) then true else has_value es
