-- ===== src/Circular/Queue.antt =====
-- The queue's operations: push, pop, get and count.
use codal_microbit_v.Base.{
  ℕ, zero, suc, ◌+◌, ◌-◌, Bool, ◌&&◌, ◌||◌, Option, none, some, List, [], ◌∷◌, ◌++◌, length, ltb,
  leb, ◌==◌, if◌then◌else◌, ℤ, pos, negsuc,
}
use codal_microbit_v.Circular.{
  ValueType, uint8, uint16, int16, uint32, int32, float, rank, index_of, TypeMeta, CircularBuffer,
  start_of, set_meta, create_type_region, number_bytes, unsigned, Value, nothing, get_elem,
}
use codal_microbit_v.Circular.Regions.{log_data}

-- The positions of a region's elements from `current` on, up to its last one.
unfoldable pub low_positions : ℕ → ℕ → ℕ → ℕ → List ℕ
low_positions zero bytes last current = []
low_positions (suc fuel) bytes last current =
    let rest = low_positions fuel bytes last (current + bytes) in
    if leb current last then current ∷ rest else []

-- Those from `current` on up to the end of the buffer.
unfoldable pub high_positions : ℕ → ℕ → ℕ → ℕ → List ℕ
high_positions zero bytes max current = []
high_positions (suc fuel) bytes max current =
    let rest = high_positions fuel bytes max (current + bytes) in
    if leb (current + bytes) max then current ∷ rest else []

-- The positions that the loops of get and count come to in a region, in order. An element has at
-- least one byte, so that the numbers of bytes are fuel enough.
unfoldable pub region_positions : ℕ → TypeMeta → List ℕ
unfolding low_positions high_positions
region_positions max t =
    if ltb t.last (start_of t)
    then high_positions (max + 1) t.bytes max (start_of t)
      ++ low_positions (t.last + 1) t.bytes t.last 0
    else low_positions (t.last + 1) t.bytes t.last (start_of t)

unfoldable pub region_count : ℕ → Option TypeMeta → ℕ
unfolding region_positions
region_count max none = 0
region_count max (some t) = length (region_positions max t)

unfoldable pub count_regions : ℕ → List (Option TypeMeta) → ℕ
unfolding region_count
count_regions max [] = 0
count_regions max (t ∷ ts) = region_count max t + count_regions max ts

unfoldable pub count : CircularBuffer → ℕ
unfolding count_regions
count b = if b.initialised then count_regions b.current_byte_max b.type_metas else 0

abbrev pub nth_position : List ℕ → ℕ → Option ℕ
nth_position [] n = none
nth_position (p ∷ ps) zero = some p
nth_position (p ∷ ps) (suc n) = nth_position ps n

abbrev pub type_at : ℕ → ValueType
type_at zero = uint8
type_at (suc zero) = uint16
type_at (suc (suc zero)) = int16
type_at (suc (suc (suc zero))) = uint32
type_at (suc (suc (suc (suc zero)))) = int32
type_at (suc (suc (suc (suc (suc i))))) = float

-- The element with the index among those of the types from `i` on.
unfoldable pub get_from : CircularBuffer → List (Option TypeMeta) → ℕ → ℕ → Value
unfolding region_positions
get_from b [] i index = nothing
get_from b (none ∷ ts) i index = get_from b ts (i + 1) index
get_from b (some t ∷ ts) i index =
    let positions = region_positions b.current_byte_max t in
    let rest = get_from b ts (i + 1) (index - length positions) in
    elim (nth_position positions index) [ none ↦ rest | some p ↦ get_elem b (type_at i) t.bytes p ]

unfoldable pub get : CircularBuffer → ℕ → Value
unfolding get_from
get b index = get_from b b.type_metas 0 index

-- A region without its first element: none when that was its last one.
unfoldable pub pop_region : ℕ → TypeMeta → Option TypeMeta
pop_region max t =
    let after = start_of t + t.bytes in
    let next = if ltb max (after + t.bytes) then 0 else after in
    if start_of t == t.last || (ltb next t.last && ltb t.last (next + t.bytes))
    then none
    else some (record t { start = some next })

unfoldable pub pop_from : CircularBuffer → List (Option TypeMeta) → ℕ → Value × CircularBuffer
unfolding pop_region
pop_from b [] i = (nothing, b)
pop_from b (none ∷ ts) i = pop_from b ts (i + 1)
pop_from b (some t ∷ ts) i =
    (get_elem b (type_at i) t.bytes (start_of t), set_meta b i (pop_region b.current_byte_max t))

unfoldable pub pop : CircularBuffer → Value × CircularBuffer
unfolding pop_from
pop b = pop_from b b.type_metas 0

module _ (alloc : ℕ → Bool) (float_of : ℤ → List ℕ) where
  -- A region of the type, where the types so far are smaller; then the element.
  unfoldable pub push_as : ValueType → ℕ → List ℕ → CircularBuffer → Option CircularBuffer
  unfolding log_data
  push_as type size bytes b =
      let b1 =
        if ltb (rank b.global_type) (rank type)
        then record (set_meta b (index_of type) (some (create_type_region size))) {
          global_type = type;
        }
        else b in
      log_data alloc b1 (index_of type) bytes

  -- The four bytes of a float. A double is converted first.
  unfoldable pub push_float : List ℕ → CircularBuffer → Option CircularBuffer
  unfolding push_as
  push_float bytes b = push_as float 4 bytes b

  unfoldable pub push_i32 : ℤ → CircularBuffer → Option CircularBuffer
  unfolding push_float number_bytes
  push_i32 v b =
      if ltb (rank int32) (rank b.global_type)
      then push_float (float_of v) b
      else push_as int32 4 (number_bytes 4 (unsigned 32 v)) b

  unfoldable pub push_u32 : ℕ → CircularBuffer → Option CircularBuffer
  unfolding push_i32 push_float number_bytes
  push_u32 v b =
      if ltb (rank uint32) (rank b.global_type)
      then (if leb 2147483647 v then push_float (float_of (pos v)) b else push_i32 (pos v) b)
      else push_as uint32 4 (number_bytes 4 v) b

  unfoldable pub push_i16 : ℤ → CircularBuffer → Option CircularBuffer
  unfolding push_u32 push_i32 number_bytes
  push_i16 v b =
      if ltb (rank int16) (rank b.global_type)
      then elim v [ pos n ↦ push_u32 n b | negsuc n ↦ push_i32 (negsuc n) b ]
      else push_as int16 2 (number_bytes 2 (unsigned 16 v)) b

  unfoldable pub push_u16 : ℕ → CircularBuffer → Option CircularBuffer
  unfolding push_u32 push_i16 number_bytes
  push_u16 v b =
      if ltb (rank uint16) (rank b.global_type)
      then (if leb 32767 v then push_u32 v b else push_i16 (pos v) b)
      else push_as uint16 2 (number_bytes 2 v) b

  unfoldable pub push_u8 : ℕ → CircularBuffer → Option CircularBuffer
  unfolding push_u16 push_as number_bytes
  push_u8 v b =
      if ltb (rank uint8) (rank b.global_type)
      then push_u16 v b
      else push_as uint8 1 (number_bytes 1 v) b

  unfoldable pub push_unsigned : ℕ → CircularBuffer → Option CircularBuffer
  unfolding push_u8 push_u16 push_u32
  push_unsigned v b =
      if leb v 255 then push_u8 v b else if leb v 65535 then push_u16 v b else push_u32 v b

  unfoldable pub push_int : ℤ → CircularBuffer → Option CircularBuffer
  unfolding push_i32 push_i16 push_unsigned
  push_int (negsuc n) b = if leb 32768 n then push_i32 (negsuc n) b else push_i16 (negsuc n) b
  push_int (pos n) b = push_unsigned n b
