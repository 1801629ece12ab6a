-- ===== src/Circular/Regions.antt =====
-- The regions: _clearRegion, _insertElement and _logData. What they do where
-- they follow a NULL pointer is none.
use codal_microbit_v.Base.{
  stored, ℕ, zero, suc, ◌+◌, ◌-◌, Bool, false, ◌&&◌, ◌||◌, Option, none, some, List, ltb, leb, ◌==◌,
  if◌then◌else◌,
}
use codal_microbit_v.Circular.{
  max_data_buffers, max_single_allocation, TypeMeta, CircularBuffer, start_of, meta, set_meta, init,
}

-- The first loop of _clearRegion, for a region that does not wrap: none when the region is empty.
unfoldable pub advance : ℕ → TypeMeta → ℕ → ℕ → Option TypeMeta
advance zero t start to = some (record t { start = some start })
advance (suc fuel) t start to =
    let rest = advance fuel t (start + t.bytes) to in
    if ltb start to
    then (if ltb t.last (start + t.bytes) then none else rest)
    else some (record t { start = some start })

-- The second loop, for one that wraps: the start, or none when it has come round to 0.
unfoldable pub advance_high : ℕ → ℕ → ℕ → ℕ → ℕ → Option ℕ
advance_high zero bytes max start to = some start
advance_high (suc fuel) bytes max start to =
    let rest = advance_high fuel bytes max (start + bytes) to in
    if ltb start to then (if ltb max (start + bytes + bytes) then none else rest) else some start

-- _clearRegion where `from` lies before `to`: the region is none when it is freed. The loops take
-- `to` as fuel.
unfoldable pub clear_span : TypeMeta → ℕ → ℕ → ℕ → Option TypeMeta
unfolding advance advance_high
clear_span t max from to =
    let low = λ (s : ℕ).
      if leb (t.last + t.bytes) from
      then some (record t { start = some s })
      else advance to t s to in
    if leb (start_of t) t.last
    then low (start_of t)
    else if leb (t.last + t.bytes) from && leb to (start_of t)
    then some t
    else elim (advance_high to t.bytes max (start_of t) to) [
      | none ↦ low 0
      | some s ↦ if leb (t.last + t.bytes) from then some (record t { start = some s }) else low 0
    ]

unfoldable pub clear_part : Option TypeMeta → ℕ → ℕ → ℕ → Option TypeMeta
unfolding clear_span
clear_part none max from to = none
clear_part (some t) max from to = if to == from then none else clear_span t max from to

unfoldable pub clear_region : Option TypeMeta → ℕ → ℕ → ℕ → Option TypeMeta
unfolding clear_part
clear_region t max from to =
    if ltb to from
    then (let high = if ltb from max then clear_part t max from max else t in
        if to == 0 then high else clear_part high max 0 to)
    else clear_part t max from to

-- The regions of the types before `i` are cleared, the nearest first.
unfoldable pub clear_lower : ℕ → CircularBuffer → ℕ → ℕ → CircularBuffer
unfolding clear_region
clear_lower zero b from to = b
clear_lower (suc i) b from to =
    clear_lower i (set_meta b i (clear_region (meta b i) b.current_byte_max from to)) from to

-- The nearest region before index `i`.
unfoldable pub previous : ℕ → CircularBuffer → Option TypeMeta
previous zero b = none
previous (suc i) b = elim (meta b i) [ none ↦ previous i b | some t ↦ some t ]

-- A buffer that is near its end grows; `alloc` tells whether there is memory for another part.
unfoldable pub grow : (ℕ → Bool) → CircularBuffer → ℕ → CircularBuffer
grow alloc b index =
    let full : Bool = elim b.max_buffer_size [ none ↦ false | some n ↦ n == b.current_byte_max ] in
    let size : ℕ = elim b.max_buffer_size [
      | none ↦ max_single_allocation
      | some n ↦
          if ltb (n - b.current_byte_max) max_single_allocation
          then n - b.current_byte_max
          else max_single_allocation
    ] in
    if full
      || (leb (index + 8) b.current_byte_max
          || (b.allocated_buffers == max_data_buffers || size == 0))
    then b
    else if alloc b.allocated_buffers
    then record b {
      current_byte_max = b.current_byte_max + size;
      allocated_buffers = b.allocated_buffers + 1;
      max_buffer_size =
          if b.allocated_buffers + 1 == max_data_buffers
          then some (b.current_byte_max + size)
          else b.max_buffer_size;
    }
    else record b { max_buffer_size = some b.current_byte_max }

unfoldable pub insert_element : (ℕ → Bool) → CircularBuffer → ℕ → List ℕ → CircularBuffer
unfolding grow
insert_element alloc b index bytes =
    let b1 = grow alloc b index in record b1 { buffers = stored b1.buffers index bytes }

-- A new region starts where the one before it goes on. With it comes `last + bytes`, which is all that
-- is used of `last` here, since `last` itself may be less than 0.
unfoldable pub open_region : Option TypeMeta → ℕ → TypeMeta → TypeMeta × ℕ
open_region before max t =
    let next : ℕ = elim before [ none ↦ 0 | some p ↦ p.next ] in
    let end : ℕ = elim before [ none ↦ t.bytes | some p ↦ p.last + p.bytes ] in
    let first = if ltb max (next + t.bytes) then 0 else next in
    (record t { start = some first; next = first }, end)

-- A region whose next element would lie on its first one gives that up.
unfoldable pub make_room : ℕ → TypeMeta → ℕ → TypeMeta × ℕ
make_room max t start =
    let moved =
      if leb t.next start && ltb start (t.next + t.bytes)
      then (if start == t.last then record t { start = some t.next; last = t.next } else record t {
        start = some (if ltb max (start + t.bytes + t.bytes) then 0 else start + t.bytes);
      })
      else t in
    (moved, moved.last + t.bytes)

abbrev pub prepared : CircularBuffer → ℕ → TypeMeta → TypeMeta × ℕ
prepared b i t = elim t.start [
  | none ↦ open_region (previous i b) b.current_byte_max t
  | some start ↦ make_room b.current_byte_max t start
]

-- The element is stored, and the region goes on behind it.
unfoldable pub write_element : (ℕ → Bool) → CircularBuffer → ℕ → TypeMeta → List ℕ → CircularBuffer
unfolding insert_element
write_element alloc b i t bytes =
    let b1 = insert_element alloc b t.next bytes in
    let next = t.next + t.bytes in
    set_meta b1 i (
      some (record t {
        last = t.next;
        next = if ltb b1.current_byte_max (next + t.bytes) then 0 else next;
      }))

unfoldable pub log_data : (ℕ → Bool) → CircularBuffer → ℕ → List ℕ → Option CircularBuffer
unfolding init previous open_region make_room clear_lower write_element
log_data alloc b0 i bytes =
    let b = init b0 in
    elim (meta b i) [
      | none ↦ none
      | some t ↦
          let (t1, end) = prepared b i t in
          some (
            write_element alloc (clear_lower i (set_meta b i (some t1)) end (t1.next + t1.bytes)) i
              t1 bytes)
    ]
