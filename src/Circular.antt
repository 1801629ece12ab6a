-- ===== src/Circular.antt =====
-- inc/MicroBitCircularBuffer.h and source/MicroBitCircularBuffer.cpp: a queue of numbers in a ring of
-- bytes, in which a larger type of number starts a new region. This file has the state.
pub mod Regions
pub mod Queue
pub mod Bytes
pub mod Fifo
pub mod Recent
mod Tests
use codal_microbit_v.Base.{
  Memory, bytes_at, stored, ℕ, zero, suc, ◌+◌, ◌-◌, ◌*◌, ◌/◌, ◌%◌, ◌^◌, Bool, true, false, ◌&&◌,
  ◌||◌, Option, none, some, List, [], ◌∷◌, ◌++◌, length, get_or, set, replicate, ltb, leb, ◌==◌,
  if◌then◌else◌, ℤ, pos, negsuc,
}

pub data ValueType : Type 0 where
  no_type uint8 uint16 int16 uint32 int32 float : ValueType

-- The order of the enumeration, in which `no_type` is -1 and the others are indices from 0 on.
abbrev pub rank : ValueType → ℕ
rank no_type = 0
rank uint8 = 1
rank uint16 = 2
rank int16 = 3
rank uint32 = 4
rank int32 = 5
rank float = 6

abbrev pub index_of : ValueType → ℕ
index_of type = rank type - 1

abbrev pub type_count : ℕ
type_count = 6

abbrev pub max_data_buffers : ℕ
max_data_buffers = 50

abbrev pub max_single_allocation : ℕ
max_single_allocation = 2000

-- `start` is -1, here none, until the region has an element.
pub record TypeMeta : Type 0 where
  pub start : Option ℕ
  pub last : ℕ
  pub next : ℕ
  pub bytes : ℕ

-- The data buffers are one run of bytes: buffer `i` holds those from `i * 2000` on. `max_buffer_size`
-- is none for -1.
pub record CircularBuffer : Type 0 where
  pub initialised : Bool
  pub buffers : Memory
  pub allocated_buffers : ℕ
  pub current_byte_max : ℕ
  pub max_buffer_size : Option ℕ
  pub type_metas : List (Option TypeMeta)
  pub global_type : ValueType

abbrev pub start_of : TypeMeta → ℕ
start_of t = elim t.start [ none ↦ 0 | some s ↦ s ]

abbrev pub meta : CircularBuffer → ℕ → Option TypeMeta
meta b i = get_or b.type_metas i none

abbrev pub set_meta : CircularBuffer → ℕ → Option TypeMeta → CircularBuffer
set_meta b i t = record b { type_metas = set b.type_metas i t }

-- The constructors, with a size or without.
abbrev pub new_buffer : Memory → Option ℕ → CircularBuffer
new_buffer m size = record {
  initialised = false;
  buffers = m;
  allocated_buffers = 0;
  current_byte_max = 0;
  max_buffer_size = size;
  type_metas = replicate type_count none;
  global_type = no_type;
}

-- The first allocation succeeds.
unfoldable pub init : CircularBuffer → CircularBuffer
init b =
    if b.initialised
    then b
    else let size : ℕ = elim b.max_buffer_size [
      | none ↦ max_single_allocation
      | some n ↦ if ltb n max_single_allocation then n else max_single_allocation
    ] in
      record b { allocated_buffers = 1; current_byte_max = size; initialised = true }

abbrev pub create_type_region : ℕ → TypeMeta
create_type_region bytes = record { start = none; last = 0; next = 0; bytes = bytes }

-- A number as its bytes, the lowest first.
unfoldable pub number_bytes : ℕ → ℕ → List ℕ
number_bytes zero n = []
number_bytes (suc k) n = n % 256 ∷ number_bytes k (n / 256)

unfoldable pub bytes_number : List ℕ → ℕ
bytes_number [] = 0
bytes_number (b ∷ bs) = b + 256 * bytes_number bs

-- The two's complement of so many bits.
abbrev pub unsigned : ℕ → ℤ → ℕ
unsigned bits (pos n) = n
unsigned bits (negsuc n) = 2 ^ bits - 1 - n

abbrev pub signed : ℕ → ℕ → ℤ
signed bits n = if ltb n (2 ^ (bits - 1)) then pos n else negsuc (2 ^ bits - 1 - n)

-- A number, or the bytes of a float.
pub data Value : Type 0 where
  nothing : Value
  uint32_value : ℕ → Value
  int32_value : ℤ → Value
  float_value : List ℕ → Value

abbrev pub value_of_type : ValueType → List ℕ → Value
value_of_type no_type bytes = nothing
value_of_type uint8 bytes = uint32_value (bytes_number bytes)
value_of_type uint16 bytes = uint32_value (bytes_number bytes)
value_of_type uint32 bytes = uint32_value (bytes_number bytes)
value_of_type int16 bytes = int32_value (signed 16 (bytes_number bytes))
value_of_type int32 bytes = int32_value (signed 32 (bytes_number bytes))
value_of_type float bytes = float_value bytes

abbrev pub get_elem : CircularBuffer → ValueType → ℕ → ℕ → Value
get_elem b type bytes index = value_of_type type (bytes_at b.buffers index bytes)
