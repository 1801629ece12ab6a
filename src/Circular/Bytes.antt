-- ===== src/Circular/Bytes.antt =====
-- A queue of a fixed size that holds bytes only.
use native.Mathlib.Nat.{mod-eq_of_lt}
use codal_microbit_v.Base.{
  Memory, stored, ℕ, zero, suc, ◌+◌, ◌-◌, ◌%◌, ◌≤◌, ◌<◌, ◌≡◌, refl, ap₂, arith, Bool, true, Option,
  none, some, List, [], ◌∷◌, ltb, ◌==◌, eq→==, if◌then◌else◌, ℤ,
}
use codal_microbit_v.Circular.{uint8, TypeMeta, CircularBuffer, init, number_bytes}
use codal_microbit_v.Circular.Regions.{
  make_room, grow, insert_element, write_element, clear_lower, log_data,
}
use codal_microbit_v.Circular.Queue.{push_as, push_u8}

-- An index that has gone at most once past the end.
abbrev pub wrap : ℕ → ℕ → ℕ
wrap size x = if ltb x size then x else x - size

-- The region of `n` bytes from index `s` on.
abbrev pub region : ℕ → ℕ → ℕ → TypeMeta
region size s n = record {
  start = some s;
  last = wrap size (s + n - 1);
  next = wrap size (s + n);
  bytes = 1;
}

abbrev pub queue : Memory → ℕ → ℕ → Option TypeMeta → CircularBuffer
queue m size allocated t = record {
  initialised = true;
  buffers = m;
  allocated_buffers = allocated;
  current_byte_max = size;
  max_buffer_size = some size;
  type_metas = t ∷ none ∷ none ∷ none ∷ none ∷ none ∷ [];
  global_type = uint8;
}

-- The `n` bytes from index `s` on, round the end.
abbrev pub held : Memory → ℕ → ℕ → ℕ → List ℕ
held m size s zero = []
held m size s (suc n) = m s ∷ held m size (wrap size (s + 1)) n

-- Where the region starts when another byte has come.
abbrev pub next_start : ℕ → ℕ → ℕ → ℕ
next_start size s n = if n == size then wrap size (s + 1) else s

abbrev pub next_length : ℕ → ℕ → ℕ
next_length size n = if n == size then n else n + 1

module _ (size s n : ℕ) (within : s < size) (some_byte : 0 < n) (fits : n ≤ size) where
  make_room-start : (make_room size (region size s n) s).0.start ≡ some (next_start size s n)
  unfolding make_room
  make_room-start = ground arith

  make_room-next : (make_room size (region size s n) s).0.next ≡ wrap size (s + n)
  unfolding make_room
  make_room-next = ground arith

  make_room-bytes : (make_room size (region size s n) s).0.bytes ≡ 1
  unfolding make_room
  make_room-bytes = ground arith

  last_is : wrap size (s + n) ≡ wrap size (next_start size s n + next_length size n - 1)
  last_is = ground arith

  next_is :
      (if ltb size (wrap size (s + n) + 1 + 1) then 0 else wrap size (s + n) + 1)
      ≡ wrap size (next_start size s n + next_length size n)
  next_is = ground arith

  written_is :
      (t : TypeMeta)
      → t.start ≡ some (next_start size s n)
      → t.next ≡ wrap size (s + n)
      → t.bytes ≡ 1
      → record t {
        last = t.next;
        next = if ltb size (t.next + t.bytes + t.bytes) then 0 else t.next + t.bytes;
      }
        ≡ region size (next_start size s n) (next_length size n)
  written_is t start next bytes =
      rw (start, next, bytes)
        (ap₂
          (λ (l k : ℕ). record {
            start = some (next_start size s n);
            last = l;
            next = k;
            bytes = 1;
          })
          last_is next_is)

  -- Where the byte goes, and the queue with it.
  abbrev pub pushed : Memory → ℕ → ℕ → CircularBuffer
  pushed m allocated v =
      queue (stored m (wrap size (s + n)) (v ∷ [])) size allocated
        (some (region size (next_start size s n) (next_length size n)))

  grow-full :
      (alloc : ℕ → Bool) (m : Memory) (allocated index : ℕ) (t : Option TypeMeta)
      → grow alloc (queue m size allocated t) index ≡ queue m size allocated t
  unfolding grow
  grow-full alloc m allocated index t = let full = eq→== size size refl in rw full refl

  pub push_u8-pushed :
      (alloc : ℕ → Bool) (float_of : ℤ → List ℕ) (m : Memory) (allocated v : ℕ)
      → v < 256
      → push_u8 alloc float_of v (queue m size allocated (some (region size s n)))
        ≡ some (pushed m allocated v)
  unfolding push_u8 push_as log_data init write_element insert_element clear_lower number_bytes
  push_u8-pushed alloc float_of m allocated v byte =
      let t1 = (make_room size (region size s n) s).0 in
      let grown = grow-full alloc m allocated t1.next (some t1) in
      let low : v % 256 ≡ v = mod-eq_of_lt byte in
      rw (low, grown)
        (ap₂ (λ (a : ℕ) (t : TypeMeta). some (queue (stored m a (v ∷ [])) size allocated (some t)))
          make_room-next (written_is t1 make_room-start make_room-next make_room-bytes))
