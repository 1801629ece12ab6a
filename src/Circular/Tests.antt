-- ===== src/Circular/Tests.antt =====
-- Small queues on concrete inputs.
use codal_microbit_v.Base.{
  Memory, stored, ℕ, ◌≡◌, refl, arith, Bool, true, Option, none, some, List, [], ◌∷◌, ℤ, pos,
  negsuc,
}
use codal_microbit_v.Circular.{
  CircularBuffer, new_buffer, uint32_value, int32_value, bytes_number, init,
}
use codal_microbit_v.Circular.Queue.{push_u8, push_int, pop, get, count}
use codal_microbit_v.Circular.Bytes.{region, queue, held}
use codal_microbit_v.Circular.Fifo.{pop_lem, push_u8_emptied}
use codal_microbit_v.Circular.Recent.{Holds, StillHolds, push_bytes, are_bytes, push_bytes_lem}

abbrev memory : Memory
memory x = x

abbrev alloc : ℕ → Bool
alloc i = true

abbrev float_of : ℤ → List ℕ
float_of v = 0 ∷ 0 ∷ 0 ∷ 0 ∷ []

-- The first byte makes a queue of one.
first_byte :
    push_u8 alloc float_of 7 (new_buffer memory (some 4))
    ≡ some (queue (stored memory 0 (7 ∷ [])) 4 1 (some (region 4 0 1)))
unfolding push_u8 init
first_byte = refl

abbrev after_two : Option CircularBuffer
after_two = elim (push_int alloc float_of (pos 7) (new_buffer memory (some 16))) [
  | none ↦ none
  | some b ↦ push_int alloc float_of (negsuc 1) b
]

-- A byte and a number below 0: two regions, read in the order of the pushes.
two_types : elim after_two as (λ o. Type 0) [
  | none ↦ ⊥
  | some b ↦
      (count b ≡ 2)
      × (get b 0 ≡ uint32_value 7)
      × (get b 1 ≡ int32_value (negsuc 1))
      × ((pop b).0 ≡ uint32_value 7)
]
unfolding push_int init count get pop bytes_number
two_types = (refl, refl, refl, refl)

two_held : Holds 4 1 (3 ∷ 0 ∷ []) (queue memory 4 1 (some (region 4 3 2)))
two_held = record {
  memory = memory;
  start = 3;
  number = 2;
  within = omega arith;
  some_byte = omega arith;
  fits = omega arith;
  queue_is = refl;
  bytes_are = refl;
}

-- Three bytes to a queue with room for two more, that goes round the end.
push_bytes_lem_example :
    StillHolds 4 1
      (0 ∷ 7 ∷ 8 ∷ 9 ∷ [])
      (push_bytes alloc float_of (7 ∷ 8 ∷ 9 ∷ []) (queue memory 4 1 (some (region 4 3 2))))
unfolding are_bytes
push_bytes_lem_example =
    push_bytes_lem alloc float_of (7 ∷ 8 ∷ 9 ∷ []) (3 ∷ 0 ∷ []) 4 1
      (queue memory 4 1 (some (region 4 3 2))) two_held (omega arith) refl

pop_lem_example :
    (pop (queue memory 4 1 (some (region 4 3 2)))
      ≡ (uint32_value 3, queue memory 4 1 (some (region 4 0 1))))
    × (held memory 4 3 2 ≡ 3 ∷ 0 ∷ [])
pop_lem_example = pop_lem memory 4 3 1 1 (omega arith) (omega arith)

push_u8_emptied_example :
    push_u8 alloc float_of 9 (pop (queue memory 4 1 (some (region 4 2 1)))).1 ≡ none
push_u8_emptied_example = push_u8_emptied alloc float_of memory 4 2 1 9 (omega arith)
