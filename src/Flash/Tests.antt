-- ===== src/Flash/Tests.antt =====
-- A small chip, runs of `flash_write` on it, and the theorems there.
use Prim.Native.Nat.{bit_and}
use codal_microbit_v.Base.{
  Memory, ℕ, zero, suc, ◌+◌, ◌-◌, ◌%◌, ◌<◌, ◌≡◌, refl, arith, true, ◌&&◌, inl, List, [], ◌∷◌,
  get_or, ltb, leb, ◌==◌, if◌then◌else◌, ok,
}
use codal_microbit_v.Base.Bits.{holds_below, holds_below_at}
use codal_microbit_v.Flash.{Chip, need_erase, flash_write}
use codal_microbit_v.Flash.Words.{within}
use codal_microbit_v.Flash.Write.{IsBytes, AreBytes, flash_write_in_place}
use codal_microbit_v.Flash.Erase.{flash_write_erased, rewritten}

-- Programming a byte clears bits and sets none.
program_table :
    holds_below 256
      (λ o. holds_below 256 (λ n. if bit_and (255 - o) n == 0 then bit_and o n == n else true))
    ≡ true
unfolding holds_below
program_table = refl

pub bit_and_clears : (o n : ℕ) → o < 256 → n < 256 → bit_and (255 - o) n ≡ 0 → bit_and o n ≡ n
bit_and_clears o n ho hn e = ground (
  arith,
  holds_below_at 256 (λ n. if bit_and (255 - o) n == 0 then bit_and o n == n else true) n hn
      (holds_below_at 256 _ o ho program_table),
)

-- A chip that can only clear bits, with its page size and its default scratch page.
abbrev pub small_chip : (size : ℕ) → size % 4 ≡ 0 → 0 < size → ℕ → Chip
small_chip size words positive scratch = record {
  page_size = size;
  default_scratch = scratch;
  program = bit_and;
  erase = λ m page a. if leb page a && ltb a (page + size) then 255 else m a;
  whole_words = words;
  page_pos = positive;
  program_clears = bit_and_clears;
  erase_inside = λ m page a h k. ground arith;
  erase_outside = λ m page a h. ground arith;
}

-- Pages of 8 bytes; the scratch page is at 16.
abbrev chip : Chip
chip = small_chip 8 refl (omega arith) 16

-- Every byte holds its address, below 32.
abbrev memory : Memory
memory a = if ltb a 32 then a else 255

memory-IsBytes : IsBytes memory
memory-IsBytes a = ground arith

abbrev clears : List ℕ
clears = 8 ∷ 2 ∷ []

abbrev sets : List ℕ
sets = 7 ∷ 255 ∷ 9 ∷ []

clears-AreBytes : AreBytes clears
clears-AreBytes zero = omega arith
clears-AreBytes (suc zero) = omega arith
clears-AreBytes (suc (suc d)) = omega arith

sets-AreBytes : AreBytes sets
sets-AreBytes zero = omega arith
sets-AreBytes (suc zero) = omega arith
sets-AreBytes (suc (suc zero)) = omega arith
sets-AreBytes (suc (suc (suc d))) = omega arith

-- Three bytes from address 6 on: the third would lie on the next page, and is lost.
page_end_lost :
    let (r, after) = flash_write chip 6 sets 0 memory in
    (r ≡ ok tt) × (after 5 ≡ 5) × (after 6 ≡ 7) × (after 7 ≡ 255) × (after 8 ≡ 8) × (after 21 ≡ 5)
unfolding flash_write
page_end_lost = (refl, refl, refl, refl, refl, refl)

flash_write_in_place_example :
    let (r, after) = flash_write chip 10 clears 0 memory in
    (r ≡ ok tt)
    × ((a : ℕ) → after a ≡ (if within 10 2 a then get_or clears (a - 10) 0 else memory a))
unfolding need_erase
flash_write_in_place_example =
    flash_write_in_place chip memory clears memory-IsBytes clears-AreBytes 10 0 refl refl

flash_write_erased_example :
    let (r, after) = flash_write chip 6 sets 0 memory in
    (r ≡ ok tt)
    × ((a : ℕ) → after a ≡ rewritten chip memory memory-IsBytes sets sets-AreBytes 0 6 16 a)
unfolding need_erase
flash_write_erased_example =
    flash_write_erased chip memory memory-IsBytes sets sets-AreBytes 6 0 refl refl
      (inl (omega arith)) refl
