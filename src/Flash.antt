-- ===== src/Flash.antt =====
-- source/MicroBitFlash.cpp: writing any bytes at any address of the chip's flash memory, through a
-- scratch page where a bit would have to be set again.
pub mod Words
pub mod Loop
pub mod Write
pub mod Erase
pub mod Tests
use Prim.Native.Nat.{bit_and, bit_or}
use codal_microbit_v.Base.{
  Memory, ℕ, zero, suc, ◌+◌, ◌-◌, ◌*◌, ◌/◌, ◌%◌, ◌^◌, ◌≤◌, ◌<◌, ◌≡◌, Bool, true, false, not, ◌&&◌,
  List, [], ◌∷◌, length, get_or, ltb, leb, ◌==◌, if◌then◌else◌, Result, ok, err, invalid_parameter,
}

-- The flash controller, which is hardware: a write can clear the bits of a byte and cannot set
-- one, an erased page holds ones only. `MICROBIT_CODEPAGESIZE` is a register of the chip, and the
-- address `MICROBIT_DEFAULT_SCRATCH_PAGE` is set by the bootloader.
pub record Chip : Type 0 where
  pub page_size : ℕ
  pub default_scratch : ℕ
  pub program : ℕ → ℕ → ℕ
  pub erase : Memory → ℕ → Memory
  pub whole_words : page_size % 4 ≡ 0
  pub page_pos : 0 < page_size
  pub program_clears : (o n : ℕ) → o < 256 → n < 256 → bit_and (255 - o) n ≡ 0 → program o n ≡ n
  pub erase_inside :
      (m : Memory) (page a : ℕ) → page ≤ a → a < page + page_size → erase m page a ≡ 255
  pub erase_outside :
      (m : Memory) (page a : ℕ)
      → (leb page a && ltb a (page + page_size)) ≡ false
      → erase m page a ≡ m a

-- `WORD_ADDR`: the low two bits are cleared.
abbrev pub word_addr : ℕ → ℕ
word_addr x = x - x % 4

-- Whether some byte needs a bit that is clear in memory. `~` of a byte keeps its 8 low bits in the
-- test, since the other operand is a byte.
unfoldable pub need_erase : List ℕ → Memory → ℕ → Bool
need_erase [] m addr = false
need_erase (b ∷ bs) m addr =
    if not (bit_and (255 - m addr) b == 0) then true else need_erase bs m (addr + 1)

-- Byte `k` of a word, and the word at an address; the processor is little-endian.
abbrev pub byte_of : ℕ → ℕ → ℕ
byte_of k w = w / 2 ^ (8 * k) % 256

abbrev pub word_at : Memory → ℕ → ℕ
word_at m a = m a + m (a + 1) * 2 ^ 8 + m (a + 2) * 2 ^ 16 + m (a + 3) * 2 ^ 24

module _ (chip : Chip) where
  open chip use {page_size, default_scratch, program, erase}

  -- One store of a word to flash.
  pub store_word : Memory → ℕ → ℕ → Memory
  store_word m addr w a =
      if leb addr a && ltb a (addr + 4) then program (m a) (byte_of (a - addr) w) else m a

  -- `flash_burn`, from word `i` on with `n` words left; `buffer` reads a word of the source.
  pub flash_burn : ℕ → ℕ → Memory → ℕ → (Memory → ℕ → ℕ) → Memory
  flash_burn zero i m addr buffer = m
  flash_burn (suc n) i m addr buffer =
      flash_burn n (i + 1) (store_word m (addr + 4 * i) (buffer m i)) addr buffer

  abbrev pub words_from : ℕ → Memory → ℕ → ℕ
  words_from source m i = word_at m (source + 4 * i)

  -- The byte that goes to offset `i` of the page.
  abbrev pub byte_for : ℕ → ℕ → List ℕ → Memory → ℕ → ℕ
  byte_for write_from offset bytes m i =
      if leb offset i && ltb i (offset + length bytes)
      then get_or bytes (i - offset) 0
      else m (write_from + i)

  -- A round of the loop of `flash_write`, at offset `i` of the page at `page`.
  pub write_round : ℕ → ℕ → ℕ → List ℕ → ℕ → Memory × ℕ → Memory × ℕ
  unfolding flash_burn store_word
  write_round page write_from offset bytes i (m, write_word) =
      let w = bit_or write_word (byte_for write_from offset bytes m i * 2 ^ (i % 4 * 8)) in
      if (i + 1) % 4 == 0 then (flash_burn 1 0 m (page + 4 * (i / 4)) (λ _ _. w), 0) else (m, w)

  -- The loop, with `n` rounds left.
  pub write_loop : ℕ → ℕ → ℕ → ℕ → ℕ → List ℕ → Memory × ℕ → Memory × ℕ
  unfolding write_round
  write_loop zero i page write_from offset bytes s = s
  write_loop (suc n) i page write_from offset bytes s =
      write_loop n (i + 1) page write_from offset bytes
        (write_round page write_from offset bytes i s)

  -- The memory with the page at `page` copied to the scratch page and then erased.
  pub preserve : ℕ → ℕ → Memory → Memory
  unfolding flash_burn
  preserve page scratch m =
      erase (flash_burn (page_size / 4) 0 (erase m scratch) scratch (words_from page)) page

  pub write_with : ℕ → ℕ → ℕ → List ℕ → Memory → Result (Unit {0}) × Memory
  unfolding need_erase preserve write_loop
  write_with page offset scratch bytes m =
      let start = word_addr offset in
      let stop = word_addr (offset + length bytes + 4) in
      if need_erase bytes m (page + offset)
      then (if scratch == 0 then (err invalid_parameter, m) else (
        ok tt,
        (write_loop page_size 0 page scratch offset bytes (preserve page scratch m, 0)).0,
      ))
      else (ok tt, (write_loop (stop - start) start page page offset bytes (m, 0)).0)

  -- The bytes come from RAM, which the flash memory is no part of.
  unfoldable pub flash_write : ℕ → List ℕ → ℕ → Memory → Result (Unit {0}) × Memory
  unfolding write_with
  flash_write address bytes scratch_addr m =
      let scratch = if scratch_addr == 0 then default_scratch else scratch_addr in
      if not (bit_and scratch (page_size - 1) == 0)
      then (err invalid_parameter, m)
      else write_with (address / page_size * page_size) (address % page_size) scratch bytes m
