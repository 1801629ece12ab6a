-- ===== src/FlashManager.antt =====
-- inc/NRF52FlashManager.h and source/NRF52FlashManager.cpp: a region of flash memory, in words and
-- by addresses from its start on.
pub mod Words
mod Tests
use codal_microbit_v.Base.{
  ℕ, zero, suc, ◌+◌, ◌*◌, ◌/◌, ◌%◌, ◌^◌, Bool, Option, none, some, List, [], ◌∷◌, length, ◌==◌,
  if◌then◌else◌, Memory,
}
use codal_microbit_v.Flash.{Chip, word_at, store_word}

pub record FlashManager : Type 0 where
  pub start_address : ℕ
  pub page_count : ℕ
  pub page_size : ℕ

-- The `n` words from an address on.
pub words_at : Memory → ℕ → ℕ → List ℕ
words_at m a zero = []
words_at m a (suc n) = word_at m a ∷ words_at m (a + 4) n

-- Addresses are added in 32 bits.
abbrev pub physical : FlashManager → ℕ → ℕ
physical manager address = (manager.start_address + address) % 2 ^ 32

pub read : FlashManager → Memory → ℕ → ℕ → List ℕ
unfolding words_at
read manager m address length = words_at m (physical manager address) length

abbrev pub get_flash_start : FlashManager → ℕ
get_flash_start manager = 0

abbrev pub get_flash_size : FlashManager → ℕ
get_flash_size manager = manager.page_count * manager.page_size % 2 ^ 32

abbrev pub get_flash_end : FlashManager → ℕ
get_flash_end manager = get_flash_size manager

-- Words stored one after the other from an address on.
pub store_words : Chip → Memory → ℕ → List ℕ → Memory
store_words chip m addr [] = m
store_words chip m addr (w ∷ ws) = store_words chip (store_word chip m addr w) (addr + 4) ws

module _ (chip : Chip) where
  -- The loop of write. The controller faults at an address that is not a word's, which is none.
  pub write_words : Memory → ℕ → List ℕ → Option Memory
  write_words m addr [] = some m
  write_words m addr (w ∷ ws) =
      if addr % 4 == 0 then write_words (store_word chip m addr w) (addr + 4) ws else none

  -- `sd_enabled` tells whether the SoftDevice is, and `sd_accepts` for which addresses and numbers
  -- of words it takes the request to write them. One that it refuses is made for ever, which is none.
  pub write : FlashManager → (ℕ → ℕ → Bool) → Bool → Memory → ℕ → List ℕ → Option Memory
  unfolding write_words store_words
  write manager sd_accepts sd_enabled m address data_words =
      let addr = physical manager address in
      if sd_enabled
      then (if sd_accepts addr (length data_words)
          then some (store_words chip m addr data_words)
          else none)
      else write_words m addr data_words

  -- The SoftDevice is given the number of the page.
  pub erase : FlashManager → Bool → Memory → ℕ → Memory
  erase manager sd_enabled m page =
      if sd_enabled
      then chip.erase m (physical manager page / manager.page_size * manager.page_size)
      else chip.erase m (physical manager page)
