-- ===== src/FlashManager/Tests.antt =====
-- A manager of two pages of a small chip.
use codal_microbit_v.Base.{
  ℕ, ◌*◌, ◌%◌, ◌≡◌, refl, arith, Bool, true, false, ◌&&◌, some, List, [], ◌∷◌, ltb, leb, ◌==◌,
  Memory,
}
use codal_microbit_v.Flash.{Chip}
use codal_microbit_v.Flash.Tests.{small_chip}
use codal_microbit_v.Flash.Words.{within}
use codal_microbit_v.FlashManager.{FlashManager, read, write, erase}
use codal_microbit_v.FlashManager.Words.{erase-write-read}

abbrev chip : Chip
chip = small_chip 512 refl (omega arith) 8192

abbrev manager : FlashManager
manager = record { start_address = 1024; page_count = 2; page_size = 512 }

abbrev memory : Memory
memory a = 7

abbrev data_words : List ℕ
data_words = 0xdead_beef ∷ 0 ∷ 0xffff_ffff ∷ []

-- The SoftDevice takes up to a page of words at the address of a word.
abbrev sd_accepts : ℕ → ℕ → Bool
sd_accepts a n = a % 4 == 0 && ltb 0 n && leb (4 * n) 512

erase-write-read_example :
    (after : Memory) × (write chip manager sd_accepts true
        (erase chip manager true memory 512)
        1000
        data_words
      ≡ some after)
    × (read manager after 1000 3 ≡ data_words)
    × ((x : ℕ) → within 1536 512 x ≡ false → after x ≡ 7)
erase-write-read_example =
    erase-write-read chip manager sd_accepts true memory 512 1000 data_words
      (λ a n aligned some_words fits. ground arith) refl refl (omega arith) refl (omega arith)
      (omega arith) (omega arith) (omega arith, (omega arith, (omega arith, tt)))
