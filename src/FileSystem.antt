-- ===== src/FileSystem.antt =====
-- inc/MicroBitFileSystem.h and source/MicroBitFileSystem.cpp: files in flash memory, as chains of
-- blocks that a table links, and directories of entries. This file has the state and the table.
pub mod Blocks
pub mod Files
pub mod Directory
pub mod Format
pub mod Storing
use codal_microbit_v.Base.{
  ℕ, zero, suc, ◌+◌, ◌-◌, ◌*◌, ◌/◌, ◌%◌, ◌^◌, Bool, List, [], ◌∷◌, ◌==◌, if◌then◌else◌, Memory,
}
use codal_microbit_v.Flash.{Chip, flash_write}

-- The constants of inc/MicroBitConfig.h and of the header. A directory entry has 24 bytes: the
-- name at 0, `first_block` at 16, `flags` at 18 and `length` at 20.
abbrev pub block_size : ℕ
block_size = 256

abbrev pub name_length : ℕ
name_length = 16

abbrev pub entry_size : ℕ
entry_size = 24

abbrev pub unused : ℕ
unused = 0xffff

abbrev pub eof : ℕ
eof = 0xefff

abbrev pub deleted : ℕ
deleted = 0

-- An open file. `dirent` and `directory` are addresses; `cache` holds the `cacheLength` bytes that
-- wait to be written.
pub record FileDescriptor : Type 0 where
  pub flags : ℕ
  pub id : ℕ
  pub seek : ℕ
  pub length : ℕ
  pub dirent : ℕ
  pub directory : ℕ
  pub cache : List ℕ

-- `table` is the address `fileSystemTable`; `root` is 0 for NULL.
pub record FileSystem : Type 0 where
  pub memory : Memory
  pub initialised : Bool
  pub table : ℕ
  pub size : ℕ
  pub table_size : ℕ
  pub last_block : ℕ
  pub root : ℕ
  pub open_files : List FileDescriptor

-- A `uint16_t` in memory, little-endian, and the bytes of one and of a `uint32_t`.
abbrev pub half_at : Memory → ℕ → ℕ
half_at m a = m a + m (a + 1) * 2 ^ 8

abbrev pub half_bytes : ℕ → List ℕ
half_bytes v = v % 2 ^ 8 ∷ v / 2 ^ 8 % 2 ^ 8 ∷ []

abbrev pub word_bytes : ℕ → List ℕ
word_bytes v = v % 2 ^ 8 ∷ v / 2 ^ 8 % 2 ^ 8 ∷ v / 2 ^ 16 % 2 ^ 8 ∷ v / 2 ^ 24 % 2 ^ 8 ∷ []

abbrev pub get_block : FileSystem → ℕ → ℕ
get_block fs block = fs.table + block * block_size

abbrev pub get_next_file_block : FileSystem → ℕ → ℕ
get_next_file_block fs block = half_at fs.memory (fs.table + 2 * block)

abbrev pub get_block_number : FileSystem → ℕ → ℕ
get_block_number fs address = (address - fs.table) / block_size % 2 ^ 16

abbrev pub calculate_file_table_size : ℕ → ℕ
calculate_file_table_size size =
    let blocks = size * 2 / block_size in
    (if size * 2 % block_size == 0 then blocks else blocks + 1) % 2 ^ 16

module _ (chip : Chip) where
  -- The flash driver's writes, of which the results are not looked at, and its erasure of a page.
  pub store : FileSystem → ℕ → List ℕ → ℕ → FileSystem
  store fs address bytes scratch = record fs {
    memory = (flash_write chip address bytes scratch fs.memory).1;
  }

  pub erase_page : FileSystem → ℕ → FileSystem
  erase_page fs page = record fs { memory = chip.erase fs.memory page }

  abbrev pub get_page : FileSystem → ℕ → ℕ
  get_page fs block = get_block fs block - get_block fs block % chip.page_size

  pub file_table_write : FileSystem → ℕ → ℕ → FileSystem
  unfolding store
  file_table_write fs block value = store fs (fs.table + 2 * block) (half_bytes value) 0
