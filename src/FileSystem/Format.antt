-- ===== src/FileSystem/Format.antt =====
-- init with load and format: an existing file system is found, or a fresh one is laid out.
mod Tests
mod Marking
mod Formatted
pub mod Loading
pub mod Starting
use codal_microbit_v.Base.{
  ℕ, zero, suc, ◌+◌, ◌*◌, ◌/◌, ◌^◌, Bool, true, false, not, ◌&&◌, ◌||◌, List, [], ◌∷◌, leb, ◌==◌,
  if◌then◌else◌, Result, ok, err, not_supported,
}
use codal_microbit_v.Flash.{Chip, word_at}
use codal_microbit_v.FileSystem.{
  FileSystem, block_size, eof, get_block, get_next_file_block, calculate_file_table_size, store,
  file_table_write,
}
use codal_microbit_v.FileSystem.Directory.{names, entry_bytes}

-- "MICROBIT_FS_1_0"
abbrev pub magic : List ℕ
magic =
    b'M' ∷ b'I' ∷ b'C' ∷ b'R' ∷ b'O' ∷ b'B' ∷ b'I' ∷ b'T' ∷ b'_' ∷ b'F' ∷ b'S' ∷ b'_' ∷ b'1' ∷ b'_'
    ∷ b'0' ∷ []

-- The first entries of the table, from `i` on with `n` left, all hold their number.
pub table_valid : ℕ → FileSystem → ℕ → ℕ → Bool
table_valid zero fs i offset = true
table_valid (suc n) fs i offset =
    let next = get_next_file_block fs i in
    let rest = table_valid n fs (i + 1) offset in
    if leb eof next || not (next == offset) then false else rest

pub load : FileSystem → Bool × FileSystem
unfolding table_valid names
load fs =
    let offset = get_next_file_block fs 0 in
    let root = get_block fs offset in
    let size = word_at fs.memory (root + 20) in
    if table_valid offset fs 0 offset && names fs.memory root magic
    then (true, record fs { root = root; size = size; table_size = calculate_file_table_size size })
    else (false, fs)

-- The state that init begins with, and the one that it formats.
abbrev pub fresh : FileSystem → ℕ → FileSystem
fresh fs start = record fs { table = start; last_block = 0; root = 0; open_files = [] }

abbrev pub sized : FileSystem → ℕ → ℕ → FileSystem
sized fs start size = record (fresh fs start) {
  size = size;
  table_size = calculate_file_table_size size;
}

module _ (chip : Chip) where
  -- The blocks of the table, of which `n` are left, are marked as used.
  pub mark_table : ℕ → FileSystem → ℕ → FileSystem
  unfolding file_table_write
  mark_table zero fs block = fs
  mark_table (suc n) fs block =
      mark_table n (file_table_write chip fs block fs.table_size) (block + 1)

  pub format : FileSystem → FileSystem
  unfolding mark_table file_table_write store
  format fs =
      let fs1 = file_table_write chip (mark_table fs.table_size fs 0) fs.table_size eof in
      let root = get_block fs fs.table_size in
      store chip (record fs1 { root = root }) root
        (entry_bytes magic fs.table_size (2 ^ 14) fs.size) 0

  -- With what load found, or else with the sizes determined.
  abbrev pub started : Bool × FileSystem → FileSystem → FileSystem
  started (true, loaded) sized = record loaded { initialised = true }
  started (false, fs) sized = record (format sized) { initialised = true }

  -- With a start and a number of pages that are not 0: else the linker's symbols determine them.
  pub init : FileSystem → ℕ → ℕ → Result (Unit {0}) × FileSystem
  unfolding load format
  init fs start pages = if fs.initialised then (err not_supported, fs) else (
    ok tt,
    started (load (fresh fs start)) (sized fs start (pages * (chip.page_size / block_size))),
  )
