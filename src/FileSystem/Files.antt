-- ===== src/FileSystem/Files.antt =====
-- Open files: the chain of descriptors, walking a file's blocks, and writing bytes and the entry.
pub mod Access
pub mod Naming
pub mod Tests
pub mod Reading
pub mod Descriptors
use codal_microbit_v.Base.{
  ℕ, zero, suc, ◌+◌, ◌-◌, ◌*◌, ◌/◌, ◌%◌, ◌^◌, ◌≡◌, Bool, true, false, not, ◌&&◌, ◌||◌, Option, none,
  some, List, [], ◌∷◌, ◌++◌, min, length, take, drop, ltb, leb, ◌==◌, if◌then◌else◌, bytes_at,
  Result, ok, err, invalid_parameter, not_supported, no_resources,
}
use codal_microbit_v.Flash.{Chip, word_at}
use codal_microbit_v.FileSystem.{
  FileSystem, FileDescriptor, block_size, entry_size, eof, deleted, half_bytes, word_bytes,
  get_block, get_next_file_block, store, file_table_write,
}
use codal_microbit_v.FileSystem.Blocks.{get_free_page, get_free_block}
use codal_microbit_v.FileSystem.Directory.{
  first_block, entry_flags, get_directory_entry, get_directory_of, create_directory_entry,
  create_file,
}

-- The file with the descriptor `fd`: the first in the chain.
unfoldable pub get_file_descriptor : List FileDescriptor → ℕ → Option FileDescriptor
get_file_descriptor [] fd = none
get_file_descriptor (f ∷ fs) fd = if f.id == fd then some f else get_file_descriptor fs fd

-- The chain without it.
pub remove_descriptor : List FileDescriptor → ℕ → List FileDescriptor
remove_descriptor [] fd = []
remove_descriptor (f ∷ fs) fd = if f.id == fd then fs else f ∷ remove_descriptor fs fd

-- The chain after the file with this descriptor was changed.
pub update_descriptor : List FileDescriptor → ℕ → FileDescriptor → List FileDescriptor
update_descriptor [] fd g = []
update_descriptor (f ∷ fs) fd g = if f.id == fd then g ∷ fs else f ∷ update_descriptor fs fd g

abbrev pub put_file : FileSystem → ℕ → FileDescriptor → FileSystem
put_file fs fd file = record fs { open_files = update_descriptor fs.open_files fd file }

-- The walk of read and writeBuffer to the block that `left` bytes lead to, and the offset in it.
pub find_position : ℕ → FileSystem → ℕ → ℕ → ℕ × ℕ
find_position zero fs block left = (block, left)
find_position (suc fuel) fs block left = elim (ltb block_size left) [
  | true ↦ find_position fuel fs (get_next_file_block fs block) (left - block_size)
  | false ↦ (block, left)
]

-- The loop of read, with `left` bytes to copy.
pub read_loop : ℕ → FileSystem → ℕ → ℕ → ℕ → List ℕ
read_loop zero fs block offset left = []
read_loop (suc fuel) fs block offset left = elim (ltb 0 left) [
  | false ↦ []
  | true ↦
      let n = min left (block_size - offset) in
      let at_end = offset + n == block_size in
      bytes_at fs.memory (get_block fs block + offset) n
      ++ read_loop fuel fs (if at_end then get_next_file_block fs block else block)
          (if at_end then 0 else offset + n) (left - n)
]

-- What read copies from an open file: each round copies a byte, or goes on to the next block.
pub read_bytes : FileSystem → FileDescriptor → ℕ → List ℕ
unfolding find_position read_loop
read_bytes fs file size =
    let n = min size (file.length - file.seek) in
    let (block, offset) = find_position file.seek fs (first_block fs file.dirent) file.seek in
    read_loop (2 * n + 1) fs block offset n

module _ (chip : Chip) where
  -- The page that a write to file data uses as scratch: a free one where the file is overwritten.
  abbrev pub scratch_for : FileSystem → Bool → ℕ × FileSystem
  scratch_for fs overwrites = elim overwrites [ true ↦ get_free_page chip fs | false ↦ (0, fs) ]

  pub store_segment : FileSystem → Bool → ℕ → List ℕ → FileSystem
  unfolding store
  store_segment fs overwrites address bytes =
      let (scratch, fs1) = scratch_for fs overwrites in
      if length bytes == 0 then fs else store chip fs1 address bytes scratch

  -- The loop of writeBuffer, with `copied` bytes done: how many are in the end.
  pub write_loop : ℕ → FileSystem → FileDescriptor → ℕ → ℕ → List ℕ → ℕ → ℕ × FileSystem
  unfolding store_segment file_table_write
  write_loop zero fs file block offset bytes copied = (copied, fs)
  write_loop (suc fuel) fs file block offset bytes copied = elim (ltb 0 (length bytes)) [
    | false ↦ (copied, fs)
    | true ↦
        let n = min (length bytes) (block_size - offset) in
        let fs1 =
          store_segment fs (ltb (file.seek + copied) file.length) (get_block fs block + offset)
            (take n bytes) in
        elim (offset + n == block_size && ltb n (length bytes)) [
          | false ↦ write_loop fuel fs1 file block (offset + n) (drop n bytes) (copied + n)
          | true ↦
              let (next, fs2) = get_free_block chip fs1 in
              elim (next == 0) [
                | true ↦ (copied + n, fs2)
                | false ↦
                    write_loop fuel
                      (file_table_write chip (file_table_write chip fs2 next eof) block next) file
                      next 0 (drop n bytes) (copied + n)
              ]
        ]
  ]

  abbrev pub max : ℕ → ℕ → ℕ
  max a b = if ltb a b then b else a

  -- The file is passed as it is, and returned with its new length and position.
  pub write_buffer : FileSystem → FileDescriptor → List ℕ → ℕ × FileDescriptor × FileSystem
  unfolding write_loop find_position
  write_buffer fs file bytes =
      let (block, offset) = find_position file.seek fs (first_block fs file.dirent) file.seek in
      let (copied, fs1) = write_loop (2 * length bytes + 1) fs file block offset bytes 0 in
      (
        copied,
        record file { length = max file.length (file.seek + copied); seek = file.seek + copied },
        fs1,
      )

  pub write_back : FileSystem → FileDescriptor → FileDescriptor × FileSystem
  unfolding write_buffer
  write_back fs file =
      let (copied, file1, fs1) = write_buffer fs file file.cache in
      if length file.cache == 0 then (file, fs) else (record file1 { cache = [] }, fs1)

  -- The entry of a file whose length has changed is written: a new file's in its place, another's
  -- in a fresh entry, after the old one was marked.
  pub update_entry : FileSystem → FileDescriptor → FileSystem
  unfolding store
  update_entry fs file =
      let name_and_block = bytes_at fs.memory file.dirent 18 in
      let bytes = λ (flags : ℕ). name_and_block ++ (half_bytes flags ++ word_bytes file.length) in
      let fs1 = store chip fs (file.dirent + 18) (half_bytes deleted) 0 in
      let (slot, fs2) = create_directory_entry chip fs1 file.directory in
      if entry_flags fs file.dirent == 0xffff
      then store chip fs file.dirent (bytes (2 ^ 14)) 0
      else elim slot [
        | none ↦ store chip fs2 0 (bytes (entry_flags fs file.dirent)) 0
        | some dirent ↦ store chip fs2 dirent (bytes (entry_flags fs file.dirent)) 0
      ]
