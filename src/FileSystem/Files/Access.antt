-- ===== src/FileSystem/Files/Access.antt =====
-- The operations on a descriptor: flush, close, seek, read and write.
pub mod Laws
mod Writing
pub mod RoundTrip
pub mod Closing
use codal_microbit_v.Base.{
  ℕ, zero, suc, ◌+◌, ◌-◌, ◌*◌, ◌/◌, ◌%◌, ◌^◌, ◌≡◌, Bool, true, false, not, ◌&&◌, ◌||◌, Option, none,
  some, List, [], ◌∷◌, ◌++◌, min, length, take, drop, ltb, leb, ◌==◌, if◌then◌else◌, bytes_at,
  Result, ok, err, invalid_parameter, not_supported, no_resources,
}
use codal_microbit_v.Flash.{Chip, word_at}
use codal_microbit_v.FileSystem.{FileSystem, FileDescriptor}
use codal_microbit_v.FileSystem.Files.{
  get_file_descriptor, remove_descriptor, update_descriptor, put_file, read_bytes, write_buffer,
  write_back, update_entry,
}

module _ (chip : Chip) where
  abbrev pub flush_file : FileSystem → ℕ → FileDescriptor → FileSystem
  flush_file fs fd file =
      let (file1, fs1) = write_back chip fs file in
      let fs2 = put_file fs1 fd file1 in
      if word_at fs2.memory (file1.dirent + 20) == file1.length
      then fs2
      else update_entry chip fs2 file1

  pub flush : FileSystem → ℕ → Result (Unit {0}) × FileSystem
  unfolding write_back update_entry get_file_descriptor update_descriptor
  flush fs fd =
      if not fs.initialised
      then (err not_supported, fs)
      else elim (get_file_descriptor fs.open_files fd) [
        | none ↦ (err invalid_parameter, fs)
        | some file ↦ (ok tt, flush_file fs fd file)
      ]

  pub close : FileSystem → ℕ → Result (Unit {0}) × FileSystem
  unfolding flush remove_descriptor
  close fs fd =
      let (r, fs1) = flush fs fd in
      elim r [
        | err e ↦ (err e, fs1)
        | ok u ↦ (ok tt, record fs1 { open_files = remove_descriptor fs1.open_files fd })
      ]

  -- `offset` as the pattern of an `int`; the position is computed in 32 bits. The flags are tested
  -- one by one.
  abbrev pub position : FileDescriptor → ℕ → ℕ → ℕ
  position file offset flags =
      if flags == 4
      then (file.seek + offset) % 2 ^ 32
      else if flags == 2
      then (file.length + offset) % 2 ^ 32
      else if flags == 1
      then offset
      else file.seek

  pub seek_file : FileSystem → ℕ → FileDescriptor → ℕ → ℕ → Result ℕ × FileSystem
  unfolding write_back update_descriptor
  seek_file fs fd file offset flags =
      let (file1, fs1) = write_back chip fs file in
      let p = position file1 offset flags in
      if leb (2 ^ 31) p || ltb file1.length p
      then (err invalid_parameter, put_file fs1 fd file1)
      else (ok p, put_file fs1 fd (record file1 { seek = p }))

  pub seek : FileSystem → ℕ → ℕ → ℕ → Result ℕ × FileSystem
  unfolding seek_file get_file_descriptor
  seek fs fd offset flags =
      if not fs.initialised
      then (err not_supported, fs)
      else elim (get_file_descriptor fs.open_files fd) [
        | none ↦ (err invalid_parameter, fs)
        | some file ↦ seek_file fs fd file offset flags
      ]

  abbrev pub read_file : FileSystem → ℕ → FileDescriptor → ℕ → Result (List ℕ) × FileSystem
  read_file fs fd file size =
      let (file1, fs1) = write_back chip fs file in
      let bytes = read_bytes fs1 file1 size in
      (ok bytes, put_file fs1 fd (record file1 { seek = file1.seek + length bytes }))

  -- Into a buffer that is not NULL.
  pub read : FileSystem → ℕ → ℕ → Result (List ℕ) × FileSystem
  unfolding write_back read_bytes get_file_descriptor update_descriptor
  read fs fd size =
      if not fs.initialised
      then (err not_supported, fs)
      else elim (get_file_descriptor fs.open_files fd) [
        | none ↦ (err invalid_parameter, fs)
        | some file ↦ if size == 0 then (err invalid_parameter, fs) else read_file fs fd file size
      ]

  -- `cache_size` is the configured MBFS_CACHE_SIZE.
  module _ (cache_size : ℕ) where
    -- The loop of a write through the cache. Every round takes its bytes from the start of the
    -- buffer.
    pub cache_loop : ℕ → FileSystem → FileDescriptor → List ℕ → ℕ → ℕ × FileDescriptor × FileSystem
    unfolding write_back
    cache_loop zero fs file bytes copied = (copied, file, fs)
    cache_loop (suc fuel) fs file bytes copied = elim (ltb copied (length bytes)) [
      | false ↦ (copied, file, fs)
      | true ↦
          let n = min (length bytes) (cache_size - length file.cache) in
          let file1 = record file { cache = file.cache ++ take n bytes } in
          let (file2, fs2) = write_back chip fs file1 in
          elim (length file1.cache == cache_size) [
            | true ↦ cache_loop fuel fs2 file2 bytes (copied + n)
            | false ↦ cache_loop fuel fs file1 bytes (copied + n)
          ]
    ]

    pub write_file : FileSystem → FileDescriptor → List ℕ → ℕ × FileDescriptor × FileSystem
    write_file fs file bytes =
        let (file1, fs1) = write_back chip fs file in
        if ltb (length bytes) cache_size
        then cache_loop (length bytes + 1) fs file bytes 0
        else write_buffer chip fs1 file1 bytes

    abbrev pub wrote : ℕ → ℕ × FileDescriptor × FileSystem → Result ℕ × FileSystem
    wrote fd (copied, file, fs) = (ok copied, put_file fs fd file)

    pub write : FileSystem → ℕ → List ℕ → Result ℕ × FileSystem
    write fs fd bytes =
        if not fs.initialised
        then (err not_supported, fs)
        else elim (get_file_descriptor fs.open_files fd) [
          | none ↦ (err invalid_parameter, fs)
          | some file ↦
              if length bytes == 0
              then (err invalid_parameter, fs)
              else wrote fd (write_file fs file bytes)
        ]
