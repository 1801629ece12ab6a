-- ===== src/FileSystem/Files/Naming.antt =====
-- The operations on a name: open, remove and createDirectory.
pub mod Numbers
pub mod Removing
use codal_microbit_v.Base.{
  ℕ, zero, suc, ◌+◌, ◌-◌, ◌*◌, ◌/◌, ◌%◌, ◌^◌, ◌≡◌, Bool, true, false, not, ◌&&◌, ◌||◌, Option, none,
  some, List, [], ◌∷◌, ◌++◌, length, ltb, leb, ◌==◌, if◌then◌else◌, Result, ok, err,
  invalid_parameter, not_supported, no_resources,
}
use codal_microbit_v.Flash.{Chip, word_at}
use codal_microbit_v.FileSystem.{
  FileSystem, FileDescriptor, eof, deleted, half_bytes, get_next_file_block, store,
  file_table_write,
}
use codal_microbit_v.FileSystem.Directory.{
  first_block, entry_flags, get_directory_entry, get_directory_of, create_file,
}
use codal_microbit_v.FileSystem.Files.{get_file_descriptor, remove_descriptor}

unfoldable pub printable : List ℕ → Bool
printable [] = true
printable (c ∷ cs) = if ltb c 32 || ltb 126 c then false else printable cs

unfoldable pub is_valid_filename : List ℕ → Bool
unfolding printable
is_valid_filename name = not (length name == 0) && printable name

-- What the walk along the open files finds: the file is open already, a descriptor has the number
-- `id`, or neither.
pub data Scan : Type 0 where
  open_already : Scan
  taken : Scan
  vacant : Scan

pub scan : List FileDescriptor → ℕ → ℕ → Scan
scan [] dirent id = vacant
scan (f ∷ fs) dirent id =
    if f.dirent == dirent then open_already else if f.id == id then taken else scan fs dirent id

-- The loop of open, which starts again from the first file with the next number: the number for a
-- file, or none if it is open.
pub choose_id : ℕ → List FileDescriptor → ℕ → ℕ → Option ℕ
unfolding scan
choose_id zero files dirent id = none
choose_id (suc fuel) files dirent id = elim (scan files dirent id) [
  | open_already ↦ none
  | taken ↦ choose_id fuel files dirent (id + 1)
  | vacant ↦ some id
]

-- The flags of open: MB_CREAT is 4 and MB_APPEND is 8.
abbrev pub creates : ℕ → Bool
creates flags = flags / 4 % 2 == 1

abbrev pub without_creat : ℕ → ℕ
without_creat flags = (if creates flags then flags - 4 else flags) % 2 ^ 16

abbrev pub descriptor : FileSystem → ℕ → ℕ → ℕ → ℕ → FileDescriptor
descriptor fs flags id dirent directory =
    let length = if entry_flags fs dirent == 0xffff then 0 else word_at fs.memory (dirent + 20) in
    record {
      flags = without_creat flags;
      id = id;
      seek = if flags / 8 % 2 == 1 then length else 0;
      length = length;
      dirent = dirent;
      directory = directory;
      cache = [];
    }

-- The descriptor is put at the front of the chain.
abbrev pub add_descriptor : FileSystem → ℕ → ℕ → ℕ → ℕ → Result ℕ × FileSystem
add_descriptor fs flags id dirent directory =
    (ok id, record fs { open_files = descriptor fs flags id dirent directory ∷ fs.open_files })

module _ (chip : Chip) where
  -- A file that is there. One round more than there are open files finds a number.
  pub open_existing : FileSystem → ℕ → ℕ → ℕ → Result ℕ × FileSystem
  unfolding choose_id
  open_existing fs flags directory dirent =
      elim (choose_id (length fs.open_files + 1) fs.open_files dirent 0) [
        | none ↦ (err not_supported, fs)
        | some id ↦ add_descriptor fs flags id dirent directory
      ]

  -- One that is not: the walk along the open files is not made then, and the number is 0.
  pub open_new : FileSystem → List ℕ → ℕ → ℕ → Result ℕ × FileSystem
  open_new fs name flags directory =
      let (created, fs1) = create_file chip fs name directory false in
      if not (creates flags) then (err invalid_parameter, fs) else elim created [
        | none ↦ (err no_resources, fs1)
        | some dirent ↦ add_descriptor fs1 flags 0 dirent directory
      ]

  pub open_file : FileSystem → List ℕ → ℕ → Result ℕ × FileSystem
  unfolding is_valid_filename open_existing open_new
  open_file fs name flags =
      if not fs.initialised
      then (err not_supported, fs)
      else if not (is_valid_filename name)
      then (err invalid_parameter, fs)
      else elim (get_directory_of fs name) [
        | none ↦ (err invalid_parameter, fs)
        | some directory ↦ elim (get_directory_entry fs name directory) [
          | none ↦ open_new fs name flags directory
          | some dirent ↦ open_existing fs flags directory dirent
        ]
      ]

  -- The loop of remove along the blocks of a file. No chain is longer than a table of 2 ^ 16
  -- entries.
  pub free_chain : ℕ → FileSystem → ℕ → FileSystem
  free_chain zero fs block = fs
  free_chain (suc fuel) fs block = elim (block == eof) [
    | true ↦ fs
    | false ↦
        free_chain fuel (file_table_write chip fs block deleted) (get_next_file_block fs block)
  ]

  pub remove_file : FileSystem → ℕ → FileDescriptor → FileSystem
  unfolding free_chain
  remove_file fs fd file =
      let fs1 = record fs { open_files = remove_descriptor fs.open_files fd } in
      let fs2 = free_chain (2 ^ 16) fs1 (first_block fs1 file.dirent) in
      store chip fs2 (file.dirent + 18) (half_bytes deleted) 0

  -- With what open returned. The descriptor of a file just opened is always found.
  pub remove_opened : Result ℕ × FileSystem → Result (Unit {0}) × FileSystem
  unfolding remove_file
  remove_opened (err e, fs) = (err e, fs)
  remove_opened (ok fd, fs) = elim (get_file_descriptor fs.open_files fd) [
    | none ↦ (ok tt, fs)
    | some file ↦ (ok tt, remove_file fs fd file)
  ]

  pub remove : FileSystem → List ℕ → Result (Unit {0}) × FileSystem
  unfolding open_file remove_opened
  remove fs name = remove_opened (open_file fs name 1)

  pub create_directory : FileSystem → List ℕ → Result (Unit {0}) × FileSystem
  unfolding is_valid_filename
  create_directory fs name =
      if not fs.initialised
      then (err not_supported, fs)
      else if not (is_valid_filename name)
      then (err invalid_parameter, fs)
      else elim (get_directory_of fs name) [
        | none ↦ (err invalid_parameter, fs)
        | some directory ↦ elim (get_directory_entry fs name directory) [
          | some dirent ↦ (err invalid_parameter, fs)
          | none ↦
              let (created, fs1) = create_file chip fs name directory true in
              elim created [ none ↦ (err no_resources, fs1) | some dirent ↦ (ok tt, fs1) ]
        ]
      ]
