-- ===== src/FileSystem/Directory.antt =====
-- Directories: searching one for a name, following a path, and making entries.
use codal_microbit_v.Base.{
  ℕ, zero, suc, ◌+◌, ◌*◌, ◌/◌, ◌%◌, ◌^◌, Bool, true, false, not, ◌&&◌, ◌||◌, Option, none, some,
  List, [], ◌∷◌, ◌++◌, length, take, replicate, ltb, leb, ◌==◌, if◌then◌else◌, Memory,
}
use codal_microbit_v.Flash.{Chip}
use codal_microbit_v.FileSystem.{
  FileSystem, block_size, entry_size, name_length, eof, half_at, half_bytes, word_bytes, get_block,
  get_next_file_block, get_block_number, store, file_table_write,
}
use codal_microbit_v.FileSystem.Blocks.{recycle_block, get_free_block}

-- A name is the list of its characters, with no NUL and with the character `/` as 47. What stands
-- behind the last `/`.
unfoldable pub base_name : List ℕ → List ℕ → List ℕ
base_name [] acc = acc
base_name (c ∷ cs) acc = base_name cs (if c == b'/' then [] else acc ++ c ∷ [])

-- `strcmp` of the text at an address with a name.
unfoldable pub names : Memory → ℕ → List ℕ → Bool
names m a [] = m a == 0
names m a (c ∷ cs) = if m a == c then names m (a + 1) cs else false

abbrev pub first_block : FileSystem → ℕ → ℕ
first_block fs dirent = half_at fs.memory (dirent + 16)

abbrev pub entry_flags : FileSystem → ℕ → ℕ
entry_flags fs dirent = half_at fs.memory (dirent + 18)

abbrev pub is_valid : FileSystem → ℕ → Bool
is_valid fs dirent = entry_flags fs dirent / 2 ^ 14 % 2 == 1

abbrev pub is_free : FileSystem → ℕ → Bool
is_free fs dirent = entry_flags fs dirent / 2 ^ 15 % 2 == 1

-- The entries of a block that fit in it.
abbrev pub entries_per_block : ℕ
entries_per_block = block_size / entry_size

-- The loop of getDirectoryEntry at entry `i` of a block.
unfoldable pub find_entry : ℕ → FileSystem → ℕ → ℕ → List ℕ → Option ℕ
unfolding names
find_entry zero fs block i name = none
find_entry (suc fuel) fs block i name = elim (leb entries_per_block i) [
  | true ↦ elim (get_next_file_block fs block == eof) [
    | true ↦ none
    | false ↦ find_entry fuel fs (get_next_file_block fs block) 0 name
  ]
  | false ↦
      let dirent = get_block fs block + i * entry_size in
      elim (is_valid fs dirent && names fs.memory dirent name) [
        | true ↦ some dirent
        | false ↦ find_entry fuel fs block (i + 1) name
      ]
]

-- A chain has no more blocks than the file system, and a round is made for each entry and block.
abbrev pub search_fuel : FileSystem → ℕ
search_fuel fs = fs.size * (entries_per_block + 1) + 1

unfoldable pub get_directory_entry : FileSystem → List ℕ → ℕ → Option ℕ
unfolding find_entry base_name
get_directory_entry fs name directory =
    find_entry (search_fuel fs) fs (first_block fs directory) 0 (base_name name [])

-- The loop of getDirectoryOf, with the characters since the last `/`; none for NULL.
unfoldable pub follow : FileSystem → List ℕ → List ℕ → ℕ → Option ℕ
unfolding get_directory_entry
follow fs [] s directory = some directory
follow fs (c ∷ cs) s directory = elim (c == b'/') [
  | false ↦ follow fs cs (s ++ c ∷ []) directory
  | true ↦ elim (length s == 0 || ltb (name_length + 1) (length s)) [
    | true ↦ none
    | false ↦ elim (get_directory_entry fs s directory) [
      | none ↦ none
      | some next ↦ follow fs cs [] next
    ]
  ]
]

unfoldable pub get_directory_of : FileSystem → List ℕ → Option ℕ
unfolding follow
get_directory_of fs name = follow fs name [] fs.root

-- The loop of createDirectoryEntry: an entry never used, and the first that is not valid.
pub find_slot : ℕ → FileSystem → ℕ → ℕ → Option ℕ → Option ℕ × Option ℕ
find_slot zero fs block i invalid = (none, invalid)
find_slot (suc fuel) fs block i invalid = elim (leb entries_per_block i) [
  | true ↦ elim (get_next_file_block fs block == eof) [
    | true ↦ (none, invalid)
    | false ↦ find_slot fuel fs (get_next_file_block fs block) 0 invalid
  ]
  | false ↦
      let dirent = get_block fs block + i * entry_size in
      elim (is_free fs dirent) [
        | true ↦ (some dirent, invalid)
        | false ↦ find_slot fuel fs block (i + 1) (elim invalid [
          | some d ↦ some d
          | none ↦ if not (is_valid fs dirent) then some dirent else none
        ])
      ]
]

-- The last block of a chain.
pub last_of : ℕ → FileSystem → ℕ → ℕ
last_of zero fs block = block
last_of (suc fuel) fs block = elim (get_next_file_block fs block == eof) [
  | true ↦ block
  | false ↦ last_of fuel fs (get_next_file_block fs block)
]

-- The bytes of a DirectoryEntry. What strcpy leaves behind the NUL of a shorter name is taken as 0;
-- a longer name is overwritten by the fields behind it.
abbrev pub entry_bytes : List ℕ → ℕ → ℕ → ℕ → List ℕ
entry_bytes name first flags length =
    take name_length (name ++ replicate name_length 0)
    ++ (half_bytes first ++ (half_bytes flags ++ word_bytes length))

module _ (chip : Chip) where
  -- The directory has `block` appended.
  pub extend_directory : FileSystem → ℕ → ℕ → FileSystem
  unfolding file_table_write last_of
  extend_directory fs directory block =
      let last = last_of fs.size fs (first_block fs directory) in
      file_table_write chip (file_table_write chip fs last block) block eof

  pub slot_found : FileSystem → ℕ → Option ℕ × Option ℕ → Option ℕ × FileSystem
  unfolding extend_directory
  slot_found fs directory (some dirent, invalid) = (some dirent, fs)
  slot_found fs directory (none, some dirent) =
      (some dirent, recycle_block chip fs (get_block_number fs dirent) true)
  slot_found fs directory (none, none) =
      let (block, fs1) = get_free_block chip fs in
      if block == 0
      then (none, fs1)
      else (some (get_block fs1 block), extend_directory fs1 directory block)

  pub create_directory_entry : FileSystem → ℕ → Option ℕ × FileSystem
  unfolding slot_found find_slot
  create_directory_entry fs directory =
      slot_found fs directory (find_slot (search_fuel fs) fs (first_block fs directory) 0 none)

  -- A file or directory in the entry at `dirent`.
  pub fill_entry : FileSystem → ℕ → List ℕ → Bool → Option ℕ × FileSystem
  unfolding store file_table_write base_name
  fill_entry fs dirent name is_directory =
      let (block, fs1) = get_free_block chip fs in
      let bytes : List ℕ = elim is_directory [
        | true ↦ entry_bytes (base_name name []) block (2 ^ 14 + 2 ^ 13) 0
        | false ↦ entry_bytes (base_name name []) block 0xffff 0xffff_ffff
      ] in
      if block == 0
      then (none, fs1)
      else (some dirent, file_table_write chip (store chip fs1 dirent bytes 0) block eof)

  pub create_file : FileSystem → List ℕ → ℕ → Bool → Option ℕ × FileSystem
  unfolding create_directory_entry fill_entry
  create_file fs name directory is_directory =
      let (slot, fs1) = create_directory_entry fs directory in
      elim slot [ none ↦ (none, fs1) | some dirent ↦ fill_entry fs1 dirent name is_directory ]
