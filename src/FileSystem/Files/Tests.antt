-- ===== src/FileSystem/Files/Tests.antt =====
-- A small file system with one file, and the theorems there.
use codal_microbit_v.Base.{
  ◌==◌, inl, stored, ℕ, ◌-◌, ◌%◌, ◌≤◌, ◌≡◌, refl, arith, true, false, ◌&&◌, ◌⊎◌, none, List, [],
  ◌∷◌, ◌++◌, take, drop, replicate, get_or, ltb, leb, if◌then◌else◌, Memory, ok, err, not_supported,
}
use codal_microbit_v.Flash.{Chip}
use codal_microbit_v.Flash.Tests.{small_chip}
use codal_microbit_v.FileSystem.{
  FileSystem, FileDescriptor, half_bytes, deleted, get_block, erase_page,
}
use codal_microbit_v.Flash.Write.{IsBytes}
use codal_microbit_v.FileSystem.Storing.{all_small-AreBytes}
use codal_microbit_v.FileSystem.Directory.{
  get_directory_of, get_directory_entry, follow, find_entry, base_name, names,
}
use codal_microbit_v.FileSystem.Blocks.{get_free_page}
use codal_microbit_v.FileSystem.Blocks.Finding.{get_free_page_lem, AllVacant, HasLive}
use codal_microbit_v.FileSystem.Files.{get_file_descriptor, put_file}
use codal_microbit_v.FileSystem.Files.Reading.{contents}
use codal_microbit_v.FileSystem.Files.Access.{close, seek, read, write}
use codal_microbit_v.FileSystem.Files.Access.Laws.{read-contents, seek-read, read-read}
use codal_microbit_v.FileSystem.Files.Descriptors.{AreDistinct}
use codal_microbit_v.FileSystem.Files.Access.Closing.{close_lem}
use codal_microbit_v.FileSystem.Files.Access.RoundTrip.{write-seek-read}
use codal_microbit_v.FileSystem.Files.Naming.{
  is_valid_filename, printable, remove, open_existing, add_descriptor,
}
use codal_microbit_v.FileSystem.Files.Naming.Removing.{cleared, remove_lem}
use codal_microbit_v.FileSystem.Files.Naming.Numbers.{is_open, open_existing_lem}

-- Pages of two blocks; the default scratch page is at 8192.
abbrev pub chip : Chip
chip = small_chip 512 refl (omega arith) 8192

-- The table is at 1024, the root directory is block 1, and its second entry is a file of 300 bytes
-- in the blocks 2 and 3. The third is a file that is empty and has block 4.
abbrev pub table_bytes : List ℕ
table_bytes = 1 ∷ 0 ∷ 255 ∷ 239 ∷ 3 ∷ 0 ∷ 255 ∷ 239 ∷ 255 ∷ 239 ∷ []

abbrev pub directory_bytes : List ℕ
directory_bytes =
    replicate 16 b'M'
    ++ 1 ∷ 0 ∷ 0 ∷ 64 ∷ 16 ∷ 0 ∷ 0 ∷ 0 ∷ b'a' ∷ replicate 15 0
    ++ 2 ∷ 0 ∷ 0 ∷ 64 ∷ 44 ∷ 1 ∷ 0 ∷ 0 ∷ b'b' ∷ replicate 15 0
    ++ 4 ∷ 0 ∷ 0 ∷ 64 ∷ 0 ∷ 0 ∷ 0 ∷ 0 ∷ []

abbrev pub memory : Memory
memory x =
    if ltb x 1024
    then 255
    else if ltb x 1034
    then get_or table_bytes (x - 1024) 0
    else if leb 1280 x && ltb x 1352
    then get_or directory_bytes (x - 1280) 0
    else if ltb x 1536
    then 255
    else if ltb x 2048
    then x % 251
    else 255

memory-IsBytes : IsBytes memory
memory-IsBytes x =
    let table = all_small-AreBytes table_bytes refl (x - 1024) in
    let directory = all_small-AreBytes directory_bytes refl (x - 1280) in
    ground (arith, table, directory)

memory_blank : (x : ℕ) → 2048 ≤ x → memory x ≡ 255
memory_blank x lo =
    let a : ltb x 1024 ≡ false = ground arith in
    let b : ltb x 1034 ≡ false = ground arith in
    let d : (leb 1280 x && ltb x 1352) ≡ false = ground arith in
    let e : ltb x 1536 ≡ false = ground arith in
    let f : ltb x 2048 ≡ false = ground arith in rw (a, b, d, e, f) refl

abbrev pub file : FileDescriptor
file = record {
  flags = 1;
  id = 0;
  seek = 5;
  length = 300;
  dirent = 1304;
  directory = 1280;
  cache = [];
}

abbrev pub fs : FileSystem
fs = record {
  memory = memory;
  initialised = true;
  table = 1024;
  size = 16;
  table_size = 1;
  last_block = 3;
  root = 1280;
  open_files = file ∷ [];
}

read-contents_example :
    read chip fs 0 290
    ≡ (ok (take 290 (drop 5 (contents 2 fs file))), put_file fs 0 (record file { seek = 295 }))
unfolding get_file_descriptor
read-contents_example =
    read-contents chip 2 fs 0 file refl refl refl refl (omega arith) (omega arith) 290 (omega arith)

seek-read_example :
    let (r, moved) = seek chip fs 0 256 1 in
    (r ≡ ok 256) × ((read chip moved 0 10).0 ≡ ok (take 10 (drop 256 (contents 2 fs file))))
unfolding get_file_descriptor
seek-read_example =
    seek-read chip 2 fs 0 file refl refl refl refl (omega arith) (omega arith) 256 10 (omega arith)
      (omega arith) (omega arith)

read-read_example :
    let (r, after) = read chip fs 0 270 in
    (xs ys : List ℕ) × (r ≡ ok xs)
    × ((read chip after 0 100).0 ≡ ok ys)
    × ((read chip fs 0 370).0 ≡ ok (xs ++ ys))
unfolding get_file_descriptor
read-read_example =
    read-read chip 2 fs 0 file refl refl refl refl (omega arith) (omega arith) 270 100 (omega arith)
      (omega arith)

open_existing_lem_example :
    ((is_open (file ∷ []) 1328 ≡ true)
      × (open_existing chip fs 1 1280 1328 ≡ (err not_supported, fs)))
    ⊎ ((is_open (file ∷ []) 1328 ≡ false)
        × ((id : ℕ) × (get_file_descriptor (file ∷ []) id ≡ none)
            × (open_existing chip fs 1 1280 1328 ≡ add_descriptor fs 1 id 1328 1280)))
open_existing_lem_example = open_existing_lem chip fs 1 1280 1328

get_free_page_lem_example :
    let (address, after) = get_free_page chip fs in
    ((page : ℕ) × (address ≡ get_block fs page)
      × (after ≡ record fs { last_block = page })
      × AllVacant chip fs page)
    ⊎ (((page : ℕ) × (address ≡ get_block fs page)
          × (after ≡ erase_page chip fs address)
          × HasLive chip fs page)
        ⊎ ((address ≡ 8192) × (after ≡ erase_page chip fs address)))
get_free_page_lem_example = get_free_page_lem chip fs

abbrev pub closed_fs : FileSystem
closed_fs = record fs { open_files = [] }

remove_lem_example : remove chip closed_fs (b'a' ∷ []) ≡ (
  ok tt,
  record closed_fs { memory = stored (cleared (2 ∷ 3 ∷ []) memory 1024) 1322 (half_bytes deleted) },
)
unfolding get_directory_of get_directory_entry follow find_entry base_name names is_valid_filename
    printable
remove_lem_example =
    remove_lem chip refl closed_fs (b'a' ∷ []) 1280 1304 (2 ∷ 3 ∷ []) refl refl refl refl refl
      memory-IsBytes (refl, refl, (refl, refl, refl)) ((refl, tt), (tt, tt)) (omega arith)

abbrev empty_file : FileDescriptor
empty_file = record file { id = 1; seek = 0; length = 0; dirent = 1328 }

abbrev two_open : FileSystem
two_open = record fs { open_files = empty_file ∷ file ∷ [] }

abbrev text : List ℕ
text = b'a' ∷ b'b' ∷ b'c' ∷ []

write-seek-read_example :
    let (r, after) = write chip 0 two_open 1 text in
    (r ≡ ok 3)
    × ((read chip (seek chip after 1 1 1).1 1 5).0
        ≡ ok (take 5 (drop 1 (contents 1 two_open empty_file ++ text))))
unfolding get_file_descriptor
write-seek-read_example =
    write-seek-read chip two_open 1 0 empty_file text 1 5 refl refl refl refl refl (omega arith)
      (omega arith) refl (omega arith) memory-IsBytes (all_small-AreBytes text refl)
      (λ x lo hi. memory_blank x lo) (inl (omega arith)) (omega arith) (omega arith)

close_lem_example :
    let (r, after) = close chip two_open 0 in
    (r ≡ ok tt)
    × (after.memory ≡ memory)
    × (get_file_descriptor after.open_files 0 ≡ none)
    × ((x : ℕ)
        → (x == 0) ≡ false
        → get_file_descriptor after.open_files x ≡ get_file_descriptor (empty_file ∷ file ∷ []) x)
    × AreDistinct after.open_files
unfolding get_file_descriptor
close_lem_example = close_lem chip two_open 0 file refl refl refl refl refl (refl, (refl, tt))
