-- ===== src/FileSystem/Files/Access/RoundTrip.antt =====
-- What was written is read.
use Prim.Native.Nat.{bit_and}
use codal_microbit_v.Base.{
  ℕ, ◌+◌, ◌-◌, ◌≤◌, ◌<◌, ◌≡◌, refl, sym, ap, ◌∙◌, arith, true, false, some, List, [], ◌++◌, length,
  take, drop, ◌==◌, ◌⊎◌, ok,
}
use codal_microbit_v.Flash.{Chip}
use codal_microbit_v.Flash.Words.{within}
use codal_microbit_v.Flash.Write.{IsBytes, AreBytes}
use codal_microbit_v.FileSystem.{FileSystem, FileDescriptor, block_size, get_block}
use codal_microbit_v.FileSystem.Storing.{IsErased}
use codal_microbit_v.FileSystem.Directory.{first_block}
use codal_microbit_v.FileSystem.Files.{get_file_descriptor, put_file, find_position}
use codal_microbit_v.FileSystem.Files.Descriptors.{get-update_same}
use codal_microbit_v.FileSystem.Files.Reading.{contents, chain_bytes-files, find_position_here}
use codal_microbit_v.FileSystem.Files.Access.{seek, write, read}
use codal_microbit_v.FileSystem.Files.Access.Laws.{seek-read}
use codal_microbit_v.FileSystem.Files.Access.Writing.{
  written_to, extended, write-stored, contents-written,
}

-- With an aligned default scratch page and a file that is open, with whatever flags, at its end and
-- with nothing cached: bytes, at least one and as many as the cache's size, that have room in the
-- file's first block, where memory is erased, apart from the directory entry, are written; after a
-- seek to a position within the file a read gives the bytes of what the file held followed by those
-- written, from the position on.
pub write-seek-read :
    (chip : Chip) (fs : FileSystem) (fd cache_size : ℕ) (file : FileDescriptor) (bytes : List ℕ)
    (p size : ℕ)
    → let end = get_block fs (first_block fs file.dirent) + file.length in
      (bit_and chip.default_scratch (chip.page_size - 1) == 0) ≡ true
      → fs.initialised ≡ true
      → get_file_descriptor fs.open_files fd ≡ some file
      → file.id ≡ fd
      → file.cache ≡ []
      → cache_size ≤ length bytes
      → 0 < length bytes
      → file.length ≡ file.seek
      → file.length + length bytes ≤ block_size
      → IsBytes fs.memory
      → AreBytes bytes
      → IsErased fs.memory end (length bytes)
      → (file.dirent + 18 ≤ end) ⊎ (end + length bytes ≤ file.dirent + 16)
      → p ≤ file.length + length bytes
      → 0 < size
      → let (r, after) = write chip cache_size fs fd bytes in
        (r ≡ ok (length bytes))
        × ((read chip (seek chip after fd p 1).1 fd size).0
            ≡ ok (take size (drop p (contents 1 fs file ++ bytes))))
write-seek-read chip fs fd cache_size file bytes p size aligned on found number empty direct
      positive at_end fits flash ram erased apart in_file asked =
    rw effect (
      refl,
      (seek-read chip 1 result fd (extended file bytes) on there number empty (omega arith)
            (omega arith) p size (omega arith) (omega arith) asked).1
          ∙ ap (λ xs. ok (take size (drop p xs))) held,
    )
  where
    block : ℕ
    block = first_block fs file.dirent

    place : find_position file.seek fs block file.seek ≡ (block, file.seek)
    place = find_position_here file.seek fs block file.seek (omega arith)

    erased' : IsErased fs.memory (get_block fs block + file.seek) (length bytes)
    erased' x lo hi = erased x (omega arith) (omega arith)

    effect : write chip cache_size fs fd bytes ≡ (
      ok (length bytes),
      put_file (written_to fs block file.seek bytes) fd (extended file bytes),
    )
    effect =
        write-stored chip aligned fs file block file.seek bytes place positive at_end (omega arith)
          flash ram erased' fd cache_size on found empty direct

    result : FileSystem
    result = put_file (written_to fs block file.seek bytes) fd (extended file bytes)

    there : get_file_descriptor result.open_files fd ≡ some (extended file bytes)
    there = get-update_same fs.open_files fd file (extended file bytes) found number

    kept :
        first_block (written_to fs block file.seek bytes) file.dirent ≡ first_block fs file.dirent
    kept =
        let low : within (get_block fs block + file.seek) (length bytes) (file.dirent + 16)
            ≡ false =
          ground arith in
        let high : within (get_block fs block + file.seek) (length bytes) (file.dirent + 16 + 1)
            ≡ false =
          ground arith in
        rw (low, high) refl

    held : contents 1 result (extended file bytes) ≡ contents 1 fs file ++ bytes
    held =
        ap (take (file.seek + length bytes)) (
          chain_bytes-files 1 (written_to fs block file.seek bytes) result.open_files
            (first_block result file.dirent))
        ∙ contents-written chip aligned fs file block file.seek bytes place positive at_end
            (omega arith) flash ram erased' refl (sym at_end) kept
