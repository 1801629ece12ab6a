-- ===== src/FileSystem/Files/Access/Writing.antt =====
-- Writing at the end of a file, in the block where it ends.
use Prim.Native.Nat.{bit_and}
use codal_microbit_v.Base.{
  stored, ℕ, zero, suc, ◌+◌, ◌-◌, ◌*◌, ◌≤◌, ◌<◌, ◌≡◌, refl, sym, ap, ap₂, ◌∙◌, arith, true, false,
  ◌&&◌, some, List, [], ◌++◌, min, length, bytes_at, bytes_at-append, bytes_at_ext, stored_apart,
  bytes_at-stored, take_all, drop_all, ltb, ◌==◌, if◌then◌else◌, ok,
}
use codal_microbit_v.Flash.{Chip}
use codal_microbit_v.Flash.Write.{IsBytes, AreBytes}
use codal_microbit_v.FileSystem.{FileSystem, FileDescriptor, block_size, get_block}
use codal_microbit_v.FileSystem.Storing.{IsErased, store-stored}
use codal_microbit_v.FileSystem.Directory.{first_block}
use codal_microbit_v.FileSystem.Files.{
  get_file_descriptor, put_file, find_position, store_segment, write_loop, write_buffer, write_back,
}
use codal_microbit_v.FileSystem.Files.Reading.{contents, contents_one}
use codal_microbit_v.FileSystem.Files.Access.{write, write_file}

abbrev pub written_to : FileSystem → ℕ → ℕ → List ℕ → FileSystem
written_to fs block offset bytes = record fs {
  memory = stored fs.memory (get_block fs block + offset) bytes;
}

abbrev pub extended : FileDescriptor → List ℕ → FileDescriptor
extended file bytes = record file {
  length = file.seek + length bytes;
  seek = file.seek + length bytes;
}

module _ (chip : Chip)
    (aligned : (bit_and chip.default_scratch (chip.page_size - 1) == 0) ≡ true) where
  write_loop-done :
      (fuel : ℕ) (fs : FileSystem) (file : FileDescriptor) (block offset copied : ℕ)
      → write_loop chip fuel fs file block offset [] copied ≡ (copied, fs)
  unfolding write_loop
  write_loop-done zero fs file block offset copied = refl
  write_loop-done (suc fuel) fs file block offset copied = refl

  segment_put :
      (fs : FileSystem) (address : ℕ) (bytes : List ℕ)
      → 0 < length bytes
      → IsBytes fs.memory
      → AreBytes bytes
      → IsErased fs.memory address (length bytes)
      → store_segment chip fs false address bytes
        ≡ record fs { memory = stored fs.memory address bytes }
  unfolding store_segment
  segment_put fs address bytes positive flash ram erased =
      let some_bytes : (length bytes == 0) ≡ false = ground arith in
      rw (store_segment, some_bytes) (store-stored chip aligned fs address bytes flash ram erased)

  -- Bytes that fit in the block, behind the end of the file, go to the erased memory there in one
  -- piece.
  write_loop-stored :
      (fuel : ℕ) (fs : FileSystem) (file : FileDescriptor) (block offset : ℕ) (bytes : List ℕ)
      → 0 < length bytes
      → file.length ≤ file.seek
      → offset + length bytes ≤ block_size
      → IsBytes fs.memory
      → AreBytes bytes
      → IsErased fs.memory (get_block fs block + offset) (length bytes)
      → write_loop chip (suc fuel) fs file block offset bytes 0 ≡ (
        length bytes,
        record fs { memory = stored fs.memory (get_block fs block + offset) bytes },
      )
  unfolding write_loop
  write_loop-stored fuel fs file block offset bytes positive at_end fits flash ram erased =
      let more : ltb 0 (length bytes) ≡ true = ground arith in
      let n_all : min (length bytes) (block_size - offset) ≡ length bytes = omega arith in
      let inside : (offset + length bytes == block_size && ltb (length bytes) (length bytes))
          ≡ false =
        ground arith in
      let behind : ltb (file.seek + 0) file.length ≡ false = ground arith in
      let whole = take_all (length bytes) bytes (omega arith) in
      let none_left = drop_all (length bytes) bytes (omega arith) in
      let first = segment_put fs (get_block fs block + offset) bytes positive flash ram erased in
      let done =
        write_loop-done fuel
          (record fs { memory = stored fs.memory (get_block fs block + offset) bytes }) file block
          (offset + length bytes) (length bytes) in
      let count : 0 + length bytes ≡ length bytes = omega arith in
      simp (write_loop, more, n_all, inside, behind, whole, none_left, first, count) done

  module _ (fs : FileSystem) (file : FileDescriptor) (block offset : ℕ) (bytes : List ℕ)
      (place : find_position file.seek fs (first_block fs file.dirent) file.seek ≡ (block, offset))
      (positive : 0 < length bytes) (at_end : file.length ≡ file.seek)
      (fits : offset + length bytes ≤ block_size) (flash : IsBytes fs.memory) (ram : AreBytes bytes)
      (erased : IsErased fs.memory (get_block fs block + offset) (length bytes)) where
    write_buffer-stored :
        write_buffer chip fs file bytes
        ≡ (length bytes, (extended file bytes), (written_to fs block offset bytes))
    unfolding write_buffer
    write_buffer-stored =
        let rounds : 2 * length bytes + 1 ≡ suc (2 * length bytes) = omega arith in
        let loop =
          write_loop-stored (2 * length bytes) fs file block offset bytes positive (omega arith)
            fits flash ram erased in
        let longest : (if ltb file.length (file.seek + length bytes)
              then file.seek + length bytes
              else file.length)
            ≡ file.seek + length bytes =
          ground arith in
        rw (write_buffer, place, rounds, loop, longest) refl

    written_file :
        (cache_size : ℕ)
        → file.cache ≡ []
        → cache_size ≤ length bytes
        → write_file chip cache_size fs file bytes
          ≡ (length bytes, (extended file bytes), (written_to fs block offset bytes))
    unfolding write_file write_back
    written_file cache_size empty direct =
        let straight : ltb (length bytes) cache_size ≡ false = ground arith in
        let clean : write_back chip fs file ≡ (file, fs) = rw (write_back, empty) refl in
        rw (write_file, clean, straight) write_buffer-stored

    -- What a write to the file does then.
    pub write-stored :
        (fd cache_size : ℕ)
        → fs.initialised ≡ true
        → get_file_descriptor fs.open_files fd ≡ some file
        → file.cache ≡ []
        → cache_size ≤ length bytes
        → write chip cache_size fs fd bytes ≡ (
          ok (length bytes),
          put_file (written_to fs block offset bytes) fd (extended file bytes),
        )
    unfolding write
    write-stored fd cache_size on found empty direct =
        let some_bytes : (length bytes == 0) ≡ false = ground arith in
        let whole = written_file cache_size empty direct in
        simp (write, on, found, some_bytes, whole)

    -- The file's bytes, if it has no other block than the first, and the entry is not (written_to
    -- fs block offset bytes) over.
    pub contents-written :
        block ≡ first_block fs file.dirent
        → offset ≡ file.length
        → first_block (written_to fs block offset bytes) file.dirent ≡ first_block fs file.dirent
        → contents 1 (written_to fs block offset bytes) (extended file bytes)
          ≡ contents 1 fs file ++ bytes
    contents-written here there kept =
        contents_one (written_to fs block offset bytes) (extended file bytes) (omega arith)
        ∙ ap
            (λ b.
              bytes_at (written_to fs block offset bytes).memory (get_block fs b)
                (file.seek + length bytes))
            (kept ∙ sym here)
        ∙ ap (bytes_at (written_to fs block offset bytes).memory start) (omega arith)
        ∙ sym (
            bytes_at-append (written_to fs block offset bytes).memory start file.length
              (length bytes))
        ∙ ap₂ ◌++◌ before after
        ∙ ap (λ b. bytes_at fs.memory (get_block fs b) file.length ++ bytes) here
        ∙ ap (λ xs. xs ++ bytes) (sym (contents_one fs file (omega arith)))
      where
        start : ℕ
        start = get_block fs block

        before :
            bytes_at (written_to fs block offset bytes).memory start file.length
            ≡ bytes_at fs.memory start file.length
        before =
            bytes_at_ext (written_to fs block offset bytes).memory fs.memory start file.length
              (λ x lo hi. stored_apart fs.memory (start + offset) bytes x (ground arith))

        after :
            bytes_at (written_to fs block offset bytes).memory (start + file.length) (length bytes)
            ≡ bytes
        after =
            ap (λ o. bytes_at (written_to fs block offset bytes).memory (start + o) (length bytes))
              (sym there)
            ∙ bytes_at-stored fs.memory (start + offset) bytes
