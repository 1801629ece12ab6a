-- ===== src/FileSystem/Files/Access/Closing.antt =====
-- What close leaves of the chain of open files.
use codal_microbit_v.Base.{ℕ, ◌+◌, ◌≡◌, refl, ◌∙◌, true, false, none, some, [], ◌==◌, eq→==, ok}
use codal_microbit_v.Flash.{Chip, word_at}
use codal_microbit_v.FileSystem.{FileSystem, FileDescriptor}
use codal_microbit_v.FileSystem.Files.{
  get_file_descriptor, remove_descriptor, update_descriptor, put_file, write_back,
}
use codal_microbit_v.FileSystem.Files.Descriptors.{
  AreDistinct, get-remove_same, get-remove_apart, get-update_apart, update-AreDistinct,
  remove-AreDistinct,
}
use codal_microbit_v.FileSystem.Files.Access.{flush, close}

module _ (chip : Chip) (fs : FileSystem) (fd : ℕ) (file : FileDescriptor)
    (on : fs.initialised ≡ true) (found : get_file_descriptor fs.open_files fd ≡ some file)
    (number : file.id ≡ fd) (empty : file.cache ≡ [])
    (same_length : word_at fs.memory (file.dirent + 20) ≡ file.length) where
  flush_clean : flush chip fs fd ≡ (ok tt, put_file fs fd file)
  unfolding flush write_back
  flush_clean =
      let clean : write_back chip fs file ≡ (file, fs) = rw (write_back, empty) refl in
      let unchanged : (word_at fs.memory (file.dirent + 20) == file.length) ≡ true =
        eq→== _ _ same_length in
      simp (flush, on, found, clean, unchanged)

  close_clean : close chip fs fd ≡ (
    ok tt,
    record fs { open_files = remove_descriptor (update_descriptor fs.open_files fd file) fd },
  )
  unfolding close
  close_clean = simp (close, flush_clean)

  -- close of an open file with nothing cached and with the length that its entry has succeeds and
  -- writes nothing. If no two open files had the same number, the descriptor is then not open; the
  -- others are as they were, and again no two have the same number.
  pub close_lem :
      AreDistinct fs.open_files
      → let (r, after) = close chip fs fd in
        (r ≡ ok tt)
        × (after.memory ≡ fs.memory)
        × (get_file_descriptor after.open_files fd ≡ none)
        × ((x : ℕ)
            → (x == fd) ≡ false
            → get_file_descriptor after.open_files x ≡ get_file_descriptor fs.open_files x)
        × AreDistinct after.open_files
  close_lem distinct =
      let kept = update-AreDistinct fs.open_files fd file number distinct in
      rw close_clean (
        refl,
        refl,
        get-remove_same (update_descriptor fs.open_files fd file) fd kept,
        λ x other.
            get-remove_apart (update_descriptor fs.open_files fd file) fd x other
            ∙ get-update_apart fs.open_files fd x file other number,
        remove-AreDistinct (update_descriptor fs.open_files fd file) fd kept,
      )
