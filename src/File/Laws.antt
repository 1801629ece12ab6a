-- ===== src/File/Laws.antt =====
-- A file without a handle, and reading by position on one that has it.
use codal_microbit_v.Base.{
  ℕ, zero, suc, ◌+◌, ◌*◌, ◌^◌, ◌≤◌, ◌<◌, ◌≡◌, refl, ap, ◌∙◌, arith, true, false, Option, none, some,
  List, [], ◌∷◌, min, length, get_or, take, drop, drop-nil, ltb, leb, if◌then◌else◌, ok, err,
  not_supported, no_data,
}
use codal_microbit_v.Flash.{Chip}
use codal_microbit_v.FileSystem.{FileSystem, FileDescriptor, block_size}
use codal_microbit_v.FileSystem.Files.{get_file_descriptor, put_file}
use codal_microbit_v.FileSystem.Files.Reading.{contents, length-contents}
use codal_microbit_v.FileSystem.Files.Access.Laws.{
  read-contents, read_moved, seek_start, told_position,
}
use codal_microbit_v.File.{
  File, set_position, get_position, read, read_char, flush, close, write, append, char_of,
}

-- A file with a handle, or with none.
abbrev pub holding : Option ℕ → List ℕ → File
holding handle name = record { handle = handle; name = name }

take_here :
    (xs : List ℕ) (k : ℕ)
    → char_of (ok (take 1 (drop k xs)))
      ≡ (if ltb k (length xs) then ok (get_or xs k 0) else err no_data)
take_here [] k = ap (λ l. char_of (ok (take 1 l))) (drop-nil {A = ℕ} k) ∙ ground arith
take_here (x ∷ xs) zero = ground arith
take_here (x ∷ xs) (suc k) =
    take_here xs k ∙ ap (λ b. if b then ok (get_or xs k 0) else err no_data) (ground arith)

-- Without a handle every method but remove refuses, and changes nothing.
pub refuses_unopened_file :
    (chip : Chip) (name : List ℕ) (fs : FileSystem) (offset size cache_size : ℕ) (bytes : List ℕ)
    → let f = holding none name in
      (set_position chip f fs offset ≡ (err not_supported, f, fs))
      × (get_position chip f fs ≡ (err not_supported, f, fs))
      × (read chip f fs size ≡ (err not_supported, f, fs))
      × (read_char chip f fs ≡ (err not_supported, f, fs))
      × (write chip cache_size f fs bytes ≡ (err not_supported, f, fs))
      × (append chip cache_size f fs bytes ≡ (err not_supported, f, fs))
      × (flush chip f fs ≡ (err not_supported, f, fs))
      × (close chip f fs ≡ (err not_supported, f, fs))
unfolding set_position get_position read read_char write append flush close
refuses_unopened_file chip name fs offset size cache_size bytes =
    (refl, refl, refl, refl, refl, refl, refl, refl)

module _ (chip : Chip) (n : ℕ) (name : List ℕ) (fs : FileSystem) (fd : ℕ) (file : FileDescriptor)
    (on : fs.initialised ≡ true) (found : get_file_descriptor fs.open_files fd ≡ some file)
    (number : file.id ≡ fd) (empty : file.cache ≡ []) (inside : file.seek ≤ file.length)
    (in_chain : file.length ≤ block_size * n) where
  -- read() gives the byte at the position and moves on by one; at the end it says that there is
  -- none.
  pub read_char_lem : read_char chip (holding (some fd) name) fs ≡ (
    if ltb file.seek file.length then ok (get_or (contents n fs file) file.seek 0) else err no_data,
    holding (some fd) name,
    put_file fs fd (record file { seek = min (file.seek + 1) file.length }),
  )
  unfolding read_char read
  read_char_lem =
      let bytes =
        read-contents chip n fs fd file on found number empty inside in_chain 1 (omega arith) in
      let here = take_here (contents n fs file) file.seek in
      let whole = length-contents n fs file in_chain in
      ap (λ r. (char_of r.0, holding (some fd) name, r.1)) bytes
      ∙ ap
          (λ c. (
            c,
            holding (some fd) name,
            put_file fs fd (record file { seek = min (file.seek + 1) file.length }),
          ))
          (here
            ∙ ap
                (λ l.
                  if ltb file.seek l
                  then ok (get_or (contents n fs file) file.seek 0)
                  else err no_data)
                whole)

  -- Of a file that is open, with whatever flags, with nothing cached and a chain of blocks that holds
  -- its length: setPosition to a position that is no larger than the length and below 2 ^ 31 returns
  -- it, getPosition then tells it, and read() gives the byte of the contents there, or that there is
  -- none at the end.
  pub set_position_lem :
      (p : ℕ)
      → p ≤ file.length
      → p < 2 ^ 31
      → let (r, f, after) = set_position chip (holding (some fd) name) fs p in
        (r ≡ ok p)
        × ((get_position chip f after).0 ≡ ok p)
        × ((read_char chip f after).0
            ≡ (if ltb p file.length then ok (get_or (contents n fs file) p 0) else err no_data))
  unfolding set_position get_position read_char read
  set_position_lem p le small =
      let fits : leb (2 ^ 31) p ≡ false = ground arith in
      let start = seek_start chip n fs fd file on found number empty inside in_chain p le small in
      rw (set_position, fits, start)
        (
          refl,
          told_position chip n fs fd file on found number empty inside in_chain p le small,
          ap char_of (
                read_moved chip n fs fd file on found number empty inside in_chain p 1 le
                  (omega arith))
              ∙ take_here (contents n fs file) p
              ∙ ap (λ l. if ltb p l then ok (get_or (contents n fs file) p 0) else err no_data)
                  (length-contents n fs file in_chain),
        )
