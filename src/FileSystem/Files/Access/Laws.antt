-- ===== src/FileSystem/Files/Access/Laws.antt =====
-- Reads and seeks on an open file.
use codal_microbit_v.Base.{
  ℕ, ◌%◌, ◌+◌, ◌*◌, ◌^◌, ◌≤◌, ◌<◌, ◌≡◌, refl, sym, ap, ◌∙◌, arith, true, false, ◌||◌, some, List,
  [], ◌++◌, min, length, length-take, length-drop, drop-drop, drop-min, take-append-take, take,
  drop, ltb, leb, ◌==◌, ok,
}
use codal_microbit_v.Flash.{Chip}
use codal_microbit_v.FileSystem.{FileSystem, FileDescriptor, block_size}
use codal_microbit_v.FileSystem.Directory.{first_block}
use codal_microbit_v.FileSystem.Files.{get_file_descriptor, update_descriptor, put_file, write_back}
use codal_microbit_v.FileSystem.Files.Descriptors.{get-update_same}
use codal_microbit_v.FileSystem.Files.Reading.{
  chain_bytes-files, contents, length-contents, read_bytes_lem,
}
use codal_microbit_v.FileSystem.Files.Access.{seek, seek_file, read}

module _ (chip : Chip) where
  module _ (n : ℕ) (fs : FileSystem) (fd : ℕ) (file : FileDescriptor) (on : fs.initialised ≡ true)
      (found : get_file_descriptor fs.open_files fd ≡ some file) (number : file.id ≡ fd)
      (empty : file.cache ≡ []) (inside : file.seek ≤ file.length)
      (in_chain : file.length ≤ block_size * n) where
    written_back : write_back chip fs file ≡ (file, fs)
    unfolding write_back
    written_back = rw (write_back, empty) refl

    -- Of a file that is open, with whatever flags, with nothing cached, a position within its length,
    -- and a chain of blocks that holds that, read of at least one byte gives the bytes of the file's
    -- contents from the position on, as many as asked for or as there are, whatever blocks they lie
    -- in; the position moves on by as many, and nothing else changes.
    pub read-contents :
        (size : ℕ)
        → 0 < size
        → read chip fs fd size ≡ (
          ok (take size (drop file.seek (contents n fs file))),
          put_file fs fd (record file { seek = min (file.seek + size) file.length }),
        )
    unfolding read
    read-contents size positive =
        let some_asked : (size == 0) ≡ false = ground arith in
        let bytes = read_bytes_lem n fs file size inside in_chain in
        let moved : file.seek + length (take size (drop file.seek (contents n fs file)))
            ≡ min (file.seek + size) file.length =
          ground (
            arith,
            length-take size (drop file.seek (contents n fs file)),
            length-drop file.seek (contents n fs file),
            length-contents n fs file in_chain,
          ) in
        simp (read, on, found, some_asked, written_back, bytes, moved)

    -- A position from the start of the file, within it, is taken.
    pub seek_start :
        (p : ℕ)
        → p ≤ file.length
        → p < 2 ^ 31
        → seek chip fs fd p 1 ≡ (ok p, put_file fs fd (record file { seek = p }))
    unfolding seek seek_file
    seek_start p le small =
        let fits : (leb (2 ^ 31) p || ltb file.length p) ≡ false = ground arith in
        simp (seek, seek_file, on, found, written_back, fits)

    -- The position is told by a seek of nothing from where it stands.
    seek_current : file.seek < 2 ^ 31 → (seek chip fs fd 0 4).0 ≡ ok file.seek
    unfolding seek seek_file
    seek_current small =
        let same : (file.seek + 0) % 2 ^ 32 ≡ file.seek = omega arith in
        let fits : (leb (2 ^ 31) file.seek || ltb file.length file.seek) ≡ false = ground arith in
        simp (seek, seek_file, on, found, written_back, same, fits)

    moved_found :
        (p : ℕ)
        → get_file_descriptor (update_descriptor fs.open_files fd (record file { seek = p })) fd
          ≡ some (record file { seek = p })
    moved_found p = get-update_same fs.open_files fd file (record file { seek = p }) found number

  module _ (n : ℕ) (fs : FileSystem) (fd : ℕ) (file : FileDescriptor) (on : fs.initialised ≡ true)
      (found : get_file_descriptor fs.open_files fd ≡ some file) (number : file.id ≡ fd)
      (empty : file.cache ≡ []) (inside : file.seek ≤ file.length)
      (in_chain : file.length ≤ block_size * n) where
    -- What is read after the position was set.
    pub read_moved :
        (p size : ℕ)
        → p ≤ file.length
        → 0 < size
        → (read chip (put_file fs fd (record file { seek = p })) fd size).0
          ≡ ok (take size (drop p (contents n fs file)))
    read_moved p size le positive =
        let there = moved_found n fs fd file on found number empty inside in_chain p in
        let moved = put_file fs fd (record file { seek = p }) in
        ap (λ r. r.0)
          (read-contents n moved fd (record file { seek = p }) on there number empty le in_chain
            size positive)
        ∙ ap (λ b. ok (take size (drop p (take file.length b))))
            (chain_bytes-files n fs moved.open_files (first_block fs file.dirent))

    pub told_position :
        (p : ℕ)
        → p ≤ file.length
        → p < 2 ^ 31
        → (seek chip (put_file fs fd (record file { seek = p })) fd 0 4).0 ≡ ok p
    told_position p le small =
        let there = moved_found n fs fd file on found number empty inside in_chain p in
        seek_current n (put_file fs fd (record file { seek = p })) fd (record file { seek = p }) on
          there number empty le in_chain small

    -- Of a file that is open, with whatever flags, with nothing cached, a position within its length
    -- and a chain of blocks that holds that: seek from the start to a position that is no larger than
    -- its length and below 2 ^ 31 returns the position, and a read after it, of at least one byte,
    -- gives the bytes of the contents from there.
    pub seek-read :
        (p size : ℕ)
        → p ≤ file.length
        → p < 2 ^ 31
        → 0 < size
        → let (r, moved) = seek chip fs fd p 1 in
          (r ≡ ok p) × ((read chip moved fd size).0 ≡ ok (take size (drop p (contents n fs file))))
    seek-read p size le small positive =
        let e = seek_start n fs fd file on found number empty inside in_chain p le small in
        rw e (refl, read_moved p size le positive)

    -- Of a file that is open, with whatever flags, with nothing cached, a position within its length
    -- and a chain of blocks that holds that: two reads one after the other, of at least one byte
    -- each, give together what one read gives that asks for as many bytes as both.
    pub read-read :
        (a b : ℕ)
        → 0 < a
        → 0 < b
        → let (r, after) = read chip fs fd a in
          (xs ys : List ℕ) × (r ≡ ok xs)
          × ((read chip after fd b).0 ≡ ok ys)
          × ((read chip fs fd (a + b)).0 ≡ ok (xs ++ ys))
    read-read a b pos_a pos_b =
        let one = read-contents n fs fd file on found number empty inside in_chain in
        let bytes = contents n fs file in
        let rest : drop (min (file.seek + a) file.length) bytes ≡ drop a (drop file.seek bytes) =
          ap (λ l. drop (min (file.seek + a) l) bytes) (sym all)
          ∙ drop-min bytes (file.seek + a)
          ∙ sym (drop-drop bytes a file.seek) in
        rw (one a pos_a) (
          take a (drop file.seek bytes),
          take b (drop a (drop file.seek bytes)),
          refl,
          read_moved (min (file.seek + a) file.length) b (omega arith) pos_b
              ∙ ap (λ xs. ok (take b xs)) rest,
          ap (λ r. r.0) (one (a + b) (omega arith))
              ∙ ap ok (sym (take-append-take (drop file.seek bytes) a b)),
        )
      where
        all : length (contents n fs file) ≡ file.length
        all = length-contents n fs file in_chain
