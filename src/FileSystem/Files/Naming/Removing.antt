-- ===== src/FileSystem/Files/Naming/Removing.antt =====
-- What remove does to a file that is there.
use Prim.Native.Nat.{bit_and}
use codal_microbit_v.Base.{
  stored, ℕ, zero, suc, ◌+◌, ◌-◌, ◌*◌, ◌^◌, ◌<◌, ◌≡◌, refl, ap, ◌∙◌, arith, true, false, some, List,
  [], ◌∷◌, length, ◌==◌, inl, inr, eq→==, Memory, ok,
}
use codal_microbit_v.Flash.{Chip}
use codal_microbit_v.Flash.Words.{within}
use codal_microbit_v.Flash.Write.{IsBytes}
use codal_microbit_v.FileSystem.{
  FileSystem, FileDescriptor, eof, deleted, half_bytes, get_next_file_block, store,
  file_table_write,
}
use codal_microbit_v.FileSystem.Storing.{store_zeros, stored-IsBytes, half_bytes-AreBytes}
use codal_microbit_v.FileSystem.Directory.{first_block, get_directory_of, get_directory_entry}
use codal_microbit_v.FileSystem.Files.{get_file_descriptor, remove_descriptor}
use codal_microbit_v.FileSystem.Files.Naming.{
  add_descriptor, descriptor, is_valid_filename, open_file, free_chain, remove_file, remove_opened,
  remove,
}
use codal_microbit_v.FileSystem.Files.Naming.Numbers.{is_open, open_existing_lem}

-- The blocks that the table links from `block` to the end of a file, none of them twice.
abbrev pub IsChain : FileSystem → List ℕ → ℕ → Type 0
IsChain fs [] block = block ≡ eof
IsChain fs (b ∷ bs) block =
    (block ≡ b) × ((b == eof) ≡ false) × IsChain fs bs (get_next_file_block fs b)

abbrev pub IsAbsent : ℕ → List ℕ → Type 0
IsAbsent b [] = Unit {0}
IsAbsent b (c ∷ cs) = ((b == c) ≡ false) × IsAbsent b cs

abbrev pub AreApart : List ℕ → Type 0
AreApart [] = Unit {0}
AreApart (b ∷ bs) = IsAbsent b bs × AreApart bs

-- Memory with the table's entries of some blocks cleared.
pub cleared : List ℕ → Memory → ℕ → Memory
cleared [] m table = m
cleared (b ∷ bs) m table = cleared bs (stored m (table + 2 * b) (half_bytes deleted)) table

-- An entry that is cleared is no other block's.
stored-IsChain :
    (fs : FileSystem) (b : ℕ) (bs : List ℕ) (block : ℕ)
    → IsAbsent b bs
    → IsChain fs bs block
    → IsChain
        (record fs { memory = stored fs.memory (fs.table + 2 * b) (half_bytes deleted) })
        bs
        block
stored-IsChain fs b [] block absent h = h
stored-IsChain fs b (c ∷ cs) block (apart, absent) (e, not_end, h) =
    (e, not_end, rw other (stored-IsChain fs b cs (get_next_file_block fs c) absent h))
  where
    other :
        get_next_file_block
          (record fs { memory = stored fs.memory (fs.table + 2 * b) (half_bytes deleted) })
          c
        ≡ get_next_file_block fs c
    other =
        let low : within (fs.table + 2 * b) 2 (fs.table + 2 * c) ≡ false = ground arith in
        let high : within (fs.table + 2 * b) 2 (fs.table + 2 * c + 1) ≡ false = ground arith in
        rw (low, high) refl

module _ (chip : Chip)
    (aligned : (bit_and chip.default_scratch (chip.page_size - 1) == 0) ≡ true) where
  free_chain-cleared :
      (fuel : ℕ) (fs : FileSystem) (bs : List ℕ) (block : ℕ)
      → length bs < fuel
      → IsBytes fs.memory
      → IsChain fs bs block
      → AreApart bs
      → free_chain chip fuel fs block ≡ record fs { memory = cleared bs fs.memory fs.table }
  unfolding free_chain cleared file_table_write
  free_chain-cleared zero fs bs block enough flash h apart = absurd (omega arith)
  free_chain-cleared (suc fuel) fs [] block enough flash h apart =
      let done = eq→== block eof h in rw (free_chain, done) refl
  free_chain-cleared (suc fuel) fs (b ∷ bs) block enough flash (e, not_end, h) (absent, apart) =
      ap (free_chain chip (suc fuel) fs) e
      ∙ rw (free_chain, not_end)
          (ap (λ s. free_chain chip fuel s (get_next_file_block fs b))
              (store_zeros chip aligned fs (fs.table + 2 * b) flash)
            ∙ free_chain-cleared fuel
                (record fs { memory = stored fs.memory (fs.table + 2 * b) (half_bytes deleted) }) bs
                (get_next_file_block fs b) (omega arith)
                (stored-IsBytes fs.memory (fs.table + 2 * b) (half_bytes deleted) flash
                  (half_bytes-AreBytes deleted))
                (stored-IsChain fs b bs (get_next_file_block fs b) absent h) apart)

  -- The entries of the file's blocks in the table are cleared.
  abbrev freed : FileSystem → List ℕ → FileSystem
  freed fs bs = record fs { memory = cleared bs fs.memory fs.table }

  cleared-IsBytes :
      (bs : List ℕ) (m : Memory) (table : ℕ) → IsBytes m → IsBytes (cleared bs m table)
  unfolding cleared
  cleared-IsBytes [] m table flash = flash
  cleared-IsBytes (b ∷ bs) m table flash =
      cleared-IsBytes bs (stored m (table + 2 * b) (half_bytes deleted)) table
        (stored-IsBytes m (table + 2 * b) (half_bytes deleted) flash (half_bytes-AreBytes deleted))

  removed :
      (fs : FileSystem) (file : FileDescriptor) (bs : List ℕ)
      → IsBytes fs.memory
      → IsChain fs bs (first_block fs file.dirent)
      → AreApart bs
      → length bs < 2 ^ 16
      → remove_file chip (record fs { open_files = file ∷ fs.open_files }) file.id file
        ≡ record fs {
          memory = stored (cleared bs fs.memory fs.table) (file.dirent + 18) (half_bytes deleted);
        }
  unfolding remove_file remove_descriptor
  removed fs file bs flash chain apart short =
      let same = eq→== file.id file.id refl in
      rw (remove_file, remove_descriptor, same)
        (ap (λ s. store chip s (file.dirent + 18) (half_bytes deleted) 0)
            (free_chain-cleared (2 ^ 16) fs bs (first_block fs file.dirent) short flash chain apart)
          ∙ store_zeros chip aligned (freed fs bs) (file.dirent + 18)
              (cleared-IsBytes bs fs.memory fs.table flash))

  -- remove of a valid name whose file is there, is not open, and has as its blocks a chain that
  -- ends and comes to no block twice, succeeds: the table's entries of exactly these blocks and
  -- the flags of the directory entry are cleared. Nothing else in memory changes, nor do the open
  -- files.
  pub remove_lem :
      (fs : FileSystem) (name : List ℕ) (directory dirent : ℕ) (bs : List ℕ)
      → fs.initialised ≡ true
      → is_valid_filename name ≡ true
      → get_directory_of fs name ≡ some directory
      → get_directory_entry fs name directory ≡ some dirent
      → is_open fs.open_files dirent ≡ false
      → IsBytes fs.memory
      → IsChain fs bs (first_block fs dirent)
      → AreApart bs
      → length bs < 2 ^ 16
      → remove chip fs name ≡ (
        ok tt,
        record fs {
          memory = stored (cleared bs fs.memory fs.table) (dirent + 18) (half_bytes deleted);
        },
      )
  unfolding remove remove_opened open_file get_file_descriptor
  remove_lem fs name directory dirent bs on valid path there closed flash chain apart short =
      elim (open_existing_lem chip fs 1 directory dirent) [
        | inl (busy, e) ↦ absurd (ground arith)
        | inr (closed', (id, free, e)) ↦
            let opened : open_file chip fs name 1 ≡ add_descriptor fs 1 id dirent directory =
              simp (open_file, on, valid, path, there, e) in
            let same = eq→== id id refl in
            ap (remove_opened chip) opened
            ∙ rw (remove_opened, same)
                (ap (λ s. (ok tt, s))
                  (removed fs (descriptor fs 1 id dirent directory) bs flash chain apart short))
      ]
