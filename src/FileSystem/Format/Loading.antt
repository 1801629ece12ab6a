-- ===== src/FileSystem/Format/Loading.antt =====
-- A file system that was formatted is loaded again as it is.
use Prim.Native.Nat.{bit_and}
use codal_microbit_v.Base.{
  ℕ, zero, suc, ◌+◌, ◌-◌, ◌*◌, ◌%◌, ◌^◌, ◌≤◌, ◌<◌, ◌≡◌, refl, sym, ap, ap₂, ◌∙◌, arith, true, false,
  ◌||◌, not, List, [], ◌∷◌, ◌++◌, length, get_or, get_or-append_left, leb, ◌==◌, if◌then◌else◌,
  Memory, eq→==,
}
use codal_microbit_v.Flash.{Chip, word_at}
use codal_microbit_v.Flash.Words.{within}
use codal_microbit_v.Flash.Write.{IsBytes}
use codal_microbit_v.FileSystem.{
  FileSystem, block_size, eof, half_at, half_bytes, word_bytes, get_block, get_next_file_block,
  calculate_file_table_size,
}
use codal_microbit_v.FileSystem.Directory.{names}
use codal_microbit_v.FileSystem.Storing.{IsErased}
use codal_microbit_v.FileSystem.Format.{magic, table_valid, load, format}
use codal_microbit_v.FileSystem.Format.Marking.{marks_lem}
use codal_microbit_v.FileSystem.Format.Formatted.{entry, formatted, format-formatted}

-- The text of a name, with the NUL behind it.
names-text :
    (m : Memory) (a : ℕ) (text : List ℕ)
    → ((d : ℕ) → d < length text → m (a + d) ≡ get_or text d 0)
    → m (a + length text) ≡ 0
    → names m a text ≡ true
unfolding names
names-text m a [] h stop =
    let same : a + 0 ≡ a = omega arith in let stop' = rw same at stop in rw stop' refl
names-text m a (c ∷ cs) h stop =
    let same : a + 0 ≡ a = omega arith in
    let here : (m a == c) ≡ true = eq→== (m a) c (ap m (sym same) ∙ h 0 (omega arith)) in
    rw here (
      names-text m (a + 1) cs (λ d lt. ap m (omega arith) ∙ h (suc d) (omega arith))
        (ap m (omega arith) ∙ stop))

-- What load reads in memory that format has left.
module _ (fs : FileSystem) where
  module _ (fits : fs.table_size < eof) (positive : 0 < fs.table_size) where
    marked_byte :
        (i k : ℕ)
        → i < fs.table_size
        → k < 2
        → formatted fs (fs.table + 2 * i + k) ≡ get_or (half_bytes fs.table_size) k 0
    marked_byte i k lt small =
        let before_root : within (get_block fs fs.table_size) 24 (fs.table + 2 * i + k) ≡ false =
          ground arith in
        let before_end : within (fs.table + 2 * fs.table_size) 2 (fs.table + 2 * i + k) ≡ false =
          ground arith in
        let inside : within fs.table (2 * fs.table_size) (fs.table + 2 * i + k) ≡ true =
          ground arith in
        let place : (fs.table + 2 * i + k - fs.table) % 2 ≡ k = omega arith in
        let there =
          marks_lem fs.table_size fs.memory fs.table fs.table_size (fs.table + 2 * i + k) in
        rw (before_root, before_end)
          (there
            ∙ ap₂
                (λ b j.
                  if b
                  then get_or (half_bytes fs.table_size) j 0
                  else fs.memory (fs.table + 2 * i + k))
                inside place)

    table_entry :
        (i : ℕ) → i < fs.table_size → half_at (formatted fs) (fs.table + 2 * i) ≡ fs.table_size
    table_entry i lt =
        let same : fs.table + 2 * i + 0 ≡ fs.table + 2 * i = omega arith in
        ap₂ (λ a b. a + b * 2 ^ 8) (ap (formatted fs) (sym same) ∙ marked_byte i 0 lt (omega arith))
          (marked_byte i 1 lt (omega arith))
        ∙ omega arith

    entry_byte :
        (d : ℕ) → d < 24 → formatted fs (get_block fs fs.table_size + d) ≡ get_or (entry fs) d 0
    entry_byte d lt =
        let inside : within (get_block fs fs.table_size) 24 (get_block fs fs.table_size + d)
            ≡ true =
          ground arith in
        let place : get_block fs fs.table_size + d - get_block fs fs.table_size ≡ d = omega arith in
        rw (inside, place) refl

    name_here : names (formatted fs) (get_block fs fs.table_size) magic ≡ true
    name_here =
        names-text (formatted fs) (get_block fs fs.table_size) magic
          (λ d lt.
            entry_byte d (omega arith)
            ∙ get_or-append_left magic
                (0 ∷ (half_bytes fs.table_size ++ (half_bytes (2 ^ 14) ++ word_bytes fs.size))) d 0
                lt)
          (entry_byte 15 (omega arith))

    size_here :
        fs.size < 2 ^ 32 → word_at (formatted fs) (get_block fs fs.table_size + 20) ≡ fs.size
    size_here small =
        ap₂ ◌+◌
          (ap₂ ◌+◌
            (ap₂ ◌+◌ (entry_byte 20 (omega arith)) (ap (λ b. b * 2 ^ 8) (byte 1 (omega arith))))
            (ap (λ b. b * 2 ^ 16) (byte 2 (omega arith))))
          (ap (λ b. b * 2 ^ 24) (byte 3 (omega arith)))
        ∙ omega arith
      where
        byte :
            (k : ℕ)
            → k < 4
            → formatted fs (get_block fs fs.table_size + 20 + k) ≡ get_or (entry fs) (20 + k) 0
        byte k lt = ap (formatted fs) (omega arith) ∙ entry_byte (20 + k) (omega arith)

  -- The file system as load finds it, whatever it was told before.
  abbrev unloaded : ℕ → ℕ → ℕ → FileSystem
  unloaded root size table_size = record fs {
    memory = formatted fs;
    root = root;
    size = size;
    table_size = table_size;
  }

  module _ (fits : fs.table_size < eof) (positive : 0 < fs.table_size) (root size blocks : ℕ) where
    table_valid-formatted :
        (n i : ℕ)
        → i + n ≤ fs.table_size
        → table_valid n (unloaded root size blocks) i fs.table_size ≡ true
    unfolding table_valid
    table_valid-formatted zero i le = refl
    table_valid-formatted (suc n) i le =
        let here = table_entry fits positive i (omega arith) in
        let good : (leb eof fs.table_size || not (fs.table_size == fs.table_size)) ≡ false =
          ground arith in
        rw (table_valid, here, good) (table_valid-formatted n (i + 1) (omega arith))

-- What load accepts, and what it then takes over.
load_accepts :
    (s : FileSystem) (blocks size : ℕ)
    → get_next_file_block s 0 ≡ blocks
    → table_valid blocks s 0 blocks ≡ true
    → names s.memory (get_block s blocks) magic ≡ true
    → word_at s.memory (get_block s blocks + 20) ≡ size
    → load s ≡ (
      true,
      record s {
        root = get_block s blocks;
        size = size;
        table_size = calculate_file_table_size size;
      },
    )
unfolding load
load_accepts s blocks size first valid name length = simp (load, first, valid, name, length)

-- What format writes to erased memory is accepted by load, which finds the same file system again,
-- whatever root directory and sizes were noted before.
pub load-format :
    (chip : Chip) (fs : FileSystem) (root size blocks : ℕ)
    → (bit_and chip.default_scratch (chip.page_size - 1) == 0) ≡ true
    → IsBytes fs.memory
    → IsErased fs.memory fs.table (block_size * (fs.table_size + 1))
    → fs.table_size ≡ calculate_file_table_size fs.size
    → 0 < fs.size
    → fs.size < 2 ^ 16
    → load (record (format chip fs) { root = root; size = size; table_size = blocks })
      ≡ (true, format chip fs)
load-format chip fs root size blocks aligned flash erased counted some_blocks small =
    let fits : fs.table_size < eof = ground arith in
    let positive : 0 < fs.table_size = ground arith in
    let shape = format-formatted fs flash erased positive chip aligned in
    let valid =
      table_valid-formatted fs fits positive root size blocks fs.table_size 0 (omega arith) in
    let first : half_at (formatted fs) (fs.table + 2 * 0) ≡ fs.table_size =
      table_entry fs fits positive 0 positive in
    let name = name_here fs fits positive in
    let length = size_here fs fits positive (omega arith) in
    ap (λ s. load (record s { root = root; size = size; table_size = blocks })) shape
    ∙ load_accepts (unloaded fs root size blocks) fs.table_size fs.size first valid name length
    ∙ ap
        (λ n. (
          true,
          record fs { memory = formatted fs; root = get_block fs fs.table_size; table_size = n },
        ))
        (sym counted)
    ∙ ap (λ s. (true, s)) (sym shape)
