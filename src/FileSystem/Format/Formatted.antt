-- ===== src/FileSystem/Format/Formatted.antt =====
-- What format leaves in erased memory.
use Prim.Native.Nat.{bit_and}
use codal_microbit_v.Base.{
  stored, ℕ, ◌+◌, ◌-◌, ◌*◌, ◌^◌, ◌≤◌, ◌<◌, ◌≡◌, refl, sym, ap, ◌∙◌, arith, true, List, ◌++◌, take,
  replicate, ◌==◌, Memory,
}
use codal_microbit_v.Flash.{Chip}
use codal_microbit_v.Flash.Write.{IsBytes, AreBytes}
use codal_microbit_v.FileSystem.{
  FileSystem, block_size, name_length, eof, half_bytes, word_bytes, get_block, store,
  file_table_write,
}
use codal_microbit_v.FileSystem.Directory.{entry_bytes}
use codal_microbit_v.FileSystem.Storing.{
  IsErased, store-stored, stored-IsBytes, stored-IsErased, half_bytes-AreBytes, word_bytes-AreBytes,
  append-AreBytes, all_small, all_small-AreBytes,
}
use codal_microbit_v.FileSystem.Format.{magic, mark_table, format}
use codal_microbit_v.FileSystem.Format.Marking.{
  marks, marks-IsBytes, marks-IsErased, mark_table-marks,
}

-- What format leaves in memory.
module _ (fs : FileSystem) where
  abbrev pub entry : List ℕ
  entry = entry_bytes magic fs.table_size (2 ^ 14) fs.size

  abbrev pub table_marked : Memory
  table_marked = marks fs.table_size fs.memory fs.table fs.table_size

  abbrev pub formatted : Memory
  formatted =
      stored (stored table_marked (fs.table + 2 * fs.table_size) (half_bytes eof))
        (get_block fs fs.table_size) entry

  entry-AreBytes : AreBytes entry
  entry-AreBytes =
      append-AreBytes (take name_length (magic ++ replicate name_length 0))
        (half_bytes fs.table_size ++ (half_bytes (2 ^ 14) ++ word_bytes fs.size))
        (all_small-AreBytes (take name_length (magic ++ replicate name_length 0)) all_ascii)
        (append-AreBytes (half_bytes fs.table_size) (half_bytes (2 ^ 14) ++ word_bytes fs.size)
          (half_bytes-AreBytes fs.table_size)
          (append-AreBytes (half_bytes (2 ^ 14)) (word_bytes fs.size) (half_bytes-AreBytes (2 ^ 14))
            (word_bytes-AreBytes fs.size)))
    where
      all_ascii : all_small (take name_length (magic ++ replicate name_length 0)) ≡ true
      all_ascii = refl

  module _ (flash : IsBytes fs.memory)
      (erased : IsErased fs.memory fs.table (block_size * (fs.table_size + 1)))
      (positive : 0 < fs.table_size) where
    table_marked-IsBytes : IsBytes table_marked
    table_marked-IsBytes = marks-IsBytes fs.table_size fs.memory fs.table fs.table_size flash

    behind-IsErased :
        (a n : ℕ)
        → fs.table + 2 * fs.table_size ≤ a
        → a + n ≤ fs.table + block_size * (fs.table_size + 1)
        → IsErased table_marked a n
    behind-IsErased a n le le' =
        marks-IsErased fs.table_size fs.memory fs.table fs.table_size a n le
          (λ x lo hi. erased x (omega arith) (omega arith))

    module _ (chip : Chip)
        (aligned : (bit_and chip.default_scratch (chip.page_size - 1) == 0) ≡ true) where
      pub format-formatted :
          format chip fs ≡ record fs { memory = formatted; root = get_block fs fs.table_size }
      unfolding format file_table_write
      format-formatted =
          ap (λ s. finish (file_table_write chip s fs.table_size eof)) marked
          ∙ ap finish end_marked
          ∙ store-stored chip aligned _ root entry
              (stored-IsBytes table_marked end_at (half_bytes eof) table_marked-IsBytes
                (half_bytes-AreBytes eof))
              entry-AreBytes
              (stored-IsErased table_marked end_at (half_bytes eof) root 24 (omega arith)
                (behind-IsErased root 24 (omega arith) (omega arith)))
        where
          root : ℕ
          root = get_block fs fs.table_size

          end_at : ℕ
          end_at = fs.table + 2 * fs.table_size

          finish : FileSystem → FileSystem
          finish s = store chip (record s { root = root }) root entry 0

          marked : mark_table chip fs.table_size fs 0 ≡ record fs { memory = table_marked }
          marked =
              let here : fs.table + 2 * 0 ≡ fs.table = omega arith in
              mark_table-marks chip aligned fs.table_size fs 0 flash
                (λ x lo hi. erased x (omega arith) (omega arith))
              ∙ ap (λ a. record fs { memory = marks fs.table_size fs.memory a fs.table_size }) here

          end_marked :
              file_table_write chip (record fs { memory = table_marked }) fs.table_size eof
              ≡ record fs { memory = stored table_marked end_at (half_bytes eof) }
          end_marked =
              store-stored chip aligned (record fs { memory = table_marked }) end_at
                (half_bytes eof) table_marked-IsBytes (half_bytes-AreBytes eof)
                (behind-IsErased end_at 2 (omega arith) (omega arith))

-- format changes memory and the root directory only.
pub format_keeps :
    (chip : Chip) (fs : FileSystem)
    → (bit_and chip.default_scratch (chip.page_size - 1) == 0) ≡ true
    → IsBytes fs.memory
    → IsErased fs.memory fs.table (block_size * (fs.table_size + 1))
    → 0 < fs.table_size
    → format chip fs ≡ record fs { memory = (format chip fs).memory; root = (format chip fs).root }
format_keeps chip fs aligned flash erased positive =
    let shape = format-formatted fs flash erased positive chip aligned in
    shape ∙ sym (ap (λ s. record fs { memory = s.memory; root = s.root }) shape)
