-- ===== src/FileSystem/Format/Marking.antt =====
-- format marks the blocks of the file table.
use Prim.Native.Nat.{bit_and}
use codal_microbit_v.Base.{
  stored, ℕ, zero, suc, ◌+◌, ◌-◌, ◌*◌, ◌%◌, ◌≤◌, ◌≡◌, refl, ap, ◌∙◌, arith, true, false, get_or,
  ◌==◌, if◌then◌else◌, Memory, Bool-cases, inl, inr,
}
use codal_microbit_v.Flash.{Chip}
use codal_microbit_v.Flash.Words.{within}
use codal_microbit_v.Flash.Write.{IsBytes}
use codal_microbit_v.FileSystem.{FileSystem, half_bytes, file_table_write}
use codal_microbit_v.FileSystem.Storing.{
  IsErased, store-stored, stored-IsBytes, stored-IsErased, half_bytes-AreBytes,
}
use codal_microbit_v.FileSystem.Format.{mark_table}

-- Memory with `n` words of 16 bits put at an address, all `v`.
pub marks : ℕ → Memory → ℕ → ℕ → Memory
marks zero m a v = m
marks (suc n) m a v = marks n (stored m a (half_bytes v)) (a + 2) v

pub marks_lem :
    (n : ℕ) (m : Memory) (a v x : ℕ)
    → marks n m a v x ≡ (if within a (2 * n) x then get_or (half_bytes v) ((x - a) % 2) 0 else m x)
unfolding marks
marks_lem zero m a v x = ground arith
marks_lem (suc n) m a v x = marks_lem n (stored m a (half_bytes v)) (a + 2) v x ∙ step
  where
    step :
        (if within (a + 2) (2 * n) x
          then get_or (half_bytes v) ((x - (a + 2)) % 2) 0
          else stored m a (half_bytes v) x)
        ≡ (if within a (2 * suc n) x then get_or (half_bytes v) ((x - a) % 2) 0 else m x)
    step = elim (Bool-cases (within (a + 2) (2 * n) x)) [
      | inl later ↦
          let all : within a (2 * suc n) x ≡ true = ground arith in
          let same : (x - (a + 2)) % 2 ≡ (x - a) % 2 = ground arith in rw (later, all, same) refl
      | inr not_later ↦ elim (Bool-cases (within a 2 x)) [
        | inl now ↦
            let all : within a (2 * suc n) x ≡ true = ground arith in
            let same : (x - a) % 2 ≡ x - a = ground arith in rw (not_later, now, all, same) refl
        | inr not_now ↦
            let none : within a (2 * suc n) x ≡ false = ground arith in
            rw (not_later, not_now, none) refl
      ]
    ]

pub marks-IsBytes : (n : ℕ) (m : Memory) (a v : ℕ) → IsBytes m → IsBytes (marks n m a v)
unfolding marks
marks-IsBytes zero m a v h = h
marks-IsBytes (suc n) m a v h =
    marks-IsBytes n (stored m a (half_bytes v)) (a + 2) v
      (stored-IsBytes m a (half_bytes v) h (half_bytes-AreBytes v))

pub marks-IsErased :
    (n : ℕ) (m : Memory) (a v b k : ℕ)
    → a + 2 * n ≤ b
    → IsErased m b k
    → IsErased (marks n m a v) b k
unfolding marks
marks-IsErased zero m a v b k behind h = h
marks-IsErased (suc n) m a v b k behind h =
    marks-IsErased n (stored m a (half_bytes v)) (a + 2) v b k (omega arith)
      (stored-IsErased m a (half_bytes v) b k (omega arith) h)

module _ (chip : Chip)
    (aligned : (bit_and chip.default_scratch (chip.page_size - 1) == 0) ≡ true) where
  pub mark_table-marks :
      (n : ℕ) (fs : FileSystem) (block : ℕ)
      → IsBytes fs.memory
      → IsErased fs.memory (fs.table + 2 * block) (2 * n)
      → mark_table chip n fs block
        ≡ record fs { memory = marks n fs.memory (fs.table + 2 * block) fs.table_size }
  unfolding mark_table file_table_write marks
  mark_table-marks zero fs block flash erased = refl
  mark_table-marks (suc n) fs block flash erased =
      let first =
        store-stored chip aligned fs (fs.table + 2 * block) (half_bytes fs.table_size) flash
          (half_bytes-AreBytes fs.table_size) (λ x le lt. erased x le (omega arith)) in
      let next : fs.table + 2 * (block + 1) ≡ fs.table + 2 * block + 2 = omega arith in
      ap (λ s. mark_table chip n s (block + 1)) first
      ∙ mark_table-marks n
          (record fs {
            memory = stored fs.memory (fs.table + 2 * block) (half_bytes fs.table_size);
          })
          (block + 1)
          (stored-IsBytes fs.memory _ (half_bytes fs.table_size) flash
            (half_bytes-AreBytes fs.table_size))
          (stored-IsErased fs.memory (fs.table + 2 * block) (half_bytes fs.table_size)
            (fs.table + 2 * (block + 1)) (2 * n) (omega arith)
            (λ x le lt. erased x (omega arith) (omega arith)))
      ∙ ap
          (λ a. record fs {
            memory =
                marks n (stored fs.memory (fs.table + 2 * block) (half_bytes fs.table_size)) a
                  fs.table_size;
          })
          next
