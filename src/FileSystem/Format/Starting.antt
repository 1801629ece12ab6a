-- ===== src/FileSystem/Format/Starting.antt =====
-- init on erased memory, and again on what it made.
use Prim.Native.Nat.{bit_and}
use codal_microbit_v.Base.{
  ℕ, zero, suc, ◌+◌, ◌-◌, ◌*◌, ◌/◌, ◌^◌, ◌≤◌, ◌<◌, ◌≡◌, refl, sym, ap, ap₂, ◌∙◌, arith, true, false,
  ◌==◌, leb, if◌then◌else◌, ok, err, not_supported,
}
use codal_microbit_v.Flash.{Chip}
use codal_microbit_v.Flash.Write.{IsBytes}
use codal_microbit_v.FileSystem.{
  FileSystem, block_size, eof, get_next_file_block, calculate_file_table_size,
}
use codal_microbit_v.FileSystem.Storing.{IsErased}
use codal_microbit_v.FileSystem.Format.{fresh, sized, table_valid, load, format, init, started}
use codal_microbit_v.FileSystem.Format.Formatted.{format_keeps}
use codal_microbit_v.FileSystem.Format.Loading.{load-format}

table_valid-false :
    (n i offset : ℕ) (fs : FileSystem)
    → 0 < n
    → eof ≤ get_next_file_block fs i
    → table_valid n fs i offset ≡ false
unfolding table_valid
table_valid-false zero i offset fs positive high = absurd (omega arith)
table_valid-false (suc n) i offset fs positive high =
    let bad : leb eof (get_next_file_block fs i) ≡ true = ground arith in rw (table_valid, bad) refl

load_erased : (fs : FileSystem) → IsErased fs.memory fs.table 2 → load fs ≡ (false, fs)
unfolding load
load_erased fs erased =
    let low : fs.memory (fs.table + 2 * 0) ≡ 255 = erased _ (omega arith) (omega arith) in
    let high : fs.memory (fs.table + 2 * 0 + 1) ≡ 255 = erased _ (omega arith) (omega arith) in
    let offset : get_next_file_block fs 0 ≡ 0xffff = ap₂ (λ a b. a + b * 2 ^ 8) low high in
    let refused =
      table_valid-false (get_next_file_block fs 0) 0 (get_next_file_block fs 0) fs
        (omega (arith, offset)) (omega (arith, offset)) in
    simp (load, refused)

init-started :
    (chip : Chip) (fs : FileSystem) (start pages : ℕ)
    → fs.initialised ≡ false
    → init chip fs start pages ≡ (
      ok tt,
      started chip (load (fresh fs start)) (sized fs start (pages * (chip.page_size / block_size))),
    )
unfolding init
init-started chip fs start pages first =
    ap
      (λ b. if b then (err not_supported, fs) else (
        ok tt,
        started chip (load (fresh fs start))
            (sized fs start (pages * (chip.page_size / block_size))),
      ))
      first

-- On erased memory init makes a file system. Another instance that is given this memory finds the
-- same, whatever number of pages it is told.
pub init-init :
    (chip : Chip) (fs other : FileSystem) (start pages more : ℕ)
    → let size = pages * (chip.page_size / block_size) in
      (bit_and chip.default_scratch (chip.page_size - 1) == 0) ≡ true
      → fs.initialised ≡ false
      → other.initialised ≡ false
      → IsBytes fs.memory
      → IsErased fs.memory start (block_size * (calculate_file_table_size size + 1))
      → 0 < size
      → size < 2 ^ 16
      → let (r, made) = init chip fs start pages in
        (r ≡ ok tt) × (init chip (record other { memory = made.memory }) start more ≡ (ok tt, made))
init-init chip fs other start pages more aligned first first' flash erased positive small =
    rw made_there (
      refl,
      init-started chip given start more first'
          ∙ ap
              (λ l.
                (ok tt, started chip l (sized given start (more * (chip.page_size / block_size)))))
              (ap load same
                ∙ load-format chip (sized fs start size) 0 other.size other.table_size aligned flash
                    erased refl positive small),
    )
  where
    size : ℕ
    size = pages * (chip.page_size / block_size)

    made_there :
        init chip fs start pages
        ≡ (ok tt, record (format chip (sized fs start size)) { initialised = true })
    made_there =
        init-started chip fs start pages first
        ∙ ap (λ l. (ok tt, started chip l (sized fs start size)))
            (load_erased (fresh fs start) (λ x lo hi. erased x lo (omega arith)))

    made : FileSystem
    made = format chip (sized fs start size)

    given : FileSystem
    given = record other { memory = made.memory }

    same :
        fresh given start
        ≡ record made { root = 0; size = other.size; table_size = other.table_size }
    same =
        ap (λ b. record (fresh given start) { initialised = b }) (first' ∙ sym first)
        ∙ sym (
            ap
              (λ (s : FileSystem). record s {
                memory = made.memory;
                root = 0;
                size = other.size;
                table_size = other.table_size;
              })
              (format_keeps chip (sized fs start size) aligned flash erased (ground arith)))
