-- ===== src/FileSystem/Format/Tests.antt =====
-- A small file system on an erased chip.
use codal_microbit_v.Base.{◌≡◌, refl, arith, false, [], Memory, ok}
use codal_microbit_v.Flash.{Chip}
use codal_microbit_v.Flash.Tests.{small_chip}
use codal_microbit_v.FileSystem.{FileSystem}
use codal_microbit_v.FileSystem.Format.{init}
use codal_microbit_v.FileSystem.Format.Starting.{init-init}

-- Pages of two blocks; the default scratch page is at 8192.
abbrev chip : Chip
chip = small_chip 512 refl (omega arith) 8192

abbrev erased_memory : Memory
erased_memory a = 255

-- 300 blocks, of which the table takes three.
abbrev fs : FileSystem
fs = record {
  memory = erased_memory;
  initialised = false;
  table = 1024;
  size = 300;
  table_size = 3;
  last_block = 0;
  root = 0;
  open_files = [];
}

init-init_example :
    let (r, made) = init chip fs 2048 4 in
    (r ≡ ok tt) × (init chip (record fs { memory = made.memory }) 2048 9 ≡ (ok tt, made))
init-init_example =
    init-init chip fs fs 2048 4 9 refl refl refl (λ a. omega arith) (λ x lo hi. refl) (omega arith)
      (omega arith)
