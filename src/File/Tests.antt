-- ===== src/File/Tests.antt =====
-- A file on the small file system.
use codal_microbit_v.Base.{ℕ, ◌≡◌, refl, arith, some, List, [], ◌∷◌, get_or, ok}
use codal_microbit_v.FileSystem.Files.{get_file_descriptor}
use codal_microbit_v.FileSystem.Files.Reading.{contents}
use codal_microbit_v.FileSystem.Files.Tests.{chip, file, fs}
use codal_microbit_v.File.{set_position, get_position, read_char}
use codal_microbit_v.File.Laws.{holding, set_position_lem}

abbrev name : List ℕ
name = b'a' ∷ []

set_position_lem_example :
    let (r, f, after) = set_position chip (holding (some 0) name) fs 299 in
    (r ≡ ok 299)
    × ((get_position chip f after).0 ≡ ok 299)
    × ((read_char chip f after).0 ≡ ok (get_or (contents 2 fs file) 299 0))
unfolding get_file_descriptor
set_position_lem_example =
    set_position_lem chip 2 name fs 0 file refl refl refl refl (omega arith) (omega arith) 299
      (omega arith) (omega arith)
