-- ===== src/File.antt =====
-- inc/MicroBitFile.h and source/MicroBitFile.cpp: a file by its name, over the file system.
pub mod Laws
mod Tests
use codal_microbit_v.Base.{
  ℕ, zero, suc, ◌^◌, Bool, true, false, Option, none, some, List, [], ◌∷◌, leb, if◌then◌else◌,
  Result, ok, err, invalid_parameter, not_supported, no_data,
}
use codal_microbit_v.Flash.{Chip}
use codal_microbit_v.FileSystem.{FileSystem}
use codal_microbit_v.FileSystem.Files.Access
use codal_microbit_v.FileSystem.Files.Naming.{open_file, remove}

-- `handle` is none where `fileHandle` holds an error, and `file_system` is the default one, which
-- the files share.
pub record File : Type 0 where
  pub handle : Option ℕ
  pub name : List ℕ

-- A method's result, the file and the file system after it.
abbrev pub Step : Type 0 → Type 0
Step A = Result A × File × FileSystem

-- A method that needs a handle, and passes on to the file system.
abbrev pub with_handle : {A : Type 0} → File → FileSystem → (ℕ → Result A × FileSystem) → Step A
with_handle f fs run = elim f.handle [
  | none ↦ (err not_supported, f, fs)
  | some fd ↦ let (r, after) = run fd in (r, f, after)
]

abbrev pub opened : List ℕ → Result ℕ × FileSystem → File × FileSystem
opened name (ok fd, fs) = (record { handle = some fd; name = name }, fs)
opened name (err e, fs) = (record { handle = none; name = name }, fs)

-- The value of `read()`: the byte read, or an error.
abbrev pub char_of : Result (List ℕ) → Result ℕ
char_of (ok (c ∷ cs)) = ok c
char_of (ok []) = err no_data
char_of (err e) = err e

-- After success the handle is an error.
abbrev pub closed : Step (Unit {0}) → Step (Unit {0})
closed (ok u, f, fs) = (ok u, record f { handle = none }, fs)
closed (err e, f, fs) = (err e, f, fs)

module _ (chip : Chip) where
  pub new : FileSystem → List ℕ → ℕ → File × FileSystem
  new fs name mode = opened name (open_file chip fs name mode)

  -- `offset` is the pattern of an `int`.
  pub set_position : File → FileSystem → ℕ → Step ℕ
  set_position f fs offset = with_handle f fs (λ fd.
      if leb (2 ^ 31) offset then (err invalid_parameter, fs) else Access.seek chip fs fd offset 1)

  pub get_position : File → FileSystem → Step ℕ
  get_position f fs = with_handle f fs (λ fd. Access.seek chip fs fd 0 4)

  -- Into a buffer that is not NULL, with a size that is not negative.
  pub read : File → FileSystem → ℕ → Step (List ℕ)
  read f fs size = with_handle f fs (λ fd. Access.read chip fs fd size)

  pub read_char : File → FileSystem → Step ℕ
  unfolding read
  read_char f fs = let (r, f1, fs1) = read f fs 1 in (char_of r, f1, fs1)

  pub flush : File → FileSystem → Step (Unit {0})
  flush f fs = with_handle f fs (λ fd. Access.flush chip fs fd)

  pub close : File → FileSystem → Step (Unit {0})
  close f fs = closed (with_handle f fs (λ fd. Access.close chip fs fd))

  -- The result of close is not looked at; without a handle it does nothing.
  pub remove_file : File → FileSystem → Step (Unit {0})
  unfolding close
  remove_file f fs =
      let (r, f1, fs1) = close f fs in
      let (r2, fs2) = remove chip fs1 f1.name in closed (r2, f1, fs2)

  -- `cache_size` is the configured MBFS_CACHE_SIZE.
  module _ (cache_size : ℕ) where
    pub write : File → FileSystem → List ℕ → Step ℕ
    write f fs bytes = with_handle f fs (λ fd. Access.write chip cache_size fs fd bytes)

    abbrev pub appended : List ℕ → Step ℕ → Step ℕ
    appended bytes (ok p, f, fs) = write f fs bytes
    appended bytes (err e, f, fs) = (err e, f, fs)

    -- At the end of the file.
    pub append : File → FileSystem → List ℕ → Step ℕ
    unfolding write
    append f fs bytes = appended bytes (with_handle f fs (λ fd. Access.seek chip fs fd 0 2))
