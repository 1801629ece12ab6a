-- ===== src/FileSystem/Files/Reading.antt =====
-- Reading a file is reading the concatenation of its blocks.
use codal_microbit_v.Base.{
  ℕ, zero, suc, ◌+◌, ◌-◌, ◌*◌, ◌/◌, ◌≤◌, ◌≡◌, refl, sym, ap, ap₂, ◌∙◌, arith, true, false, List, [],
  ◌++◌, append-nil, min, length, take, drop, ltb, leb, ◌==◌, bytes_at, length-bytes_at,
  length-append, take-bytes_at, length-take, drop-append_right, take-drop-append_left,
  take-drop-append_across, drop-take, take-take, slice-bytes_at, drop-bytes_at, Bool-cases, inl,
  inr,
}
use codal_microbit_v.FileSystem.{
  FileSystem, FileDescriptor, block_size, get_block, get_next_file_block,
}
use codal_microbit_v.FileSystem.Directory.{first_block}
use codal_microbit_v.FileSystem.Files.{find_position, read_loop, read_bytes}

-- The bytes of `n` blocks of the chain that starts with a block.
pub chain_bytes : ℕ → FileSystem → ℕ → List ℕ
chain_bytes zero fs block = []
chain_bytes (suc n) fs block =
    bytes_at fs.memory (get_block fs block) block_size
    ++ chain_bytes n fs (get_next_file_block fs block)

pub length-chain_bytes :
    (n : ℕ) (fs : FileSystem) (block : ℕ) → length (chain_bytes n fs block) ≡ block_size * n
unfolding chain_bytes
length-chain_bytes zero fs block = refl
length-chain_bytes (suc n) fs block =
    length-append (bytes_at fs.memory (get_block fs block) block_size)
      (chain_bytes n fs (get_next_file_block fs block))
    ∙ ap₂ ◌+◌ (length-bytes_at fs.memory (get_block fs block) block_size)
        (length-chain_bytes n fs (get_next_file_block fs block))
    ∙ omega arith

-- The chain does not depend on the open files.
pub chain_bytes-files :
    (n : ℕ) (fs : FileSystem) (files : List FileDescriptor) (block : ℕ)
    → chain_bytes n (record fs { open_files = files }) block ≡ chain_bytes n fs block
unfolding chain_bytes
chain_bytes-files zero fs files block = refl
chain_bytes-files (suc n) fs files block =
    ap (◌++◌ (bytes_at fs.memory (get_block fs block) block_size))
      (chain_bytes-files n fs files (get_next_file_block fs block))

read_loop-done :
    (fuel : ℕ) (fs : FileSystem) (block offset : ℕ) → read_loop fuel fs block offset 0 ≡ []
unfolding read_loop
read_loop-done zero fs block offset = refl
read_loop-done (suc fuel) fs block offset = refl

-- With enough fuel the loop copies the bytes from `offset` on, in however many blocks they lie.
read_loop-take :
    (fuel n : ℕ) (fs : FileSystem) (block offset left : ℕ)
    → offset ≤ block_size
    → offset + left ≤ block_size * n
    → 2 * left + offset / block_size ≤ fuel
    → read_loop fuel fs block offset left ≡ take left (drop offset (chain_bytes n fs block))
unfolding read_loop chain_bytes
read_loop-take fuel n fs block offset zero le in_chain enough = read_loop-done fuel fs block offset
read_loop-take zero n fs block offset (suc left) le in_chain enough = absurd (omega arith)
read_loop-take (suc fuel) zero fs block offset (suc left) le in_chain enough = absurd (omega arith)
read_loop-take (suc fuel) (suc n) fs block offset (suc left) le in_chain enough =
    elim (Bool-cases (leb (block_size - offset) (suc left))) [
      | inr here ↦
          let n_all : min (suc left) (block_size - offset) ≡ suc left = ground arith in
          let inside : (offset + suc left == block_size) ≡ false = ground arith in
          let none_left : suc left - suc left ≡ 0 = omega arith in
          let done = read_loop-done fuel fs block (offset + suc left) in
          rw (read_loop, more, n_all, inside, none_left, done, append-nil)
            (sym (
              take-drop-append_left _ (chain_bytes n fs (get_next_file_block fs block)) offset
                (suc left) (ground (arith, size))
              ∙ slice-bytes_at fs.memory (get_block fs block) offset (suc left) block_size
                  (ground arith)))
      | inl across ↦
          let n_rest : min (suc left) (block_size - offset) ≡ block_size - offset = ground arith in
          let at_end : (offset + (block_size - offset) == block_size) ≡ true = ground arith in
          let rest =
            read_loop-take fuel n fs (get_next_file_block fs block) 0
              (suc left - (block_size - offset)) (omega arith) (ground arith) (ground arith) in
          rw (read_loop, more, n_rest, at_end, rest)
            (sym (
              take-drop-append_across _ (chain_bytes n fs (get_next_file_block fs block)) offset
                (suc left) (ground (arith, size)) (ground (arith, size))
              ∙ ap₂ ◌++◌ (drop-bytes_at fs.memory (get_block fs block) offset block_size) (
                  ap
                    (λ i.
                      take (suc left - (i - offset))
                        (chain_bytes n fs (get_next_file_block fs block)))
                    size)))
    ]
  where
    size : length (bytes_at fs.memory (get_block fs block) block_size) ≡ block_size
    size = length-bytes_at fs.memory (get_block fs block) block_size

    more : ltb 0 (suc left) ≡ true
    more = ground arith

-- The walk keeps the rest of the chain.
find_position-chain :
    (fuel n : ℕ) (fs : FileSystem) (block left : ℕ)
    → left ≤ fuel
    → left ≤ block_size * n
    → let (b, offset) = find_position fuel fs block left in
      (k : ℕ) × (offset ≤ block_size)
      × (block_size * k + left ≡ block_size * n + offset)
      × (drop left (chain_bytes n fs block) ≡ drop offset (chain_bytes k fs b))
unfolding find_position chain_bytes
find_position-chain zero n fs block left enough in_chain = (n, omega arith, omega arith, refl)
find_position-chain (suc fuel) zero fs block left enough in_chain =
    let here : ltb block_size left ≡ false = ground arith in
    rw (find_position, here) (0, omega arith, refl, refl)
find_position-chain (suc fuel) (suc n) fs block left enough in_chain =
    elim (Bool-cases (ltb block_size left)) [
      | inr here ↦ rw (find_position, here) (suc n, ground arith, refl, refl)
      | inl on ↦
          let (k, le, e, same) =
            find_position-chain fuel n fs (get_next_file_block fs block) (left - block_size)
              (ground arith) (ground arith) in
          rw (find_position, on)
            (
              k,
              le,
              ground arith,
              drop-append_right (bytes_at fs.memory (get_block fs block) block_size)
                    (chain_bytes n fs (get_next_file_block fs block)) left (ground (arith, size))
                  ∙ ap (λ i. drop (left - i) (chain_bytes n fs (get_next_file_block fs block))) size
                  ∙ same,
            )
    ]
  where
    size : length (bytes_at fs.memory (get_block fs block) block_size) ≡ block_size
    size = length-bytes_at fs.memory (get_block fs block) block_size

pub find_position_here :
    (fuel : ℕ) (fs : FileSystem) (block left : ℕ)
    → left ≤ block_size
    → find_position fuel fs block left ≡ (block, left)
unfolding find_position
find_position_here zero fs block left le = refl
find_position_here (suc fuel) fs block left le =
    let here : ltb block_size left ≡ false = ground arith in rw (find_position, here) refl

-- The bytes of a file with `n` blocks.
abbrev pub contents : ℕ → FileSystem → FileDescriptor → List ℕ
contents n fs file = take file.length (chain_bytes n fs (first_block fs file.dirent))

-- What is read from a file whose blocks hold its length are the bytes from the position on.
pub read_bytes_lem :
    (n : ℕ) (fs : FileSystem) (file : FileDescriptor) (size : ℕ)
    → file.seek ≤ file.length
    → file.length ≤ block_size * n
    → read_bytes fs file size ≡ take size (drop file.seek (contents n fs file))
unfolding read_bytes
read_bytes_lem n fs file size inside in_chain =
    let (k, le, e, same) =
      find_position-chain file.seek n fs (first_block fs file.dirent) file.seek (omega arith)
        (omega arith) in
    let (block, offset) = find_position file.seek fs (first_block fs file.dirent) file.seek in
    let m = min size (file.length - file.seek) in
    read_loop-take (2 * m + 1) k fs block offset m le (ground arith) (ground arith)
    ∙ ap (take m) (sym same)
    ∙ sym (
        ap (take size)
          (drop-take (chain_bytes n fs (first_block fs file.dirent)) file.seek file.length)
        ∙ take-take (drop file.seek (chain_bytes n fs (first_block fs file.dirent))) size
            (file.length - file.seek))

pub length-contents :
    (n : ℕ) (fs : FileSystem) (file : FileDescriptor)
    → file.length ≤ block_size * n
    → length (contents n fs file) ≡ file.length
length-contents n fs file in_chain = ground (
  arith,
  length-take file.length (chain_bytes n fs (first_block fs file.dirent)),
  length-chain_bytes n fs (first_block fs file.dirent),
)

-- A file that fits in its first block.
pub contents_one :
    (fs : FileSystem) (file : FileDescriptor)
    → file.length ≤ block_size
    → contents 1 fs file
      ≡ bytes_at fs.memory (get_block fs (first_block fs file.dirent)) file.length
unfolding chain_bytes
contents_one fs file fits =
    ap (take file.length)
      (append-nil (bytes_at fs.memory (get_block fs (first_block fs file.dirent)) block_size))
    ∙ take-bytes_at fs.memory (get_block fs (first_block fs file.dirent)) file.length block_size
        fits
