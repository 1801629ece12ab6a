-- ===== src/FileSystem/Blocks.antt =====
-- Free blocks and pages, and the recycling of those that were deleted.
pub mod Finding
use codal_microbit_v.Base.{
  ℕ, zero, suc, ◌+◌, ◌-◌, ◌*◌, ◌/◌, ◌%◌, ◌^◌, ◌≡◌, Bool, true, false, not, ◌&&◌, ◌||◌, Option, none,
  some, List, [], ◌∷◌, ltb, leb, ◌==◌, if◌then◌else◌, bytes_at,
}
use codal_microbit_v.Flash.{Chip}
use codal_microbit_v.FileSystem.{
  FileSystem, block_size, entry_size, unused, deleted, half_at, get_block, get_next_file_block,
  get_block_number, store, erase_page, get_page,
}

-- The search of getFreeBlock, which counts `block` up as a `uint16_t` until it comes to
-- `lastBlockAllocated` again: the block found, and the last deleted one.
pub find_free : ℕ → FileSystem → ℕ → ℕ → Option ℕ × ℕ
find_free zero fs block found = (none, found)
find_free (suc fuel) fs block found = elim (block == fs.last_block) [
  | true ↦ (none, found)
  | false ↦ elim (get_next_file_block fs block == unused) [
    | true ↦ (some block, found)
    | false ↦
        find_free fuel fs ((block + 1) % 2 ^ 16)
          (if get_next_file_block fs block == deleted then block else found)
  ]
]

-- Whether the blocks of a page are all free, of which `n` are left to look at, and whether one of
-- those looked at is deleted.
pub page_state : ℕ → FileSystem → ℕ → Bool → Bool × Bool
page_state zero fs block some_deleted = (true, some_deleted)
page_state (suc n) fs block some_deleted =
    let next = get_next_file_block fs block in
    let rest = page_state n fs (block + 1) (some_deleted || next == deleted) in
    if next == deleted || next == unused then rest else (false, some_deleted)

module _ (chip : Chip) where
  open chip use {page_size, default_scratch}

  abbrev pub blocks_per_page : ℕ
  blocks_per_page = page_size / block_size

  -- The search of getFreePage: a free page, or the first that can be recycled, or 0.
  pub find_page : ℕ → FileSystem → ℕ → ℕ → ℕ → Option ℕ × ℕ
  unfolding page_state
  find_page zero fs current page recyclable = (none, recyclable)
  find_page (suc fuel) fs current page recyclable = elim (page == current) [
    | true ↦ (none, recyclable)
    | false ↦
        let (empty, some_deleted) = page_state blocks_per_page fs page false in
        elim empty [
          | true ↦ (some page, recyclable)
          | false ↦
              find_page fuel fs current ((page + blocks_per_page) % fs.size)
                (if some_deleted && recyclable == 0 then page else recyclable)
        ]
  ]

  abbrev pub page_found : FileSystem → Option ℕ × ℕ → ℕ × FileSystem
  page_found fs (some page, recyclable) = (get_block fs page, record fs { last_block = page })
  page_found fs (none, recyclable) =
      let address = if recyclable == 0 then default_scratch else get_block fs recyclable in
      (address, erase_page chip fs address)

  -- The file system consists of whole pages, so that no more rounds are needed than it has blocks.
  pub get_free_page : FileSystem → ℕ × FileSystem
  unfolding find_page erase_page
  get_free_page fs =
      let current = get_block_number fs (get_page chip fs fs.last_block) in
      page_found fs (find_page fs.size fs current ((current + blocks_per_page) % fs.size) 0)

  -- The valid entries of a directory's block, of which `n` are left, are copied.
  pub recycle_entries : ℕ → FileSystem → ℕ → ℕ → FileSystem
  unfolding store
  recycle_entries zero fs source target = fs
  recycle_entries (suc n) fs source target =
      let valid = half_at fs.memory (source + 18) / 2 ^ 14 % 2 == 1 in
      recycle_entries n
        (if valid then store chip fs target (bytes_at fs.memory source entry_size) 0 else fs)
        (source + entry_size) (target + entry_size)

  -- The entries of the file table that are not deleted are copied.
  pub recycle_table : ℕ → FileSystem → ℕ → ℕ → FileSystem
  unfolding store
  recycle_table zero fs source target = fs
  recycle_table (suc n) fs source target =
      recycle_table n
        (if half_at fs.memory source == deleted
          then fs
          else store chip fs target (bytes_at fs.memory source 2) 0)
        (source + 2) (target + 2)

  -- A round of the loop of recycleBlock: block `b` goes to `target`.
  pub recycle_one : FileSystem → ℕ → Bool → ℕ → ℕ → FileSystem
  unfolding recycle_entries recycle_table store
  recycle_one fs block directory b target =
      let next = get_next_file_block fs b in
      if next == deleted || next == unused
      then fs
      else if b == block && directory
      then recycle_entries (block_size / entry_size) fs (get_block fs b) target
      else if ltb (get_block fs b) fs.root
      then recycle_table (block_size / 2) fs (get_block fs b) target
      else store chip fs target (bytes_at fs.memory (get_block fs b) block_size) 0

  pub recycle_loop : ℕ → FileSystem → ℕ → Bool → ℕ → ℕ → FileSystem
  unfolding recycle_one
  recycle_loop zero fs block directory b target = fs
  recycle_loop (suc n) fs block directory b target =
      recycle_loop n (recycle_one fs block directory b target) block directory ((b + 1) % 2 ^ 16)
        (target + block_size)

  -- `directory` tells whether `type` is MBFS_BLOCK_TYPE_DIRECTORY.
  pub recycle_block : FileSystem → ℕ → Bool → FileSystem
  unfolding get_free_page recycle_loop erase_page store
  recycle_block fs block directory =
      let page = get_page chip fs block in
      let (scratch, fs1) = get_free_page fs in
      let fs2 =
        recycle_loop blocks_per_page fs1 block directory (get_block_number fs page) scratch in
      let fs3 = erase_page chip fs2 page in
      erase_page chip (store chip fs3 page (bytes_at fs3.memory scratch page_size) 0) scratch

  -- The first loop of recycleFileTable, with `n` blocks left.
  pub recycle_pages : ℕ → FileSystem → ℕ → Bool → FileSystem
  unfolding recycle_block
  recycle_pages zero fs block recycled = fs
  recycle_pages (suc n) fs block recycled =
      let before = if block % blocks_per_page == 0 then false else recycled in
      let now = get_next_file_block fs block == deleted && not before in
      recycle_pages n (if now then recycle_block fs block false else fs) (block + 1) (now || before)

  -- The second loop, over the pages of the table itself.
  pub recycle_table_pages : ℕ → FileSystem → ℕ → FileSystem
  unfolding recycle_block
  recycle_table_pages zero fs block = fs
  recycle_table_pages (suc fuel) fs block = elim (ltb (get_page chip fs block) fs.root) [
    | true ↦
        recycle_table_pages fuel (recycle_block fs block false) ((block + blocks_per_page) % 2 ^ 16)
    | false ↦ fs
  ]

  pub recycle_file_table : FileSystem → FileSystem
  unfolding recycle_pages recycle_table_pages
  recycle_file_table fs = recycle_table_pages fs.size (recycle_pages fs.size fs 0 false) 0

  abbrev pub block_found : FileSystem → Option ℕ × ℕ → ℕ × FileSystem
  block_found fs (some block, found) = (block, record fs { last_block = block })
  block_found fs (none, found) =
      if found == 0 then (0, fs) else (found, record (recycle_file_table fs) { last_block = found })

  -- 0 if there is no space.
  pub get_free_block : FileSystem → ℕ × FileSystem
  unfolding find_free recycle_file_table
  get_free_block fs = block_found fs (find_free (2 ^ 16) fs ((fs.last_block + 1) % fs.size) 0)
