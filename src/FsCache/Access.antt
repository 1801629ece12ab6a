-- ===== src/FsCache/Access.antt =====
-- Reading and writing through the cache: read and write of source/FSCache.cpp.
pub mod Reading
pub mod Legal
pub mod Stored
pub mod Through
pub mod Writing
use Prim.Native.Nat.{bit_and, bit_xor}
use codal_microbit_v.Base.{
  ℕ, zero, suc, ◌+◌, ◌-◌, ◌*◌, ◌/◌, ◌%◌, ◌^◌, ◌≤◌, ◌<◌, ◌≡◌, Bool, true, false, not, ◌&&◌, ◌||◌,
  Option, none, some, List, [], ◌∷◌, ◌++◌, min, length, get_or, set, take, drop, replicate, ltb,
  leb, ◌==◌, if◌then◌else◌, Result, ok, err, invalid_parameter, not_supported,
}
use codal_microbit_v.FsCache.{Nvm, CacheEntry, Cache, entry, cache_page}

-- Where the next part of an access lies: the block, the offset in it and the number of bytes.
abbrev pub block_of : Cache → ℕ → ℕ
block_of c a = a / c.block_size * c.block_size

abbrev pub part : Cache → ℕ → ℕ → ℕ
part c a left = min left (c.block_size - a % c.block_size)

-- The bytes of the entry's page.
abbrev pub page_of : Cache → ℕ → List ℕ
page_of c i = elim (entry c i).page [ none ↦ [] | some p ↦ p ]

-- Whether the bytes differ from those of the page only in bits that they have clear.
unfoldable pub is_legal : List ℕ → List ℕ → Bool
is_legal [] page = true
is_legal (b ∷ bs) [] = true
is_legal (b ∷ bs) (o ∷ os) = if not (bit_and (bit_xor o b) b == 0) then false else is_legal bs os

-- The bytes copied into the page from `offset` on.
abbrev pub overlay : List ℕ → ℕ → List ℕ → List ℕ
overlay page offset bytes = take offset page ++ bytes ++ drop (offset + length bytes) page

abbrev pub aligned_start : ℕ → ℕ
aligned_start a = a - a % 4

-- The words that `l` bytes at `a` lie in: `(alignedEnd - alignedStart) / 4`, in 32 bits.
abbrev pub word_count : ℕ → ℕ → ℕ
word_count a l =
    let last = (a + l) % 2 ^ 32 in
    let aligned_end = if not (last % 4 == 0) then last - last % 4 + 4 else last - last % 4 in
    (aligned_end + 2 ^ 32 - aligned_start a) % 2 ^ 32 / 4

module _ (nvm : Nvm) where
  -- The loop of `read`, from address `a` on with `left` bytes to copy; `fuel` bounds the rounds.
  pub read_loop : ℕ → Cache → ℕ → ℕ → List ℕ × Cache
  unfolding cache_page
  read_loop zero c a left = ([], c)
  read_loop (suc fuel) c a left = elim (ltb 0 left) [
    | false ↦ ([], c)
    | true ↦
        let l = part c a left in
        let (i, d) = cache_page nvm c (block_of c a) in
        let chunk = take l (drop (a % c.block_size) (page_of d i)) in
        let (rest, e) = read_loop fuel d ((a + l) % 2 ^ 32) (left - l) in (chunk ++ rest, e)
  ]

  abbrev pub out_of_range : ℕ → ℕ → Bool
  out_of_range address len =
      ltb address nvm.flash_start || ltb nvm.flash_end ((address + len) % 2 ^ 32)

  pub read : Cache → ℕ → ℕ → Result (List ℕ) × Cache
  unfolding read_loop
  read c address len =
      if out_of_range address len
      then (err invalid_parameter, c)
      else (let (bytes, d) = read_loop len c address len in (ok bytes, d))

  -- The first loop of `write`; the bytes are those not looked at yet.
  pub validate : ℕ → Cache → ℕ → List ℕ → Bool × Cache
  unfolding cache_page is_legal
  validate zero c a bytes = (true, c)
  validate (suc fuel) c a bytes = elim (ltb 0 (length bytes)) [
    | false ↦ (true, c)
    | true ↦
        let l = part c a (length bytes) in
        let (i, d) = cache_page nvm c (block_of c a) in
        let rest = validate fuel d ((a + l) % 2 ^ 32) (drop l bytes) in
        if is_legal (take l bytes) (drop (a % c.block_size) (page_of d i)) then rest else (false, d)
  ]

  -- A round of the second loop: the page in the cache is changed, and the words that hold the
  -- change are written through.
  pub write_part : Cache → ℕ → ℕ → List ℕ → Cache
  write_part c i a bytes =
      let page = overlay (page_of c i) (a % c.block_size) bytes in
      let words =
        take (word_count a (length bytes) * 4) (drop (aligned_start a % c.block_size) page) in
      record c {
        entries = set c.entries i (record (entry c i) { page = some page });
        flash = nvm.write c.flash (aligned_start a) words;
      }

  pub write_loop : ℕ → Cache → ℕ → List ℕ → Cache
  unfolding cache_page write_part
  write_loop zero c a bytes = c
  write_loop (suc fuel) c a bytes = elim (ltb 0 (length bytes)) [
    | false ↦ c
    | true ↦
        let l = part c a (length bytes) in
        let (i, d) = cache_page nvm c (block_of c a) in
        write_loop fuel (write_part d i a (take l bytes)) ((a + l) % 2 ^ 32) (drop l bytes)
  ]

  -- `CODAL_FS_CACHE_VALIDATE` is defined in the header, so the validation is compiled in.
  pub write : Cache → ℕ → List ℕ → Result (Unit {0}) × Cache
  unfolding validate write_loop
  write c address bytes =
      if out_of_range address (length bytes)
      then (err invalid_parameter, c)
      else let (legal, d) = validate (length bytes) c address bytes in
        if legal then (ok tt, write_loop (length bytes) d address bytes) else (err not_supported, d)
