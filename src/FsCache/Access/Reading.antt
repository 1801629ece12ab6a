-- ===== src/FsCache/Access/Reading.antt =====
-- What read gives: the bytes of memory, wherever the blocks come from.
use native.Mathlib.Nat.{mul-mod_left}
use codal_microbit_v.Base.{
  Memory, bytes_at, bytes_at-append, slice-bytes_at, ℕ, zero, suc, ◌+◌, ◌-◌, ◌*◌, ◌/◌, ◌%◌, ◌^◌,
  ◌≤◌, ◌<◌, ◌≡◌, refl, ap, ap₂, ◌∙◌, arith, ◌||◌, List, ◌++◌, take, drop, ltb, if◌then◌else◌,
  Bool-cases, inl, inr, ok, err, invalid_parameter,
}
use codal_microbit_v.FsCache.{Nvm, Cache, cache_page}
use codal_microbit_v.FsCache.Coherence.{IsCoherent, HasBlock, cache_page-HasBlock}
use codal_microbit_v.FsCache.Access.{block_of, part, page_of, read_loop, out_of_range, read}

-- A part of a block.
pub part-bytes_at :
    (m : Memory) (bs a l : ℕ)
    → a % bs + l ≤ bs
    → take l (drop (a % bs) (bytes_at m (a / bs * bs) bs)) ≡ bytes_at m a l
part-bytes_at m bs a l le =
    slice-bytes_at m (a / bs * bs) (a % bs) l bs le ∙ ap (λ x. bytes_at m x l) (omega arith)

module _ (nvm : Nvm) where
  record IsRead (c : Cache) (a left : ℕ) (r : List ℕ × Cache) : Type 0 where
    bytes : r.0 ≡ bytes_at c.flash a left
    coherent : IsCoherent r.1
    same_flash : r.1.flash ≡ c.flash
    same_size : r.1.block_size ≡ c.block_size

  -- The entry for the next part of an access.
  pub part-HasBlock :
      (c : Cache) (a : ℕ)
      → IsCoherent c
      → HasBlock c
          (cache_page nvm c (block_of c a)).1
          (cache_page nvm c (block_of c a)).0
          (block_of c a)
  part-HasBlock c a coh =
      cache_page-HasBlock nvm c (block_of c a) coh (mul-mod_left (a / c.block_size) c.block_size)

  pub page_of-block :
      (c d : Cache) (i address : ℕ)
      → HasBlock c d i address
      → page_of d i ≡ bytes_at c.flash address c.block_size
  page_of-block c d i address block = rw (block.page_is, page_of) refl

  pub part_fits :
      (c : Cache) (a left : ℕ) → IsCoherent c → a % c.block_size + part c a left ≤ c.block_size
  part_fits c a left coh = omega (arith, coh.block_pos)

  round-IsRead :
      (c d : Cache) (i a left : ℕ) (r : List ℕ × Cache)
      → IsCoherent c
      → a + left < 2 ^ 32
      → HasBlock c d i (block_of c a)
      → IsRead d ((a + part c a left) % 2 ^ 32) (left - part c a left) r
      → IsRead c a left (take (part c a left) (drop (a % c.block_size) (page_of d i)) ++ r.0, r.1)
  round-IsRead c d i a left r coh low block rest = record {
    bytes =
        ap₂ ◌++◌
          (ap (λ p. take l (drop (a % c.block_size) p)) (page_of-block c d i _ block)
            ∙ part-bytes_at c.flash c.block_size a l (part_fits c a left coh))
          (rest.bytes
            ∙ ap (λ m. bytes_at m ((a + l) % 2 ^ 32) (left - l)) block.same_flash
            ∙ ap (λ x. bytes_at c.flash x (left - l)) (omega arith))
        ∙ bytes_at-append c.flash a l (left - l)
        ∙ ap (bytes_at c.flash a) (omega arith);
    coherent = rest.coherent;
    same_flash = rest.same_flash ∙ block.same_flash;
    same_size = rest.same_size ∙ block.same_size;
  }
    where
      l : ℕ
      l = part c a left

  -- The loop with fuel for every byte.
  read_loop-IsRead :
      (fuel : ℕ) (c : Cache) (a left : ℕ)
      → IsCoherent c
      → left ≤ fuel
      → a + left < 2 ^ 32
      → IsRead c a left (read_loop nvm fuel c a left)
  unfolding read_loop
  read_loop-IsRead zero c a left coh enough low =
      let none_left : left ≡ 0 = omega arith in
      record { bytes = rw none_left refl; coherent = coh; same_flash = refl; same_size = refl }
  read_loop-IsRead (suc fuel) c a left coh enough low = elim (Bool-cases (ltb 0 left)) [
    | inr n ↦
        let none_left : left ≡ 0 = ground arith in
        rw (n, read_loop)
          (record {
            bytes = rw none_left refl;
            coherent = coh;
            same_flash = refl;
            same_size = refl;
          })
    | inl y ↦
        let block = part-HasBlock c a coh in
        let pos : 0 < left = ground arith in
        rw (y, read_loop)
          (round-IsRead c _ _ a left _ coh low block (
            read_loop-IsRead fuel _ ((a + part c a left) % 2 ^ 32) (left - part c a left)
              block.coherent (ground arith) (omega arith)))
  ]

  -- `read` refuses a range that is not within the device. Any other range is read whole: the bytes
  -- are those of memory, whatever the cache held and however many blocks the range lies in; memory
  -- is not written and the cache stays coherent.
  pub read_lem :
      (c : Cache) (address len : ℕ)
      → IsCoherent c
      → address + len < 2 ^ 32
      → let (r, d) = read nvm c address len in
        (r ≡ (
          if ltb address nvm.flash_start || ltb nvm.flash_end (address + len)
          then err invalid_parameter
          else ok (bytes_at c.flash address len)))
        × IsCoherent d
        × (d.flash ≡ c.flash)
  unfolding read
  read_lem c address len coh low = elim (Bool-cases (out_of_range nvm address len)) [
    | inl y ↦ rw (y, read) (rw (← next) (rw y refl), coh, refl)
    | inr n ↦
        let all = read_loop-IsRead len c address len coh (omega arith) low in
        rw (n, read) (rw (← next) (rw n (ap ok all.bytes)), all.coherent, all.same_flash)
  ]
    where
      next : (address + len) % 2 ^ 32 ≡ address + len
      next = omega arith
