-- ===== src/Log/Rows/Appending.antt =====
-- What a line adds to the log's memory.
use Prim.Native.Nat.{bit_and, bit_xor}
use mathlib.Core.Path.{fun_ext}
use codal_microbit_v.Base.{
  Memory, stored, IsErased, ℕ, zero, suc, ◌+◌, ◌-◌, ◌^◌, ◌%◌, ◌≤◌, ◌<◌, ◌≡◌, refl, ◌∙◌, arith, true,
  false, ◌||◌, List, [], ◌∷◌, length, take, drop, take_all, drop_all, get_or, min, ltb, leb, ◌==◌,
}
use codal_microbit_v.Base.Bits.{holds_below, holds_below_at}
use codal_microbit_v.FsCache.Coherence.{IsCoherent}
use codal_microbit_v.FsCache.Access.{is_legal}
use codal_microbit_v.FsCache.Access.Legal.{can_store}
use codal_microbit_v.FsCache.Access.Writing.{write_lem}
use codal_microbit_v.Log.{Board, Log, cache_write}
use codal_microbit_v.Log.Rows.{write_pages}

erased_table : holds_below 256 (λ x. bit_and (bit_xor 255 x) x == 0) ≡ true
unfolding holds_below
erased_table = refl

erased-can_store :
    (bytes : List ℕ) (m : Memory) (a : ℕ)
    → IsErased m a (length bytes)
    → ((k : ℕ) → get_or bytes k 0 < 256)
    → can_store m a bytes ≡ true
unfolding is_legal
erased-can_store [] m a erased small = refl
erased-can_store (b ∷ bs) m a erased small =
    let here : m a ≡ 255 = erased a (omega arith) (omega arith) in
    let fits : (bit_and (bit_xor 255 b) b == 0) ≡ true =
      holds_below_at 256 (λ x. bit_and (bit_xor 255 x) x == 0) b (small 0) erased_table in
    rw (here, fits)
      (erased-can_store bs m (a + 1) (λ x le lt. erased x (omega arith) (omega arith))
        (λ k. small (suc k)))

-- Bytes written through the cache to erased memory.
pub record IsStored (board : Board) (l : Log) (address : ℕ) (bytes : List ℕ) : Type 0 where
  pub flash_is :
      (cache_write board l address bytes).cache.flash ≡ stored l.cache.flash address bytes
  pub coherent : IsCoherent (cache_write board l address bytes).cache

module _ (board : Board) where
  open board use {nvm}

  pub cache_write-IsStored :
      (l : Log) (address : ℕ) (bytes : List ℕ)
      → IsCoherent l.cache
      → ((x : ℕ) → l.cache.flash x < 256)
      → ((k : ℕ) → get_or bytes k 0 < 256)
      → IsErased l.cache.flash address (length bytes)
      → nvm.flash_start ≤ address
      → address + length bytes ≤ nvm.flash_end
      → address + length bytes + 4 ≤ 2 ^ 32
      → IsStored board l address bytes
  unfolding cache_write
  cache_write-IsStored l address bytes coherent memory given erased lower upper small =
      let w = write_lem nvm l.cache address bytes coherent small memory given in
      let legal = erased-can_store bytes l.cache.flash address erased given in
      let inside : (ltb address nvm.flash_start || ltb nvm.flash_end (address + length bytes))
          ≡ false =
        ground arith in
      record { flash_is = fun_ext (λ x. w.1 x ∙ (rw (inside, legal) refl)); coherent = w.2 }

  -- The log when the bytes are written at the end of the data.
  abbrev pub extended : Log → List ℕ → Log
  extended l bytes = record (cache_write board l l.data_end bytes) {
    data_end = l.data_end + length bytes;
  }

  write_pages-done : (fuel : ℕ) (l : Log) → write_pages board fuel l [] ≡ l
  unfolding write_pages
  write_pages-done zero l = refl
  write_pages-done (suc fuel) l = refl

  -- A line within a page is written at once, and no page is erased.
  write_pages-within :
      (l : Log) (b : ℕ) (bs : List ℕ)
      → l.data_end % board.page_size + length (b ∷ bs) < board.page_size
      → write_pages board (length (b ∷ bs)) l (b ∷ bs) ≡ extended l (b ∷ bs)
  unfolding write_pages
  write_pages-within l b bs within =
      let space : ℕ = board.page_size - l.data_end % board.page_size in
      let pos : ltb 0 (suc (length bs)) ≡ true = ground arith in
      let fits : min (suc (length bs)) space ≡ suc (length bs) = omega arith in
      let some_left : leb space (suc (length bs)) ≡ false = ground arith in
      let whole : take (suc (length bs)) (b ∷ bs) ≡ b ∷ bs =
        take_all (suc (length bs)) (b ∷ bs) (omega arith) in
      let nothing : drop (suc (length bs)) (b ∷ bs) ≡ [] =
        drop_all (suc (length bs)) (b ∷ bs) (omega arith) in
      rw (pos, write_pages)
        (rw (fits, some_left) (rw (whole, nothing) (write_pages-done (length bs) _)))

  pub write_pages-line :
      (l : Log) (bytes : List ℕ)
      → 0 < length bytes
      → l.data_end % board.page_size + length bytes < board.page_size
      → write_pages board (length bytes) l bytes ≡ extended l bytes
  write_pages-line l [] some_byte within = absurd (omega arith)
  write_pages-line l (b ∷ bs) some_byte within = write_pages-within l b bs within
