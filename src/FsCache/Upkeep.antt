-- ===== src/FsCache/Upkeep.antt =====
-- The other operations keep the cache coherent: init, clear, pin, unpin and erase.
use mathlib.Core.Path.{subst}
use mathlib.Core.Option.{none-ne-some}
use mathlib.Core.Bool.{false≢true}
use codal_microbit_v.Base.{
  Memory, bytes_at, ℕ, zero, suc, ◌%◌, ◌<◌, ◌≡◌, refl, sym, ap, ◌∙◌, arith, Bool, true, false, none,
  some, length, get_or, set, replicate, Option-cases, inl, inr, length-replicate, ok,
  get_or-set_self,
}
use codal_microbit_v.FsCache.{
  unpin_found, blank, erase_found, Nvm, Cache, unused, entry, is_present, init, clear, cache_page,
  pin, unpin, erase, get_cache_entry, find_entry, touch, next_count,
}
use codal_microbit_v.FsCache.Coherence.{
  IsCoherent, HasBlock, cache_page-HasBlock, same_block-IsCoherent, find_entry-hit, touch-HasBlock,
}

entry_unused : (n i : ℕ) → get_or (replicate n unused) i unused ≡ unused
entry_unused zero i = refl
entry_unused (suc n) zero = refl
entry_unused (suc n) (suc i) = entry_unused n i

-- A cache with no used entry is coherent with any memory.
pub init-IsCoherent :
    (flash : Memory) (block_size size : ℕ)
    → 0 < size
    → 0 < block_size
    → block_size % 4 ≡ 0
    → IsCoherent (init flash block_size size)
unfolding init
init-IsCoherent flash block_size size some_entry block_pos block_words = record {
  some_entry = omega (arith, some_entry, length-replicate size unused);
  block_pos = block_pos;
  block_words = block_words;
  holds = λ i p h. absurd (none-ne-some p (sym (ap (λ e. e.page) (entry_unused size i)) ∙ h));
  at_block = λ i h. absurd (false≢true (sym (ap is_present (entry_unused size i)) ∙ h));
  apart = λ i j h. absurd (false≢true (sym (ap is_present (entry_unused size i)) ∙ h));
}

pub clear-IsCoherent : (c : Cache) → IsCoherent c → IsCoherent (clear c)
unfolding clear init
clear-IsCoherent c coh =
    init-IsCoherent c.flash c.block_size (length c.entries) coh.some_entry coh.block_pos
      coh.block_words

-- A flag is no part of what an entry holds.
flag-IsCoherent :
    (c d : Cache) (i address : ℕ) (flag : Bool)
    → HasBlock c d i address
    → IsCoherent (record d { entries = set d.entries i (record (entry d i) { pinned = flag }) })
flag-IsCoherent c d i address flag block =
    same_block-IsCoherent d i _ d.operation_count block.coherent
      (rw (block.page_is, is_present) refl) refl refl

get_cache_entry-hit :
    (c : Cache) (address i : ℕ)
    → find_entry c.entries 0 address ≡ some i
    → get_cache_entry c address ≡ (some i, touch c i)
unfolding get_cache_entry
get_cache_entry-hit c address i found = rw (found, get_cache_entry) refl

get_cache_entry-miss :
    (c : Cache) (address : ℕ)
    → find_entry c.entries 0 address ≡ none
    → get_cache_entry c address ≡ (none, c)
unfolding get_cache_entry
get_cache_entry-miss c address missing = rw (missing, get_cache_entry) refl

touch-IsCoherent :
    (c : Cache) (i : ℕ) → IsCoherent c → is_present (entry c i) ≡ true → IsCoherent (touch c i)
unfolding touch
touch-IsCoherent c i coh present = same_block-IsCoherent c i _ (next_count c) coh present refl refl

-- The two operations on a block that the cache may hold.
module _ (c : Cache) (address : ℕ) (coh : IsCoherent c) where
  found-HasBlock :
      (i : ℕ) → find_entry c.entries 0 address ≡ some i → HasBlock c (touch c i) i address
  found-HasBlock i found =
      let (lt, present, at) = find_entry-hit c address i found in
      touch-HasBlock c i address coh lt present at

  pub unpin-IsCoherent : IsCoherent (unpin c address).1
  unfolding unpin
  unpin-IsCoherent = elim (Option-cases (find_entry c.entries 0 address)) [
    | inl missing ↦
        subst (λ r. IsCoherent (unpin_found r).1) (sym (get_cache_entry-miss c address missing)) coh
    | inr (i, found) ↦
        subst (λ r. IsCoherent (unpin_found r).1) (sym (get_cache_entry-hit c address i found))
          (flag-IsCoherent c (touch c i) i address false (found-HasBlock i found))
  ]

  -- `erase` of a block that is erased in memory keeps the cache coherent.
  pub erase-IsCoherent :
      bytes_at c.flash address c.block_size ≡ replicate c.block_size 255
      → IsCoherent (erase c address).1
  unfolding erase erase_found
  erase-IsCoherent erased = elim (Option-cases (find_entry c.entries 0 address)) [
    | inl missing ↦
        subst (λ r. IsCoherent (erase_found r).1) (sym (get_cache_entry-miss c address missing)) coh
    | inr (i, found) ↦
        subst (λ r. IsCoherent (erase_found r).1) (sym (get_cache_entry-hit c address i found))
          (twice i (found-HasBlock i found))
  ]
    where
      same_page :
          (i : ℕ)
          → HasBlock c (touch c i) i address
          → some (replicate (touch c i).block_size 255) ≡ (entry (touch c i) i).page
      same_page i block =
          ap (λ n. some (replicate n 255)) block.same_size
          ∙ ap some (sym erased)
          ∙ sym block.page_is

      twice :
          (i : ℕ) → HasBlock c (touch c i) i address → IsCoherent (touch (blank (touch c i) i) i)
      twice i block =
          touch-IsCoherent (blank (touch c i) i) i
            (same_block-IsCoherent (touch c i) i _ (touch c i).operation_count block.coherent
              (rw (block.page_is, is_present) refl) (same_page i block) refl)
            (ap is_present (get_or-set_self (touch c i).entries i _ unused block.below))

module _ (nvm : Nvm) where
  -- `pin` brings the block into the cache and leaves it pinned there, in a coherent cache; memory
  -- is not written.
  pub pin_lem :
      (c : Cache) (address : ℕ)
      → IsCoherent c
      → address % c.block_size ≡ 0
      → let (r, d) = pin nvm c address in
        (r ≡ ok tt)
        × IsCoherent d
        × (d.flash ≡ c.flash)
        × ((i : ℕ) × ((entry d i).pinned ≡ true)
            × ((entry d i).address ≡ address)
            × ((entry d i).page ≡ some (bytes_at c.flash address c.block_size)))
  unfolding pin
  pin_lem c address coh aligned = (
    refl,
    flag-IsCoherent c d i address true block,
    block.same_flash,
    (
      i,
      ap (λ e. e.pinned) new,
      ap (λ e. e.address) new ∙ block.address_is,
      ap (λ e. e.page) new ∙ block.page_is,
    ),
  )
    where
      i : ℕ
      i = (cache_page nvm c address).0

      d : Cache
      d = (cache_page nvm c address).1

      block : HasBlock c d i address
      block = cache_page-HasBlock nvm c address coh aligned

      new :
          get_or (set d.entries i (record (entry d i) { pinned = true })) i unused
          ≡ record (entry d i) { pinned = true }
      new = get_or-set_self d.entries i _ unused block.below
