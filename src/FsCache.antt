-- ===== src/FsCache.antt =====
-- inc/FSCache.h and source/FSCache.cpp: a write-through cache of the blocks of a non-volatile
-- memory, which replaces the block least recently used.
pub mod Coherence
pub mod Replacement
pub mod Upkeep
pub mod Access
pub mod Tests
use Prim.Native.Nat.{bit_and, bit_xor}
use codal_microbit_v.Base.{
  Memory, bytes_at, ℕ, zero, suc, ◌+◌, ◌-◌, ◌*◌, ◌/◌, ◌%◌, ◌^◌, ◌≤◌, ◌<◌, ◌≡◌, Bool, true, false,
  not, ◌&&◌, ◌||◌, Option, none, some, List, [], ◌∷◌, ◌++◌, min, length, get_or, set, take, drop,
  replicate, ltb, leb, ◌==◌, if◌then◌else◌, Result, ok, err, invalid_parameter, not_supported,
}

-- The interface `NVMController` of the core library: `read` and `write` move whole words, here
-- given as their bytes. A write stores its data if it sets no bit that is clear in memory.
pub record Nvm : Type 0 where
  pub flash_start : ℕ
  pub flash_end : ℕ
  pub read : Memory → ℕ → ℕ → List ℕ
  pub write : Memory → ℕ → List ℕ → Memory
  pub read_bytes : (m : Memory) (a words : ℕ) → read m a words ≡ bytes_at m a (words * 4)
  pub write_bytes :
      (m : Memory) (a x : ℕ) (bytes : List ℕ)
      → ((d : ℕ)
          → d < length bytes
          → bit_and (bit_xor (m (a + d)) (get_or bytes d 0)) (get_or bytes d 0) ≡ 0)
      → write m a bytes x
        ≡ (if leb a x && ltb x (a + length bytes) then get_or bytes (x - a) 0 else m x)

-- `page` is NULL in an unused entry. `FSCACHE_FLAG_PINNED` is the only flag.
pub record CacheEntry : Type 0 where
  pub address : ℕ
  pub last_used : ℕ
  pub pinned : Bool
  pub page : Option (List ℕ)

-- The cache and the memory behind it.
pub record Cache : Type 0 where
  pub entries : List CacheEntry
  pub block_size : ℕ
  pub operation_count : ℕ
  pub flash : Memory

abbrev pub unused : CacheEntry
unused = record { address = 0; last_used = 0; pinned = false; page = none }

abbrev pub entry : Cache → ℕ → CacheEntry
entry c i = get_or c.entries i unused

-- The constructor, over memory `flash`.
unfoldable pub init : Memory → ℕ → ℕ → Cache
init flash block_size size = record {
  entries = replicate size unused;
  block_size = block_size;
  operation_count = 0;
  flash = flash;
}

pub clear : Cache → Cache
clear c = record c { entries = replicate (length c.entries) unused; operation_count = 0 }

-- `++operationCount`, a `uint16_t`.
abbrev pub next_count : Cache → ℕ
next_count c = (c.operation_count + 1) % 2 ^ 16

abbrev pub is_present : CacheEntry → Bool
is_present e = elim e.page [ none ↦ false | some p ↦ true ]

-- The index of the first entry that holds the block.
pub find_entry : List CacheEntry → ℕ → ℕ → Option ℕ
find_entry [] i address = none
find_entry (e ∷ es) i address =
    if e.address == address && is_present e then some i else find_entry es (i + 1) address

-- The entry is marked as used now.
pub touch : Cache → ℕ → Cache
touch c i = record c {
  entries = set c.entries i (record (entry c i) { last_used = next_count c });
  operation_count = next_count c;
}

pub get_cache_entry : Cache → ℕ → Option ℕ × Cache
unfolding find_entry touch
get_cache_entry c address = elim (find_entry c.entries 0 address) [
  | none ↦ (none, c)
  | some i ↦ (some i, touch c i)
]

-- `operationCount - used > operationCount - oldest`, where the operands are promoted to `int` and
-- so the differences do not wrap: both sides are moved to where they are not negative.
abbrev pub is_older : ℕ → ℕ → ℕ → Bool
is_older count used oldest = ltb (count + used) (count + oldest)

-- The loop of `cachePage` over the entries from index `i` on; `lru` is the best entry so far.
pub choose : ℕ → List CacheEntry → ℕ → ℕ → ℕ → ℕ
choose count [] i lru oldest = lru
choose count (e ∷ es) i lru oldest = elim (not (is_present e)) [
  | true ↦ i
  | false ↦ elim (not e.pinned && is_older count e.last_used oldest) [
    | true ↦ choose count es (i + 1) i e.last_used
    | false ↦ choose count es (i + 1) lru oldest
  ]
]

pub victim : Cache → ℕ
unfolding choose
victim c = choose c.operation_count c.entries 0 0 (entry c 0).last_used

module _ (nvm : Nvm) where
  -- A block is loaded in place of the entry chosen. Allocation of the page succeeds.
  pub load : Cache → ℕ → ℕ × Cache
  unfolding victim
  load c address = (
    victim c,
    record c {
      entries = set c.entries (victim c) (record {
        address = address;
        last_used = next_count c;
        pinned = false;
        page = some (nvm.read c.flash address (c.block_size / 4));
      });
      operation_count = next_count c;
    },
  )

  pub cache_page : Cache → ℕ → ℕ × Cache
  unfolding load touch find_entry
  cache_page c address = elim (find_entry c.entries 0 address) [
    | some i ↦ (i, touch c i)
    | none ↦ load c address
  ]

  -- `cachePage` never returns NULL, so the last return of `pin` is not reached.
  pub pin : Cache → ℕ → Result (Unit {0}) × Cache
  unfolding cache_page
  pin c address =
      let (i, d) = cache_page c address in
      (ok tt, record d { entries = set d.entries i (record (entry d i) { pinned = true }) })

abbrev pub unpin_found : Option ℕ × Cache → Result (Unit {0}) × Cache
unpin_found (none, c) = (ok tt, c)
unpin_found (some i, c) =
    (ok tt, record c { entries = set c.entries i (record (entry c i) { pinned = false }) })

pub unpin : Cache → ℕ → Result (Unit {0}) × Cache
unfolding get_cache_entry
unpin c address = unpin_found (get_cache_entry c address)

-- The page of entry `i` blank in the cache.
abbrev pub blank : Cache → ℕ → Cache
blank c i = record c {
  entries = set c.entries i (record (entry c i) { page = some (replicate c.block_size 255) });
}

pub erase_found : Option ℕ × Cache → Result (Unit {0}) × Cache
unfolding touch
erase_found (none, c) = (ok tt, c)
erase_found (some i, c) = (ok tt, touch (blank c i) i)

-- The block in the cache only.
pub erase : Cache → ℕ → Result (Unit {0}) × Cache
unfolding get_cache_entry erase_found
erase c address = erase_found (get_cache_entry c address)
