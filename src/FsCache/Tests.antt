-- ===== src/FsCache/Tests.antt =====
-- The cache on concrete inputs.
use codal_microbit_v.Base.{
  Memory, bytes_at, stored, ℕ, zero, suc, ◌+◌, ◌-◌, ◌*◌, ◌≤◌, ◌<◌, ◌≡◌, ◌⊎◌, refl, arith, true,
  false, ◌&&◌, some, [], ◌∷◌, length, get_or, ltb, leb, if◌then◌else◌, ok,
}
use codal_microbit_v.FsCache.{
  Nvm, Cache, entry, is_present, init, choose, victim, find_entry, touch, load, cache_page, pin,
}
use codal_microbit_v.FsCache.Coherence.{IsCoherent, HasBlock, cache_page-HasBlock}
use codal_microbit_v.FsCache.Replacement.{victim_least}
use codal_microbit_v.FsCache.Upkeep.{init-IsCoherent}
use codal_microbit_v.FsCache.Access.{is_legal, read, write}
use codal_microbit_v.FsCache.Access.Reading.{read_lem}
use codal_microbit_v.FsCache.Access.Writing.{write_lem}

-- 64 bytes of memory from 0 on, where every write stores what it is given.
abbrev pub nvm : Nvm
nvm = record {
  flash_start = 0;
  flash_end = 64;
  read = λ m a words. bytes_at m a (words * 4);
  write =
      λ m a bytes x. if leb a x && ltb x (a + length bytes) then get_or bytes (x - a) 0 else m x;
  read_bytes = λ m a words. refl;
  write_bytes = λ m a x bytes legal. refl;
}

abbrev blank_memory : Memory
blank_memory a = 255

-- Every byte holds its address.
abbrev memory : Memory
memory a = if ltb a 64 then a else 255

abbrev pub cache : Memory → Cache
cache m = init m 8 2

pub cache-IsCoherent : (m : Memory) → IsCoherent (cache m)
cache-IsCoherent m = init-IsCoherent m 8 2 (omega arith) (omega arith) (omega arith)

given : (k : ℕ) → get_or (1 ∷ 2 ∷ 3 ∷ []) k 0 < 256
given zero = omega arith
given (suc zero) = omega arith
given (suc (suc zero)) = omega arith
given (suc (suc (suc k))) = omega arith

-- The entry of a block that was pinned is replaced, although another is not pinned.
pinned_replaced :
    let pinned = (pin nvm (cache memory) 0).1 in
    let full = (cache_page nvm pinned 8).1 in
    let (i, c) = cache_page nvm full 16 in
    ((entry full 0).pinned ≡ true)
    × ((entry full 1).pinned ≡ false)
    × (i ≡ 0)
    × ((entry c 0).pinned ≡ false)
    × ((entry c 0).address ≡ 16)
unfolding pin cache_page load victim choose find_entry touch init
pinned_replaced = (refl, refl, refl, refl, refl)

-- Over a block's end.
read_lem_example :
    let (r, d) = read nvm (cache memory) 6 4 in
    (r ≡ ok (6 ∷ 7 ∷ 8 ∷ 9 ∷ [])) × IsCoherent d × (d.flash ≡ memory)
unfolding init
read_lem_example = read_lem nvm (cache memory) 6 4 (cache-IsCoherent memory) (omega arith)

write_lem_example :
    let (r, d) = write nvm (cache blank_memory) 6 (1 ∷ 2 ∷ 3 ∷ []) in
    (r ≡ ok tt) × ((x : ℕ) → d.flash x ≡ stored blank_memory 6 (1 ∷ 2 ∷ 3 ∷ []) x) × IsCoherent d
unfolding init is_legal
write_lem_example =
    write_lem nvm (cache blank_memory) 6 (1 ∷ 2 ∷ 3 ∷ []) (cache-IsCoherent blank_memory)
      (omega arith) (λ x. omega arith) given

cache_page-HasBlock_example :
    let (i, d) = cache_page nvm (cache memory) 8 in HasBlock (cache memory) d i 8
unfolding init
cache_page-HasBlock_example =
    cache_page-HasBlock nvm (cache memory) 8 (cache-IsCoherent memory) refl

-- Two used entries, of which the first is pinned.
abbrev full : Cache
full = record {
  entries =
      record { address = 0; last_used = 9; pinned = true; page = some (bytes_at memory 0 4) }
      ∷ record { address = 8; last_used = 4; pinned = false; page = some (bytes_at memory 8 4) }
      ∷ record { address = 4; last_used = 7; pinned = false; page = some (bytes_at memory 4 4) }
      ∷ [];
  block_size = 4;
  operation_count = 9;
  flash = memory;
}

full_used : (j : ℕ) → j < 3 → is_present (entry full j) ≡ true
full_used zero lt = refl
full_used (suc zero) lt = refl
full_used (suc (suc zero)) lt = refl
full_used (suc (suc (suc j))) lt = absurd (omega arith)

victim_least_example :
    ((victim full ≡ 0) ⊎ ((entry full (victim full)).pinned ≡ false))
    × ((j : ℕ)
        → j < 3
        → (entry full j).pinned ≡ false
        → (entry full (victim full)).last_used ≤ (entry full j).last_used)
victim_least_example = victim_least full full_used
