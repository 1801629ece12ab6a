-- ===== src/FsCache/Coherence.antt =====
-- The cache against the memory behind it: what every operation keeps, and what cachePage makes
-- sure of.
use mathlib.Core.Option.{some-injective}
use codal_microbit_v.Base.{
  bytes_at, ℕ, zero, suc, ◌+◌, ◌*◌, ◌/◌, ◌%◌, ◌<◌, ◌≡◌, ◌≢◌, ◌⊎◌, refl, sym, ap, ◌∙◌, arith, Bool,
  true, false, ◌&&◌, none, some, List, [], ◌∷◌, length, get_or, set, ◌==◌, Bool-cases, Option-cases,
  inl, inr, ==→eq, length-set, get_or-set_self,
}
use codal_microbit_v.FsCache.{
  Nvm, CacheEntry, Cache, unused, entry, is_present, find_entry, touch, next_count, choose, victim,
  load, cache_page,
}

-- A used entry holds the block of memory at its address, which is the address of a block; no two
-- used entries hold the same block.
pub record IsCoherent (c : Cache) : Type 0 where
  pub some_entry : 0 < length c.entries
  pub block_pos : 0 < c.block_size
  pub block_words : c.block_size % 4 ≡ 0
  pub holds :
      (i : ℕ) (p : List ℕ)
      → (entry c i).page ≡ some p
      → p ≡ bytes_at c.flash (entry c i).address c.block_size
  pub at_block : (i : ℕ) → is_present (entry c i) ≡ true → (entry c i).address % c.block_size ≡ 0
  pub apart :
      (i j : ℕ)
      → is_present (entry c i) ≡ true
      → is_present (entry c j) ≡ true
      → (entry c i).address ≡ (entry c j).address
      → i ≡ j

-- After a store an element is the new one or what it was.
pub get_or-set {ℓ} :
    {A : Type ℓ} (xs : List A) (i j : ℕ) (v d : A)
    → ((get_or (set xs i v) j d ≡ v) × (i ≡ j)) ⊎ (get_or (set xs i v) j d ≡ get_or xs j d)
get_or-set [] i j v d = inr refl
get_or-set (x ∷ xs) zero zero v d = inl (refl, refl)
get_or-set (x ∷ xs) zero (suc j) v d = inr refl
get_or-set (x ∷ xs) (suc i) zero v d = inr refl
get_or-set (x ∷ xs) (suc i) (suc j) v d = elim (get_or-set xs i j v d) [
  | inl (new, same) ↦ inl (new, ap suc same)
  | inr old ↦ inr old
]

abbrev holds_block : ℕ → CacheEntry → Bool
holds_block address e = e.address == address && is_present e

-- What is found is in the array and holds the block.
find_entry-found :
    (es : List CacheEntry) (i address k : ℕ)
    → find_entry es i address ≡ some k
    → (d : ℕ) × (k ≡ i + d) × (d < length es) × (holds_block address (get_or es d unused) ≡ true)
unfolding find_entry
find_entry-found [] i address k h = ground arith
find_entry-found (e ∷ es) i address k h = elim (Bool-cases (holds_block address e)) [
  | inl y ↦ (0, (let h' = rw y at h in ground arith), omega arith, y)
  | inr n ↦
      let (d, at, lt, found) = find_entry-found es (i + 1) address k (rw n at h) in
      (suc d, omega arith, omega arith, found)
]

-- The entry that a search of the cache gives.
pub find_entry-hit :
    (c : Cache) (address i : ℕ)
    → find_entry c.entries 0 address ≡ some i
    → (i < length c.entries) × (is_present (entry c i) ≡ true) × ((entry c i).address ≡ address)
find_entry-hit c address i found =
    let (d, at, lt, hit) = find_entry-found c.entries 0 address i found in
    let is_d : d ≡ i = omega (arith, at) in
    let hit' = rw is_d at hit in (omega arith, ground arith, ==→eq _ _ (ground arith))

-- If nothing is found then no entry holds the block.
find_entry-none :
    (es : List CacheEntry) (i address k : ℕ)
    → find_entry es i address ≡ none
    → is_present (get_or es k unused) ≡ true
    → (get_or es k unused).address ≢ address
unfolding find_entry
find_entry-none [] i address k h present = ground arith
find_entry-none (e ∷ es) i address zero h present = λ same.
    elim (Bool-cases (holds_block address e)) [
      | inl y ↦ let h' = rw y at h in ground arith
      | inr n ↦ ground arith
    ]
find_entry-none (e ∷ es) i address (suc k) h present = elim (Bool-cases (holds_block address e)) [
  | inl y ↦ let h' = rw y at h in ground arith
  | inr n ↦ find_entry-none es (i + 1) address k (rw n at h) present
]

-- The loop that looks for a victim stays in the array.
choose_below :
    (count : ℕ) (es : List CacheEntry) (i lru oldest n : ℕ)
    → i + length es ≡ n
    → lru < n
    → choose count es i lru oldest < n
unfolding choose
choose_below count [] i lru oldest n e lt = lt
choose_below count (e ∷ es) i lru oldest n h lt = ground (
  arith,
  choose_below count es (i + 1) i e.last_used n (omega arith) (omega arith),
  choose_below count es (i + 1) lru oldest n (omega arith) lt,
)

-- The entries after a store at `i` are coherent, if the new one is, and no other holds its block.
pub store-IsCoherent :
    (c : Cache) (i : ℕ) (e : CacheEntry) (count : ℕ)
    → IsCoherent c
    → ((p : List ℕ) → e.page ≡ some p → p ≡ bytes_at c.flash e.address c.block_size)
    → e.address % c.block_size ≡ 0
    → ((j : ℕ) → is_present (entry c j) ≡ true → (entry c j).address ≡ e.address → i ≡ j)
    → IsCoherent (record c { entries = set c.entries i e; operation_count = count })
store-IsCoherent c i e count coh new aligned alone = record {
  some_entry = omega (arith, coh.some_entry, length-set c.entries i e);
  block_pos = coh.block_pos;
  block_words = coh.block_words;
  holds = holds_after;
  at_block = at_block_after;
  apart = apart_after;
}
  where
    after : ℕ → CacheEntry
    after j = get_or (set c.entries i e) j unused

    holds_after :
        (j : ℕ) (p : List ℕ)
        → (after j).page ≡ some p
        → p ≡ bytes_at c.flash (after j).address c.block_size
    holds_after j p h = elim (get_or-set c.entries i j e unused) [
      | inl (is_new, _) ↦ let h' = rw is_new at h in rw is_new (new p h')
      | inr is_old ↦ let h' = rw is_old at h in rw is_old (coh.holds j p h')
    ]

    at_block_after : (j : ℕ) → is_present (after j) ≡ true → (after j).address % c.block_size ≡ 0
    at_block_after j h = elim (get_or-set c.entries i j e unused) [
      | inl (is_new, _) ↦ rw is_new aligned
      | inr is_old ↦ let h' = rw is_old at h in rw is_old (coh.at_block j h')
    ]

    apart_after :
        (j k : ℕ)
        → is_present (after j) ≡ true
        → is_present (after k) ≡ true
        → (after j).address ≡ (after k).address
        → j ≡ k
    apart_after j k hj hk same = elim (get_or-set c.entries i j e unused) [
      | inl (new_j, is_j) ↦ elim (get_or-set c.entries i k e unused) [
        | inl (new_k, is_k) ↦ sym is_j ∙ is_k
        | inr old_k ↦
            sym is_j
            ∙ alone k (sym (ap is_present old_k) ∙ hk)
                (sym (ap (λ x. x.address) old_k) ∙ sym same ∙ ap (λ x. x.address) new_j)
      ]
      | inr old_j ↦ elim (get_or-set c.entries i k e unused) [
        | inl (new_k, is_k) ↦
            sym (
              alone j (sym (ap is_present old_j) ∙ hj)
                (sym (ap (λ x. x.address) old_j) ∙ same ∙ ap (λ x. x.address) new_k))
            ∙ is_k
        | inr old_k ↦
            coh.apart j k (sym (ap is_present old_j) ∙ hj) (sym (ap is_present old_k) ∙ hk)
              (sym (ap (λ x. x.address) old_j) ∙ same ∙ ap (λ x. x.address) old_k)
      ]
    ]

victim_below : (c : Cache) → IsCoherent c → victim c < length c.entries
unfolding victim
victim_below c coh =
    choose_below c.operation_count c.entries 0 0 _ (length c.entries) (omega arith) coh.some_entry

-- A used entry may change in anything but its block.
pub same_block-IsCoherent :
    (c : Cache) (i : ℕ) (e : CacheEntry) (count : ℕ)
    → IsCoherent c
    → is_present (entry c i) ≡ true
    → e.page ≡ (entry c i).page
    → e.address ≡ (entry c i).address
    → IsCoherent (record c { entries = set c.entries i e; operation_count = count })
same_block-IsCoherent c i e count coh present page address =
    store-IsCoherent c i e count coh (λ p h. rw address (coh.holds i p (sym page ∙ h)))
      (rw address (coh.at_block i present))
      (λ j hj same. coh.apart i j present hj (sym address ∙ sym same))

-- What cachePage promises: the entry of the index holds the block at the address.
pub record HasBlock (c d : Cache) (i address : ℕ) : Type 0 where
  pub coherent : IsCoherent d
  pub below : i < length d.entries
  pub page_is : (entry d i).page ≡ some (bytes_at c.flash address c.block_size)
  pub address_is : (entry d i).address ≡ address
  pub same_flash : d.flash ≡ c.flash
  pub same_size : d.block_size ≡ c.block_size

present_page : (e : CacheEntry) → is_present e ≡ true → (p : List ℕ) × (e.page ≡ some p)
present_page e h = elim (Option-cases e.page) [
  | inl n ↦ let h' = rw n at h in ground arith
  | inr found ↦ found
]

pub touch-HasBlock :
    (c : Cache) (i address : ℕ)
    → IsCoherent c
    → i < length c.entries
    → is_present (entry c i) ≡ true
    → (entry c i).address ≡ address
    → HasBlock c (touch c i) i address
unfolding touch
touch-HasBlock c i address coh lt present at = record {
  coherent = same_block-IsCoherent c i _ (next_count c) coh present refl refl;
  below = omega (arith, length-set c.entries i (record (entry c i) { last_used = next_count c }));
  page_is =
      let (p, is_p) = present_page (entry c i) present in
      ap (λ x. x.page) new
      ∙ is_p
      ∙ ap some (coh.holds i p is_p ∙ ap (λ a. bytes_at c.flash a c.block_size) at);
  address_is = ap (λ x. x.address) new ∙ at;
  same_flash = refl;
  same_size = refl;
}
  where
    new : entry (touch c i) i ≡ record (entry c i) { last_used = next_count c }
    new = get_or-set_self c.entries i _ unused lt

module _ (nvm : Nvm) where
  load-HasBlock :
      (c : Cache) (address : ℕ)
      → IsCoherent c
      → address % c.block_size ≡ 0
      → find_entry c.entries 0 address ≡ none
      → HasBlock c (load nvm c address).1 (load nvm c address).0 address
  unfolding load
  load-HasBlock c address coh aligned missing = record {
    coherent =
        store-IsCoherent c (victim c) loaded (next_count c) coh
          (λ p h. sym (some-injective _ _ h) ∙ contents) aligned
          (λ j hj same. absurd (find_entry-none c.entries 0 address j missing hj same));
    below = omega (arith, length-set c.entries (victim c) loaded, victim_below c coh);
    page_is = ap (λ x. x.page) new ∙ ap some contents;
    address_is = ap (λ x. x.address) new;
    same_flash = refl;
    same_size = refl;
  }
    where
      loaded : CacheEntry
      loaded = record {
        address = address;
        last_used = next_count c;
        pinned = false;
        page = some (nvm.read c.flash address (c.block_size / 4));
      }

      new : get_or (set c.entries (victim c) loaded) (victim c) unused ≡ loaded
      new = get_or-set_self c.entries (victim c) loaded unused (victim_below c coh)

      contents : nvm.read c.flash address (c.block_size / 4) ≡ bytes_at c.flash address c.block_size
      contents =
          let whole : c.block_size / 4 * 4 ≡ c.block_size = omega (arith, coh.block_words) in
          nvm.read_bytes c.flash address (c.block_size / 4) ∙ ap (bytes_at c.flash address) whole

  -- `cachePage` on a coherent cache gives the index of an entry that holds the block, be it a hit,
  -- an unused entry or one replaced; the cache stays coherent and memory is not written.
  pub cache_page-HasBlock :
      (c : Cache) (address : ℕ)
      → IsCoherent c
      → address % c.block_size ≡ 0
      → HasBlock c (cache_page nvm c address).1 (cache_page nvm c address).0 address
  unfolding cache_page
  cache_page-HasBlock c address coh aligned = elim (Option-cases (find_entry c.entries 0 address)) [
    | inl missing ↦ rw (missing, cache_page) (load-HasBlock c address coh aligned missing)
    | inr (i, found) ↦
        let (lt, present, at) = find_entry-hit c address i found in
        rw (found, cache_page) (touch-HasBlock c i address coh lt present at)
  ]
