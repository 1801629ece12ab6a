-- ===== src/FsCache/Replacement.antt =====
-- The entry that cachePage replaces.
use codal_microbit_v.Base.{
  ℕ, zero, suc, ◌+◌, ◌≤◌, ◌<◌, ◌≡◌, ◌⊎◌, refl, ◌∙◌, arith, true, false, not, ◌&&◌, List, [], ◌∷◌,
  length, get_or, Bool-cases, inl, inr,
}
use codal_microbit_v.FsCache.{
  CacheEntry, Cache, unused, entry, is_present, is_older, choose, victim,
}

choose-unused :
    (count : ℕ) (es : List CacheEntry) (i lru oldest k : ℕ)
    → k < length es
    → is_present (get_or es k unused) ≡ false
    → ((j : ℕ) → j < k → is_present (get_or es j unused) ≡ true)
    → choose count es i lru oldest ≡ i + k
unfolding choose
choose-unused count [] i lru oldest k lt empty before = absurd (omega arith)
choose-unused count (e ∷ es) i lru oldest zero lt empty before = rw (empty, choose) (omega arith)
choose-unused count (e ∷ es) i lru oldest (suc k) lt empty before =
    let here = before 0 (omega arith) in
    let next : (lru oldest : ℕ) → choose count es (i + 1) lru oldest ≡ i + 1 + k = λ lru oldest.
      choose-unused count es (i + 1) lru oldest k (omega arith) empty
        (λ j h. before (suc j) (omega arith)) in
    elim (Bool-cases (not e.pinned && is_older count e.last_used oldest)) [
      | inl y ↦ rw (here, y, choose) (next i e.last_used ∙ omega arith)
      | inr n ↦ rw (here, n, choose) (next lru oldest ∙ omega arith)
    ]

-- An unused entry is taken where there is one: the first.
pub victim_unused :
    (c : Cache) (k : ℕ)
    → k < length c.entries
    → is_present (entry c k) ≡ false
    → ((j : ℕ) → j < k → is_present (entry c j) ≡ true)
    → victim c ≡ k
unfolding victim
victim_unused c k lt empty before =
    choose-unused c.operation_count c.entries 0 0 (entry c 0).last_used k lt empty before
    ∙ omega arith

-- No unpinned entry of the array was used before `count`.
abbrev IsLeast : ℕ → List CacheEntry → Type 0
IsLeast used es =
    (j : ℕ)
    → j < length es
    → (get_or es j unused).pinned ≡ false
    → used ≤ (get_or es j unused).last_used

choose-IsLeast :
    (count : ℕ) (es : List CacheEntry) (i lru oldest : ℕ)
    → ((j : ℕ) → j < length es → is_present (get_or es j unused) ≡ true)
    → ((choose count es i lru oldest ≡ lru) × IsLeast oldest es)
      ⊎ ((k : ℕ) × (choose count es i lru oldest ≡ i + k)
          × (k < length es)
          × ((get_or es k unused).pinned ≡ false)
          × ((get_or es k unused).last_used < oldest)
          × IsLeast (get_or es k unused).last_used es)
unfolding choose
choose-IsLeast count [] i lru oldest present = inl (refl, λ j lt. absurd (omega arith))
choose-IsLeast count (e ∷ es) i lru oldest present =
    let here = present 0 (omega arith) in
    let later : (j : ℕ) → j < length es → is_present (get_or es j unused) ≡ true =
      λ j h. present (suc j) (omega arith) in
    elim (Bool-cases (not e.pinned && is_older count e.last_used oldest)) [
      | inl y ↦
          rw (here, y, choose)
            (elim (choose-IsLeast count es (i + 1) i e.last_used later) [
              | inl (kept, least) ↦ inr (
                0,
                kept ∙ omega arith,
                omega arith,
                ground arith,
                ground arith,
                with_first e es e.last_used (λ _. omega arith) least,
              )
              | inr (k, at, lt, free, older, least) ↦ inr (
                suc k,
                at ∙ omega arith,
                omega arith,
                free,
                ground arith,
                with_first e es _ (λ _. omega arith) least,
              )
            ])
      | inr n ↦
          rw (here, n, choose)
            (elim (choose-IsLeast count es (i + 1) lru oldest later) [
              | inl (kept, least) ↦ inl (kept, with_first e es oldest (λ free. ground arith) least)
              | inr (k, at, lt, free, older, least) ↦ inr (
                suc k,
                at ∙ omega arith,
                omega arith,
                free,
                older,
                with_first e es _ (λ free. ground arith) least,
              )
            ])
    ]
  where
    with_first :
        (e : CacheEntry) (es : List CacheEntry) (used : ℕ)
        → (e.pinned ≡ false → used ≤ e.last_used)
        → IsLeast used es
        → IsLeast used (e ∷ es)
    with_first e es used first rest zero lt free = first free
    with_first e es used first rest (suc j) lt free = rest j (omega arith) free

-- When every entry is used, the one replaced is the first, or one that is not pinned. No entry that
-- is not pinned has a smaller time of last use.
pub victim_least :
    (c : Cache)
    → ((j : ℕ) → j < length c.entries → is_present (entry c j) ≡ true)
    → ((victim c ≡ 0) ⊎ ((entry c (victim c)).pinned ≡ false))
      × ((j : ℕ)
          → j < length c.entries
          → (entry c j).pinned ≡ false
          → (entry c (victim c)).last_used ≤ (entry c j).last_used)
unfolding victim
victim_least c present =
    elim (choose-IsLeast c.operation_count c.entries 0 0 (entry c 0).last_used present) [
      | inl (first, least) ↦ rw (first, victim) (inl refl, least)
      | inr (k, at, lt, free, older, least) ↦
          let is_k = at ∙ (let e : 0 + k ≡ k = omega arith in e) in
          rw (is_k, victim) (inr free, least)
    ]
