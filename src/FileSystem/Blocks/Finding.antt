-- ===== src/FileSystem/Blocks/Finding.antt =====
-- Which blocks and pages getFreeBlock and getFreePage choose.
use mathlib.Core.Path.{subst}
use native.Mathlib.Nat.{mod-eq_of_lt}
use codal_microbit_v.Base.{
  ℕ, zero, suc, ◌+◌, ◌-◌, ◌%◌, ◌^◌, ◌≤◌, ◌<◌, ◌≡◌, refl, sym, arith, Bool, true, false, ◌&&◌, ◌||◌,
  Option, none, some, ◌==◌, if◌then◌else◌, Bool-cases, inl, inr, ==→eq, ◌⊎◌,
}
use codal_microbit_v.Flash.{Chip}
use codal_microbit_v.FileSystem.{
  get_page, get_block, get_block_number, erase_page, FileSystem, unused, deleted,
  get_next_file_block,
}
use codal_microbit_v.FileSystem.Blocks.{
  find_free, page_state, find_page, blocks_per_page, get_free_block, get_free_page, page_found,
}

-- The search comes to an unused block that lies `d` blocks on, if the last one allocated does not
-- lie between.
find_free_reaches :
    (fuel d : ℕ) (fs : FileSystem) (block found : ℕ)
    → d < fuel
    → block + d < 2 ^ 16
    → (fs.last_block < block) ⊎ (block + d < fs.last_block)
    → get_next_file_block fs (block + d) ≡ unused
    → (b f : ℕ) × (find_free fuel fs block found ≡ (some b, f))
      × (block ≤ b)
      × (b ≤ block + d)
      × (get_next_file_block fs b ≡ unused)
unfolding find_free
find_free_reaches zero d fs block found enough small apart free = absurd (omega arith)
find_free_reaches (suc fuel) d fs block found enough small apart free =
    elim (Bool-cases (get_next_file_block fs block == unused)) [
      | inl here ↦
          rw (find_free, not_last, here)
            (block, found, refl, omega arith, omega arith, ==→eq _ unused here)
      | inr used ↦
          let ahead : 0 < d = away d refl used in
          let next : (block + 1) % 2 ^ 16 ≡ block + 1 = omega arith in
          let there : block + 1 + (d - 1) ≡ block + d = omega arith in
          let (b, f, e, low, high, is_free) =
            find_free_reaches fuel (d - 1) fs (block + 1)
              (if get_next_file_block fs block == deleted then block else found) (omega arith)
              (omega arith) (ground arith) (rw there free) in
          rw (find_free, not_last, used, next) (b, f, e, omega arith, omega arith, is_free)
    ]
  where
    not_last : (block == fs.last_block) ≡ false
    not_last = ground arith

    away : (k : ℕ) → k ≡ d → (get_next_file_block fs block == unused) ≡ false → 0 < d
    away zero e used =
        let same : block + 0 ≡ block = omega arith in
        let free' =
          subst (λ i. get_next_file_block fs i ≡ unused) same
            (subst (λ k. get_next_file_block fs (block + k) ≡ unused) (sym e) free) in
        absurd (ground arith)
    away (suc k) e used = omega arith

-- With an unused block between the last one allocated and the end, getFreeBlock takes an unused
-- block after the last one, at the latest that one, and writes nothing.
pub get_free_block_lem :
    (chip : Chip) (fs : FileSystem) (i : ℕ)
    → fs.last_block < i
    → i < fs.size
    → i < 2 ^ 16
    → get_next_file_block fs i ≡ unused
    → (b : ℕ) × (get_free_block chip fs ≡ (b, record fs { last_block = b }))
      × (fs.last_block < b)
      × (b ≤ i)
      × (get_next_file_block fs b ≡ unused)
unfolding get_free_block
get_free_block_lem chip fs i after inside small free =
    let start : (fs.last_block + 1) % fs.size ≡ fs.last_block + 1 = mod-eq_of_lt (omega arith) in
    let there : fs.last_block + 1 + (i - (fs.last_block + 1)) ≡ i = omega arith in
    let (b, f, e, low, high, is_free) =
      find_free_reaches (2 ^ 16) (i - (fs.last_block + 1)) fs (fs.last_block + 1) 0 (omega arith)
        (omega arith) (inl (omega arith)) (rw there free) in
    (b, simp (get_free_block, start, e), omega arith, omega arith, is_free)

pub IsVacant : FileSystem → ℕ → Type 0
IsVacant fs block =
    (get_next_file_block fs block == deleted || get_next_file_block fs block == unused) ≡ true

pub IsLive : FileSystem → ℕ → Type 0
IsLive fs block =
    (get_next_file_block fs block == deleted || get_next_file_block fs block == unused) ≡ false

-- What a walk over `n` blocks of a page shows: none is in use, or one is.
page_state-Shows :
    (n : ℕ) (fs : FileSystem) (block : ℕ) (d : Bool)
    → (((page_state n fs block d).0 ≡ true) × ((i : ℕ) → i < n → IsVacant fs (block + i)))
      ⊎ (((page_state n fs block d).0 ≡ false) × ((i : ℕ) × (i < n) × IsLive fs (block + i)))
unfolding page_state IsVacant IsLive
page_state-Shows zero fs block d = inl (refl, λ i lt. absurd (omega arith))
page_state-Shows (suc n) fs block d =
    elim (Bool-cases
      (get_next_file_block fs block == deleted || get_next_file_block fs block == unused)) [
        | inr live ↦ rw (page_state, live) (inr (refl, (0, omega arith, rw here live)))
        | inl vacant ↦
            elim (page_state-Shows n fs (block + 1)
              (d || get_next_file_block fs block == deleted)) [
                | inl (e, all) ↦ rw (page_state, vacant) (inl (e, each vacant all))
                | inr (e, (i, lt, live)) ↦
                    let next : block + suc i ≡ block + 1 + i = omega arith in
                    rw (page_state, vacant) (inr (e, (suc i, omega arith, rw next live)))
              ]
      ]
  where
    here : block + 0 ≡ block
    here = omega arith

    each :
        (get_next_file_block fs block == deleted || get_next_file_block fs block == unused) ≡ true
        → ((i : ℕ) → i < n → IsVacant fs (block + 1 + i))
        → (i : ℕ) → i < suc n
        → IsVacant fs (block + i)
    each vacant all zero lt = rw here vacant
    each vacant all (suc i) lt =
        let next : block + suc i ≡ block + 1 + i = omega arith in rw next (all i (omega arith))

module _ (chip : Chip) (fs : FileSystem) where
  -- A page that would be recycled has a block in use.
  pub HasLive : ℕ → Type 0
  HasLive page = (i : ℕ) × (i < blocks_per_page chip) × IsLive fs (page + i)

  pub AllVacant : ℕ → Type 0
  AllVacant page = (i : ℕ) → i < blocks_per_page chip → IsVacant fs (page + i)

  IsFound : Option ℕ × ℕ → Type 0
  IsFound (some page, recyclable) = AllVacant page
  IsFound (none, recyclable) = (recyclable ≡ 0) ⊎ HasLive recyclable

  find_page-IsFound :
      (fuel current page recyclable : ℕ)
      → (recyclable ≡ 0) ⊎ HasLive recyclable
      → IsFound (find_page chip fuel fs current page recyclable)
  unfolding find_page IsFound HasLive AllVacant
  find_page-IsFound zero current page recyclable h = h
  find_page-IsFound (suc fuel) current page recyclable h = elim (Bool-cases (page == current)) [
    | inl done ↦ rw (find_page, done) h
    | inr on ↦ elim (page_state-Shows (blocks_per_page chip) fs page false) [
      | inl (e, all) ↦ rw (find_page, on, e) all
      | inr (e, live) ↦
          rw (find_page, on, e)
            (find_page-IsFound fuel current ((page + blocks_per_page chip) % fs.size) _
              (noted live ((page_state (blocks_per_page chip) fs page false).1 && recyclable == 0)))
    ]
  ]
    where
      noted :
          HasLive page
          → (b : Bool)
          → ((if b then page else recyclable) ≡ 0) ⊎ HasLive (if b then page else recyclable)
      noted live true = inr live
      noted live false = h

  -- getFreePage gives a page of which no block is in use, and erases nothing; or it erases a page
  -- that has a block in use, or the default scratch page, and gives that.
  pub get_free_page_lem :
      let (address, after) = get_free_page chip fs in
      ((page : ℕ) × (address ≡ get_block fs page)
        × (after ≡ record fs { last_block = page })
        × AllVacant page)
      ⊎ (((page : ℕ) × (address ≡ get_block fs page)
            × (after ≡ erase_page chip fs address)
            × HasLive page)
          ⊎ ((address ≡ chip.default_scratch) × (after ≡ erase_page chip fs address)))
  unfolding get_free_page IsFound erase_page
  get_free_page_lem =
      chosen _ (
        find_page-IsFound fs.size current ((current + blocks_per_page chip) % fs.size) 0 (inl refl))
    where
      current : ℕ
      current = get_block_number fs (get_page chip fs fs.last_block)

      chosen :
          (r : Option ℕ × ℕ)
          → IsFound r
          → let (address, after) = page_found chip fs r in
            ((page : ℕ) × (address ≡ get_block fs page)
              × (after ≡ record fs { last_block = page })
              × AllVacant page)
            ⊎ (((page : ℕ) × (address ≡ get_block fs page)
                  × (after ≡ erase_page chip fs address)
                  × HasLive page)
                ⊎ ((address ≡ chip.default_scratch) × (after ≡ erase_page chip fs address)))
      chosen (some page, recyclable) all = inl (page, refl, refl, all)
      chosen (none, recyclable) h = elim (Bool-cases (recyclable == 0)) [
        | inl none_found ↦ rw none_found (inr (inr (refl, refl)))
        | inr found ↦ elim h [
          | inl e ↦ absurd (ground arith)
          | inr live ↦ rw found (inr (inl (recyclable, refl, refl, live)))
        ]
      ]
