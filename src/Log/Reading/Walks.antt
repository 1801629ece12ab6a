-- ===== src/Log/Reading/Walks.antt =====
-- The walks of getRow over a coherent cache are walks over the memory.
use codal_microbit_v.Base.{
  Memory, bytes_at, ℕ, zero, suc, ◌+◌, ◌-◌, ◌^◌, ◌≤◌, ◌<◌, ◌≡◌, refl, ap, ◌∙◌, arith, true, false,
  not, ◌&&◌, ◌||◌, Option, none, some, List, [], ◌∷◌, length, get_or, ltb, ◌==◌, if◌then◌else◌,
  Bool-cases, inl, inr, Result, ok,
}
use codal_microbit_v.FsCache
use codal_microbit_v.FsCache.Coherence.{IsCoherent}
use codal_microbit_v.FsCache.Access
use codal_microbit_v.FsCache.Access.Reading.{read_lem}
use codal_microbit_v.Log.{Board, fetched, fetch}
use codal_microbit_v.Log.Loading.{fetch_byte}
use codal_microbit_v.Log.Reading.{is_newline, is_found, walk_forward, walk_backward}

-- `walk_forward` over `n` bytes of the memory, none of which is unused.
unfoldable pub forward_in : Memory → ℕ → ℕ → ℕ → ℕ → Option ℕ → Option ℕ × ℕ
forward_in m zero address index count start = (start, address)
forward_in m (suc n) address index count start =
    let newline = is_newline (m address) in
    let seen = if newline then count + 1 else count in
    let opens = newline && (not (is_found start) && seen == index) in
    let next =
      forward_in m n (address + 1) index seen (if opens then some (address + 1) else start) in
    if newline && (is_found start && seen == index + 1) then (start, address) else next

-- `walk_backward` over the `n` bytes before an address.
unfoldable pub backward_in : Memory → ℕ → ℕ → ℕ → ℕ → ℕ → Option ℕ × ℕ
backward_in m zero address back count end = (none, end)
backward_in m (suc n) address back count end =
    let newline = is_newline (m (address - 1)) in
    let next =
      backward_in m n (address - 1) back (if newline then count + 1 else count)
        (if newline then address - 1 else end) in
    if newline && count == back then (some address, end) else next

-- A result, and a cache that is coherent with the memory.
pub record IsFrom {ℓ} {A : Type ℓ} (m : Memory) (a : A) (r : A × FsCache.Cache) : Type ℓ where
  pub result : r.0 ≡ a
  pub coherent : IsCoherent r.1
  pub same_flash : r.1.flash ≡ m

module _ (board : Board) (m : Memory) where
  open board use {nvm}

  module _ (c : FsCache.Cache) (coherent : IsCoherent c) (same : c.flash ≡ m) where
    pub fetch-IsFrom :
        (address : ℕ) (old : List ℕ)
        → nvm.flash_start ≤ address
        → address + length old ≤ nvm.flash_end
        → nvm.flash_end < 2 ^ 32
        → IsFrom m (bytes_at m address (length old)) (fetch board c address old)
    unfolding fetched
    fetch-IsFrom address old lower upper small =
        let got = read_lem nvm c address (length old) coherent (omega arith) in
        let inside : (ltb address nvm.flash_start || ltb nvm.flash_end (address + length old))
            ≡ false =
          ground arith in
        let is : (Access.read nvm c address (length old)).0 ≡ ok (bytes_at m address (length old)) =
          got.0 ∙ (rw inside refl) ∙ ap (λ f. ok (bytes_at f address (length old))) same in
        let all =
          ap
            (λ (x : Result (List ℕ)).
              fetched board old (x, (Access.read nvm c address (length old)).1))
            is in
        rw all (record { result = refl; coherent = got.1; same_flash = got.2 ∙ same })

    pub fetch_byte-IsFrom :
        (address old : ℕ)
        → nvm.flash_start ≤ address
        → address < nvm.flash_end
        → nvm.flash_end < 2 ^ 32
        → IsFrom m (m address) (fetch_byte board c address old)
    unfolding fetch_byte
    fetch_byte-IsFrom address old lower upper small =
        let f = fetch-IsFrom address (old ∷ []) lower (omega arith) small in
        record {
          result = ap (λ b. get_or b 0 0) f.result;
          coherent = f.coherent;
          same_flash = f.same_flash;
        }

  pub walk_forward-IsFrom :
      (n : ℕ) (c : FsCache.Cache) (old address last index count : ℕ) (start : Option ℕ)
      → IsCoherent c
      → c.flash ≡ m
      → nvm.flash_start ≤ address
      → last ≡ address + n
      → last ≤ nvm.flash_end
      → nvm.flash_end < 2 ^ 32
      → (old == 0xFF) ≡ false
      → ((d : ℕ) → d < n → (m (address + d) == 0xFF) ≡ false)
      → IsFrom m
          (forward_in m n address index count start)
          (walk_forward board n c old address last index count start)
  unfolding walk_forward forward_in
  walk_forward-IsFrom zero c old a last index count start coh same lower is upper small used text =
      record { result = ap (λ i. (start, i)) (omega arith); coherent = coh; same_flash = same }
  walk_forward-IsFrom (suc n) c old a last index count start coh same lower is upper small used
        text =
      let f = fetch_byte-IsFrom c coh same a old lower (omega arith) small in
      let on : (not (old == 0xFF) && ltb a last) ≡ true = ground arith in
      let here : (m a == 0xFF) ≡ false =
        ap (λ x. m x == 0xFF) (omega arith) ∙ text 0 (omega arith) in
      let newline = is_newline (m a) in
      let seen : ℕ = if newline then count + 1 else count in
      let opens = newline && (not (is_found start) && seen == index) in
      let rest =
        walk_forward-IsFrom n (fetch_byte board c a old).1 (m a) (a + 1) last index seen
          (if opens then some (a + 1) else start) f.coherent f.same_flash (omega arith)
          (omega arith) upper small here
          (λ d lt. ap (λ x. m x == 0xFF) (omega arith) ∙ text (suc d) (omega arith)) in
      rw (on, walk_forward, f.result)
        (elim (Bool-cases (newline && (is_found start && seen == index + 1))) [
          | inl y ↦
              rw y (record { result = refl; coherent = f.coherent; same_flash = f.same_flash })
          | inr n' ↦ rw n' rest
        ])

  pub walk_backward-IsFrom :
      (n : ℕ) (c : FsCache.Cache) (old address first back count end : ℕ)
      → IsCoherent c
      → c.flash ≡ m
      → nvm.flash_start ≤ first
      → address ≡ first + n
      → address ≤ nvm.flash_end
      → nvm.flash_end < 2 ^ 32
      → IsFrom m
          (backward_in m n address back count end)
          (walk_backward board n c old address first back count end)
  unfolding walk_backward backward_in
  walk_backward-IsFrom zero c old a first back count end coh same lower is upper small = record {
    result = refl;
    coherent = coh;
    same_flash = same;
  }
  walk_backward-IsFrom (suc n) c old a first back count end coh same lower is upper small =
      let f = fetch_byte-IsFrom c coh same (a - 1) old (omega arith) (omega arith) small in
      let on : ltb first a ≡ true = ground arith in
      let newline = is_newline (m (a - 1)) in
      let rest =
        walk_backward-IsFrom n (fetch_byte board c (a - 1) old).1 (m (a - 1)) (a - 1) first back
          (if newline then count + 1 else count) (if newline then a - 1 else end) f.coherent
          f.same_flash lower (omega arith) (omega arith) small in
      rw (on, walk_backward, f.result)
        (elim (Bool-cases (newline && count == back)) [
          | inl y ↦
              rw y (record { result = refl; coherent = f.coherent; same_flash = f.same_flash })
          | inr n' ↦ rw n' rest
        ])
