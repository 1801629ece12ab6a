-- ===== src/FsCache/Access/Writing.antt =====
-- write as a whole: all of the bytes reach memory, or none.
use mathlib.Core.Path.{subst}
use codal_microbit_v.Base.{
  bytes_at, stored, stored-append, ℕ, zero, suc, ◌+◌, ◌-◌, ◌*◌, ◌/◌, ◌%◌, ◌^◌, ◌≤◌, ◌<◌, ◌≡◌, refl,
  sym, ap, ap₂, ◌∙◌, arith, true, not, ◌&&◌, ◌||◌, some, List, [], ◌∷◌, length, get_or, take, drop,
  ltb, if◌then◌else◌, Bool-cases, inl, inr, length-take, get_or-take, get_or-drop, length-drop,
  take-append-drop, ok, err, invalid_parameter, not_supported,
}
use codal_microbit_v.FsCache.{Nvm, Cache}
use codal_microbit_v.FsCache.Coherence.{IsCoherent, HasBlock}
use codal_microbit_v.FsCache.Access.{
  block_of, part, write_part, validate, write_loop, out_of_range, write,
}
use codal_microbit_v.FsCache.Access.Reading.{part-HasBlock, part_fits}
use codal_microbit_v.FsCache.Access.Legal.{
  can_store, can_store-split, part_pos, IsValidated, validate-IsValidated,
}
use codal_microbit_v.FsCache.Access.Stored.{can_store_apart}
use codal_microbit_v.FsCache.Access.Through.{write_part-flash, write_part-IsCoherent}

-- The entry in terms of the cache that it stands in.
HasBlock-self : (c d : Cache) (i address : ℕ) → HasBlock c d i address → HasBlock d d i address
HasBlock-self c d i address block = record {
  coherent = block.coherent;
  below = block.below;
  page_is =
      block.page_is
      ∙ ap₂ (λ m n. some (bytes_at m address n)) (sym block.same_flash) (sym block.same_size);
  address_is = block.address_is;
  same_flash = refl;
  same_size = refl;
}

module _ (nvm : Nvm) where
  record IsWritten (c : Cache) (a : ℕ) (bytes : List ℕ) (after : Cache) : Type 0 where
    flash_is : (x : ℕ) → after.flash x ≡ stored c.flash a bytes x
    coherent : IsCoherent after

  nothing_left : (c : Cache) (a : ℕ) → IsCoherent c → IsWritten c a [] c
  nothing_left c a coh = record { flash_is = λ x. ground arith; coherent = coh }

  -- A round of the loop on the bytes given, with the entry that cachePage found.
  module _ (c d : Cache) (i a : ℕ) (bytes : List ℕ) (coh : IsCoherent c)
      (block : HasBlock c d i (block_of c a)) (low : a + length bytes + 4 ≤ 2 ^ 32)
      (small : (x : ℕ) → c.flash x < 256) (given : (k : ℕ) → get_or bytes k 0 < 256)
      (legal : can_store c.flash a bytes ≡ true) where
    abbrev l : ℕ
    l = part c a (length bytes)

    abbrev next : ℕ
    next = (a + l) % 2 ^ 32

    abbrev e : Cache
    e = write_part nvm d i a (take l bytes)

    own : HasBlock d d i (block_of d a)
    own =
        subst (λ n. HasBlock d d i (a / n * n)) (sym block.same_size) (HasBlock-self c d i _ block)

    taken : length (take l bytes) ≡ l
    taken = omega (arith, length-take l bytes)

    fits : a % d.block_size + length (take l bytes) ≤ d.block_size
    fits =
        subst (λ n. a % n + length (take l bytes) ≤ n) (sym block.same_size)
          (omega (arith, taken, part_fits nvm c a (length bytes) coh))

    split : (can_store c.flash a (take l bytes) && can_store c.flash (a + l) (drop l bytes)) ≡ true
    split = sym (can_store-split c.flash a l bytes (omega arith)) ∙ legal

    legal_now : can_store d.flash a (take l bytes) ≡ true
    legal_now = ap (λ m. can_store m a (take l bytes)) block.same_flash ∙ ground (arith, split)

    small_d : (x : ℕ) → d.flash x < 256
    small_d = subst (λ m. (x : ℕ) → m x < 256) (sym block.same_flash) small

    flash_e : e.flash ≡ stored c.flash a (take l bytes)
    flash_e =
        (λ k x.
          write_part-flash nvm d i a (take l bytes) block.coherent own fits (omega (arith, taken))
            small_d legal_now x k)
        ∙ ap (λ m. stored m a (take l bytes)) block.same_flash

    IsCoherent-e : IsCoherent e
    IsCoherent-e =
        write_part-IsCoherent nvm d i a (take l bytes) block.coherent own fits
          (omega (arith, taken)) small_d legal_now

    small_taken : (k : ℕ) → get_or (take l bytes) k 0 < 256
    small_taken k = elim (get_or-take l bytes k 0) [
      | inl same ↦ omega (arith, same, given k)
      | inr default ↦ omega (arith, default)
    ]

    small_e : (x : ℕ) → e.flash x < 256
    small_e =
        subst (λ m. (x : ℕ) → m x < 256) (sym flash_e)
          (λ x. ground (arith, small x, small_taken (x - a)))

    legal_next : can_store e.flash next (drop l bytes) ≡ true
    legal_next =
        ap₂ (λ m x. can_store m x (drop l bytes)) flash_e (omega arith)
        ∙ can_store_apart c.flash a (a + l) (take l bytes) (drop l bytes) (omega (arith, taken))
        ∙ ground (arith, split)

    finish : (r : Cache) → IsWritten e next (drop l bytes) r → IsWritten c a bytes r
    finish r rest = record {
      flash_is = λ x.
          rest.flash_is x
          ∙ ap₂ (λ m y. stored m y (drop l bytes) x) flash_e (omega (arith, taken))
          ∙ stored-append c.flash a (take l bytes) (drop l bytes) x
          ∙ ap (λ bs. stored c.flash a bs x) (take-append-drop l bytes);
      coherent = rest.coherent;
    }

  -- The loop with fuel for every byte.
  write_loop-IsWritten :
      (fuel : ℕ) (c : Cache) (a : ℕ) (bytes : List ℕ)
      → IsCoherent c
      → length bytes ≤ fuel
      → a + length bytes + 4 ≤ 2 ^ 32
      → ((x : ℕ) → c.flash x < 256)
      → ((k : ℕ) → get_or bytes k 0 < 256)
      → can_store c.flash a bytes ≡ true
      → IsWritten c a bytes (write_loop nvm fuel c a bytes)
  unfolding write_loop
  write_loop-IsWritten zero c a [] coh enough low small given legal = nothing_left c a coh
  write_loop-IsWritten zero c a (b ∷ bs) coh enough low small given legal = absurd (omega arith)
  write_loop-IsWritten (suc fuel) c a [] coh enough low small given legal = nothing_left c a coh
  write_loop-IsWritten (suc fuel) c a (b ∷ bs) coh enough low small given legal =
      let block = part-HasBlock nvm c a coh in
      let n = part c a (length (b ∷ bs)) in
      let left = length-drop n (b ∷ bs) in
      let some_left : ltb 0 (length (b ∷ bs)) ≡ true = ground arith in
      rw (some_left, write_loop)
        (finish c _ _ a (b ∷ bs) coh block low small given legal _ (
          write_loop-IsWritten fuel _ _ (drop n (b ∷ bs))
            (IsCoherent-e c _ _ a (b ∷ bs) coh block low small given legal)
            (omega (arith, left, part_pos nvm c a (length (b ∷ bs)) coh (omega arith)))
            (omega (arith, left)) (small_e c _ _ a (b ∷ bs) coh block low small given legal)
            (λ k. subst (λ x. x < 256) (sym (get_or-drop n (b ∷ bs) k 0)) (given (n + k)))
            (legal_next c _ _ a (b ∷ bs) coh block low small given legal)))

  -- `write` refuses a range that is not within the device, and bytes that need a bit set which is
  -- clear in memory; memory is then not written. Otherwise exactly the bytes given are stored from
  -- the address on, however the range lies across words and blocks. The cache stays coherent in
  -- each case. The memory holds bytes, and so does the data; the range ends four bytes before 2 ^
  -- 32 or earlier.
  pub write_lem :
      (c : Cache) (address : ℕ) (bytes : List ℕ)
      → IsCoherent c
      → address + length bytes + 4 ≤ 2 ^ 32
      → ((x : ℕ) → c.flash x < 256)
      → ((k : ℕ) → get_or bytes k 0 < 256)
      → let (r, d) = write nvm c address bytes in
        let outside = ltb address nvm.flash_start || ltb nvm.flash_end (address + length bytes) in
        let legal = can_store c.flash address bytes in
        (r
          ≡ (if outside then err invalid_parameter else if legal then ok tt else err not_supported))
        × ((x : ℕ)
            → d.flash x
              ≡ (if not outside && legal then stored c.flash address bytes x else c.flash x))
        × IsCoherent d
  unfolding write
  write_lem c address bytes coh low small given =
      elim (Bool-cases (out_of_range nvm address (length bytes))) [
        | inl y ↦ rw (y, write) (rw (← next_is) (rw y refl), (λ x. rw (← next_is) (rw y refl)), coh)
        | inr n ↦ elim (Bool-cases (can_store c.flash address bytes)) [
          | inr illegal ↦
              let refused = checked.verdict ∙ illegal in
              rw (n, refused, write)
                (
                  rw (← next_is) (rw (n, illegal) refl),
                  (λ x. rw (← next_is) (rw (n, illegal) (ap (λ m. m x) checked.same_flash))),
                  checked.coherent,
                )
          | inl legal ↦
              let n' = rw next_is at n in
              let accepted = checked.verdict ∙ legal in
              let done =
                write_loop-IsWritten (length bytes) _ address bytes checked.coherent (omega arith)
                  low (subst (λ m. (x : ℕ) → m x < 256) (sym checked.same_flash) small) given
                  (ap (λ m. can_store m address bytes) checked.same_flash ∙ legal) in
              rw (n, accepted, write)
                (
                  rw (n', legal) refl,
                  (λ x.
                      rw (n', legal)
                        (done.flash_is x ∙ ap (λ m. stored m address bytes x) checked.same_flash)),
                  done.coherent,
                )
        ]
      ]
    where
      next_is : (address + length bytes) % 2 ^ 32 ≡ address + length bytes
      next_is = omega arith

      checked : IsValidated nvm c address bytes (validate nvm (length bytes) c address bytes)
      checked =
          validate-IsValidated nvm (length bytes) c address bytes coh (omega arith) (omega arith)
