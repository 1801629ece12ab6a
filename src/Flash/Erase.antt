-- ===== src/Flash/Erase.antt =====
-- `flash_write` where a bit has to be set: the page is kept in the scratch page, erased, and
-- written again.
use Prim.Native.Nat.{bit_and}
use mathlib.Core.Path.{subst}
use codal_microbit_v.Base.{
  Memory, ℕ, ◌+◌, ◌-◌, ◌*◌, ◌/◌, ◌%◌, ◌≤◌, ◌<◌, ◌≡◌, sym, ap, ap₂, ◌∙◌, arith, true, false, ◌⊎◌,
  List, length, get_or, ◌==◌, if◌then◌else◌, Bool-cases, inl, inr, ok,
}
use codal_microbit_v.Base.Bits.{zero-bit_and}
use codal_microbit_v.Flash.{
  Chip, need_erase, byte_for, write_loop, preserve, write_with, flash_write, flash_burn, words_from,
}
use codal_microbit_v.Flash.Words.{within, flash_burn-IsCopied, IsCopied}
use codal_microbit_v.Flash.Loop.{write_loop-IsWritten}
use codal_microbit_v.Flash.Write.{IsBytes, AreBytes, place, byte_for_small}

-- The two pages have no address in common.
abbrev pub Apart : ℕ → ℕ → ℕ → Type 0
Apart size page scratch = (page + size ≤ scratch) ⊎ (scratch + size ≤ page)

module _ (chip : Chip) (m : Memory) (flash : IsBytes m) where
  open chip use {page_size, default_scratch}

  program_erased : (b : ℕ) → b < 256 → chip.program 255 b ≡ b
  program_erased b lt = chip.program_clears 255 b (omega arith) lt (zero-bit_and b)

  -- The page is erased, the scratch page holds what it held, and the rest is as it was.
  preserve_lem :
      (page scratch a : ℕ)
      → Apart page_size page scratch
      → preserve chip page scratch m a ≡ (
          if within page page_size a
          then 255
          else if within scratch page_size a
          then m (page + (a - scratch))
          else m a)
  unfolding preserve
  preserve_lem page scratch a apart = elim (Bool-cases (within page page_size a)) [
    | inl e ↦ rw e (chip.erase_inside _ page a (ground arith) (ground arith))
    | inr e ↦ rw e (
        chip.erase_outside _ page a e
        ∙ copied a
        ∙ settled (Bool-cases (within scratch page_size a)))
  ]
    where
      clean : Memory
      clean = chip.erase m scratch

      whole : 4 * (page_size / 4) ≡ page_size
      whole = omega (arith, chip.whole_words)

      clean_page : (d : ℕ) → d < 4 * (page_size / 4) → clean (page + d) ≡ m (page + d)
      clean_page d lt = chip.erase_outside m scratch (page + d) (ground arith)

      clean_scratch : (d : ℕ) → d < 4 * (page_size / 4) → clean (scratch + d) ≡ 255
      clean_scratch d lt = chip.erase_inside m scratch (scratch + d) (omega arith) (omega arith)

      copied :
          IsCopied chip page scratch
            (page_size / 4)
            clean
            (page_size / 4)
            (flash_burn chip (page_size / 4) 0 clean scratch (words_from chip page))
      copied =
          flash_burn-IsCopied chip page scratch (page_size / 4) clean
            (λ d lt. subst (λ x. x < 256) (sym (clean_page d lt)) (flash (page + d)))
            (λ d lt.
              ap₂ chip.program (clean_scratch d lt) (clean_page d lt)
              ∙ program_erased _ (flash (page + d))
              ∙ sym (clean_page d lt))
            (λ d lt. ground arith) (page_size / 4) 0 clean (omega arith) (λ b. ground arith)

      settled :
          (within scratch page_size a ≡ true) ⊎ (within scratch page_size a ≡ false)
          → (if within scratch (4 * (page_size / 4)) a
              then clean (page + (a - scratch))
              else clean a)
            ≡ (if within scratch page_size a then m (page + (a - scratch)) else m a)
      settled (inl e) = rw whole (rw e (clean_page (a - scratch) (ground (arith, whole))))
      settled (inr e) = rw whole (rw e (chip.erase_outside m scratch a e))

  module _ (bytes : List ℕ) (ram : AreBytes bytes) where
    -- What `flash_write` leaves at `a`, when it had to erase the page at `page`.
    abbrev pub rewritten : ℕ → ℕ → ℕ → ℕ → ℕ
    rewritten page offset scratch a =
        if within page page_size a
        then (if within (page + offset) (length bytes) a
            then get_or bytes (a - (page + offset)) 0
            else m a)
        else if within scratch page_size a
        then m (page + (a - scratch))
        else m a

    write_with-rewritten :
        (page offset scratch a : ℕ)
        → Apart page_size page scratch
        → need_erase bytes m (page + offset) ≡ true
        → (scratch == 0) ≡ false
        → (write_with chip page offset scratch bytes m).1 a ≡ rewritten page offset scratch a
    unfolding write_with
    write_with-rewritten page offset scratch a apart e pos = rw e (
        rw pos (
          ap (λ n. (write_loop chip n 0 page scratch offset bytes (kept, 0)).0 a) rounds
          ∙ write_loop-IsWritten chip page scratch offset bytes 0 page_size kept
              (λ d le lt. subst (λ x. x < 256) (sym (source_kept d lt)) (source_small d))
              (λ d le lt.
                ap₂ chip.program (erased d lt) (source_kept d lt)
                ∙ program_erased _ (source_small d)
                ∙ sym (source_kept d lt))
              (λ i d le le' lt. ground arith) (page_size / 4) 0 kept (omega arith) (omega arith)
              (omega (arith, chip.whole_words)) (λ b. ground arith) a
          ∙ settled (Bool-cases (within page page_size a))))
      where
        kept : Memory
        kept = preserve chip page scratch m

        rounds : page_size ≡ page_size / 4 * 4
        rounds = omega (arith, chip.whole_words)

        erased : (d : ℕ) → d < page_size → kept (page + d) ≡ 255
        erased d lt = ground (arith, preserve_lem page scratch (page + d) apart)

        source_kept :
            (d : ℕ)
            → d < page_size
            → byte_for chip scratch offset bytes kept d ≡ byte_for chip page offset bytes m d
        source_kept d lt = ground (arith, preserve_lem page scratch (scratch + d) apart)

        source_small : (d : ℕ) → byte_for chip page offset bytes m d < 256
        source_small d = byte_for_small chip m bytes flash ram page offset d

        same_test : within (page + 0) (page_size - 0) a ≡ within page page_size a
        same_test = ground arith

        settled :
            (within page page_size a ≡ true) ⊎ (within page page_size a ≡ false)
            → (if within (page + 0) (page_size - 0) a
                then byte_for chip scratch offset bytes kept (a - page)
                else kept a)
              ≡ rewritten page offset scratch a
        settled (inl h) = rw same_test (rw h (source_kept (a - page) (ground arith) ∙ ground arith))
        settled (inr h) = rw same_test (rw h (preserve_lem page scratch a apart ∙ rw h))

    write_with-ok :
        (page offset scratch : ℕ)
        → need_erase bytes m (page + offset) ≡ true
        → (scratch == 0) ≡ false
        → (write_with chip page offset scratch bytes m).0 ≡ ok tt
    unfolding write_with
    write_with-ok page offset scratch e pos = rw e (rw pos)

    -- Where some bit has to be set and the scratch page is aligned, not at 0 and apart from the
    -- page of the address, `flash_write` returns success. The bytes given then stand in memory as
    -- far as they lie on the page of the address, and those behind the page's end are not written;
    -- the other bytes of the page are as before, the scratch page holds what the page held, and no
    -- other byte of memory changes.
    pub flash_write_erased :
        (address scratch_addr : ℕ)
        → let scratch = if scratch_addr == 0 then default_scratch else scratch_addr in
          (bit_and scratch (page_size - 1) == 0) ≡ true
          → (scratch == 0) ≡ false
          → Apart page_size (address / page_size * page_size) scratch
          → need_erase bytes m address ≡ true
          → let (r, after) = flash_write chip address bytes scratch_addr m in
            (r ≡ ok tt)
            × ((a : ℕ)
                → after a
                  ≡ rewritten (address / page_size * page_size) (address % page_size) scratch a)
    unfolding flash_write
    flash_write_erased address scratch_addr aligned pos apart e =
        let e' = rw (← place chip m bytes flash ram address) at e in
        rw aligned (
          write_with-ok (address / page_size * page_size) (address % page_size) _ e' pos,
          λ a.
              write_with-rewritten (address / page_size * page_size) (address % page_size) _ a apart
                e' pos,
        )
