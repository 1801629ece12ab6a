-- ===== src/Flash/Write.antt =====
-- `flash_write` writes the bytes that it is given, and keeps the others.
use Prim.Native.Nat.{bit_and}
use codal_microbit_v.Base.{
  Memory, ℕ, zero, suc, ◌+◌, ◌-◌, ◌*◌, ◌/◌, ◌%◌, ◌<◌, ◌≡◌, ap, ◌∙◌, arith, true, false, ◌&&◌, ◌⊎◌,
  List, [], ◌∷◌, length, get_or, ltb, leb, ◌==◌, if◌then◌else◌, Bool-cases, inl, inr, ok,
}
use codal_microbit_v.Base.Bits.{complement-bit_and}
use codal_microbit_v.Flash.{
  Chip, need_erase, word_addr, byte_for, write_loop, write_with, flash_write,
}
use codal_microbit_v.Flash.Words.{within}
use codal_microbit_v.Flash.Loop.{write_loop-IsWritten}

abbrev pub IsBytes : Memory → Type 0
IsBytes m = (a : ℕ) → m a < 256

abbrev pub AreBytes : List ℕ → Type 0
AreBytes bytes = (d : ℕ) → get_or bytes d 0 < 256

need_erase-false :
    (bytes : List ℕ) (m : Memory) (addr d : ℕ)
    → need_erase bytes m addr ≡ false
    → d < length bytes
    → bit_and (255 - m (addr + d)) (get_or bytes d 0) ≡ 0
unfolding need_erase
need_erase-false [] m addr d e lt = absurd (omega arith)
need_erase-false (b ∷ bs) m addr zero e lt =
    let same : addr + 0 ≡ addr = omega arith in rw same (ground arith)
need_erase-false (b ∷ bs) m addr (suc d) e lt =
    let same : addr + suc d ≡ addr + 1 + d = omega arith in
    rw same (need_erase-false bs m (addr + 1) d (ground arith) (omega arith))

module _ (chip : Chip) (m : Memory) (bytes : List ℕ) (flash : IsBytes m)
    (ram : AreBytes bytes) where
  open chip use {page_size, default_scratch}

  pub byte_for_small : (write_from offset d : ℕ) → byte_for chip write_from offset bytes m d < 256
  byte_for_small write_from offset d = ground (arith, ram (d - offset), flash (write_from + d))

  -- Where no bit has to be set, every byte can be programmed in place.
  in_place_keeps :
      (page offset d : ℕ)
      → need_erase bytes m (page + offset) ≡ false
      → chip.program (m (page + d)) (byte_for chip page offset bytes m d)
        ≡ byte_for chip page offset bytes m d
  in_place_keeps page offset d e =
      chip.program_clears _ _ (flash (page + d)) (byte_for_small page offset d)
        (clear (Bool-cases (leb offset d && ltb d (offset + length bytes))))
    where
      clear :
          ((leb offset d && ltb d (offset + length bytes)) ≡ true)
            ⊎ ((leb offset d && ltb d (offset + length bytes)) ≡ false)
          → bit_and (255 - m (page + d)) (byte_for chip page offset bytes m d) ≡ 0
      clear (inl h) = rw h (
          ap (λ a. bit_and (255 - m a) (get_or bytes (d - offset) 0)) (ground arith)
          ∙ need_erase-false bytes m (page + offset) (d - offset) e (ground arith))
      clear (inr h) = rw h (complement-bit_and (m (page + d)) (flash (page + d)))

  -- The write within one page at `page`, when no erase is needed.
  write_with-in_place :
      (page offset scratch a : ℕ)
      → need_erase bytes m (page + offset) ≡ false
      → (write_with chip page offset scratch bytes m).1 a ≡ (
          if within (page + offset) (length bytes) a
          then get_or bytes (a - (page + offset)) 0
          else m a)
  unfolding write_with
  write_with-in_place page offset scratch a e = rw e (
      ap (λ n. (write_loop chip n (word_addr offset) page page offset bytes (m, 0)).0 a) rounds
      ∙ write_loop-IsWritten chip page page offset bytes (word_addr offset) stop m
          (λ d _ _. byte_for_small page offset d) (λ d _ _. in_place_keeps page offset d e)
          (λ i d le le' lt. ground arith) ((stop - word_addr offset) / 4) (word_addr offset) m
          (omega arith) (omega arith) (omega arith) (λ b. ground arith) a
      ∙ as_given)
    where
      stop : ℕ
      stop = word_addr (offset + length bytes + 4)

      rounds : stop - word_addr offset ≡ (stop - word_addr offset) / 4 * 4
      rounds = omega arith

      as_given :
          (if within (page + word_addr offset) (stop - word_addr offset) a
            then byte_for chip page offset bytes m (a - page)
            else m a)
          ≡ (if within (page + offset) (length bytes) a
              then get_or bytes (a - (page + offset)) 0
              else m a)
      as_given = ground arith

  write_with-ok :
      (page offset scratch : ℕ)
      → need_erase bytes m (page + offset) ≡ false
      → (write_with chip page offset scratch bytes m).0 ≡ ok tt
  unfolding write_with
  write_with-ok page offset scratch e = rw e

  pub place : (address : ℕ) → address / page_size * page_size + address % page_size ≡ address
  place address = omega arith

  -- With no bit to set, `flash_write` with a scratch page that is aligned leaves exactly the bytes
  -- given in memory from the address on, also across a page's end, and every other byte as it was.
  pub flash_write_in_place :
      (address scratch_addr : ℕ)
      → (bit_and (if scratch_addr == 0 then default_scratch else scratch_addr) (page_size - 1) == 0)
        ≡ true
      → need_erase bytes m address ≡ false
      → let (r, after) = flash_write chip address bytes scratch_addr m in
        (r ≡ ok tt)
        × ((a : ℕ)
            → after a
              ≡ (if within address (length bytes) a then get_or bytes (a - address) 0 else m a))
  unfolding flash_write
  flash_write_in_place address scratch_addr aligned e =
      let e' = rw (← place address) at e in
      rw aligned (
        write_with-ok (address / page_size * page_size) (address % page_size) _ e',
        λ a.
            write_with-in_place (address / page_size * page_size) (address % page_size) _ a e'
            ∙ ap (λ x. if within x (length bytes) a then get_or bytes (a - x) 0 else m a)
                (place address),
      )
