-- ===== src/Flash/Loop.antt =====
-- The loop of `flash_write`: four rounds put a word together and store it.
use Prim.Native.Nat.{bit_or}
use mathlib.Core.Path.{subst}
use native.Mathlib.Nat.{add-zero}
use codal_microbit_v.Base.{
  Memory, ℕ, zero, suc, ◌+◌, ◌-◌, ◌*◌, ◌/◌, ◌%◌, ◌^◌, ◌≤◌, ◌<◌, ◌≡◌, sym, ap, ap₂, ◌∙◌, arith, true,
  false, List, ◌==◌, if◌then◌else◌, Bool-cases, inl, inr,
}
use codal_microbit_v.Base.Bits.{bit_or_high}
use codal_microbit_v.Flash.{
  Chip, byte_for, word_at, store_word, flash_burn, write_round, write_loop,
}
use codal_microbit_v.Flash.Words.{within, store_word_lem}

module _ (chip : Chip) (page write_from offset : ℕ) (bytes : List ℕ) where
  abbrev round : ℕ → Memory × ℕ → Memory × ℕ
  round i s = write_round chip page write_from offset bytes i s

  abbrev source : Memory → ℕ → ℕ
  source m i = byte_for chip write_from offset bytes m i

  -- A round that does not end a word adds its byte above those gathered.
  round_gathers :
      (i k w : ℕ) (m : Memory)
      → i % 4 ≡ k
      → k < 3
      → w < 2 ^ (k * 8)
      → round i (m, w) ≡ (m, w + source m i * 2 ^ (k * 8))
  unfolding write_round
  round_gathers i k w m e lt small = rw (more) (
      ap (λ n. (m, bit_or w (source m i * 2 ^ (n * 8)))) e
      ∙ ap (λ x. (m, x)) (bit_or_high (k * 8) w (source m i) small))
    where
      more : ((i + 1) % 4 == 0) ≡ false
      more = ground arith

  -- The last round of a word stores it.
  round_stores :
      (i w : ℕ) (m : Memory)
      → i % 4 ≡ 3
      → w < 2 ^ 24
      → round i (m, w) ≡ (store_word chip m (page + (i - 3)) (w + source m i * 2 ^ 24), 0)
  unfolding write_round flash_burn
  round_stores i w m e small = rw last (
      ap₂ (λ (addr x : ℕ). (store_word chip m addr x, 0)) place
        (ap (λ n. bit_or w (source m i * 2 ^ (n * 8))) e ∙ bit_or_high 24 w (source m i) small))
    where
      last : ((i + 1) % 4 == 0) ≡ true
      last = ground arith

      place : page + 4 * (i / 4) + 4 * 0 ≡ page + (i - 3)
      place = omega arith

  four_rounds :
      (i : ℕ) (m : Memory)
      → i % 4 ≡ 0
      → ((d : ℕ) → d < 4 → source m (i + d) < 256)
      → round (i + 1 + 1 + 1) (round (i + 1 + 1) (round (i + 1) (round i (m, 0))))
        ≡ (store_word chip m (page + i) (word_at (source m) i), 0)
  four_rounds i m e small =
      ap (λ t. round (i + 1 + 1 + 1) (round (i + 1 + 1) (round (i + 1) t))) first
      ∙ ap (λ t. round (i + 1 + 1 + 1) (round (i + 1 + 1) t)) second
      ∙ ap (round (i + 1 + 1 + 1)) third
      ∙ round_stores (i + 1 + 1 + 1) _ m (omega arith) (omega (arith, b0, b1, b2))
      ∙ ap₂ (λ (addr x : ℕ). (store_word chip m (page + addr) x, 0)) back
          (ap (λ j. low + source m j * 2 ^ 24) at3)
    where
      at2 : i + 1 + 1 ≡ i + 2
      at2 = omega arith

      at3 : i + 1 + 1 + 1 ≡ i + 3
      at3 = omega arith

      back : i + 1 + 1 + 1 - 3 ≡ i
      back = omega arith

      b0 : source m i < 256
      b0 = subst (λ j. source m j < 256) (add-zero i) (small 0 (omega arith))

      b1 : source m (i + 1) < 256
      b1 = small 1 (omega arith)

      b2 : source m (i + 2) < 256
      b2 = small 2 (omega arith)

      low : ℕ
      low = source m i + source m (i + 1) * 2 ^ 8 + source m (i + 2) * 2 ^ 16

      plain : 0 + source m i * 2 ^ (0 * 8) ≡ source m i
      plain = omega arith

      first : round i (m, 0) ≡ (m, source m i)
      first = round_gathers i 0 0 m e (omega arith) (omega arith) ∙ ap (λ w. (m, w)) plain

      second : round (i + 1) (m, source m i) ≡ (m, source m i + source m (i + 1) * 2 ^ 8)
      second = round_gathers (i + 1) 1 (source m i) m (omega arith) (omega arith) b0

      third : round (i + 1 + 1) (m, source m i + source m (i + 1) * 2 ^ 8) ≡ (m, low)
      third =
          round_gathers (i + 1 + 1) 2 _ m (omega arith) (omega arith) (omega (arith, b0, b1))
          ∙ ap (λ j. (m, source m i + source m (i + 1) * 2 ^ 8 + source m j * 2 ^ 16)) at2

  loop_word :
      (k i : ℕ) (m : Memory)
      → i % 4 ≡ 0
      → ((d : ℕ) → d < 4 → source m (i + d) < 256)
      → write_loop chip (suc k * 4) i page write_from offset bytes (m, 0)
        ≡ write_loop chip
            (k * 4)
            (i + 4)
            page
            write_from
            offset
            bytes
            (store_word chip m (page + i) (word_at (source m) i), 0)
  unfolding write_loop
  loop_word k i m e small =
      ap (λ n. write_loop chip n i page write_from offset bytes (m, 0)) four
      ∙ ap (write_loop chip (k * 4) (i + 1 + 1 + 1 + 1) page write_from offset bytes)
          (four_rounds i m e small)
      ∙ ap
          (λ j.
            write_loop chip (k * 4) j page write_from offset bytes
              (store_word chip m (page + i) (word_at (source m) i), 0))
          at4
    where
      four : suc k * 4 ≡ suc (suc (suc (suc (k * 4))))
      four = omega arith

      at4 : i + 1 + 1 + 1 + 1 ≡ i + 4
      at4 = omega arith

  -- The loop from offset `start` up to `stop`, over the memory `before`.
  module _ (start stop : ℕ) (before : Memory)
      (small : (d : ℕ) → start ≤ d → d < stop → source before d < 256)
      (keeps : (d : ℕ)
        → start ≤ d
        → d < stop
        → chip.program (before (page + d)) (source before d) ≡ source before d)
      (apart : (i d : ℕ)
        → start ≤ i
        → i ≤ d
        → d < stop
        → within (page + start) (i - start) (write_from + d) ≡ false) where
    -- The memory when the offsets up to `i` are written.
    abbrev pub IsWritten : ℕ → Memory → Type 0
    IsWritten i m =
        (a : ℕ)
        → m a ≡ (if within (page + start) (i - start) a then source before (a - page) else before a)

    source_kept :
        (i d : ℕ) (m : Memory)
        → start ≤ i
        → i ≤ d
        → d < stop
        → IsWritten i m
        → source m d ≡ source before d
    source_kept i d m le le' lt h = ground (arith, h (write_from + d), apart i d)

    target_kept : (i d : ℕ) (m : Memory) → i ≤ d → IsWritten i m → m (page + d) ≡ before (page + d)
    target_kept i d m le h = ground (arith, h (page + d))

    word-IsWritten :
        (i : ℕ) (m : Memory)
        → start ≤ i
        → i + 4 ≤ stop
        → IsWritten i m
        → IsWritten (i + 4) (store_word chip m (page + i) (word_at (source m) i))
    word-IsWritten i m le lt h a =
        store_word_lem chip m (source m) (page + i) i a
          (λ d dlt.
            subst (λ x. x < 256) (sym (at_source d dlt))
              (small (i + d) (omega arith) (omega arith)))
          (λ d dlt.
            ap₂ chip.program (at_target d) (at_source d dlt)
            ∙ keeps (i + d) (omega arith) (omega arith)
            ∙ sym (at_source d dlt))
        ∙ elim (Bool-cases (within (page + i) 4 a)) [
          | inl e ↦ rw e (
              rw (now e) (
                ap (source m) (index e)
                ∙ source_kept i (a - page) m le (ground arith) (ground arith) h))
          | inr e ↦
              rw e (h a ∙ ap (λ b. if b then source before (a - page) else before a) (as_before e))
        ]
      where
        now : within (page + i) 4 a ≡ true → within (page + start) (i + 4 - start) a ≡ true
        now e = ground arith

        index : within (page + i) 4 a ≡ true → i + (a - (page + i)) ≡ a - page
        index e = ground arith

        as_before :
            within (page + i) 4 a ≡ false
            → within (page + start) (i - start) a ≡ within (page + start) (i + 4 - start) a
        as_before e = ground arith

        at_source : (d : ℕ) → d < 4 → source m (i + d) ≡ source before (i + d)
        at_source d dlt = source_kept i (i + d) m le (omega arith) (omega arith) h

        at_target : (d : ℕ) → m (page + i + d) ≡ before (page + (i + d))
        at_target d =
            let e : page + i + d ≡ page + (i + d) = omega arith in
            ap m e ∙ target_kept i (i + d) m (omega arith) h

    pub write_loop-IsWritten :
        (k i : ℕ) (m : Memory)
        → i % 4 ≡ 0
        → start ≤ i
        → i + k * 4 ≡ stop
        → IsWritten i m
        → IsWritten stop (write_loop chip (k * 4) i page write_from offset bytes (m, 0)).0
    unfolding write_loop
    write_loop-IsWritten zero i m e le end h = let e' : i ≡ stop = omega arith in rw (← e') h
    write_loop-IsWritten (suc k) i m e le end h = rw (loop_word k i m e word_small) (
        write_loop-IsWritten k (i + 4) _ (omega arith) (omega arith) (omega arith)
          (word-IsWritten i m le (omega arith) h))
      where
        word_small : (d : ℕ) → d < 4 → source m (i + d) < 256
        word_small d lt =
            subst (λ x. x < 256) (sym (source_kept i (i + d) m le (omega arith) (omega arith) h))
              (small (i + d) (omega arith) (omega arith))
