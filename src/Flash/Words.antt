-- ===== src/Flash/Words.antt =====
-- Single words: what a store leaves in memory, and the word that four rounds of the loop put
-- together.
use mathlib.Core.Path.{subst}
use native.Mathlib.Nat.{add-zero}
use codal_microbit_v.Base.{
  Memory, ℕ, zero, suc, ◌+◌, ◌-◌, ◌*◌, ◌≤◌, ◌<◌, ◌≡◌, sym, ap, ap₂, ◌∙◌, arith, Bool, true, false,
  ◌&&◌, ltb, leb, if◌then◌else◌, Bool-cases, inl, inr,
}
use codal_microbit_v.Flash.{Chip, byte_of, word_at, words_from, store_word, flash_burn}

-- `a` is one of the `n` addresses from `lo` on.
abbrev pub within : ℕ → ℕ → ℕ → Bool
within lo n a = leb lo a && ltb a (lo + n)

-- The bytes of a word are those that it was put together from.
pub byte_of-word_at :
    (f : Memory) (i c : ℕ)
    → ((d : ℕ) → d < 4 → f (i + d) < 256)
    → c < 4
    → byte_of c (word_at f i) ≡ f (i + c)
byte_of-word_at f i c small h = at_byte c h
  where
    b0 : f i < 256
    b0 = let e : f (i + 0) ≡ f i = ap f (add-zero i) in omega (arith, small 0 (omega arith))

    at_byte : (c : ℕ) → c < 4 → byte_of c (word_at f i) ≡ f (i + c)
    at_byte zero h = omega (arith, b0, small 1, small 2, small 3, ap f (add-zero i))
    at_byte (suc zero) h = omega (arith, b0, small 1, small 2, small 3)
    at_byte (suc (suc zero)) h = omega (arith, b0, small 1, small 2, small 3)
    at_byte (suc (suc (suc zero))) h = omega (arith, b0, small 1, small 2, small 3)
    at_byte (suc (suc (suc (suc c)))) h = absurd (omega arith)

module _ (chip : Chip) where
  -- A store of a word whose bytes can be programmed leaves them in memory, and nothing else
  -- changes.
  pub store_word_lem :
      (m f : Memory) (addr i a : ℕ)
      → ((d : ℕ) → d < 4 → f (i + d) < 256)
      → ((d : ℕ) → d < 4 → chip.program (m (addr + d)) (f (i + d)) ≡ f (i + d))
      → store_word chip m addr (word_at f i) a
        ≡ (if within addr 4 a then f (i + (a - addr)) else m a)
  unfolding store_word
  store_word_lem m f addr i a small keeps = elim (Bool-cases (within addr 4 a)) [
    | inr e ↦ rw e
    | inl e ↦ rw e (
        ap (chip.program (m a)) (byte_of-word_at f i (a - addr) small (ground arith))
        ∙ ap (λ b. chip.program (m b) (f (i + (a - addr)))) (back e)
        ∙ keeps (a - addr) (ground arith))
  ]
    where
      back : within addr 4 a ≡ true → a ≡ addr + (a - addr)
      back e = ground arith

-- The copy of a page, word by word: `m` is the memory after `i` of the `stop` words.
module _ (chip : Chip) (source target stop : ℕ) (before : Memory) where
  abbrev pub IsCopied : ℕ → Memory → Type 0
  IsCopied i m =
      (a : ℕ) → m a ≡ (if within target (4 * i) a then before (source + (a - target)) else before a)

  module _ (small : (d : ℕ) → d < 4 * stop → before (source + d) < 256)
      (keeps : (d : ℕ)
        → d < 4 * stop
        → chip.program (before (target + d)) (before (source + d)) ≡ before (source + d))
      (apart : (d : ℕ) → d < 4 * stop → within target (4 * stop) (source + d) ≡ false) where
    source_kept :
        (i : ℕ) (m : Memory) (d : ℕ)
        → i ≤ stop
        → IsCopied i m
        → d < 4 * stop
        → m (source + d) ≡ before (source + d)
    source_kept i m d le h lt = ground (arith, h (source + d), apart d lt)

    target_kept :
        (i : ℕ) (m : Memory) (d : ℕ)
        → IsCopied i m
        → 4 * i ≤ d
        → m (target + d) ≡ before (target + d)
    target_kept i m d h le = ground (arith, h (target + d))

    word-IsCopied :
        (i : ℕ) (m : Memory)
        → i < stop
        → IsCopied i m
        → IsCopied (i + 1) (store_word chip m (target + 4 * i) (words_from chip source m i))
    word-IsCopied i m lt h a =
        store_word_lem chip m m (target + 4 * i) (source + 4 * i) a
          (λ d dlt. subst (λ x. x < 256) (sym (at_source d dlt)) (small (4 * i + d) (omega arith)))
          (λ d dlt.
            ap₂ chip.program (at_target d) (at_source d dlt)
            ∙ keeps (4 * i + d) (omega arith)
            ∙ sym (at_source d dlt))
        ∙ ground (arith, h a, apart (a - target), source_kept i m (a - target) (omega arith) h)
      where
        at_source : (d : ℕ) → d < 4 → m (source + 4 * i + d) ≡ before (source + (4 * i + d))
        at_source d dlt =
            let e : source + 4 * i + d ≡ source + (4 * i + d) = omega arith in
            ap m e ∙ source_kept i m (4 * i + d) (omega arith) h (omega arith)

        at_target : (d : ℕ) → m (target + 4 * i + d) ≡ before (target + (4 * i + d))
        at_target d =
            let e : target + 4 * i + d ≡ target + (4 * i + d) = omega arith in
            ap m e ∙ target_kept i m (4 * i + d) h (omega arith)

    pub flash_burn-IsCopied :
        (n i : ℕ) (m : Memory)
        → i + n ≡ stop
        → IsCopied i m
        → IsCopied stop (flash_burn chip n i m target (words_from chip source))
    unfolding flash_burn
    flash_burn-IsCopied zero i m e h = let e' : i ≡ stop = omega arith in rw (← e') h
    flash_burn-IsCopied (suc n) i m e h =
        flash_burn-IsCopied n (i + 1) _ (omega arith) (word-IsCopied i m (omega arith) h)
