-- ===== src/FsCache/Access/Through.antt =====
-- A round of the second loop of write: the page in the cache, and the words written through.
use Prim.Native.Nat.{bit_and, bit_xor}
use native.Mathlib.Nat.{add-mul-mod_self_right, mul-mod_left, mod-eq_of_lt, mul_assoc}
use mathlib.Core.Option.{some-injective}
use codal_microbit_v.Base.{
  Memory, bytes_at, length-bytes_at, slice-bytes_at, stored, bytes_at_ext, get_or-bytes_at,
  stored_apart, ℕ, ◌+◌, ◌-◌, ◌*◌, ◌/◌, ◌%◌, ◌^◌, ◌≤◌, ◌<◌, ◌≡◌, ◌≢◌, ◌⊎◌, refl, sym, ap, ap₂, ◌∙◌,
  arith, true, false, ◌&&◌, some, List, length, get_or, set, take, drop, ltb, leb, ◌==◌, ==→eq,
  ==→ne, if◌then◌else◌, Bool-cases, inl, inr, length-set, get_or-set_self, get_or-set_ne,
}
use codal_microbit_v.FsCache.{Nvm, Cache, CacheEntry, unused, entry, is_present}
use codal_microbit_v.FsCache.Coherence.{IsCoherent, HasBlock, get_or-set}
use codal_microbit_v.FsCache.Access.{
  block_of, page_of, overlay, aligned_start, word_count, write_part,
}
use codal_microbit_v.FsCache.Access.Reading.{page_of-block}
use codal_microbit_v.FsCache.Access.Legal.{can_store}
use codal_microbit_v.FsCache.Access.Stored.{
  SetsNone, stored-SetsNone, overlay-stored, blocks-either,
}

-- A block starts at a word.
block_at_word : (bs a : ℕ) → bs % 4 ≡ 0 → a ≡ a / bs * (bs / 4) * 4 + a % bs
block_at_word bs a whole =
    let four : bs ≡ bs / 4 * 4 = omega arith in
    let block : a / bs * bs ≡ a / bs * (bs / 4) * 4 =
      ap (λ (x : ℕ). a / bs * x) four ∙ sym (mul_assoc (a / bs) (bs / 4) 4) in
    let split : a / bs * bs + a % bs ≡ a = omega arith in omega (arith, block, split)

-- The words that hold the bytes start in the block.
aligned_start-block :
    (bs a : ℕ) → bs % 4 ≡ 0 → a / bs * bs + (a % bs - a % bs % 4) ≡ aligned_start a
aligned_start-block bs a whole =
    let split : a / bs * bs + a % bs ≡ a = omega arith in
    omega (arith, block_at_word bs a whole, split)

aligned_start-offset : (bs a : ℕ) → 0 < bs → bs % 4 ≡ 0 → aligned_start a % bs ≡ a % bs - a % bs % 4
aligned_start-offset bs a pos whole =
    let split : aligned_start a ≡ a % bs - a % bs % 4 + a / bs * bs =
      omega (arith, aligned_start-block bs a whole) in
    ap (λ x. x % bs) split
    ∙ add-mul-mod_self_right (a % bs - a % bs % 4) (a / bs) bs
    ∙ mod-eq_of_lt (omega arith)

-- They hold all of the bytes, and end at the first word's end that is not before the last byte.
word_count-end :
    (a l : ℕ)
    → a + l + 4 ≤ 2 ^ 32
    → (a + l ≤ aligned_start a + word_count a l * 4)
      × (aligned_start a + word_count a l * 4 < a + l + 4)
word_count-end a l low = (grind arith, grind arith)

word_count-block :
    (bs a l : ℕ)
    → bs % 4 ≡ 0
    → a % bs + l ≤ bs
    → a + l + 4 ≤ 2 ^ 32
    → a % bs - a % bs % 4 + word_count a l * 4 ≤ bs
word_count-block bs a l whole fits low =
    omega (arith, word_count-end a l low, block_at_word bs a whole)

module _ (nvm : Nvm) where
  -- Words that differ from memory only in bits that they clear are stored as they are.
  write_words :
      (m m' : Memory) (s n : ℕ)
      → ((x : ℕ) → SetsNone (m x) (m' x))
      → ((x : ℕ) → (leb s x && ltb x (s + n)) ≡ false → m x ≡ m' x)
      → (x : ℕ) → nvm.write m s (bytes_at m' s n) x ≡ m' x
  write_words m m' s n legal outside x =
      nvm.write_bytes m s x (bytes_at m' s n)
        (λ d lt. ap (λ b. bit_and (bit_xor (m (s + d)) b) b) (at d lt) ∙ legal (s + d))
      ∙ ap (λ k. if leb s x && ltb x (s + k) then get_or (bytes_at m' s n) (x - s) 0 else m x)
          (length-bytes_at m' s n)
      ∙ inside
    where
      at : (d : ℕ) → d < length (bytes_at m' s n) → get_or (bytes_at m' s n) d 0 ≡ m' (s + d)
      at d lt = get_or-bytes_at m' s n d (omega (arith, length-bytes_at m' s n))

      inside : (if leb s x && ltb x (s + n) then get_or (bytes_at m' s n) (x - s) 0 else m x) ≡ m' x
      inside = elim (Bool-cases (leb s x && ltb x (s + n))) [
        | inl y ↦ rw y (get_or-bytes_at m' s n (x - s) (ground arith) ∙ ap m' (ground arith))
        | inr o ↦ rw o (outside x o)
      ]

  module _ (c : Cache) (i a : ℕ) (bytes : List ℕ) (coh : IsCoherent c)
      (block : HasBlock c c i (block_of c a))
      (fits : a % c.block_size + length bytes ≤ c.block_size)
      (low : a + length bytes + 4 ≤ 2 ^ 32) where
    abbrev pub after_m : Memory
    after_m = stored c.flash a bytes

    page_after :
        overlay (page_of c i) (a % c.block_size) bytes
        ≡ bytes_at after_m (block_of c a) c.block_size
    page_after =
        ap (λ p. overlay p (a % c.block_size) bytes) (page_of-block nvm c c i _ block)
        ∙ overlay-stored c.flash (block_of c a) c.block_size (a % c.block_size) bytes fits
        ∙ ap (λ x. bytes_at (stored c.flash x bytes) (block_of c a) c.block_size) (omega arith)

    words_are :
        take
          (word_count a (length bytes) * 4)
          (drop (aligned_start a % c.block_size) (overlay (page_of c i) (a % c.block_size) bytes))
        ≡ bytes_at after_m (aligned_start a) (word_count a (length bytes) * 4)
    words_are =
        ap₂ (λ o p. take (word_count a (length bytes) * 4) (drop o p))
          (aligned_start-offset c.block_size a coh.block_pos coh.block_words) page_after
        ∙ slice-bytes_at after_m (block_of c a) (a % c.block_size - a % c.block_size % 4)
            (word_count a (length bytes) * 4) c.block_size
            (word_count-block c.block_size a (length bytes) coh.block_words fits low)
        ∙ ap (λ x. bytes_at after_m x (word_count a (length bytes) * 4))
            (aligned_start-block c.block_size a coh.block_words)

    pub write_part-flash :
        ((x : ℕ) → c.flash x < 256)
        → can_store c.flash a bytes ≡ true
        → (x : ℕ) → (write_part nvm c i a bytes).flash x ≡ after_m x
    unfolding write_part
    write_part-flash small legal x =
        ap (λ ws. nvm.write c.flash (aligned_start a) ws x) words_are
        ∙ write_words c.flash after_m (aligned_start a) (word_count a (length bytes) * 4)
            (λ y. stored-SetsNone c.flash a bytes y small legal)
            (λ y outside. sym (
              stored_apart c.flash a bytes y (ground (arith, word_count-end a (length bytes) low))))
            x

    module _ (small : (x : ℕ) → c.flash x < 256) (legal : can_store c.flash a bytes ≡ true) where
      changed : CacheEntry
      changed = record (entry c i) { page = some (overlay (page_of c i) (a % c.block_size) bytes) }

      after : Cache
      after = write_part nvm c i a bytes

      i_present : is_present (entry c i) ≡ true
      i_present = rw (block.page_is, is_present) refl

      flash_after : (x : ℕ) → after_m x ≡ after.flash x
      unfolding after
      flash_after x = sym (write_part-flash small legal x)

      -- The round changes neither which entries are used nor what blocks they hold.
      same_place :
          (j : ℕ)
          → (is_present (entry after j) ≡ is_present (entry c j))
            × ((entry after j).address ≡ (entry c j).address)
      unfolding after write_part changed
      same_place j = elim (get_or-set c.entries i j changed unused) [
        | inl (new, is_j) ↦ rw (new, ← is_j) (sym i_present, refl)
        | inr old ↦ rw old (refl, refl)
      ]

      -- An entry of another block holds bytes that the round leaves alone.
      elsewhere :
          (j : ℕ)
          → i ≢ j
          → is_present (entry c j) ≡ true
          → (x : ℕ) → (entry c j).address ≤ x
          → x < (entry c j).address + c.block_size
          → c.flash x ≡ after_m x
      elsewhere j other present x le lt = elim sides [
        | inl before ↦ sym (stored_apart c.flash a bytes x (ground (arith, split)))
        | inr behind ↦ sym (stored_apart c.flash a bytes x (ground (arith, split)))
      ]
        where
          split : a / c.block_size * c.block_size + a % c.block_size ≡ a
          split = omega arith

          sides :
              ((entry c j).address + c.block_size ≤ block_of c a)
              ⊎ (block_of c a + c.block_size ≤ (entry c j).address)
          sides =
              blocks-either c.block_size (entry c j).address (block_of c a) coh.block_pos
                (coh.at_block j present) (mul-mod_left (a / c.block_size) c.block_size)
                (λ same. other (coh.apart i j i_present present (block.address_is ∙ sym same)))

      holds_changed :
          (p : List ℕ)
          → (entry after i).page ≡ some p
          → p ≡ bytes_at after.flash (entry after i).address after.block_size
      unfolding after write_part changed
      holds_changed p h =
          sym (some-injective _ _ (sym (ap (λ e. e.page) new) ∙ h))
          ∙ page_after
          ∙ bytes_at_ext after_m after.flash (block_of c a) c.block_size (λ x _ _. flash_after x)
          ∙ ap (λ x. bytes_at after.flash x c.block_size)
              (sym (ap (λ e. e.address) new ∙ block.address_is))
        where
          new : get_or (set c.entries i changed) i unused ≡ changed
          new = get_or-set_self c.entries i changed unused block.below

      holds_other :
          (j : ℕ) (p : List ℕ)
          → i ≢ j
          → (entry after j).page ≡ some p
          → p ≡ bytes_at after.flash (entry after j).address after.block_size
      unfolding after write_part changed
      holds_other j p other h =
          coh.holds j p h_before
          ∙ bytes_at_ext c.flash after.flash (entry c j).address c.block_size (λ x le lt.
            elsewhere j other (rw (h_before, is_present) refl) x le lt ∙ flash_after x)
          ∙ ap (λ x. bytes_at after.flash x c.block_size) (sym (ap (λ e. e.address) old))
        where
          old : get_or (set c.entries i changed) j unused ≡ entry c j
          old = get_or-set_ne c.entries i j changed unused other

          h_before : (entry c j).page ≡ some p
          h_before = sym (ap (λ e. e.page) old) ∙ h

      holds_after :
          (j : ℕ) (p : List ℕ)
          → (entry after j).page ≡ some p
          → p ≡ bytes_at after.flash (entry after j).address after.block_size
      holds_after j p h = elim (Bool-cases (i == j)) [
        | inl y ↦ let e = ==→eq _ _ y in rw (← e) (holds_changed p (rw (← e) at h))
        | inr n ↦ holds_other j p (==→ne _ _ n) h
      ]

      pub write_part-IsCoherent : IsCoherent (write_part nvm c i a bytes)
      unfolding after write_part
      write_part-IsCoherent = record {
        some_entry = omega (arith, coh.some_entry, length-set c.entries i _);
        block_pos = coh.block_pos;
        block_words = coh.block_words;
        holds = holds_after;
        at_block = λ j h.
            ap (λ x. x % c.block_size) (same_place j).1 ∙ coh.at_block j (sym (same_place j).0 ∙ h);
        apart = λ j k hj hk same.
            coh.apart j k (sym (same_place j).0 ∙ hj) (sym (same_place k).0 ∙ hk)
              (sym (same_place j).1 ∙ same ∙ (same_place k).1);
      }
