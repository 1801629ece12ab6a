-- ===== src/FlashManager/Words.antt =====
-- Words that are written are read back.
use native.Mathlib.Nat.{mod-eq_of_lt}
use codal_microbit_v.Base.{
  ℕ, suc, ◌+◌, ◌-◌, ◌*◌, ◌/◌, ◌%◌, ◌^◌, ◌≤◌, ◌<◌, ◌≡◌, refl, sym, ap, ap₂, ◌∙◌, arith, Bool, true,
  false, ◌&&◌, some, ◌==◌, List, [], ◌∷◌, length, ltb, leb, if◌then◌else◌, Bool-cases, inl, inr,
  Memory,
}
use codal_microbit_v.Base.Bits.{zero-bit_and}
use codal_microbit_v.Flash.{Chip, byte_of, word_at, store_word}
use codal_microbit_v.Flash.Words.{within, store_word_lem}
use codal_microbit_v.FlashManager.{
  FlashManager, words_at, physical, read, store_words, write_words, write, erase,
}

abbrev pub AreWords : List ℕ → Type 0
AreWords [] = Unit {0}
AreWords (w ∷ ws) = (w < 2 ^ 32) × AreWords ws

-- `n` bytes at an address are erased.
abbrev pub AreErased : Memory → ℕ → ℕ → Type 0
AreErased m a n = (x : ℕ) → a ≤ x → x < a + n → m x ≡ 255

module _ (chip : Chip) where
  program_erased : (n : ℕ) → n < 256 → chip.program 255 n ≡ n
  program_erased n small = chip.program_clears 255 n (omega arith) small (zero-bit_and n)

  -- A word that is stored to erased bytes.
  store_erased :
      (m : Memory) (addr w a : ℕ)
      → w < 2 ^ 32
      → AreErased m addr 4
      → store_word chip m addr w a ≡ (if within addr 4 a then byte_of (a - addr) w else m a)
  store_erased m addr w a small erased =
      ap (λ v. store_word chip m addr v a) (sym whole)
      ∙ store_word_lem chip m (λ x. byte_of x w) addr 0 a (λ d lt. omega arith)
          (λ d lt.
            ap (λ b. chip.program b (byte_of (0 + d) w))
              (erased (addr + d) (omega arith) (omega arith))
            ∙ program_erased (byte_of (0 + d) w) (omega arith))
      ∙ ap (λ k. if within addr 4 a then byte_of k w else m a) (omega arith)
    where
      whole : word_at (λ x. byte_of x w) 0 ≡ w
      whole = omega arith

  erased_behind :
      (m : Memory) (addr w n : ℕ)
      → w < 2 ^ 32
      → AreErased m addr (4 * suc n)
      → AreErased (store_word chip m addr w) (addr + 4) (4 * n)
  erased_behind m addr w n small erased x le lt =
      let behind : within addr 4 x ≡ false = ground arith in
      store_erased m addr w x small (λ y lo hi. erased y lo (omega arith))
      ∙ ap (λ b. if b then byte_of (x - addr) w else m x) behind
      ∙ erased x (omega arith) (omega arith)

  store_words_apart :
      (m : Memory) (addr : ℕ) (ws : List ℕ) (x : ℕ)
      → AreWords ws
      → AreErased m addr (4 * length ws)
      → within addr (4 * length ws) x ≡ false
      → store_words chip m addr ws x ≡ m x
  unfolding store_words
  store_words_apart m addr [] x words erased apart = refl
  store_words_apart m addr (w ∷ ws) x (small, words) erased apart =
      let behind : within addr 4 x ≡ false = ground arith in
      store_words_apart (store_word chip m addr w) (addr + 4) ws x words
        (erased_behind m addr w (length ws) small erased) (ground arith)
      ∙ store_erased m addr w x small (λ y lo hi. erased y lo (omega arith))
      ∙ ap (λ b. if b then byte_of (x - addr) w else m x) behind

  words_at-store_words :
      (m : Memory) (addr : ℕ) (ws : List ℕ)
      → AreWords ws
      → AreErased m addr (4 * length ws)
      → words_at (store_words chip m addr ws) addr (length ws) ≡ ws
  unfolding words_at store_words
  words_at-store_words m addr [] words erased = refl
  words_at-store_words m addr (w ∷ ws) (small, words) erased = ap₂ ◌∷◌ first (
      words_at-store_words (store_word chip m addr w) (addr + 4) ws words
        (erased_behind m addr w (length ws) small erased))
    where
      after : Memory
      after = store_words chip (store_word chip m addr w) (addr + 4) ws

      byte : (d : ℕ) → d < 4 → after (addr + d) ≡ byte_of d w
      byte d lt =
          let before : within (addr + 4) (4 * length ws) (addr + d) ≡ false = ground arith in
          let inside : within addr 4 (addr + d) ≡ true = ground arith in
          let place : addr + d - addr ≡ d = omega arith in
          store_words_apart (store_word chip m addr w) (addr + 4) ws (addr + d) words
            (erased_behind m addr w (length ws) small erased) before
          ∙ store_erased m addr w (addr + d) small (λ y lo hi. erased y lo (omega arith))
          ∙ ap₂ (λ b k. if b then byte_of k w else m (addr + d)) inside place

      first : word_at after addr ≡ w
      first =
          ap₂ ◌+◌
            (ap₂ ◌+◌
              (ap₂ ◌+◌ (ap after (omega arith) ∙ byte 0 (omega arith))
                (ap (λ b. b * 2 ^ 8) (byte 1 (omega arith))))
              (ap (λ b. b * 2 ^ 16) (byte 2 (omega arith))))
            (ap (λ b. b * 2 ^ 24) (byte 3 (omega arith)))
          ∙ omega arith

  -- The loop gets to its end from an address that is a word's.
  write_words_aligned :
      (m : Memory) (addr : ℕ) (ws : List ℕ)
      → addr % 4 ≡ 0
      → write_words chip m addr ws ≡ some (store_words chip m addr ws)
  unfolding write_words store_words
  write_words_aligned m addr [] aligned = refl
  write_words_aligned m addr (w ∷ ws) aligned =
      let here : (addr % 4 == 0) ≡ true = ground arith in
      rw here (write_words_aligned (store_word chip m addr w) (addr + 4) ws (omega arith))

-- With the page size of the chip, and a page that is aligned and ends below 2 ^ 32: after the page
-- was erased, words, at least one, that are written from the address of a word on, on that page, are
-- written to the end, by the SoftDevice or without it, and read back, and memory outside the page is
-- as it was. The SoftDevice takes requests for words, at least one and no more than a page has, at the
-- address of a word.
pub erase-write-read :
    (chip : Chip) (manager : FlashManager) (sd_accepts : ℕ → ℕ → Bool) (sd_enabled : Bool)
    (m : Memory) (page address : ℕ) (ws : List ℕ)
    → (takes_words : (a n : ℕ) → a % 4 ≡ 0 → 0 < n → 4 * n ≤ chip.page_size → sd_accepts a n ≡ true)
    → chip.page_size ≡ manager.page_size
    → (manager.start_address + page) % manager.page_size ≡ 0
    → manager.start_address + page + manager.page_size < 2 ^ 32
    → (manager.start_address + address) % 4 ≡ 0
    → page ≤ address
    → address + 4 * length ws ≤ page + manager.page_size
    → 0 < length ws
    → AreWords ws
    → (after : Memory) × (write chip manager sd_accepts sd_enabled
          (erase chip manager sd_enabled m page)
          address
          ws
        ≡ some after)
      × (read manager after address (length ws) ≡ ws)
      × ((x : ℕ)
          → within (manager.start_address + page) manager.page_size x ≡ false
          → after x ≡ m x)
unfolding read erase write store_words
erase-write-read chip manager sd_accepts sd_enabled m page address ws takes_words same aligned fits
      word_aligned after_page in_page some_words words =
    (
      store_words chip (chip.erase m base) (manager.start_address + address) ws,
      ap (λ n. write chip manager sd_accepts sd_enabled n address ws) blank ∙ written,
      rw there (
          words_at-store_words chip (chip.erase m base) (manager.start_address + address) ws words
            erased),
      λ x out.
          store_words_apart chip (chip.erase m base) (manager.start_address + address) ws x words
            erased (ground arith)
          ∙ chip.erase_outside m base x (ap (λ n. leb base x && ltb x (base + n)) same ∙ out),
    )
  where
    base : ℕ
    base = manager.start_address + page

    here : physical manager page ≡ base
    here = mod-eq_of_lt (omega arith)

    there : physical manager address ≡ manager.start_address + address
    there = mod-eq_of_lt (omega arith)

    whole : base / manager.page_size * manager.page_size ≡ base
    whole = omega arith

    erased : AreErased (chip.erase m base) (manager.start_address + address) (4 * length ws)
    erased x lo hi = chip.erase_inside m base x (omega arith) (omega arith)

    blank : erase chip manager sd_enabled m page ≡ chip.erase m base
    blank = elim (Bool-cases sd_enabled) [
      | inl on ↦ rw (erase, on, here, whole) refl
      | inr off ↦ rw (erase, off, here) refl
    ]

    written :
        write chip manager sd_accepts sd_enabled (chip.erase m base) address ws
        ≡ some (store_words chip (chip.erase m base) (manager.start_address + address) ws)
    written = elim (Bool-cases sd_enabled) [
      | inl on ↦
          let taken : sd_accepts (manager.start_address + address) (length ws) ≡ true =
            takes_words (manager.start_address + address) (length ws) word_aligned some_words
              (omega (arith, same)) in
          rw (write, on, there, taken) refl
      | inr off ↦
          rw (write, off, there)
            (write_words_aligned chip (chip.erase m base) (manager.start_address + address) ws
              word_aligned)
    ]
