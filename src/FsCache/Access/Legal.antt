-- ===== src/FsCache/Access/Legal.antt =====
-- The first loop of write: whether the bytes can be stored without erasing.
use Prim.Native.Nat.{bit_and, bit_xor}
use codal_microbit_v.Base.{
  Memory, bytes_at, length-bytes_at, bytes_at-append, ℕ, zero, suc, ◌+◌, ◌-◌, ◌%◌, ◌^◌, ◌≤◌, ◌<◌,
  ◌≡◌, refl, sym, ap, ap₂, ◌∙◌, arith, Bool, true, false, not, ◌&&◌, List, [], ◌∷◌, ◌++◌, length,
  take, drop, ltb, ◌==◌, if◌then◌else◌, Bool-cases, inl, inr, take-append-drop, length-take,
  length-drop,
}
use codal_microbit_v.FsCache.{Nvm, Cache}
use codal_microbit_v.FsCache.Coherence.{IsCoherent, HasBlock}
use codal_microbit_v.FsCache.Access.{block_of, part, page_of, is_legal, validate}
use codal_microbit_v.FsCache.Access.Reading.{part-HasBlock, page_of-block, part_fits, part-bytes_at}

-- Only as much of the page counts as there are bytes.
is_legal-take : (bs page : List ℕ) → is_legal bs page ≡ is_legal bs (take (length bs) page)
unfolding is_legal
is_legal-take [] page = refl
is_legal-take (b ∷ bs) [] = refl
is_legal-take (b ∷ bs) (o ∷ os) = rw (is_legal-take bs os) refl

is_legal-append :
    (xs ys ps qs : List ℕ)
    → length xs ≡ length ps
    → is_legal (xs ++ ys) (ps ++ qs) ≡ (is_legal xs ps && is_legal ys qs)
unfolding is_legal
is_legal-append [] ys [] qs e = refl
is_legal-append [] ys (p ∷ ps) qs e = absurd (omega arith)
is_legal-append (x ∷ xs) ys [] qs e = absurd (omega arith)
is_legal-append (x ∷ xs) ys (p ∷ ps) qs e =
    rw (is_legal-append xs ys ps qs (omega arith))
      (assoc (bit_and (bit_xor p x) x == 0) (is_legal xs ps) (is_legal ys qs))
  where
    assoc : (t u v : Bool) → (if not t then false else u && v) ≡ ((if not t then false else u) && v)
    assoc true u v = refl
    assoc false u v = refl

-- Whether the bytes can be stored at an address.
abbrev pub can_store : Memory → ℕ → List ℕ → Bool
can_store m a bytes = is_legal bytes (bytes_at m a (length bytes))

pub can_store-split :
    (m : Memory) (a l : ℕ) (bytes : List ℕ)
    → l ≤ length bytes
    → can_store m a bytes ≡ (can_store m a (take l bytes) && can_store m (a + l) (drop l bytes))
can_store-split m a l bytes le =
    ap₂ is_legal (sym (take-append-drop l bytes)) memory
    ∙ is_legal-append (take l bytes) (drop l bytes) _ _
        (omega (arith, length-bytes_at m a (length (take l bytes))))
  where
    memory :
        bytes_at m a (length bytes)
        ≡ bytes_at m a (length (take l bytes)) ++ bytes_at m (a + l) (length (drop l bytes))
    memory = sym (
        ap₂ (λ x y. bytes_at m a x ++ bytes_at m (a + l) y) taken (length-drop l bytes)
        ∙ bytes_at-append m a l (length bytes - l)
        ∙ ap (bytes_at m a) (omega arith))
      where
        taken : length (take l bytes) ≡ l
        taken = omega (arith, length-take l bytes)

module _ (nvm : Nvm) where
  -- What the page of the cache says of the bytes is what memory says.
  part-can_store :
      (c d : Cache) (i a : ℕ) (bytes : List ℕ)
      → a % c.block_size + length bytes ≤ c.block_size
      → HasBlock c d i (block_of c a)
      → is_legal bytes (drop (a % c.block_size) (page_of d i)) ≡ can_store c.flash a bytes
  part-can_store c d i a bytes fits block =
      is_legal-take bytes _
      ∙ ap (λ p. is_legal bytes (take (length bytes) (drop (a % c.block_size) p)))
          (page_of-block nvm c d i _ block)
      ∙ ap (is_legal bytes) (part-bytes_at c.flash c.block_size a (length bytes) fits)

  pub record IsValidated (c : Cache) (a : ℕ) (bytes : List ℕ) (r : Bool × Cache) : Type 0 where
    pub verdict : r.0 ≡ can_store c.flash a bytes
    pub coherent : IsCoherent r.1
    pub same_flash : r.1.flash ≡ c.flash
    pub same_size : r.1.block_size ≡ c.block_size

  round-IsValidated :
      (c d : Cache) (i a : ℕ) (bytes : List ℕ) (r : Bool × Cache)
      → IsCoherent c
      → a + length bytes < 2 ^ 32
      → HasBlock c d i (block_of c a)
      → IsValidated d
          ((a + part c a (length bytes)) % 2 ^ 32)
          (drop (part c a (length bytes)) bytes)
          r
      → IsValidated c a bytes (
          if is_legal (take (part c a (length bytes)) bytes) (drop (a % c.block_size) (page_of d i))
          then r
          else (false, d))
  round-IsValidated c d i a bytes r coh low block rest =
      elim (Bool-cases (can_store c.flash a (take l bytes))) [
        | inl y ↦ rw (here ∙ y) (record {
          verdict =
              rest.verdict
              ∙ later
              ∙ ap (λ t. t && can_store c.flash (a + l) (drop l bytes)) (sym y)
              ∙ sym whole;
          coherent = rest.coherent;
          same_flash = rest.same_flash ∙ block.same_flash;
          same_size = rest.same_size ∙ block.same_size;
        })
        | inr n ↦ rw (here ∙ n) (record {
          verdict = ap (λ t. t && can_store c.flash (a + l) (drop l bytes)) (sym n) ∙ sym whole;
          coherent = block.coherent;
          same_flash = block.same_flash;
          same_size = block.same_size;
        })
      ]
    where
      l : ℕ
      l = part c a (length bytes)

      here :
          is_legal (take l bytes) (drop (a % c.block_size) (page_of d i))
          ≡ can_store c.flash a (take l bytes)
      here =
          part-can_store c d i a (take l bytes)
            (omega (arith, length-take l bytes, part_fits nvm c a (length bytes) coh)) block

      whole :
          can_store c.flash a bytes
          ≡ (can_store c.flash a (take l bytes) && can_store c.flash (a + l) (drop l bytes))
      whole = can_store-split c.flash a l bytes (omega arith)

      later :
          can_store d.flash ((a + l) % 2 ^ 32) (drop l bytes)
          ≡ can_store c.flash (a + l) (drop l bytes)
      later = ap₂ (λ m x. can_store m x (drop l bytes)) block.same_flash (omega arith)

  pub part_pos : (c : Cache) (a left : ℕ) → IsCoherent c → 0 < left → 0 < part c a left
  part_pos c a left coh some_left = omega (arith, coh.block_pos)

  -- The loop with fuel for every byte.
  pub validate-IsValidated :
      (fuel : ℕ) (c : Cache) (a : ℕ) (bytes : List ℕ)
      → IsCoherent c
      → length bytes ≤ fuel
      → a + length bytes < 2 ^ 32
      → IsValidated c a bytes (validate nvm fuel c a bytes)
  unfolding validate
  validate-IsValidated zero c a [] coh enough low = record {
    verdict = refl;
    coherent = coh;
    same_flash = refl;
    same_size = refl;
  }
  validate-IsValidated zero c a (b ∷ bs) coh enough low = absurd (omega arith)
  validate-IsValidated (suc fuel) c a [] coh enough low = record {
    verdict = refl;
    coherent = coh;
    same_flash = refl;
    same_size = refl;
  }
  validate-IsValidated (suc fuel) c a (b ∷ bs) coh enough low =
      let block = part-HasBlock nvm c a coh in
      let l = part c a (length (b ∷ bs)) in
      let left = length-drop l (b ∷ bs) in
      let some_left : ltb 0 (length (b ∷ bs)) ≡ true = ground arith in
      let rest =
        validate-IsValidated fuel _ ((a + l) % 2 ^ 32) (drop l (b ∷ bs)) block.coherent
          (omega (arith, left, part_pos c a (length (b ∷ bs)) coh (omega arith)))
          (omega (arith, left)) in
      rw (some_left, validate) (round-IsValidated c _ _ a (b ∷ bs) _ coh low block rest)
