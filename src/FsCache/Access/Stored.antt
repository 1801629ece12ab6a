-- ===== src/FsCache/Access/Stored.antt =====
-- Memory after bytes were stored, block by block.
use Prim.Native.Nat.{bit_and, bit_xor}
use native.Mathlib.Nat.{mul-le-mul_left, div-add-mod}
use codal_microbit_v.Base.{
  Memory, bytes_at, length-bytes_at, bytes_at-append, drop-bytes_at, take-bytes_at, stored,
  bytes_at_ext, get_or-bytes_at, bytes_at-stored, stored_apart, ℕ, zero, suc, ◌+◌, ◌-◌, ◌/◌, ◌%◌,
  ◌≤◌, ◌<◌, ◌≡◌, ◌≢◌, ◌⊎◌, sym, ap, ap₂, ◌∙◌, arith, true, ◌&&◌, List, [], ◌∷◌, ◌++◌, length,
  get_or, take, drop, ltb, leb, Bool-cases, inl, inr, ==→eq, ltb→lt,
}
use codal_microbit_v.Base.Bits.{self-bit_xor}
use codal_microbit_v.FsCache.Access.{overlay, is_legal}
use codal_microbit_v.FsCache.Access.Legal.{can_store}

-- A block after some of its bytes were changed is the block of the changed memory.
pub overlay-stored :
    (m : Memory) (start n offset : ℕ) (bytes : List ℕ)
    → offset + length bytes ≤ n
    → overlay (bytes_at m start n) offset bytes ≡ bytes_at (stored m (start + offset) bytes) start n
overlay-stored m start n offset bytes le =
    ap₂ ◌++◌
      (ap₂ ◌++◌ before (sym (bytes_at-stored m (start + offset) bytes))
        ∙ bytes_at-append after_m start offset (length bytes))
      after
    ∙ bytes_at-append after_m start (offset + length bytes) (n - (offset + length bytes))
    ∙ ap (bytes_at after_m start) (omega arith)
  where
    after_m : Memory
    after_m = stored m (start + offset) bytes

    before : take offset (bytes_at m start n) ≡ bytes_at after_m start offset
    before =
        take-bytes_at m start offset n (omega arith)
        ∙ bytes_at_ext m after_m start offset
            (λ x h k. sym (stored_apart m (start + offset) bytes x (ground arith)))

    after :
        drop (offset + length bytes) (bytes_at m start n)
        ≡ bytes_at after_m (start + (offset + length bytes)) (n - (offset + length bytes))
    after =
        drop-bytes_at m start (offset + length bytes) n
        ∙ bytes_at_ext m after_m (start + (offset + length bytes)) (n - (offset + length bytes))
            (λ x h k. sym (stored_apart m (start + offset) bytes x (ground arith)))

-- Bytes elsewhere do not bear on whether bytes can be stored.
pub can_store_apart :
    (m : Memory) (a b : ℕ) (xs ys : List ℕ)
    → a + length xs ≤ b
    → can_store (stored m a xs) b ys ≡ can_store m b ys
can_store_apart m a b xs ys le =
    ap (is_legal ys)
      (bytes_at_ext (stored m a xs) m b (length ys) (λ x h k. stored_apart m a xs x (ground arith)))

abbrev pub SetsNone : ℕ → ℕ → Type 0
SetsNone o b = bit_and (bit_xor o b) b ≡ 0

-- Bytes that can be stored set no bit that is clear in memory.
is_legal-SetsNone :
    (bs os : List ℕ) (d : ℕ)
    → length bs ≤ length os
    → d < length bs
    → is_legal bs os ≡ true
    → SetsNone (get_or os d 0) (get_or bs d 0)
unfolding is_legal
is_legal-SetsNone [] os d le lt h = absurd (omega arith)
is_legal-SetsNone (b ∷ bs) [] d le lt h = absurd (omega arith)
is_legal-SetsNone (b ∷ bs) (o ∷ os) zero le lt h = ==→eq _ 0 (ground arith)
is_legal-SetsNone (b ∷ bs) (o ∷ os) (suc d) le lt h =
    is_legal-SetsNone bs os d (omega arith) (omega arith) (ground arith)

-- Nor does the memory after they were stored.
pub stored-SetsNone :
    (m : Memory) (a : ℕ) (bytes : List ℕ) (x : ℕ)
    → ((x : ℕ) → m x < 256)
    → can_store m a bytes ≡ true
    → SetsNone (m x) (stored m a bytes x)
stored-SetsNone m a bytes x small h = elim (Bool-cases (leb a x && ltb x (a + length bytes))) [
  | inr n ↦ rw n (self-bit_xor (m x) (small x))
  | inl y ↦ rw y (
      ap (λ o. bit_and (bit_xor o b) b) (sym (at_x y))
      ∙ is_legal-SetsNone bytes (bytes_at m a (length bytes)) (x - a)
          (omega (arith, length-bytes_at m a (length bytes))) (ground arith) h)
]
  where
    b : ℕ
    b = get_or bytes (x - a) 0

    at_x :
        (leb a x && ltb x (a + length bytes)) ≡ true
        → get_or (bytes_at m a (length bytes)) (x - a) 0 ≡ m x
    at_x y = get_or-bytes_at m a (length bytes) (x - a) (ground arith) ∙ ap m (ground arith)

-- Two blocks are the same or apart.
pub blocks_apart : (n x y : ℕ) → 0 < n → x % n ≡ 0 → y % n ≡ 0 → x < y → x + n ≤ y
blocks_apart n x y pos hx hy lt =
    omega (arith, mul-le-mul_left n div, div-add-mod x n, div-add-mod y n)
  where
    div : x / n < y / n
    div = elim (Bool-cases (ltb (x / n) (y / n))) [
      | inl h ↦ ltb→lt _ _ h
      | inr h ↦
          let le : y / n ≤ x / n = ground arith in
          absurd (omega (arith, mul-le-mul_left n le, div-add-mod x n, div-add-mod y n))
    ]

pub blocks-either : (n x y : ℕ) → 0 < n → x % n ≡ 0 → y % n ≡ 0 → x ≢ y → (x + n ≤ y) ⊎ (y + n ≤ x)
blocks-either n x y pos hx hy ne = elim (Bool-cases (ltb x y)) [
  | inl lt ↦ inl (blocks_apart n x y pos hx hy (ltb→lt _ _ lt))
  | inr ge ↦ inr (blocks_apart n y x pos hy hx (grind arith))
]
