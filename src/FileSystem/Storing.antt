-- ===== src/FileSystem/Storing.antt =====
-- Writes of the file system that set no bit: what memory then holds.
use Prim.Native.Nat.{bit_and}
use mathlib.Core.Path.{fun_ext}
pub use codal_microbit_v.Base.{IsErased}
use codal_microbit_v.Base.{
  ℕ, zero, suc, ◌+◌, ◌-◌, ◌≤◌, ◌<◌, ◌≡◌, refl, ap, arith, true, false, ◌&&◌, List, [], ◌∷◌, ◌++◌,
  Bool, length, ltb, ◌==◌, Memory, stored, Bool-cases, inl, inr, ==→eq,
}
use codal_microbit_v.Base.Bits.{zero-bit_and, holds_below, holds_below_at}
use codal_microbit_v.Flash.{Chip, need_erase}
use codal_microbit_v.Flash.Words.{within}
use codal_microbit_v.Flash.Write.{IsBytes, AreBytes, flash_write_in_place}
use codal_microbit_v.FileSystem.{FileSystem, store, half_bytes, word_bytes}

need_erase-IsErased :
    (bytes : List ℕ) (m : Memory) (a : ℕ)
    → IsErased m a (length bytes)
    → need_erase bytes m a ≡ false
unfolding need_erase
need_erase-IsErased [] m a h = refl
need_erase-IsErased (b ∷ bs) m a h =
    let here : m a ≡ 255 = h a (omega arith) (omega arith) in
    let none_set = zero-bit_and b in
    rw (here, none_set)
      (need_erase-IsErased bs m (a + 1) (λ x le lt. h x (omega arith) (omega arith)))

pub half_bytes-AreBytes : (v : ℕ) → AreBytes (half_bytes v)
half_bytes-AreBytes v zero = omega arith
half_bytes-AreBytes v (suc zero) = omega arith
half_bytes-AreBytes v (suc (suc d)) = omega arith

bit_and-zero : (x : ℕ) → x < 256 → bit_and (255 - x) 0 ≡ 0
unfolding holds_below
bit_and-zero x lt = ==→eq _ 0 (holds_below_at 256 (λ y. bit_and (255 - y) 0 == 0) x lt every)
  where
    every : holds_below 256 (λ y. bit_and (255 - y) 0 == 0) ≡ true
    every = refl

need_erase-zeros : (m : Memory) (a : ℕ) → IsBytes m → need_erase (half_bytes 0) m a ≡ false
unfolding need_erase
need_erase-zeros m a flash =
    let low = bit_and-zero (m a) (flash a) in
    let high = bit_and-zero (m (a + 1)) (flash (a + 1)) in rw (low, high) refl

module _ (chip : Chip)
    (aligned : (bit_and chip.default_scratch (chip.page_size - 1) == 0) ≡ true) where
  -- So does one of zeros, to any memory.
  pub store_zeros :
      (fs : FileSystem) (a : ℕ)
      → IsBytes fs.memory
      → store chip fs a (half_bytes 0) 0 ≡ record fs { memory = stored fs.memory a (half_bytes 0) }
  unfolding store
  store_zeros fs a flash =
      ap (λ m. record fs { memory = m })
        (fun_ext
          (flash_write_in_place chip fs.memory (half_bytes 0) flash (half_bytes-AreBytes 0) a 0
            aligned (need_erase-zeros fs.memory a flash)).1)

  -- A store to erased memory puts the bytes there, and changes nothing else.
  pub store-stored :
      (fs : FileSystem) (a : ℕ) (bytes : List ℕ)
      → IsBytes fs.memory
      → AreBytes bytes
      → IsErased fs.memory a (length bytes)
      → store chip fs a bytes 0 ≡ record fs { memory = stored fs.memory a bytes }
  unfolding store
  store-stored fs a bytes flash ram erased =
      ap (λ m. record fs { memory = m })
        (fun_ext
          (flash_write_in_place chip fs.memory bytes flash ram a 0 aligned
            (need_erase-IsErased bytes fs.memory a erased)).1)

pub stored-IsBytes :
    (m : Memory) (a : ℕ) (bytes : List ℕ) → IsBytes m → AreBytes bytes → IsBytes (stored m a bytes)
stored-IsBytes m a bytes flash ram x = elim (Bool-cases (within a (length bytes) x)) [
  | inl here ↦ rw here (ram (x - a))
  | inr there ↦ rw there (flash x)
]

-- What lies behind the bytes put stays erased.
pub stored-IsErased :
    (m : Memory) (a : ℕ) (bytes : List ℕ) (b n : ℕ)
    → a + length bytes ≤ b
    → IsErased m b n
    → IsErased (stored m a bytes) b n
stored-IsErased m a bytes b n behind h x le lt =
    let out : within a (length bytes) x ≡ false = ground arith in rw out (h x le lt)

pub cons-AreBytes : (b : ℕ) (bs : List ℕ) → b < 256 → AreBytes bs → AreBytes (b ∷ bs)
cons-AreBytes b bs small h zero = small
cons-AreBytes b bs small h (suc d) = h d

pub append-AreBytes : (xs ys : List ℕ) → AreBytes xs → AreBytes ys → AreBytes (xs ++ ys)
append-AreBytes [] ys h k = k
append-AreBytes (x ∷ xs) ys h k =
    cons-AreBytes x (xs ++ ys) (h 0) (append-AreBytes xs ys (λ d. h (suc d)) k)

-- The bytes of a list are small if a walk over it finds no other.
abbrev pub all_small : List ℕ → Bool
all_small [] = true
all_small (b ∷ bs) = ltb b 256 && all_small bs

pub all_small-AreBytes : (bs : List ℕ) → all_small bs ≡ true → AreBytes bs
all_small-AreBytes [] h = λ d. omega arith
all_small-AreBytes (b ∷ bs) h =
    cons-AreBytes b bs (ground arith) (all_small-AreBytes bs (ground arith))

pub word_bytes-AreBytes : (v : ℕ) → AreBytes (word_bytes v)
word_bytes-AreBytes v zero = omega arith
word_bytes-AreBytes v (suc zero) = omega arith
word_bytes-AreBytes v (suc (suc zero)) = omega arith
word_bytes-AreBytes v (suc (suc (suc zero))) = omega arith
word_bytes-AreBytes v (suc (suc (suc (suc d)))) = omega arith
