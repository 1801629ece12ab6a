-- ===== src/Circular/Fifo.antt =====
-- The queue of bytes is first in, first out; and what becomes of it when it is empty.
use codal_microbit_v.Base.{
  Memory, stored, stored_apart, stored_at, ℕ, zero, suc, ◌+◌, ◌-◌, ◌≤◌, ◌<◌, ◌≡◌, refl, ap, ap₂,
  ◌∙◌, arith, Bool, true, false, ◌&&◌, none, some, List, [], ◌∷◌, ◌++◌, drop, ltb, ◌==◌, ==→eq,
  ==→ne, if◌then◌else◌, Bool-cases, inl, inr, ℤ,
}
use codal_microbit_v.Circular.{init, bytes_number, uint32_value}
use codal_microbit_v.Circular.Regions.{log_data}
use codal_microbit_v.Circular.Queue.{push_as, push_u8, pop, pop_from, pop_region}
use codal_microbit_v.Circular.Bytes.{
  wrap, region, queue, held, next_start, next_length, push_u8-pushed,
}

held-snoc :
    (m : Memory) (size s n : ℕ)
    → s < size
    → n < size
    → held m size s (suc n) ≡ held m size s n ++ m (wrap size (s + n)) ∷ []
held-snoc m size s zero within lt =
    let here : s ≡ wrap size (s + 0) = ground arith in ap (λ i. m i ∷ []) here
held-snoc m size s (suc n) within lt =
    let there : wrap size (wrap size (s + 1) + n) ≡ wrap size (s + suc n) = ground arith in
    ap (◌∷◌ (m s)) (
      held-snoc m size (wrap size (s + 1)) n (ground arith) (omega arith)
      ∙ ap (λ i. held m size (wrap size (s + 1)) n ++ m i ∷ []) there)

-- A byte stored elsewhere changes nothing.
held-stored :
    (m : Memory) (size s n a v : ℕ)
    → s < size
    → n ≤ size
    → ((i : ℕ) → i < n → (a == wrap size (s + i)) ≡ false)
    → held (stored m a (v ∷ [])) size s n ≡ held m size s n
held-stored m size s zero a v within le apart = refl
held-stored m size s (suc n) a v within le apart =
    let here : (a == s) ≡ false = ap (λ i. a == i) (ground arith) ∙ apart 0 (omega arith) in
    ap₂ ◌∷◌ (stored_apart m a (v ∷ []) s (ground arith)) (
      held-stored m size (wrap size (s + 1)) n a v (ground arith) (omega arith)
        (λ i lt. ap (λ j. a == j) (ground arith) ∙ apart (suc i) (omega arith)))

stored_one : (m : Memory) (a v : ℕ) → stored m a (v ∷ []) a ≡ v
stored_one m a v = ap (stored m a (v ∷ [])) (omega arith) ∙ stored_at m a (v ∷ []) 0 (omega arith)

-- The bytes held after another one has come.
held-pushed :
    (m : Memory) (size s n v : ℕ)
    → s < size
    → 0 < n
    → n ≤ size
    → held (stored m (wrap size (s + n)) (v ∷ [])) size (next_start size s n) (next_length size n)
      ≡ (if n == size then drop 1 (held m size s n) else held m size s n) ++ v ∷ []
held-pushed m size s zero v within pos le = absurd (omega arith)
held-pushed m size s (suc k) v within pos le = elim (Bool-cases (suc k == size)) [
  | inr room ↦
      let ne = ==→ne (suc k) size room in
      let a : ℕ = wrap size (s + suc k) in
      let longer : suc k + 1 ≡ suc (suc k) = omega arith in
      rw (room, longer)
        (held-snoc (stored m a (v ∷ [])) size s (suc k) within (ground arith)
          ∙ ap₂ (λ (xs : List ℕ) (x : ℕ). xs ++ x ∷ [])
              (held-stored m size s (suc k) a v within le (λ i lt. ground arith))
              (stored_one m a v))
  | inl full ↦
      let whole : suc k ≡ size = ==→eq (suc k) size full in
      let a : ℕ = wrap size (s + suc k) in
      let second : ℕ = wrap size (s + 1) in
      let below : second < size = ground arith in
      let end : wrap size (second + k) ≡ a = ground arith in
      rw full (
        held-snoc (stored m a (v ∷ [])) size second k below (omega arith)
        ∙ ap₂ (λ (xs : List ℕ) (x : ℕ). xs ++ x ∷ [])
            (held-stored m size second k a v below (omega arith) (λ i lt. ground arith))
            (ap (stored m a (v ∷ [])) end ∙ stored_one m a v))
]

-- With bytes only, in a buffer that does not grow: push of a byte to a queue of some bytes
-- succeeds. The bytes held are then those of before and the new one, but for the oldest where the
-- queue was full.
pub push_u8_lem :
    (alloc : ℕ → Bool) (float_of : ℤ → List ℕ) (m : Memory) (size s n allocated v : ℕ)
    → s < size
    → 0 < n
    → n ≤ size
    → v < 256
    → let m1 = stored m (wrap size (s + n)) (v ∷ []) in
      let s1 = next_start size s n in
      let n1 = next_length size n in
      (push_u8 alloc float_of v (queue m size allocated (some (region size s n)))
        ≡ some (queue m1 size allocated (some (region size s1 n1))))
      × (held m1 size s1 n1
          ≡ (if n == size then drop 1 (held m size s n) else held m size s n) ++ v ∷ [])
push_u8_lem alloc float_of m size s n allocated v within pos le byte = (
  push_u8-pushed size s n within pos le alloc float_of m allocated v byte,
  held-pushed m size s n v within pos le,
)

one_byte : (v : ℕ) → bytes_number (v ∷ []) ≡ v
unfolding bytes_number
one_byte v = omega arith

pop_region_lem :
    (size s n : ℕ)
    → s < size
    → suc n ≤ size
    → pop_region size (region size s (suc n))
      ≡ (if n == 0 then none else some (region size (wrap size (s + 1)) n))
unfolding pop_region
pop_region_lem size s n within le = elim (Bool-cases (n == 0)) [
  | inl only ↦
      let at_last : (s == wrap size (s + suc n - 1)) ≡ true = ground arith in
      rw (only, at_last) refl
  | inr more ↦
      let before : (s == wrap size (s + suc n - 1)) ≡ false = ground arith in
      let next : ℕ = if ltb size (s + 1 + 1) then 0 else s + 1 in
      let same : next ≡ wrap size (s + 1) = ground arith in
      let aligned : (ltb next (wrap size (s + suc n - 1))
            && ltb (wrap size (s + suc n - 1)) (next + 1))
          ≡ false =
        ground arith in
      let last : wrap size (s + suc n - 1) ≡ wrap size (wrap size (s + 1) + n - 1) = ground arith in
      let end : wrap size (s + suc n) ≡ wrap size (wrap size (s + 1) + n) = ground arith in
      rw (before, aligned, more)
        (ap
            (λ (k : ℕ). some (record {
              start = some k;
              last = wrap size (s + suc n - 1);
              next = wrap size (s + suc n);
              bytes = 1;
            }))
            same
          ∙ ap₂
              (λ (l k : ℕ).
                some (record { start = some (wrap size (s + 1)); last = l; next = k; bytes = 1 }))
              last end)
]

-- pop of a queue of bytes gives the oldest; the others are then held, or, if it was the last, there
-- is no region left.
pub pop_lem :
    (m : Memory) (size s n allocated : ℕ)
    → s < size
    → suc n ≤ size
    → (pop (queue m size allocated (some (region size s (suc n)))) ≡ (
      uint32_value (m s),
      queue m size allocated (if n == 0 then none else some (region size (wrap size (s + 1)) n)),
    ))
      × (held m size s (suc n) ≡ m s ∷ held m size (wrap size (s + 1)) n)
unfolding pop pop_from
pop_lem m size s n allocated within le = (
  ap₂ (λ v t. (uint32_value v, queue m size allocated t)) (one_byte (m s))
      (pop_region_lem size s n within le),
  refl,
)

-- A push of a byte to a queue that pop has emptied follows the NULL pointer of its region.
pub push_u8_emptied :
    (alloc : ℕ → Bool) (float_of : ℤ → List ℕ) (m : Memory) (size s allocated v : ℕ)
    → s < size
    → push_u8 alloc float_of v (pop (queue m size allocated (some (region size s 1)))).1 ≡ none
unfolding push_u8 push_as log_data init
push_u8_emptied alloc float_of m size s allocated v within =
    rw ((pop_lem m size s 0 allocated within (omega arith)).0) refl
