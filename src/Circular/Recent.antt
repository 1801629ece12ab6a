-- ===== src/Circular/Recent.antt =====
-- What a queue of bytes holds after any number of pushes: the most recent ones.
use mathlib.Core.Path.{subst}
use codal_microbit_v.Base.{
  Memory, stored, ℕ, zero, suc, ◌+◌, ◌-◌, ◌≤◌, ◌<◌, ◌≡◌, refl, sym, ap, ◌∙◌, arith, Bool, true,
  ◌&&◌, Option, none, some, List, [], ◌∷◌, ◌++◌, append_assoc, append-nil, length, length-append,
  length-drop, drop, drop-append, drop-drop, ltb, ◌==◌, ==→eq, ==→ne, if◌then◌else◌, Bool-cases,
  inl, inr, ℤ,
}
use codal_microbit_v.Circular.{CircularBuffer}
use codal_microbit_v.Circular.Queue.{push_u8}
use codal_microbit_v.Circular.Bytes.{wrap, region, queue, held, next_start, next_length}
use codal_microbit_v.Circular.Fifo.{push_u8_lem}

-- The last `size` of them.
abbrev pub recent : ℕ → List ℕ → List ℕ
recent size xs = drop (length xs - size) xs

recent-append :
    (size : ℕ) (xs ys : List ℕ) → recent size (recent size xs ++ ys) ≡ recent size (xs ++ ys)
recent-append size xs ys =
    let k : ℕ = length xs - size in
    let joined : recent size xs ++ ys ≡ drop k (xs ++ ys) =
      sym (drop-append k xs ys (omega arith)) in
    let l1 = length-append (recent size xs) ys in
    let l2 = length-drop k xs in
    let l3 = length-append xs ys in
    let total : k + (length (recent size xs ++ ys) - size) ≡ length (xs ++ ys) - size =
      omega (arith, l1, l2, l3) in
    ap (drop (length (recent size xs ++ ys) - size)) joined
    ∙ drop-drop (xs ++ ys) (length (recent size xs ++ ys) - size) k
    ∙ ap (λ i. drop i (xs ++ ys)) total

length-held : (m : Memory) (size s n : ℕ) → length (held m size s n) ≡ n
length-held m size s zero = refl
length-held m size s (suc n) = ap suc (length-held m size (wrap size (s + 1)) n)

-- A queue of a fixed size that holds the bytes, at least one.
pub record Holds (size allocated : ℕ) (xs : List ℕ) (b : CircularBuffer) : Type 0 where
  pub memory : Memory
  pub start : ℕ
  pub number : ℕ
  pub within : start < size
  pub some_byte : 0 < number
  pub fits : number ≤ size
  pub queue_is : b ≡ queue memory size allocated (some (region size start number))
  pub bytes_are : held memory size start number ≡ xs

-- The same of a buffer that went through a push without going wrong.
abbrev pub StillHolds : ℕ → ℕ → List ℕ → Option CircularBuffer → Type 0
StillHolds size allocated xs none = ⊥
StillHolds size allocated xs (some b) = Holds size allocated xs b

-- Bytes pushed one after the other.
unfoldable pub push_bytes :
    (ℕ → Bool) → (ℤ → List ℕ) → List ℕ → CircularBuffer → Option CircularBuffer
push_bytes alloc float_of [] b = some b
push_bytes alloc float_of (v ∷ vs) b = elim (push_u8 alloc float_of v b) [
  | none ↦ none
  | some c ↦ push_bytes alloc float_of vs c
]

-- All are bytes.
unfoldable pub are_bytes : List ℕ → Bool
are_bytes [] = true
are_bytes (v ∷ vs) = ltb v 256 && are_bytes vs

module _ (alloc : ℕ → Bool) (float_of : ℤ → List ℕ) where
  push_u8-Holds :
      (size allocated v : ℕ) (xs : List ℕ) (b : CircularBuffer)
      → Holds size allocated xs b
      → v < 256
      → (c : CircularBuffer) × (push_u8 alloc float_of v b ≡ some c)
        × Holds size allocated (recent size (xs ++ v ∷ [])) c
  push_u8-Holds size allocated v xs b h byte =
      let n : ℕ = h.number in
      let after =
        push_u8_lem alloc float_of h.memory size h.start n allocated v h.within h.some_byte h.fits
          byte in
      let long : length xs ≡ n =
        sym (ap length h.bytes_are) ∙ length-held h.memory size h.start n in
      let longer = length-append xs (v ∷ []) in
      let kept : (if n == size then drop 1 xs else xs) ++ v ∷ [] ≡ recent size (xs ++ v ∷ []) =
        elim (Bool-cases (n == size)) [
          | inl full ↦
              let one : 1 ≡ length (xs ++ v ∷ []) - size =
                omega (arith, ==→eq n size full, long, longer) in
              rw full (
                sym (drop-append 1 xs (v ∷ []) (omega (arith, long, h.some_byte)))
                ∙ ap (λ i. drop i (xs ++ v ∷ [])) one)
          | inr room ↦
              let ne = ==→ne n size room in
              let nothing : 0 ≡ length (xs ++ v ∷ []) - size =
                ground (arith, ne, long, longer, h.fits) in
              rw room (ap (λ i. drop i (xs ++ v ∷ [])) nothing)
        ] in
      (
        queue (stored h.memory (wrap size (h.start + n)) (v ∷ [])) size allocated
            (some (region size (next_start size h.start n) (next_length size n))),
        ap (push_u8 alloc float_of v) h.queue_is ∙ after.0,
        record {
          memory = stored h.memory (wrap size (h.start + n)) (v ∷ []);
          start = next_start size h.start n;
          number = next_length size n;
          within = ground (arith, h.within);
          some_byte = ground (arith, h.some_byte);
          fits = ground (arith, h.fits);
          queue_is = refl;
          bytes_are =
              after.1
              ∙ ap (λ (ys : List ℕ). (if n == size then drop 1 ys else ys) ++ v ∷ []) h.bytes_are
              ∙ kept;
        },
      )

  -- Bytes pushed to a queue of a fixed size that holds some, as many of them as there may be, leave it
  -- holding the most recent of all, as many as it has room for, in order.
  pub push_bytes_lem :
      (vs xs : List ℕ) (size allocated : ℕ) (b : CircularBuffer)
      → Holds size allocated xs b
      → length xs ≤ size
      → are_bytes vs ≡ true
      → StillHolds size allocated (recent size (xs ++ vs)) (push_bytes alloc float_of vs b)
  unfolding push_bytes are_bytes
  push_bytes_lem [] xs size allocated b h le bytes =
      let none_over : 0 ≡ length xs - size = omega (arith, le) in
      let same : xs ≡ recent size (xs ++ []) =
        ap (λ i. drop i xs) none_over ∙ ap (recent size) (sym (append-nil xs)) in
      subst (λ ys. Holds size allocated ys b) same h
  push_bytes_lem (v ∷ vs) xs size allocated b h le bytes =
      let byte : v < 256 = ground (arith, bytes) in
      let (c, is, held_then) = push_u8-Holds size allocated v xs b h byte in
      let ys : List ℕ = xs ++ v ∷ [] in
      let shorter = length-drop (length ys - size) ys in
      let rest =
        push_bytes_lem vs (recent size ys) size allocated c held_then (omega (arith, shorter))
          (ground (arith, bytes)) in
      let all : recent size (recent size ys ++ vs) ≡ recent size (xs ++ v ∷ vs) =
        recent-append size ys vs ∙ ap (recent size) (append_assoc xs (v ∷ []) vs) in
      rw (is, StillHolds)
        (subst (λ zs. StillHolds size allocated zs (push_bytes alloc float_of vs c)) all rest)
