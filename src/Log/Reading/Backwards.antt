-- ===== src/Log/Reading/Backwards.antt =====
-- The walk of getRow from the end of the rows.
use codal_microbit_v.Base.{
  Memory, ℕ, zero, suc, ◌+◌, ◌-◌, ◌≤◌, ◌<◌, ◌≡◌, refl, ap, ap₂, ◌∙◌, arith, true, false, Option,
  none, some, List, [], ◌∷◌, length, get_or, ltb, ◌==◌, ==→ne, if◌then◌else◌, Bool-cases, inl, inr,
}
use codal_microbit_v.Log.Reading.{is_newline}
use codal_microbit_v.Log.Reading.Walks.{backward_in}
use codal_microbit_v.Log.Reading.Lines.{
  IsRow, AreRows, rows_size, IsFound, row_end, row_plain, row-IsFound,
}

-- Rows, the last one first, that end before an address.
abbrev pub AreRowsBefore : Memory → ℕ → List (List ℕ) → Type 0
AreRowsBefore m e [] = Unit {0}
AreRowsBefore m e (r ∷ rs) =
    (length r + 1 ≤ e) × IsRow m (e - (length r + 1)) r × AreRowsBefore m (e - (length r + 1)) rs

abbrev pub reverse_onto : List (List ℕ) → List (List ℕ) → List (List ℕ)
reverse_onto [] done = done
reverse_onto (r ∷ rs) done = reverse_onto rs (r ∷ done)

reverse_onto-old :
    (rs done : List (List ℕ)) (j : ℕ)
    → get_or (reverse_onto rs done) (length rs + j) [] ≡ get_or done j []
reverse_onto-old [] done j = ap (λ i. get_or done i []) (omega arith)
reverse_onto-old (r ∷ rs) done j =
    ap (λ i. get_or (reverse_onto rs (r ∷ done)) i []) (omega arith)
    ∙ reverse_onto-old rs (r ∷ done) (suc j)

pub get_or-reverse_onto :
    (rs done : List (List ℕ)) (i : ℕ)
    → i < length rs
    → get_or (reverse_onto rs done) i [] ≡ get_or rs (length rs - 1 - i) []
get_or-reverse_onto [] done i lt = absurd (omega arith)
get_or-reverse_onto (r ∷ rs) done i lt = elim (Bool-cases (ltb i (length rs))) [
  | inl y ↦
      let shifted : suc (length rs - 1 - i) ≡ suc (length rs) - 1 - i = ground arith in
      get_or-reverse_onto rs (r ∷ done) i (ground arith) ∙ ap (λ j. get_or (r ∷ rs) j []) shifted
  | inr n ↦
      let last : i ≡ length rs + 0 = ground arith in
      let first : 0 ≡ suc (length rs) - 1 - i = ground arith in
      ap (λ j. get_or (reverse_onto rs (r ∷ done)) j []) last
      ∙ reverse_onto-old rs (r ∷ done) 0
      ∙ ap (λ j. get_or (r ∷ rs) j []) first
]

pub length-reverse_onto :
    (rs done : List (List ℕ)) → length (reverse_onto rs done) ≡ length rs + length done
length-reverse_onto [] done = omega arith
length-reverse_onto (r ∷ rs) done = omega (arith, length-reverse_onto rs (r ∷ done))

pub rows_size-reverse_onto :
    (rs done : List (List ℕ)) → rows_size (reverse_onto rs done) ≡ rows_size rs + rows_size done
rows_size-reverse_onto [] done = omega arith
rows_size-reverse_onto (r ∷ rs) done = omega (arith, rows_size-reverse_onto rs (r ∷ done))

pub reverse_onto-AreRowsBefore :
    (m : Memory) (a : ℕ) (rs done : List (List ℕ))
    → AreRows m a rs
    → AreRowsBefore m a done
    → AreRowsBefore m (a + rows_size rs) (reverse_onto rs done)
reverse_onto-AreRowsBefore m a [] done h before = let at : a + 0 ≡ a = omega arith in rw at before
reverse_onto-AreRowsBefore m a (r ∷ rs) done h before =
    let at : a + (length r + 1 + rows_size rs) ≡ a + length r + 1 + rows_size rs = omega arith in
    let back : a + length r + 1 - (length r + 1) ≡ a = omega arith in
    rw at (
      reverse_onto-AreRowsBefore m (a + length r + 1) rs (r ∷ done) h.1
        (omega arith, (rw back h.0), (rw back before)))

module _ (m : Memory) where
  -- Nothing happens within a row.
  backward_in-plain :
      (j n a back count end : ℕ)
      → ((d : ℕ) → d < j → is_newline (m (a + d)) ≡ false)
      → backward_in m (j + n) (a + j) back count end ≡ backward_in m n a back count end
  unfolding backward_in
  backward_in-plain zero n a back count end plain =
      ap₂ (λ x y. backward_in m x y back count end) (omega arith) (omega arith)
  backward_in-plain (suc j) n a back count end plain =
      let more : suc j + n ≡ suc (j + n) = omega arith in
      let before : a + suc j - 1 ≡ a + j = omega arith in
      rw (more, before)
        (rw (plain j (omega arith))
          (backward_in-plain j n a back count end (λ d lt. plain d (omega arith))))

  is_newline-newline : is_newline 10 ≡ true
  unfolding is_newline
  is_newline-newline = refl

  backward_in-row :
      (r : List ℕ) (k n e back count end : ℕ)
      → k ≡ length r + 1 + n
      → length r + 1 ≤ e
      → IsRow m (e - (length r + 1)) r
      → backward_in m k e back count end ≡ (
          if count == back
          then (some e, end)
          else backward_in m n (e - (length r + 1)) back (count + 1) (e - 1))
  unfolding backward_in
  backward_in-row r zero n e back count end is le h = absurd (omega arith)
  backward_in-row r (suc k) n e back count end is le h =
      let s : ℕ = e - (length r + 1) in
      let last : e - 1 ≡ s + length r = omega arith in
      let at : m (e - 1) ≡ 10 = ap m last ∙ row_end m r s h in
      let rest =
        ap₂ (λ x y. backward_in m x y back (count + 1) (e - 1)) (omega arith) last
        ∙ backward_in-plain (length r) n s back (count + 1) (e - 1)
            (λ d lt. row_plain m r s d h lt) in
      let newline : is_newline (m (e - 1)) ≡ true = ap is_newline at ∙ is_newline-newline in
      rw newline (ap (λ (w : Option ℕ × ℕ). if count == back then (some e, end) else w) rest)

  pub backward_in-IsFound :
      (rs : List (List ℕ)) (n e back count end low high : ℕ)
      → n ≡ rows_size rs
      → AreRowsBefore m e rs
      → count < back
      → back < count + length rs
      → low + n ≤ e
      → e ≤ high
      → IsFound m low high (get_or rs (back - count - 1) []) (backward_in m n e back count end)
  backward_in-IsFound [] n e back count end low high is h pos lt lower upper = absurd (omega arith)
  backward_in-IsFound (r ∷ []) n e back count end low high is h pos lt lower upper =
      absurd (omega arith)
  backward_in-IsFound (r ∷ s ∷ rs) n e back count end low high is h pos lt lower upper =
      let e' : ℕ = e - (length r + 1) in
      let lo : low ≤ e' = omega (arith, h.0) in
      let hi : e' + length r ≤ high = omega (arith, h.0) in
      let on : (count == back) ≡ false = ground arith in
      let last : e - 1 ≡ e' + length r = omega (arith, h.0) in
      let passed : backward_in m n e back count end
          ≡ backward_in m (rows_size (s ∷ rs)) e' back (count + 1) (e - 1) =
        backward_in-row r n (rows_size (s ∷ rs)) e back count end is h.0 h.1 ∙ (rw on refl) in
      elim (Bool-cases (count + 1 == back)) [
        | inl y ↦
            let one : back - count - 1 ≡ 0 = ground arith in
            let w =
              passed
              ∙ backward_in-row s (rows_size (s ∷ rs)) (rows_size rs) e' back (count + 1) (e - 1)
                  refl h.2.0 h.2.1
              ∙ (rw y (ap (λ (x : ℕ). (some e', x)) last)) in
            rw one (row-IsFound m r e' low high _ h.1 w lo hi)
        | inr n' ↦
            let apart = ==→ne (count + 1) back n' in
            let deeper : back - count - 1 ≡ suc (back - (count + 1) - 1) = ground arith in
            rw (deeper, passed)
              (backward_in-IsFound (s ∷ rs) (rows_size (s ∷ rs)) e' back (count + 1) (e - 1) low
                high refl h.2 (ground arith) (omega arith) (omega (arith, h.0)) (omega arith))
      ]

  pub backward_in-none :
      (rs : List (List ℕ)) (n e back count end : ℕ)
      → n ≡ rows_size rs
      → AreRowsBefore m e rs
      → count + length rs ≤ back
      → (backward_in m n e back count end).0 ≡ none
  unfolding backward_in
  backward_in-none [] zero e back count end is h le = refl
  backward_in-none [] (suc n) e back count end is h le = absurd (omega arith)
  backward_in-none (r ∷ rs) n e back count end is h le =
      let on : (count == back) ≡ false = ground arith in
      rw (backward_in-row r n (rows_size rs) e back count end is h.0 h.1) (
        rw on
          (backward_in-none rs (rows_size rs) _ back (count + 1) (e - 1) refl h.2 (omega arith)))
