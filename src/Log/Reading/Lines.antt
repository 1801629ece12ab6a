-- ===== src/Log/Reading/Lines.antt =====
-- Rows that lie in the memory one after the other, and where the walks of getRow find them.
use mathlib.Core.Path.{subst}
use codal_microbit_v.Base.{
  Memory, bytes_at, ℕ, zero, suc, ◌+◌, ◌-◌, ◌≤◌, ◌<◌, ◌≡◌, refl, ap, ap₂, ◌∙◌, arith, true, false,
  not, ◌&&◌, Option, none, some, List, [], ◌∷◌, length, get_or, ltb, ◌==◌, ==→eq, ==→ne,
  if◌then◌else◌, Bool-cases, inl, inr,
}
use codal_microbit_v.Log.Reading.{is_newline, is_found}
use codal_microbit_v.Log.Reading.Walks.{forward_in}

-- A row at an address: no newline and no unused byte in it, and a newline behind it.
abbrev pub IsRow : Memory → ℕ → List ℕ → Type 0
IsRow m a [] = m a ≡ 10
IsRow m a (x ∷ r) = (m a ≡ x) × (is_newline x ≡ false) × ((x == 0xFF) ≡ false) × IsRow m (a + 1) r

abbrev pub AreRows : Memory → ℕ → List (List ℕ) → Type 0
AreRows m a [] = Unit {0}
AreRows m a (r ∷ rs) = IsRow m a r × AreRows m (a + length r + 1) rs

abbrev pub rows_size : List (List ℕ) → ℕ
rows_size [] = 0
rows_size (r ∷ rs) = length r + 1 + rows_size rs

pub rows_size_pos : (rs : List (List ℕ)) → 0 < length rs → 0 < rows_size rs
rows_size_pos [] pos = absurd (omega arith)
rows_size_pos (r ∷ rs) pos = omega arith

-- A walk that found the row, within the bounds.
pub record IsFound (m : Memory) (low high : ℕ) (row : List ℕ) (w : Option ℕ × ℕ) : Type 0 where
  pub start : ℕ
  pub is : w ≡ (some start, start + length row)
  pub bytes : bytes_at m start (length row) ≡ row
  pub lower : low ≤ start
  pub upper : start + length row ≤ high

module _ (m : Memory) where
  pub row_bytes : (r : List ℕ) (a : ℕ) → IsRow m a r → bytes_at m a (length r) ≡ r
  row_bytes [] a h = refl
  row_bytes (x ∷ r) a h = ap₂ ◌∷◌ h.0 (row_bytes r (a + 1) h.3)

  pub row_end : (r : List ℕ) (a : ℕ) → IsRow m a r → m (a + length r) ≡ 10
  row_end [] a h = ap m (omega arith) ∙ h
  row_end (x ∷ r) a h = ap m (omega arith) ∙ row_end r (a + 1) h.3

  pub row_plain :
      (r : List ℕ) (a d : ℕ) → IsRow m a r → d < length r → is_newline (m (a + d)) ≡ false
  row_plain [] a d h lt = absurd (omega arith)
  row_plain (x ∷ r) a zero h lt = ap (λ i. is_newline (m i)) (omega arith) ∙ ap is_newline h.0 ∙ h.1
  row_plain (x ∷ r) a (suc d) h lt =
      ap (λ i. is_newline (m i)) (omega arith) ∙ row_plain r (a + 1) d h.3 (omega arith)

  row_used : (r : List ℕ) (a d : ℕ) → IsRow m a r → d ≤ length r → (m (a + d) == 0xFF) ≡ false
  row_used [] a d h le = let at : m (a + d) ≡ 10 = ap m (omega arith) ∙ h in rw at refl
  row_used (x ∷ r) a zero h lt = ap (λ i. m i == 0xFF) (omega arith) ∙ ap (λ b. b == 0xFF) h.0 ∙ h.2
  row_used (x ∷ r) a (suc d) h lt =
      ap (λ i. m i == 0xFF) (omega arith) ∙ row_used r (a + 1) d h.3 (omega arith)

  pub rows_used :
      (rs : List (List ℕ)) (a d : ℕ)
      → AreRows m a rs
      → d < rows_size rs
      → (m (a + d) == 0xFF) ≡ false
  rows_used [] a d h lt = absurd (omega arith)
  rows_used (r ∷ rs) a d h lt = elim (Bool-cases (ltb (length r) d)) [
    | inl y ↦
        ap (λ i. m i == 0xFF) (ground arith)
        ∙ rows_used rs (a + length r + 1) (d - length r - 1) h.1 (ground arith)
    | inr n ↦ row_used r a d h.0 (ground arith)
  ]

  -- What `forward_in` comes to at the newline of a row.
  abbrev after_row : ℕ → ℕ → ℕ → ℕ → Option ℕ → Option ℕ × ℕ
  after_row n e index count start =
      if is_found start && count + 1 == index + 1
      then (start, e)
      else forward_in m n (e + 1) index (count + 1)
          (if not (is_found start) && count + 1 == index then some (e + 1) else start)

  forward_in-row :
      (r : List ℕ) (k n a index count : ℕ) (start : Option ℕ)
      → k ≡ length r + 1 + n
      → IsRow m a r
      → forward_in m k a index count start ≡ after_row n (a + length r) index count start
  unfolding forward_in is_newline
  forward_in-row [] zero n a index count start is h = absurd (omega arith)
  forward_in-row [] (suc k) n a index count start is h =
      let left : k ≡ n = omega arith in let at : a + 0 ≡ a = omega arith in rw (h, left, at) refl
  forward_in-row (x ∷ r) zero n a index count start is h = absurd (omega arith)
  forward_in-row (x ∷ r) (suc k) n a index count start is h =
      let plain : is_newline (m a) ≡ false = ap is_newline h.0 ∙ h.1 in
      let at : a + suc (length r) ≡ a + 1 + length r = omega arith in
      rw (plain, at) (forward_in-row r k n (a + 1) index count start (omega arith) h.3)

  -- The row at which the walk has arrived.
  forward_in-here :
      (r : List ℕ) (rs : List (List ℕ)) (n a index : ℕ)
      → n ≡ length r + 1 + rows_size rs
      → IsRow m a r
      → forward_in m n a index index (some a) ≡ (some a, a + length r)
  forward_in-here r rs n a index is h =
      forward_in-row r n (rows_size rs) a index index (some a) is h ∙ (rw (same) refl)
    where
      same : (index + 1 == index + 1) ≡ true
      same = ground arith

  pub row-IsFound :
      (r : List ℕ) (a low high : ℕ) (w : Option ℕ × ℕ)
      → IsRow m a r
      → w ≡ (some a, a + length r)
      → low ≤ a
      → a + length r ≤ high
      → IsFound m low high r w
  row-IsFound r a low high w h is lower upper = record {
    start = a;
    is = is;
    bytes = row_bytes r a h;
    lower = lower;
    upper = upper;
  }

  later_row :
      (r : List ℕ) (rs : List (List ℕ)) (i : ℕ)
      → 0 < i
      → get_or (r ∷ rs) i [] ≡ get_or rs (i - 1) []
  later_row r rs zero pos = absurd (omega arith)
  later_row r rs (suc i) pos = ap (λ j. get_or rs j []) (omega arith)

  forward_in-later :
      (rs : List (List ℕ)) (n a index count low high : ℕ)
      → n ≡ rows_size rs
      → AreRows m a rs
      → count < index
      → index < count + length rs
      → low ≤ a
      → a + n ≤ high
      → IsFound m low high (get_or rs (index - count) []) (forward_in m n a index count none)
  forward_in-later [] n a index count low high is h before lt lower upper = absurd (omega arith)
  forward_in-later (r ∷ []) n a index count low high is h before lt lower upper =
      absurd (omega arith)
  forward_in-later (r ∷ s ∷ rs) n a index count low high is h before lt lower upper =
      let next = a + length r + 1 in
      let lo : low ≤ next = omega arith in
      let hi : next + length s ≤ high = omega arith in
      let passed = forward_in-row r n (rows_size (s ∷ rs)) a index count none is h.0 in
      elim (Bool-cases (count + 1 == index)) [
        | inl y ↦
            let counted : count + 1 ≡ index = ==→eq (count + 1) index y in
            let one : index - count ≡ 1 = omega arith in
            let w =
              passed
              ∙ (rw y (
                  ap (λ i. forward_in m (rows_size (s ∷ rs)) next index i (some next)) counted
                  ∙ forward_in-here s rs (rows_size (s ∷ rs)) next index refl h.1.0)) in
            rw one (row-IsFound s next low high _ h.1.0 w lo hi)
        | inr n' ↦
            let apart = ==→ne (count + 1) index n' in
            let deeper : index - count - 1 ≡ index - (count + 1) = omega arith in
            let rest =
              forward_in-later (s ∷ rs) (rows_size (s ∷ rs)) next index (count + 1) low high refl
                h.1 (ground arith) (omega arith) (omega arith) (omega arith) in
            rw (later_row r (s ∷ rs) (index - count) (omega arith), deeper, passed) (rw n' rest)
      ]

  -- The walk of getRow from the first row on finds row `index`.
  pub forward_in-IsFound :
      (rs : List (List ℕ)) (a index : ℕ)
      → AreRows m a rs
      → index < length rs
      → IsFound m a
          (a + rows_size rs)
          (get_or rs index [])
          (forward_in m (rows_size rs) a index 0 (if index == 0 then some a else none))
  forward_in-IsFound [] a index h lt = absurd (omega arith)
  forward_in-IsFound (r ∷ rs) a zero h lt =
      row-IsFound r a a _ _ h.0 (forward_in-here r rs _ a 0 refl h.0) (omega arith) (omega arith)
  forward_in-IsFound (r ∷ rs) a (suc i) h lt =
      let all : suc i - 0 ≡ suc i = omega arith in
      let found =
        forward_in-later (r ∷ rs) (rows_size (r ∷ rs)) a (suc i) 0 a (a + rows_size (r ∷ rs)) refl h
          (omega arith) (omega arith) (omega arith) (omega arith) in
      let later : (suc i == 0) ≡ false = ground arith in
      rw later (
        subst
          (λ (j : ℕ).
            IsFound m a (a + rows_size (r ∷ rs)) (get_or (r ∷ rs) j [])
              (forward_in m (rows_size (r ∷ rs)) a (suc i) 0 none))
          all found)
