-- ===== src/Log/Cleaning.antt =====
-- What cleanBuffer guarantees of a text.
use codal_microbit_v.Base.{
  ℕ, zero, suc, ◌-◌, ◌≡◌, refl, ap, ◌∙◌, arith, Bool, false, ◌||◌, List, [], ◌∷◌, length, get_or,
  ltb, ◌==◌, if◌then◌else◌, Bool-cases, inl, inr, ◌⊎◌,
}
use codal_microbit_v.Log.Text.{
  starts_arrow, is_separator, invalid_char, clean_loop, has_invalid, clean_buffer, cleaned,
}

-- Whether "-->" is somewhere in the text.
unfoldable pub has_arrow : List ℕ → Bool
has_arrow [] = false
has_arrow (c ∷ s) = starts_arrow (c ∷ s) || has_arrow s

unfoldable pub has_separator : Bool → List ℕ → Bool
has_separator remove_separators [] = false
has_separator remove_separators (c ∷ s) =
    is_separator remove_separators c || has_separator remove_separators s

-- The symbols still to be marked after the first of a text.
abbrev next_mark : ℕ → ℕ → List ℕ → ℕ
next_mark m c s = (if starts_arrow (c ∷ s) then 3 else m) - 1

length-clean_loop : (m : ℕ) (r : Bool) (s : List ℕ) → length (clean_loop m r s) ≡ length s
unfolding clean_loop
length-clean_loop m r [] = refl
length-clean_loop m r (c ∷ s) = ap suc (length-clean_loop (next_mark m c s) r s)

starts_arrow-clean_loop : (m : ℕ) (r : Bool) (s : List ℕ) → starts_arrow (clean_loop m r s) ≡ false
unfolding clean_loop starts_arrow
starts_arrow-clean_loop m r [] = refl
starts_arrow-clean_loop m r (a ∷ []) = refl
starts_arrow-clean_loop m r (a ∷ b ∷ []) = refl
starts_arrow-clean_loop m r (a ∷ b ∷ c ∷ s) = ground arith

has_arrow-clean_loop : (m : ℕ) (r : Bool) (s : List ℕ) → has_arrow (clean_loop m r s) ≡ false
unfolding clean_loop has_arrow
has_arrow-clean_loop m r [] = refl
has_arrow-clean_loop m r (c ∷ s) =
    let first : starts_arrow (clean_loop m r (c ∷ s)) ≡ false =
      starts_arrow-clean_loop m r (c ∷ s) in
    ground (arith, first, has_arrow-clean_loop (next_mark m c s) r s)

has_separator-clean_loop :
    (m : ℕ) (r : Bool) (s : List ℕ) → has_separator r (clean_loop m r s) ≡ false
unfolding clean_loop has_separator
has_separator-clean_loop m r [] = refl
has_separator-clean_loop m r (c ∷ s) =
    ground (arith, has_separator-clean_loop (next_mark m c s) r s)

-- A text in which nothing is to be cleaned.
has_invalid-neither :
    (r : Bool) (s : List ℕ)
    → has_invalid r s ≡ false
    → (has_arrow s ≡ false) × (has_separator r s ≡ false)
unfolding has_invalid has_arrow has_separator
has_invalid-neither r [] h = (refl, refl)
has_invalid-neither r (c ∷ s) h = elim (Bool-cases (starts_arrow (c ∷ s) || is_separator r c)) [
  | inl y ↦ ground arith
  | inr n ↦ let rest = has_invalid-neither r s (ground arith) in ground (arith, rest)
]

-- And the other way round.
neither-has_invalid :
    (r : Bool) (s : List ℕ)
    → has_arrow s ≡ false
    → has_separator r s ≡ false
    → has_invalid r s ≡ false
unfolding has_invalid has_arrow has_separator
neither-has_invalid r [] h k = refl
neither-has_invalid r (c ∷ s) h k =
    let rest = neither-has_invalid r s (ground arith) (ground arith) in ground (arith, rest)

-- The symbol of a cleaned text is the one before or the replacement.
clean_loop_keeps :
    (m : ℕ) (r : Bool) (s : List ℕ) (i : ℕ)
    → (get_or (clean_loop m r s) i 0 ≡ get_or s i 0)
      ⊎ (get_or (clean_loop m r s) i 0 ≡ invalid_char)
unfolding clean_loop
clean_loop_keeps m r [] i = inl refl
clean_loop_keeps m r (c ∷ s) zero =
    elim (Bool-cases (ltb 0 (if starts_arrow (c ∷ s) then 3 else m) || is_separator r c)) [
      | inl y ↦ rw y (inr refl)
      | inr n ↦ rw n (inl refl)
    ]
clean_loop_keeps m r (c ∷ s) (suc i) = clean_loop_keeps (next_mark m c s) r s i

-- The result is the text itself or what the loop gives.
cleaned_is :
    (r : Bool) (s : List ℕ) → cleaned r s ≡ (if has_invalid r s then clean_loop 0 r s else s)
unfolding cleaned clean_buffer
cleaned_is r [] = refl
cleaned_is r (c ∷ s) = elim (Bool-cases (has_invalid r (c ∷ s))) [
  | inl y ↦
      let some_left : (length (clean_loop 0 r (c ∷ s)) == 0) ≡ false =
        rw (length-clean_loop 0 r (c ∷ s)) (ground arith) in
      rw (y, some_left) refl
  | inr n ↦ rw n refl
]

-- A text with neither arrows nor separators is left as it is.
pub cleaned_clean :
    (r : Bool) (s : List ℕ) → has_arrow s ≡ false → has_separator r s ≡ false → cleaned r s ≡ s
cleaned_clean r s h k = cleaned_is r s ∙ (rw (neither-has_invalid r s h k) refl)

record IsClean (r : Bool) (s t : List ℕ) : Type 0 where
  no_arrow : has_arrow t ≡ false
  no_separator : has_separator r t ≡ false
  same_length : length t ≡ length s
  kept : (i : ℕ) → (get_or t i 0 ≡ get_or s i 0) ⊎ (get_or t i 0 ≡ invalid_char)

cleaned-IsClean : (r : Bool) (s : List ℕ) → IsClean r s (cleaned r s)
cleaned-IsClean r s = elim (Bool-cases (has_invalid r s)) [
  | inl y ↦
      let is : cleaned r s ≡ clean_loop 0 r s = cleaned_is r s ∙ (rw y refl) in
      rw is (record {
        no_arrow = has_arrow-clean_loop 0 r s;
        no_separator = has_separator-clean_loop 0 r s;
        same_length = length-clean_loop 0 r s;
        kept = clean_loop_keeps 0 r s;
      })
  | inr n ↦
      let is : cleaned r s ≡ s = cleaned_is r s ∙ (rw n refl) in
      let neither = has_invalid-neither r s n in
      rw is (record {
        no_arrow = neither.0;
        no_separator = neither.1;
        same_length = refl;
        kept = λ i. inl refl;
      })
]

-- A text cleaned has no "-->" and no tab and, where separators are removed, no comma and no newline;
-- it has the length it had, each symbol is the one before or `_`, and to clean it again changes
-- nothing.
pub cleaned_lem :
    (r : Bool) (s : List ℕ)
    → let t = cleaned r s in
      (has_arrow t ≡ false)
      × (has_separator r t ≡ false)
      × (length t ≡ length s)
      × ((i : ℕ) → (get_or t i 0 ≡ get_or s i 0) ⊎ (get_or t i 0 ≡ invalid_char))
      × (cleaned r t ≡ t)
cleaned_lem r s =
    let c = cleaned-IsClean r s in
    (
      c.no_arrow,
      c.no_separator,
      c.same_length,
      c.kept,
      cleaned_clean r (cleaned r s) c.no_arrow c.no_separator,
    )
