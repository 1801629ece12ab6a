-- ===== src/Log/Rows/Texts.antt =====
-- Rows of text as lines, and rows in a memory that has changed elsewhere.
use codal_microbit_v.Base.{
  Memory, ℕ, zero, suc, ◌+◌, ◌≤◌, ◌<◌, ◌≡◌, refl, ap, ◌∙◌, arith, Bool, true, false, not, ◌&&◌,
  List, [], ◌∷◌, ◌++◌, length, get_or, ltb, ◌==◌,
}
use codal_microbit_v.Log.Text.{c_string}
use codal_microbit_v.Log.Reading.{is_newline}
use codal_microbit_v.Log.Reading.Lines.{IsRow, AreRows, rows_size}

-- The symbols that a row may have: bytes, without NUL, newline and 0xFF.
unfoldable pub is_text : List ℕ → Bool
is_text [] = true
is_text (c ∷ s) = (ltb c 255 && (not (c == 0) && not (c == 10))) && is_text s

abbrev pub line_of : List ℕ → List ℕ
line_of row = row ++ 10 ∷ []

pub c_string-line : (row : List ℕ) → is_text row ≡ true → c_string (line_of row) ≡ line_of row
unfolding c_string is_text
c_string-line [] text = refl
c_string-line (c ∷ s) text =
    let used : (c == 0) ≡ false = ground arith in
    let rest : is_text s ≡ true = ground arith in rw used (ap (◌∷◌ c) (c_string-line s rest))

pub line_small : (row : List ℕ) → is_text row ≡ true → (k : ℕ) → get_or (line_of row) k 0 < 256
unfolding is_text
line_small [] text zero = omega arith
line_small [] text (suc k) = omega arith
line_small (c ∷ s) text zero = ground arith
line_small (c ∷ s) text (suc k) = line_small s (ground arith) k

pub line-IsRow :
    (row : List ℕ) (m : Memory) (a : ℕ)
    → is_text row ≡ true
    → ((d : ℕ) → d ≤ length row → m (a + d) ≡ get_or (line_of row) d 0)
    → IsRow m a row
unfolding is_text is_newline
line-IsRow [] m a text at = ap m (omega arith) ∙ at 0 (omega arith)
line-IsRow (c ∷ s) m a text at = (
  ap m (omega arith) ∙ at 0 (omega arith),
  ground arith,
  ground arith,
  line-IsRow s m (a + 1) (ground arith) (λ d le. ap m (omega arith) ∙ at (suc d) (omega arith)),
)

-- Rows stay rows where the memory that they lie in is as it was.
same-IsRow :
    (r : List ℕ) (m m' : Memory) (a : ℕ)
    → ((d : ℕ) → d ≤ length r → m' (a + d) ≡ m (a + d))
    → IsRow m a r
    → IsRow m' a r
same-IsRow [] m m' a same h = ap m' (omega arith) ∙ same 0 (omega arith) ∙ ap m (omega arith) ∙ h
same-IsRow (x ∷ r) m m' a same h = (
  ap m' (omega arith) ∙ same 0 (omega arith) ∙ ap m (omega arith) ∙ h.0,
  h.1,
  h.2,
  same-IsRow r m m' (a + 1)
      (λ d le. ap m' (omega arith) ∙ same (suc d) (omega arith) ∙ ap m (omega arith)) h.3,
)

pub same-AreRows :
    (rs : List (List ℕ)) (m m' : Memory) (a : ℕ)
    → ((d : ℕ) → d < rows_size rs → m' (a + d) ≡ m (a + d))
    → AreRows m a rs
    → AreRows m' a rs
same-AreRows [] m m' a same h = tt
same-AreRows (r ∷ rs) m m' a same h = (
  same-IsRow r m m' a (λ d le. same d (omega arith)) h.0,
  same-AreRows rs m m' (a + length r + 1)
      (λ d lt. ap m' (omega arith) ∙ same (length r + 1 + d) (omega arith) ∙ ap m (omega arith))
      h.1,
)

pub append-AreRows :
    (rs : List (List ℕ)) (r : List ℕ) (m : Memory) (a : ℕ)
    → AreRows m a rs
    → IsRow m (a + rows_size rs) r
    → AreRows m a (rs ++ r ∷ [])
append-AreRows [] r m a h last = let at : a + 0 ≡ a = omega arith in (rw at at last, tt)
append-AreRows (s ∷ rs) r m a h last =
    let at : a + (length s + 1 + rows_size rs) ≡ a + length s + 1 + rows_size rs = omega arith in
    (h.0, append-AreRows rs r m (a + length s + 1) h.1 (rw at at last))

pub rows_size-append :
    (rs : List (List ℕ)) (r : List ℕ) → rows_size (rs ++ r ∷ []) ≡ rows_size rs + (length r + 1)
rows_size-append [] r = omega arith
rows_size-append (s ∷ rs) r = omega (arith, rows_size-append rs r)
