-- ===== src/Log/Reading/Finding.antt =====
-- What getRow gives of a log whose data are rows.
use mathlib.Core.Path.{subst}
use codal_microbit_v.Base.{
  Memory, bytes_at, ℕ, ◌+◌, ◌-◌, ◌*◌, ◌^◌, ◌≤◌, ◌<◌, ◌≡◌, refl, sym, ap, ◌∙◌, arith, true, false,
  not, ◌&&◌, ◌||◌, Option, none, some, List, [], length, get_or, replicate, length-replicate, ltb,
  ◌==◌, if◌then◌else◌, Bool-cases, inl, inr, pos, negsuc,
}
use codal_microbit_v.FsCache
use codal_microbit_v.FsCache.Coherence.{IsCoherent}
use codal_microbit_v.Log.{Board, Log}
use codal_microbit_v.Log.Reading.{nearer_index, row_text, find_row, get_row, walk_backward}
use codal_microbit_v.Log.Reading.Walks.{
  IsFrom, fetch-IsFrom, walk_forward-IsFrom, walk_backward-IsFrom, backward_in,
}
use codal_microbit_v.Log.Reading.Lines.{
  AreRows, rows_size, IsFound, rows_used, forward_in-IsFound, rows_size_pos,
}
use codal_microbit_v.Log.Reading.Backwards.{
  AreRowsBefore, reverse_onto, get_or-reverse_onto, length-reverse_onto, rows_size-reverse_onto,
  reverse_onto-AreRowsBefore, backward_in-IsFound, backward_in-none,
}

-- A log over a coherent cache, of which the data are the rows.
pub record HasRows (board : Board) (l : Log) (rows : List (List ℕ)) : Type 0 where
  pub started : l.initialised ≡ true
  pub coherent : IsCoherent l.cache
  pub rows_are : AreRows l.cache.flash l.data_start rows
  pub end_is : l.data_end ≡ l.data_start + rows_size rows
  pub lower : board.nvm.flash_start ≤ l.data_start
  pub upper : l.data_end ≤ board.nvm.flash_end
  pub small : board.nvm.flash_end < 2 ^ 32

-- What getRow gave, and the log after it.
pub record IsGiven (l : Log) (row : List ℕ) (r : List ℕ × Log) : Type 0 where
  pub row_is : r.0 ≡ row
  pub coherent : IsCoherent r.1.cache
  pub same_flash : r.1.cache.flash ≡ l.cache.flash

module _ (board : Board) (l : Log) (rows : List (List ℕ)) (h : HasRows board l rows) where
  abbrev m : Memory
  m = l.cache.flash

  row_text-found :
      (row : List ℕ) (w : Option ℕ × ℕ) (r : (Option ℕ × ℕ) × FsCache.Cache)
      → IsFrom m w r
      → IsFound m l.data_start l.data_end row w
      → IsGiven l row (row_text board l r)
  unfolding row_text
  row_text-found row w r from found =
      let s = found.start in
      let is = ap (λ (x : Option ℕ × ℕ). row_text board l (x, r.1)) (from.result ∙ found.is) in
      let n : ℕ = s + length row - s in
      let size : n ≡ length row = omega arith in
      let all : length (replicate n 0) ≡ length row = length-replicate n 0 ∙ size in
      let f =
        fetch-IsFrom board m r.1 from.coherent from.same_flash s (replicate n 0)
          (omega (arith, found.lower, h.lower)) (omega (arith, all, found.upper, h.upper))
          h.small in
      rw is (record {
        row_is = f.result ∙ ap (bytes_at m s) all ∙ found.bytes;
        coherent = f.coherent;
        same_flash = f.same_flash;
      })

  row_text-none :
      (w : Option ℕ × ℕ) (r : (Option ℕ × ℕ) × FsCache.Cache)
      → IsFrom m w r
      → w.0 ≡ none
      → IsGiven l [] (row_text board l r)
  unfolding row_text
  row_text-none w r from absent =
      let is =
        ap (λ (o : Option ℕ). row_text board l ((o, r.0.1), r.1))
          (ap (λ x. x.0) from.result ∙ absent) in
      rw is (record { row_is = refl; coherent = from.coherent; same_flash = from.same_flash })

  forward_found :
      (i : ℕ)
      → i < length rows
      → IsGiven l (get_or rows i []) (row_text board l (find_row board l (pos i)))
  unfolding find_row
  forward_found i lt =
      let size : l.data_end - l.data_start ≡ rows_size rows = omega (arith, h.end_is) in
      let found = forward_in-IsFound m rows l.data_start i h.rows_are lt in
      let from =
        walk_forward-IsFrom board m (rows_size rows) l.cache 0 l.data_start l.data_end i 0
          (if i == 0 then some l.data_start else none) h.coherent refl h.lower h.end_is h.upper
          h.small refl (λ d less. rows_used m rows l.data_start d h.rows_are less) in
      rw size (
        row_text-found (get_or rows i []) _ _ from (record {
          start = found.start;
          is = found.is;
          bytes = found.bytes;
          lower = found.lower;
          upper = omega (arith, found.upper, h.end_is);
        }))

  -- The rows from the last to the first.
  last_first : AreRowsBefore m l.data_end (reverse_onto rows [])
  last_first = rw h.end_is (reverse_onto-AreRowsBefore m l.data_start rows [] h.rows_are tt)

  length-last_first : length (reverse_onto rows []) ≡ length rows
  length-last_first = length-reverse_onto rows [] ∙ omega arith

  rows_size-last_first : rows_size (reverse_onto rows []) ≡ rows_size rows
  rows_size-last_first = rows_size-reverse_onto rows [] ∙ omega arith

  walk_back :
      (n : ℕ)
      → IsFrom m (backward_in m (rows_size rows) l.data_end (n + 1) 0 l.data_end) (
          walk_backward board
            (rows_size rows)
            l.cache
            0
            l.data_end
            l.data_start
            (n + 1)
            0
            l.data_end)
  walk_back n =
      walk_backward-IsFrom board m (rows_size rows) l.cache 0 l.data_end l.data_start (n + 1) 0
        l.data_end h.coherent refl h.lower h.end_is h.upper h.small

  backward_found :
      (n : ℕ)
      → IsGiven l
          (if ltb (n + 1) (length rows) then get_or rows (length rows - 1 - n) [] else [])
          (row_text board l (find_row board l (negsuc n)))
  unfolding find_row
  backward_found n =
      let size : l.data_end - l.data_start ≡ rows_size rows = omega (arith, h.end_is) in
      let total : rows_size rows ≡ rows_size (reverse_onto rows []) = sym rows_size-last_first in
      let count = length-last_first in
      elim (Bool-cases (ltb (n + 1) (length rows))) [
        | inl y ↦
            let found =
              backward_in-IsFound m (reverse_onto rows []) (rows_size rows) l.data_end (n + 1) 0
                l.data_end l.data_start l.data_end total last_first (omega arith) (ground arith)
                (omega (arith, h.end_is)) (omega arith) in
            let nth : get_or (reverse_onto rows []) (n + 1 - 0 - 1) []
                ≡ get_or rows (length rows - 1 - n) [] =
              ap (λ i. get_or (reverse_onto rows []) i []) (omega arith)
              ∙ get_or-reverse_onto rows [] n (ground arith) in
            rw (size, y)
              (row_text-found (get_or rows (length rows - 1 - n) []) _ _ (walk_back n) (
                subst
                  (λ (row : List ℕ).
                    IsFound m l.data_start l.data_end row
                      (backward_in m (rows_size rows) l.data_end (n + 1) 0 l.data_end))
                  nth found))
        | inr n' ↦
            rw (size, n')
              (row_text-none _ _ (walk_back n) (
                backward_in-none m (reverse_onto rows []) (rows_size rows) l.data_end (n + 1) 0
                  l.data_end total last_first (ground arith)))
      ]

  not_empty : 0 < length rows → (not l.initialised || l.data_end == l.data_start) ≡ false
  not_empty some_row =
      let size = rows_size_pos rows some_row in
      let apart : (l.data_end == l.data_start) ≡ false = ground (arith, size, h.end_is) in
      rw (h.started, apart) refl

  nearer_from_end :
      (i : ℕ)
      → l.row_count ≡ length rows
      → i < length rows
      → (ltb 0 i && ltb (length rows) (2 * i)) ≡ true
      → nearer_index l.row_count (pos i) ≡ negsuc (length rows - i - 1)
  unfolding nearer_index
  nearer_from_end i counted lt y =
      let below : ltb i (length rows) ≡ true = ground arith in
      ap (λ c. nearer_index c (pos i)) counted ∙ (rw (y, below) refl)

  nearer_from_start :
      (i : ℕ)
      → l.row_count ≡ length rows
      → (ltb 0 i && ltb (length rows) (2 * i)) ≡ false
      → nearer_index l.row_count (pos i) ≡ pos i
  unfolding nearer_index
  nearer_from_start i counted n' = ap (λ c. nearer_index c (pos i)) counted ∙ (rw n' refl)

  -- Over a coherent cache, with the data being rows of text that each end in a newline, and the count
  -- of rows right, getRow of an index below the count gives the row with that index: the walk starts
  -- at the end that is nearer. The memory is as before, and the cache stays coherent.
  pub get_row_lem :
      (i : ℕ)
      → l.row_count ≡ length rows
      → i < length rows
      → let (row, l1) = get_row board l (pos i) in
        (row ≡ get_or rows i []) × IsCoherent l1.cache × (l1.cache.flash ≡ l.cache.flash)
  unfolding get_row
  get_row_lem i counted lt =
      let there = not_empty (omega arith) in
      elim (Bool-cases (ltb 0 i && ltb (length rows) (2 * i))) [
        | inl y ↦
            let n : ℕ = length rows - i - 1 in
            let g = backward_found n in
            let second : ltb (n + 1) (length rows) ≡ true = ground arith in
            let same : length rows - 1 - n ≡ i = omega arith in
            let given = g.row_is ∙ (rw (second, same) refl) in
            rw (there, nearer_from_end i counted lt y) (given, g.coherent, g.same_flash)
        | inr n' ↦
            let g = forward_found i lt in
            rw (there, nearer_from_start i counted n') (g.row_is, g.coherent, g.same_flash)
      ]

  -- With an index from the end, counting from -1, getRow gives the row with that place from the end,
  -- but for the first row of the log: that one, and any before it, come back empty.
  pub get_row_back :
      (n : ℕ)
      → 0 < length rows
      → let (row, l1) = get_row board l (negsuc n) in
        (row ≡ (if ltb (n + 1) (length rows) then get_or rows (length rows - 1 - n) [] else []))
        × IsCoherent l1.cache
        × (l1.cache.flash ≡ l.cache.flash)
  unfolding get_row nearer_index
  get_row_back n some_row =
      let g = backward_found n in rw (not_empty some_row) (g.row_is, g.coherent, g.same_flash)
