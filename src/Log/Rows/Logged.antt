-- ===== src/Log/Rows/Logged.antt =====
-- A line logged is a row that follows those of before.
use codal_microbit_v.Base.{
  stored, stored_apart, stored_at, IsErased, ℕ, ◌+◌, ◌-◌, ◌/◌, ◌^◌, ◌%◌, ◌≤◌, ◌<◌, ◌≡◌, refl, ap,
  ◌∙◌, arith, true, false, ◌&&◌, List, [], ◌∷◌, ◌++◌, length, length-append, get_or,
  get_or-append_left, get_or-append_right, ltb, ◌==◌, eq→==, ==→eq, ==→ne, pos, if◌then◌else◌,
  Bool-cases, inl, inr, Result, ok,
}
use codal_microbit_v.Log.{Board, cache_block_size, FileConfig, Log, cache_write}
use codal_microbit_v.Log.Cleaning.{has_arrow, has_separator, cleaned_clean}
use codal_microbit_v.Log.Starting.{set_visibility}
use codal_microbit_v.Log.Loading.{init-initialised}
use codal_microbit_v.Log.Reading.Lines.{IsRow, rows_size}
use codal_microbit_v.Log.Reading.Finding.{HasRows, get_row_lem}
use codal_microbit_v.Log.Reading.{get_row}
use codal_microbit_v.Log.Rows.{
  write_pages, mirrored, append_line, put_line, shown, log_string, finish_line,
}
use codal_microbit_v.Log.Rows.Appending.{cache_write-IsStored, extended, write_pages-line}
use codal_microbit_v.Log.Rows.Texts.{
  is_text, line_of, c_string-line, line_small, line-IsRow, same-AreRows, append-AreRows,
  rows_size-append,
}

-- A log with room for a row behind its rows, in erased memory, on the page and in the block of the
-- cache in which its data end.
pub record CanTake (board : Board) (l : Log) (rows : List (List ℕ)) (row : List ℕ) : Type 0 where
  pub has_rows : HasRows board l rows
  pub bytes : (x : ℕ) → l.cache.flash x < 256
  pub erased : IsErased l.cache.flash l.data_end (length (line_of row))
  pub fits : l.data_end + length (line_of row) ≤ l.log_end
  pub log_end_low : l.log_end + 4 ≤ board.nvm.flash_end
  pub on_page : l.data_end % board.page_size + length (line_of row) < board.page_size
  pub in_block :
      (l.data_end + length (line_of row)) / cache_block_size ≡ l.data_end / cache_block_size

module _ (board : Board) (rows : List (List ℕ)) (row : List ℕ) where
  -- What a log can take does not depend on the file shown and the serial port.
  other_fields-CanTake :
      (l : Log) (f : FileConfig) (n : ℕ) (s : List ℕ)
      → CanTake board l rows row
      → CanTake board (record l { file_config = f; remounts = n; serial = s }) rows row
  other_fields-CanTake l f n s t = record {
    has_rows = record {
      started = t.has_rows.started;
      coherent = t.has_rows.coherent;
      rows_are = t.has_rows.rows_are;
      end_is = t.has_rows.end_is;
      lower = t.has_rows.lower;
      upper = t.has_rows.upper;
      small = t.has_rows.small;
    };
    bytes = t.bytes;
    erased = t.erased;
    fits = t.fits;
    log_end_low = t.log_end_low;
    on_page = t.on_page;
    in_block = t.in_block;
  }

  -- The row is there behind the others, and counted.
  record IsLogged (l : Log) (r : Result (Unit {0}) × Log) : Type 0 where
    succeeds : r.0 ≡ ok tt
    has_rows : HasRows board r.1 (rows ++ row ∷ [])
    counted : r.1.row_count ≡ l.row_count + 1

  extended-HasRows :
      (l : Log)
      → CanTake board l rows row
      → is_text row ≡ true
      → HasRows board (extended board l (line_of row)) (rows ++ row ∷ [])
  unfolding cache_write
  extended-HasRows l t text =
      let h = t.has_rows in
      let line = line_of row in
      let size = length-append row (10 ∷ []) in
      let s =
        cache_write-IsStored board l l.data_end line h.coherent t.bytes (line_small row text)
          t.erased (omega (arith, h.lower, h.end_is)) (omega (arith, t.fits, t.log_end_low))
          (omega (arith, t.fits, t.log_end_low, h.small)) in
      let before : (d : ℕ)
          → d < rows_size rows
          → stored l.cache.flash l.data_end line (l.data_start + d)
            ≡ l.cache.flash (l.data_start + d) =
        λ d lt.
          stored_apart l.cache.flash l.data_end line (l.data_start + d)
            (ground (arith, h.end_is)) in
      let new : IsRow (stored l.cache.flash l.data_end line) (l.data_start + rows_size rows) row =
        line-IsRow row (stored l.cache.flash l.data_end line) (l.data_start + rows_size rows) text
          (λ d le.
            ap (stored l.cache.flash l.data_end line) (omega (arith, h.end_is))
            ∙ stored_at l.cache.flash l.data_end line d (omega (arith, size, le))) in
      record {
        started = h.started;
        coherent = s.coherent;
        rows_are = rw s.flash_is (
            append-AreRows rows row (stored l.cache.flash l.data_end line) l.data_start
              (same-AreRows rows l.cache.flash (stored l.cache.flash l.data_end line) l.data_start
                before h.rows_are)
              new);
        end_is = omega (arith, h.end_is, rows_size-append rows row, size);
        lower = h.lower;
        upper = omega (arith, t.fits, t.log_end_low);
        small = h.small;
      }

  finish_line-IsLogged :
      (old l : Log)
      → l.data_end ≡ old.data_end
      → l.row_count ≡ old.row_count
      → CanTake board l rows row
      → is_text row ≡ true
      → IsLogged old
          (finish_line board old (write_pages board (length (line_of row)) l (line_of row)))
  unfolding finish_line cache_write
  finish_line-IsLogged old l same_end same_count t text =
      let line = line_of row in
      let size = length-append row (10 ∷ []) in
      let pages = write_pages-line board l line (omega (arith, size)) t.on_page in
      let block : ((l.data_end + length line) / cache_block_size == old.data_end / cache_block_size)
          ≡ true =
        eq→== _ _ (t.in_block ∙ ap (λ e. e / cache_block_size) same_end) in
      let h = extended-HasRows l t text in
      rw pages (
        rw block (record {
          succeeds = refl;
          has_rows = record {
            started = h.started;
            coherent = h.coherent;
            rows_are = h.rows_are;
            end_is = h.end_is;
            lower = h.lower;
            upper = h.upper;
            small = h.small;
          };
          counted = ap (λ n. n + 1) same_count;
        }))

  mirrored-IsLogged :
      (l : Log)
      → CanTake board l rows row
      → is_text row ≡ true
      → IsLogged l (
          finish_line board l (
            write_pages board
              (length (line_of row))
              (mirrored board l (line_of row))
              (line_of row)))
  mirrored-IsLogged l t text = elim (Bool-cases (l.serial_mirror && ltb 0 (length (line_of row)))) [
    | inl y ↦ rw y (finish_line-IsLogged l _ refl refl (other_fields-CanTake l _ _ _ t) text)
    | inr n ↦ rw n (finish_line-IsLogged l l refl refl t text)
  ]

  -- A log that can take the line gets it as its last row.
  put_line-IsLogged :
      (l : Log)
      → CanTake board l rows row
      → is_text row ≡ true
      → has_arrow (line_of row) ≡ false
      → has_separator false (line_of row) ≡ false
      → IsLogged l (put_line board l (line_of row))
  unfolding put_line append_line
  put_line-IsLogged l t text no_arrow no_tab =
      let h = t.has_rows in
      let room : ltb ((l.log_end + 2 ^ 32 - l.data_end) % 2 ^ 32) (length (line_of row)) ≡ false =
        ground (arith, t.fits, t.log_end_low, h.small) in
      rw (room, cleaned_clean false (line_of row) no_arrow no_tab) (mirrored-IsLogged l t text)

  -- So does one of which the file is shown again.
  other_file-IsLogged :
      (l : Log) (f : FileConfig) (n : ℕ)
      → CanTake board l rows row
      → is_text row ≡ true
      → has_arrow (line_of row) ≡ false
      → has_separator false (line_of row) ≡ false
      → IsLogged l (put_line board (record l { file_config = f; remounts = n }) (line_of row))
  other_file-IsLogged l f n t text no_arrow no_tab =
      let g =
        put_line-IsLogged (record l { file_config = f; remounts = n })
          (other_fields-CanTake l f n l.serial t) text no_arrow no_tab in
      record { succeeds = g.succeeds; has_rows = g.has_rows; counted = g.counted }

  shown-IsLogged :
      (l : Log)
      → CanTake board l rows row
      → is_text row ≡ true
      → has_arrow (line_of row) ≡ false
      → has_separator false (line_of row) ≡ false
      → IsLogged l (put_line board (shown board l) (line_of row))
  unfolding set_visibility
  shown-IsLogged l t text no_arrow no_tab = elim (Bool-cases (l.data_start == l.data_end)) [
    | inr later ↦ rw later (put_line-IsLogged l t text no_arrow no_tab)
    | inl first ↦
        let size : ℕ = board.nvm.flash_end - board.nvm.flash_start in
        elim (Bool-cases
          (l.file_config.present && (l.file_config.file_size == size && l.file_config.visible))) [
            | inl same ↦ rw (first, same) (put_line-IsLogged l t text no_arrow no_tab)
            | inr other ↦ rw (first, other) (other_file-IsLogged l _ _ t text no_arrow no_tab)
          ]
  ]

  -- Of a log that can take it - over a coherent cache, with rows as its data, and erased memory for
  -- the line on the page and in the block in which they end - logString of a line of text without
  -- "-->" and tabs succeeds; the log's rows are then those of before and the new one, one more is
  -- counted, and the cache is coherent again.
  pub log_string_lem :
      (l : Log)
      → CanTake board l rows row
      → is_text row ≡ true
      → has_arrow (line_of row) ≡ false
      → has_separator false (line_of row) ≡ false
      → let (r, l1) = log_string board l (line_of row) in
        (r ≡ ok tt) × HasRows board l1 (rows ++ row ∷ []) × (l1.row_count ≡ l.row_count + 1)
  unfolding log_string
  log_string_lem l t text no_arrow no_tab =
      let g = shown-IsLogged l t text no_arrow no_tab in
      rw (c_string-line row text, init-initialised board l t.has_rows.started)
        (g.succeeds, g.has_rows, g.counted)

  -- After that, with the count of rows right before it, getRow gives the line under the index that
  -- was the count, and under any lower index the row that was there before.
  pub log_string-get_row :
      (l : Log) (i : ℕ)
      → CanTake board l rows row
      → is_text row ≡ true
      → has_arrow (line_of row) ≡ false
      → has_separator false (line_of row) ≡ false
      → l.row_count ≡ length rows
      → i ≤ length rows
      → (get_row board (log_string board l (line_of row)).1 (pos i)).0
        ≡ (if i == length rows then row else get_or rows i [])
  log_string-get_row l i t text no_arrow no_tab counted le =
      let after = log_string_lem l t text no_arrow no_tab in
      let size = length-append rows (row ∷ []) in
      let count : (log_string board l (line_of row)).1.row_count ≡ length (rows ++ row ∷ []) =
        omega (arith, after.2, counted, size) in
      let below : i < length (rows ++ row ∷ []) = omega (arith, size) in
      (get_row_lem board (log_string board l (line_of row)).1 (rows ++ row ∷ []) after.1 i count
        below).0
      ∙ elim (Bool-cases (i == length rows)) [
        | inl y ↦
            let last : i ≡ length rows + 0 = omega (arith, ==→eq i (length rows) y) in
            rw y (
              ap (λ j. get_or (rows ++ row ∷ []) j []) last
              ∙ get_or-append_right rows (row ∷ []) 0 [])
        | inr n ↦
            let apart = ==→ne i (length rows) n in
            rw n (get_or-append_left rows (row ∷ []) i [] (ground (arith, apart)))
      ]
