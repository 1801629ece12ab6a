-- ===== src/Log/Loading.antt =====
-- Finding a log: isPresent, init, getNumberOfStoredRows and invalidate. A `cache.read` that fails
-- leaves the buffer as it is; `c` starts as 0 where the source leaves it undefined.
use codal_microbit_v.Base.{
  ◌≡◌, refl, ℕ, zero, suc, ◌+◌, ◌-◌, ◌*◌, ◌/◌, ◌%◌, ◌^◌, Bool, true, false, ◌&&◌, List, [], ◌∷◌,
  take, get_or, replicate, ltb, leb, ◌==◌, if◌then◌else◌,
}
use codal_microbit_v.FsCache
use codal_microbit_v.Log.{
  Board, metadata_size, journal_entry_size, header_bytes, meta_size, log_version, LogMetaData,
  TimeStampFormat, Log, fetch, direct_write,
}
use codal_microbit_v.Log.Text.{text_eq}
use codal_microbit_v.Log.Starting.{
  closed_field, parse_headings, terminate, count_headings, contains_only, set_visibility, clear,
  put_time_stamp,
}

-- How far the scan has come of the journal.
pub record JournalScan : Type 0 where
  pub head : ℕ
  pub data_end : ℕ
  pub valid : Bool
  pub slot : List ℕ
  pub cache : FsCache.Cache

module _ (board : Board) where
  open board use {nvm}

  -- One byte from the cache.
  unfoldable pub fetch_byte : FsCache.Cache → ℕ → ℕ → ℕ × FsCache.Cache
  fetch_byte c address old =
      let (bytes, d) = fetch board c address (old ∷ []) in (get_or bytes 0 0, d)

  -- The meta data past the cache, with its strings terminated: 11 words, of 44 bytes.
  abbrev pub read_meta : FsCache.Cache → LogMetaData
  read_meta c =
      let bytes = nvm.read c.flash header_bytes (meta_size / 4) in
      record {
        version = closed_field bytes 0 18;
        log_end = closed_field bytes 18 11;
        data_start = closed_field bytes 29 11;
        daplink_version = closed_field bytes 40 5;
      }

  -- The result, and the fields set from the meta data.
  pub is_present : Log → Bool × Log
  unfolding text_eq
  is_present l =
      if l.initialised
      then (true, l)
      else let m = read_meta l.cache in
        let data_start = board.strtoul m.data_start in
        let log_end = board.strtoul m.log_end in
        let journal_start = header_bytes + metadata_size in
        (
          leb (journal_start + board.page_size) data_start
              && (ltb data_start log_end
                  && (ltb log_end nvm.flash_end
                      && text_eq (take 14 m.version) (take 14 log_version))),
          record l {
            start_address = header_bytes;
            meta_data = m;
            data_start = data_start;
            log_end = log_end;
            journal_start = journal_start;
          },
        )

  -- The scan from entry `address` on, up to `last`.
  pub scan_journal : ℕ → JournalScan → ℕ → ℕ → JournalScan
  unfolding contains_only
  scan_journal zero j address last = j
  scan_journal (suc fuel) j address last = elim (ltb address last) [
    | false ↦ j
    | true ↦
        let (bytes, c) = fetch board j.cache address j.slot in
        let read = record j { slot = bytes; cache = c } in
        let next =
          scan_journal fuel
            (if contains_only 0 bytes then read else record read {
              head = address;
              data_end = (last + board.strtoul bytes) % 2 ^ 32;
              valid = true;
            })
            (address + journal_entry_size) last in
        if contains_only 0xFF bytes && j.valid then read else next
  ]

  -- The end of the data: the first unused byte from `address` on.
  pub walk_data : ℕ → FsCache.Cache → ℕ → ℕ → ℕ → ℕ × FsCache.Cache
  unfolding fetch_byte
  walk_data zero c old address last = (address, c)
  walk_data (suc fuel) c old address last = elim (ltb address last) [
    | false ↦ (address, c)
    | true ↦
        let (d, e) = fetch_byte c address old in
        let next = walk_data fuel e d (address + 1) last in if d == 0xFF then (address, e) else next
  ]

  -- From `address` on, the first byte that is not zero, and its address. The fuel is the size of the
  -- device; without such a byte the source does not stop.
  pub skip_zeros : ℕ → FsCache.Cache → ℕ → ℕ → (ℕ × ℕ) × FsCache.Cache
  unfolding fetch_byte
  skip_zeros zero c old address = ((old, address), c)
  skip_zeros (suc fuel) c old address =
      let (d, e) = fetch_byte c address old in
      let next = skip_zeros fuel e d (address + 1) in if d == 0 then next else ((d, address), e)

  -- From `address` on, whose byte is `current`, the address of the first unused byte.
  pub find_unused : ℕ → FsCache.Cache → ℕ → ℕ → ℕ × FsCache.Cache
  unfolding fetch_byte
  find_unused zero c current address = (address, c)
  find_unused (suc fuel) c current address = elim (current == 0xFF) [
    | true ↦ (address, c)
    | false ↦ let (d, e) = fetch_byte c (address + 1) current in find_unused fuel e d (address + 1)
  ]

  -- The headings of length `size` at `start`, where there are any.
  pub load_headings : Log → ℕ → ℕ → Log
  unfolding parse_headings terminate count_headings
  load_headings l start size =
      let (bytes, c) = fetch board l.cache start (replicate size 0) in
      if ltb 0 size
      then record l {
        cache = c;
        heading_start = start;
        heading_length = size;
        row_data = parse_headings (count_headings bytes) (terminate bytes);
      }
      else record l { heading_length = size }

  -- init where isPresent says yes.
  pub load_present : Log → Log
  unfolding scan_journal walk_data skip_zeros find_unused load_headings
  load_present l =
      let j =
        scan_journal l.data_start
          (record {
            head = l.journal_start;
            data_end = l.data_start;
            valid = false;
            slot = replicate journal_entry_size b'0';
            cache = l.cache;
          })
          l.journal_start l.data_start in
      let (data_end, c) = walk_data l.log_end j.cache 0 j.data_end l.log_end in
      let ((first, start), d) = skip_zeros nvm.flash_end c 0 (l.start_address + meta_size) in
      let (last, e) = find_unused nvm.flash_end d first start in
      let l2 = record l {
        cache = e;
        journal_pages = (l.data_start - l.journal_start) / board.page_size;
        journal_head = j.head;
        data_end = data_end;
      } in
      record (load_headings l2 start (last - start)) { initialised = true }

  -- The newlines from `address` on up to an unused byte; `count` of them before.
  unfoldable pub count_rows : ℕ → FsCache.Cache → ℕ → ℕ → ℕ → ℕ × FsCache.Cache
  unfolding fetch_byte
  count_rows zero c old address count = (count, c)
  count_rows (suc fuel) c old address count = elim (old == 0xFF) [
    | true ↦ (count, c)
    | false ↦
        let (d, e) = fetch_byte c address old in
        count_rows fuel e d (address + 1) (if d == 10 then count + 1 else count)
  ]

  unfoldable pub get_number_of_stored_rows : Log → ℕ × FsCache.Cache
  unfolding count_rows
  get_number_of_stored_rows l = count_rows (nvm.flash_end + 2) l.cache 0 l.data_start 0

  -- init where isPresent says no.
  pub start_new : Log → Log
  unfolding clear get_number_of_stored_rows set_visibility
  start_new l =
      let l1 = clear board l false in
      let (rows, c) = get_number_of_stored_rows l1 in
      set_visibility board (record l1 { row_count = rows; cache = c }) true

  pub loaded : Bool × Log → Log
  unfolding load_present start_new
  loaded (true, l) = load_present l
  loaded (false, l) = start_new l

  unfoldable pub init : Log → Log
  unfolding is_present loaded
  init l = if l.initialised then l else loaded (is_present l)

  pub init-initialised : (l : Log) → l.initialised ≡ true → init l ≡ l
  unfolding init
  init-initialised l h = rw h refl

  -- `_clear` is not compiled in: CONFIG_MICROBIT_LOG_FULL_ERASE_BY_DEFAULT is false. Of the meta data
  -- 11 words are cleared.
  pub invalidate : Log → Log
  unfolding is_present direct_write
  invalidate l =
      let (present, l1) = is_present l in
      let l2 =
        if present
        then direct_write board
            (direct_write board l1 l1.start_address (replicate (meta_size / 4 * 4) 0)) l1.log_end
            (replicate 4 0)
        else l1 in
      record l2 { initialised = false }

  pub set_time_stamp : Log → TimeStampFormat → Log
  unfolding init put_time_stamp
  set_time_stamp l format = put_time_stamp (init l) format
