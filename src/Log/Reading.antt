-- ===== src/Log/Reading.antt =====
-- Reading a log: getDataLength, readData, getNumberOfRows, getRow, getRows and the headings.
pub mod Documents
pub mod Walks
pub mod Lines
pub mod Backwards
pub mod Finding
pub mod Formats
use codal_microbit_v.Base.{
  ℕ, zero, suc, ◌+◌, ◌-◌, ◌*◌, ◌^◌, ◌%◌, Bool, true, false, not, ◌&&◌, ◌||◌, Option, none, some,
  List, [], ◌∷◌, ◌++◌, length, take, drop, get_or, replicate, min, ltb, leb, ◌==◌, if◌then◌else◌,
  Result, ok, err, invalid_parameter, ℤ, pos, negsuc,
}
use codal_microbit_v.FsCache
use codal_microbit_v.FsCache.Access
use codal_microbit_v.Log.{
  Board, header_bytes, meta_size, LogMetaData, meta_bytes, ColumnEntry, Log, heading_count, fetch,
}
use codal_microbit_v.Log.Text.{write_num}
use codal_microbit_v.Log.Loading.{fetch_byte, init}

pub data DataFormat : Type 0 where
  html_header html csv : DataFormat

-- What is left of a request, and the bytes delivered so far.
pub record Request : Type 0 where
  pub delivered : List ℕ
  pub index : ℕ
  pub len : ℕ
  pub src_index : ℕ
  pub cache : FsCache.Cache

-- Where bytes come from: local memory, or so many bytes of the device.
pub data Source : Type 0 where
  local : List ℕ → Source
  device : ℕ → ℕ → Source

abbrev pub source_length : Source → ℕ
source_length (local bytes) = length bytes
source_length (device address n) = n

-- The request once a source has given some bytes, or has failed.
pub served : Request → ℕ → Result (List ℕ) × FsCache.Cache → Result (Unit {0}) × Request
served q src_len (err e, c) = (err e, record q { cache = c })
served q src_len (ok bytes, c) = (
  ok tt,
  record {
    delivered = q.delivered ++ bytes;
    index = q.index + length bytes;
    len = q.len - length bytes;
    src_index = q.src_index + src_len;
    cache = c;
  },
)

unfoldable pub is_newline : ℕ → Bool
is_newline c = c == 10

abbrev pub is_found : Option ℕ → Bool
is_found none = false
is_found (some start) = true

-- A row counted from the end where that is nearer.
unfoldable pub nearer_index : ℕ → ℤ → ℤ
nearer_index rows (negsuc n) = negsuc n
nearer_index rows (pos i) =
    if ltb 0 i && ltb rows (2 * i)
    then (if ltb i rows then negsuc (rows - i - 1) else pos (i - rows))
    else pos i

module _ (board : Board) where
  open board use {nvm}

  pub get_data_length : Log → DataFormat → ℕ × Log
  unfolding init
  get_data_length l format =
      let l1 = init board l in
      let csv_length = l1.data_end - l1.data_start in
      (
        elim format [
          | html_header ↦ header_bytes + meta_size + 1
          | html ↦ header_bytes + meta_size + csv_length + 1
          | csv ↦ csv_length
        ],
        l1,
      )

  -- The part of the source that the request asks for.
  pub wanted : Request → Source → ℕ
  wanted q source = min (q.src_index + source_length source - q.index) q.len

  pub source_bytes : Request → Source → ℕ → Result (List ℕ) × FsCache.Cache
  source_bytes q (local bytes) n = (ok (take n (drop (q.index - q.src_index) bytes)), q.cache)
  source_bytes q (device address size) n =
      Access.read nvm q.cache (address + (q.index - q.src_index)) n

  pub read_source : Request → Source → Result (Unit {0}) × Request
  unfolding wanted source_bytes served
  read_source q source =
      let n = wanted q source in
      served q (source_length source)
        (if ltb 0 n then source_bytes q source n else (ok [], q.cache))

  -- The next source, unless one has failed.
  pub then_read : Source → Result (Unit {0}) × Request → Result (Unit {0}) × Request
  unfolding read_source
  then_read source (err e, q) = (err e, q)
  then_read source (ok u, q) = read_source q source

  -- The meta data as though the data followed at once.
  abbrev pub shown_meta : Log → LogMetaData
  shown_meta l = record l.meta_data {
    data_start = write_num l.meta_data.data_start (header_bytes + meta_size);
    log_end = write_num l.meta_data.log_end (l.log_end - (l.data_start - header_bytes - meta_size));
  }

  -- How many bytes of data the caller expects, of a file of `size` bytes.
  abbrev pub expected : Log → DataFormat → ℕ → ℕ
  expected l html_header size = l.data_end - l.data_start
  expected l html size = (size + 2 ^ 32 - header_bytes - meta_size - 1) % 2 ^ 32
  expected l csv size = size

  -- The switch of _readData, with `data_length` bytes of data.
  unfoldable pub read_format : Log → DataFormat → ℕ → Request → Result (Unit {0}) × Request
  unfolding then_read read_source
  read_format l html_header data_length q =
      then_read (local (0xFF ∷ []))
        (then_read (local (meta_bytes (shown_meta l))) (read_source q (local board.header)))
  read_format l html data_length q = then_read (local (0xFF ∷ [])) (
      then_read (device l.data_start data_length)
        (then_read (local (meta_bytes (shown_meta l))) (read_source q (local board.header))))
  read_format l csv data_length q = read_source q (device l.data_start data_length)

  -- What the caller has after the switch.
  unfoldable pub delivered_by : Log → Result (Unit {0}) × Request → Result (List ℕ) × Log
  delivered_by l (ok u, q) = (ok q.delivered, record l { cache = q.cache })
  delivered_by l (err e, q) = (err e, record l { cache = q.cache })

  -- The whole of _readData.
  unfoldable pub read_data : Log → ℕ → ℕ → DataFormat → ℕ → Result (List ℕ) × Log
  read_data l index len format size =
      let l1 = init board l in
      if ltb (l1.data_end - l1.data_start) (expected l1 format size)
      then (err invalid_parameter, l1)
      else delivered_by l1 (
          read_format l1 format (expected l1 format size)
            (record { delivered = []; index = index; len = len; src_index = 0; cache = l1.cache }))

  pub get_number_of_rows : Log → ℕ × Log
  unfolding init
  get_number_of_rows l = let l1 = init board l in (l1.row_count, l1)

  -- The walk from `address` on to row `index`, with `count` newlines before and the row's start where
  -- it is known: the start found, the row's end, and the cache.
  unfoldable pub walk_forward :
      ℕ → FsCache.Cache → ℕ → ℕ → ℕ → ℕ → ℕ → Option ℕ → (Option ℕ × ℕ) × FsCache.Cache
  unfolding fetch_byte is_newline
  walk_forward zero c old address last index count start = ((start, last), c)
  walk_forward (suc fuel) c old address last index count start =
      elim (not (old == 0xFF) && ltb address last) [
        | false ↦ ((start, last), c)
        | true ↦
            let (d, e) = fetch_byte board c address old in
            let seen = if is_newline d then count + 1 else count in
            let opens = is_newline d && (not (is_found start) && seen == index) in
            let next =
              walk_forward fuel e d (address + 1) last index seen
                (if opens then some (address + 1) else start) in
            if is_newline d && (is_found start && seen == index + 1)
            then ((start, address), e)
            else next
      ]

  -- The walk back from `address`, exclusive, to the start of the row before `back` newlines, of which
  -- `count` were met.
  unfoldable pub walk_backward :
      ℕ → FsCache.Cache → ℕ → ℕ → ℕ → ℕ → ℕ → ℕ → (Option ℕ × ℕ) × FsCache.Cache
  unfolding fetch_byte is_newline
  walk_backward zero c old address first back count end = ((none, end), c)
  walk_backward (suc fuel) c old address first back count end = elim (ltb first address) [
    | false ↦ ((none, end), c)
    | true ↦
        let (d, e) = fetch_byte board c (address - 1) old in
        let met = is_newline d in
        let next =
          walk_backward fuel e d (address - 1) first back (if met then count + 1 else count)
            (if met then address - 1 else end) in
        if met && count == back then ((some address, end), e) else next
  ]

  -- The text between the ends of a walk.
  unfoldable pub row_text : Log → (Option ℕ × ℕ) × FsCache.Cache → List ℕ × Log
  row_text l ((none, end), c) = ([], record l { cache = c })
  row_text l ((some start, end), c) =
      let (bytes, d) = fetch board c start (replicate (end - start) 0) in
      (bytes, record l { cache = d })

  unfoldable pub find_row : Log → ℤ → (Option ℕ × ℕ) × FsCache.Cache
  unfolding walk_forward walk_backward
  find_row l (negsuc n) =
      walk_backward (l.data_end - l.data_start) l.cache 0 l.data_end l.data_start (n + 1) 0
        l.data_end
  find_row l (pos i) =
      walk_forward (l.data_end - l.data_start) l.cache 0 l.data_start l.data_end i 0
        (if i == 0 then some l.data_start else none)

  unfoldable pub get_row : Log → ℤ → List ℕ × Log
  unfolding find_row row_text nearer_index
  get_row l index =
      if not l.initialised || l.data_end == l.data_start
      then ([], l)
      else row_text l (find_row l (nearer_index l.row_count index))

  -- The walk of getRows up to newline `target`; it ends at an unused byte, or without one runs on.
  pub find_rows :
      ℕ → FsCache.Cache → ℕ → ℕ → ℕ → ℕ → ℕ → Option ℕ → ℕ → (Option ℕ × ℕ) × FsCache.Cache
  unfolding fetch_byte is_newline
  find_rows zero c old address index target count start end = ((start, end), c)
  find_rows (suc fuel) c old address index target count start end = elim (old == 0xFF) [
    | true ↦ ((start, end), c)
    | false ↦
        let (d, e) = fetch_byte board c address old in
        let seen = if is_newline d then count + 1 else count in
        let opens = is_newline d && (not (is_found start) && seen == index) in
        let next =
          find_rows fuel e d (address + 1) index target seen
            (if opens then some (address + 1) else start) end in
        if is_newline d && (not opens && seen == target) then ((start, address), e) else next
  ]

  -- `rows` is an `int` above 0, else nothing is read.
  pub get_rows : Log → ℕ → ℕ → List ℕ × Log
  unfolding find_rows row_text
  get_rows l index rows =
      if not l.initialised || (leb l.data_end index || rows == 0)
      then ([], l)
      else row_text l (
          find_rows (nvm.flash_end + 2) l.cache 0 l.data_start index ((index + rows) % 2 ^ 32) 0
            (if index == 0 then some l.data_start else none) l.data_end)

pub get_number_of_headers : Log → ℕ
get_number_of_headers l = if l.initialised then heading_count l else 0

pub get_header : Log → ℕ → List ℕ
get_header l i =
    if not l.initialised || leb (heading_count l) i
    then []
    else (get_or l.row_data i (record { key = []; value = [] })).key
