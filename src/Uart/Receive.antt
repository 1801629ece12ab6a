-- ===== src/Uart/Receive.antt =====
-- The receiving side: onDataWritten, getc, read, readUntil, eventOn, eventAfter.
pub mod Laws
pub mod Reading
use codal_microbit_v.Base.{
  stored, ℕ, zero, suc, ◌+◌, ◌-◌, ◌%◌, Bool, true, false, Option, none, some, List, [], ◌∷◌, ◌++◌,
  get_or, set, ltb, ◌==◌, if◌then◌else◌, Result, ok, err, invalid_parameter, no_data,
}
use codal_microbit_v.Uart.State.{
  Uart, Mode, async, sync_spinwait, sync_sleep, UartEvent, delim_match, head_match, rx_full,
  is_readable, rx_buffered_size,
}

abbrev pub raise : Uart → UartEvent → Uart
raise u e = record u { events = u.events ++ e ∷ [] }

-- One event for every delimiter that the byte matches.
pub match_delimeters : List ℕ → ℕ → Uart → Uart
match_delimeters [] c u = u
match_delimeters (d ∷ ds) c u = match_delimeters ds c (if d == c then raise u delim_match else u)

-- The byte is stored, and the head moves on; then the reader that waits for this head is woken.
pub check_head_match : Uart → Uart
check_head_match u = elim u.rx_head_match [
  | none ↦ u
  | some m ↦ if u.rx_head == m then raise (record u { rx_head_match = none }) head_match else u
]

pub store_byte : Uart → ℕ → ℕ → Uart
store_byte u new_head c =
    check_head_match (record u { rx_buffer = set u.rx_buffer u.rx_head c; rx_head = new_head })

-- One round of the loop in `onDataWritten`.
pub receive_byte : Uart → ℕ → Uart
receive_byte u c =
    let new_head = (u.rx_head + 1) % u.rx_size in
    if new_head == u.rx_tail
    then raise u rx_full
    else store_byte (match_delimeters u.delimeters c u) new_head c

pub receive : Uart → List ℕ → Uart
receive u [] = u
receive u (c ∷ cs) = receive (receive_byte u c) cs

-- `bytes` are the `len` bytes at `data`.
unfoldable pub on_data_written : Uart → ℕ → List ℕ → Uart
unfolding receive receive_byte store_byte check_head_match match_delimeters
on_data_written u handle bytes = if handle == u.rx_handle then receive u bytes else u

-- `circularCopy`: the bytes from `tail` up to `head`; `fuel` bounds the loop.
pub circular_copy : ℕ → List ℕ → ℕ → ℕ → ℕ → List ℕ
circular_copy zero buf size tail head = []
circular_copy (suc fuel) buf size tail head = elim (tail == head) [
  | true ↦ []
  | false ↦ get_or buf tail 0 ∷ circular_copy fuel buf size ((tail + 1) % size) head
]

unfoldable pub contains : List ℕ → ℕ → Bool
contains [] c = false
contains (d ∷ ds) c = if d == c then true else contains ds c

-- The search of `readUntil` for the index of the first delimiter; `fuel` bounds the loop.
pub find_delimeter : ℕ → List ℕ → Uart → ℕ → Option ℕ
unfolding contains
find_delimeter zero ds u local_tail = none
find_delimeter (suc fuel) ds u local_tail =
    let rest = find_delimeter fuel ds u ((local_tail + 1) % u.rx_size) in
    if local_tail == u.rx_head
    then none
    else if contains ds (get_or u.rx_buffer local_tail 0)
    then some local_tail
    else rest

-- What a found index gives: the string of the bytes before the delimiter, and the tail behind it.
-- `preserved` is the tail that `readUntil` noted before it waited. `managed_string` is the core
-- library's constructor of a string from bytes and their number.
pub take_until : (List ℕ → List ℕ) → Uart → ℕ → Option ℕ → List ℕ × Uart
take_until managed_string u preserved none = ([], u)
take_until managed_string u preserved (some found) =
    let size = if ltb found preserved then (u.rx_size - preserved) + found else found - preserved in
    (
      managed_string (circular_copy u.rx_size u.rx_buffer u.rx_size preserved found),
      record u { rx_tail = (u.rx_tail + size + 1) % u.rx_size },
    )

-- `char` is unsigned on the ARM targets, so that a byte read is never negative.
pub take_char : Uart → Result ℕ × Uart
take_char u =
    (ok (get_or u.rx_buffer u.rx_tail 0), record u { rx_tail = (u.rx_tail + 1) % u.rx_size })

-- A round of the loops in `read`: a byte is stored and the loop goes on, or an error ends it.
abbrev pub read_next : Result ℕ × Uart → (Uart → List ℕ × Uart) → List ℕ × Uart
read_next (ok c, v) rest = let (cs, w) = rest v in (c ∷ cs, w)
read_next (err e, v) rest = ([], v)

-- After the wait the index is taken to be the byte before the head; -1 counts as not found.
pub before_head : Uart → Option ℕ
before_head u = if u.rx_head == 0 then none else some (u.rx_head - 1)

-- `wait` is what happens to the service while the scheduler blocks the calling fiber.
module _ (wait : Uart → Uart) where
  pub block : Mode → Uart → Uart
  block sync_sleep u = wait u
  block _ u = u

  pub event_on : Uart → List ℕ → Mode → Result (Unit {0}) × Uart
  unfolding block
  event_on u ds sync_spinwait = (err invalid_parameter, u)
  event_on u ds mode = (ok tt, block mode (record u { delimeters = ds }))

  pub event_after : Uart → ℕ → Mode → Result (Unit {0}) × Uart
  unfolding block
  event_after u len sync_spinwait = (err invalid_parameter, u)
  event_after u len mode =
      (ok tt, block mode (record u { rx_head_match = some ((u.rx_head + len) % u.rx_size) }))

  pub getc : Uart → Mode → Result ℕ × Uart
  unfolding is_readable take_char event_after
  getc u async = if is_readable u then take_char u else (err no_data, u)
  getc u sync_sleep = take_char (if is_readable u then u else (event_after u 1 sync_sleep).1)
  getc u sync_spinwait = (err invalid_parameter, u)

  -- The loop of `read`, with `n` bytes left to ask for.
  pub read_async : ℕ → Uart → List ℕ × Uart
  read_async zero u = ([], u)
  read_async (suc n) u = read_next (getc u async) (read_async n)

  pub read_sleep : ℕ → Uart → List ℕ × Uart
  read_sleep zero u = ([], u)
  read_sleep (suc n) u = read_next (getc u sync_sleep) (read_sleep n)

  -- The bytes stored into `buf`; their number is the value returned.
  pub read : Uart → ℕ → Mode → Result (List ℕ) × Uart
  unfolding read_async read_sleep event_after
  read u len async = let (cs, v) = read_async len u in (ok cs, v)
  read u len sync_sleep =
      let ready =
        if ltb (rx_buffered_size u) len
        then (event_after u (len - rx_buffered_size u) sync_sleep).1
        else u in
      let (cs, v) = read_sleep len ready in (ok cs, v)
  read u len sync_spinwait = (err invalid_parameter, u)

module _ (wait : Uart → Uart) (managed_string : List ℕ → List ℕ) where
  -- `readUntil` in sleeping mode, by what the search found.
  pub until_sleep : Uart → List ℕ → Option ℕ → Result (List ℕ) × Uart
  unfolding event_on before_head
  until_sleep u ds (some i) =
      let (cs, v) = take_until managed_string u u.rx_tail (some i) in (ok cs, v)
  until_sleep u ds none =
      let w = (event_on wait u ds sync_sleep).1 in
      let (cs, v) =
        take_until managed_string (record w { delimeters = [] }) u.rx_tail (before_head w) in
      (ok cs, v)

  -- In the first case the code returns the text of the error number.
  pub read_until : Uart → List ℕ → Mode → Result (List ℕ) × Uart
  unfolding find_delimeter take_until until_sleep
  read_until u ds sync_spinwait = (err invalid_parameter, u)
  read_until u ds async =
      let (cs, v) =
        take_until managed_string u u.rx_tail (find_delimeter u.rx_size ds u u.rx_tail) in
      (ok cs, v)
  read_until u ds sync_sleep = until_sleep u ds (find_delimeter u.rx_size ds u u.rx_tail)
