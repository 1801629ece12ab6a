-- ===== src/Uart/Transmit.antt =====
-- The sending side: send, putc, sendNext, onConfirmation, onDisconnect.
pub mod Laws
pub mod Stream
use mathlib.Core.Option
use codal_microbit_v.Base.{
  ℕ, zero, suc, ◌+◌, ◌-◌, ◌%◌, Bool, true, false, Option, none, some, List, [], ◌∷◌, ◌++◌, length,
  get_or, set, take, ltb, ◌==◌, if◌then◌else◌, not, ◌&&◌, ◌||◌, Result, ok, err, invalid_parameter,
  not_supported,
}
use codal_microbit_v.Uart.State.{
  Uart, Mode, async, sync_spinwait, sync_sleep, UartEvent, tx_empty, attr_size,
}
use codal_microbit_v.Uart.Receive.{raise}

abbrev pub can_indicate : Uart → Bool
can_indicate u = u.connected && u.indicate_enabled

-- The loop of `sendNext` over the attribute buffer, with `fuel` rounds at most: the bytes of the
-- send buffer from `next` on, up to the head, at most `attr_size` of them.
pub fill_value : ℕ → Uart → ℕ → Uart
fill_value zero u next = u
fill_value (suc fuel) u next = elim (ltb u.tx_value_size attr_size && not (next == u.tx_head)) [
  | true ↦
      fill_value fuel
        (record u {
          tx_value = set u.tx_value u.tx_value_size (get_or u.tx_buffer next 0);
          tx_value_size = u.tx_value_size + 1;
        })
        ((next + 1) % u.tx_size)
  | false ↦ u
]

-- The value that is handed to the stack is the part of the attribute buffer that was filled.
pub indicate : Uart → Uart
indicate u = record u { indicated = u.indicated ++ take u.tx_value_size u.tx_value ∷ [] }

unfoldable pub send_next : Uart → Uart × Bool
unfolding indicate fill_value
send_next u =
    if not (u.tx_value_size == 0) || (u.tx_tail == u.tx_head)
    then (u, false)
    else if not (can_indicate u)
    then (u, false)
    else (indicate (fill_value attr_size u u.tx_tail), true)

-- The inner loop of `send`: the bytes that did not fit, and the service.
pub fill_buffer : Uart → List ℕ → List ℕ × Uart
fill_buffer u [] = ([], u)
fill_buffer u (b ∷ bs) =
    let next = (u.tx_head + 1) % u.tx_size in
    if next == u.tx_tail
    then (b ∷ bs, u)
    else fill_buffer (record u { tx_buffer = set u.tx_buffer u.tx_head b; tx_head = next }) bs

abbrev pub is_empty : List ℕ → Bool
is_empty [] = true
is_empty (b ∷ bs) = false

-- `wait` is what happens to the service in `schedule()`: other fibers and the callbacks run.
module _ (wait : Uart → Uart) where
  -- The part of a round of `send` that sleeps until the buffer was confirmed.
  pub sleep_round : Uart → Uart
  sleep_round u =
      let v = wait (send_next (record u { waiting_for_empty = true })).0 in
      record v { waiting_for_empty = false }

  -- The outer loop of `send`: the bytes not written. `none` means that the fuel ran out.
  pub send_rounds : ℕ → Uart → List ℕ → Mode → Option (List ℕ × Uart)
  unfolding sleep_round
  send_rounds zero u bs mode = none
  send_rounds (suc fuel) u bs sync_sleep = elim (can_indicate u) [
    | false ↦ some (bs, u)
    | true ↦
        let (rest, v) = fill_buffer u bs in
        let w = sleep_round v in
        let again = send_rounds fuel w rest sync_sleep in
        if is_empty rest && (w.tx_tail == w.tx_head) then some (rest, w) else again
  ]
  send_rounds (suc fuel) u bs mode = elim (can_indicate u) [
    | false ↦ some (bs, u)
    | true ↦ (let (rest, v) = fill_buffer u bs in some (rest, (send_next v).0))
  ]

  pub send : ℕ → Uart → List ℕ → Mode → Option (Result ℕ × Uart)
  send fuel u bytes sync_spinwait = some (err invalid_parameter, u)
  send fuel u bytes mode =
      if ltb (length bytes) 1
      then some (err invalid_parameter, u)
      else if not (can_indicate u)
      then some (err not_supported, u)
      else Option.map (λ (p : List ℕ × Uart). (ok (length bytes - length p.0), p.1))
          (send_rounds fuel u bytes mode)

  pub putc : ℕ → Uart → ℕ → Mode → Option (Result ℕ × Uart)
  unfolding send
  putc fuel u c mode = send fuel u (c ∷ []) mode

-- The confirmed bytes leave the buffer, and the next value is sent unless `send` is waiting to.
pub on_confirmation : Uart → ℕ → Uart
on_confirmation u handle =
    let v =
      raise (record u { tx_tail = (u.tx_tail + u.tx_value_size) % u.tx_size; tx_value_size = 0 })
        tx_empty in
    if handle == u.tx_handle then (if not u.waiting_for_empty then (send_next v).0 else v) else u

pub on_disconnect : Uart → Uart
on_disconnect u =
    let v = record u { tx_value_size = 0; tx_tail = 0; tx_head = 0 } in
    if u.waiting_for_empty then raise v tx_empty else v
