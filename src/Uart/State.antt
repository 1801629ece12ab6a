-- ===== src/Uart/State.antt =====
-- The state of MicroBitUARTService, its constructor, and the sizes of its two buffers.
use codal_microbit_v.Base.{
  ℕ, ◌+◌, ◌-◌, ◌%◌, ◌^◌, ◌≤◌, ◌<◌, ◌≡◌, arith, Bool, false, Option, List, [], length, replicate,
  length-replicate, ltb, ◌==◌, if◌then◌else◌, not,
}
use codal_microbit_v.Base.Ring.{window}

-- `MicroBitSerialMode`.
pub data Mode : Type 0 where
  async sync_spinwait sync_sleep : Mode

-- The events that the service raises, with their ids.
pub data UartEvent : Type 0 where
  delim_match head_match rx_full tx_empty : UartEvent

-- `MICROBIT_UART_S_ATTRSIZE`
abbrev pub attr_size : ℕ
attr_size = 20

-- The fields of the class. `rx_head_match` is `rxBuffHeadMatch`, with `none` for -1. `tx_value` is
-- the attribute buffer behind `txBuffer`. The last fields stand for the link, which the Bluetooth
-- stack changes: whether a peer is connected and has asked for indications, the handles of the two
-- characteristics, the events raised and the values handed to `indicateChrValue`, oldest first.
pub record Uart : Type 0 where
  pub rx_buffer : List ℕ
  pub rx_head : ℕ
  pub rx_tail : ℕ
  pub rx_size : ℕ
  pub tx_buffer : List ℕ
  pub tx_head : ℕ
  pub tx_tail : ℕ
  pub tx_size : ℕ
  pub tx_value_size : ℕ
  pub tx_value : List ℕ
  pub delimeters : List ℕ
  pub rx_head_match : Option ℕ
  pub waiting_for_empty : Bool
  pub connected : Bool
  pub indicate_enabled : Bool
  pub rx_handle : ℕ
  pub tx_handle : ℕ
  pub events : List UartEvent
  pub indicated : List (List ℕ)

-- The constructor. The sizes are `uint8_t`, so that adding one wraps. It leaves `rxBuffHeadMatch`
-- as the memory held it: `stale`.
unfoldable pub init : Option ℕ → ℕ → ℕ → ℕ → ℕ → Uart
init stale rx_handle tx_handle rx_buffer_size tx_buffer_size =
    let rx_size = (rx_buffer_size + 1) % 2 ^ 8 in
    let tx_size = (tx_buffer_size + 1) % 2 ^ 8 in
    record {
      rx_buffer = replicate rx_size 0;
      rx_head = 0;
      rx_tail = 0;
      rx_size = rx_size;
      tx_buffer = replicate tx_size 0;
      tx_head = 0;
      tx_tail = 0;
      tx_size = tx_size;
      tx_value_size = 0;
      tx_value = replicate attr_size 0;
      delimeters = [];
      rx_head_match = stale;
      waiting_for_empty = false;
      connected = false;
      indicate_enabled = false;
      rx_handle = rx_handle;
      tx_handle = tx_handle;
      events = [];
      indicated = [];
    }

unfoldable pub is_readable : Uart → Bool
is_readable u = not (u.rx_tail == u.rx_head)

abbrev pub rx_buffered_size : Uart → ℕ
rx_buffered_size u =
    if ltb u.rx_head u.rx_tail then (u.rx_size - u.rx_tail) + u.rx_head else u.rx_head - u.rx_tail

abbrev pub tx_buffered_size : Uart → ℕ
tx_buffered_size u =
    if ltb u.tx_head u.tx_tail then (u.tx_size - u.tx_tail) + u.tx_head else u.tx_head - u.tx_tail

-- The bytes received and not yet read, oldest first.
abbrev pub rx_contents : Uart → List ℕ
rx_contents u = window u.rx_buffer u.rx_size u.rx_tail (rx_buffered_size u)

-- The bytes waiting to be confirmed, oldest first.
abbrev pub tx_contents : Uart → List ℕ
tx_contents u = window u.tx_buffer u.tx_size u.tx_tail (tx_buffered_size u)

-- Every index stays inside its buffer, and a value in flight is a part of what is buffered.
pub record IsValid (u : Uart) : Type 0 where
  pub rx_storage : length u.rx_buffer ≡ u.rx_size
  pub rx_head_in : u.rx_head < u.rx_size
  pub rx_tail_in : u.rx_tail < u.rx_size
  pub tx_storage : length u.tx_buffer ≡ u.tx_size
  pub tx_head_in : u.tx_head < u.tx_size
  pub tx_tail_in : u.tx_tail < u.tx_size
  pub tx_value_storage : length u.tx_value ≡ attr_size
  pub in_flight : u.tx_value_size ≤ tx_buffered_size u

-- A new service is valid and empty, for the buffer sizes that do not wrap to nothing.
pub init-IsValid :
    (stale : Option ℕ) (rx_handle tx_handle rx_buffer_size tx_buffer_size : ℕ)
    → rx_buffer_size < 255
    → tx_buffer_size < 255
    → IsValid (init stale rx_handle tx_handle rx_buffer_size tx_buffer_size)
unfolding init
init-IsValid stale rx_handle tx_handle n m h k = record {
  rx_storage = length-replicate ((n + 1) % 2 ^ 8) 0;
  rx_head_in = omega arith;
  rx_tail_in = omega arith;
  tx_storage = length-replicate ((m + 1) % 2 ^ 8) 0;
  tx_head_in = omega arith;
  tx_tail_in = omega arith;
  tx_value_storage = length-replicate {A = ℕ} attr_size 0;
  in_flight = omega arith;
}
