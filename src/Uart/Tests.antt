-- ===== src/Uart/Tests.antt =====
-- Runs of the service on a small buffer, and the theorems at such inputs.
use codal_microbit_v.Base.{
  ℕ, ◌≡◌, refl, arith, true, false, none, some, List, [], ◌∷◌, if◌then◌else◌, replicate, ok,
}
use codal_microbit_v.Uart.State.{
  Uart, IsValid, init, init-IsValid, async, rx_contents, tx_contents, rx_full, delim_match,
}
use codal_microbit_v.Uart.Receive.{on_data_written, getc, read, read_until, contains}
use codal_microbit_v.Uart.Receive.Laws.{Received, on_data_written-Received}
use codal_microbit_v.Uart.Receive.Reading.{getc-front, read-take, read_until-split_off}
use codal_microbit_v.Uart.Transmit.{send_next, send, on_confirmation}
use codal_microbit_v.Uart.Transmit.Laws.{send_next_lem}
use codal_microbit_v.Uart.Transmit.Stream.{stream, send_async, on_confirmation_lem}

-- Three slots for received bytes, of which one holds 8; 7 and 9 wait to be sent over a link that
-- is up.
abbrev small : Uart
small = record {
  rx_buffer = 0 ∷ 0 ∷ 8 ∷ 0 ∷ [];
  rx_head = 3;
  rx_tail = 2;
  rx_size = 4;
  tx_buffer = 9 ∷ 0 ∷ 7 ∷ [];
  tx_head = 1;
  tx_tail = 2;
  tx_size = 3;
  tx_value_size = 0;
  tx_value = replicate 20 0;
  delimeters = 10 ∷ [];
  rx_head_match = none;
  waiting_for_empty = false;
  connected = true;
  indicate_enabled = true;
  rx_handle = 5;
  tx_handle = 6;
  events = [];
  indicated = [];
}

abbrev idle : Uart → Uart
idle u = u

-- While the reader sleeps, a line end comes into the last slot of the buffer.
abbrev line_end : Uart → Uart
line_end u = record u { rx_buffer = 0 ∷ 0 ∷ 8 ∷ 10 ∷ []; rx_head = 0 }

small-IsValid : IsValid small
small-IsValid = omega arith

receives : rx_contents (on_data_written small 5 (1 ∷ 10 ∷ 3 ∷ [])) ≡ 8 ∷ 1 ∷ 10 ∷ []
unfolding on_data_written
receives = refl

reports : (on_data_written small 5 (1 ∷ 10 ∷ 3 ∷ [])).events ≡ delim_match ∷ rx_full ∷ []
unfolding on_data_written
reports = refl

sends : (send_next small).0.indicated ≡ (7 ∷ 9 ∷ []) ∷ []
unfolding send_next
sends = refl

init-IsValid_example : IsValid (init none 5 6 20 20)
init-IsValid_example = init-IsValid none 5 6 20 20 (omega arith) (omega arith)

on_data_written-Received_example :
    Received small (1 ∷ 10 ∷ 3 ∷ []) (on_data_written small 5 (1 ∷ 10 ∷ 3 ∷ []))
on_data_written-Received_example = on_data_written-Received small (1 ∷ 10 ∷ 3 ∷ []) small-IsValid

getc-front_example :
    let (r, v) = getc idle small async in (r ≡ ok 8) × (rx_contents v ≡ []) × IsValid v
getc-front_example = getc-front idle small small-IsValid

read-take_example :
    let (r, v) = read idle small 3 async in (r ≡ ok (8 ∷ [])) × (rx_contents v ≡ []) × IsValid v
read-take_example = read-take idle small 3 small-IsValid

-- A string ends before the first NUL: with one among the bytes it comes out empty.
abbrev managed_string : List ℕ → List ℕ
managed_string cs = if contains cs 0 then [] else cs

read_until-split_off_example :
    let (r, v) = read_until idle managed_string small (8 ∷ []) async in
    (r ≡ ok []) × (rx_contents v ≡ []) × IsValid v
unfolding contains
read_until-split_off_example =
    read_until-split_off idle managed_string refl small (8 ∷ []) small-IsValid

send_next_lem_example :
    let (v, sent) = send_next small in
    (sent ≡ true)
    × (v.indicated ≡ (7 ∷ 9 ∷ []) ∷ [])
    × (v.tx_value_size ≡ 2)
    × (tx_contents v ≡ 7 ∷ 9 ∷ [])
    × (rx_contents v ≡ 8 ∷ [])
    × IsValid v
send_next_lem_example = send_next_lem small small-IsValid

send_async_example :
    (v : Uart) × (send idle 1 (record small { tx_head = 2 }) (1 ∷ 2 ∷ 3 ∷ []) async
      ≡ some (ok 2, v))
    × (stream v ≡ 1 ∷ 2 ∷ [])
    × (rx_contents v ≡ 8 ∷ [])
    × IsValid v
send_async_example =
    send_async idle 0 (record small { tx_head = 2 }) (1 ∷ 2 ∷ 3 ∷ []) (omega arith) refl
      (omega arith)

on_confirmation_lem_example :
    let u = record small { tx_value_size = 1 } in
    let v = on_confirmation u 6 in
    (tx_contents v ≡ 9 ∷ []) × (stream v ≡ 9 ∷ []) × (rx_contents v ≡ 8 ∷ []) × IsValid v
on_confirmation_lem_example = on_confirmation_lem (record small { tx_value_size = 1 }) (omega arith)
