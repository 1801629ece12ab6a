-- ===== src/Radio.antt =====
-- inc/MicroBitRadio.h and source/MicroBitRadio.cpp, MicroBitRadioDatagram.cpp,
-- MicroBitRadioEvent.cpp: broadcast packets, queued as they arrive and handed on when the
-- processor is idle.
pub mod Delivery
pub mod Laws
pub mod Sleep
mod Tests
use codal_microbit_v.Base.{
  ℕ, zero, suc, ◌+◌, ◌-◌, ◌≤◌, ◌<◌, ◌≡◌, Bool, true, false, not, ◌&&◌, ◌||◌, Option, none, some,
  List, [], ◌∷◌, ◌++◌, min, length, take, ltb, leb, ◌==◌, if◌then◌else◌, Result, ok, err,
  invalid_parameter, not_supported, no_resources, ℤ, pos, negsuc,
}

-- `rssi` is what getRSSI returned: a strength, or the code of an error.
pub record FrameBuffer : Type 0 where
  pub length : ℕ
  pub version : ℕ
  pub group : ℕ
  pub protocol : ℕ
  pub payload : List ℕ
  pub rssi : Result ℤ

-- The events raised: a datagram is there, a packet of another protocol is there, and the event of
-- another device.
pub data RadioEvent : Type 0 where
  datagram : RadioEvent
  data_ready : ℕ → RadioEvent

-- The three classes as one. The flags of `status` are fields of their own. `rx_buf` is none for
-- NULL. `irq_enabled` is the interrupt controller's; `ble_running` the Bluetooth stack's. `sent`
-- and `events` log what was sent and raised.
pub record Radio : Type 0 where
  pub initialised : Bool
  pub deepsleep_irq : Bool
  pub deepsleep_init : Bool
  pub idle_tick : Bool
  pub irq_enabled : Bool
  pub ble_running : Bool
  pub band : ℕ
  pub power : ℕ
  pub group : ℕ
  pub queue_depth : ℕ
  pub rssi : ℤ
  pub rx_queue : List FrameBuffer
  pub rx_buf : Option FrameBuffer
  pub datagram_queue : List FrameBuffer
  pub suppress_forwarding : Bool
  pub sent : List FrameBuffer
  pub events : List RadioEvent

abbrev pub max_buffers : ℕ
max_buffers = 4

abbrev pub header_size : ℕ
header_size = 4

abbrev pub empty_frame : FrameBuffer
empty_frame = record {
  length = 0;
  version = 0;
  group = 0;
  protocol = 0;
  payload = [];
  rssi = ok (pos 0);
}

-- The constructor.
pub init : Bool → Radio
init ble = record {
  initialised = false;
  deepsleep_irq = false;
  deepsleep_init = false;
  idle_tick = false;
  irq_enabled = false;
  ble_running = ble;
  band = 7;
  power = 6;
  group = 0;
  queue_depth = 0;
  rssi = pos 0;
  rx_queue = [];
  rx_buf = none;
  datagram_queue = [];
  suppress_forwarding = false;
  sent = [];
  events = [];
}

pub set_transmit_power : Radio → ℤ → Result (Unit {0}) × Radio
set_transmit_power r (negsuc n) = (err invalid_parameter, r)
set_transmit_power r (pos n) =
    if leb 8 n then (err invalid_parameter, r) else (ok tt, record r { power = n })

pub set_frequency_band : Radio → ℤ → Result (Unit {0}) × Radio
set_frequency_band r (negsuc n) =
    if r.ble_running then (err not_supported, r) else (err invalid_parameter, r)
set_frequency_band r (pos n) =
    if r.ble_running
    then (err not_supported, r)
    else if ltb 100 n
    then (err invalid_parameter, r)
    else (ok tt, record r { band = n })

pub set_group : Radio → ℕ → Result (Unit {0}) × Radio
set_group r g = if r.ble_running then (err not_supported, r) else (ok tt, record r { group = g })

pub get_rssi : Radio → Result ℤ
get_rssi r = if not r.initialised then err not_supported else ok r.rssi

pub set_rssi : Radio → ℤ → Result (Unit {0}) × Radio
set_rssi r v = if not r.initialised then (err not_supported, r) else (ok tt, record r { rssi = v })

-- `room` tells whether a replacement buffer can be allocated.
pub queue_rx_buf : Bool → Radio → Result (Unit {0}) × Radio
unfolding get_rssi
queue_rx_buf room r = elim r.rx_buf [
  | none ↦ (err invalid_parameter, r)
  | some f ↦
      let marked = record f { rssi = get_rssi r } in
      if leb max_buffers r.queue_depth
      then (err no_resources, r)
      else if not room
      then (err no_resources, record r { rx_buf = some marked })
      else (
        ok tt,
        record r {
          rx_queue = r.rx_queue ++ marked ∷ [];
          queue_depth = r.queue_depth + 1;
          rx_buf = some empty_frame;
        },
      )
]

-- The interrupt at the end of a packet: the hardware has written `f` to the buffer, unless there is
-- none. `sample` is the strength without its sign.
abbrev pub negated : ℕ → ℤ
negated zero = pos 0
negated (suc n) = negsuc n

abbrev pub written : FrameBuffer → Option FrameBuffer → Option FrameBuffer
written f none = none
written f (some b) = some f

pub on_radio_end : Bool → Radio → FrameBuffer → Bool → ℕ → Radio
unfolding set_rssi queue_rx_buf
on_radio_end room r f crc_ok sample =
    let s = record r { rx_buf = written f r.rx_buf } in
    if crc_ok then (queue_rx_buf room (set_rssi s (negated sample)).1).1 else (set_rssi s (pos 0)).1

pub enable : Bool → Radio → Result (Unit {0}) × Radio
enable room r =
    if r.initialised
    then (ok tt, r)
    else if r.ble_running
    then (err not_supported, r)
    else elim r.rx_buf [
      | some f ↦ (ok tt, record r { irq_enabled = true; idle_tick = true; initialised = true })
      | none ↦ if not room then (err no_resources, r) else (
        ok tt,
        record r {
          rx_buf = some empty_frame;
          irq_enabled = true;
          idle_tick = true;
          initialised = true;
        },
      )
    ]

pub disable : Radio → Result (Unit {0}) × Radio
disable r =
    if r.ble_running
    then (err not_supported, r)
    else if not r.initialised
    then (ok tt, r)
    else (ok tt, record r { irq_enabled = false; idle_tick = false; initialised = false })

pub set_sleep : Bool → Radio → Bool → Result (Unit {0}) × Radio
unfolding enable disable
set_sleep room r true =
    if r.ble_running
    then (err not_supported, r)
    else if r.initialised
    then (ok tt, record ((disable r).1) { deepsleep_init = true })
    else if r.irq_enabled
    then (ok tt, record r { deepsleep_irq = true; irq_enabled = false })
    else (ok tt, r)
set_sleep room r false =
    if r.ble_running
    then (err not_supported, r)
    else if r.deepsleep_init
    then (ok tt, (enable room (record r { deepsleep_init = false })).1)
    else if r.deepsleep_irq
    then (ok tt, record r { deepsleep_irq = false; irq_enabled = true })
    else (ok tt, r)

-- `recv` of MicroBitRadio.
pub take_packet : Radio → Option FrameBuffer × Radio
take_packet r = elim r.rx_queue [
  | [] ↦ (none, r)
  | f ∷ fs ↦
      (some f, record r { rx_queue = fs; queue_depth = r.queue_depth - 1; irq_enabled = true })
]

-- `packetReceived` of MicroBitRadioDatagram. The depth is the number of packets before the last.
abbrev pub enqueue : Radio → FrameBuffer → Radio
enqueue r f = elim r.datagram_queue [
  | [] ↦ record r { datagram_queue = f ∷ []; events = r.events ++ datagram ∷ [] }
  | g ∷ gs ↦
      if leb max_buffers (length gs)
      then r
      else record r { datagram_queue = g ∷ gs ++ f ∷ []; events = r.events ++ datagram ∷ [] }
]
