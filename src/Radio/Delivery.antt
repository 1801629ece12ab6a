-- ===== src/Radio/Delivery.antt =====
-- Packets handed on to the protocols, and packets sent.
pub mod Idle
pub mod Sending
use codal_microbit_v.Base.{
  ℕ, zero, suc, ◌+◌, ◌-◌, ◌%◌, ◌^◌, ◌≤◌, ◌<◌, ◌≡◌, Bool, true, false, not, ◌&&◌, ◌||◌, Option, none,
  some, List, [], ◌∷◌, ◌++◌, min, length, take, ltb, leb, ◌==◌, if◌then◌else◌, Result, ok, err,
  invalid_parameter, not_supported, no_resources,
}
use codal_microbit_v.Radio.{
  FrameBuffer, Radio, datagram, data_ready, take_packet, enqueue, header_size, empty_frame,
}

-- `packetReceived` of MicroBitRadioDatagram.
abbrev pub datagram_taken : Option FrameBuffer × Radio → Radio
datagram_taken (none, r) = r
datagram_taken (some f, r) = enqueue r f

pub datagram_received : Radio → Radio
unfolding take_packet
datagram_received r = datagram_taken (take_packet r)

-- `recv` of MicroBitRadioDatagram, into a buffer of `len` bytes. The length of a packet of fewer
-- bytes than its header is not looked at here: a packet queued has its header.
pub datagram_recv : Radio → ℕ → Result (List ℕ) × Radio
datagram_recv r len = elim r.datagram_queue [
  | [] ↦ (err invalid_parameter, r)
  | f ∷ fs ↦ (
    ok (take (min len (f.length - (header_size - 1))) f.payload),
    record r { datagram_queue = fs },
  )
]

-- The frame that carries the bytes for a protocol. `length` is a `uint8_t`.
abbrev pub frame_of : ℕ → List ℕ → FrameBuffer
frame_of protocol bytes = record empty_frame {
  length = (length bytes + header_size - 1) % 2 ^ 8;
  version = 1;
  protocol = protocol;
  payload = bytes;
}

-- `max_size` is the configured MICROBIT_RADIO_MAX_PACKET_SIZE. `fire` is what the event model and
-- its listeners do with the event in a packet.
module _ (max_size : ℕ) (fire : List ℕ → Radio → Radio) where
  -- `send` of MicroBitRadio, with the packet sent in the log.
  unfoldable pub send : Radio → FrameBuffer → Result (Unit {0}) × Radio
  send r f =
      if r.ble_running
      then (err not_supported, r)
      else if ltb (max_size + header_size - 1) f.length
      then (err invalid_parameter, r)
      else (ok tt, record r { sent = r.sent ++ f ∷ []; irq_enabled = true })

  -- `packetReceived` of MicroBitRadioEvent.
  abbrev pub event_taken : Option FrameBuffer × Radio → Radio
  event_taken (none, r) = r
  event_taken (some f, r) = record (fire f.payload (record r { suppress_forwarding = true })) {
    suppress_forwarding = false;
  }

  pub event_received : Radio → Radio
  unfolding take_packet
  event_received r = event_taken (take_packet r)

  -- `eventReceived`: an event of this device, as its bytes, goes out.
  pub forward : Radio → List ℕ → Radio
  unfolding send
  forward r event = if r.suppress_forwarding then r else (send r (frame_of 2 event)).1

  -- `send` of MicroBitRadioDatagram. Bytes copied past the end of the frame's payload are none.
  unfoldable pub datagram_send : Radio → List ℕ → Option (Result (Unit {0}) × Radio)
  unfolding send
  datagram_send r bytes =
      if ltb (max_size + header_size - 1) (length bytes)
      then some (err invalid_parameter, r)
      else if ltb max_size (length bytes)
      then none
      else some (send r (frame_of 1 bytes))

  -- A round of `idleCallback` for the packet `f`.
  pub dispatch : Radio → FrameBuffer → Radio
  unfolding datagram_received event_received take_packet
  dispatch r f =
      if f.protocol == 1
      then datagram_received r
      else if f.protocol == 2
      then event_received r
      else (take_packet (record r { events = r.events ++ data_ready f.protocol ∷ [] })).1

  pub idle_callback : ℕ → Radio → Radio
  unfolding dispatch
  idle_callback zero r = r
  idle_callback (suc fuel) r = elim r.rx_queue [
    | [] ↦ r
    | f ∷ fs ↦ idle_callback fuel (dispatch r f)
  ]
