-- ===== src/Radio/Delivery/Sending.antt =====
-- Datagrams from one device to another.
use codal_microbit_v.Base.{
  ℕ, ◌+◌, ◌-◌, ◌%◌, ◌^◌, ◌≤◌, ◌<◌, ◌≡◌, refl, ap, ap₂, ◌∙◌, arith, true, false, ◌&&◌, none, some,
  List, [], ◌∷◌, ◌++◌, min, length, take, take_all, ltb, leb, if◌then◌else◌, ok, err,
  invalid_parameter, Bool-cases, inl, inr,
}
use codal_microbit_v.Radio.{FrameBuffer, Radio, on_radio_end, negated, header_size}
use codal_microbit_v.Radio.Laws.{IsValid, on_radio_end_lem, on_radio_end-datagrams}
use codal_microbit_v.Radio.Delivery.{send, frame_of, datagram_send, datagram_recv, idle_callback}
use codal_microbit_v.Radio.Delivery.Idle.{idle_callback_lem, datagrams}

recv_front :
    (r : Radio) (f : FrameBuffer) (fs : List FrameBuffer) (len : ℕ)
    → r.datagram_queue ≡ f ∷ fs
    → (datagram_recv r len).0 ≡ ok (take (min len (f.length - (header_size - 1))) f.payload)
unfolding datagram_recv
recv_front r f fs len e = rw (e, datagram_recv) refl

module _ (max_size : ℕ) (fire : List ℕ → Radio → Radio) (fits_byte : max_size < 250) where
  -- Without Bluetooth and with payloads below 250 bytes: a datagram that is no longer than the
  -- payload of a packet goes out once, with its bytes and their number, and the queues stay as they
  -- are. One that is up to three bytes longer is copied past the end of the payload. One that is
  -- still longer is refused, and the radio left alone.
  pub datagram_send_lem :
      (r : Radio) (bytes : List ℕ)
      → r.ble_running ≡ false
      → datagram_send max_size fire r bytes ≡ (
          if leb (length bytes) max_size
          then some (
            ok tt,
            record r {
              sent = r.sent ++ record (frame_of 1 bytes) { length = length bytes + 3 } ∷ [];
              irq_enabled = true;
            },
          )
          else if leb (length bytes) (max_size + 3)
          then none
          else some (err invalid_parameter, r))
  unfolding datagram_send send
  datagram_send_lem r bytes ble = elim (Bool-cases (leb (length bytes) max_size)) [
    | inl y ↦
        let short : ltb (max_size + header_size - 1) (length bytes) ≡ false = ground arith in
        let inside : ltb max_size (length bytes) ≡ false = ground arith in
        let number : (length bytes + header_size - 1) % 2 ^ 8 ≡ length bytes + 3 = ground arith in
        let fit : ltb (max_size + header_size - 1) (length bytes + 3) ≡ false = ground arith in
        rw y (rw (short, inside, ble, number) (rw fit refl))
    | inr n ↦ elim (Bool-cases (leb (length bytes) (max_size + 3))) [
      | inl over ↦
          let short : ltb (max_size + header_size - 1) (length bytes) ≡ false = ground arith in
          let outside : ltb max_size (length bytes) ≡ true = ground arith in
          rw (n, over) (rw (short, outside) refl)
      | inr long ↦
          let refused : ltb (max_size + header_size - 1) (length bytes) ≡ true = ground arith in
          rw (n, long) (rw refused refl)
    ]
  ]

  -- With payloads below 250 bytes: what one device sends in a datagram that is not too long, recv
  -- gives on another, of which the radio is on and valid and both queues are empty: once the
  -- packet has arrived whole and the processor is idle, recv into a buffer that is large enough
  -- stores exactly the bytes sent.
  pub datagram_send-recv :
      (r : Radio) (bytes : List ℕ) (sample len : ℕ)
      → (keeps_packets : (e : List ℕ) (r : Radio) → (fire e r).rx_queue ≡ r.rx_queue)
      → (keeps_datagrams : (e : List ℕ) (r : Radio) → (fire e r).datagram_queue ≡ r.datagram_queue)
      → IsValid r
      → r.initialised ≡ true
      → r.rx_queue ≡ []
      → r.datagram_queue ≡ []
      → length bytes ≤ max_size
      → length bytes ≤ len
      → let arrived = on_radio_end true r (frame_of 1 bytes) true sample in
        let delivered = idle_callback max_size fire 1 arrived in
        (datagram_recv delivered len).0 ≡ ok bytes
  datagram_send-recv r bytes sample len keeps_packets keeps_datagrams valid on no_packet no_datagram
        fits room =
      recv_front (idle_callback max_size fire 1 arrived) _ [] len waiting
      ∙ ap ok (take_all _ bytes (omega arith))
    where
      arrived : Radio
      arrived = on_radio_end true r (frame_of 1 bytes) true sample

      queued : arrived.rx_queue ≡ record (frame_of 1 bytes) { rssi = ok (negated sample) } ∷ []
      queued =
          (on_radio_end_lem true r (frame_of 1 bytes) true sample valid on).0
          ∙ ap
              (λ qs.
                if ltb (length qs) 4 && true
                then qs ++ record (frame_of 1 bytes) { rssi = ok (negated sample) } ∷ []
                else qs)
              no_packet

      none_before : arrived.datagram_queue ≡ []
      none_before = on_radio_end-datagrams true r (frame_of 1 bytes) true sample ∙ no_datagram

      waiting :
          (idle_callback max_size fire 1 arrived).datagram_queue
          ≡ record (frame_of 1 bytes) { rssi = ok (negated sample) } ∷ []
      waiting =
          (idle_callback_lem max_size fire keeps_packets keeps_datagrams 1 arrived
            (omega (arith, ap length queued)) (omega (arith, ap length none_before))).1
          ∙ ap₂ (λ d q. take 5 (d ++ datagrams q)) none_before queued
