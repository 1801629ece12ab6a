-- ===== src/Radio/Tests.antt =====
-- The radio on concrete inputs.
use codal_microbit_v.Base.{pos, negsuc, ℕ, ◌≡◌, refl, arith, true, false, some, [], ◌∷◌, ok}
use codal_microbit_v.Radio.{FrameBuffer, Radio, empty_frame, init, enable, set_sleep, on_radio_end}
use codal_microbit_v.Radio.Delivery.Sending.{datagram_send_lem, datagram_send-recv}
use codal_microbit_v.Radio.Delivery.{frame_of, datagram_send, idle_callback, datagram_recv}
use codal_microbit_v.Radio.Delivery.Idle.{idle_callback_lem}
use codal_microbit_v.Radio.Laws.{IsValid, on_radio_end_lem}
use codal_microbit_v.Radio.Sleep.{IsAwake, SameSwitches, set_sleep_wakes}

-- A packet of protocol `p` with one byte.
abbrev packet : ℕ → ℕ → FrameBuffer
packet p b = record empty_frame { length = 4; version = 1; protocol = p; payload = b ∷ [] }

abbrev switched_on : Radio
switched_on = record {
  initialised = true;
  deepsleep_irq = false;
  deepsleep_init = false;
  idle_tick = true;
  irq_enabled = true;
  ble_running = false;
  band = 7;
  power = 6;
  group = 0;
  queue_depth = 0;
  rssi = pos 0;
  rx_queue = [];
  rx_buf = some empty_frame;
  datagram_queue = [];
  suppress_forwarding = false;
  sent = [];
  events = [];
}

-- Six datagrams of which the last finds no place, with a packet of another protocol among them.
abbrev waiting : Radio
waiting = record switched_on {
  queue_depth = 3;
  rx_queue = packet 1 7 ∷ packet 9 0 ∷ packet 1 8 ∷ [];
  datagram_queue = packet 1 3 ∷ packet 1 4 ∷ packet 1 5 ∷ packet 1 6 ∷ [];
}

switched_on-IsValid : IsValid switched_on
switched_on-IsValid = record { depth = refl; bounded = omega arith; buffer = (empty_frame, refl) }

switched_on-IsAwake : IsAwake switched_on
switched_on-IsAwake = record {
  no_ble = refl;
  buffer = (empty_frame, refl);
  no_init = refl;
  no_irq = refl;
  polls = λ _. refl;
  interrupts = λ _. refl;
}

switches_on : (enable true (init false)).1 ≡ switched_on
unfolding enable init
switches_on = refl

on_radio_end_lem_example :
    let s = on_radio_end true switched_on (packet 1 7) true 60 in
    (s.rx_queue ≡ record (packet 1 7) { rssi = ok (negsuc 59) } ∷ []) × IsValid s
on_radio_end_lem_example =
    on_radio_end_lem true switched_on (packet 1 7) true 60 switched_on-IsValid refl

idle_callback_lem_example :
    let s = idle_callback 32 (λ e r. r) 3 waiting in
    (s.rx_queue ≡ [])
    × (s.datagram_queue ≡ packet 1 3 ∷ packet 1 4 ∷ packet 1 5 ∷ packet 1 6 ∷ packet 1 7 ∷ [])
idle_callback_lem_example =
    idle_callback_lem 32 (λ e r. r) (λ e r. refl) (λ e r. refl) 3 waiting (omega arith)
      (omega arith)

set_sleep_wakes_example :
    let asleep = (set_sleep true switched_on true).1 in
    (asleep.initialised ≡ false)
    × (asleep.irq_enabled ≡ false)
    × SameSwitches switched_on (set_sleep true asleep false).1
set_sleep_wakes_example = set_sleep_wakes true switched_on switched_on-IsAwake

datagram_send_lem_example :
    datagram_send 32 (λ e r. r) switched_on (5 ∷ 6 ∷ [])
    ≡ some (ok tt, record switched_on { sent = frame_of 1 (5 ∷ 6 ∷ []) ∷ [] })
datagram_send_lem_example =
    datagram_send_lem 32 (λ e r. r) (omega arith) switched_on (5 ∷ 6 ∷ []) refl

datagram_send-recv_example :
    let arrived = on_radio_end true switched_on (frame_of 1 (5 ∷ 6 ∷ [])) true 60 in
    let delivered = idle_callback 32 (λ e r. r) 1 arrived in
    (datagram_recv delivered 8).0 ≡ ok (5 ∷ 6 ∷ [])
datagram_send-recv_example =
    datagram_send-recv 32 (λ e r. r) (omega arith) switched_on (5 ∷ 6 ∷ []) 60 8 (λ e r. refl)
      (λ e r. refl) switched_on-IsValid refl refl refl (omega arith) (omega arith)
