-- ===== src/Radio/Laws.antt =====
-- The receive queue is a bounded queue, and the datagrams in it are delivered in order.
use codal_microbit_v.Base.{
  ℤ, pos, ℕ, ◌+◌, ◌≤◌, ◌≡◌, refl, ap, ◌∙◌, arith, Bool, true, false, ◌&&◌, some, [], ◌∷◌, ◌++◌,
  length, length-append, ltb, leb, if◌then◌else◌, ok, Bool-cases, ltb→lt, inl, inr,
}
use codal_microbit_v.Radio.{
  FrameBuffer, Radio, get_rssi, negated, set_rssi, queue_rx_buf, on_radio_end, written,
}

-- The depth is the number of packets queued, four at most, and there is a buffer to receive into.
pub record IsValid (r : Radio) : Type 0 where
  pub depth : r.queue_depth ≡ length r.rx_queue
  pub bounded : length r.rx_queue ≤ 4
  pub buffer : (f : FrameBuffer) × (r.rx_buf ≡ some f)

queue_rx_buf_lem :
    (room : Bool) (r : Radio) (f : FrameBuffer)
    → IsValid r
    → r.rx_buf ≡ some f
    → let s = (queue_rx_buf room r).1 in
      (s.rx_queue ≡ (
        if ltb (length r.rx_queue) 4 && room
        then r.rx_queue ++ record f { rssi = get_rssi r } ∷ []
        else r.rx_queue))
      × IsValid s
unfolding queue_rx_buf
queue_rx_buf_lem room r f valid has = elim (Bool-cases (leb 4 r.queue_depth)) [
  | inl full ↦
      let no_place : ltb (length r.rx_queue) 4 ≡ false = ground (arith, valid.depth) in
      rw (has, queue_rx_buf) (rw full (rw no_place refl, valid))
  | inr not_full ↦
      let place : ltb (length r.rx_queue) 4 ≡ true = ground (arith, valid.depth) in
      elim (Bool-cases room) [
        | inr none_left ↦
            rw (has, queue_rx_buf)
              (rw (not_full, none_left)
                (
                  rw place refl,
                  record { depth = valid.depth; bounded = valid.bounded; buffer = (_, refl) },
                ))
        | inl room_left ↦
            rw (has, queue_rx_buf)
              (rw (not_full, room_left)
                (
                  rw place refl,
                  record {
                    depth = omega (arith, valid.depth, longer);
                    bounded = omega (arith, longer, ltb→lt _ _ place);
                    buffer = (_, refl);
                  },
                ))
      ]
]
  where
    longer : length (r.rx_queue ++ record f { rssi = get_rssi r } ∷ []) ≡ length r.rx_queue + 1
    longer = length-append r.rx_queue _

-- The radio when the hardware has written `f` to the buffer.
abbrev filled : Radio → FrameBuffer → Radio
filled r f = record r { rx_buf = written f r.rx_buf }

filled-IsValid :
    (r : Radio) (f : FrameBuffer) (v : ℤ) → IsValid r → IsValid (record (filled r f) { rssi = v })
filled-IsValid r f v valid =
    let (b, is_b) = valid.buffer in
    record { depth = valid.depth; bounded = valid.bounded; buffer = (f, ap (written f) is_b) }

set_rssi-on : (r : Radio) (v : ℤ) → r.initialised ≡ true → (set_rssi r v).1 ≡ record r { rssi = v }
unfolding set_rssi
set_rssi-on r v on = rw on refl

-- On a valid radio that is on, a packet whose checksum is right joins the end of the queue with its
-- strength, if fewer than four packets are queued and a new buffer can be had; otherwise the queue
-- is as it was. The radio stays valid.
pub on_radio_end_lem :
    (room : Bool) (r : Radio) (f : FrameBuffer) (crc_ok : Bool) (sample : ℕ)
    → IsValid r
    → r.initialised ≡ true
    → let s = on_radio_end room r f crc_ok sample in
      (s.rx_queue ≡ (
        if crc_ok && ltb (length r.rx_queue) 4 && room
        then r.rx_queue ++ record f { rssi = ok (negated sample) } ∷ []
        else r.rx_queue))
      × IsValid s
unfolding on_radio_end get_rssi
on_radio_end_lem room r f false sample valid on =
    rw (set_rssi-on (filled r f) (pos 0) on, on_radio_end) (refl, filled-IsValid r f (pos 0) valid)
on_radio_end_lem room r f true sample valid on =
    let s = record (filled r f) { rssi = negated sample } in
    let (b, is_b) = valid.buffer in
    let (queued, valid_after) =
      queue_rx_buf_lem room s f (filled-IsValid r f (negated sample) valid) (ap (written f) is_b) in
    let strength : get_rssi s ≡ ok (negated sample) = rw on refl in
    rw (set_rssi-on (filled r f) (negated sample) on, on_radio_end)
      (
        queued
            ∙ ap
                (λ v.
                  if ltb (length r.rx_queue) 4 && room
                  then r.rx_queue ++ record f { rssi = v } ∷ []
                  else r.rx_queue)
                strength,
        valid_after,
      )

-- The interrupt leaves the datagrams that wait for the program alone.
pub on_radio_end-datagrams :
    (room : Bool) (r : Radio) (f : FrameBuffer) (crc_ok : Bool) (sample : ℕ)
    → (on_radio_end room r f crc_ok sample).datagram_queue ≡ r.datagram_queue
unfolding on_radio_end queue_rx_buf set_rssi
on_radio_end-datagrams room r f crc_ok sample = ground arith
