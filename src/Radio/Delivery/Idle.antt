-- ===== src/Radio/Delivery/Idle.antt =====
-- idleCallback: every packet is taken from the queue, the datagrams in order.
use mathlib.Core.Path.{subst}
use codal_microbit_v.Base.{
  ℕ, zero, suc, ◌-◌, ◌≤◌, ◌≡◌, refl, sym, ap, ◌∙◌, arith, true, false, some, List, [], ◌∷◌, ◌++◌,
  append-nil, append_assoc, length, length-append, length-take, take, take_all, leb, ◌==◌,
  if◌then◌else◌, Bool-cases, inl, inr,
}
use codal_microbit_v.Radio.{FrameBuffer, Radio, take_packet, enqueue, data_ready}
use codal_microbit_v.Radio.Delivery.{
  datagram_taken, event_taken, datagram_received, event_received, dispatch, idle_callback,
}

-- The datagrams among the packets.
abbrev pub datagrams : List FrameBuffer → List FrameBuffer
datagrams [] = []
datagrams (f ∷ fs) = if f.protocol == 1 then f ∷ datagrams fs else datagrams fs

datagrams-cons :
    (f : FrameBuffer) (fs : List FrameBuffer)
    → datagrams (f ∷ []) ++ datagrams fs ≡ datagrams (f ∷ fs)
datagrams-cons f fs = elim (Bool-cases (f.protocol == 1)) [ inl y ↦ rw y refl | inr n ↦ rw n refl ]

-- Only what fits counts of the first list.
take-take_append {ℓ} :
    {A : Type ℓ} (n : ℕ) (xs ys : List A) → take n (take n xs ++ ys) ≡ take n (xs ++ ys)
take-take_append zero xs ys = refl
take-take_append (suc n) [] ys = refl
take-take_append (suc n) (x ∷ xs) ys = ap (◌∷◌ x) (take-take_append n xs ys)

take_full {ℓ} : {A : Type ℓ} (n : ℕ) (xs ys : List A) → length xs ≡ n → take n (xs ++ ys) ≡ xs
take_full zero [] ys h = refl
take_full zero (x ∷ xs) ys h = absurd (omega arith)
take_full (suc n) [] ys h = absurd (omega arith)
take_full (suc n) (x ∷ xs) ys h = ap (◌∷◌ x) (take_full n xs ys (omega arith))

-- A datagram joins its queue if fewer than five are there.
enqueue_lem :
    (r : Radio) (f : FrameBuffer)
    → length r.datagram_queue ≤ 5
    → ((enqueue r f).datagram_queue ≡ take 5 (r.datagram_queue ++ f ∷ []))
      × ((enqueue r f).rx_queue ≡ r.rx_queue)
enqueue_lem r f le = go r.datagram_queue refl le
  where
    go :
        (q : List FrameBuffer)
        → r.datagram_queue ≡ q
        → length q ≤ 5
        → ((enqueue r f).datagram_queue ≡ take 5 (q ++ f ∷ []))
          × ((enqueue r f).rx_queue ≡ r.rx_queue)
    go [] e le = rw (e, enqueue) (refl, refl)
    go (g ∷ gs) e le = elim (Bool-cases (leb 4 (length gs))) [
      | inl full ↦
          rw (e, enqueue) (rw full (e ∙ sym (take_full 5 (g ∷ gs) (f ∷ []) (ground arith)), refl))
      | inr room ↦
          rw (e, enqueue)
            (rw room (
              sym (take_all 5 (g ∷ gs ++ f ∷ []) (ground (arith, length-append gs (f ∷ [])))),
              refl,
            ))
    ]

-- The radio without the packet at the front.
abbrev rest_of : Radio → List FrameBuffer → Radio
rest_of r fs = record r { rx_queue = fs; queue_depth = r.queue_depth - 1; irq_enabled = true }

take_packet-cons :
    (r : Radio) (f : FrameBuffer) (fs : List FrameBuffer)
    → r.rx_queue ≡ f ∷ fs
    → take_packet r ≡ (some f, rest_of r fs)
unfolding take_packet
take_packet-cons r f fs e = rw (e, take_packet) refl

datagram_received_lem :
    (r : Radio) (f : FrameBuffer) (fs : List FrameBuffer)
    → r.rx_queue ≡ f ∷ fs
    → datagram_received r ≡ enqueue (rest_of r fs) f
unfolding datagram_received
datagram_received_lem r f fs e = ap datagram_taken (take_packet-cons r f fs e)

module _ (max_size : ℕ) (fire : List ℕ → Radio → Radio)
    (keeps_packets : (e : List ℕ) (r : Radio) → (fire e r).rx_queue ≡ r.rx_queue)
    (keeps_datagrams : (e : List ℕ) (r : Radio)
      → (fire e r).datagram_queue ≡ r.datagram_queue) where
  IsDispatched : Radio → FrameBuffer → List FrameBuffer → Radio → Type 0
  IsDispatched r f fs s =
      (s.rx_queue ≡ fs) × (s.datagram_queue ≡ take 5 (r.datagram_queue ++ datagrams (f ∷ [])))

  -- A packet that is no datagram leaves the datagrams as they are.
  none_added :
      (r : Radio) (f : FrameBuffer)
      → length r.datagram_queue ≤ 5
      → (f.protocol == 1) ≡ false
      → r.datagram_queue ≡ take 5 (r.datagram_queue ++ datagrams (f ∷ []))
  none_added r f le other =
      rw other (rw (append-nil r.datagram_queue) (sym (take_all 5 r.datagram_queue le)))

  event_received-IsDispatched :
      (r : Radio) (f : FrameBuffer) (fs : List FrameBuffer)
      → r.rx_queue ≡ f ∷ fs
      → length r.datagram_queue ≤ 5
      → (f.protocol == 1) ≡ false
      → IsDispatched r f fs (event_received max_size fire r)
  unfolding event_received IsDispatched
  event_received-IsDispatched r f fs e le other =
      subst (λ t. IsDispatched r f fs (event_taken max_size fire t))
        (sym (take_packet-cons r f fs e))
        (keeps_packets f.payload _, keeps_datagrams f.payload _ ∙ none_added r f le other)

  dispatch-IsDispatched :
      (r : Radio) (f : FrameBuffer) (fs : List FrameBuffer)
      → r.rx_queue ≡ f ∷ fs
      → length r.datagram_queue ≤ 5
      → IsDispatched r f fs (dispatch max_size fire r f)
  unfolding dispatch IsDispatched
  dispatch-IsDispatched r f fs e le = elim (Bool-cases (f.protocol == 1)) [
    | inl y ↦
        let (added, same) = enqueue_lem (rest_of r fs) f le in
        rw (y, dispatch) (rw (datagram_received_lem r f fs e) (same, added))
    | inr n ↦ elim (Bool-cases (f.protocol == 2)) [
      | inl y ↦
          let (gone, same) = event_received-IsDispatched r f fs e le n in
          rw (n, y, dispatch) (gone, rw n at same)
      | inr m ↦
          let kept = none_added r f le n in
          let same = rw n at kept in
          let noted = record r { events = r.events ++ data_ready f.protocol ∷ [] } in
          rw (n, m, dispatch) (rw (take_packet-cons noted f fs e) (refl, same))
    ]
  ]

  all_there :
      (r : Radio) → length r.datagram_queue ≤ 5 → r.datagram_queue ≡ take 5 (r.datagram_queue ++ [])
  all_there r le = rw (append-nil r.datagram_queue) (sym (take_all 5 r.datagram_queue le))

  idle_callback-from :
      (fuel : ℕ) (q : List FrameBuffer) (r : Radio)
      → r.rx_queue ≡ q
      → length q ≤ fuel
      → length r.datagram_queue ≤ 5
      → let s = idle_callback max_size fire fuel r in
        (s.rx_queue ≡ []) × (s.datagram_queue ≡ take 5 (r.datagram_queue ++ datagrams q))
  unfolding idle_callback IsDispatched
  idle_callback-from zero [] r e enough le = (e, all_there r le)
  idle_callback-from zero (f ∷ fs) r e enough le = absurd (omega arith)
  idle_callback-from (suc fuel) [] r e enough le = rw (e, idle_callback) (e, all_there r le)
  idle_callback-from (suc fuel) (f ∷ fs) r e enough le =
      let (gone, got) = dispatch-IsDispatched r f fs e le in
      let places = length-take 5 (r.datagram_queue ++ datagrams (f ∷ [])) in
      let (empty, all) =
        idle_callback-from fuel fs (dispatch max_size fire r f) gone (omega arith)
          (omega (arith, ap length got, places)) in
      rw (e, idle_callback)
        (
          empty,
          all
              ∙ ap (λ q. take 5 (q ++ datagrams fs)) got
              ∙ take-take_append 5 (r.datagram_queue ++ datagrams (f ∷ [])) (datagrams fs)
              ∙ ap (take 5) (
                  append_assoc r.datagram_queue _ _
                  ∙ ap (λ q. r.datagram_queue ++ q) (datagrams-cons f fs)),
        )

  -- With a round for each packet queued, the receive queue is empty after `idleCallback`. The
  -- datagrams among the packets follow those that waited for the program, in order, until five
  -- wait; those that find no place are dropped.
  pub idle_callback_lem :
      (fuel : ℕ) (r : Radio)
      → length r.rx_queue ≤ fuel
      → length r.datagram_queue ≤ 5
      → let s = idle_callback max_size fire fuel r in
        (s.rx_queue ≡ []) × (s.datagram_queue ≡ take 5 (r.datagram_queue ++ datagrams r.rx_queue))
  idle_callback_lem fuel r enough le = idle_callback-from fuel r.rx_queue r refl enough le
