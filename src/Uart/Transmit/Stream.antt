-- ===== src/Uart/Transmit/Stream.antt =====
-- No byte given to `send` is lost, doubled or moved before another on its way to the link.
use mathlib.Core.Option
use codal_microbit_v.Base.{
  ℕ, suc, ◌+◌, ◌-◌, ◌%◌, ◌<◌, ◌≡◌, refl, sym, ap, ap₂, ◌∙◌, ◌≢◌, arith, Bool, true, false, some,
  List, [], ◌∷◌, ◌++◌, min, append-nil, append_assoc, length, length-set, length-drop, take,
  take-nil, take-cons, drop, drop-nil, drop-cons, set, drop-append, concat, concat-snoc, take-min,
  take-min-append-drop, ◌==◌, not, if◌then◌else◌, Bool-cases, inl, inr, ==→eq, ==→ne, eq→==, ok,
}
use codal_microbit_v.Base.Ring.{
  used, held_push, held_skip, length-held, used_push, used_full, used-lt,
}
use codal_microbit_v.Uart.State.{
  Uart, IsValid, tx_empty, tx_contents, tx_buffered_size, rx_contents, async, attr_size,
}
use codal_microbit_v.Uart.Receive.{raise}
use codal_microbit_v.Uart.Transmit.{
  can_indicate, send_next, fill_buffer, send_rounds, send, on_confirmation,
}
use codal_microbit_v.Uart.Transmit.Laws.{
  ready, Indicates, ready-Indicates, send_next-ready, send_next_idle, send_next_lem,
}

-- Every byte that the service has taken for sending: those handed to the link, then those that
-- wait in the buffer.
abbrev pub stream : Uart → List ℕ
stream u = concat u.indicated ++ drop u.tx_value_size (tx_contents u)

stream-Indicates : (u v : Uart) → u.tx_value_size ≡ 0 → Indicates u v → stream v ≡ stream u
stream-Indicates u v idle r =
    ap₂ (λ xss xs. concat xss ++ xs) r.value
      (ap₂ (λ (n : ℕ) (xs : List ℕ). drop n xs) flight r.same_tx)
    ∙ ap (λ xs. xs ++ drop (min attr_size (length (tx_contents u))) (tx_contents u))
        (concat-snoc u.indicated (take attr_size (tx_contents u)))
    ∙ append_assoc (concat u.indicated) _ _
    ∙ ap (◌++◌ (concat u.indicated)) (take-min-append-drop attr_size (tx_contents u))
    ∙ ap (λ n. concat u.indicated ++ drop n (tx_contents u)) (sym idle)
  where
    flight : v.tx_value_size ≡ min attr_size (length (tx_contents u))
    flight = omega (arith, r.flight, length-held u.tx_buffer u.tx_size u.tx_head u.tx_tail)

stream-send_next : (u : Uart) → IsValid u → stream (send_next u).0 ≡ stream u
stream-send_next u valid = elim (Bool-cases (ready u)) [
  | inl e ↦
      rw (send_next-ready u e)
        (let r = ready-Indicates u valid e in stream-Indicates u _ (ground arith) r)
  | inr e ↦ rw (send_next_idle u e)
]

-- The free slots of the send buffer.
abbrev pub tx_room : Uart → ℕ
tx_room u = u.tx_size - 1 - tx_buffered_size u

record Buffered (u : Uart) (bytes : List ℕ) (p : List ℕ × Uart) : Type 0 where
  rest : p.0 ≡ drop (tx_room u) bytes
  contents : tx_contents p.1 ≡ tx_contents u ++ take (tx_room u) bytes
  same_sent : p.1.indicated ≡ u.indicated
  same_flight : p.1.tx_value_size ≡ u.tx_value_size
  same_rx : rx_contents p.1 ≡ rx_contents u
  valid : IsValid p.1

full-Buffered :
    (u : Uart) (bytes : List ℕ) → IsValid u → tx_room u ≡ 0 → Buffered u bytes (bytes, u)
full-Buffered u bytes valid full = record {
  rest = ap (λ n. drop n bytes) (sym full);
  contents = sym (append-nil _) ∙ ap (λ n. tx_contents u ++ take n bytes) (sym full);
  same_sent = refl;
  same_flight = refl;
  same_rx = refl;
  valid = valid;
}

-- One byte is stored, and the rest of the bytes after it.
cons-Buffered :
    (u v : Uart) (b : ℕ) (bs : List ℕ) (p : List ℕ × Uart)
    → tx_contents v ≡ tx_contents u ++ b ∷ []
    → tx_room v + 1 ≡ tx_room u
    → v.indicated ≡ u.indicated
    → v.tx_value_size ≡ u.tx_value_size
    → rx_contents v ≡ rx_contents u
    → Buffered v bs p
    → Buffered u (b ∷ bs) p
cons-Buffered u v b bs p contents room sent flight rx r = record {
  rest = r.rest ∙ sym (drop-cons (tx_room u) b bs (omega arith) ∙ ap (λ n. drop n bs) less);
  contents =
      r.contents
      ∙ ap (λ xs. xs ++ take (tx_room v) bs) contents
      ∙ append_assoc (tx_contents u) _ _
      ∙ ap (◌++◌ (tx_contents u))
          (sym (take-cons (tx_room u) b bs (omega arith) ∙ ap (λ n. b ∷ take n bs) less));
  same_sent = r.same_sent ∙ sent;
  same_flight = r.same_flight ∙ flight;
  same_rx = r.same_rx ∙ rx;
  valid = r.valid;
}
  where
    less : tx_room u - 1 ≡ tx_room v
    less = omega arith

fill_buffer-Buffered :
    (u : Uart) (bytes : List ℕ) → IsValid u → Buffered u bytes (fill_buffer u bytes)
unfolding fill_buffer
fill_buffer-Buffered u [] valid = record {
  rest = sym (drop-nil (tx_room u));
  contents = sym (append-nil _) ∙ ap (◌++◌ (tx_contents u)) (sym (take-nil (tx_room u)));
  same_sent = refl;
  same_flight = refl;
  same_rx = refl;
  valid = valid;
}
fill_buffer-Buffered u (b ∷ bs) valid =
    elim (Bool-cases ((u.tx_head + 1) % u.tx_size == u.tx_tail)) [
      | inl full ↦ rw full (
          full-Buffered u (b ∷ bs) valid (
            omega
              (arith, used_full u.tx_size u.tx_head u.tx_tail valid.tx_head_in (==→eq _ _ full))))
      | inr free ↦ rw free (
          cons-Buffered u _ b bs _
            (held_push u.tx_buffer u.tx_size u.tx_head u.tx_tail b valid.tx_storage valid.tx_head_in
              valid.tx_tail_in (==→ne _ _ free))
            (omega (arith, pushed (==→ne _ _ free))) refl refl refl
            (fill_buffer-Buffered
              (record u {
                tx_buffer = set u.tx_buffer u.tx_head b;
                tx_head = (u.tx_head + 1) % u.tx_size;
              })
              bs (omega (arith, length-set u.tx_buffer u.tx_head b, pushed (==→ne _ _ free)))))
    ]
  where
    pushed :
        (u.tx_head + 1) % u.tx_size ≢ u.tx_tail
        → (used u.tx_size ((u.tx_head + 1) % u.tx_size) u.tx_tail ≡ tx_buffered_size u + 1)
          × (used u.tx_size ((u.tx_head + 1) % u.tx_size) u.tx_tail < u.tx_size)
    pushed ne = (
      used_push u.tx_size u.tx_head u.tx_tail valid.tx_head_in valid.tx_tail_in ne,
      used-lt u.tx_size ((u.tx_head + 1) % u.tx_size) u.tx_tail (omega arith) valid.tx_tail_in,
    )

stream-Buffered :
    (u : Uart) (bytes : List ℕ) (p : List ℕ × Uart)
    → IsValid u
    → Buffered u bytes p
    → stream p.1 ≡ stream u ++ take (tx_room u) bytes
stream-Buffered u bytes p valid r =
    ap₂ (λ (xss : List (List ℕ)) (xs : List ℕ). concat xss ++ xs) r.same_sent
      (ap₂ (λ (n : ℕ) (xs : List ℕ). drop n xs) r.same_flight r.contents
        ∙ drop-append u.tx_value_size (tx_contents u) _
            (omega (arith, valid.in_flight, length-held u.tx_buffer u.tx_size u.tx_head u.tx_tail)))
    ∙ sym (append_assoc (concat u.indicated) _ _)

module _ (wait : Uart → Uart) where
  send_rounds_async :
      (fuel : ℕ) (u : Uart) (bytes : List ℕ)
      → can_indicate u ≡ true
      → send_rounds wait (suc fuel) u bytes async
        ≡ some ((fill_buffer u bytes).0, (send_next (fill_buffer u bytes).1).0)
  unfolding send_rounds
  send_rounds_async fuel u bytes up = rw (up, send_rounds)

  send_starts :
      (fuel : ℕ) (u : Uart) (bytes : List ℕ)
      → can_indicate u ≡ true
      → 0 < length bytes
      → send wait fuel u bytes async
        ≡ Option.map
            (λ (p : List ℕ × Uart). (ok (length bytes - length p.0), p.1))
            (send_rounds wait fuel u bytes async)
  unfolding send
  send_starts fuel u bytes up some_bytes = ground arith

  -- An asynchronous `send` over a link that takes indications returns at once. The number that it
  -- returns is that of the bytes that found room, these are the first of those given, they join the
  -- end of the stream, and the service stays valid.
  pub send_async :
      (fuel : ℕ) (u : Uart) (bytes : List ℕ)
      → IsValid u
      → can_indicate u ≡ true
      → 0 < length bytes
      → let n = min (tx_room u) (length bytes) in
        (v : Uart) × (send wait (suc fuel) u bytes async ≡ some (ok n, v))
        × (stream v ≡ stream u ++ take n bytes)
        × (rx_contents v ≡ rx_contents u)
        × IsValid v
  send_async fuel u bytes valid up some_bytes =
      let r = fill_buffer-Buffered u bytes valid in
      let (_, _, _, _, same, after) = send_next_lem (fill_buffer u bytes).1 r.valid in
      (
        (send_next (fill_buffer u bytes).1).0,
        send_starts (suc fuel) u bytes up some_bytes
            ∙ ap (Option.map _) (send_rounds_async fuel u bytes up)
            ∙ ap (λ k. some (ok k, (send_next (fill_buffer u bytes).1).0)) (count r),
        stream-send_next (fill_buffer u bytes).1 r.valid
            ∙ stream-Buffered u bytes (fill_buffer u bytes) valid r
            ∙ ap (◌++◌ (stream u)) (sym (take-min (tx_room u) bytes)),
        same ∙ r.same_rx,
        after,
      )
    where
      count :
          Buffered u bytes (fill_buffer u bytes)
          → length bytes - length (fill_buffer u bytes).0 ≡ min (tx_room u) (length bytes)
      count r = omega (arith, ap length r.rest, length-drop (tx_room u) bytes)

-- The state in which `onConfirmation` has taken the confirmed bytes out.
abbrev confirmed : Uart → Uart
confirmed u =
    raise (record u { tx_tail = (u.tx_tail + u.tx_value_size) % u.tx_size; tx_value_size = 0 })
      tx_empty

confirmed-IsValid : (u : Uart) → IsValid u → IsValid (confirmed u)
confirmed-IsValid u valid = omega arith

tx_contents-confirmed :
    (u : Uart) → IsValid u → tx_contents (confirmed u) ≡ drop u.tx_value_size (tx_contents u)
tx_contents-confirmed u valid =
    held_skip u.tx_buffer u.tx_size u.tx_head u.tx_tail u.tx_value_size valid.tx_head_in
      valid.tx_tail_in valid.in_flight

-- What a confirmation keeps and what it takes.
abbrev Confirms : Uart → Uart → Type 0
Confirms u v =
    (tx_contents v ≡ drop u.tx_value_size (tx_contents u))
    × (stream v ≡ stream u)
    × (rx_contents v ≡ rx_contents u)
    × IsValid v

Confirms-either :
    (b : Bool) (u v w : Uart) → Confirms u v → Confirms u w → Confirms u (if not b then v else w)
Confirms-either true u v w cv cw = cw
Confirms-either false u v w cv cw = cv

-- A confirmation takes the bytes in flight, and no other, out of the send buffer; the stream of
-- bytes to be sent is as before, also when the next value goes out, and the service stays valid.
pub on_confirmation_lem :
    (u : Uart)
    → IsValid u
    → let v = on_confirmation u u.tx_handle in
      (tx_contents v ≡ drop u.tx_value_size (tx_contents u))
      × (stream v ≡ stream u)
      × (rx_contents v ≡ rx_contents u)
      × IsValid v
unfolding on_confirmation
on_confirmation_lem u valid =
    let e = tx_contents-confirmed u valid in
    let w = confirmed-IsValid u valid in
    let same = ap (◌++◌ (concat u.indicated)) e in
    let (_, _, _, same_tx, same_rx, after) = send_next_lem (confirmed u) w in
    rw (eq→== u.tx_handle u.tx_handle refl) (
      Confirms-either u.waiting_for_empty u (send_next (confirmed u)).0 (confirmed u)
        (same_tx ∙ e, stream-send_next (confirmed u) w ∙ same, same_rx, after) (e, same, refl, w))
