-- ===== src/Uart/Receive/Laws.antt =====
-- What the receiving side does to the bytes buffered.
use codal_microbit_v.Base.{
  ℕ, suc, ◌+◌, ◌-◌, ◌%◌, ◌<◌, ◌≡◌, refl, sym, ap, ◌∙◌, ◌≢◌, arith, List, [], ◌∷◌, ◌++◌, append-nil,
  append_assoc, length, length-set, take, take-nil, take-cons, take_one, ◌==◌, Bool-cases, inl, inr,
  ==→eq, ==→ne, eq→==, length-append, length-take, ap₂,
}
use codal_microbit_v.Base.Ring.{held_push, length-held, used_push, used_full, used-lt}
use codal_microbit_v.Uart.State.{
  Uart, IsValid, UartEvent, delim_match, head_match, rx_full, tx_empty, rx_contents,
  rx_buffered_size, tx_contents,
}
use codal_microbit_v.Uart.Receive.{
  raise, match_delimeters, check_head_match, store_byte, receive_byte, receive, on_data_written,
}

-- How often the service reported a full buffer.
abbrev pub full_events : List UartEvent → ℕ
full_events [] = 0
full_events (rx_full ∷ es) = suc (full_events es)
full_events (delim_match ∷ es) = full_events es
full_events (head_match ∷ es) = full_events es
full_events (tx_empty ∷ es) = full_events es

full_events-append :
    (es fs : List UartEvent) → full_events (es ++ fs) ≡ full_events es + full_events fs
full_events-append [] fs = omega arith
full_events-append (rx_full ∷ es) fs = omega (arith, full_events-append es fs)
full_events-append (delim_match ∷ es) fs = full_events-append es fs
full_events-append (head_match ∷ es) fs = full_events-append es fs
full_events-append (tx_empty ∷ es) fs = full_events-append es fs

-- The free slots of the receive buffer.
abbrev pub room : Uart → ℕ
room u = u.rx_size - 1 - rx_buffered_size u

-- `v` is `u` after the bytes `bytes` came in.
pub record Received (u : Uart) (bytes : List ℕ) (v : Uart) : Type 0 where
  pub valid : IsValid v
  pub contents : rx_contents v ≡ rx_contents u ++ take (room u) bytes
  pub reported : full_events v.events ≡ full_events u.events + (length bytes - room u)
  pub same_size : v.rx_size ≡ u.rx_size
  pub same_tx : tx_contents v ≡ tx_contents u
  pub same_flight : v.tx_value_size ≡ u.tx_value_size

match_delimeters_only :
    (ds : List ℕ) (c : ℕ) (u : Uart)
    → (es : List UartEvent) × (match_delimeters ds c u ≡ record u { events = es })
      × (full_events es ≡ full_events u.events)
unfolding match_delimeters
match_delimeters_only [] c u = (u.events, refl, refl)
match_delimeters_only (d ∷ ds) c u = elim (Bool-cases (d == c)) [
  | inl e ↦ rw e (
      let (es, p, q) = match_delimeters_only ds c (raise u delim_match) in
      (es, p, omega (arith, q, full_events-append u.events (delim_match ∷ []))))
  | inr e ↦ rw e (match_delimeters_only ds c u)
]

check_head_match-Received :
    (u : Uart) (bytes : List ℕ) (w : Uart)
    → Received u bytes w
    → Received u bytes (check_head_match w)
unfolding check_head_match
check_head_match-Received u bytes w r =
    ground (arith, full_events-append w.events (head_match ∷ []))

store_byte-Received :
    (u : Uart) (c : ℕ)
    → IsValid u
    → (u.rx_head + 1) % u.rx_size ≢ u.rx_tail
    → Received u (c ∷ []) (store_byte u ((u.rx_head + 1) % u.rx_size) c)
unfolding store_byte
store_byte-Received u c v ne = check_head_match-Received u (c ∷ []) _ (record {
  valid = omega (arith, length-set u.rx_buffer u.rx_head c);
  contents =
      held_push u.rx_buffer u.rx_size u.rx_head u.rx_tail c v.rx_storage v.rx_head_in v.rx_tail_in
        ne
      ∙ ap (◌++◌ (rx_contents u)) (sym (take-cons (room u) c [] free ∙ ap (◌∷◌ c) (take-nil _)));
  reported = omega (arith, free);
  same_size = refl;
  same_tx = refl;
  same_flight = refl;
})
  where
    free : 0 < room u
    free = omega (
      arith,
      used_push u.rx_size u.rx_head u.rx_tail v.rx_head_in v.rx_tail_in ne,
      used-lt u.rx_size ((u.rx_head + 1) % u.rx_size) u.rx_tail,
    )

receive_byte-Received : (u : Uart) (c : ℕ) → IsValid u → Received u (c ∷ []) (receive_byte u c)
unfolding receive_byte
receive_byte-Received u c v = elim (Bool-cases ((u.rx_head + 1) % u.rx_size == u.rx_tail)) [
  | inl full ↦ rw full (record {
    valid = omega arith;
    contents = full_contents (==→eq _ _ full);
    reported =
        omega (arith, full_room (==→eq _ _ full), full_events-append u.events (rx_full ∷ []));
    same_size = refl;
    same_tx = refl;
    same_flight = refl;
  })
  | inr free ↦ rw free (
      let (es, p, q) = match_delimeters_only u.delimeters c u in
      let r = store_byte-Received (record u { events = es }) c (omega arith) (==→ne _ _ free) in
      rw p (record {
        valid = r.valid;
        contents = r.contents;
        reported = omega (arith, r.reported, q);
        same_size = r.same_size;
        same_tx = r.same_tx;
        same_flight = r.same_flight;
      }))
]
  where
    full_room : (u.rx_head + 1) % u.rx_size ≡ u.rx_tail → room u ≡ 0
    full_room e = omega (arith, used_full u.rx_size u.rx_head u.rx_tail v.rx_head_in e)

    full_contents :
        (u.rx_head + 1) % u.rx_size ≡ u.rx_tail
        → rx_contents u ≡ rx_contents u ++ take (room u) (c ∷ [])
    full_contents e =
        sym (append-nil (rx_contents u))
        ∙ ap (λ n. rx_contents u ++ take n (c ∷ [])) (sym (full_room e))

room_after : (u v : Uart) (c : ℕ) → IsValid u → Received u (c ∷ []) v → room v ≡ room u - 1
room_after u v c valid r = omega (
  arith,
  r.same_size,
  ap length r.contents,
  length-append (rx_contents u) (take (room u) (c ∷ [])),
  length-take (room u) (c ∷ []),
  length-held v.rx_buffer v.rx_size v.rx_head v.rx_tail,
  length-held u.rx_buffer u.rx_size u.rx_head u.rx_tail,
)

Received-cons :
    (u v w : Uart) (c : ℕ) (cs : List ℕ)
    → IsValid u
    → Received u (c ∷ []) v
    → Received v cs w
    → Received u (c ∷ cs) w
Received-cons u v w c cs valid r s = record {
  valid = s.valid;
  contents =
      s.contents
      ∙ ap₂ (λ xs n. xs ++ take n cs) r.contents (room_after u v c valid r)
      ∙ append_assoc (rx_contents u) _ _
      ∙ ap (◌++◌ (rx_contents u)) (take_one (room u) c cs);
  reported = omega (arith, r.reported, s.reported, room_after u v c valid r);
  same_size = s.same_size ∙ r.same_size;
  same_tx = s.same_tx ∙ r.same_tx;
  same_flight = s.same_flight ∙ r.same_flight;
}

receive-Received : (bytes : List ℕ) (u : Uart) → IsValid u → Received u bytes (receive u bytes)
unfolding receive
receive-Received [] u v = record {
  valid = v;
  contents = sym (append-nil _) ∙ ap (◌++◌ (rx_contents u)) (sym (take-nil (room u)));
  reported = omega arith;
  same_size = refl;
  same_tx = refl;
  same_flight = refl;
}
receive-Received (c ∷ cs) u v =
    let r = receive_byte-Received u c v in
    Received-cons u _ _ c cs v r (receive-Received cs (receive_byte u c) r.valid)

-- A write to the receive characteristic of a valid service appends to the buffered bytes exactly
-- the prefix of the data that fits, in order; it reports one full buffer for every byte dropped,
-- keeps the service valid, and leaves the sending side alone.
pub on_data_written-Received :
    (u : Uart) (bytes : List ℕ) → IsValid u → Received u bytes (on_data_written u u.rx_handle bytes)
unfolding on_data_written
on_data_written-Received u bytes v =
    rw (eq→== u.rx_handle u.rx_handle refl) (receive-Received bytes u v)
