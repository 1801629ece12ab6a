-- ===== src/Uart/Transmit/Laws.antt =====
-- What the sending side hands to the link.
use native.Mathlib.Nat.{add-zero}
use codal_microbit_v.Base.{
  ℕ, zero, suc, ◌+◌, ◌-◌, ◌%◌, ◌≤◌, ◌<◌, ◌≡◌, refl, sym, ap, ap₂, ◌∙◌, ◌≢◌, arith, Bool, true,
  false, List, [], ◌∷◌, ◌++◌, min, append-nil, append_assoc, length, length-set, take, take-set,
  get_or, set, ◌==◌, ltb, if◌then◌else◌, not, ◌&&◌, Bool-cases, inl, inr,
}
use codal_microbit_v.Base.Ring.{window, used, used_pop, take-held-min}
use codal_microbit_v.Uart.State.{
  Uart, IsValid, tx_contents, tx_buffered_size, rx_contents, attr_size,
}
use codal_microbit_v.Uart.Transmit.{fill_value, can_indicate, indicate, send_next}

-- What the copy into the attribute buffer has done, from index `t` of the send buffer on.
record Filled (u : Uart) (t : ℕ) (v : Uart) : Type 0 where
  count : ℕ
  value : List ℕ
  shape : v ≡ record u { tx_value = value; tx_value_size = u.tx_value_size + count }
  all : count ≡ min (attr_size - u.tx_value_size) (used u.tx_size u.tx_head t)
  storage : length value ≡ attr_size
  copied :
      take (u.tx_value_size + count) value
      ≡ take u.tx_value_size u.tx_value ++ window u.tx_buffer u.tx_size t count

stop-Filled :
    (u : Uart) (t : ℕ)
    → length u.tx_value ≡ attr_size
    → min (attr_size - u.tx_value_size) (used u.tx_size u.tx_head t) ≡ 0
    → Filled u t u
stop-Filled u t len none_left = record {
  count = 0;
  value = u.tx_value;
  shape = ap (λ n. record u { tx_value_size = n }) (sym (add-zero u.tx_value_size));
  all = sym none_left;
  storage = len;
  copied = ap (λ n. take n u.tx_value) (add-zero u.tx_value_size) ∙ sym (append-nil _);
}

step-Filled :
    (u v : Uart) (t : ℕ)
    → u.tx_head < u.tx_size
    → t < u.tx_size
    → length u.tx_value ≡ attr_size
    → u.tx_value_size < attr_size
    → u.tx_head ≢ t
    → Filled
        (record u {
          tx_value = set u.tx_value u.tx_value_size (get_or u.tx_buffer t 0);
          tx_value_size = u.tx_value_size + 1;
        })
        ((t + 1) % u.tx_size)
        v
    → Filled u t v
step-Filled u v t hh ht len lt ne f = record {
  count = suc f.count;
  value = f.value;
  shape = f.shape ∙ ap (λ n. record u { tx_value = f.value; tx_value_size = n }) regroup;
  all = omega (arith, f.all, used_pop u.tx_size u.tx_head t hh ht ne);
  storage = f.storage;
  copied =
      ap (λ n. take n f.value) (sym regroup)
      ∙ f.copied
      ∙ ap (λ xs. xs ++ window u.tx_buffer u.tx_size ((t + 1) % u.tx_size) f.count)
          (take-set u.tx_value u.tx_value_size (get_or u.tx_buffer t 0) (omega arith))
      ∙ append_assoc (take u.tx_value_size u.tx_value) _ _;
}
  where
    regroup : u.tx_value_size + 1 + f.count ≡ u.tx_value_size + suc f.count
    regroup = omega arith

fill_value-Filled :
    (fuel : ℕ) (u : Uart) (t : ℕ)
    → u.tx_head < u.tx_size
    → t < u.tx_size
    → length u.tx_value ≡ attr_size
    → attr_size ≤ u.tx_value_size + fuel
    → Filled u t (fill_value fuel u t)
unfolding fill_value
fill_value-Filled zero u t hh ht len full = stop-Filled u t len (omega arith)
fill_value-Filled (suc fuel) u t hh ht len full =
    elim (Bool-cases (ltb u.tx_value_size attr_size && not (t == u.tx_head))) [
      | inl more ↦
          rw (more, fill_value)
            (step-Filled u _ t hh ht len (ground arith) (ground arith) (
              fill_value-Filled fuel _ ((t + 1) % u.tx_size) hh (omega arith)
                (length-set u.tx_value u.tx_value_size _ ∙ len) (omega arith)))
      | inr done ↦ rw (done, fill_value) (stop-Filled u t len (ground (arith)))
    ]

-- Whether `sendNext` has something to send and may send it.
abbrev pub ready : Uart → Bool
ready u = (u.tx_value_size == 0) && (not (u.tx_tail == u.tx_head) && can_indicate u)

pub record Indicates (u v : Uart) : Type 0 where
  pub value : v.indicated ≡ u.indicated ++ take attr_size (tx_contents u) ∷ []
  pub flight : v.tx_value_size ≡ min attr_size (tx_buffered_size u)
  pub same_tx : tx_contents v ≡ tx_contents u
  pub same_rx : rx_contents v ≡ rx_contents u
  pub valid : IsValid v

indicate-Indicates :
    (u v : Uart) → IsValid u → u.tx_value_size ≡ 0 → Filled u u.tx_tail v → Indicates u (indicate v)
unfolding indicate
indicate-Indicates u v valid idle f = rw f.shape (record {
  value =
      ap (λ xs. u.indicated ++ xs ∷ [])
        (f.copied
          ∙ ap₂ (λ n k. take n u.tx_value ++ window u.tx_buffer u.tx_size u.tx_tail k) idle count
          ∙ sym
              (take-held-min u.tx_buffer u.tx_size u.tx_head u.tx_tail attr_size valid.tx_tail_in));
  flight = omega (arith, count, idle);
  same_tx = refl;
  same_rx = refl;
  valid = omega (arith, f.storage, f.all);
})
  where
    count : f.count ≡ min attr_size (tx_buffered_size u)
    count = omega (arith, f.all, idle)

pub send_next-ready :
    (u : Uart) → ready u ≡ true → send_next u ≡ (indicate (fill_value attr_size u u.tx_tail), true)
unfolding send_next
send_next-ready u h = ground arith

pub send_next_idle : (u : Uart) → ready u ≡ false → send_next u ≡ (u, false)
unfolding send_next
send_next_idle u h = ground arith

pub ready-Indicates :
    (u : Uart)
    → IsValid u
    → ready u ≡ true
    → Indicates u (indicate (fill_value attr_size u u.tx_tail))
ready-Indicates u valid e = indicate-Indicates u _ valid (ground arith) (
    fill_value-Filled attr_size u u.tx_tail valid.tx_head_in valid.tx_tail_in valid.tx_value_storage
      (omega arith))

-- On a valid service `sendNext` sends a value exactly if none is in flight, bytes are buffered and
-- the link takes indications: then it hands over the oldest bytes buffered, 20 at most, and notes
-- how many those are; otherwise it sends nothing. The buffered bytes stay as they are, on both
-- sides.
pub send_next_lem :
    (u : Uart)
    → IsValid u
    → let (v, sent) = send_next u in
      (sent ≡ ready u)
      × (v.indicated
          ≡ (if ready u then u.indicated ++ take attr_size (tx_contents u) ∷ [] else u.indicated))
      × (v.tx_value_size
          ≡ (if ready u then min attr_size (tx_buffered_size u) else u.tx_value_size))
      × (tx_contents v ≡ tx_contents u)
      × (rx_contents v ≡ rx_contents u)
      × IsValid v
send_next_lem u valid = elim (Bool-cases (ready u)) [
  | inl e ↦ rw (send_next-ready u e) (
      rw e (
        let r = ready-Indicates u valid e in
        (refl, r.value, r.flight, r.same_tx, r.same_rx, r.valid)))
  | inr e ↦ rw (send_next_idle u e) (rw e (refl, refl, refl, refl, refl, valid))
]
