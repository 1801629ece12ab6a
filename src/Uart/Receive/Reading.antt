-- ===== src/Uart/Receive/Reading.antt =====
-- What a reader of the receive buffer gets: getc, read and readUntil.
use mathlib.Core.Option
use native.Mathlib.Decide.{ℕ_discrete}
use codal_microbit_v.Base.{
  ℕ, zero, suc, ◌+◌, ◌-◌, ◌%◌, ◌<◌, ◌≡◌, refl, sym, ap, ◌∙◌, ◌≢◌, inl, inr, arith, false, Option,
  none, some, List, [], ◌∷◌, length, take, drop, get_or, ◌==◌, if◌then◌else◌, Bool-cases,
  Option-cases, eq→==, Result, ok, err, no_data,
}
use codal_microbit_v.Base.Ring.{
  used, held, window, held_pop, held_empty, held_skip, take-held, used_offset, add_zero_mod,
  mod_shift, mod_apart, length-held, used_pop, used-lt,
}
use codal_microbit_v.Uart.State.{Uart, IsValid, rx_contents, rx_buffered_size, async}
use codal_microbit_v.Uart.Receive.{
  getc, take_char, read_async, read, read_until, contains, find_delimeter, take_until,
  circular_copy,
}

-- A queue's front.
abbrev pub front : List ℕ → Result ℕ × List ℕ
front [] = (err no_data, [])
front (x ∷ xs) = (ok x, xs)

-- How many bytes stand before the first delimiter.
abbrev pub position : List ℕ → List ℕ → Option ℕ
position ds [] = none
position ds (x ∷ xs) = if contains ds x then some 0 else Option.map suc (position ds xs)

position_lt : (ds xs : List ℕ) (k : ℕ) → position ds xs ≡ some k → k < length xs
position_lt ds [] k e = cc
position_lt ds (x ∷ xs) k e = elim (Option-cases (position ds xs)) [
  | inl none_left ↦ ground arith
  | inr (j, found) ↦ ground (arith, position_lt ds xs j found)
]

rx_empty : (u : Uart) → u.rx_head ≡ u.rx_tail → rx_contents u ≡ []
rx_empty u e = held_empty u.rx_buffer u.rx_size u.rx_head u.rx_tail e

module _ (wait : Uart → Uart) where
  getc_empty : (u : Uart) → u.rx_head ≡ u.rx_tail → getc wait u async ≡ (err no_data, u)
  unfolding getc
  getc_empty u e = rw (eq→== u.rx_tail u.rx_head (sym e))

  getc_some : (u : Uart) → u.rx_head ≢ u.rx_tail → getc wait u async ≡ take_char u
  unfolding getc
  getc_some u ne = ground arith

  -- In asynchronous mode `getc` takes the oldest byte of a valid service, or reports that there is
  -- none and changes nothing.
  pub getc-front :
      (u : Uart)
      → IsValid u
      → let (r, v) = getc wait u async in
        let (front_byte, left) = front (rx_contents u) in
        (r ≡ front_byte) × (rx_contents v ≡ left) × IsValid v
  unfolding take_char
  getc-front u v = elim (ℕ_discrete u.rx_head u.rx_tail) [
    | yes e ↦ rw (getc_empty u e) (
      sym (ap (λ xs. (front xs).0) (rx_empty u e)),
      rx_empty u e ∙ sym (ap (λ xs. (front xs).1) (rx_empty u e)),
      v,
    )
    | no ne ↦ rw (getc_some u ne) (
        let step =
          held_pop u.rx_buffer u.rx_size u.rx_head u.rx_tail v.rx_head_in v.rx_tail_in ne in
        (sym (ap (λ xs. (front xs).0) step), sym (ap (λ xs. (front xs).1) step), omega arith))
  ]

  -- Reading up to `n` bytes takes the oldest `n`, or all that there are.
  pub read_async_lem :
      (n : ℕ) (u : Uart)
      → IsValid u
      → let (cs, v) = read_async wait n u in
        (cs ≡ take n (rx_contents u)) × (rx_contents v ≡ drop n (rx_contents u)) × IsValid v
  unfolding read_async take_char
  read_async_lem zero u v = (refl, refl, v)
  read_async_lem (suc n) u v = elim (ℕ_discrete u.rx_head u.rx_tail) [
    | yes e ↦ rw (getc_empty u e) (
      sym (ap (take (suc n)) (rx_empty u e)),
      rx_empty u e ∙ sym (ap (drop (suc n)) (rx_empty u e)),
      v,
    )
    | no ne ↦ rw (getc_some u ne) (
        let step =
          held_pop u.rx_buffer u.rx_size u.rx_head u.rx_tail v.rx_head_in v.rx_tail_in ne in
        let rest = read_async_lem n (take_char u).1 (omega arith) in
        (
          ap (◌∷◌ (get_or u.rx_buffer u.rx_tail 0)) rest.0 ∙ sym (ap (take (suc n)) step),
          rest.1 ∙ sym (ap (drop (suc n)) step),
          rest.2,
        ))
  ]

  -- An asynchronous `read` of `len` bytes from a valid service returns the oldest `len` bytes that
  -- are buffered, or all of them if there are fewer, in order, and leaves exactly the others.
  pub read-take :
      (u : Uart) (len : ℕ)
      → IsValid u
      → let (r, v) = read wait u len async in
        (r ≡ ok (take len (rx_contents u))) × (rx_contents v ≡ drop len (rx_contents u)) × IsValid v
  unfolding read
  read-take u len v = let (p, q, w) = read_async_lem len u v in (ap ok p, q, w)

-- Copying from the tail to an index `n` steps behind it gives those `n` bytes.
circular_copy-window :
    (fuel : ℕ) (buf : List ℕ) (size t n : ℕ)
    → t < size
    → n < size
    → n < fuel
    → circular_copy fuel buf size t ((t + n) % size) ≡ window buf size t n
unfolding circular_copy
circular_copy-window zero buf size t n ht hn h = absurd (omega arith)
circular_copy-window (suc fuel) buf size t zero ht hn h =
    rw (add_zero_mod size t ht) (rw (eq→== t t refl, circular_copy))
circular_copy-window (suc fuel) buf size t (suc n) ht hn h =
    rw (differs, circular_copy)
      (ap (◌∷◌ (get_or buf t 0)) (
        ap (circular_copy fuel buf size ((t + 1) % size)) (sym (mod_shift size t n))
        ∙ circular_copy-window fuel buf size ((t + 1) % size) n (omega arith) (omega arith)
            (omega arith)))
  where
    differs : (t == (t + suc n) % size) ≡ false
    differs = ground (arith, mod_apart size t 0 (suc n) ht, add_zero_mod size t ht)

map_shift :
    (size t : ℕ) (o : Option ℕ)
    → Option.map (λ k. ((t + 1) % size + k) % size) o
      ≡ Option.map (λ k. (t + k) % size) (Option.map suc o)
map_shift size t none = refl
map_shift size t (some k) = ap some (mod_shift size t k)

-- The search finds the index of the first delimiter among the bytes from index `t` on.
find_delimeter-position :
    (fuel : ℕ) (ds : List ℕ) (u : Uart) (t : ℕ)
    → u.rx_head < u.rx_size
    → t < u.rx_size
    → used u.rx_size u.rx_head t < fuel
    → find_delimeter fuel ds u t
      ≡ Option.map (λ k. (t + k) % u.rx_size) (position ds (held u.rx_buffer u.rx_size u.rx_head t))
unfolding find_delimeter
find_delimeter-position zero ds u t hh ht h = absurd (omega arith)
find_delimeter-position (suc fuel) ds u t hh ht h = elim (ℕ_discrete u.rx_head t) [
  | yes e ↦ rw (held_empty u.rx_buffer u.rx_size u.rx_head t e, eq→== t u.rx_head (sym e))
  | no ne ↦
      rw (held_pop u.rx_buffer u.rx_size u.rx_head t hh ht ne, differs ne)
        elim (Bool-cases (contains ds (get_or u.rx_buffer t 0))) [
          | inl hit ↦ rw hit (ap some (sym (add_zero_mod u.rx_size t ht)))
          | inr miss ↦ rw miss (
              find_delimeter-position fuel ds u ((t + 1) % u.rx_size) hh (omega arith)
                (omega (arith, used_pop u.rx_size u.rx_head t hh ht ne))
              ∙ map_shift u.rx_size t _)
        ]
]
  where
    differs : u.rx_head ≢ t → (t == u.rx_head) ≡ false
    differs ne = ground arith

-- What is taken, and what is left, when a delimiter stands behind `k` bytes.
abbrev pub split_off : Option ℕ → List ℕ → List ℕ × List ℕ
split_off none xs = ([], xs)
split_off (some k) xs = (take k xs, drop (k + 1) xs)

module _ (managed_string : List ℕ → List ℕ) (of_nothing : managed_string [] ≡ []) where
  -- Taking the bytes up to an index that is `k` bytes behind the tail.
  take_until_found :
      (u : Uart) (k : ℕ)
      → IsValid u
      → k < rx_buffered_size u
      → let (cs, v) = take_until managed_string u u.rx_tail (some ((u.rx_tail + k) % u.rx_size)) in
        (cs ≡ managed_string (take k (rx_contents u)))
        × (rx_contents v ≡ drop (k + 1) (rx_contents u))
        × IsValid v
  unfolding take_until
  take_until_found u k v lt = (
    ap managed_string (
        circular_copy-window u.rx_size u.rx_buffer u.rx_size u.rx_tail k v.rx_tail_in below below
        ∙ sym (take-held u.rx_buffer u.rx_size u.rx_head u.rx_tail k v.rx_tail_in (omega arith))),
    ap (held u.rx_buffer u.rx_size u.rx_head) moved
        ∙ held_skip u.rx_buffer u.rx_size u.rx_head u.rx_tail (k + 1) v.rx_head_in v.rx_tail_in
            (omega arith),
    omega arith,
  )
    where
      below : k < u.rx_size
      below = omega (arith, used-lt u.rx_size u.rx_head u.rx_tail v.rx_head_in v.rx_tail_in)

      moved :
          (u.rx_tail + used u.rx_size ((u.rx_tail + k) % u.rx_size) u.rx_tail + 1) % u.rx_size
          ≡ (u.rx_tail + (k + 1)) % u.rx_size
      moved =
          ap (λ n. n % u.rx_size)
            (omega (arith, used_offset u.rx_size u.rx_tail k v.rx_tail_in below))

  take_until-split_off :
      (u : Uart) (o : Option ℕ)
      → IsValid u
      → ((k : ℕ) → o ≡ some k → k < rx_buffered_size u)
      → let (cs, v) =
          take_until managed_string u u.rx_tail (Option.map (λ k. (u.rx_tail + k) % u.rx_size) o) in
        (cs ≡ managed_string (split_off o (rx_contents u)).0)
        × (rx_contents v ≡ (split_off o (rx_contents u)).1)
        × IsValid v
  unfolding take_until
  take_until-split_off u none v h = (sym of_nothing, refl, v)
  take_until-split_off u (some k) v h = take_until_found u k v (h k refl)

-- The index that `readUntil` takes after a wait, in terms of the bytes buffered then.
abbrev pub last_position : Uart → Option ℕ
last_position w = if w.rx_head == 0 then none else some (rx_buffered_size w - 1)

module _ (wait : Uart → Uart) (managed_string : List ℕ → List ℕ)
    (of_nothing : managed_string [] ≡ []) where
  -- An asynchronous `readUntil` on a valid service returns the string that the core library makes
  -- of the bytes before the first delimiter that is buffered, and takes those and the delimiter out
  -- of the buffer; with no delimiter buffered it returns the empty string, which is the one that the
  -- library makes of no bytes, and takes nothing. The service stays valid.
  pub read_until-split_off :
      (u : Uart) (ds : List ℕ)
      → IsValid u
      → let (r, v) = read_until wait managed_string u ds async in
        let (cs, left) = split_off (position ds (rx_contents u)) (rx_contents u) in
        (r ≡ ok (managed_string cs)) × (rx_contents v ≡ left) × IsValid v
  unfolding read_until
  read_until-split_off u ds v =
      rw
        (find_delimeter-position u.rx_size ds u u.rx_tail v.rx_head_in v.rx_tail_in
          (used-lt u.rx_size u.rx_head u.rx_tail v.rx_head_in v.rx_tail_in))
        (let (p, q, w) =
            take_until-split_off managed_string of_nothing u (position ds (rx_contents u)) v
              within in
          (ap ok p, q, w))
    where
      within : (k : ℕ) → position ds (rx_contents u) ≡ some k → k < rx_buffered_size u
      within k e = omega (
        arith,
        position_lt ds (rx_contents u) k e,
        length-held u.rx_buffer u.rx_size u.rx_head u.rx_tail,
      )
