-- ===== src/Log/Reading/Formats.antt =====
-- The formats of readData, put together from their sources.
use codal_microbit_v.Base.{
  Memory, bytes_at, ℕ, ◌+◌, ◌-◌, ◌^◌, ◌≤◌, ◌<◌, ◌≡◌, refl, sym, ap, ◌∙◌, arith, true, List, [], ◌∷◌,
  ◌++◌, take, drop, drop-nil, take-nil, ltb, if◌then◌else◌, Bool-cases, inl, inr, Result, ok, err,
  invalid_parameter,
}
use codal_microbit_v.FsCache.Coherence.{IsCoherent}
use codal_microbit_v.Log.{Board, meta_bytes, Log}
use codal_microbit_v.Log.Loading.{init-initialised}
use codal_microbit_v.Log.Reading.{
  DataFormat, html_header, html, csv, Request, Source, local, device, read_source, then_read,
  shown_meta, expected, read_format, delivered_by, read_data,
}
use codal_microbit_v.Log.Reading.Documents.{
  content, IsServed, IsRead, IsInRange, read_source-IsRead,
}

module _ (board : Board) where
  open board use {nvm}

  -- The document of a format, with `n` bytes of data.
  abbrev pub document : Log → DataFormat → ℕ → List ℕ
  document l html_header n = (board.header ++ meta_bytes (shown_meta board l)) ++ 0xFF ∷ []
  document l html n =
      ((board.header ++ meta_bytes (shown_meta board l)) ++ bytes_at l.cache.flash l.data_start n)
      ++ 0xFF ∷ []
  document l csv n = bytes_at l.cache.flash l.data_start n

  module _ (m : Memory) (index len : ℕ) (small : nvm.flash_end < 2 ^ 32) where
    then_read-IsRead :
        (done : List ℕ) (r : Result (Unit {0}) × Request) (s : Source)
        → IsRead m index len done r
        → IsInRange board m index len small s
        → IsRead m index len (done ++ content m s) (then_read board s r)
    unfolding then_read
    then_read-IsRead done r s h within =
        let is : then_read board s r ≡ read_source board r.1 s =
          ap (λ (x : Result (Unit {0})). then_read board s (x, r.1)) h.succeeds in
        rw is (read_source-IsRead board m index len small done r.1 h.served_more s within)

    start-IsServed :
        (l : Log)
        → IsCoherent l.cache
        → l.cache.flash ≡ m
        → IsServed m index len []
            (record { delivered = []; index = index; len = len; src_index = 0; cache = l.cache })
    start-IsServed l coherent same = record {
      delivered = sym (ap (take len) (drop-nil index) ∙ take-nil len);
      index_is = omega arith;
      len_is = omega arith;
      src_index_is = refl;
      coherent = coherent;
      same_flash = same;
    }

  read_format-IsRead :
      (l : Log) (format : DataFormat) (n index len : ℕ) (small : nvm.flash_end < 2 ^ 32)
      (q : Request)
      → nvm.flash_start ≤ l.data_start
      → l.data_start + n ≤ nvm.flash_end
      → IsServed l.cache.flash index len [] q
      → IsRead l.cache.flash index len (document l format n) (read_format board l format n q)
  unfolding read_format
  read_format-IsRead l html_header n index len small q lower upper sq =
      let m = l.cache.flash in
      let r1 = read_source-IsRead board m index len small [] q sq (local board.header) tt in
      let r2 =
        then_read-IsRead m index len small _ _ (local (meta_bytes (shown_meta board l))) r1 tt in
      then_read-IsRead m index len small _ _ (local (0xFF ∷ [])) r2 tt
  read_format-IsRead l html n index len small q lower upper sq =
      let m = l.cache.flash in
      let r1 = read_source-IsRead board m index len small [] q sq (local board.header) tt in
      let r2 =
        then_read-IsRead m index len small _ _ (local (meta_bytes (shown_meta board l))) r1 tt in
      let r3 = then_read-IsRead m index len small _ _ (device l.data_start n) r2 (lower, upper) in
      then_read-IsRead m index len small _ _ (local (0xFF ∷ [])) r3 tt
  read_format-IsRead l csv n index len small q lower upper sq =
      read_source-IsRead board l.cache.flash index len small [] q sq (device l.data_start n)
        (lower, upper)

  delivered-IsRead :
      (l : Log) (done : List ℕ) (r : Result (Unit {0}) × Request) (index len : ℕ)
      → IsRead l.cache.flash index len done r
      → delivered_by board l r ≡ (ok r.1.delivered, record l { cache = r.1.cache })
  unfolding delivered_by
  delivered-IsRead l done r index len h =
      ap (λ (x : Result (Unit {0})). delivered_by board l (x, r.1)) h.succeeds

  -- Of an initialised log whose data lies within the device, over a coherent cache and below 2 ^ 32,
  -- readData refuses a caller that expects more data than there is. Else it gives the slice asked for
  -- of the document: the page, the meta data and an end mark; between these two the data expected,
  -- for HTML; or the data alone. The memory is as before, and the cache stays coherent.
  pub read_data_lem :
      (l : Log) (index len : ℕ) (format : DataFormat) (size : ℕ)
      → l.initialised ≡ true
      → IsCoherent l.cache
      → nvm.flash_start ≤ l.data_start
      → l.data_start ≤ l.data_end
      → l.data_end ≤ nvm.flash_end
      → nvm.flash_end < 2 ^ 32
      → let (r, l1) = read_data board l index len format size in
        (r ≡ (
          if ltb (l.data_end - l.data_start) (expected board l format size)
          then err invalid_parameter
          else ok (take len (drop index (document l format (expected board l format size))))))
        × IsCoherent l1.cache
        × (l1.cache.flash ≡ l.cache.flash)
  unfolding read_data
  read_data_lem l index len format size on coherent lower ordered upper small =
      elim (Bool-cases (ltb (l.data_end - l.data_start) n)) [
        | inl y ↦ rw (init-initialised board l on) (rw y (refl, coherent, refl))
        | inr enough ↦
            let fits : l.data_start + n ≤ nvm.flash_end = ground arith in
            let q =
              read_format-IsRead l format n index len small _ lower fits
                (start-IsServed l.cache.flash index len small l coherent refl) in
            rw (init-initialised board l on) (
              rw (enough, delivered-IsRead l _ _ index len q)
                (ap ok q.served_more.delivered, q.served_more.coherent, q.served_more.same_flash))
      ]
    where
      n : ℕ
      n = expected board l format size
