-- ===== src/Log/Reading/Documents.antt =====
-- What readData gives: a slice of the document that the format stands for.
use codal_microbit_v.Base.{
  Memory, bytes_at, length-bytes_at, slice-bytes_at, ℕ, ◌+◌, ◌-◌, ◌^◌, ◌≤◌, ◌<◌, ◌≡◌, refl, sym, ap,
  ap₂, ◌∙◌, arith, false, ◌||◌, List, [], ◌++◌, length, take, drop, min, length-take, length-drop,
  length-append, take-drop-append, take-drop-min, nil_of_length, ltb, Bool-cases, inl, inr, Result,
  ok,
}
use codal_microbit_v.FsCache
use codal_microbit_v.FsCache.Coherence.{IsCoherent}
use codal_microbit_v.FsCache.Access.Reading.{read_lem}
use codal_microbit_v.Log.{Board}
use codal_microbit_v.Log.Reading.{
  Request, Source, local, device, source_length, served, wanted, source_bytes, read_source,
}

abbrev pub content : Memory → Source → List ℕ
content m (local bytes) = bytes
content m (device a n) = bytes_at m a n

source_length_is : (m : Memory) (s : Source) → source_length s ≡ length (content m s)
source_length_is m (local bytes) = refl
source_length_is m (device a n) = sym (length-bytes_at m a n)

-- The request for `len` bytes from `index` on, when the sources so far held `done`.
pub record IsServed (m : Memory) (index len : ℕ) (done : List ℕ) (q : Request) : Type 0 where
  pub delivered : q.delivered ≡ take len (drop index done)
  pub index_is : q.index ≡ index + length q.delivered
  pub len_is : q.len ≡ len - length q.delivered
  pub src_index_is : q.src_index ≡ length done
  pub coherent : IsCoherent q.cache
  pub same_flash : q.cache.flash ≡ m

-- A request that no source has failed.
pub record IsRead (m : Memory) (index len : ℕ) (done : List ℕ) (r : Result (Unit {0}) × Request)
    : Type 0 where
  pub succeeds : r.0 ≡ ok tt
  pub served_more : IsServed m index len done r.1

module _ (board : Board) (m : Memory) (index len : ℕ) (small : board.nvm.flash_end < 2 ^ 32) where
  open board use {nvm}

  abbrev pub IsInRange : Source → Type 0
  IsInRange (local bytes) = Unit {0}
  IsInRange (device a n) = (nvm.flash_start ≤ a) × (a + n ≤ nvm.flash_end)

  module _ (done : List ℕ) (q : Request) (sq : IsServed m index len done q) where
    delivered_length : length q.delivered ≡ min len (length done - index)
    delivered_length =
        ap length sq.delivered
        ∙ length-take len (drop index done)
        ∙ ap (min len) (length-drop index done)

    -- Where something is left to deliver, the index is not before the source.
    wanted_pos :
        (s : Source)
        → 0 < wanted board q s
        → (length done ≤ q.index)
          × (q.index - q.src_index ≡ index - length done)
          × (wanted board q s ≡ min (source_length s - (index - length done)) q.len)
    unfolding wanted
    wanted_pos s pos =
        let d = delivered_length in
        (
          omega (arith, d, sq.index_is, sq.len_is, sq.src_index_is),
          omega (arith, d, sq.index_is, sq.len_is, sq.src_index_is),
          omega (arith, d, sq.index_is, sq.len_is, sq.src_index_is),
        )

    abbrev piece : Source → List ℕ
    piece s = take q.len (drop (index - length done) (content m s))

    record IsPiece (s : Source) (r : Result (List ℕ) × FsCache.Cache) : Type 0 where
      bytes : r.0 ≡ ok (piece s)
      coherent : IsCoherent r.1
      same_flash : r.1.flash ≡ m

    length-piece :
        (s : Source) → length (piece s) ≡ min q.len (source_length s - (index - length done))
    length-piece s =
        length-take q.len (drop (index - length done) (content m s))
        ∙ ap (min q.len) (
            length-drop (index - length done) (content m s)
            ∙ ap (λ n. n - (index - length done)) (sym (source_length_is m s)))

    nothing_wanted : (s : Source) → wanted board q s ≡ 0 → piece s ≡ []
    unfolding wanted
    nothing_wanted s none = nil_of_length (piece s) (
        omega
          (arith, length-piece s, delivered_length, sq.index_is, sq.len_is, sq.src_index_is, none))

    wanted-piece :
        (s : Source)
        → 0 < wanted board q s
        → take (wanted board q s) (drop (q.index - q.src_index) (content m s)) ≡ piece s
    wanted-piece s pos =
        let (after, same_offset, n_is) = wanted_pos s pos in
        rw (same_offset, n_is, source_length_is m s)
          (take-drop-min (content m s) (index - length done) q.len)

    source_bytes-IsPiece :
        (s : Source)
        → IsInRange s
        → 0 < wanted board q s
        → IsPiece s (source_bytes board q s (wanted board q s))
    unfolding source_bytes
    source_bytes-IsPiece (local bytes) within pos = record {
      bytes = ap ok (wanted-piece (local bytes) pos);
      coherent = sq.coherent;
      same_flash = sq.same_flash;
    }
    source_bytes-IsPiece (device a size) within pos =
        let n = wanted board q (device a size) in
        let (after, same_offset, n_is) = wanted_pos (device a size) pos in
        let start = a + (q.index - q.src_index) in
        let fits : q.index - q.src_index + n ≤ size = omega arith in
        let low : start + n < 2 ^ 32 = omega (arith, small) in
        let got = read_lem nvm q.cache start n sq.coherent low in
        let inside : (ltb start nvm.flash_start || ltb nvm.flash_end (start + n)) ≡ false =
          ground arith in
        record {
          bytes =
              got.0
              ∙ (rw inside refl)
              ∙ ap ok (
                  ap (λ f. bytes_at f start n) sq.same_flash
                  ∙ sym (slice-bytes_at m a (q.index - q.src_index) n size fits)
                  ∙ wanted-piece (device a size) pos);
          coherent = got.1;
          same_flash = got.2 ∙ sq.same_flash;
        }

    abbrev after : Source → FsCache.Cache → Request
    after s c = record {
      delivered = q.delivered ++ piece s;
      index = q.index + length (piece s);
      len = q.len - length (piece s);
      src_index = q.src_index + source_length s;
      cache = c;
    }

    served-after :
        (s : Source) (r : Result (List ℕ) × FsCache.Cache)
        → r.0 ≡ ok (piece s)
        → served q (source_length s) r ≡ (ok tt, after s r.1)
    unfolding served
    served-after s r h = ap (λ (x : Result (List ℕ)). served q (source_length s) (x, r.1)) h

    after-IsServed :
        (s : Source) (c : FsCache.Cache)
        → IsCoherent c
        → c.flash ≡ m
        → IsServed m index len (done ++ content m s) (after s c)
    after-IsServed s c coherent same_flash =
        let more = length-append q.delivered (piece s) in
        record {
          delivered =
              ap₂ ◌++◌ sq.delivered (
                ap (λ n. take n (drop (index - length done) (content m s)))
                  (sq.len_is ∙ ap (λ l. len - length l) sq.delivered))
              ∙ sym (take-drop-append done (content m s) index len);
          index_is = omega (arith, more, sq.index_is);
          len_is = omega (arith, more, sq.len_is);
          src_index_is =
              omega
                (arith, sq.src_index_is, source_length_is m s, length-append done (content m s));
          coherent = coherent;
          same_flash = same_flash;
        }

    pub read_source-IsRead :
        (s : Source)
        → IsInRange s
        → IsRead m index len (done ++ content m s) (read_source board q s)
    unfolding read_source
    read_source-IsRead s within = elim (Bool-cases (ltb 0 (wanted board q s))) [
      | inl y ↦
          let p = source_bytes-IsPiece s within (ground arith) in
          let is = served-after s (source_bytes board q s (wanted board q s)) p.bytes in
          rw (y, is)
            (record { succeeds = refl; served_more = after-IsServed s _ p.coherent p.same_flash })
      | inr n ↦
          let none : piece s ≡ [] = nothing_wanted s (ground arith) in
          let is = served-after s (ok [], q.cache) (ap ok (sym none)) in
          rw (n, is)
            (record { succeeds = refl; served_more = after-IsServed s _ sq.coherent sq.same_flash })
    ]
