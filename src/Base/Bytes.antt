-- ===== src/Base/Bytes.antt =====
-- Memory as a function from addresses to bytes: runs of bytes, and what storing a run changes.
use Prim.Native.Nat.{ℕ, zero, suc, ◌+◌, ◌-◌, ◌≤◌, ◌<◌}
use mathlib.Core.Path.{◌≡◌, refl, ap, ap₂, ◌∙◌}
use mathlib.Core.Logic.{inl, inr}
use mathlib.Core.Bool.{true, false, ◌&&◌}
use mathlib.Core.List.{List, [], ◌∷◌, ◌++◌}
use native.Mathlib.Omega.{arith}
use codal_microbit_v.Base.Tests.{ltb, leb, if◌then◌else◌, Bool-cases}
use codal_microbit_v.Base.Lists.{
  length, get_or, take, drop, length-append, get_or-append_left, get_or-append_right,
}

-- The bytes of an address space.
abbrev pub Memory : Type 0
Memory = ℕ → ℕ

-- The `n` bytes from address `a` on.
abbrev pub bytes_at : Memory → ℕ → ℕ → List ℕ
bytes_at m a zero = []
bytes_at m a (suc n) = m a ∷ bytes_at m (a + 1) n

pub length-bytes_at : (m : Memory) (a n : ℕ) → length (bytes_at m a n) ≡ n
length-bytes_at m a zero = refl
length-bytes_at m a (suc n) = ap suc (length-bytes_at m (a + 1) n)

pub bytes_at-append :
    (m : Memory) (a k n : ℕ) → bytes_at m a k ++ bytes_at m (a + k) n ≡ bytes_at m a (k + n)
bytes_at-append m a zero n = ap₂ (bytes_at m) (omega arith) (omega arith)
bytes_at-append m a (suc k) n =
    let next : a + suc k ≡ a + 1 + k = omega arith in
    let all : suc k + n ≡ suc (k + n) = omega arith in
    rw (next, all) (ap (◌∷◌ (m a)) (bytes_at-append m (a + 1) k n))

pub drop-bytes_at : (m : Memory) (a k n : ℕ) → drop k (bytes_at m a n) ≡ bytes_at m (a + k) (n - k)
drop-bytes_at m a zero n = ap₂ (bytes_at m) (omega arith) (omega arith)
drop-bytes_at m a (suc k) zero = let none_left : 0 - suc k ≡ 0 = omega arith in rw none_left refl
drop-bytes_at m a (suc k) (suc n) =
    drop-bytes_at m (a + 1) k n ∙ ap₂ (bytes_at m) (omega arith) (omega arith)

pub take-bytes_at : (m : Memory) (a k n : ℕ) → k ≤ n → take k (bytes_at m a n) ≡ bytes_at m a k
take-bytes_at m a zero n le = refl
take-bytes_at m a (suc k) zero le = absurd (omega arith)
take-bytes_at m a (suc k) (suc n) le = ap (◌∷◌ (m a)) (take-bytes_at m (a + 1) k n (omega arith))

pub slice-bytes_at :
    (m : Memory) (b o l n : ℕ) → o + l ≤ n → take l (drop o (bytes_at m b n)) ≡ bytes_at m (b + o) l
slice-bytes_at m b o l n le =
    ap (take l) (drop-bytes_at m b o n) ∙ take-bytes_at m (b + o) l (n - o) (omega arith)

-- `n` bytes at an address are erased.
abbrev pub IsErased : Memory → ℕ → ℕ → Type 0
IsErased m a n = (x : ℕ) → a ≤ x → x < a + n → m x ≡ 255

-- The memory with bytes stored from address `a` on.
abbrev pub stored : Memory → ℕ → List ℕ → Memory
stored m a bytes x = if leb a x && ltb x (a + length bytes) then get_or bytes (x - a) 0 else m x

pub bytes_at_ext :
    (m m' : Memory) (a n : ℕ)
    → ((x : ℕ) → a ≤ x → x < a + n → m x ≡ m' x)
    → bytes_at m a n ≡ bytes_at m' a n
bytes_at_ext m m' a zero h = refl
bytes_at_ext m m' a (suc n) h =
    ap₂ ◌∷◌ (h a (omega arith) (omega arith))
      (bytes_at_ext m m' (a + 1) n (λ x le lt. h x (omega arith) (omega arith)))

pub get_or-bytes_at : (m : Memory) (a n d : ℕ) → d < n → get_or (bytes_at m a n) d 0 ≡ m (a + d)
get_or-bytes_at m a zero d lt = absurd (omega arith)
get_or-bytes_at m a (suc n) zero lt = ap m (omega arith)
get_or-bytes_at m a (suc n) (suc d) lt =
    get_or-bytes_at m (a + 1) n d (omega arith) ∙ ap m (omega arith)

-- The bytes stored are read back, and those elsewhere are as they were.
pub bytes_at-stored :
    (m : Memory) (a : ℕ) (bytes : List ℕ) → bytes_at (stored m a bytes) a (length bytes) ≡ bytes
bytes_at-stored m a [] = refl
bytes_at-stored m a (b ∷ bs) = ap₂ ◌∷◌ first (
    bytes_at_ext (stored m a (b ∷ bs)) (stored m (a + 1) bs) (a + 1) (length bs) rest
    ∙ bytes_at-stored m (a + 1) bs)
  where
    first : stored m a (b ∷ bs) a ≡ b
    first =
        let here : (leb a a && ltb a (a + suc (length bs))) ≡ true = ground arith in
        let at_0 : a - a ≡ 0 = omega arith in rw (here, at_0) refl

    rest :
        (x : ℕ) → a + 1 ≤ x → x < a + 1 + length bs → stored m a (b ∷ bs) x ≡ stored m (a + 1) bs x
    rest x le lt =
        let here : (leb a x && ltb x (a + suc (length bs))) ≡ true = ground arith in
        let there : (leb (a + 1) x && ltb x (a + 1 + length bs)) ≡ true = ground arith in
        let at_suc : x - a ≡ suc (x - (a + 1)) = omega arith in rw (here, there, at_suc) refl

pub stored_apart :
    (m : Memory) (a : ℕ) (bytes : List ℕ) (x : ℕ)
    → (leb a x && ltb x (a + length bytes)) ≡ false
    → stored m a bytes x ≡ m x
stored_apart m a bytes x h = rw h refl

pub stored_at :
    (m : Memory) (a : ℕ) (bytes : List ℕ) (d : ℕ)
    → d < length bytes
    → stored m a bytes (a + d) ≡ get_or bytes d 0
stored_at m a bytes d lt =
    let within : (leb a (a + d) && ltb (a + d) (a + length bytes)) ≡ true = ground arith in
    let offset : a + d - a ≡ d = omega arith in rw (within, offset) refl

-- Storing some bytes and then the ones that follow is storing them all.
pub stored-append :
    (m : Memory) (a : ℕ) (xs ys : List ℕ) (x : ℕ)
    → stored (stored m a xs) (a + length xs) ys x ≡ stored m a (xs ++ ys) x
stored-append m a xs ys x = elim (Bool-cases (leb a x && ltb x (a + length xs))) [
  | inl y ↦ ground (arith, length-append xs ys, get_or-append_left xs ys (x - a) 0)
  | inr n ↦
      let e = get_or-append_right xs ys (x - (a + length xs)) 0 in
      ground (arith, length-append xs ys, e)
]
