-- ===== src/Base/Ring.antt =====
-- Circular buffers addressed by a head and a tail index: the bytes between the two, and what a
-- write at the head or a step of the tail does to them. One slot always stays free.
use native.Mathlib.Nat.{add-zero, mod-add-mod, mod-eq_of_lt, mod-eq-sub-mod}
use codal_microbit_v.Base.Tests.{ltb, if◌then◌else◌}
use codal_microbit_v.Base.Lists.{
  length, get_or, set, get_or-set_self, get_or-set_ne, take, take_all, take-length_append, drop,
  drop-length_append,
}
use Prim.Native.Nat.{ℕ, zero, suc, ◌+◌, ◌-◌, ◌%◌, ◌≤◌, ◌<◌, min}
use mathlib.Core.Path.{◌≡◌, refl, sym, ap, ap₂, ◌∙◌}
use mathlib.Core.Logic.{◌≢◌, ◌⊎◌, inl, inr}
use mathlib.Core.List.{List, [], ◌∷◌, ◌++◌}
use native.Mathlib.Decide.{dec_lt}
use native.Mathlib.Omega.{arith}

-- The `n` bytes from index `t` on, going round at `size`.
abbrev pub window : List ℕ → ℕ → ℕ → ℕ → List ℕ
window buf size t zero = []
window buf size t (suc n) = get_or buf t 0 ∷ window buf size ((t + 1) % size) n

-- The number of bytes from the tail up to the head.
abbrev pub used : ℕ → ℕ → ℕ → ℕ
used size head tail = if ltb head tail then size - tail + head else head - tail

pub length-window : (buf : List ℕ) (size t n : ℕ) → length (window buf size t n) ≡ n
length-window buf size t zero = refl
length-window buf size t (suc n) = ap suc (length-window buf size ((t + 1) % size) n)

-- `window` matches on `suc`; code tests whether the head meets the tail.
pub window_pos :
    (buf : List ℕ) (size t n : ℕ)
    → 0 < n
    → window buf size t n ≡ get_or buf t 0 ∷ window buf size ((t + 1) % size) (n - 1)
window_pos buf size t zero h = absurd (omega arith)
window_pos buf size t (suc n) h = ap (λ k. window buf size t (suc k)) (omega arith)

-- A step of an index round the ring.
pub next_cases :
    (size h : ℕ)
    → h < size
    → ((h + 1 < size) × ((h + 1) % size ≡ h + 1)) ⊎ ((h + 1 ≡ size) × ((h + 1) % size ≡ 0))
next_cases size h lt = elim (dec_lt (h + 1) size) [
  | yes p ↦ inl (p, mod-eq_of_lt p)
  | no p ↦ inr (omega arith, (let e : h + 1 ≡ size = omega arith in rw e (grind arith)))
]

pub used-lt : (size head tail : ℕ) → head < size → tail < size → used size head tail < size
used-lt size head tail h t = ground arith

pub used_zero : (size head tail : ℕ) → tail < size → used size head tail ≡ 0 → head ≡ tail
used_zero size head tail t e = ground arith

pub used_self : (size head : ℕ) → used size head head ≡ 0
used_self size head = ground arith

-- Moving the head on by one, when that does not meet the tail, adds a byte.
pub used_push :
    (size head tail : ℕ)
    → head < size
    → tail < size
    → (head + 1) % size ≢ tail
    → used size ((head + 1) % size) tail ≡ used size head tail + 1
used_push size head tail h t ne = ground (arith, next_cases size head h)

-- When it does meet the tail, every slot but one is in use.
pub used_full :
    (size head tail : ℕ) → head < size → (head + 1) % size ≡ tail → used size head tail + 1 ≡ size
used_full size head tail h e = ground (arith, next_cases size head h)

-- Moving the tail on by one takes a byte away.
pub used_pop :
    (size head tail : ℕ)
    → head < size
    → tail < size
    → head ≢ tail
    → used size head ((tail + 1) % size) + 1 ≡ used size head tail
used_pop size head tail h t ne = ground (arith, next_cases size tail t)

pub mod_shift : (size t k : ℕ) → ((t + 1) % size + k) % size ≡ (t + suc k) % size
mod_shift size t k = rw mod-add-mod (ap (λ m. m % size) (omega arith))

pub add_zero_mod : (size t : ℕ) → t < size → (t + 0) % size ≡ t
add_zero_mod size t ht = rw add-zero (mod-eq_of_lt ht)

-- Indices fewer than `size` steps apart differ.
mod_cases :
    (size t k : ℕ)
    → t < size
    → k < size
    → ((t + k < size) × ((t + k) % size ≡ t + k))
      ⊎ ((size ≤ t + k) × ((t + k) % size + size ≡ t + k))
mod_cases size t k ht hk = elim (dec_lt (t + k) size) [
  | yes p ↦ inl (p, mod-eq_of_lt p)
  | no p ↦ inr (
    omega arith,
    omega (
      arith,
      mod-eq-sub-mod {n = t + k} {m = size} (omega arith),
      mod-eq_of_lt {n = t + k - size} {m = size} (omega arith),
    ),
  )
]

pub mod_apart : (size t j n : ℕ) → t < size → j < n → n < size → (t + j) % size ≢ (t + n) % size
mod_apart size t j n ht hj hn e =
    ground (arith, mod_cases size t j ht (omega arith), mod_cases size t n ht hn)

pub used_head :
    (size head tail : ℕ) → head < size → tail < size → (tail + used size head tail) % size ≡ head
used_head size head tail h t =
    ground (arith, mod_cases size tail (used size head tail) t (used-lt size head tail h t))

module _ (buf : List ℕ) (size : ℕ) where
  pub window-append :
      (t m n : ℕ)
      → t < size
      → window buf size t (m + n) ≡ window buf size t m ++ window buf size ((t + m) % size) n
  window-append t zero n ht = ap₂ (window buf size) (sym (add_zero_mod size t ht)) (omega arith)
  window-append t (suc m) n ht = rw (add_suc_left) (
      ap (◌∷◌ (get_or buf t 0)) (
        window-append ((t + 1) % size) m n (omega arith)
        ∙ ap (λ k. window buf size ((t + 1) % size) m ++ window buf size k n) (mod_shift size t m)))
    where
      add_suc_left : suc m + n ≡ suc (m + n)
      add_suc_left = omega arith

  window-set_ne :
      (t n i v : ℕ)
      → ((j : ℕ) → j < n → (t + j) % size ≢ i)
      → t < size
      → window (set buf i v) size t n ≡ window buf size t n
  window-set_ne t zero i v apart ht = refl
  window-set_ne t (suc n) i v apart ht =
      ap₂ ◌∷◌
        (get_or-set_ne buf i t v 0 (λ e. apart 0 (omega arith) (add_zero_mod size t ht ∙ sym e)))
        (window-set_ne ((t + 1) % size) n i v
          (λ j lt e. apart (suc j) (omega arith) (omega (arith, mod_shift size t j, e)))
          (omega arith))

-- A byte written just past a window extends it.
pub window-set :
    (buf : List ℕ) (size t n v : ℕ)
    → length buf ≡ size
    → t < size
    → n < size
    → window (set buf ((t + n) % size) v) size t (n + 1) ≡ window buf size t n ++ v ∷ []
window-set buf size t n v len ht hn =
    window-append (set buf ((t + n) % size) v) size t n 1 ht
    ∙ ap₂ ◌++◌
        (window-set_ne buf size t n ((t + n) % size) v (λ j lt. mod_apart size t j n ht lt hn) ht)
        (ap (λ x. x ∷ []) (get_or-set_self buf ((t + n) % size) v 0 (omega arith)))

-- The rest of a window.
pub drop-window :
    (buf : List ℕ) (size t m n : ℕ)
    → t < size
    → drop m (window buf size t (m + n)) ≡ window buf size ((t + m) % size) n
drop-window buf size t m n ht = rw (window-append buf size t m n ht) (
    ap (λ k. drop k (window buf size t m ++ window buf size ((t + m) % size) n))
      (sym (length-window buf size t m))
    ∙ drop-length_append (window buf size t m) (window buf size ((t + m) % size) n))

-- The bytes held between head and tail.
abbrev pub held : List ℕ → ℕ → ℕ → ℕ → List ℕ
held buf size head tail = window buf size tail (used size head tail)

pub length-held :
    (buf : List ℕ) (size head tail : ℕ) → length (held buf size head tail) ≡ used size head tail
length-held buf size head tail = length-window buf size tail (used size head tail)

pub held_empty : (buf : List ℕ) (size head tail : ℕ) → head ≡ tail → held buf size head tail ≡ []
held_empty buf size head tail e =
    ap (held buf size head) (sym e) ∙ ap (window buf size head) (used_self size head)

pub held_push :
    (buf : List ℕ) (size head tail v : ℕ)
    → length buf ≡ size
    → head < size
    → tail < size
    → (head + 1) % size ≢ tail
    → held (set buf head v) size ((head + 1) % size) tail ≡ held buf size head tail ++ v ∷ []
held_push buf size head tail v len h t ne =
    ap (window (set buf head v) size tail) (used_push size head tail h t ne)
    ∙ ap (λ i. window (set buf i v) size tail (used size head tail + 1))
        (sym (used_head size head tail h t))
    ∙ window-set buf size tail (used size head tail) v len t (used-lt size head tail h t)

pub held_pop :
    (buf : List ℕ) (size head tail : ℕ)
    → head < size
    → tail < size
    → head ≢ tail
    → held buf size head tail ≡ get_or buf tail 0 ∷ held buf size head ((tail + 1) % size)
held_pop buf size head tail h t ne =
    window_pos buf size tail (used size head tail) (omega (arith, used_pop size head tail h t ne))
    ∙ ap (λ n. get_or buf tail 0 ∷ window buf size ((tail + 1) % size) n)
        (omega (arith, used_pop size head tail h t ne))

-- Moving the tail on by `k` of the bytes held drops those.
pub used_skip :
    (size head tail k : ℕ)
    → head < size
    → tail < size
    → k ≤ used size head tail
    → used size head ((tail + k) % size) + k ≡ used size head tail
used_skip size head tail k h t le =
    ground (arith, mod_cases size tail k t (omega (arith, used-lt size head tail h t)))

pub held_skip :
    (buf : List ℕ) (size head tail k : ℕ)
    → head < size
    → tail < size
    → k ≤ used size head tail
    → held buf size head ((tail + k) % size) ≡ drop k (held buf size head tail)
held_skip buf size head tail k h t le =
    sym (drop-window buf size tail k (used size head ((tail + k) % size)) t)
    ∙ ap (λ n. drop k (window buf size tail n)) (omega (arith, used_skip size head tail k h t le))

pub take-window :
    (buf : List ℕ) (size t m n : ℕ)
    → t < size
    → take m (window buf size t (m + n)) ≡ window buf size t m
take-window buf size t m n ht = rw (window-append buf size t m n ht) (
    ap (λ k. take k (window buf size t m ++ window buf size ((t + m) % size) n))
      (sym (length-window buf size t m))
    ∙ take-length_append (window buf size t m) (window buf size ((t + m) % size) n))

pub take-held :
    (buf : List ℕ) (size head tail k : ℕ)
    → tail < size
    → k ≤ used size head tail
    → take k (held buf size head tail) ≡ window buf size tail k
take-held buf size head tail k t le =
    ap (λ n. take k (window buf size tail n)) (omega arith)
    ∙ take-window buf size tail k (used size head tail - k) t

-- An index `k` steps behind the tail is `k` bytes away from it.
pub used_offset :
    (size tail k : ℕ) → tail < size → k < size → used size ((tail + k) % size) tail ≡ k
used_offset size tail k t h = ground (arith, mod_cases size tail k t h)

-- The index before the head is that of the last byte held.
pub used_last :
    (size head tail : ℕ)
    → head < size
    → tail < size
    → head ≢ tail
    → head ≢ 0
    → (tail + (used size head tail - 1)) % size ≡ head - 1
used_last size head tail h t ne pos = ground (
  arith,
  mod_cases size tail (used size head tail - 1) t (omega (arith, used-lt size head tail h t)),
)

pub take-held-min :
    (buf : List ℕ) (size head tail n : ℕ)
    → tail < size
    → take n (held buf size head tail) ≡ window buf size tail (min n (used size head tail))
take-held-min buf size head tail n t = elim (dec_lt n (used size head tail)) [
  | yes p ↦ take-held buf size head tail n t (omega arith) ∙ ap (window buf size tail) (omega arith)
  | no p ↦
      take_all n (held buf size head tail) (omega (arith, length-held buf size head tail))
      ∙ ap (window buf size tail) (omega arith)
]
