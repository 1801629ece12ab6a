-- ===== src/Base/Bits.antt =====
-- `|` on disjoint bits, from the digit recursion that the native operation stands for.
use Prim.Native.Nat.{
  ℕ, zero, suc, ◌+◌, ◌-◌, ◌*◌, ◌/◌, ◌%◌, ◌^◌, ◌≤◌, ◌<◌, max, bit_and, bit_or, bit_xor, digits,
  bit_or-bitwise, bit_and-bitwise,
}
use mathlib.Core.Path.{◌≡◌, refl, ap, ◌∙◌}
use mathlib.Core.Bool.{Bool, true, ◌&&◌}
use native.Mathlib.Nat.{pow-suc}
use native.Mathlib.Omega.{arith}
use codal_microbit_v.Base.Tests.{◌==◌, ==→eq}

abbrev or_digits : ℕ → ℕ → ℕ → ℕ
or_digits n a b = digits (λ y. y) max n a b

-- One more unit of fuel changes nothing when the first number is no more than the fuel.
or_digits_more : (fuel x y : ℕ) → x ≤ fuel → or_digits (suc fuel) x y ≡ or_digits fuel x y
or_digits_more zero zero y le = refl
or_digits_more zero (suc x) y le = absurd (omega arith)
or_digits_more (suc fuel) zero y le = refl
or_digits_more (suc fuel) (suc x) y le =
    omega (arith, or_digits_more fuel (suc x / 2) (y / 2) (omega arith))

or_digits_extra : (extra x y : ℕ) → or_digits (extra + x) x y ≡ or_digits x x y
or_digits_extra zero x y = ap (λ n. or_digits n x y) (omega arith)
or_digits_extra (suc extra) x y =
    let more : suc extra + x ≡ suc (extra + x) = omega arith in
    rw more (or_digits_more (extra + x) x y (omega arith) ∙ or_digits_extra extra x y)

or_digits_half : (a y : ℕ) → or_digits a (suc a / 2) y ≡ or_digits (suc a / 2) (suc a / 2) y
or_digits_half a y =
    ap (λ n. or_digits n (suc a / 2) y) fuel ∙ or_digits_extra (a - suc a / 2) (suc a / 2) y
  where
    fuel : a ≡ a - suc a / 2 + suc a / 2
    fuel = omega arith

zero-bit_or : (b : ℕ) → bit_or 0 b ≡ b
zero-bit_or b = bit_or-bitwise 0 b

bit_or_digit : (a b : ℕ) → bit_or a b ≡ bit_or (a / 2) (b / 2) * 2 + max (a % 2) (b % 2)
bit_or_digit zero b = omega (arith, zero-bit_or b, zero-bit_or (b / 2))
bit_or_digit (suc a) b =
    omega (
      arith,
      bit_or-bitwise (suc a) b,
      bit_or-bitwise (suc a / 2) (b / 2),
      or_digits_half a (b / 2),
    )

-- `low | (high << k)` is a sum, when `low` has `k` bits.
pub bit_or_high : (k low high : ℕ) → low < 2 ^ k → bit_or low (high * 2 ^ k) ≡ low + high * 2 ^ k
bit_or_high zero low high h =
    let none_low : low ≡ 0 = omega arith in rw none_low (zero-bit_or _ ∙ omega arith)
bit_or_high (suc k) low high h = omega (
  arith,
  bit_or_digit low (high * 2 ^ suc k),
  double,
  bit_or_high k (low / 2) high (omega (arith, pow-suc 2 k)),
  ap (λ n. bit_or (low / 2) n) halved,
)
  where
    double : high * 2 ^ suc k ≡ 2 * (high * 2 ^ k)
    double = omega (arith, ap (λ (n : ℕ). high * n) (pow-suc 2 k))

    halved : high * 2 ^ suc k / 2 ≡ high * 2 ^ k
    halved = omega (arith, double)

pub zero-bit_and : (b : ℕ) → bit_and 0 b ≡ 0
zero-bit_and b = bit_and-bitwise 0 b

-- A fact about every byte, from its 256 instances.
unfoldable pub holds_below : ℕ → (ℕ → Bool) → Bool
holds_below zero p = true
holds_below (suc n) p = p n && holds_below n p

pub holds_below_at : (n : ℕ) (p : ℕ → Bool) (x : ℕ) → x < n → holds_below n p ≡ true → p x ≡ true
unfolding holds_below
holds_below_at zero p x lt h = absurd (omega arith)
holds_below_at (suc n) p x lt h = ground (arith, holds_below_at n p x)

complement_table : holds_below 256 (λ x. bit_and (255 - x) x == 0) ≡ true
unfolding holds_below
complement_table = refl

-- A byte has no bit that its complement has.
pub complement-bit_and : (x : ℕ) → x < 256 → bit_and (255 - x) x ≡ 0
complement-bit_and x lt = ==→eq _ 0 (holds_below_at 256 _ x lt complement_table)

self_table : holds_below 256 (λ x. bit_and (bit_xor x x) x == 0) ≡ true
unfolding holds_below
self_table = refl

-- A byte differs from itself in no bit.
pub self-bit_xor : (x : ℕ) → x < 256 → bit_and (bit_xor x x) x ≡ 0
self-bit_xor x lt = ==→eq _ 0 (holds_below_at 256 _ x lt self_table)
