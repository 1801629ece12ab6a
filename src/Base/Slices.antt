-- ===== src/Base/Slices.antt =====
-- Taking from, and dropping from, lists that were appended or taken.
use Prim.Native.Nat.{ℕ, zero, suc, ◌+◌, ◌-◌, ◌≤◌, min}
use mathlib.Core.Path.{◌≡◌, refl, sym, ap, ap₂, ◌∙◌}
use mathlib.Core.List.{List, [], ◌∷◌, ◌++◌}
use native.Mathlib.Omega.{arith}
use codal_microbit_v.Base.Lists.{length, take, drop, take-nil, drop-nil, length-drop, take-min}

pub drop-append_right {ℓ} :
    {A : Type ℓ} (xs ys : List A) (k : ℕ)
    → length xs ≤ k
    → drop k (xs ++ ys) ≡ drop (k - length xs) ys
drop-append_right [] ys k le = ap (λ i. drop i ys) (omega arith)
drop-append_right (x ∷ xs) ys zero le = absurd (omega arith)
drop-append_right (x ∷ xs) ys (suc k) le =
    drop-append_right xs ys k (omega arith) ∙ ap (λ i. drop i ys) (omega arith)

pub take-drop-append_left {ℓ} :
    {A : Type ℓ} (xs ys : List A) (k n : ℕ)
    → k + n ≤ length xs
    → take n (drop k (xs ++ ys)) ≡ take n (drop k xs)
take-drop-append_left xs ys k zero le = refl
take-drop-append_left [] ys zero (suc n) le = absurd (omega arith)
take-drop-append_left [] ys (suc k) (suc n) le = absurd (omega arith)
take-drop-append_left (x ∷ xs) ys zero (suc n) le =
    ap (◌∷◌ x) (take-drop-append_left xs ys 0 n (omega arith))
take-drop-append_left (x ∷ xs) ys (suc k) (suc n) le =
    take-drop-append_left xs ys k (suc n) (omega arith)

pub take-drop-append_across {ℓ} :
    {A : Type ℓ} (xs ys : List A) (k n : ℕ)
    → k ≤ length xs
    → length xs ≤ k + n
    → take n (drop k (xs ++ ys)) ≡ drop k xs ++ take (n - (length xs - k)) ys
take-drop-append_across [] ys zero n le le' = ap (λ i. take i ys) (omega arith)
take-drop-append_across [] ys (suc k) n le le' = absurd (omega arith)
take-drop-append_across (x ∷ xs) ys zero zero le le' = absurd (omega arith)
take-drop-append_across (x ∷ xs) ys zero (suc n) le le' = ap (◌∷◌ x) (
    take-drop-append_across xs ys 0 n (omega arith) (omega arith)
    ∙ ap (λ i. drop 0 xs ++ take i ys) (omega arith))
take-drop-append_across (x ∷ xs) ys (suc k) n le le' =
    take-drop-append_across xs ys k n (omega arith) (omega arith)
    ∙ ap (λ i. drop k xs ++ take i ys) (omega arith)

pub drop-take {ℓ} :
    {A : Type ℓ} (xs : List A) (k l : ℕ) → drop k (take l xs) ≡ take (l - k) (drop k xs)
drop-take xs zero l = ap (λ i. take i xs) (omega arith)
drop-take [] (suc k) l = ap (drop (suc k)) (take-nil l) ∙ sym (take-nil (l - suc k))
drop-take (x ∷ xs) (suc k) zero = let nothing : 0 - suc k ≡ 0 = omega arith in rw nothing refl
drop-take (x ∷ xs) (suc k) (suc l) = drop-take xs k l ∙ ap (λ i. take i (drop k xs)) (omega arith)

pub take-take {ℓ} : {A : Type ℓ} (xs : List A) (n l : ℕ) → take n (take l xs) ≡ take (min n l) xs
take-take xs zero l = let nothing : min 0 l ≡ 0 = omega arith in rw nothing refl
take-take xs (suc n) zero = let nothing : min (suc n) 0 ≡ 0 = omega arith in rw nothing refl
take-take [] (suc n) (suc l) = sym (take-nil (min (suc n) (suc l)))
take-take (x ∷ xs) (suc n) (suc l) =
    let both : min (suc n) (suc l) ≡ suc (min n l) = omega arith in
    rw both (ap (◌∷◌ x) (take-take xs n l))

pub drop-drop {ℓ} : {A : Type ℓ} (xs : List A) (k n : ℕ) → drop k (drop n xs) ≡ drop (n + k) xs
drop-drop xs k zero = ap (λ i. drop i xs) (omega arith)
drop-drop [] k (suc n) = drop-nil k ∙ sym (drop-nil (suc n + k))
drop-drop (x ∷ xs) k (suc n) =
    let next : suc n + k ≡ suc (n + k) = omega arith in rw next (drop-drop xs k n)

pub drop-min {ℓ} : {A : Type ℓ} (xs : List A) (k : ℕ) → drop (min k (length xs)) xs ≡ drop k xs
drop-min [] k = drop-nil (min k 0) ∙ sym (drop-nil k)
drop-min (x ∷ xs) zero = let nothing : min 0 (suc (length xs)) ≡ 0 = omega arith in rw nothing refl
drop-min (x ∷ xs) (suc k) =
    let both : min (suc k) (suc (length xs)) ≡ suc (min k (length xs)) = omega arith in
    rw both (drop-min xs k)

-- What two pieces that follow each other make up.
pub take-append-take {ℓ} :
    {A : Type ℓ} (xs : List A) (a b : ℕ) → take a xs ++ take b (drop a xs) ≡ take (a + b) xs
take-append-take xs zero b = ap (λ i. take i xs) (omega arith)
take-append-take [] (suc a) b = take-nil b ∙ sym (take-nil (suc a + b))
take-append-take (x ∷ xs) (suc a) b =
    let next : suc a + b ≡ suc (a + b) = omega arith in
    rw next (ap (◌∷◌ x) (take-append-take xs a b))

pub drop_all {ℓ} : {A : Type ℓ} (n : ℕ) (xs : List A) → length xs ≤ n → drop n xs ≡ []
drop_all n [] le = drop-nil n
drop_all zero (x ∷ xs) le = absurd (omega arith)
drop_all (suc n) (x ∷ xs) le = drop_all n xs (omega arith)

-- A slice of two lists together: what the first has of it, and the rest of the second.
pub take-drop-append {ℓ} :
    {A : Type ℓ} (xs ys : List A) (k n : ℕ)
    → take n (drop k (xs ++ ys))
      ≡ take n (drop k xs) ++ take (n - length (take n (drop k xs))) (drop (k - length xs) ys)
take-drop-append {A = A} [] ys k n =
    let nothing : take n (drop {A = A} k []) ≡ [] = ap (take n) (drop-nil k) ∙ take-nil n in
    let all : n ≡ n - 0 = omega arith in
    let here : k ≡ k - 0 = omega arith in rw nothing (ap₂ (λ i j. take i (drop j ys)) all here)
take-drop-append (x ∷ xs) ys zero zero = refl
take-drop-append (x ∷ xs) ys zero (suc n) = ap (◌∷◌ x) (
    take-drop-append xs ys 0 n
    ∙ ap (◌++◌ (take n xs)) (ap₂ (λ i j. take i (drop j ys)) (omega arith) (omega arith)))
take-drop-append (x ∷ xs) ys (suc k) n =
    take-drop-append xs ys k n
    ∙ ap (λ j. take n (drop k xs) ++ take (n - length (take n (drop k xs))) (drop j ys))
        (omega arith)

-- A slice that ends within the list.
pub take-drop-min {ℓ} :
    {A : Type ℓ} (xs : List A) (k n : ℕ)
    → take (min (length xs - k) n) (drop k xs) ≡ take n (drop k xs)
take-drop-min xs k n =
    ap (λ i. take i (drop k xs)) (omega (arith, length-drop k xs)) ∙ take-min n (drop k xs)

pub nil_of_length {ℓ} : {A : Type ℓ} (xs : List A) → length xs ≡ 0 → xs ≡ []
nil_of_length [] h = refl
nil_of_length (x ∷ xs) h = absurd (omega arith)
