-- ===== src/Common/Counting.antt =====
-- Lists as bags: how often an element stands in one, and sums of weights over it.
use Prim.Native.Nat.{ℕ, ◌+◌, ◌≤◌}
use mathlib.Core.Path.{◌≡◌, ap, sym}
use mathlib.Core.Logic.{◌≢◌}
use mathlib.Core.List.{List, [], ◌∷◌, ◌++◌}
use native.Mathlib.Omega.{arith}

abbrev pub total : {A : Type 0} → (A → ℕ) → List A → ℕ
total w [] = 0
total w (x ∷ xs) = w x + total w xs

pub total-append :
    {A : Type 0} (w : A → ℕ) (xs ys : List A) → total w (xs ++ ys) ≡ total w xs + total w ys
total-append w [] ys = omega arith
total-append w (x ∷ xs) ys = omega (arith, total-append w xs ys)

abbrev one_if : {P : Type 0} → Dec P → ℕ
one_if (yes _) = 1
one_if (no _) = 0

module _ {A : Type 0} (eq : Discrete A) where
  -- 1 for equal elements, and 0 for others
  abbrev pub same : A → A → ℕ
  same x y = one_if (eq x y)

  abbrev pub count : A → List A → ℕ
  count x ys = total (same x) ys

  pub same_refl : (x : A) → same x x ≡ 1
  same_refl x = elim (eq x x) as (λ d. one_if d ≡ 1) [
    | yes _ ↦ omega arith
    | no n ↦ absurd (n (λ i. x))
  ]

  pub same_other : (x y : A) → x ≢ y → same x y ≡ 0
  same_other x y n = elim (eq x y) as (λ d. one_if d ≡ 0) [
    | yes e ↦ absurd (n e)
    | no _ ↦ omega arith
  ]

  -- The list without one of the elements that are equal to the given one.
  remove_one : A → List A → List A
  remove_one x [] = []
  remove_one x (y ∷ ys) = elim (eq x y) [ yes _ ↦ ys | no _ ↦ y ∷ remove_one x ys ]

  remove_one-total :
      (w : A → ℕ) (x : A) (ys : List A)
      → 1 ≤ count x ys
      → total w ys ≡ w x + total w (remove_one x ys)
  unfolding remove_one
  remove_one-total w x [] h = omega arith
  remove_one-total w x (y ∷ ys) h =
      elim (eq x y)
          as (λ d.
            1 ≤ one_if d + count x ys
            → w y + total w ys
              ≡ w x + total w (elim d [ yes _ ↦ ys | no _ ↦ y ∷ remove_one x ys ])) [
                | yes e ↦ λ _. ap (λ z. w z + total w ys) (sym e)
                | no n ↦ λ k. omega (arith, remove_one-total w x ys (omega arith))
              ]
        h

  -- A list that has each element at most as often as another weighs at most as much.
  pub total_mono :
      (w : A → ℕ) (xs ys : List A) → ((x : A) → count x xs ≤ count x ys) → total w xs ≤ total w ys
  total_mono w [] ys h = omega arith
  total_mono w (x ∷ xs) ys h =
      let there : 1 ≤ count x ys = omega (arith, h x, same_refl x) in
      let rest =
        total_mono w xs (remove_one x ys)
          (λ y. omega (arith, h y, remove_one-total (same y) x ys there)) in
      omega (arith, rest, remove_one-total w x ys there)
