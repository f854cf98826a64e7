-- ===== src/Pow/BinaryHeap.antt =====
-- `BinaryHeap` of the standard library, as far as src/pow.rs uses it: a collection whose greatest
-- element by `Ord` can be looked at and taken out. Which of several equal elements comes first is left
-- open by the library; the model takes one, and no statement depends on the choice.
use Prim.Native.Nat.{Ordering}
use mathlib.Core.List.{Perm}
use mathlib.Core.List.Perm
use mathlib.Core.Option
use faucet_api.Common.{
  suc, ◌≡◌, refl, ap, ◌⊎◌, inl, inr, Bool, true, false, Option, none, some, List, [], ◌∷◌, arith,
  if◌then◌else◌, length, All, All-map, Any, Bool-cases, Option-cases,
}

-- `trait Ord`
pub record Ord (A : Type 0) : Type 0 where
  pub cmp : A → A → Ordering

-- `a <= b`
abbrev pub at_most : {A : Type 0} ⦃o : Ord A⦄ → A → A → Bool
at_most ⦃o⦄ a b = elim (o.cmp a b) [ Ordering.gt ↦ false | _ ↦ true ]

-- What `Ord` asks of an implementation.
pub record IsTotal (A : Type 0) ⦃o : Ord A⦄ : Type 0 where
  pub le_trans : (a b c : A) → at_most a b ≡ true → at_most b c ≡ true → at_most a c ≡ true
  pub le_of_not-le : (a b : A) → at_most a b ≡ false → at_most b a ≡ true

module _ {A : Type 0} ⦃o : Ord A⦄ where
  -- The greatest element and the others.
  unfoldable pub pop : List A → Option (A × List A)
  pop [] = none
  pop (x ∷ xs) = elim (pop xs) [
    | none ↦ some (x, [])
    | some (y, ys) ↦ if at_most y x then some (x, y ∷ ys) else some (y, x ∷ ys)
  ]

  unfoldable pub peek : List A → Option A
  unfolding pop
  peek heap = Option.map (λ p. p.0) (pop heap)

  unfoldable pub push : A → List A → List A
  push x heap = x ∷ heap

  pub pop-none : (heap : List A) → pop heap ≡ none → heap ≡ []
  unfolding pop
  pop-none [] e = refl
  pop-none (x ∷ xs) e = ground arith

  -- How `pop` came to its result.
  pub data Popped : List A → A → List A → Type 0 where
    only : (x : A) → Popped (x ∷ []) x []
    first :
        {x y : A} {xs ys : List A}
        → Popped xs y ys
        → at_most y x ≡ true
        → Popped (x ∷ xs) x (y ∷ ys)
    later :
        {x y : A} {xs ys : List A}
        → Popped xs y ys
        → at_most y x ≡ false
        → Popped (x ∷ xs) y (x ∷ ys)

  pub pop-Popped :
      (heap : List A) {x : A} {rest : List A} → pop heap ≡ some (x, rest) → Popped heap x rest
  unfolding pop
  pop-Popped [] e = cc
  pop-Popped (x ∷ xs) {x = y} {rest} e = elim (Option-cases (pop xs)) [
    | inl p ↦
        let (b, r) : (x ≡ y) × ([] ≡ rest) = ground arith in rw (pop-none xs p, ← b, ← r) (only x)
    | inr ((z, zs), p) ↦ elim (Bool-cases (at_most z x)) [
      | inl t ↦
          let (b, r) : (x ≡ y) × (z ∷ zs ≡ rest) = ground arith in
          rw (← b, ← r) (first (pop-Popped xs p) t)
      | inr f ↦
          let (b, r) : (z ≡ y) × (x ∷ zs ≡ rest) = ground arith in
          rw (← b, ← r) (later (pop-Popped xs p) f)
    ]
  ]

  pub Popped-length :
      {heap rest : List A} {x : A} → Popped heap x rest → length heap ≡ suc (length rest)
  Popped-length (only x) = refl
  Popped-length (first p t) = ap suc (Popped-length p)
  Popped-length (later p f) = ap suc (Popped-length p)

  pub Popped-perm : {heap rest : List A} {x : A} → Popped heap x rest → Perm heap (x ∷ rest)
  Popped-perm (only x) = Perm.refl _
  Popped-perm (first p t) = Perm.cons _ (Popped-perm p)
  Popped-perm (later p f) = Perm.trans (Perm.cons _ (Popped-perm p)) (Perm.swap _ _ _)

  pub Popped-All :
      (P : A → Type 0) {heap rest : List A} {x : A}
      → Popped heap x rest
      → All P heap
      → P x × All P rest
  Popped-All P (only x) h = h
  Popped-All P (first p t) (h, hs) = (h, Popped-All P p hs)
  Popped-All P (later p f) (h, hs) = let (b, bs) = Popped-All P p hs in (b, (h, bs))

  pub Popped-Any :
      (P : A → Type 0) {heap rest : List A} {x : A}
      → Popped heap x rest
      → Any P heap
      → P x ⊎ Any P rest
  Popped-Any P (only x) h = h
  Popped-Any P (first p t) (inl h) = inl h
  Popped-Any P (first p t) (inr h) = inr (Popped-Any P p h)
  Popped-Any P (later p f) (inl h) = inr (inl h)
  Popped-Any P (later p f) (inr h) = elim (Popped-Any P p h) [ inl b ↦ inl b | inr r ↦ inr (inr r) ]

  -- No element of the rest is greater than the one taken out.
  pub Popped-greatest :
      (laws : IsTotal A) {heap rest : List A} {x : A}
      → Popped heap x rest
      → All (λ y. at_most y x ≡ true) rest
  Popped-greatest laws (only x) = tt
  Popped-greatest laws (first {x} {y} {xs} {ys} p t) = (t, below ys (Popped-greatest laws p))
    where
      below : (zs : List A) → All (λ z. at_most z y ≡ true) zs → All (λ z. at_most z x ≡ true) zs
      below zs h = All-map (λ z k. laws.le_trans z y x k t) zs h
  Popped-greatest laws (later p f) = (laws.le_of_not-le _ _ f, Popped-greatest laws p)

  pub All-Popped :
      (P : A → Type 0) {heap rest : List A} {x : A}
      → Popped heap x rest
      → P x
      → All P rest
      → All P heap
  All-Popped P (only x) b h = (b, tt)
  All-Popped P (first p t) b (h, hs) = (b, All-Popped P p h hs)
  All-Popped P (later p f) b (h, hs) = (h, All-Popped P p b hs)

  pub Any-Popped :
      (P : A → Type 0) {heap rest : List A} {x : A} → Popped heap x rest → P x → Any P heap
  Any-Popped P (only x) b = inl b
  Any-Popped P (first p t) b = inl b
  Any-Popped P (later p f) b = inr (Any-Popped P p b)
