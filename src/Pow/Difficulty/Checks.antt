-- ===== src/Pow/Difficulty/Checks.antt =====
-- `DifficultyConfig::new` of src/pow.rs: what its checks let through.
use faucet_api.Common.{
  ◌==◌, ℕ, ◌≡◌, refl, inl, inr, Bool, true, false, Result, ok, err, arith, Bool-cases, ok-injective,
  ◌≤◌, not-ltb→le, ◌>>=◌, if◌then◌else◌,
}
use faucet_api.Float
use faucet_api.Float.{F32, finite, one, nearest}
use faucet_api.Pow.Difficulty.{
  DifficultyConfig, DifficultyConfigError, finite_or_overflow, precompute, new,
}

finite-ok :
    (x : F32) {C : Type 0} (c : C) (f : F32 → Result C DifficultyConfigError)
    → (finite_or_overflow x >>= f) ≡ ok c
    → (Float.is_finite x ≡ true) × (f x ≡ ok c)
unfolding finite_or_overflow
finite-ok x c f h = elim (Bool-cases (Float.is_finite x)) [
  | inl t ↦ (t, ground arith)
  | inr n ↦ absurd (ground arith)
]

pub if-ok :
    {C : Type 0} (b : Bool) (e : DifficultyConfigError) (r : Result C DifficultyConfigError) (c : C)
    → (if b then err e else r) ≡ ok c
    → (b ≡ false) × (r ≡ ok c)
if-ok true e r c h = absurd (ground arith)
if-ok false e r c h = (refl, h)

-- Every check of `precompute` passed.
pub precompute-ok :
    (big_m m b q : ℕ) (big_l : F32) (c : DifficultyConfig)
    → precompute big_m m b q big_l ≡ ok c
    → let lq = Float.mul big_l (Float.of_nat q) in
      let start = Float.add (Float.of_nat b) lq in
      let a = Float.div (Float.sub (Float.of_nat m) (Float.of_nat big_m)) lq in
      let ab = Float.mul a (Float.of_nat b) in
      let big_b = Float.sub (Float.of_nat big_m) ab in
      (Float.is_finite lq ≡ true)
      × (Float.is_finite start ≡ true)
      × (Float.lt (Float.abs lq) Float.epsilon ≡ false)
      × (Float.is_finite a ≡ true)
      × (Float.is_finite ab ≡ true)
      × (Float.is_finite big_b ≡ true)
      × (c ≡ record {
        big_m = big_m;
        m = m;
        b = Float.of_nat b;
        min_diff_start = start;
        precompute_big_a = a;
        precompute_big_b = big_b;
      })
unfolding precompute
precompute-ok big_m m b q big_l c h =
    let lq = Float.mul big_l (Float.of_nat q) in
    let a = Float.div (Float.sub (Float.of_nat m) (Float.of_nat big_m)) lq in
    let ab = Float.mul a (Float.of_nat b) in
    let build : F32 → Result DifficultyConfig DifficultyConfigError = λ big_b. ok (record {
      big_m = big_m;
      m = m;
      b = Float.of_nat b;
      min_diff_start = Float.add (Float.of_nat b) lq;
      precompute_big_a = a;
      precompute_big_b = big_b;
    }) in
    let (p1, h1) = finite-ok _ c _ h in
    let (p2, h2) = finite-ok _ c _ h1 in
    let (p3, h3) = if-ok _ _ _ c h2 in
    let (p4, h4) = finite-ok _ c _ h3 in
    let (p5, h5) =
      finite-ok ab c (λ x. finite_or_overflow (Float.sub (Float.of_nat big_m) x) >>= build) h4 in
    let (p6, h6) = finite-ok (Float.sub (Float.of_nat big_m) ab) c build h5 in
    (p1, p2, p3, p4, p5, p6, ok-injective h6 refl)

-- The checks of the arguments passed.
pub new-precompute :
    (big_m m b q : ℕ) (big_l : F32) (c : DifficultyConfig)
    → new big_m m b q big_l ≡ ok c
    → (m ≤ big_m)
      × (Float.le big_l (finite false 0) ≡ false)
      × (precompute big_m m b q big_l ≡ ok c)
unfolding new
new-precompute big_m m b q big_l c h =
    let (ordered, h1) = if-ok _ _ _ c h in
    let (some_claim, h2) = if-ok _ _ _ c h1 in
    let (positive, h3) = if-ok _ _ _ c h2 in (not-ltb→le big_m m ordered, positive, h3)

nonzero : (q : ℕ) → (q == 0) ≡ false → 1 ≤ q
nonzero q h = ground arith

-- A configuration that was accepted has an amount.
pub new-per_claim :
    (big_m m b q : ℕ) (big_l : F32) (c : DifficultyConfig) → new big_m m b q big_l ≡ ok c → 1 ≤ q
unfolding new
new-per_claim big_m m b q big_l c h =
    let (ordered, h1) = if-ok _ _ _ c h in
    let (some_claim, h2) = if-ok _ _ _ c h1 in nonzero q some_claim
