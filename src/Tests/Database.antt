-- ===== src/Tests/Database.antt =====
-- A wallet crate for src/l1.rs that checks the descriptors and the network of what it loads.
use Prim.Native.String.{String}
use text.Mathlib.Text.{◌==◌}
use text.Mathlib.TextEquality.{eq_iff}
use mathlib.Core.Bool.{true≢false}
use faucet_api.Common.{
  ℕ, ◌⊎◌, ◌≡◌, refl, sym, ap, ◌∙◌, inl, inr, Bool-cases, ℕ_discrete, Option, none, some, Result, ok,
  err, arith,
}
use faucet_api.L1.Wallet.{BdkWallet}

-- The database holds at most one wallet, its descriptors and its network.
abbrev pub Kept : Type 0
Kept = String × String × ℕ

String-dec : (s t : String) → Dec (s ≡ t)
String-dec s t = elim (Bool-cases (s == t)) [
  | inl e ↦ yes ((eq_iff s t).0 e)
  | inr n ↦ no (λ p. true≢false (sym ((eq_iff s t).1 p) ∙ n))
]

pub Kept-dec : (x y : Kept) → Dec (x ≡ y)
Kept-dec (e, i, n) (e', i', n') = elim (String-dec e e') [
  | no r ↦ no (λ p. r (ap (λ x. x.0) p))
  | yes p ↦ elim (String-dec i i') [
    | no r ↦ no (λ p. r (ap (λ x. x.1) p))
    | yes q ↦ elim (ℕ_discrete n n') [ no r ↦ no (λ p. r (ap (λ x. x.2) p)) | yes t ↦ yes (cc) ]
  ]
]

abbrev checked : {P : Type 0} → Dec P → Kept → Result (Option Kept) (Unit {0})
checked (yes _) w = ok (some w)
checked (no _) w = err tt

checked-yes : {P : Type 0} (d : Dec P) (w : Kept) → P → checked d w ≡ ok (some w)
checked-yes (yes _) w p = refl
checked-yes (no n) w p = absurd (n p)

checked-ok : {P : Type 0} (d : Dec P) (w : Kept) {r : Option Kept} → checked d w ≡ ok r → P
checked-ok (yes p) w h = p
checked-ok (no n) w h = absurd (ground arith)

abbrev pub strict_load :
    String → String → ℕ → Option Kept → Result (Option Kept) (Unit {0}) × Option Kept
strict_load external internal network none = (ok none, none)
strict_load external internal network (some w) =
    (checked (Kept-dec (external, internal, network) w) w, some w)

abbrev pub strict_bdk : BdkWallet ℕ (Option Kept)
strict_bdk = record {
  Wallet = Kept;
  Error = Unit {0};
  new_master = λ network seed. ok "tprv8";
  load_wallet = λ external internal network c. strict_load external internal network c;
  create_wallet = λ external internal network c.
      (ok (external, internal, network), some (external, internal, network));
}

pub strict_load-none :
    (external internal : String) (network : ℕ) (c : Option Kept)
    → c ≡ none
    → (strict_load external internal network c).0 ≡ ok none
strict_load-none external internal network c h = rw h refl

pub strict_load-same :
    (external internal : String) (network : ℕ) (c : Option Kept)
    → c ≡ some (external, internal, network)
    → (w : Kept) × ((strict_load external internal network c).0 ≡ ok (some w))
strict_load-same external internal network c h =
    let w : Kept = (external, internal, network) in (w, rw h (checked-yes (Kept-dec w w) w refl))

pub strict_load-found :
    (external internal : String) (network : ℕ) (c found : Option Kept)
    → (strict_load external internal network c).0 ≡ ok found
    → (c ≡ none) ⊎ (c ≡ some (external, internal, network))
strict_load-found external internal network none found h = inl refl
strict_load-found external internal network (some w) found h =
    inr (ap some (sym (checked-ok (Kept-dec (external, internal, network) w) w h)))

pub strict_load-stored :
    (external internal : String) (network : ℕ) (c : Option Kept)
    → (strict_load external internal network c).1 ≡ c
strict_load-stored external internal network none = refl
strict_load-stored external internal network (some w) = refl

abbrev pub strict_persist : Kept → Option Kept → Result (Unit {0}) (Unit {0}) × (Kept × Option Kept)
strict_persist w c = (ok tt, (w, some w))
