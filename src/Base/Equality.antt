-- ===== src/Base/Equality.antt =====
-- Go's `==`, for every type whose equality is decided.
use Prim.Native.Nat.{ℕ}
use mathlib.Core.Path.{◌≡◌, refl, ap₂}
use mathlib.Core.Logic.{ite, ◌≢◌}
use mathlib.Core.Bool.{Bool, true, false}
use mathlib.Core.List.{List, [], ◌∷◌}
use native.Mathlib.Decide.{ℕ_discrete}
use native.Mathlib.Omega.{arith}

pub record Eq {ℓ} (A : Type ℓ) : Type ℓ where
  pub dec : Discrete A

module _ {ℓ} {A : Type ℓ} ⦃e : Eq A⦄ where
  infix 50 ◌==◌
  abbrev pub ◌==◌ : A → A → Bool
  a == b = ite (e.dec a b) true false

  pub ==-refl : (a : A) → (a == a) ≡ true
  ==-refl a = ground arith

  pub ==-ne : (a b : A) → a ≢ b → (a == b) ≡ false
  ==-ne a b h = ground arith

  list_dec : Discrete (List A)
  list_dec [] [] = yes refl
  list_dec [] (b ∷ bs) = no (λ p. cc)
  list_dec (a ∷ as') [] = no (λ p. cc)
  list_dec (a ∷ as') (b ∷ bs) = elim (e.dec a b) [
    | no n ↦ no (λ p. n (cc))
    | yes p ↦ elim (list_dec as' bs) [ yes q ↦ yes (ap₂ ◌∷◌ p q) | no n ↦ no (λ q. n (cc)) ]
  ]

  -- Shut in proofs, where a split on `s == t` yields the equation or its negation.
  instance unfoldable pub list_eq : Eq (List A)
  unfolding list_dec
  list_eq = record { dec = list_dec }

instance unfoldable pub nat_eq : Eq ℕ
unfolding ℕ_discrete
nat_eq = record { dec = ℕ_discrete }
