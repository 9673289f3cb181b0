-- ===== src/Base/Map.antt =====
-- Go maps as association lists: the first entry of a key counts.
use mathlib.Core.Path.{◌≡◌, refl}
use mathlib.Core.Bool.{Bool}
use mathlib.Core.Option.{Option, none, some}
use mathlib.Core.List.{List, [], ◌∷◌}
use native.Mathlib.Omega.{arith}
use akira_mcp.Base.Tests.{if◌then◌else◌}
use akira_mcp.Base.Lists.{All}
use akira_mcp.Base.Equality.{Eq, ◌==◌}

abbrev pub Map {ℓ κ} : Type ℓ → Type κ → Type (ℓ ⊔ κ)
Map K V = List (K × V)

-- Keeps a value that passes the test.
abbrev pub keep_if {ℓ} : {V : Type ℓ} → (V → Bool) → Option V → Option V
keep_if p none = none
keep_if p (some v) = if p v then some v else none

module _ {ℓ κ} {K : Type ℓ} {V : Type κ} ⦃e : Eq K⦄ where
  -- v, ok := m[k]
  unfoldable pub lookup : K → Map K V → Option V
  lookup k [] = none
  lookup k ((j, v) ∷ m) = if k == j then some v else lookup k m

  -- delete(m, k)
  unfoldable pub erase : K → Map K V → Map K V
  erase k [] = []
  erase k ((j, v) ∷ m) = let rest = erase k m in if k == j then rest else (j, v) ∷ rest

  -- m[k] = v
  unfoldable pub insert : K → V → Map K V → Map K V
  unfolding erase
  insert k v m = (k, v) ∷ erase k m

  -- for k, v := range m { if !keep(v) { delete(m, k) } }
  unfoldable pub retain : (V → Bool) → Map K V → Map K V
  unfolding erase
  retain p [] = []
  retain p ((j, v) ∷ m) = let rest = retain p m in if p v then (j, v) ∷ rest else erase j rest

  pub lookup-nil : (k : K) → lookup k [] ≡ none
  unfolding lookup
  lookup-nil k = refl

  pub lookup-erase :
      (j k : K) (m : Map K V) → lookup j (erase k m) ≡ (if j == k then none else lookup j m)
  unfolding lookup erase
  lookup-erase j k [] = ground arith
  lookup-erase j k (_ ∷ m) = ground (arith, lookup-erase j k m)

  pub lookup-insert :
      (j k : K) (v : V) (m : Map K V)
      → lookup j (insert k v m) ≡ (if j == k then some v else lookup j m)
  unfolding lookup insert
  lookup-insert j k v m = ground (arith, lookup-erase j k m)

  pub lookup-retain :
      (j : K) (p : V → Bool) (m : Map K V) → lookup j (retain p m) ≡ keep_if p (lookup j m)
  unfolding lookup retain
  lookup-retain j p [] = refl
  lookup-retain j p ((k, v) ∷ m) =
      ground (arith, lookup-retain j p m, lookup-erase j k (retain p m))

module _ {ℓ κ} {K : Type ℓ} {V : Type κ} ⦃e : Eq K⦄ where
  -- Writing a key hides no key.
  pub lookup-insert-some :
      (j k : K) (v w : V) (m : Map K V)
      → lookup j m ≡ some w
      → (x : V) × (lookup j (insert k v m) ≡ some x)
  lookup-insert-some j k v w m h = elim (e.dec j k) [
    | yes p ↦ (v, ground (arith, lookup-insert j k v m))
    | no p ↦ (w, ground (arith, lookup-insert j k v m))
  ]

module _ {ℓ κ} {K : Type ℓ} {V : Type κ} ⦃e : Eq K⦄ where
  -- No key stands twice.
  abbrev pub NodupKeys : Map K V → Type κ
  NodupKeys [] = Unit
  NodupKeys ((k, _) ∷ m) = (lookup k m ≡ none) × NodupKeys m

  pub erase-NodupKeys : (k : K) (m : Map K V) → NodupKeys m → NodupKeys (erase k m)
  unfolding erase
  erase-NodupKeys k [] u = tt
  erase-NodupKeys k ((j, v) ∷ m) u = ground (arith, erase-NodupKeys k m u.1, lookup-erase j k m)

  pub insert-NodupKeys : (k : K) (v : V) (m : Map K V) → NodupKeys m → NodupKeys (insert k v m)
  unfolding insert
  insert-NodupKeys k v m u = (ground (arith, lookup-erase k k m), erase-NodupKeys k m u)

  pub retain-NodupKeys : (p : V → Bool) (m : Map K V) → NodupKeys m → NodupKeys (retain p m)
  unfolding retain
  retain-NodupKeys p [] u = tt
  retain-NodupKeys p ((j, v) ∷ m) u =
      ground (arith, retain-NodupKeys p m u.1, lookup-retain j p m, erase-NodupKeys j (retain p m))

  module _ {μ} (P : K × V → Type μ) where
    pub All-erase : (k : K) (m : Map K V) → All P m → All P (erase k m)
    unfolding erase
    All-erase k [] a = tt
    All-erase k ((j, v) ∷ m) a = ground (arith, All-erase k m a.1, a.0)

    pub All-retain : (p : V → Bool) (m : Map K V) → All P m → All P (retain p m)
    unfolding retain
    All-retain p [] a = tt
    All-retain p ((j, v) ∷ m) a =
        ground (arith, a.0, All-retain p m a.1, All-erase j (retain p m) (All-retain p m a.1))

    pub All-lookup : (k : K) (v : V) (m : Map K V) → All P m → lookup k m ≡ some v → P (k, v)
    unfolding lookup
    All-lookup k v [] a h = cc
    All-lookup k v ((j, w) ∷ m) a h = elim (e.dec k j) [
      | yes p ↦ ground (arith, a.0)
      | no p ↦ All-lookup k v m a.1 (ground arith)
    ]

pub ruleset map_laws = (lookup-nil, lookup-erase, lookup-insert, lookup-retain)
