-- ===== src/Prelude/Map.antt =====
-- A Go map as an association list. Iteration goes through the list, in an order that the map keeps.
use compute_sentry.Prelude.Tests.{if◌then◌else◌, Eq, ◌==◌, ==_iff, Bool-cases}
use compute_sentry.Prelude.Lists.{All}
use mathlib.Core.Path.{◌≡◌}
use mathlib.Core.Logic.{inl, inr}
use mathlib.Core.Option.{Option, none, some}
use mathlib.Core.List.{List, [], ◌∷◌}
use native.Mathlib.Omega.{arith}

abbrev pub Map {ℓ κ} : Type ℓ → Type κ → Type (ℓ ⊔ κ)
Map K V = List (K × V)

module _ {ℓ κ} {K : Type ℓ} {V : Type κ} ⦃e : Eq K⦄ where
  -- v, ok := m[k]
  unfoldable pub lookup : K → Map K V → Option V
  lookup k [] = none
  lookup k ((j, v) ∷ m) = if j == k then some v else lookup k m

  -- delete(m, k)
  unfoldable pub erase : K → Map K V → Map K V
  erase k [] = []
  erase k ((j, v) ∷ m) = let rest = erase k m in if j == k then rest else (j, v) ∷ rest

  -- m[k] = v
  unfoldable pub insert : K → V → Map K V → Map K V
  insert k v m = (k, v) ∷ erase k m

  -- Each key stands once.
  abbrev pub HasKeysOnce : Map K V → Type κ
  HasKeysOnce [] = Unit
  HasKeysOnce ((j, v) ∷ m) = (lookup j m ≡ none) × HasKeysOnce m

module _ {ℓ κ} {K : Type ℓ} {V : Type κ} ⦃e : Eq K⦄ where
  pub lookup-erase :
      (k j : K) (m : Map K V) → lookup j (erase k m) ≡ (if k == j then none else lookup j m)
  unfolding lookup erase
  lookup-erase k j [] = ground arith
  lookup-erase k j ((i, v) ∷ m) =
      ground (arith, lookup-erase k j m, ==_iff i k, ==_iff i j, ==_iff k j)

  pub lookup-insert :
      (k j : K) (v : V) (m : Map K V)
      → lookup j (insert k v m) ≡ (if k == j then some v else lookup j m)
  unfolding lookup insert
  lookup-insert k j v m = ground (arith, lookup-erase k j m)

  pub erase-HasKeysOnce : (k : K) (m : Map K V) → HasKeysOnce m → HasKeysOnce (erase k m)
  unfolding erase
  erase-HasKeysOnce k [] h = h
  erase-HasKeysOnce k ((i, v) ∷ m) h = ground (arith, lookup-erase k i m, erase-HasKeysOnce k m h.1)

  pub insert-HasKeysOnce :
      (k : K) (v : V) (m : Map K V) → HasKeysOnce m → HasKeysOnce (insert k v m)
  unfolding insert
  insert-HasKeysOnce k v m h =
      ground (arith, lookup-erase k k m, ==_iff k k, erase-HasKeysOnce k m h)

module _ {ℓ κ μ} {K : Type ℓ} {V : Type κ} ⦃e : Eq K⦄ (P : K × V → Type μ) where
  pub erase-All : (k : K) (m : Map K V) → All P m → All P (erase k m)
  unfolding erase
  erase-All k [] h = h
  erase-All k ((i, v) ∷ m) h = elim (Bool-cases (i == k)) [
    | inl same ↦ rw same (erase-All k m h.1)
    | inr other ↦ rw other (h.0, erase-All k m h.1)
  ]

  pub insert-All : (k : K) (v : V) (m : Map K V) → P (k, v) → All P m → All P (insert k v m)
  unfolding insert
  insert-All k v m p h = (p, erase-All k m h)
