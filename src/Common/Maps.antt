-- ===== src/Common/Maps.antt =====
-- Go maps as association lists. The order of the entries is the order of one iteration of the map:
-- a theorem over every list is a theorem over every iteration order.
use mathlib.Core.Path.{◌≡◌, refl, ap}
use mathlib.Core.Bool.{Bool}
use mathlib.Core.Option.{Option, none, some}
use mathlib.Core.List.{List, [], ◌∷◌}
use native.Mathlib.Omega.{arith}
use csi_driver_trusted_ca.Common.Keys.{Eq, ◌=?◌}
use csi_driver_trusted_ca.Common.Tests.{if◌then◌else◌}

abbrev pub Dict {ℓ} : Type ℓ → Type ℓ → Type ℓ
Dict K V = List (K × V)

module _ {ℓ} {K V : Type ℓ} ⦃e : Eq K⦄ where
  -- v, ok := m[k]
  unfoldable pub lookup : K → Dict K V → Option V
  lookup k [] = none
  lookup k ((j, v) ∷ m) = if j =? k then some v else lookup k m

  -- m[k] = v
  unfoldable pub insert : K → V → Dict K V → Dict K V
  insert k v [] = (k, v) ∷ []
  insert k v ((j, w) ∷ m) = if j =? k then (k, v) ∷ m else (j, w) ∷ insert k v m

  -- delete(m, k)
  unfoldable pub erase : K → Dict K V → Dict K V
  erase k [] = []
  erase k ((j, w) ∷ m) = let rest = erase k m in if j =? k then rest else (j, w) ∷ rest

  -- the entries whose key fails the test
  unfoldable pub drop_where : (K → Bool) → Dict K V → Dict K V
  drop_where p [] = []
  drop_where p ((j, w) ∷ m) = let rest = drop_where p m in if p j then rest else (j, w) ∷ rest

  pub lookup-insert :
      (k j : K) (v : V) (m : Dict K V)
      → lookup j (insert k v m) ≡ (if k =? j then some v else lookup j m)
  unfolding lookup insert
  lookup-insert k j v [] = refl
  lookup-insert k j v ((i, w) ∷ m) =
      ground (arith, e.beq_iff k j, e.beq_iff i k, e.beq_iff i j, lookup-insert k j v m)

  pub lookup-erase :
      (k j : K) (m : Dict K V) → lookup j (erase k m) ≡ (if k =? j then none else lookup j m)
  unfolding lookup erase
  lookup-erase k j [] = ground arith
  lookup-erase k j ((i, w) ∷ m) =
      ground (arith, e.beq_iff k j, e.beq_iff i k, e.beq_iff i j, lookup-erase k j m)

  pub lookup-drop_where :
      (p : K → Bool) (j : K) (m : Dict K V)
      → lookup j (drop_where p m) ≡ (if p j then none else lookup j m)
  unfolding lookup drop_where
  lookup-drop_where p j [] = ground arith
  lookup-drop_where p j ((i, w) ∷ m) =
      ground (arith, e.beq_iff i j, ap p {x = i} {y = j}, lookup-drop_where p j m)

  unfoldable pub keys : Dict K V → List K
  keys [] = []
  keys ((k, v) ∷ m) = k ∷ keys m
