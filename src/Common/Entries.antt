-- ===== src/Common/Entries.antt =====
-- Maps whose keys are distinct, as those of a Go map are.
use mathlib.Core.Path.{◌≡◌}
use mathlib.Core.Option.{none}
use mathlib.Core.List.{[], ◌∷◌}
use mathlib.Core.Logic.{inl, inr}
use native.Mathlib.Omega.{arith}
use csi_driver_trusted_ca.Common.Keys.{Eq, ◌=?◌}
use csi_driver_trusted_ca.Common.Tests.{Bool-cases}
use csi_driver_trusted_ca.Common.Maps.{Dict, lookup, insert, erase, lookup-insert, lookup-erase}

module _ {ℓ} {K V : Type ℓ} ⦃e : Eq K⦄ where
  abbrev pub Distinct : Dict K V → Type ℓ
  Distinct [] = Unit
  Distinct ((k, v) ∷ m) = (lookup k m ≡ none) × Distinct m

  pub Distinct-insert : (k : K) (v : V) (m : Dict K V) → Distinct m → Distinct (insert k v m)
  unfolding insert lookup
  Distinct-insert k v [] _ = (ground arith, tt)
  Distinct-insert k v ((j, w) ∷ m) (h, hs) = elim (Bool-cases (j =? k)) [
    | inl p ↦ rw p (ground (arith, e.beq_iff j k), hs)
    | inr p ↦ rw p (
      ground (arith, lookup-insert k j v m, e.beq_iff j k, e.beq_iff k j),
      Distinct-insert k v m hs,
    )
  ]

  pub Distinct-erase : (k : K) (m : Dict K V) → Distinct m → Distinct (erase k m)
  unfolding erase
  Distinct-erase k [] _ = tt
  Distinct-erase k ((j, w) ∷ m) (h, hs) = elim (Bool-cases (j =? k)) [
    | inl p ↦ rw p (Distinct-erase k m hs)
    | inr p ↦ rw p (ground (arith, lookup-erase k j m), Distinct-erase k m hs)
  ]
