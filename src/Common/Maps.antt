-- ===== src/Common/Maps.antt =====
-- Go maps as association lists, over any key type with a test `==`.
use distributed_study.Common.Tests.{if◌then◌else◌}
use distributed_study.Common.Keys.{Key, ◌==◌}
use mathlib.Core.Path.{◌≡◌, refl}
use mathlib.Core.List.{List, [], ◌∷◌}
use mathlib.Core.Option.{Option, none, some}
use native.Mathlib.Omega.{arith}

abbrev pub Dict {ℓ κ} : Type ℓ → Type κ → Type (ℓ ⊔ κ)
Dict K V = List (K × V)

module _ {ℓ κ} {K : Type ℓ} {V : Type κ} ⦃e : Key K⦄ where
  -- `m[k]` with its second result.
  unfoldable pub lookup : K → Dict K V → Option V
  lookup k [] = none
  lookup k ((a, b) ∷ m) = if a == k then some b else lookup k m

  -- `delete(m, k)`.
  unfoldable pub erase : K → Dict K V → Dict K V
  erase k [] = []
  erase k ((a, b) ∷ m) = if a == k then erase k m else (a, b) ∷ erase k m

  -- `m[k] = v`.
  unfoldable pub insert : K → V → Dict K V → Dict K V
  insert k v [] = (k, v) ∷ []
  insert k v ((a, b) ∷ m) = if a == k then (k, v) ∷ m else (a, b) ∷ insert k v m

  pub lookup-erase :
      (k q : K) (m : Dict K V) → lookup q (erase k m) ≡ (if k == q then none else lookup q m)
  unfolding lookup erase
  lookup-erase k q [] = ground arith
  lookup-erase k q ((a, b) ∷ m) =
      ground (arith, lookup-erase k q m, e.same_iff k q, e.same_iff a k, e.same_iff a q)

  pub lookup-insert :
      (k q : K) (v : V) (m : Dict K V)
      → lookup q (insert k v m) ≡ (if k == q then some v else lookup q m)
  unfolding lookup insert
  lookup-insert k q v [] = refl
  lookup-insert k q v ((a, b) ∷ m) =
      ground (arith, lookup-insert k q v m, e.same_iff k q, e.same_iff a k, e.same_iff a q)
