-- ===== src/Base/Maps.antt =====
-- Maps with text keys (`HashMap`, `DashMap`) as association lists: a read takes the first entry of
-- its key, and a write replaces it.
use mathlib.Core.Path.{◌≡◌, refl}
use mathlib.Core.Logic.{◌≢◌}
use mathlib.Core.Option.{Option, none, some}
use mathlib.Core.List.{List, [], ◌∷◌}
use native.Mathlib.Omega.{arith}
use object_storage_proxy.Base.Tests.{if◌then◌else◌}
use object_storage_proxy.Base.Text.{Bytes, beq, beq_iff, beq_refl}

abbrev pub Assoc {ℓ} : Type ℓ → Type ℓ
Assoc V = List (Bytes × V)

module _ {ℓ} {V : Type ℓ} where
  unfoldable pub lookup : Bytes → Assoc V → Option V
  lookup k [] = none
  lookup k ((j, v) ∷ m) = if beq j k then some v else lookup k m

  unfoldable pub remove : Bytes → Assoc V → Assoc V
  remove k [] = []
  remove k ((j, v) ∷ m) = let rest = remove k m in if beq j k then rest else (j, v) ∷ rest

  unfoldable pub insert : Bytes → V → Assoc V → Assoc V
  insert k v m = (k, v) ∷ remove k m

  pub lookup-nil : (k : Bytes) → lookup k [] ≡ none
  unfolding lookup
  lookup-nil k = refl

  pub lookup-remove :
      (k j : Bytes) (m : Assoc V) → lookup j (remove k m) ≡ (if beq k j then none else lookup j m)
  unfolding lookup remove
  lookup-remove k j [] = ground arith
  lookup-remove k j ((i, v) ∷ m) =
      ground (arith, lookup-remove k j m, beq_iff i k, beq_iff i j, beq_iff k j)

  pub lookup-insert :
      (k j : Bytes) (v : V) (m : Assoc V)
      → lookup j (insert k v m) ≡ (if beq k j then some v else lookup j m)
  unfolding lookup insert
  lookup-insert k j v m = ground (arith, lookup-remove k j m)

  pub lookup-insert_self : (k : Bytes) (v : V) (m : Assoc V) → lookup k (insert k v m) ≡ some v
  lookup-insert_self k v m = simp (lookup-insert, beq_refl)

  pub lookup-insert_ne :
      (k j : Bytes) (v : V) (m : Assoc V) → k ≢ j → lookup j (insert k v m) ≡ lookup j m
  lookup-insert_ne k j v m h = ground (arith, lookup-insert k j v m, beq_iff k j)
