-- ===== src/Prelude/Maps.antt =====
-- Rust's `HashMap` as an association list of which each key is listed once.
use mathlib.Core.Path.{◌≡◌}
use mathlib.Core.Bool.{not}
use mathlib.Core.Option.{Option, none, some}
use mathlib.Core.List.{List, [], ◌∷◌}
use native.Mathlib.Omega.{arith}
use evm_amm_search.Prelude.Tests.{if◌then◌else◌, unwrap_or}
use evm_amm_search.Prelude.Equality.{PartialEq, ◌==◌, eq_refl}
use evm_amm_search.Prelude.Lists.{keep}

abbrev pub HashMap {ℓ κ} : Type ℓ → Type κ → Type (ℓ ⊔ κ)
HashMap K V = List (K × V)

module _ {ℓ κ} {K : Type ℓ} {V : Type κ} ⦃e : PartialEq K⦄ where
  unfoldable pub lookup : K → HashMap K V → Option V
  lookup key [] = none
  lookup key ((k, v) ∷ rest) = if k == key then some v else lookup key rest

  unfoldable pub map_remove : K → HashMap K V → HashMap K V
  map_remove key entries = keep (λ entry. not (entry.0 == key)) entries

  unfoldable pub map_insert : K → V → HashMap K V → HashMap K V
  map_insert key value entries = (key, value) ∷ map_remove key entries

  -- `map.entry(key).or_default()`, read only.
  abbrev pub lookup_or : K → V → HashMap K V → V
  lookup_or key default entries = unwrap_or (lookup key entries) default

  pub lookup-map_remove :
      (j k : K) (m : HashMap K V)
      → lookup j (map_remove k m) ≡ (if k == j then none else lookup j m)
  unfolding lookup map_remove
  lookup-map_remove j k [] = ground arith
  lookup-map_remove j k ((i, v) ∷ m) =
      ground (arith, e.eq_iff i k, e.eq_iff k j, e.eq_iff i j, lookup-map_remove j k m)

  pub lookup-map_insert :
      (j k : K) (v : V) (m : HashMap K V)
      → lookup j (map_insert k v m) ≡ (if k == j then some v else lookup j m)
  unfolding lookup map_insert
  lookup-map_insert j k v m = ground (arith, lookup-map_remove j k m)

  pub lookup-map_insert_self :
      (k : K) (v : V) (m : HashMap K V) → lookup k (map_insert k v m) ≡ some v
  lookup-map_insert_self k v m = ground (arith, lookup-map_insert k k v m, eq_refl k)
