-- ===== src/Prelude/Maps.antt =====
-- A Go map from strings as an association list. A walk over the map goes in the order of the list;
-- Go leaves that order open.
use mathlib.Core.Path.{◌≡◌}
use mathlib.Core.Logic.{inl, inr}
use mathlib.Core.Option.{Option, none, some}
use mathlib.Core.List.{List, [], ◌∷◌}
use native.Mathlib.Omega.{arith}
use uq.Prelude.Tests.{if◌then◌else◌, Bool-cases}
use uq.Prelude.Text.{Bytes, bytes_eq, bytes_eq_refl, eq_of_bytes_eq}

abbrev pub Dict {ℓ} : Type ℓ → Type ℓ
Dict V = List (Bytes × V)

module _ {ℓ} {V : Type ℓ} where
  unfoldable pub lookup : Bytes → Dict V → Option V
  lookup k [] = none
  lookup k ((j, v) ∷ m) = if bytes_eq k j then some v else lookup k m

  -- delete(m, k)
  unfoldable pub without : Bytes → Dict V → Dict V
  without k [] = []
  without k ((j, v) ∷ m) = let rest = without k m in if bytes_eq k j then rest else (j, v) ∷ rest

  -- m[k] = v
  unfoldable pub insert : Bytes → V → Dict V → Dict V
  unfolding without
  insert k v m = (k, v) ∷ without k m

  pub lookup-without :
      (k j : Bytes) (m : Dict V)
      → lookup j (without k m) ≡ (if bytes_eq j k then none else lookup j m)
  unfolding lookup without
  lookup-without k j [] = ground arith
  lookup-without k j ((i, v) ∷ m) = ground (
    arith,
    lookup-without k j m,
    eq_of_bytes_eq k i,
    eq_of_bytes_eq j i,
    eq_of_bytes_eq j k,
    bytes_eq_refl i,
    bytes_eq_refl j,
  )

  pub lookup-insert :
      (k j : Bytes) (v : V) (m : Dict V)
      → lookup j (insert k v m) ≡ (if bytes_eq j k then some v else lookup j m)
  unfolding lookup insert
  lookup-insert k j v m = ground (arith, lookup-without k j m)

  -- No key occurs twice.
  abbrev pub NodupKeys : Dict V → Type ℓ
  NodupKeys [] = Unit {ℓ}
  NodupKeys ((k, v) ∷ m) = (lookup k m ≡ none) × NodupKeys m

  pub lookup-tail :
      (k j : Bytes) (v x : V) (m : Dict V)
      → lookup k m ≡ none
      → lookup j m ≡ some x
      → lookup j ((k, v) ∷ m) ≡ some x
  unfolding lookup
  lookup-tail k j v x m n e = ground (arith, eq_of_bytes_eq j k)

  pub without-NodupKeys : (k : Bytes) (m : Dict V) → NodupKeys m → NodupKeys (without k m)
  unfolding without
  without-NodupKeys k [] u = tt
  without-NodupKeys k ((j, v) ∷ m) (fresh, u) = elim (Bool-cases (bytes_eq k j)) [
    | inl e ↦ rw e (without-NodupKeys k m u)
    | inr e ↦ rw e (ground (arith, lookup-without k j m), without-NodupKeys k m u)
  ]

  pub insert-NodupKeys : (k : Bytes) (v : V) (m : Dict V) → NodupKeys m → NodupKeys (insert k v m)
  unfolding insert
  insert-NodupKeys k v m u =
      (ground (arith, lookup-without k k m, bytes_eq_refl k), without-NodupKeys k m u)
