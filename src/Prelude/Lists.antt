-- ===== src/Prelude/Lists.antt =====
-- Lists measured by native numbers, a predicate on all items, and maps as functions.
use Prim.Native.Nat.{ℕ, suc, ◌+◌}
use mathlib.Core.Path.{◌≡◌}
use mathlib.Core.Option.{Option, none, some}
use mathlib.Core.List.{List, [], ◌∷◌, ◌++◌}
use native.Mathlib.Omega.{arith}
use uq.Prelude.Tests.{◌==◌, if◌then◌else◌}

module _ {ℓ} {A : Type ℓ} where
  abbrev pub length : List A → ℕ
  length [] = 0
  length (x ∷ xs) = suc (length xs)

  pub length-append : (xs ys : List A) → length (xs ++ ys) ≡ length xs + length ys
  length-append [] ys = omega arith
  length-append (x ∷ xs) ys = omega (arith, length-append xs ys)

module _ {ℓ κ} {A : Type ℓ} (P : A → Type κ) where
  abbrev pub All : List A → Type κ
  All [] = Unit
  All (x ∷ xs) = P x × All xs

  pub All-append : (xs ys : List A) → All xs → All ys → All (xs ++ ys)
  All-append [] ys hx hy = hy
  All-append (x ∷ xs) ys (px, hx) hy = (px, All-append xs ys hx hy)

-- A Go map with numbers for keys, read but never walked through: m[k] = v and delete(m, k).
abbrev pub NumberMap {ℓ} : Type ℓ → Type ℓ
NumberMap V = ℕ → Option V

module _ {ℓ} {V : Type ℓ} where
  abbrev pub put : ℕ → V → NumberMap V → NumberMap V
  put k v m j = if j == k then some v else m j

  abbrev pub drop_key : ℕ → NumberMap V → NumberMap V
  drop_key k m j = if j == k then none else m j
