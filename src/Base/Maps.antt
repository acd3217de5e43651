-- ===== src/Base/Maps.antt =====
-- The part of `std::collections::HashMap` that the program uses, as a list of its entries.
use mathlib.Core.Path.{◌≡◌, refl}
use mathlib.Core.Option.{Option, none, some}
use mathlib.Core.List.{List, [], ◌∷◌}
use native.Mathlib.Omega.{arith}
use package.void_orchestrator.Base.Tests.{Eq, ◌==◌, if◌then◌else◌}

module _ {ℓ κ} {K : Type ℓ} {A : Type κ} ⦃e : Eq K⦄ where
  -- `HashMap::get`
  abbrev pub get : K → List (K × A) → Option A
  get k [] = none
  get k ((j, a) ∷ m) = let rest = get k m in if j == k then some a else rest

  -- `HashMap::insert`, the map afterwards: the value of a key that is present is replaced.
  abbrev pub put : K → A → List (K × A) → List (K × A)
  put k a [] = (k, a) ∷ []
  put k a ((j, b) ∷ m) = let rest = put k a m in if j == k then (k, a) ∷ m else (j, b) ∷ rest

  pub get-put :
      (k j : K) (a : A) (m : List (K × A))
      → get k (put j a m) ≡ (if j == k then some a else get k m)
  get-put k j a [] = refl
  get-put k j a ((i, b) ∷ m) =
      ground (arith, get-put k j a m, e.beq_iff i j, e.beq_iff j k, e.beq_iff i k)
