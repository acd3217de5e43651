-- ===== src/Base/Sets.antt =====
-- The part of `std::collections::HashSet` that the program uses, as a list without repetitions.
use mathlib.Core.Path.{◌≡◌, refl}
use mathlib.Core.Bool.{not, ◌&&◌, ◌||◌}
use mathlib.Core.List.{List, [], ◌∷◌, ◌++◌}
use native.Mathlib.Omega.{arith}
use package.void_orchestrator.Base.Tests.{Eq, ◌==◌, if◌then◌else◌}
use package.void_orchestrator.Base.Lists.{contains, contains-append}

module _ {ℓ} {A : Type ℓ} ⦃e : Eq A⦄ where
  -- `HashSet::insert`, the set afterwards. It returns whether the value was absent.
  abbrev pub insert : A → List A → List A
  insert a s = if contains s a then s else s ++ (a ∷ [])

  -- `HashSet::remove`, the set afterwards. It returns whether the value was present.
  abbrev pub remove : A → List A → List A
  remove a [] = []
  remove a (x ∷ s) = let rest = remove a s in if x == a then rest else x ∷ rest

  -- `&s - &t`
  abbrev pub difference : List A → List A → List A
  difference [] t = []
  difference (x ∷ s) t = let rest = difference s t in if contains t x then rest else x ∷ rest

  pub contains-insert : (a b : A) (s : List A) → contains (insert a s) b ≡ (contains s b || a == b)
  contains-insert a b s = ground (arith, contains-append s (a ∷ []) b, e.beq_iff a b)

  pub contains-remove :
      (a b : A) (s : List A) → contains (remove a s) b ≡ (contains s b && not (a == b))
  contains-remove a b [] = refl
  contains-remove a b (x ∷ s) =
      ground (arith, contains-remove a b s, e.beq_iff x a, e.beq_iff x b, e.beq_iff a b)

  pub contains-difference :
      (s t : List A) (b : A) → contains (difference s t) b ≡ (contains s b && not (contains t b))
  contains-difference [] t b = refl
  contains-difference (x ∷ s) t b = ground (arith, contains-difference s t b, e.beq_iff x b)
