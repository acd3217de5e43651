-- ===== src/Paths.antt =====
-- The operations of `std::path` that the program uses.
use void_orchestrator.Base.{
  String, ◌≡◌, ◌↔◌, Bool, true, false, ◌&&◌, Option, none, some, List, [], ◌∷◌, ◌++◌, arith, Eq,
  ◌==◌, string_eq, if◌then◌else◌,
}
use text.Mathlib.TextEquality.{eq_iff}
use void_orchestrator.Specification.{FilePath}

abbrev pub absolute : List String → FilePath
absolute components = record { is_absolute = true; components = components }

abbrev pub relative : List String → FilePath
relative components = record { is_absolute = false; components = components }

abbrev components_beq : List String → List String → Bool
components_beq [] [] = true
components_beq (x ∷ xs) (y ∷ ys) = x == y && components_beq xs ys
components_beq _ _ = false

pub components_beq_iff : (xs ys : List String) → (components_beq xs ys ≡ true) ↔ (xs ≡ ys)
components_beq_iff [] [] = ground arith
components_beq_iff [] (y ∷ ys) = ground arith
components_beq_iff (x ∷ xs) [] = ground arith
components_beq_iff (x ∷ xs) (y ∷ ys) = ground (arith, eq_iff x y, components_beq_iff xs ys)

abbrev bool_beq : Bool → Bool → Bool
bool_beq true b = b
bool_beq false true = false
bool_beq false false = true

abbrev path_beq : FilePath → FilePath → Bool
path_beq p q = bool_beq p.is_absolute q.is_absolute && components_beq p.components q.components

pub path_beq_iff : (p q : FilePath) → (path_beq p q ≡ true) ↔ (p ≡ q)
path_beq_iff p q = ground (arith, components_beq_iff p.components q.components)

instance abbrev pub path_eq : Eq FilePath
path_eq = record { beq = path_beq; beq_iff = path_beq_iff }

-- `base.join(p)`
abbrev pub join : FilePath → FilePath → FilePath
join base p =
    if p.is_absolute
    then p
    else record { is_absolute = base.is_absolute; components = base.components ++ p.components }

-- `p.strip_prefix("/")`
abbrev pub strip_root : FilePath → Option FilePath
strip_root p = if p.is_absolute then some (relative p.components) else none

-- `p.strip_prefix("/").unwrap_or(p)`
abbrev pub strip_root_or_self : FilePath → FilePath
strip_root_or_self p = elim (strip_root p) [ none ↦ p | some q ↦ q ]

abbrev pub all_but_last : List String → List String
all_but_last [] = []
all_but_last (x ∷ []) = []
all_but_last (x ∷ y ∷ xs) = x ∷ all_but_last (y ∷ xs)

-- `p.parent()`
abbrev pub parent : FilePath → Option FilePath
parent p = elim p.components [
  | [] ↦ none
  | x ∷ xs ↦ some (record { is_absolute = p.is_absolute; components = all_but_last (x ∷ xs) })
]
