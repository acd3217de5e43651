-- ===== src/Specification/Soundness/Loops.antt =====
-- How each loop of `validate` ends: with the set that it was to build, or at a name that breaks
-- its rule.
use void_orchestrator.Base.{
  ℕ, ◌+◌, ◌≤◌, ◌<◌, String, ◌≡◌, true, false, List, [], ◌∷◌, arith, count, count-append, contains,
  string_eq, if◌then◌else◌, Bool-cases, inl, inr, ⊤, ◌==◌,
}
use text.Mathlib.TextEquality.{eq_iff}
use void_orchestrator.Base.Sets.{insert, remove, contains-insert, contains-remove}
use void_orchestrator.Failure.{Error, Result, ok, err}
use void_orchestrator.Specification.Validate.{
  insert_unique, insert_all, remove_all, require_all, require_none,
}

-- 1 if the set holds the name.
abbrev pub held : List String → String → ℕ
held set a = if contains set a then 1 else 0

abbrev bit : String → String → ℕ
bit s n = if s == n then 1 else 0

held-insert :
    (x a : String) (set : List String)
    → contains set x ≡ false
    → held (insert x set) a ≡ held set a + bit x a
held-insert x a set new = ground (arith, contains-insert x a set, eq_iff x a)

count-insert :
    (x a : String) (set : List String)
    → contains set x ≡ false
    → count a (insert x set) ≡ count a set + bit x a
count-insert x a set new = rw new (omega (arith, count-append a set (x ∷ [])))

held-remove :
    (x a : String) (set : List String)
    → contains set x ≡ true
    → held (remove x set) a + bit x a ≡ held set a
held-remove x a set old = ground (arith, contains-remove x a set, eq_iff x a)

pub held-insert_all :
    (set xs : List String) (a : String)
    → held (insert_all set xs) a ≡ (if contains set a then 1 else held xs a)
unfolding insert_all
held-insert_all set [] a = ground arith
held-insert_all set (x ∷ xs) a =
    ground (arith, held-insert_all (insert x set) xs a, contains-insert x a set)

module _ (fail : String → Error) where
  pub data Unique (set xs : List String) : Result (List String) → Type 0 where
    unique :
        {r : List String}
        → ((a : String)
            → (held r a ≡ held set a + count a xs) × (count a r ≡ count a set + count a xs))
        → Unique set xs (ok r)
    repeated : (a : String) → 2 ≤ held set a + count a xs → Unique set xs (err (fail a))

  Unique-cons :
      (x : String) {set xs : List String} {r : Result (List String)}
      → contains set x ≡ false
      → Unique (insert x set) xs r
      → Unique set (x ∷ xs) r
  Unique-cons x {set} new (unique h) =
      unique (λ a. omega (arith, h a, held-insert x a set new, count-insert x a set new))
  Unique-cons x {set} new (repeated a h) = repeated a (omega (arith, held-insert x a set new))

  pub insert_unique-Unique : (set xs : List String) → Unique set xs (insert_unique fail set xs)
  unfolding insert_unique
  insert_unique-Unique set [] = unique (λ a. omega arith)
  insert_unique-Unique set (x ∷ xs) = elim (Bool-cases (contains set x)) [
    | inl old ↦ rw old (repeated x (ground (arith, eq_iff x x)))
    | inr new ↦ rw new (rw new at (Unique-cons x new (insert_unique-Unique (insert x set) xs)))
  ]

  pub data Removed (set xs : List String) : Result (List String) → Type 0 where
    removed :
        {r : List String}
        → ((a : String) → held r a + count a xs ≡ held set a)
        → Removed set xs (ok r)
    missing : (a : String) → held set a < count a xs → Removed set xs (err (fail a))

  Removed-cons :
      (x : String) {set xs : List String} {r : Result (List String)}
      → contains set x ≡ true
      → Removed (remove x set) xs r
      → Removed set (x ∷ xs) r
  Removed-cons x {set} old (removed h) = removed (λ a. omega (arith, h a, held-remove x a set old))
  Removed-cons x {set} old (missing a h) = missing a (omega (arith, held-remove x a set old))

  pub remove_all-Removed : (set xs : List String) → Removed set xs (remove_all fail set xs)
  unfolding remove_all
  remove_all-Removed set [] = removed (λ a. omega arith)
  remove_all-Removed set (x ∷ xs) = elim (Bool-cases (contains set x)) [
    | inl old ↦ rw old (Removed-cons x old (remove_all-Removed (remove x set) xs))
    | inr new ↦ rw new (missing x (ground (arith, eq_iff x x)))
  ]

  pub data Required (set xs : List String) : Result ⊤ → Type 0 where
    required : ((a : String) → held xs a ≤ held set a) → Required set xs (ok tt)
    absent : (a : String) → held xs a ≡ 1 → held set a ≡ 0 → Required set xs (err (fail a))

  Required-cons :
      (x : String) {set xs : List String} {r : Result ⊤}
      → contains set x ≡ true
      → Required set xs r
      → Required set (x ∷ xs) r
  Required-cons x {set} {xs} old (required h) = required (λ a. ground (arith, h a, eq_iff x a))
  Required-cons x old (absent a h k) = absent a (ground arith) k

  pub require_all-Required : (set xs : List String) → Required set xs (require_all fail set xs)
  unfolding require_all
  require_all-Required set [] = required (λ a. omega arith)
  require_all-Required set (x ∷ xs) = elim (Bool-cases (contains set x)) [
    | inl old ↦ rw old (Required-cons x old (require_all-Required set xs))
    | inr new ↦ rw new (absent x (ground (arith, eq_iff x x)) (ground arith))
  ]

  pub data Empty (xs : List String) : Result ⊤ → Type 0 where
    empty : ((a : String) → count a xs ≡ 0) → Empty xs (ok tt)
    first : (a : String) → 1 ≤ count a xs → Empty xs (err (fail a))

  pub require_none-Empty : (xs : List String) → Empty xs (require_none fail xs)
  unfolding require_none
  require_none-Empty [] = empty (λ a. omega arith)
  require_none-Empty (x ∷ xs) = first x (ground (arith, eq_iff x x))
