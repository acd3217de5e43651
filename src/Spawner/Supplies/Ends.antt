-- ===== src/Spawner/Supplies/Ends.antt =====
-- What a map holds when the end of one pair has been taken.
use void_orchestrator.Base.{
  ℕ, zero, suc, ◌+◌, ◌≤◌, ◌≡◌, ◌⊎◌, inl, inr, refl, ◌∙◌, Bool-cases, String, string_eq, ◌==◌,
  Option, some, List, arith,
}
use void_orchestrator.Base.Maps.{get, put, get-put}
use void_orchestrator.RpcMessage.{Fd}
use void_orchestrator.Specification.Counts.{bit}
use void_orchestrator.Spawner.Supplies.{HasEnd, HasPair, Provides, Knows}

zero_or_one : (k : ℕ) → k ≤ 1 → (k ≡ 0) ⊎ (k ≡ 1)
zero_or_one zero le = inl refl
zero_or_one (suc zero) le = inr refl
zero_or_one (suc (suc k)) le = absurd (omega arith)

pub Provides-mono :
    {Has : String → Type 0} (need less : String → ℕ)
    → ((n : String) → less n ≤ need n)
    → Provides Has need
    → Provides Has less
Provides-mono need less le p n = elim (p n) [
  | inl none_left ↦ inl (omega (arith, le n))
  | inr (one, has) ↦ elim (zero_or_one (less n) (omega (arith, le n))) [
    | inl z ↦ inl z
    | inr o ↦ inr (o, has)
  ]
]

pub Knows-mono :
    {Has : String → Type 0} (need less : String → ℕ)
    → ((n : String) → less n ≤ need n)
    → Knows Has need
    → Knows Has less
Knows-mono need less le p n = elim (p n) [
  | inl none_left ↦ inl (omega (arith, le n))
  | inr has ↦ inr has
]

module _ {A : Type 0} (end : A → Option Fd) (map : List (String × A)) (s : String)
    (need less : String → ℕ) (e : (n : String) → need n ≡ bit s n + less n)
    (p : Provides (HasEnd end map) need) where
  pub Provides-found : HasEnd end map s
  Provides-found = elim (p s) [
    | inl none_left ↦ absurd (ground (arith, e s, string_eq.beq_iff s s))
    | inr (_, has) ↦ has
  ]

  pub Provides-taken : (a : A) → Provides (HasEnd end (put s a map)) less
  Provides-taken a n = elim (Bool-cases (s == n)) [
    | inl same ↦ elim (p n) [
      | inl none_left ↦ inl (ground (arith, e n))
      | inr (one, _) ↦ inl (ground (arith, e n))
    ]
    | inr other ↦ elim (p n) [
      | inl none_left ↦ inl (ground (arith, e n))
      | inr (one, (b, fd, there, open_end)) ↦
          inr (ground (arith, e n), (b, fd, rw (get-put, other) there, open_end))
    ]
  ]

module _ {A : Type 0} (map : List (String × A)) (s : String) (a b : A)
    (there : get s map ≡ some a) where
  -- The other end of the pair, and those of the other pairs, stay.
  pub Provides-kept :
      (end : A → Option Fd) (need : String → ℕ)
      → end b ≡ end a
      → Provides (HasEnd end map) need
      → Provides (HasEnd end (put s b map)) need
  Provides-kept end need same_end p n = elim (p n) [
    | inl none_left ↦ inl none_left
    | inr (one, (c, fd, found, open_end)) ↦ elim (Bool-cases (s == n)) [
      | inl same ↦
          let e : s ≡ n = (string_eq.beq_iff s n).0 same in
          let c_is : c ≡ a = cc in
          inr (one, (b, fd, rw (get-put, same) refl, same_end ∙ rw (← c_is) open_end))
      | inr other ↦ inr (one, (c, fd, rw (get-put, other) found, open_end))
    ]
  ]

pub Knows-kept :
    {A : Type 0} (map : List (String × A)) (s : String) (b : A) (need : String → ℕ)
    → Knows (HasPair map) need
    → Knows (HasPair (put s b map)) need
Knows-kept map s b need p n = elim (p n) [
  | inl none_left ↦ inl none_left
  | inr (c, found) ↦ elim (Bool-cases (s == n)) [
    | inl same ↦ inr (b, rw (get-put, same) refl)
    | inr other ↦ inr (c, rw (get-put, other) found)
  ]
]
