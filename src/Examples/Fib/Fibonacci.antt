-- ===== src/Examples/Fib/Fibonacci.antt =====
-- examples/fib/main.rs: what `fib` returns, against the Fibonacci numbers.
use void_orchestrator.Base.{
  ℕ, zero, suc, ◌+◌, ◌-◌, ◌%◌, ◌^◌, ◌≤◌, ◌<◌, ◌≡◌, refl, sym, ap, ◌∙◌, inl, inr, Bool, true, false,
  Bool-cases, none, some, arith, leb, ltb, if◌then◌else◌,
}
use void_orchestrator.Examples.Fib.{add_u64, fib_loop, fib}

-- The Fibonacci numbers, as they are defined.
pub fibonacci : ℕ → ℕ
fibonacci zero = 0
fibonacci (suc zero) = 1
fibonacci (suc (suc n)) = fibonacci n + fibonacci (suc n)

-- The loop, on numbers of any size.
iterate : ℕ → ℕ → ℕ → ℕ
iterate zero a b = a
iterate (suc rounds) a b = iterate rounds b (a + b)

iterate-fibonacci :
    (rounds k : ℕ) → iterate rounds (fibonacci k) (fibonacci (suc k)) ≡ fibonacci (rounds + k)
unfolding iterate fibonacci
iterate-fibonacci zero k = ap fibonacci (omega arith)
iterate-fibonacci (suc rounds) k = iterate-fibonacci rounds (suc k) ∙ ap fibonacci (omega arith)

iterate-fibonacci_first : (n : ℕ) → fibonacci n ≡ iterate n 0 1
unfolding fibonacci
iterate-fibonacci_first n = sym (iterate-fibonacci n 0 ∙ ap fibonacci (omega arith))

fibonacci-suc : (n : ℕ) → fibonacci n ≤ fibonacci (suc n)
unfolding fibonacci
fibonacci-suc zero = omega arith
fibonacci-suc (suc n) = omega arith

fibonacci_mono : (d n : ℕ) → fibonacci n ≤ fibonacci (d + n)
fibonacci_mono zero n =
    let e : fibonacci n ≡ fibonacci (0 + n) = ap fibonacci (omega arith) in omega (arith, e)
fibonacci_mono (suc d) n =
    let e : fibonacci (suc (d + n)) ≡ fibonacci (suc d + n) = ap fibonacci (omega arith) in
    omega (arith, e, fibonacci_mono d n, fibonacci-suc (d + n))

-- The last Fibonacci number below 2^64, and the first that is not.
fibonacci_93 : fibonacci 93 ≡ 12200160415121876738
unfolding iterate
fibonacci_93 = iterate-fibonacci_first 93

fibonacci_94 : fibonacci 94 ≡ 19740274219868223167
unfolding iterate
fibonacci_94 = iterate-fibonacci_first 94

fits : (n : ℕ) → n ≤ 93 → fibonacci n < 2 ^ 64
fits n le =
    let e : fibonacci (93 - n + n) ≡ fibonacci 93 = ap fibonacci (omega arith) in
    omega (arith, e, fibonacci_93, fibonacci_mono (93 - n) n)

wrapped : ℕ → ℕ
wrapped n = n % 2 ^ 64

add_u64-wraps : (a b : ℕ) → add_u64 false (wrapped a) (wrapped b) ≡ some (wrapped (a + b))
unfolding add_u64 wrapped
add_u64-wraps a b = elim (Bool-cases (ltb (a % 2 ^ 64 + b % 2 ^ 64) (2 ^ 64))) [
  | inl small ↦ rw small (ap some (ground arith))
  | inr large ↦ rw large (ap some (ground arith))
]

-- A round, if the sum is there or if it is not.
fib_loop-suc :
    (checks : Bool) (rounds a b c : ℕ)
    → add_u64 checks a b ≡ some c
    → fib_loop checks (suc rounds) a b ≡ fib_loop checks rounds b c
unfolding fib_loop
fib_loop-suc checks rounds a b c e = rw (e, fib_loop) refl

fib_loop_panics :
    (checks : Bool) (rounds a b : ℕ)
    → add_u64 checks a b ≡ none
    → fib_loop checks (suc rounds) a b ≡ none
unfolding fib_loop
fib_loop_panics checks rounds a b e = rw (e, fib_loop) refl

fib_loop-wraps :
    (rounds k : ℕ)
    → fib_loop false rounds (wrapped (fibonacci k)) (wrapped (fibonacci (suc k)))
      ≡ some (wrapped (fibonacci (rounds + k)))
unfolding fib_loop fibonacci
fib_loop-wraps zero k = ap (λ n. some (wrapped (fibonacci n))) (omega arith)
fib_loop-wraps (suc rounds) k =
    fib_loop-suc false rounds _ _ _ (add_u64-wraps (fibonacci k) (fibonacci (suc k)))
    ∙ (fib_loop-wraps rounds (suc k) ∙ ap (λ n. some (wrapped (fibonacci n))) (omega arith))

add_u64-checked : (a b : ℕ) → a + b < 2 ^ 64 → add_u64 true a b ≡ some (a + b)
unfolding add_u64
add_u64-checked a b small = ground arith

add_u64-overflows : (a b : ℕ) → 2 ^ 64 ≤ a + b → add_u64 true a b ≡ none
unfolding add_u64
add_u64-overflows a b large = ground arith

fib_loop-checked :
    (rounds k : ℕ)
    → rounds + k ≤ 92
    → fib_loop true rounds (fibonacci k) (fibonacci (suc k)) ≡ some (fibonacci (rounds + k))
unfolding fib_loop fibonacci
fib_loop-checked zero k le = ap (λ n. some (fibonacci n)) (omega arith)
fib_loop-checked (suc rounds) k le =
    fib_loop-suc true rounds _ _ _
      (add_u64-checked (fibonacci k) (fibonacci (suc k)) (fits (suc (suc k)) (omega arith)))
    ∙ (fib_loop-checked rounds (suc k) (omega arith) ∙ ap (λ n. some (fibonacci n)) (omega arith))

fib_loop-overflows :
    (rounds k : ℕ)
    → k ≤ 92
    → 93 ≤ rounds + k
    → fib_loop true rounds (fibonacci k) (fibonacci (suc k)) ≡ none
unfolding fib_loop fibonacci
fib_loop-overflows zero k le more = absurd (omega arith)
fib_loop-overflows (suc rounds) k le more = elim (Bool-cases (ltb k 92)) [
  | inl less ↦
      fib_loop-suc true rounds _ _ _
        (add_u64-checked (fibonacci k) (fibonacci (suc k)) (fits (suc (suc k)) (ground arith)))
      ∙ fib_loop-overflows rounds (suc k) (ground arith) (omega arith)
  | inr last ↦
      let at_end : suc (suc k) ≡ 94 = ground arith in
      let next : fibonacci (suc (suc k)) ≡ fibonacci 94 = ap fibonacci at_end in
      fib_loop_panics true rounds _ _
        (add_u64-overflows (fibonacci k) (fibonacci (suc k)) (omega (arith, next, fibonacci_94)))
]

-- Without overflow checks, `fib` returns the Fibonacci number modulo 2^64, of any place. With them, it
-- returns the Fibonacci number up to place 92 and panics from place 93 on, although the number at
-- place 93 would fit: the loop computes one number ahead.
pub fib-fibonacci :
    (i : ℕ)
    → (fib false i ≡ some (fibonacci i % 2 ^ 64))
      × (fib true i ≡ (if leb i 92 then some (fibonacci i) else none))
unfolding fib fibonacci wrapped
fib-fibonacci i = (
  fib_loop-wraps i 0 ∙ ap (λ n. some (fibonacci n % 2 ^ 64)) (omega arith),
  elim (Bool-cases (leb i 92)) [
    | inl small ↦
        rw small (fib_loop-checked i 0 (ground arith) ∙ ap (λ n. some (fibonacci n)) (omega arith))
    | inr large ↦ rw large (fib_loop-overflows i 0 (omega arith) (ground arith))
  ],
)
