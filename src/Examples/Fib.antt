-- ===== src/Examples/Fib.antt =====
-- examples/fib/main.rs: Fibonacci numbers, in a `u64`.
pub mod Fibonacci
use void_orchestrator.Base.{
  ℕ, zero, suc, ◌+◌, ◌%◌, ◌^◌, Bool, Option, none, some, List, ◌++◌, ltb, ⊤, if◌then◌else◌,
}
use void_orchestrator.Text.{codes, decimal}
use void_orchestrator.Specification.{Utf8}
use void_orchestrator.Sys.{Call, Os}
use void_orchestrator.Program.{M, or_panic, call, ◌>>=◌, ◌>>◌}
use void_orchestrator.Examples.Argv.{println}

-- `a + b` in a `u64`: where it overflows, it panics, as `none` says, if the program was built with
-- overflow checks, and wraps around otherwise.
unfoldable pub add_u64 : Bool → ℕ → ℕ → Option ℕ
add_u64 checks a b =
    if ltb (a + b) (2 ^ 64) then some (a + b) else if checks then none else some ((a + b) % 2 ^ 64)

-- `for _ in 0..i { (a, b) = (b, a + b); }`, from the rounds left.
unfoldable pub fib_loop : Bool → ℕ → ℕ → ℕ → Option ℕ
unfolding add_u64
fib_loop checks zero a b = some a
fib_loop checks (suc rounds) a b = elim (add_u64 checks a b) [
  | none ↦ none
  | some c ↦ fib_loop checks rounds b c
]

-- `fib`
unfoldable pub fib : Bool → ℕ → Option ℕ
unfolding fib_loop
fib checks i = fib_loop checks i 0 1

-- `println!("fib({}) = {}", i, fib(i))`
unfoldable pub print_fib : Os → Bool → ℕ → M ⊤
unfolding fib decimal codes println
print_fib os checks i = do
  n ← or_panic (fib checks i)
  println os (codes "fib(" ++ (decimal i ++ (codes ") = " ++ decimal n)))

-- `main`
unfoldable pub fib_main : Os → Bool → M ⊤
unfolding print_fib
fib_main os checks = do print_fib os checks 1; print_fib os checks 7; print_fib os checks 19
