-- ===== src/Examples/Argv/Numbers.antt =====
-- The number of a descriptor on the command line, read back.
use void_orchestrator.Base.{
  ℕ, zero, suc, ◌+◌, ◌/◌, ◌%◌, ◌<◌, ◌^◌, pos, ◌≡◌, refl, inl, inr, true, Bool-cases, All, some,
  List, [], ◌∷◌, ◌++◌, arith, ltb, nat_eq, length, ⊤,
}
use void_orchestrator.Text.{digits_from, decimal}
use void_orchestrator.Text.Decimal.{read_digits, read_decimal, read_decimal-decimal}
use void_orchestrator.Utf8.{valid, next_chunk, is_utf8_from, from_utf8}
use void_orchestrator.RpcMessage.{Fd}
use void_orchestrator.Specification.{Utf8}
use void_orchestrator.Sys.{History}
use void_orchestrator.Program.{M, ok, ◌>>=◌}
use void_orchestrator.Examples.Argv.{arg_at, as_text, next_arg, parse_i32, fd_argument}

abbrev IsAscii : List ℕ → Type 0
IsAscii bytes = All (λ b. b < 128) bytes

ascii_chunk : (b : ℕ) (rest : List ℕ) → ltb b 128 ≡ true → next_chunk b rest ≡ valid 1
unfolding next_chunk
ascii_chunk b rest below = rw below refl

is_utf8_from-ascii : (fuel : ℕ) (bytes : List ℕ) → IsAscii bytes → is_utf8_from fuel bytes ≡ true
unfolding is_utf8_from
is_utf8_from-ascii zero bytes ascii = refl
is_utf8_from-ascii (suc fuel) [] ascii = refl
is_utf8_from-ascii (suc fuel) (b ∷ bytes) (small, ascii) =
    let below : ltb b 128 ≡ true = ground arith in
    let one : next_chunk b bytes ≡ valid 1 = ascii_chunk b bytes below in
    rw (one, is_utf8_from) (is_utf8_from-ascii fuel bytes ascii)

from_utf8-ascii : (bytes : List ℕ) → IsAscii bytes → from_utf8 bytes ≡ some bytes
unfolding from_utf8
from_utf8-ascii bytes ascii = rw (is_utf8_from-ascii (length bytes) bytes ascii) refl

IsAscii-append : (xs ys : List ℕ) → IsAscii xs → IsAscii ys → IsAscii (xs ++ ys)
IsAscii-append [] ys xa ya = ya
IsAscii-append (x ∷ xs) ys (small, xa) ya = (small, IsAscii-append xs ys xa ya)

digits_from-IsAscii : (fuel n : ℕ) → IsAscii (digits_from fuel n)
unfolding digits_from
digits_from-IsAscii zero n = tt
digits_from-IsAscii (suc fuel) n = elim (Bool-cases (ltb n 10)) [
  | inl small ↦ rw small (ground arith, tt)
  | inr large ↦ rw large (
      IsAscii-append (digits_from fuel (n / 10)) ((48 + n % 10) ∷ [])
        (digits_from-IsAscii fuel (n / 10)) (omega arith, tt))
]

from_utf8-decimal : (n : ℕ) → from_utf8 (decimal n) ≡ some (decimal n)
unfolding decimal
from_utf8-decimal n = from_utf8-ascii _ (digits_from-IsAscii (suc n) n)

-- A text of digits has no sign.
parse_i32-digits :
    (text : List ℕ) (n : ℕ)
    → read_decimal text ≡ some n
    → n < 2 ^ 31
    → parse_i32 text ≡ some (pos n)
unfolding parse_i32 read_decimal read_digits
parse_i32-digits [] n e small = cc
parse_i32-digits (c ∷ cs) n e small = ground arith

pub parse_i32-decimal : (n : ℕ) → n < 2 ^ 31 → parse_i32 (decimal n) ≡ some (pos n)
parse_i32-decimal n small = parse_i32-digits (decimal n) n (read_decimal-decimal n) small

fd_argument-decimal :
    (argv : List Utf8) (n : ℕ) (fd : Fd) (h : History)
    → arg_at n argv ≡ some (decimal fd)
    → fd < 2 ^ 31
    → fd_argument argv n h ≡ (ok fd, h)
unfolding fd_argument next_arg ◌>>=◌
fd_argument-decimal argv n fd h there small =
    rw (there, as_text, from_utf8-decimal fd, parse_i32-decimal fd small) refl

-- A descriptor at the head of what is left of the arguments.
pub reads_fd :
    (argv : List Utf8) (n : ℕ) (fd : Fd) (rest : Fd → M ⊤) (h : History)
    → arg_at n argv ≡ some (decimal fd)
    → fd < 2 ^ 31
    → (fd_argument argv n >>= rest) h ≡ rest fd h
unfolding ◌>>=◌
reads_fd argv n fd rest h there small = rw (fd_argument-decimal argv n fd h there small) refl
