-- ===== src/Examples/Argv.antt =====
-- What the example programs share: `std::env::args`, the parsing of a descriptor, and `unwrap`.
pub mod Numbers
pub mod Calls
use void_orchestrator.Base.{
  ℕ, zero, suc, ◌^◌, ℤ, pos, negsuc, Option, none, some, List, [], ◌∷◌, ltb, leb, ◌==◌, nat_eq,
  if◌then◌else◌,
}
use void_orchestrator.Text.Decimal.{read_decimal}
use void_orchestrator.Utf8.{from_utf8}
use void_orchestrator.RpcMessage.{Fd}
use void_orchestrator.Specification.{Utf8}
use void_orchestrator.Sys.{Answer, Call, Os, done, fail}
use void_orchestrator.Program.{call, M, Outcome, panic, undefined, pure, give, or_panic, ◌>>=◌}
use void_orchestrator.Base.{⊤}

-- `.unwrap()` on the result of a call.
unfoldable pub unwrap_answer : {E A : Type 0} → Answer E A → M A
unwrap_answer (done a) = pure a
unwrap_answer (fail e) = give panic

-- `println!`
unfoldable pub println : Os → Utf8 → M ⊤
unfolding unwrap_answer
println os text = do unwrap_answer (← call os (Call.print text))

-- The text at a place of the command line, and what follows.
abbrev pub arg_at : ℕ → List Utf8 → Option Utf8
arg_at n [] = none
arg_at zero (s ∷ argv) = some s
arg_at (suc n) (_ ∷ argv) = arg_at n argv

abbrev or_not_unicode : Option Utf8 → M (Option Utf8)
or_not_unicode none = give panic
or_not_unicode (some t) = pure (some t)

unfoldable pub as_text : Option Utf8 → M (Option Utf8)
unfolding from_utf8
as_text none = pure none
as_text (some s) = or_not_unicode (from_utf8 s)

-- `args.next()`, for the argument at this place: it panics where that is not valid Unicode.
unfoldable pub next_arg : List Utf8 → ℕ → M (Option Utf8)
unfolding as_text
next_arg argv n = as_text (arg_at n argv)

abbrev negated : ℕ → ℤ
negated zero = pos 0
negated (suc k) = negsuc k

-- The size of an `i32`, without and with a minus sign.
abbrev as_i32 : Option ℕ → Option ℤ
as_i32 none = none
as_i32 (some n) = if ltb n (2 ^ 31) then some (pos n) else none

abbrev as_negative_i32 : Option ℕ → Option ℤ
as_negative_i32 none = none
as_negative_i32 (some n) = if leb n (2 ^ 31) then some (negated n) else none

-- `text.parse::<i32>().ok()`
unfoldable pub parse_i32 : Utf8 → Option ℤ
unfolding read_decimal
parse_i32 [] = none
parse_i32 (c ∷ cs) =
    if c == b'-'
    then as_negative_i32 (read_decimal cs)
    else if c == b'+'
    then as_i32 (read_decimal cs)
    else as_i32 (read_decimal (c ∷ cs))

-- `File::from_raw_fd(fd)`, of which it is required that the descriptor is open.
unfoldable pub from_raw_fd : ℤ → M Fd
from_raw_fd (pos n) = pure n
from_raw_fd (negsuc n) = give undefined

-- `args.next()` with `.expect(…)`, `.parse()` with `.expect(…)`, and `from_raw_fd`.
unfoldable pub fd_argument : List Utf8 → ℕ → M Fd
unfolding next_arg parse_i32 from_raw_fd
fd_argument argv n = do
  text ← or_panic (← next_arg argv n)
  fd ← or_panic (parse_i32 text)
  from_raw_fd fd
