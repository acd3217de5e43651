-- ===== src/Program.antt =====
-- A run of the program: it makes calls, and returns, fails, panics or ends its process. What was
-- called before an error stays called, so the history comes back beside every outcome.
pub mod Ensures
pub mod Plain
pub mod Runs
pub mod Clones
pub mod Yields
use void_orchestrator.Base.{String, Option, none, some, List, ◌∷◌, ℤ}
use void_orchestrator.Failure.{Error, Result, nix, io}
use void_orchestrator.Specification.{FilePath, Utf8}
use void_orchestrator.Sys.{done, fail, Nix, Io, Call, ReplyOf, History, Os}

pub data Outcome (A : Type 0) : Type 0 where
  ok : A → Outcome A
  err : Error → Outcome A
  -- a panic, such as that of `unwrap`
  panic : Outcome A
  -- `std::process::exit`
  exit : ℤ → Outcome A
  -- a successful `execv`, with the path and the arguments of the program that takes over
  exec : FilePath → List Utf8 → Outcome A
  -- the process waits for input that does not come
  blocked : Outcome A
  -- behaviour that Rust leaves undefined
  undefined : Outcome A

abbrev pub M : Type 0 → Type 0
M A = History → Outcome A × History

module _ {A : Type 0} where
  unfoldable pub pure : A → M A
  pure a h = (ok a, h)

  -- A result that is known without a call.
  unfoldable pub give : Outcome A → M A
  give r h = (r, h)

  -- `.map_err(|e| Error::Nix { msg, src: e })?`
  unfoldable pub or_nix : String → Nix A → M A
  or_nix msg (done a) h = (ok a, h)
  or_nix msg (fail e) h = (err (nix msg e), h)

  -- `?` on a `std::io::Result`
  unfoldable pub or_io : Io A → M A
  or_io (done a) h = (ok a, h)
  or_io (fail e) h = (err (io e.raw_os_error), h)

  -- `?` on a `Result`
  unfoldable pub or_err : Result A → M A
  or_err (Result.ok a) h = (ok a, h)
  or_err (Result.err e) h = (err e, h)

  -- `unwrap` on an `Option`, or on a result whose error is not needed.
  unfoldable pub or_panic : Option A → M A
  or_panic (some a) h = (ok a, h)
  or_panic none h = (panic, h)

  -- An error that is unwrapped is a panic.
  abbrev pub unwrapped : Outcome A → Outcome A
  unwrapped (err e) = panic
  unwrapped r = r

  -- `.unwrap()` on the result of a run
  unfoldable pub unwrap : M A → M A
  unwrap m h = let (r, h') = m h in (unwrapped r, h')

module _ (os : Os) where
  -- Make a call.
  unfoldable pub call : (c : Call) → M (ReplyOf c)
  call c h = (ok (os h c), c ∷ h)

module _ {A B : Type 0} where
  abbrev pub continue : Outcome A → (A → M B) → M B
  continue (ok a) f h = f a h
  continue (err e) f h = (err e, h)
  continue panic f h = (panic, h)
  continue (exit n) f h = (exit n, h)
  continue (exec p args) f h = (exec p args, h)
  continue blocked f h = (blocked, h)
  continue undefined f h = (undefined, h)

  infixl 5 ◌>>=◌
  -- Opening this opens the steps above too.
  unfoldable pub ◌>>=◌ : M A → (A → M B) → M B
  unfolding pure give or_nix or_io or_err or_panic call
  ◌>>=◌ m f h = let (r, h') = m h in continue r f h'

infixl 5 ◌>>◌
abbrev pub ◌>>◌ : {A B : Type 0} → M A → M B → M B
m >> k = m >>= λ _. k
