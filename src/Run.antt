-- ===== src/Run.antt =====
-- lib.rs: the end of `run`, which waits for the children and chooses the exit code.
pub mod ExitCode
use void_orchestrator.Base.{
  ℕ, zero, suc, Bool, true, false, ℤ, pos, negsuc, List, [], ◌∷◌, ◌==◌, nat_eq, if◌then◌else◌,
}
use void_orchestrator.Failure.{nix}
use void_orchestrator.Sys.{WaitStatus, Nix, done, fail}
use void_orchestrator.Program.{Outcome, ok, err}

-- ECHILD: there are no more children.
abbrev pub echild : ℕ
echild = 10

-- `exitcode::OK`
abbrev pub exit_ok : ℤ
exit_ok = pos 0

-- `code != exitcode::OK`
abbrev pub is_failure : ℤ → Bool
is_failure (pos zero) = false
is_failure (pos (suc n)) = true
is_failure (negsuc n) = true

-- The loop, from the exit code so far and the results that waitid(2) will give. Where they end, the
-- process waits for a child.
unfoldable pub await : ℤ → List (Nix WaitStatus) → Outcome ℤ
await exit_code [] = Outcome.blocked
await exit_code (fail e ∷ _) = if e == echild then ok exit_code else err (nix "waitpid" e)
await exit_code (done (WaitStatus.exited pid code) ∷ rest) =
    await (if is_failure code then code else exit_code) rest
await exit_code (done (WaitStatus.signaled _ _) ∷ rest) = await exit_code rest
await exit_code (done WaitStatus.other ∷ _) = Outcome.panic
