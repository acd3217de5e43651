-- ===== src/Run/ExitCode.antt =====
-- lib.rs: which exit code `run` returns when all children have ended.
use void_orchestrator.Base.{
  ℕ, zero, suc, ◌≡◌, ◌≢◌, ◌⊎◌, inl, inr, refl, ap, ℤ, pos, negsuc, List, [], ◌∷◌, ◌++◌, All, nat_eq,
}
use void_orchestrator.Sys.{WaitStatus, Nix, done, fail}
use void_orchestrator.Program.{ok}
use void_orchestrator.Run.{echild, exit_ok, await}

-- The child has ended: of the statuses, waitid(2) with WEXITED gives only these.
abbrev pub IsEnded : WaitStatus → Type 0
IsEnded WaitStatus.other = ⊥
IsEnded _ = Unit

-- The child did not exit with a failure.
abbrev pub IsClean : WaitStatus → Type 0
IsClean (WaitStatus.exited _ code) = code ≡ exit_ok
IsClean (WaitStatus.signaled _ _) = Unit
IsClean WaitStatus.other = ⊥

-- The exit code of the last child that failed, or the one at the start if none failed.
abbrev pub IsLastFailure : ℤ → List WaitStatus → ℤ → Type 0
IsLastFailure start statuses code =
    ((code ≡ start) × All IsClean statuses)
    ⊎ ((code ≢ exit_ok)
        × (pid : ℕ) × (before after : List WaitStatus) × (statuses
            ≡ before ++ (WaitStatus.exited pid code ∷ after))
        × All IsClean after)

-- The results of waitid(2) for the children, and then that there are no more.
abbrev pub answers : List WaitStatus → List (Nix WaitStatus)
answers [] = fail echild ∷ []
answers (s ∷ statuses) = done s ∷ answers statuses

-- A failure in front of the others is the last one if none of them fails.
IsLastFailure-failed :
    (start code found : ℤ) (pid : ℕ) (statuses : List WaitStatus)
    → code ≢ exit_ok
    → IsLastFailure code statuses found
    → IsLastFailure start (WaitStatus.exited pid code ∷ statuses) found
IsLastFailure-failed start code found pid statuses fails (inl (same, clean)) =
    inr (rw same fails, pid, [], statuses, rw same refl, clean)
IsLastFailure-failed start code found pid statuses fails (inr (ne, p, before, after, e, clean)) =
    inr (
      ne,
      p,
      WaitStatus.exited pid code ∷ before,
      after,
      ap (λ t. WaitStatus.exited pid code ∷ t) e,
      clean,
    )

IsLastFailure-clean :
    (start found : ℤ) (s : WaitStatus) (statuses : List WaitStatus)
    → IsClean s
    → IsLastFailure start statuses found
    → IsLastFailure start (s ∷ statuses) found
IsLastFailure-clean start found s statuses c (inl (same, clean)) = inl (same, (c, clean))
IsLastFailure-clean start found s statuses c (inr (ne, p, before, after, e, clean)) =
    inr (ne, p, s ∷ before, after, ap (λ t. s ∷ t) e, clean)

await-IsLastFailure_from :
    (start : ℤ) (statuses : List WaitStatus)
    → All IsEnded statuses
    → (code : ℤ) × (await start (answers statuses) ≡ ok code) × IsLastFailure start statuses code
unfolding await
await-IsLastFailure_from start [] ended = (start, refl, inl (refl, tt))
await-IsLastFailure_from start (WaitStatus.exited pid (pos zero) ∷ rest) (_, ended) =
    let (code, runs, last) = await-IsLastFailure_from start rest ended in
    (code, runs, IsLastFailure-clean start code _ rest refl last)
await-IsLastFailure_from start (WaitStatus.exited pid (pos (suc n)) ∷ rest) (_, ended) =
    let (code, runs, last) = await-IsLastFailure_from (pos (suc n)) rest ended in
    (code, runs, IsLastFailure-failed start (pos (suc n)) code pid rest (λ e. cc) last)
await-IsLastFailure_from start (WaitStatus.exited pid (negsuc n) ∷ rest) (_, ended) =
    let (code, runs, last) = await-IsLastFailure_from (negsuc n) rest ended in
    (code, runs, IsLastFailure-failed start (negsuc n) code pid rest (λ e. cc) last)
await-IsLastFailure_from start (WaitStatus.signaled pid signal ∷ rest) (_, ended) =
    let (code, runs, last) = await-IsLastFailure_from start rest ended in
    (code, runs, IsLastFailure-clean start code _ rest tt last)
await-IsLastFailure_from start (WaitStatus.other ∷ rest) (bad, _) = absurd bad

-- When every child has exited or was terminated by a signal and none is left, the loop of `run`
-- ends with an exit code: that of the last child that exited with one other than 0, or 0 if there
-- is no such child.
pub await-IsLastFailure :
    (statuses : List WaitStatus)
    → All IsEnded statuses
    → (code : ℤ) × (await exit_ok (answers statuses) ≡ ok code)
      × IsLastFailure exit_ok statuses code
await-IsLastFailure statuses ended = await-IsLastFailure_from exit_ok statuses ended
