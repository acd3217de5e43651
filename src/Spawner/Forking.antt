-- ===== src/Spawner/Forking.antt =====
-- spawner/mod.rs: how `fork_for_trigger` ends, in the child and in the parent.
use void_orchestrator.Base.{
  ℕ, ℤ, negsuc, ◌≡◌, ◌≢◌, refl, inl, inr, Bool-cases, ◌∷◌, arith, ⊤, ◌==◌, nat_eq,
}
use void_orchestrator.Failure.{Errno, nix}
use void_orchestrator.Sys.{Call, WaitStatus, Nix, History, done, fail}
use void_orchestrator.Program.{Outcome, ok, err, panic, exit, or_nix, ◌>>=◌}
use void_orchestrator.Spawner.State.{World}
use void_orchestrator.Spawner.Triggers.{fork_for_trigger, exit_as}

module _ (w : World) (h : History) where
  abbrev after_fork : History
  after_fork = Call.fork ∷ h

  -- The ends of `fork_for_trigger`. Only the child goes on, with no further call; the parent waits
  -- and then ends with the exit code of the child, or with -1 if a signal ended it.
  pub data Forked : Outcome ⊤ × History → Type 0 where
    not_forked : (e : Errno) → w.os h Call.fork ≡ fail e → Forked (err (nix "fork" e), after_fork)
    in_child : w.os h Call.fork ≡ done 0 → Forked (ok tt, after_fork)
    not_awaited :
        (pid : ℕ) (e : Errno)
        → w.os h Call.fork ≡ done pid
        → pid ≢ 0
        → w.os after_fork Call.waitid ≡ fail e
        → Forked (err (nix "waitpid" e), Call.waitid ∷ after_fork)
    exited :
        (pid child : ℕ) (code : ℤ)
        → w.os h Call.fork ≡ done pid
        → pid ≢ 0
        → w.os after_fork Call.waitid ≡ done (WaitStatus.exited child code)
        → Forked (exit code, Call.waitid ∷ after_fork)
    signaled :
        (pid child signal : ℕ)
        → w.os h Call.fork ≡ done pid
        → pid ≢ 0
        → w.os after_fork Call.waitid ≡ done (WaitStatus.signaled child signal)
        → Forked (exit (negsuc 0), Call.waitid ∷ after_fork)
    unreachable :
        (pid : ℕ)
        → w.os h Call.fork ≡ done pid
        → pid ≢ 0
        → w.os after_fork Call.waitid ≡ done WaitStatus.other
        → Forked (panic, Call.waitid ∷ after_fork)

  waited-Forked :
      (pid : ℕ) (s : Nix WaitStatus)
      → w.os h Call.fork ≡ done pid
      → pid ≢ 0
      → w.os after_fork Call.waitid ≡ s
      → Forked ((or_nix "waitpid" s >>= λ status. exit_as status) (Call.waitid ∷ after_fork))
  unfolding exit_as ◌>>=◌
  waited-Forked pid (fail e) f ne q = not_awaited pid e f ne q
  waited-Forked pid (done (WaitStatus.exited child code)) f ne q = exited pid child code f ne q
  waited-Forked pid (done (WaitStatus.signaled child signal)) f ne q =
      signaled pid child signal f ne q
  waited-Forked pid (done WaitStatus.other) f ne q = unreachable pid f ne q

  forked-Forked : (r : Nix ℕ) → w.os h Call.fork ≡ r → Forked (fork_for_trigger w h)
  unfolding fork_for_trigger ◌>>=◌
  forked-Forked (fail e) f = rw f (not_forked e f)
  forked-Forked (done pid) f = elim (Bool-cases (pid == 0)) [
    | inl zero_pid ↦
        let is_zero : pid ≡ 0 = ground arith in rw f (rw zero_pid (in_child (rw (← is_zero) f)))
    | inr other ↦ rw f (rw other (waited-Forked pid _ f (ground arith) refl))
  ]

  -- `fork_for_trigger` ends in one of the ways above, after no other call than fork(2) and in the
  -- parent waitid(2): it returns in the child only, and the parent either fails with the error of
  -- fork(2) or waitid(2), or exits with the exit code of the child, or with -1 if the child was
  -- terminated by a signal; it panics on a status that is neither.
  pub fork_for_trigger-Forked : Forked (fork_for_trigger w h)
  fork_for_trigger-Forked = forked-Forked _ refl
