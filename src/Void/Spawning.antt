-- ===== src/Void/Spawning.antt =====
-- void.rs: what `spawn` does in the parent and in the child.
use void_orchestrator.Base.{
  ℕ, ◌≡◌, ◌≢◌, inl, inr, refl, some, ◌∷◌, arith, ⊤, ℤ, ◌==◌, nat_eq, Bool-cases,
}
use void_orchestrator.Failure.{Errno, Error, nix}
use void_orchestrator.Failure
use void_orchestrator.Sys.{Call, Os, History, Nix, Cloned, done, fail}
use void_orchestrator.Clone
use void_orchestrator.Clone.{CloneArgs, Addresses, clone3, process}
use void_orchestrator.Program.{
  M, Outcome, ok, err, panic, exit, exec, blocked, undefined, continue, pure, give, ◌>>=◌,
}
use void_orchestrator.Program.Plain.{IsResult}
use void_orchestrator.Void.{VoidBuilder}
use void_orchestrator.Void.Isolation.{IsPrepared, prepare-IsPrepared}
use void_orchestrator.Void.Preparation.{prepare-IsPlain}
use void_orchestrator.Void.Spawn.{void_flags, sigchld, prepare, finish, child, spawn}

-- The arguments that `spawn` gives to clone3(2).
abbrev pub void_clone_args : CloneArgs
void_clone_args = record (Clone.new void_flags) { exit_signal = some sigchld }

-- The history after the calls that `spawn` makes in the parent.
abbrev pub after_clone : Addresses → History → History
after_clone at h = Call.clone3 (process void_clone_args at) ∷ Call.getgid ∷ Call.getuid ∷ h

-- The history in which the child prepares its void.
abbrev pub in_child : Addresses → History → History
in_child at h = Call.ignore_sighup ∷ after_clone at h

abbrev pub uid : Os → History → ℕ
uid os h = os h Call.getuid

abbrev pub gid : Os → History → ℕ
gid os h = os (Call.getuid ∷ h) Call.getgid

-- `std::process::exit(child_fn())`
abbrev pub run_and_exit : M ℤ → M ℕ
run_and_exit child_fn = do code ← child_fn; give (exit code)

module _ (os : Os) (at : Addresses) (b : VoidBuilder) (child_fn : M ℤ) (h : History) where
  -- The branch of the child, once SIGHUP is ignored, by how the preparation ended.
  abbrev prepared_branch : Outcome ⊤ → History → Outcome ℕ × History
  prepared_branch r h2 =
      continue (continue r (λ _. pure (Failure.Result.ok tt)) h2).0 (finish os at child_fn)
        (continue r (λ _. pure (Failure.Result.ok tt)) h2).1

  -- How `spawn` ends in the child, with the calls made then.
  pub data Child : Outcome ℕ × History → Type 0 where
    -- SIGHUP could not be ignored
    unsignalled :
        (e : Errno)
        → os (after_clone at h) Call.ignore_sighup ≡ fail e
        → Child (err (nix "signal" e), in_child at h)
    -- the preparation failed, and its error is returned
    failed :
        (e : Error) (h2 : History)
        → prepare os at b (uid os h) (gid os h) (in_child at h) ≡ (err e, h2)
        → Child (err e, h2)
    -- the function ran after the preparation
    ran :
        (h2 : History)
        → prepare os at b (uid os h) (gid os h) (in_child at h) ≡ (ok tt, h2)
        → Child (run_and_exit child_fn h2)

  prepared_branch-Child :
      (r : Outcome ⊤) (h2 : History)
      → IsResult r
      → prepare os at b (uid os h) (gid os h) (in_child at h) ≡ (r, h2)
      → Child (prepared_branch r h2)
  unfolding finish pure
  prepared_branch-Child (ok tt) h2 p e = ran h2 e
  prepared_branch-Child (err x) h2 p e = failed x h2 e
  prepared_branch-Child panic h2 p e = absurd p
  prepared_branch-Child (exit n) h2 p e = absurd p
  prepared_branch-Child (exec x args) h2 p e = absurd p
  prepared_branch-Child blocked h2 p e = absurd p
  prepared_branch-Child undefined h2 p e = absurd p

  child-Child :
      (r : Nix ⊤)
      → os (after_clone at h) Call.ignore_sighup ≡ r
      → Child (child os at b child_fn (uid os h) (gid os h) (after_clone at h))
  unfolding child ◌>>=◌
  child-Child (fail x) e = rw e (unsignalled x e)
  child-Child (done tt) e = rw e (
      let (r, h2) = prepare os at b (uid os h) (gid os h) (in_child at h) in
      prepared_branch-Child r h2
        ((prepare-IsPlain os at b (uid os h) (gid os h)).at (in_child at h)) refl)

  abbrev pub before_clone : History
  before_clone = Call.getgid ∷ Call.getuid ∷ h

  abbrev pub clone_call : Call
  clone_call = Call.clone3 (process void_clone_args at)

  -- How `spawn` ends, with the calls made then.
  pub data Spawned : Outcome ℕ × History → Type 0 where
    -- clone3(2) failed
    not_cloned :
        (e : Errno)
        → os before_clone clone_call ≡ fail e
        → Spawned (err (nix "clone3" e), after_clone at h)
    -- this is the parent
    in_parent :
        (c : Cloned)
        → os before_clone clone_call ≡ done c
        → c.pid ≢ 0
        → Spawned (ok c.pid, after_clone at h)
    -- this is the child
    in_its_child :
        (c : Cloned) {r : Outcome ℕ × History}
        → os before_clone clone_call ≡ done c
        → c.pid ≡ 0
        → Child r
        → Spawned r

  spawn-Spawned_of :
      (r : Nix Cloned) → os before_clone clone_call ≡ r → Spawned (spawn os at b child_fn h)
  unfolding spawn ◌>>=◌
  spawn-Spawned_of (fail x) e = rw e (not_cloned x e)
  spawn-Spawned_of (done c) e = elim (Bool-cases (c.pid == 0)) [
    | inl zero_pid ↦ rw e (rw zero_pid (in_its_child c e (ground arith) (child-Child _ refl)))
    | inr other_pid ↦ rw e (rw other_pid (in_parent c e (ground arith)))
  ]

  pub spawn-Spawned : Spawned (spawn os at b child_fn h)
  spawn-Spawned = spawn-Spawned_of _ refl

  finished-ne_ok :
      (r : Outcome ℤ) (h1 : History) {pid : ℕ} {h' : History}
      → continue r (λ code. give (exit code)) h1 ≢ (ok pid, h')
  unfolding give
  finished-ne_ok (ok code) h1 e = cc
  finished-ne_ok (err x) h1 e = cc
  finished-ne_ok panic h1 e = cc
  finished-ne_ok (exit n) h1 e = cc
  finished-ne_ok (exec p args) h1 e = cc
  finished-ne_ok blocked h1 e = cc
  finished-ne_ok undefined h1 e = cc

  Child-ne_ok : {r : Outcome ℕ × History} {pid : ℕ} {h' : History} → Child r → r ≢ (ok pid, h')
  unfolding ◌>>=◌
  Child-ne_ok (unsignalled e f) p = cc
  Child-ne_ok (failed e h2 f) p = cc
  Child-ne_ok (ran h2 q) p = let (r, h3) = child_fn h2 in finished-ne_ok r h3 p

  Spawned-eq_ok :
      {r : Outcome ℕ × History} {pid : ℕ} {h' : History}
      → Spawned r
      → r ≡ (ok pid, h')
      → (pid ≢ 0) × (h' ≡ after_clone at h)
  Spawned-eq_ok (not_cloned e f) p = cc
  Spawned-eq_ok (in_parent c f ne) p = (λ z. ne (cc), cc)
  Spawned-eq_ok (in_its_child c f zero_pid is_child) p = absurd (Child-ne_ok is_child p)

  -- `spawn` returns a process id in the parent only: the id is not 0, and of all calls only those
  -- of getuid(2), getgid(2) and clone3(2) have been made. Nothing of the void is prepared in the
  -- parent, and its function does not run there.
  pub spawn-eq_ok :
      {pid : ℕ} {h' : History}
      → spawn os at b child_fn h ≡ (ok pid, h')
      → (pid ≢ 0) × (h' ≡ after_clone at h)
  spawn-eq_ok = Spawned-eq_ok spawn-Spawned

  Spawned-IsPrepared :
      {r : Outcome ℕ × History}
      → Spawned r
      → ¬ IsResult r.0
      → (h2 : History) × IsPrepared os b (uid os h) (gid os h) (in_child at h) h2
        × (r ≡ run_and_exit child_fn h2)
  Spawned-IsPrepared (not_cloned e f) n = absurd (n tt)
  Spawned-IsPrepared (in_parent c f ne) n = absurd (n tt)
  Spawned-IsPrepared (in_its_child c f zero_pid (unsignalled e g)) n = absurd (n tt)
  Spawned-IsPrepared (in_its_child c f zero_pid (failed e h2 g)) n = absurd (n tt)
  Spawned-IsPrepared (in_its_child c f zero_pid (ran h2 q)) n =
      (h2, prepare-IsPrepared os at b (uid os h) (gid os h) (in_child at h) q, refl)

  -- Where `spawn` neither returns nor fails, the function of the child has run, and it has run in a
  -- void that was prepared completely: the process ends as that function and the exit with its
  -- code end, from the history in which the preparation returned.
  pub spawn-IsPrepared :
      ¬ IsResult (spawn os at b child_fn h).0
      → (h2 : History) × IsPrepared os b (uid os h) (gid os h) (in_child at h) h2
        × (spawn os at b child_fn h ≡ run_and_exit child_fn h2)
  spawn-IsPrepared = Spawned-IsPrepared spawn-Spawned
