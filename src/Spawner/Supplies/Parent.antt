-- ===== src/Spawner/Supplies/Parent.antt =====
-- spawner/mod.rs, in the process that starts the entrypoints: how its steps can end.
use void_orchestrator.Base.{ℕ, ℤ, ◌≡◌, ◌≢◌, false, List, arith, ◌==◌, nat_eq, if◌then◌else◌}
use void_orchestrator.RpcMessage.{Fd}
use void_orchestrator.Specification.{RpcSpecification}
use void_orchestrator.Sys.{Call, Cloned, CloneArgsFfi, Os, History, Nix, done, fail}
use void_orchestrator.Clone.{Addresses, CloneArgs, clone3, clone3_result, process}
use void_orchestrator.Program.{M}
use void_orchestrator.Program.Yields.{
  Yields, Anything, IsDone, Yields-pure, Yields-bind, Yields-call, Yields-or_nix, Yields-any-call,
  Yields-any-or_nix, Yields-any-or_io, Yields-any-pure,
}
use void_orchestrator.Void.{VoidBuilder}
use void_orchestrator.Void.Spawn.{spawn}
use void_orchestrator.Void.Spawning.{void_clone_args}
use void_orchestrator.Spawner.State.{World, OsPath}
use void_orchestrator.Spawner.Arguments.{fork_handler, prepare_rpc}
use void_orchestrator.Spawner.Environments.{mount_entrypoint}

-- The system answers as it does in the parent: no clone3(2) and no fork(2) returns 0.
pub record IsParent (os : Os) : Type 0 where
  pub clones :
      (h : History) (args : CloneArgsFfi)
      → IsDone (λ (c : Cloned). c.pid ≢ 0) (os h (Call.clone3 args))
  pub forks : (h : History) → IsDone (λ (pid : ℕ). pid ≢ 0) (os h Call.fork)

if_zero-Yields :
    {A : Type 0} (pid : ℕ) (in_child in_parent : M A)
    → pid ≢ 0
    → Yields Anything in_parent
    → Yields Anything (if pid == 0 then in_child else in_parent)
if_zero-Yields pid in_child in_parent ne k =
    let other : (pid == 0) ≡ false = ground arith in rw other k

module _ (os : Os) (parent : IsParent os) where
  clone3_result-IsDone :
      (args : CloneArgs) (r : Nix Cloned)
      → IsDone (λ c. c.pid ≢ 0) r
      → IsDone (λ p. p.0 ≢ 0) (clone3_result args r)
  unfolding clone3_result
  clone3_result-IsDone args (done c) p = p
  clone3_result-IsDone args (fail e) p = tt

  clone3-Yields :
      (args : CloneArgs) (at : Addresses) → Yields (IsDone (λ p. p.0 ≢ 0)) (clone3 os args at)
  unfolding clone3
  clone3-Yields args at =
      Yields-bind _ _
        (Yields-call os (Call.clone3 (process args at)) (IsDone (λ c. c.pid ≢ 0))
          (λ h. parent.clones h (process args at)))
        λ r p. Yields-pure _ (clone3_result-IsDone args r p)

  -- In the parent, `spawn` returns or fails by a call.
  pub spawn-Yields :
      (at : Addresses) (b : VoidBuilder) (child_fn : M ℤ) → Yields Anything (spawn os at b child_fn)
  unfolding spawn
  spawn-Yields at b child_fn = Yields-bind _ _ (Yields-any-call os Call.getuid) λ uid _.
      Yields-bind _ _ (Yields-any-call os Call.getgid) λ gid _.
        Yields-bind _ _ (clone3-Yields void_clone_args at) λ r p.
          Yields-bind _ _ (Yields-or_nix "clone3" r p)
            λ cloned ne. if_zero-Yields cloned.0 _ _ ne (Yields-any-pure cloned.0)

  pub mount_entrypoint-Yields :
      (binary : OsPath) (b : VoidBuilder) → Yields Anything (mount_entrypoint os binary b)
  unfolding mount_entrypoint
  mount_entrypoint-Yields binary b =
      Yields-bind _ _ (Yields-any-call os (Call.canonicalize binary.path))
        λ r _. Yields-bind _ _ (Yields-any-or_io r) λ path _. Yields-any-pure _

module _ (w : World) (parent : IsParent w.os) where
  fork_handler-Yields :
      (specs : List RpcSpecification) (ambient : Fd)
      → Yields Anything (fork_handler w specs ambient)
  unfolding fork_handler
  fork_handler-Yields specs ambient =
      Yields-bind _ _ (Yields-call w.os Call.fork (IsDone (λ (pid : ℕ). pid ≢ 0)) parent.forks)
        λ r p.
          Yields-bind _ _ (Yields-or_nix "fork" r p)
            λ pid ne. if_zero-Yields pid _ _ ne (Yields-any-pure tt)

  pub prepare_rpc-Yields : (specs : List RpcSpecification) → Yields Anything (prepare_rpc w specs)
  unfolding prepare_rpc
  prepare_rpc-Yields specs = Yields-bind _ _ (Yields-any-call w.os Call.socketpair) λ r _.
      Yields-bind _ _ (Yields-any-or_nix "socketpair" r) λ (ambient, void) _.
        Yields-bind _ _ (fork_handler-Yields specs ambient) λ _ _. Yields-any-pure void
