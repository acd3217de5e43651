-- ===== src/Void/Spawn.antt =====
-- void.rs: `VoidBuilder::spawn`, in the parent and in the child.
use void_orchestrator.Base.{ℕ, ◌+◌, ◌^◌, some, ◌==◌, nat_eq, if◌then◌else◌, ⊤, ℤ, negsuc}
use void_orchestrator.Failure.{Result}
use void_orchestrator.Sys.{Call, Os}
use void_orchestrator.Clone
use void_orchestrator.Clone.{CloneArgs, Addresses, clone3}
use void_orchestrator.Program.{M, Outcome, pure, give, or_nix, call, ◌>>=◌, ◌>>◌}
use void_orchestrator.Void.{VoidBuilder}
use void_orchestrator.Void.Namespaces.{
  void_user_namespace, void_mount_namespace, void_file_descriptors, void_ipc_namespace,
  void_uts_namespace, void_network_namespace, void_pid_namespace, void_cgroup_namespace,
}

-- CLONE_NEWCGROUP, NEWIPC, NEWNET, NEWNS, NEWPID, NEWUSER and NEWUTS, whose bits differ.
abbrev pub void_flags : ℕ
void_flags = 2 ^ 25 + 2 ^ 27 + 2 ^ 30 + 2 ^ 17 + 2 ^ 29 + 2 ^ 28 + 2 ^ 26

abbrev pub sigchld : ℕ
sigchld = 17

module _ (os : Os) (at : Addresses) where
  -- The steps of the child up to `Ok::<(), Error>(())`, in their order.
  unfoldable pub prepare : VoidBuilder → ℕ → ℕ → M ⊤
  prepare b parent_uid parent_gid = do
    void_user_namespace os parent_uid parent_gid
    void_mount_namespace os b
    void_file_descriptors os b
    void_ipc_namespace
    void_uts_namespace os b
    void_network_namespace
    void_pid_namespace
    void_cgroup_namespace

  -- `if let Err(e) = result { exit(-1) } else { exit(child_fn()) }`
  unfoldable pub finish : M ℤ → Result ⊤ → M ℕ
  finish child_fn (Result.err e) = give (Outcome.exit (negsuc 0))
  finish child_fn (Result.ok _) = do code ← child_fn; give (Outcome.exit code)

  -- The branch of the child. A `?` in the block that computes `result` returns from `spawn` itself,
  -- so `result` is `Ok` wherever it is bound.
  unfoldable pub child : VoidBuilder → M ℤ → ℕ → ℕ → M ℕ
  unfolding prepare finish
  child b child_fn parent_uid parent_gid = do
    or_nix "signal" (← call os Call.ignore_sighup)
    result ← (do prepare b parent_uid parent_gid; pure (Result.ok tt))
    finish child_fn result

  -- `VoidBuilder::spawn`; the handle is the process id. It returns in the parent.
  unfoldable pub spawn : VoidBuilder → M ℤ → M ℕ
  unfolding child clone3 Clone.new
  spawn b child_fn = do
    let args = record (Clone.new void_flags) { exit_signal = some sigchld }
    parent_uid ← call os Call.getuid
    parent_gid ← call os Call.getgid
    cloned ← or_nix "clone3" (← clone3 os args at)
    if cloned.0 == 0 then child b child_fn parent_uid parent_gid else pure cloned.0
