-- ===== src/Spawner/Environments.antt =====
-- spawner/mod.rs: what the builder of a void is given for an environment and for arguments.
use void_orchestrator.Base.{string_eq, List, [], ◌∷◌}
use void_orchestrator.Base.Maps.{get}
use void_orchestrator.Paths.{absolute}
use void_orchestrator.Specification.{Arg, Environment, FilePath, file_socket_name}
use void_orchestrator.Sys.{Call, Os}
use void_orchestrator.Program.{M, pure, or_io, or_panic, call, ◌>>=◌}
use void_orchestrator.Void.{
  VoidBuilder, mount, keep_fd, remount_proc, set_hostname, set_domain_name,
}
use void_orchestrator.Void.Namespaces.{dev_null, proc}
use void_orchestrator.Spawner.State.{Spawner, OsPath}

-- "/entrypoint"
abbrev pub entrypoint_path : FilePath
entrypoint_path = absolute ("entrypoint" ∷ [])

-- `builder.mount("/proc", "/proc").remount_proc()`
abbrev pub forward_proc : VoidBuilder → VoidBuilder
forward_proc b = remount_proc (mount proc proc b)

-- The cases of `match env { … }` in `prepare_env`.
unfoldable pub add_environment : VoidBuilder → Environment → VoidBuilder
unfolding mount keep_fd remount_proc set_hostname set_domain_name
add_environment b (Environment.filesystem host_path environment_path) =
    mount host_path environment_path b
add_environment b (Environment.hostname name) = set_hostname name b
add_environment b (Environment.domain_name name) = set_domain_name name b
add_environment b Environment.procfs = forward_proc b
add_environment b Environment.stdin = keep_fd 0 b
add_environment b Environment.stdout = keep_fd 1 b
add_environment b Environment.stderr = keep_fd 2 b

-- `prepare_env`
unfoldable pub prepare_env : VoidBuilder → List Environment → VoidBuilder
unfolding add_environment
prepare_env b [] = b
prepare_env b (e ∷ environment) = prepare_env (add_environment b e) environment

-- The first loop of `forward_mounts`.
unfoldable pub forward_environment : VoidBuilder → List Environment → VoidBuilder
unfolding mount
forward_environment b [] = b
forward_environment b (Environment.filesystem host_path _ ∷ environment) =
    forward_environment (mount host_path host_path b) environment
forward_environment b (_ ∷ environment) = forward_environment b environment

-- The second loop of `forward_mounts`.
unfoldable pub forward_arguments : VoidBuilder → List Arg → VoidBuilder
unfolding mount
forward_arguments b [] = b
forward_arguments b (Arg.file host_path ∷ args) =
    forward_arguments (mount host_path host_path b) args
forward_arguments b (_ ∷ args) = forward_arguments b args

-- `forward_mounts`
unfoldable pub forward_mounts : VoidBuilder → List Environment → List Arg → VoidBuilder
unfolding forward_environment forward_arguments
forward_mounts b environment args = forward_arguments (forward_environment b environment) args

-- `forward_files`
unfoldable pub forward_files : Spawner → VoidBuilder → List Arg → M VoidBuilder
unfolding keep_fd file_socket_name
forward_files sp b [] = pure b
forward_files sp b (Arg.file_socket socket ∷ args) = do
  p ← or_panic (get (file_socket_name socket) sp.sockets)
  forward_files sp (keep_fd p.write b) args
forward_files sp b (_ ∷ args) = forward_files sp b args

-- The end of `prepare_spawner`.
unfoldable pub forward_standard : VoidBuilder → VoidBuilder
unfolding mount keep_fd remount_proc
forward_standard b = keep_fd 2 (keep_fd 1 (forward_proc (mount dev_null dev_null b)))

module _ (os : Os) where
  -- `mount_entrypoint`
  unfoldable pub mount_entrypoint : OsPath → VoidBuilder → M VoidBuilder
  unfolding mount
  mount_entrypoint binary b = do
    path ← or_io (← call os (Call.canonicalize binary.path))
    pure (mount path entrypoint_path b)

  -- `prepare_spawner`
  unfoldable pub prepare_spawner :
      Spawner → VoidBuilder → List Environment → List Arg → M VoidBuilder
  unfolding mount_entrypoint forward_mounts forward_files forward_standard
  prepare_spawner sp b environment args = do
    b1 ← mount_entrypoint sp.binary b
    b2 ← forward_files sp (forward_mounts b1 environment args) args
    pure (forward_standard b2)
