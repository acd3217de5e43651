-- ===== src/Tests/Namespaces.antt =====
-- The theorems on the mounts and the descriptors of a void, and on clone3, at concrete inputs.
use void_orchestrator.Base.{◌^◌, ◌≡◌, refl, none, some, [], ◌∷◌, nat_eq}
use void_orchestrator.Sys.{History}
use void_orchestrator.Paths.{path_eq}
use void_orchestrator.Clone.{CloneArgs, Addresses}
use void_orchestrator.Program.{ok, ◌>>=◌}
use void_orchestrator.Program.Runs.{Makes}
use void_orchestrator.Void.Namespaces.{
  void_mount_namespace, void_file_descriptors, void_user_namespace, void_ipc_namespace,
  void_uts_namespace, void_network_namespace, void_pid_namespace, void_cgroup_namespace,
}
use void_orchestrator.Void.Mounted.{IsMounted}
use void_orchestrator.Void.Mounts.{void_mount_namespace-IsMounted}
use void_orchestrator.Void.Descriptors.{Spares, void_file_descriptors-Spares}
use void_orchestrator.Void.Isolation.{IsPrepared, prepare-IsPrepared}
use void_orchestrator.Void.Spawn.{prepare}
use void_orchestrator.Tests.{system, addresses, builder}

-- The histories in which the steps of the preparation return.
abbrev mounted : History
unfolding void_mount_namespace ◌>>=◌
mounted = (void_mount_namespace (system 0) builder []).1

abbrev closed : History
unfolding void_file_descriptors ◌>>=◌
closed = (void_file_descriptors (system 0) builder []).1

abbrev prepared : History
unfolding prepare ◌>>=◌
prepared = (prepare (system 0) addresses builder 1000 100 []).1

mounts_return : void_mount_namespace (system 0) builder [] ≡ (ok tt, mounted)
unfolding void_mount_namespace ◌>>=◌
mounts_return = refl

preparation_returns : prepare (system 0) addresses builder 1000 100 [] ≡ (ok tt, prepared)
unfolding prepare ◌>>=◌ void_user_namespace void_mount_namespace void_file_descriptors
    void_ipc_namespace void_uts_namespace void_network_namespace void_pid_namespace
    void_cgroup_namespace
preparation_returns = refl

void_mount_namespace-IsMounted_example : IsMounted (system 0) builder [] mounted
void_mount_namespace-IsMounted_example =
    void_mount_namespace-IsMounted (system 0) builder [] mounts_return

void_file_descriptors-Spares_example :
    Makes (Spares (1 ∷ 7 ∷ [])) (void_file_descriptors (system 0) builder)
void_file_descriptors-Spares_example = void_file_descriptors-Spares (system 0) builder

prepare-IsPrepared_example : IsPrepared (system 0) builder 1000 100 [] prepared
prepare-IsPrepared_example =
    prepare-IsPrepared (system 0) addresses builder 1000 100 [] preparation_returns

-- Arguments that ask for the process's descriptor only.
abbrev asks_pidfd : CloneArgs
asks_pidfd = record {
  flags = 2 ^ 12;
  pidfd = some none;
  child_tid = none;
  parent_tid = none;
  exit_signal = none;
  stack = none;
  set_tid = none;
  cgroup = none;
}

abbrev variables : Addresses
variables = record { pidfd = 4096; child_tid = 4100; parent_tid = 4104 }
