-- ===== src/Void/Preparation.antt =====
-- void.rs: how the preparation of a void can end.
use void_orchestrator.Base.{ℕ, String, Bool, true, false, Option, none, some, List, [], ◌∷◌, nat_eq}
use void_orchestrator.RpcMessage.{Fd}
use void_orchestrator.Specification.{FilePath}
use void_orchestrator.Sys.{Call, Os, FileKind, symlink, directory}
use void_orchestrator.Clone.{Addresses}
use void_orchestrator.Program.Plain.{
  IsPlain, plain_rules, IsPlain-bind, IsPlain-if, IsPlain-or_nix, IsPlain-call,
}
use void_orchestrator.Void.{VoidBuilder}
use void_orchestrator.Void.Namespaces.{
  write_proc_file, void_user_namespace, follow, resolve_source, create_parent, create_target,
  bind_mount, bind_mounts, pivot, remount_proc_if, drop_old_root, void_mount_namespace,
  take_or_open, overwrite_std, drop_dev_null, keep_on_exec, void_file_descriptors,
  void_ipc_namespace, void_uts_namespace, void_network_namespace, void_pid_namespace,
  void_cgroup_namespace,
}
use void_orchestrator.Void.Spawn.{prepare}

module _ (os : Os) where
  write_proc_file-IsPlain : (name : String) (text : List ℕ) → IsPlain (write_proc_file os name text)
  unfolding write_proc_file
  write_proc_file-IsPlain name text = search plain_rules depth 9

  void_user_namespace-IsPlain : (uid gid : ℕ) → IsPlain (void_user_namespace os uid gid)
  unfolding void_user_namespace
  void_user_namespace-IsPlain uid gid = search (plain_rules, write_proc_file-IsPlain)

  follow-IsPlain : (src : FilePath) (kind : FileKind) → IsPlain (follow os src kind)
  unfolding follow
  follow-IsPlain src symlink = search plain_rules depth 9
  follow-IsPlain src _ = search plain_rules

  resolve_source-IsPlain : (src : FilePath) → IsPlain (resolve_source os src)
  unfolding resolve_source
  resolve_source-IsPlain src = search (plain_rules, follow-IsPlain)

  create_parent-IsPlain : (p : Option FilePath) → IsPlain (create_parent os p)
  unfolding create_parent
  create_parent-IsPlain none = search plain_rules
  create_parent-IsPlain (some p) = search plain_rules

  create_target-IsPlain : (kind : FileKind) (dst : FilePath) → IsPlain (create_target os kind dst)
  unfolding create_target
  create_target-IsPlain directory dst = search plain_rules
  create_target-IsPlain _ dst = search (plain_rules, create_parent-IsPlain)

  bind_mount-IsPlain : (m : FilePath × FilePath) → IsPlain (bind_mount os m)
  unfolding bind_mount
  bind_mount-IsPlain (src, dst) =
      search (plain_rules, resolve_source-IsPlain, create_target-IsPlain) depth 9

  bind_mounts-IsPlain : (mounts : List (FilePath × FilePath)) → IsPlain (bind_mounts os mounts)
  unfolding bind_mounts
  bind_mounts-IsPlain [] = search plain_rules
  bind_mounts-IsPlain (m ∷ mounts) =
      IsPlain-bind _ _ (bind_mount-IsPlain m) (λ _. bind_mounts-IsPlain mounts)

  pivot-IsPlain : IsPlain (pivot os)
  unfolding pivot
  pivot-IsPlain = search plain_rules depth 20

  remount_proc_if-IsPlain : (b : Bool) → IsPlain (remount_proc_if os b)
  unfolding remount_proc_if
  remount_proc_if-IsPlain true = search plain_rules
  remount_proc_if-IsPlain false = search plain_rules

  drop_old_root-IsPlain : IsPlain (drop_old_root os)
  unfolding drop_old_root
  drop_old_root-IsPlain = search plain_rules depth 7

  take_or_open-IsPlain : (o : Option Fd) → IsPlain (take_or_open os o)
  unfolding take_or_open
  take_or_open-IsPlain none = search plain_rules
  take_or_open-IsPlain (some fd) = search plain_rules

  overwrite_std-IsPlain :
      (keep stdfds : List Fd) (o : Option Fd) → IsPlain (overwrite_std os keep stdfds o)
  unfolding overwrite_std
  overwrite_std-IsPlain keep [] o = search plain_rules
  overwrite_std-IsPlain keep (stdfd ∷ stdfds) o =
      IsPlain-if _ _ _ (overwrite_std-IsPlain keep stdfds o) (
        IsPlain-bind _ _ (take_or_open-IsPlain o) λ fd.
          IsPlain-bind _ _ (IsPlain-call os (Call.dup2 fd stdfd)) λ r.
            IsPlain-bind _ _ (IsPlain-or_nix "dup2" r)
              λ _. overwrite_std-IsPlain keep stdfds (some fd))

  drop_dev_null-IsPlain : (mounts : List (FilePath × FilePath)) → IsPlain (drop_dev_null os mounts)
  unfolding drop_dev_null
  drop_dev_null-IsPlain mounts = search plain_rules

  keep_on_exec-IsPlain : (fds : List Fd) → IsPlain (keep_on_exec os fds)
  unfolding keep_on_exec
  keep_on_exec-IsPlain [] = search plain_rules
  keep_on_exec-IsPlain (fd ∷ fds) = IsPlain-bind _ _ (IsPlain-call os (Call.get_fd_flags fd)) λ r.
      IsPlain-bind _ _ (IsPlain-or_nix "fcntl" r) λ bits.
        IsPlain-bind _ _ (IsPlain-call os (Call.set_fd_flags fd _))
          λ r'. IsPlain-bind _ _ (IsPlain-or_nix "fcntl" r') λ _. keep_on_exec-IsPlain fds

  void_mount_namespace-IsPlain : (b : VoidBuilder) → IsPlain (void_mount_namespace os b)
  unfolding void_mount_namespace
  void_mount_namespace-IsPlain b =
      search
        (
          plain_rules, pivot-IsPlain, bind_mounts-IsPlain, remount_proc_if-IsPlain,
          drop_old_root-IsPlain,
        )
        depth 9

  void_file_descriptors-IsPlain : (b : VoidBuilder) → IsPlain (void_file_descriptors os b)
  unfolding void_file_descriptors
  void_file_descriptors-IsPlain b =
      search (plain_rules, overwrite_std-IsPlain, drop_dev_null-IsPlain, keep_on_exec-IsPlain) depth
        9

  void_uts_namespace-IsPlain : (b : VoidBuilder) → IsPlain (void_uts_namespace os b)
  unfolding void_uts_namespace
  void_uts_namespace-IsPlain b = search plain_rules depth 9

  -- The preparation of a void returns or fails: it does not panic or end its process, whatever the
  -- operating system answers.
  pub prepare-IsPlain :
      (at : Addresses) (b : VoidBuilder) (uid gid : ℕ) → IsPlain (prepare os at b uid gid)
  unfolding prepare void_ipc_namespace void_network_namespace void_pid_namespace
      void_cgroup_namespace
  prepare-IsPlain at b uid gid =
      search
        (
          plain_rules, void_user_namespace-IsPlain, void_mount_namespace-IsPlain,
          void_file_descriptors-IsPlain, void_uts_namespace-IsPlain,
        )
        depth 12
