-- ===== src/Void/Namespaces.antt =====
-- void.rs: what turns each namespace of a new process into a void.
use void_orchestrator.Base.{
  ℕ, ◌-◌, ◌%◌, String, Bool, true, false, Option, none, some, List, [], ◌∷◌, ◌++◌, nat_eq, contains,
  if◌then◌else◌, ⊤,
}
use mathlib.Core.Option.{get_or}
use void_orchestrator.Text.{codes, decimal}
use void_orchestrator.RpcMessage.{Fd}
use void_orchestrator.Specification.{FilePath}
use void_orchestrator.Sys.{Call, Os, FileKind, symlink, directory, ms_private, ms_bind, ms_rec}
use void_orchestrator.Program.{M, pure, or_nix, or_io, call, ◌>>=◌, ◌>>◌}
use void_orchestrator.Paths.{absolute, relative, join, strip_root_or_self, parent}
use void_orchestrator.Void.{VoidBuilder, contains_key}

abbrev pub root : FilePath
root = absolute []

abbrev pub old_root : FilePath
old_root = absolute ("old_root" ∷ [])

abbrev pub dev_null : FilePath
dev_null = absolute ("dev" ∷ "null" ∷ [])

abbrev pub proc : FilePath
proc = absolute ("proc" ∷ [])

abbrev pub proc_self : String → FilePath
proc_self name = absolute ("proc" ∷ "self" ∷ name ∷ [])

-- `FdFlag::from_bits_truncate(bits)`, where `FD_CLOEXEC`, which is 1, is the one known flag.
abbrev pub from_bits_truncate : ℕ → ℕ
from_bits_truncate bits = bits % 2

-- `flags.remove(FdFlag::FD_CLOEXEC)`
abbrev pub remove_cloexec : ℕ → ℕ
remove_cloexec flags = flags - flags % 2

-- `void_ipc_namespace`, `void_network_namespace`, `void_pid_namespace` and `void_cgroup_namespace`
-- do nothing.
unfoldable pub void_ipc_namespace : M ⊤
void_ipc_namespace = pure tt

unfoldable pub void_network_namespace : M ⊤
void_network_namespace = pure tt

unfoldable pub void_pid_namespace : M ⊤
void_pid_namespace = pure tt

unfoldable pub void_cgroup_namespace : M ⊤
void_cgroup_namespace = pure tt

-- `format!("0 {} 1\n", id)`
unfoldable pub id_map : ℕ → List ℕ
unfolding codes decimal
id_map id = codes "0 " ++ (decimal id ++ codes " 1\n")

-- `self.mounts.iter().chain(standard_dev_null…)`
unfoldable pub all_mounts : List (FilePath × FilePath) → List (FilePath × FilePath)
unfolding contains_key
all_mounts mounts =
    if contains_key dev_null mounts then mounts else mounts ++ ((dev_null, dev_null) ∷ [])

module _ (os : Os) where
  -- `self.hostname.as_deref().unwrap_or("void")`, and the same of the domain name.
  unfoldable pub void_uts_namespace : VoidBuilder → M ⊤
  void_uts_namespace b = do
    or_nix "sethostname" (← call os (Call.sethostname (get_or b.hostname "void")))
    or_nix "setdomainname" (← call os (Call.setdomainname (get_or b.domain_name "(none)")))

  -- Open a file of /proc/self, write to it and close it.
  unfoldable pub write_proc_file : String → List ℕ → M ⊤
  write_proc_file name text = do
    fd ← or_io (← call os (Call.open_write (proc_self name)))
    or_io (← call os (Call.write_all fd text))
    or_nix "close" (← call os (Call.close fd))

  unfoldable pub void_user_namespace : ℕ → ℕ → M ⊤
  unfolding write_proc_file id_map
  void_user_namespace parent_uid parent_gid = do
    write_proc_file "uid_map" (id_map parent_uid)
    write_proc_file "setgroups" (codes "deny\n")
    write_proc_file "gid_map" (id_map parent_gid)

  -- `if src_data.is_symlink() { … }`: a symbolic link is followed once.
  unfoldable pub follow : FilePath → FileKind → M (FilePath × FileKind)
  follow src symlink = do
    link ← or_io (← call os (Call.read_link src))
    let target = join old_root (strip_root_or_self link)
    kind ← or_io (← call os (Call.metadata target))
    pure (target, kind)
  follow src kind = pure (src, kind)

  -- The source that is mounted, and its kind.
  unfoldable pub resolve_source : FilePath → M (FilePath × FileKind)
  unfolding follow
  resolve_source src = do kind ← or_io (← call os (Call.symlink_metadata src)); follow src kind

  -- `if let Some(parent) = dst.parent() { create_dir_all(parent)?; }`
  unfoldable pub create_parent : Option FilePath → M ⊤
  create_parent none = pure tt
  create_parent (some p) = do or_io (← call os (Call.create_dir_all p))

  -- "create the target"
  unfoldable pub create_target : FileKind → FilePath → M ⊤
  unfolding create_parent
  create_target directory dst = do or_io (← call os (Call.create_dir_all dst))
  create_target _ dst = do create_parent (parent dst); or_io (← call os (Call.write_empty dst))

  -- The body of the loop over the mounts.
  unfoldable pub bind_mount : FilePath × FilePath → M ⊤
  unfolding resolve_source create_target
  bind_mount (src, dst) = do
    let target = join root (strip_root_or_self dst)
    (source, kind) ← resolve_source (join old_root (strip_root_or_self src))
    create_target kind target
    or_nix "mount" (← call os (Call.mount (some source) target none (ms_bind ∷ ms_rec ∷ [])))

  unfoldable pub bind_mounts : List (FilePath × FilePath) → M ⊤
  unfolding bind_mount
  bind_mounts [] = pure tt
  bind_mounts (m ∷ mounts) = do bind_mount m; bind_mounts mounts

  -- The directory in which the new root is made.
  unfoldable pub tmp_base : M FilePath
  tmp_base = do
    env_dir ← call os Call.temp_dir
    there ← call os (Call.exists env_dir)
    pure (if there then env_dir else root)

  -- From the old root to a new, empty one, with the old one below it.
  unfoldable pub pivot : M ⊤
  unfolding tmp_base
  pivot = do
    or_nix "mount" (← call os (Call.mount none root none (ms_private ∷ [])))
    base ← tmp_base
    new_root ← or_io (← call os (Call.tempdir_in base))
    or_nix "mount"
        (← call os (Call.mount (some (relative ("tmpfs" ∷ []))) new_root (some "tmpfs") []))
    let put_old = join new_root (relative ("old_root" ∷ []))
    or_io (← call os (Call.create_dir_all put_old))
    or_nix "pivot_root" (← call os (Call.pivot_root new_root put_old))
    or_io (← call os (Call.set_current_dir root))

  -- "remount proc"
  unfoldable pub remount_proc_if : Bool → M ⊤
  remount_proc_if true = do
    or_nix "mount" (← call os (Call.mount (some (relative ("proc" ∷ []))) proc (some "proc") []))
  remount_proc_if false = pure tt

  -- "unmount the old root" and "delete the old root mount point"
  unfoldable pub drop_old_root : M ⊤
  drop_old_root = do
    or_nix "umount2" (← call os (Call.umount_detach old_root))
    or_io (← call os (Call.remove_dir old_root))

  unfoldable pub void_mount_namespace : VoidBuilder → M ⊤
  unfolding pivot bind_mounts all_mounts remount_proc_if drop_old_root
  void_mount_namespace b = do
    pivot
    bind_mounts (all_mounts b.mounts)
    remount_proc_if b.remounts_proc
    drop_old_root

  -- `nullfd.take().map(Ok).unwrap_or_else(|| File::open("/dev/null"))?`
  unfoldable pub take_or_open : Option Fd → M Fd
  take_or_open (some fd) = pure fd
  take_or_open none = do or_io (← call os (Call.open_read dev_null))

  -- "overwrite stdin/stdout/stderr without closing": the loop, from the null descriptor so far.
  unfoldable pub overwrite_std : List Fd → List Fd → Option Fd → M ⊤
  unfolding take_or_open
  overwrite_std keep [] nullfd = pure tt
  overwrite_std keep (stdfd ∷ stdfds) nullfd =
      if contains keep stdfd then overwrite_std keep stdfds nullfd else do
        fd ← take_or_open nullfd
        or_nix "dup2" (← call os (Call.dup2 fd stdfd))
        overwrite_std keep stdfds (some fd)

  -- "unmount /dev/null after voiding file descriptors"
  unfoldable pub drop_dev_null : List (FilePath × FilePath) → M ⊤
  unfolding contains_key
  drop_dev_null mounts =
      if contains_key dev_null mounts
      then pure tt
      else do or_nix "umount2" (← call os (Call.umount_detach dev_null))

  -- The loop that takes the close-on-exec flag off each descriptor.
  unfoldable pub keep_on_exec : List Fd → M ⊤
  keep_on_exec [] = pure tt
  keep_on_exec (fd ∷ fds) = do
    bits ← or_nix "fcntl" (← call os (Call.get_fd_flags fd))
    let flags = remove_cloexec (from_bits_truncate bits)
    or_nix "fcntl" (← call os (Call.set_fd_flags fd flags))
    keep_on_exec fds

  unfoldable pub void_file_descriptors : VoidBuilder → M ⊤
  unfolding overwrite_std drop_dev_null keep_on_exec
  void_file_descriptors b = do
    call os (Call.close_from b.fds 3)
    overwrite_std b.fds (0 ∷ 1 ∷ 2 ∷ []) none
    drop_dev_null b.mounts
    keep_on_exec b.fds
