-- ===== src/Tests.antt =====
-- The theorems at concrete inputs: here those on the voids.
mod Validation
mod Requests
mod Ends
mod Namespaces
mod Launching
mod Entrypoints
mod Programs
use void_orchestrator.Base.{
  length, pos, ℕ, ◌≡◌, ◌≢◌, ◌↔◌, ◌⊎◌, refl, inl, inr, String, Bool, true, false, some, none, List,
  [], ◌∷◌, ◌++◌, ⊤, ℤ, arith, count, nat_eq, string_eq, contains, ◌||◌, ◌==◌, if◌then◌else◌, take,
  drop,
}
use void_orchestrator.Failure.{Error, nix, io, bad_pipe, ok as res_ok, err as res_err}
use void_orchestrator.Specification.{
  FilePath, Trigger, Pipe, FileSocket, Arg, Entrypoint, Specification, RpcSpecification, pipes,
  sockets,
}
use void_orchestrator.Specification.Counts.{
  pipe_readers, pipe_writers, socket_readers, socket_writers, count-pipes, count-sockets,
}
use void_orchestrator.Specification.Validate.{validate}
use void_orchestrator.Specification.Soundness.{
  IsWellFormed, Explains, validate-IsWellFormed, validate-Explains,
}
use void_orchestrator.RpcMessage.{Fd, RpcKind, SocketFamily, OpenSocket, RpcError, RpcResult}
use void_orchestrator.Sys.{WaitStatus, Call, Os, History, Cloned, ReplyOf, done, fail, directory}
use void_orchestrator.Program.Plain.{IsResult}
use void_orchestrator.Void.Isolation.{IsPrepared}
use void_orchestrator.Void.Namespaces.{
  proc_self, void_user_namespace, void_mount_namespace, void_file_descriptors, void_ipc_namespace,
  void_uts_namespace, void_network_namespace, void_pid_namespace, void_cgroup_namespace,
}
use void_orchestrator.Paths.{absolute, path_eq}
use void_orchestrator.Clone.{Addresses}
use void_orchestrator.Program.{M, Outcome, ok, err, exit, pure, ◌>>=◌}
use void_orchestrator.Void.{VoidBuilder}
use void_orchestrator.Void.Spawn.{prepare, spawn}
use void_orchestrator.Void.Spawning.{
  uid, gid, in_child, after_clone, run_and_exit, spawn-eq_ok, spawn-IsPrepared,
}

-- A system on which every call succeeds: clone3(2) returns `pid`, files are directories, and
-- descriptor 9 is new.
abbrev pub system : ℕ → Os
system pid h (Call.clone3 _) = done (record { pid = pid; pidfd = 0; child_tid = 0; parent_tid = 0 })
system pid h Call.fork = done 0
system pid h Call.ignore_sighup = done tt
system pid h Call.stop_self = done tt
system pid h Call.waitid = done (WaitStatus.exited 2 (pos 0))
system pid h (Call.execv _ _) = done tt
system pid h Call.getuid = 1000
system pid h Call.getgid = 100
system pid h (Call.mount _ _ _ _) = done tt
system pid h (Call.umount_detach _) = done tt
system pid h (Call.pivot_root _ _) = done tt
system pid h Call.temp_dir = absolute ("tmp" ∷ [])
system pid h (Call.exists _) = true
system pid h (Call.tempdir_in _) = done (absolute ("tmp" ∷ "new" ∷ []))
system pid h (Call.create_dir_all _) = done tt
system pid h (Call.set_current_dir _) = done tt
system pid h (Call.symlink_metadata _) = done directory
system pid h (Call.metadata _) = done directory
system pid h (Call.read_link _) = done (absolute [])
system pid h (Call.canonicalize _) = done (absolute [])
system pid h (Call.write_empty _) = done tt
system pid h (Call.remove_dir _) = done tt
system pid h (Call.open_read _) = done 9
system pid h (Call.open_write _) = done 9
system pid h (Call.write_all _ _) = done tt
system pid h (Call.close _) = done tt
system pid h (Call.close_from _ _) = tt
system pid h (Call.dup _) = done 9
system pid h (Call.dup2 _ _) = done tt
system pid h (Call.get_fd_flags _) = done 1
system pid h (Call.set_fd_flags _ _) = done tt
system pid h Call.pipe2 = done (9, 10)
system pid h Call.socketpair = done (9, 10)
system pid h (Call.bind_listener _) = done 9
system pid h (Call.sethostname _) = done tt
system pid h (Call.setdomainname _) = done tt
system pid h (Call.connect_tcp _) = done 9
system pid h (Call.bind_udp _) = done 9
system pid h (Call.connect_udp _ _) = done tt
system pid h (Call.send_rights _ _) = done tt
system pid h (Call.send _ _) = done tt
system pid h (Call.print _) = done tt
system pid h (Call.write _ bytes) = done (length bytes)
system pid h (Call.open_text _) = done 9
system pid h (Call.file_len _) = done 3
system pid h (Call.copy _ _) = done tt
system pid h Call.handle_sigint = done tt
system pid h (Call.set_nonblocking _) = done tt
system pid h (Call.poll _ _) = done []
system pid h (Call.accept _) = done 9
system pid h Call.stream_pair = done (9, 10)

abbrev pub addresses : Addresses
addresses = record { pidfd = 0; child_tid = 0; parent_tid = 0 }

-- A builder that mounts /usr and keeps the standard output and descriptor 7.
abbrev pub builder : VoidBuilder
builder = record {
  hostname = some "web";
  domain_name = none;
  mounts = (absolute ("usr" ∷ []), absolute ("usr" ∷ [])) ∷ [];
  fds = 1 ∷ 7 ∷ [];
  remounts_proc = true;
}

abbrev exits : M ℤ
exits = pure (ℤ.pos 3)

-- A system on which clone3(2) is answered in the child, and nothing can be opened for writing.
abbrev closed_system : Os
closed_system h (Call.open_write _) = fail (record { raw_os_error = some 13 })
closed_system h c = system 0 h c

returned_in_parent : spawn (system 5) addresses builder exits [] ≡ (ok 5, after_clone addresses [])
unfolding spawn ◌>>=◌
returned_in_parent = refl

spawn-eq_ok_example : (◌≢◌ {A = ℕ} 5 0) × (after_clone addresses [] ≡ after_clone addresses [])
spawn-eq_ok_example = spawn-eq_ok (system 5) addresses builder exits [] returned_in_parent

exited_in_child : ¬ IsResult (spawn (system 0) addresses builder exits []).0
unfolding spawn ◌>>=◌ void_user_namespace void_mount_namespace void_file_descriptors
    void_ipc_namespace void_uts_namespace void_network_namespace void_pid_namespace
    void_cgroup_namespace
exited_in_child p = p

spawn-IsPrepared_example :
    (h2 : History) × IsPrepared (system 0) builder 1000 100 (in_child addresses []) h2
    × (spawn (system 0) addresses builder exits [] ≡ run_and_exit exits h2)
spawn-IsPrepared_example = spawn-IsPrepared (system 0) addresses builder exits [] exited_in_child
