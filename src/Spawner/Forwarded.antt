-- ===== src/Spawner/Forwarded.antt =====
-- spawner/mod.rs: what the process that waits for a trigger has, so as to give it to the entrypoints
-- that it starts.
use void_orchestrator.Base.{◌≡◌, true, string_eq, Option, none, some, List, [], ◌∷◌, ◌++◌}
use void_orchestrator.Base.Maps.{get}
use void_orchestrator.RpcMessage.{Fd}
use void_orchestrator.Specification.{FilePath, Arg, Environment, file_socket_name}
use void_orchestrator.Sys.{Os, History}
use void_orchestrator.Program.{or_panic}
use void_orchestrator.Program.Runs.{
  GivesFrom, >>=-eq_ok, Gives, Gives-pure, Gives-bind_of, Gives-mono,
}
use void_orchestrator.Resources.SocketPair.{SocketPair}
use void_orchestrator.Void.{VoidBuilder, keep_fd, mount, remount_proc}
use void_orchestrator.Void.Namespaces.{dev_null, proc}
use void_orchestrator.Spawner.State.{Spawner}
use void_orchestrator.Spawner.Environments.{
  entrypoint_path, forward_environment, forward_arguments, forward_mounts, forward_files,
  forward_standard, mount_entrypoint, prepare_spawner,
}
use void_orchestrator.Spawner.Declared.{
  Grants, Grants-none, Grants-append, Grants-mount, Grants-keep_fd, IsFoundAt,
  mount_entrypoint-eq_ok,
}

-- The paths of the host that the entrypoint's void will mount.
abbrev pub mounted_source : Environment → List FilePath
mounted_source (Environment.filesystem host_path _) = host_path ∷ []
mounted_source _ = []

abbrev pub mounted_sources : List Environment → List FilePath
mounted_sources [] = []
mounted_sources (e ∷ es) = mounted_source e ++ mounted_sources es

-- The paths of the files that the entrypoint's arguments will open.
abbrev pub opened_source : Arg → List FilePath
opened_source (Arg.file path) = path ∷ []
opened_source _ = []

abbrev pub opened_sources : List Arg → List FilePath
opened_sources [] = []
opened_sources (a ∷ args) = opened_source a ++ opened_sources args

-- The writing ends of the sockets that the arguments name.
abbrev pub socket_end : Option SocketPair → List Fd
socket_end none = []
socket_end (some p) = p.write ∷ []

abbrev pub write_end : Spawner → Arg → List Fd
write_end sp (Arg.file_socket socket) = socket_end (get (file_socket_name socket) sp.sockets)
write_end sp _ = []

abbrev pub write_ends : Spawner → List Arg → List Fd
write_ends sp [] = []
write_ends sp (a ∷ args) = write_end sp a ++ write_ends sp args

forward_environment-Grants :
    (b : VoidBuilder) (es : List Environment)
    → Grants [] (mounted_sources es) b (forward_environment b es)
unfolding forward_environment
forward_environment-Grants b [] = Grants-none b
forward_environment-Grants b (Environment.filesystem host_path dst ∷ es) =
    Grants-append [] [] (host_path ∷ []) (mounted_sources es) b (mount host_path host_path b) _
      (Grants-mount host_path host_path b)
      (forward_environment-Grants (mount host_path host_path b) es)
forward_environment-Grants b (_ ∷ es) = forward_environment-Grants b es

forward_arguments-Grants :
    (b : VoidBuilder) (args : List Arg)
    → Grants [] (opened_sources args) b (forward_arguments b args)
unfolding forward_arguments
forward_arguments-Grants b [] = Grants-none b
forward_arguments-Grants b (Arg.file path ∷ args) =
    Grants-append [] [] (path ∷ []) (opened_sources args) b (mount path path b) _
      (Grants-mount path path b) (forward_arguments-Grants (mount path path b) args)
forward_arguments-Grants b (_ ∷ args) = forward_arguments-Grants b args

forward_mounts-Grants :
    (b : VoidBuilder) (es : List Environment) (args : List Arg)
    → Grants [] (mounted_sources es ++ opened_sources args) b (forward_mounts b es args)
unfolding forward_mounts
forward_mounts-Grants b es args =
    Grants-append [] [] (mounted_sources es) (opened_sources args) b (forward_environment b es) _
      (forward_environment-Grants b es) (forward_arguments-Grants (forward_environment b es) args)

or_panic-Gives : {A : Type 0} (o : Option A) → Gives (λ a. o ≡ some a) (or_panic o)
unfolding or_panic
or_panic-Gives none = record { at = λ h e. cc }
or_panic-Gives (some a) = record { at = λ h e. cc }

forward_files-Grants :
    (sp : Spawner) (b : VoidBuilder) (args : List Arg)
    → Gives (Grants (write_ends sp args) [] b) (forward_files sp b args)
unfolding forward_files
forward_files-Grants sp b [] = Gives-pure b (Grants-none b)
forward_files-Grants sp b (Arg.file_socket socket ∷ args) =
    Gives-bind_of _ _ (or_panic-Gives (get (file_socket_name socket) sp.sockets)) λ p found.
      Gives-mono _
        (λ b' rest. rw found (
          Grants-append (p.write ∷ []) (write_ends sp args) [] [] b (keep_fd p.write b) b'
            (Grants-keep_fd p.write b) rest))
        (forward_files-Grants sp (keep_fd p.write b) args)
forward_files-Grants sp b (_ ∷ args) = forward_files-Grants sp b args

forward_standard-Grants :
    (b : VoidBuilder) → Grants (1 ∷ 2 ∷ []) (dev_null ∷ proc ∷ []) b (forward_standard b)
unfolding forward_standard remount_proc
forward_standard-Grants b =
    let b1 = mount dev_null dev_null b in
    let b2 = mount proc proc b1 in
    let b3 = record b2 { remounts_proc = true } in
    let remounted : Grants [] (proc ∷ []) b1 b3 =
      let g = Grants-mount proc proc b1 in
      record { fds_are = g.fds_are; sources_are = g.sources_are } in
    let mounts =
      Grants-append [] [] (dev_null ∷ []) (proc ∷ []) b b1 b3 (Grants-mount dev_null dev_null b)
        remounted in
    let fds =
      Grants-append (1 ∷ []) (2 ∷ []) [] [] b3 (keep_fd 1 b3) (keep_fd 2 (keep_fd 1 b3))
        (Grants-keep_fd 1 b3) (Grants-keep_fd 2 (keep_fd 1 b3)) in
    Grants-append [] (1 ∷ 2 ∷ []) (dev_null ∷ proc ∷ []) [] b b3 _ mounts fds

-- What the void of the process that waits for a trigger is granted.
abbrev pub GrantsWaiting :
    Os → Spawner → List Environment → List Arg → VoidBuilder → History → VoidBuilder → Type 0
GrantsWaiting os sp es args b h b' =
    (binary : FilePath) × IsFoundAt os sp.binary binary h
    × Grants (write_ends sp args ++ (1 ∷ 2 ∷ []))
        (binary ∷ ((mounted_sources es ++ opened_sources args) ++ (dev_null ∷ proc ∷ []))) b b'

-- If the void of a process that waits for a trigger is prepared, then its builder keeps more, of the
-- descriptors, the writing ends of the sockets that the entrypoint's arguments name and the standard
-- output and error, and no other; and it mounts more, of the host, the binary, at the path that the system has told, the paths that the
-- entrypoint's environment names, the files that its arguments name, /dev/null and /proc, and
-- nothing else. The standard input is not among them, also if the environment asks for it.
pub prepare_spawner-Grants :
    (os : Os) (sp : Spawner) (b : VoidBuilder) (es : List Environment) (args : List Arg)
    → GivesFrom (GrantsWaiting os sp es args b) (prepare_spawner os sp b es args)
unfolding prepare_spawner
prepare_spawner-Grants os sp b es args = record {
  at = λ h {h'} {a} e.
      let (b1, h1, p1, e1) = >>=-eq_ok (mount_entrypoint os sp.binary b) _ h e in
      let (binary, found, is_b1) = mount_entrypoint-eq_ok os sp.binary b h p1 in
      let b2 = forward_mounts b1 es args in
      let (b3, h2, p2, e2) = >>=-eq_ok (forward_files sp b2 args) _ h1 e1 in
      let files = (forward_files-Grants sp b2 args).at h1 p2 in
      let first : Grants [] (binary ∷ []) b b1 = rw is_b1 (Grants-mount binary entrypoint_path b) in
      let sources = mounted_sources es ++ opened_sources args in
      let both =
        Grants-append [] [] (binary ∷ []) sources b b1 b2 first
          (forward_mounts-Grants b1 es args) in
      let given =
        Grants-append (write_ends sp args) (1 ∷ 2 ∷ []) [] (dev_null ∷ proc ∷ []) b2 b3 _ files
          (forward_standard-Grants b3) in
      (
        binary,
        found,
        (Gives-pure
              {R = λ b4.
                Grants (write_ends sp args ++ (1 ∷ 2 ∷ []))
                  (binary ∷ (sources ++ (dev_null ∷ proc ∷ []))) b b4}
              _
              (Grants-append [] (write_ends sp args ++ (1 ∷ 2 ∷ [])) (binary ∷ sources)
                (dev_null ∷ proc ∷ []) b b2 _ both given)).at
            h2 e2,
      );
}
