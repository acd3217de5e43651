-- ===== src/Spawner/Declared.antt =====
-- spawner/mod.rs: what the builder of an entrypoint's void is granted.
use void_orchestrator.Base.{
  ◌≡◌, ◌||◌, ◌==◌, nat_eq, List, [], ◌∷◌, ◌++◌, arith, contains, contains-append,
}
use void_orchestrator.Base.Sets.{contains-insert}
use void_orchestrator.RpcMessage.{Fd}
use void_orchestrator.Paths.{path_eq, path_beq_iff}
use void_orchestrator.Specification.{FilePath, Environment, Entrypoint}
use void_orchestrator.Program.Runs.{GivesFrom, call_io_done, >>=-eq_ok, Gives, Gives-mono}
use void_orchestrator.Void.{
  VoidBuilder, insert_mount, mount, keep_fd, remount_proc, set_hostname, set_domain_name,
  contains_key,
}
use void_orchestrator.Void
use void_orchestrator.Void.Namespaces.{proc}
use void_orchestrator.Sys.{Call, Os, History, done}
use void_orchestrator.Program.{ok, pure}
use void_orchestrator.Spawner.State.{Spawner, World, OsPath}
use void_orchestrator.Spawner.Argv.{PreparedArg}
use void_orchestrator.Spawner.Environments.{
  entrypoint_path, add_environment, prepare_env, mount_entrypoint,
}
use void_orchestrator.Spawner.Triggers.{prepare_triggered}
use void_orchestrator.Spawner.Start.{prepare_startup}
use void_orchestrator.Spawner.Confinement.{
  kept_fds, Adds, prepare_ambient-Adds, prepare_ambient_mut-Adds,
}

-- The standard descriptors that an environment asks for.
abbrev pub declared_fd : Environment → List Fd
declared_fd Environment.stdin = 0 ∷ []
declared_fd Environment.stdout = 1 ∷ []
declared_fd Environment.stderr = 2 ∷ []
declared_fd _ = []

abbrev pub declared_fds : List Environment → List Fd
declared_fds [] = []
declared_fds (e ∷ es) = declared_fd e ++ declared_fds es

-- The paths of the host that an environment asks for.
abbrev pub declared_source : Environment → List FilePath
declared_source (Environment.filesystem host_path _) = host_path ∷ []
declared_source Environment.procfs = proc ∷ []
declared_source _ = []

abbrev pub declared_sources : List Environment → List FilePath
declared_sources [] = []
declared_sources (e ∷ es) = declared_source e ++ declared_sources es

contains_key-insert_mount :
    (k src dst : FilePath) (ms : List (FilePath × FilePath))
    → contains_key k (insert_mount src dst ms) ≡ (contains_key k ms || src == k)
unfolding insert_mount contains_key
contains_key-insert_mount k src dst [] = ground arith
contains_key-insert_mount k src dst ((s, d) ∷ ms) = ground (
  arith,
  contains_key-insert_mount k src dst ms,
  path_beq_iff s src,
  path_beq_iff src k,
  path_beq_iff s k,
)

-- From one builder to another, these descriptors and these sources of mounts have been added, and
-- nothing else.
pub record Grants (fds : List Fd) (sources : List FilePath) (b b' : VoidBuilder) : Type 0 where
  pub fds_are : (k : Fd) → contains b'.fds k ≡ (contains b.fds k || contains fds k)
  pub sources_are :
      (src : FilePath)
      → contains_key src b'.mounts ≡ (contains_key src b.mounts || contains sources src)

pub Grants-none : (b : VoidBuilder) → Grants [] [] b b
Grants-none b = record { fds_are = λ k. ground arith; sources_are = λ src. ground arith }

-- Two grants, one after the other.
pub Grants-append :
    (fds fds' : List Fd) (sources sources' : List FilePath) (b b1 b2 : VoidBuilder)
    → Grants fds sources b b1
    → Grants fds' sources' b1 b2
    → Grants (fds ++ fds') (sources ++ sources') b b2
Grants-append fds fds' sources sources' b b1 b2 first rest = record {
  fds_are = λ k. ground (arith, first.fds_are k, rest.fds_are k, contains-append fds fds' k);
  sources_are = λ src.
      ground
        (arith, first.sources_are src, rest.sources_are src, contains-append sources sources' src);
}

pub Grants-mount : (src dst : FilePath) (b : VoidBuilder) → Grants [] (src ∷ []) b (mount src dst b)
unfolding mount
Grants-mount src dst b = record {
  fds_are = λ k. ground arith;
  sources_are = λ s. ground (arith, contains_key-insert_mount s src dst b.mounts);
}

pub Grants-keep_fd : (fd : Fd) (b : VoidBuilder) → Grants (fd ∷ []) [] b (keep_fd fd b)
unfolding keep_fd
Grants-keep_fd fd b = record {
  fds_are = λ k. ground (arith, contains-insert fd k b.fds);
  sources_are = λ src. ground arith;
}

add_environment-Grants :
    (b : VoidBuilder) (e : Environment)
    → Grants (declared_fd e) (declared_source e) b (add_environment b e)
unfolding add_environment remount_proc set_hostname set_domain_name
add_environment-Grants b (Environment.filesystem src dst) = Grants-mount src dst b
add_environment-Grants b (Environment.hostname name) = record {
  fds_are = λ k. ground arith;
  sources_are = λ src. ground arith;
}
add_environment-Grants b (Environment.domain_name name) = record {
  fds_are = λ k. ground arith;
  sources_are = λ src. ground arith;
}
add_environment-Grants b Environment.procfs =
    let g = Grants-mount proc proc b in record { fds_are = g.fds_are; sources_are = g.sources_are }
add_environment-Grants b Environment.stdin = Grants-keep_fd 0 b
add_environment-Grants b Environment.stdout = Grants-keep_fd 1 b
add_environment-Grants b Environment.stderr = Grants-keep_fd 2 b

prepare_env-Grants :
    (b : VoidBuilder) (es : List Environment)
    → Grants (declared_fds es) (declared_sources es) b (prepare_env b es)
unfolding prepare_env
prepare_env-Grants b [] = Grants-none b
prepare_env-Grants b (e ∷ es) =
    Grants-append (declared_fd e) (declared_fds es) (declared_source e) (declared_sources es) b
      (add_environment b e) _ (add_environment-Grants b e)
      (prepare_env-Grants (add_environment b e) es)

-- The environment first, and then the arguments.
with_arguments :
    (b b' : VoidBuilder) (es : List Environment) (ps : List PreparedArg)
    → Adds (kept_fds ps) (prepare_env b es) b'
    → Grants (declared_fds es ++ kept_fds ps) (declared_sources es) b b'
with_arguments b b' es ps a =
    let g = prepare_env-Grants b es in
    record {
      fds_are = λ k.
          ground
            (arith, a.fds_kept k, g.fds_are k, contains-append (declared_fds es) (kept_fds ps) k);
      sources_are = λ src. rw a.same_mounts (g.sources_are src);
    }

-- What the void of a triggered entrypoint is granted, beyond the builder `b`.
abbrev pub GrantsTriggered : Entrypoint → VoidBuilder → List PreparedArg × VoidBuilder → Type 0
GrantsTriggered entry b (ps, b') =
    Grants (declared_fds entry.environment ++ kept_fds ps) (declared_sources entry.environment) b b'

-- The system finds the binary at this path.
abbrev pub IsFoundAt : Os → OsPath → FilePath → History → Type 0
IsFoundAt os binary path h = os h (Call.canonicalize binary.path) ≡ done path

-- What the void of an entrypoint that is started at once is granted: besides what is declared, its
-- binary, at the path that the system finds it at.
abbrev pub GrantsStartup :
    World → Spawner → Entrypoint → History → List PreparedArg × Spawner × VoidBuilder → Type 0
GrantsStartup w sp entry h (ps, _, b') =
    (binary : FilePath) × IsFoundAt w.os sp.binary binary h
    × Grants (declared_fds entry.environment ++ kept_fds ps)
        (binary ∷ declared_sources entry.environment) Void.new b'

pub mount_entrypoint-eq_ok :
    (os : Os) (binary : OsPath) (b : VoidBuilder) (h : History) {h' : History} {b' : VoidBuilder}
    → mount_entrypoint os binary b h ≡ (ok b', h')
    → (path : FilePath) × IsFoundAt os binary path h × (b' ≡ mount path entrypoint_path b)
unfolding mount_entrypoint pure
mount_entrypoint-eq_ok os binary b h e =
    let (path, found, e1) = call_io_done os _ h (Call.canonicalize binary.path) (λ r. r) e in
    (path, found, cc)

module _ (w : World) (sp : Spawner) (entry : Entrypoint) where
  -- If the arguments of a triggered entrypoint are prepared, then the builder of its void keeps, of
  -- the descriptors, those that the event's builder kept, the standard ones that its environment
  -- names and those that its arguments pass, and no other; and it mounts, of the host, what the
  -- event's builder mounted and the paths that its environment names, and nothing else. The socket
  -- of an RPC argument is not among the descriptors that are kept.
  pub prepare_triggered-Grants :
      (b : VoidBuilder) → Gives (GrantsTriggered entry b) (prepare_triggered w sp entry b)
  unfolding prepare_triggered
  prepare_triggered-Grants b =
      let base = prepare_env b entry.environment in
      Gives-mono _ (λ (ps, b') a. with_arguments b b' entry.environment ps a)
        (prepare_ambient-Adds w sp base entry.args)

  pub prepare_startup-Grants : GivesFrom (GrantsStartup w sp entry) (prepare_startup w sp entry)
  unfolding prepare_startup
  prepare_startup-Grants = record {
    at = λ h {h'} {a} e.
        let (ps, sp', b') = a in
        let es = entry.environment in
        let (b, h1, p, e1) = >>=-eq_ok (mount_entrypoint w.os sp.binary Void.new) _ h e in
        let (path, found, is_b) = mount_entrypoint-eq_ok w.os sp.binary Void.new h p in
        let adds = (prepare_ambient_mut-Adds w sp (prepare_env b es) entry.args).at h1 e1 in
        (
          path,
          found,
          Grants-append [] (declared_fds es ++ kept_fds ps) (path ∷ []) (declared_sources es)
              Void.new b b' (rw is_b (Grants-mount path entrypoint_path Void.new))
              (with_arguments b b' es ps adds),
        );
  }
