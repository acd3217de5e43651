-- ===== src/Spawner/Confinement.antt =====
-- spawner/mod.rs and spawner/args.rs: which descriptors and which sources of mounts the builder of a
-- void has when an entrypoint's environment and arguments have been prepared.
use void_orchestrator.Base.{
  ◌≡◌, refl, ◌∙◌, ◌||◌, string_eq, nat_eq, List, [], ◌∷◌, ◌++◌, arith, contains, contains-append,
}
use void_orchestrator.Base.Sets.{contains-insert}
use void_orchestrator.RpcMessage.{Fd}
use void_orchestrator.Paths.{path_eq}
use void_orchestrator.Specification.{Arg, Pipe, FileSocket}
use void_orchestrator.Program.Runs.{Gives, Gives-pure, Gives-give, Gives-bind, Gives-bind_of}
use void_orchestrator.Void.{VoidBuilder, keep_fd}
use void_orchestrator.Spawner.State.{Spawner, World}
use void_orchestrator.Spawner.Argv.{PreparedArg}
use void_orchestrator.Spawner.Arguments.{
  prepare_ambient_arg, prepare_ambient, prepare_other_arg, prepare_ambient_mut_arg,
  prepare_ambient_mut,
}

-- The descriptors that an argument passes and that its void keeps. That of an RPC is not kept.
abbrev pub kept_fd : PreparedArg → List Fd
kept_fd (PreparedArg.file fd) = fd ∷ []
kept_fd (PreparedArg.pipe fd) = fd ∷ []
kept_fd (PreparedArg.file_socket fd) = fd ∷ []
kept_fd (PreparedArg.tcp_listener fd) = fd ∷ []
kept_fd _ = []

abbrev pub kept_fds : List PreparedArg → List Fd
kept_fds [] = []
kept_fds (p ∷ ps) = kept_fd p ++ kept_fds ps

-- The builder keeps these descriptors more than before, and mounts the same.
pub record Adds (fds : List Fd) (b b' : VoidBuilder) : Type 0 where
  pub fds_kept : (k : Fd) → contains b'.fds k ≡ (contains b.fds k || contains fds k)
  pub same_mounts : b'.mounts ≡ b.mounts

Adds-none : (b : VoidBuilder) → Adds [] b b
Adds-none b = record { fds_kept = λ k. ground arith; same_mounts = refl }

Adds-keep_fd : (fd : Fd) (b : VoidBuilder) → Adds (fd ∷ []) b (keep_fd fd b)
unfolding keep_fd
Adds-keep_fd fd b = record {
  fds_kept = λ k. ground (arith, contains-insert fd k b.fds);
  same_mounts = refl;
}

-- One argument and then others.
Adds-cons :
    (p : PreparedArg) (ps : List PreparedArg) (b b1 b2 : VoidBuilder)
    → Adds (kept_fd p) b b1
    → Adds (kept_fds ps) b1 b2
    → Adds (kept_fds (p ∷ ps)) b b2
Adds-cons p ps b b1 b2 first rest = record {
  fds_kept = λ k.
      ground
        (arith, rest.fds_kept k, first.fds_kept k, contains-append (kept_fd p) (kept_fds ps) k);
  same_mounts = rest.same_mounts ∙ first.same_mounts;
}

-- Of an argument that was prepared, from the builder before.
abbrev AddsOne : VoidBuilder → PreparedArg × VoidBuilder → Type 0
AddsOne b (p, b') = Adds (kept_fd p) b b'

abbrev AddsOneMut : VoidBuilder → PreparedArg × Spawner × VoidBuilder → Type 0
AddsOneMut b (p, sp, b') = Adds (kept_fd p) b b'

abbrev pub AddsAll : VoidBuilder → List PreparedArg × VoidBuilder → Type 0
AddsAll b (ps, b') = Adds (kept_fds ps) b b'

abbrev pub AddsAllMut : VoidBuilder → List PreparedArg × Spawner × VoidBuilder → Type 0
AddsAllMut b (ps, sp, b') = Adds (kept_fds ps) b b'

module _ (w : World) where
  prepare_ambient_arg-Adds :
      (sp : Spawner) (b : VoidBuilder) (a : Arg) → Gives (AddsOne b) (prepare_ambient_arg w sp b a)
  unfolding prepare_ambient_arg
  prepare_ambient_arg-Adds sp b (Arg.pipe p) = Gives-give _ (λ a e. cc)
  prepare_ambient_arg-Adds sp b (Arg.file_socket (FileSocket.rx s)) = Gives-give _ (λ a e. cc)
  prepare_ambient_arg-Adds sp b (Arg.file_socket (FileSocket.tx s)) =
      Gives-bind _ _ λ fd. Gives-pure _ (Adds-keep_fd fd b)
  prepare_ambient_arg-Adds sp b (Arg.file path) =
      Gives-bind _ _ λ r. Gives-bind _ _ λ fd. Gives-pure _ (Adds-keep_fd fd b)
  prepare_ambient_arg-Adds sp b (Arg.tcp_listener addr) =
      Gives-bind _ _ λ r. Gives-bind _ _ λ fd. Gives-pure _ (Adds-keep_fd fd b)
  prepare_ambient_arg-Adds sp b (Arg.rpc specs) = Gives-bind _ _ λ fd. Gives-pure _ (Adds-none b)
  prepare_ambient_arg-Adds sp b Arg.binary_name = Gives-pure _ (Adds-none b)
  prepare_ambient_arg-Adds sp b Arg.entrypoint = Gives-pure _ (Adds-none b)
  prepare_ambient_arg-Adds sp b Arg.trigger = Gives-pure _ (Adds-none b)
  prepare_ambient_arg-Adds sp b Arg.trailing = Gives-pure _ (Adds-none b)

  prepare_other_arg-Adds :
      (sp : Spawner) (b : VoidBuilder) (a : Arg) → Gives (AddsOneMut b) (prepare_other_arg w sp b a)
  unfolding prepare_other_arg
  prepare_other_arg-Adds sp b a =
      Gives-bind_of _ _ (prepare_ambient_arg-Adds sp b a) λ (p, b') k. Gives-pure _ k

  prepare_ambient_mut_arg-Adds :
      (sp : Spawner) (b : VoidBuilder) (a : Arg)
      → Gives (AddsOneMut b) (prepare_ambient_mut_arg w sp b a)
  unfolding prepare_ambient_mut_arg
  prepare_ambient_mut_arg-Adds sp b (Arg.pipe (Pipe.rx s)) =
      Gives-bind _ _ λ (fd, sp'). Gives-pure _ (Adds-keep_fd fd b)
  prepare_ambient_mut_arg-Adds sp b (Arg.pipe (Pipe.tx s)) =
      Gives-bind _ _ λ (fd, sp'). Gives-pure _ (Adds-keep_fd fd b)
  prepare_ambient_mut_arg-Adds sp b (Arg.file_socket (FileSocket.rx s)) =
      Gives-bind _ _ λ (fd, sp'). Gives-pure _ (Adds-keep_fd fd b)
  prepare_ambient_mut_arg-Adds sp b (Arg.file_socket (FileSocket.tx s)) =
      prepare_other_arg-Adds sp b (Arg.file_socket (FileSocket.tx s))
  prepare_ambient_mut_arg-Adds sp b a = prepare_other_arg-Adds sp b a

  pub prepare_ambient-Adds :
      (sp : Spawner) (b : VoidBuilder) (args : List Arg)
      → Gives (AddsAll b) (prepare_ambient w sp b args)
  unfolding prepare_ambient
  prepare_ambient-Adds sp b [] = Gives-pure _ (Adds-none b)
  prepare_ambient-Adds sp b (a ∷ args) =
      Gives-bind_of _ _ (prepare_ambient_arg-Adds sp b a) λ (p, b1) first.
        Gives-bind_of _ _ (prepare_ambient-Adds sp b1 args)
          λ (ps, b2) rest. Gives-pure _ (Adds-cons p ps b b1 b2 first rest)

  pub prepare_ambient_mut-Adds :
      (sp : Spawner) (b : VoidBuilder) (args : List Arg)
      → Gives (AddsAllMut b) (prepare_ambient_mut w sp b args)
  unfolding prepare_ambient_mut
  prepare_ambient_mut-Adds sp b [] = Gives-pure _ (Adds-none b)
  prepare_ambient_mut-Adds sp b (a ∷ args) =
      Gives-bind_of _ _ (prepare_ambient_mut_arg-Adds sp b a) λ (p, sp1, b1) first.
        Gives-bind_of _ _ (prepare_ambient_mut-Adds sp1 b1 args)
          λ (ps, sp2, b2) rest. Gives-pure _ (Adds-cons p ps b b1 b2 first rest)
