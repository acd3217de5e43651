-- ===== src/Spawner/Supplies/Spawning.antt =====
-- spawner/mod.rs: how `Spawner::spawn` can end, with the maps that its specification needs.
use void_orchestrator.Base.{ℕ, ◌≤◌, inl, inr, String, string_eq, List, [], ◌∷◌, arith}
use void_orchestrator.Base.Maps.{get}
use void_orchestrator.Specification.{
  Arg, FileSocket, Trigger, Environment, Entrypoint, file_socket_name,
}
use void_orchestrator.Program.{M, or_panic, ◌>>=◌}
use void_orchestrator.Program.Yields.{
  Yields, Anything, Yields-pure, Yields-bind, Yields-or_panic, Yields-any-pure,
}
use void_orchestrator.Resources.SocketPair.{SocketPair}
use void_orchestrator.Void.{VoidBuilder, keep_fd}
use void_orchestrator.Void
use void_orchestrator.Spawner.State.{Spawner, World}
use void_orchestrator.Spawner.Environments.{
  prepare_env, forward_mounts, forward_files, prepare_spawner,
}
use void_orchestrator.Spawner.Start.{prepare_startup, spawn_entrypoint, spawn_entrypoints}
use void_orchestrator.Spawner.Supplies.{
  HasPair, Knows, Needs, ◌⊕◌, trigger_needs, args_needs, entries_needs, Supplies,
}
use void_orchestrator.Spawner.Supplies.Ends.{Knows-mono}
use void_orchestrator.Spawner.Supplies.Parent.{IsParent, spawn-Yields, mount_entrypoint-Yields}
use void_orchestrator.Spawner.Supplies.Preparation.{
  Supplies-mono, one_read, one_receive, take_pipe_read-Yields, take_socket_read-Yields, Prepared,
  prepare_ambient_mut-Yields,
}

module _ (sp : Spawner) where
  forward_one-Yields :
      (s : String) (need : String → ℕ) (f : SocketPair → M VoidBuilder)
      → Knows (HasPair sp.sockets) need
      → 1 ≤ need s
      → ((p : SocketPair) → Yields Anything (f p))
      → Yields Anything (or_panic (get s sp.sockets) >>= f)
  forward_one-Yields s need f known needed k = elim (known s) [
    | inl none_left ↦ absurd (omega arith)
    | inr (p, there) ↦
        Yields-bind _ _ (Yields-or_panic {R = Anything} (get s sp.sockets) p there tt) λ q _. k q
  ]

  forward_files-Yields :
      (b : VoidBuilder) (args : List Arg)
      → Knows (HasPair sp.sockets) (args_needs args).sockets
      → Yields Anything (forward_files sp b args)
  unfolding forward_files file_socket_name
  forward_files-Yields b [] known = Yields-any-pure b
  forward_files-Yields b (Arg.file_socket (FileSocket.rx s) ∷ args) known =
      let needs = args_needs (Arg.file_socket (FileSocket.rx s) ∷ args) in
      let rest = Knows-mono needs.sockets (args_needs args).sockets (λ n. omega arith) known in
      forward_one-Yields s needs.sockets _ known (ground (arith, string_eq.beq_iff s s))
        λ p. forward_files-Yields (keep_fd p.write b) args rest
  forward_files-Yields b (Arg.file_socket (FileSocket.tx s) ∷ args) known =
      let needs = args_needs (Arg.file_socket (FileSocket.tx s) ∷ args) in
      let rest = Knows-mono needs.sockets (args_needs args).sockets (λ n. omega arith) known in
      forward_one-Yields s needs.sockets _ known (ground (arith, string_eq.beq_iff s s))
        λ p. forward_files-Yields (keep_fd p.write b) args rest
  forward_files-Yields b (a ∷ args) known = forward_files-Yields b args (
      Knows-mono (args_needs (a ∷ args)).sockets (args_needs args).sockets (λ n. omega arith) known)

module _ (w : World) (parent : IsParent w.os) where
  prepare_spawner-Yields :
      (sp : Spawner) (b : VoidBuilder) (environment : List Environment) (args : List Arg)
      → Knows (HasPair sp.sockets) (args_needs args).sockets
      → Yields Anything (prepare_spawner w.os sp b environment args)
  unfolding prepare_spawner
  prepare_spawner-Yields sp b environment args known =
      Yields-bind _ _ (mount_entrypoint-Yields w.os parent sp.binary b) λ b1 _.
        Yields-bind _ _ (forward_files-Yields sp (forward_mounts b1 environment args) args known)
          λ b2 _. Yields-any-pure _

  module _ (d : Needs) (sp : Spawner) (name : String) (entry : Entrypoint) where
    known_args :
        (t : Trigger)
        → Supplies (trigger_needs t ⊕ args_needs entry.args ⊕ d) sp
        → Knows (HasPair sp.sockets) (args_needs entry.args).sockets
    known_args t s =
        let needs = trigger_needs t ⊕ args_needs entry.args ⊕ d in
        Knows-mono needs.sockets (args_needs entry.args).sockets (λ n. omega arith) s.known

    prepare_startup-Yields :
        Supplies (args_needs entry.args ⊕ d) sp → Yields (Prepared d) (prepare_startup w sp entry)
    unfolding prepare_startup
    prepare_startup-Yields s =
        Yields-bind _ _ (mount_entrypoint-Yields w.os parent sp.binary Void.new) λ b _.
          prepare_ambient_mut-Yields w parent d sp (prepare_env b entry.environment) entry.args s

    spawn_entrypoint-Yields :
        (t : Trigger)
        → Supplies (trigger_needs t ⊕ args_needs entry.args ⊕ d) sp
        → Yields (Supplies d) (spawn_entrypoint w sp name entry t)
    unfolding spawn_entrypoint
    spawn_entrypoint-Yields Trigger.startup s =
        let needs = trigger_needs Trigger.startup ⊕ args_needs entry.args ⊕ d in
        let for_args =
          Supplies-mono needs (args_needs entry.args ⊕ d) (λ n. omega arith) (λ n. omega arith)
            (λ n. omega arith) (λ n. omega arith) s in
        Yields-bind _ _ (prepare_startup-Yields for_args) λ (args, sp', b') s'.
          Yields-bind _ _ (spawn-Yields w.os parent w.at b' _) λ _ _. Yields-pure sp' s'
    spawn_entrypoint-Yields (Trigger.pipe p) s =
        let needs = trigger_needs (Trigger.pipe p) ⊕ args_needs entry.args ⊕ d in
        let for_trigger =
          Supplies-mono needs (one_read p ⊕ d) (λ n. omega arith) (λ n. omega arith)
            (λ n. omega arith) (λ n. omega arith) s in
        Yields-bind _ _
          (prepare_spawner-Yields sp Void.new entry.environment entry.args
            (known_args (Trigger.pipe p) s))
          λ b _. Yields-bind _ _ (take_pipe_read-Yields d sp p for_trigger) λ (fd, sp') s'.
            Yields-bind _ _ (spawn-Yields w.os parent w.at (keep_fd fd b) _)
              λ _ _. Yields-pure sp' s'
    spawn_entrypoint-Yields (Trigger.file_socket p) s =
        let needs = trigger_needs (Trigger.file_socket p) ⊕ args_needs entry.args ⊕ d in
        let for_trigger =
          Supplies-mono needs (one_receive p ⊕ d) (λ n. omega arith) (λ n. omega arith)
            (λ n. omega arith) (λ n. omega arith) s in
        Yields-bind _ _
          (prepare_spawner-Yields sp Void.new entry.environment entry.args
            (known_args (Trigger.file_socket p) s))
          λ b _. Yields-bind _ _ (take_socket_read-Yields d sp p for_trigger) λ (fd, sp') s'.
            Yields-bind _ _ (spawn-Yields w.os parent w.at (keep_fd fd b) _)
              λ _ _. Yields-pure sp' s'

  -- In the parent, a spawner whose maps hold what the entrypoints need starts them all, or fails by
  -- a call: it finds every pair, and takes no end for the second time.
  pub spawn_entrypoints-Yields :
      (sp : Spawner) (entries : List (String × Entrypoint))
      → Supplies (entries_needs entries) sp
      → Yields Anything (spawn_entrypoints w sp entries)
  unfolding spawn_entrypoints
  spawn_entrypoints-Yields sp [] s = Yields-any-pure tt
  spawn_entrypoints-Yields sp ((name, entry) ∷ entries) s =
      let later = entries_needs entries in
      let first =
        Supplies-mono (entries_needs ((name, entry) ∷ entries))
          (trigger_needs entry.trigger ⊕ args_needs entry.args ⊕ later) (λ n. omega arith)
          (λ n. omega arith) (λ n. omega arith) (λ n. omega arith) s in
      Yields-bind _ _ (spawn_entrypoint-Yields later sp name entry entry.trigger first)
        λ sp' s'. spawn_entrypoints-Yields sp' entries s'
