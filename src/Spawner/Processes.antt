-- ===== src/Spawner/Processes.antt =====
-- spawner/mod.rs and spawner/args.rs: how many processes are cloned for the entrypoints, and which
-- process goes on after the handler of an RPC has been forked.
use void_orchestrator.Base.{
  ℕ, ℤ, ◌≡◌, ◌≢◌, refl, ap, sym, inl, inr, Bool-cases, arith, ◌==◌, nat_eq, String, List, [], ◌∷◌,
  length, if◌then◌else◌,
}
use void_orchestrator.RpcMessage.{Fd}
use void_orchestrator.Specification.{
  Arg, Pipe, FileSocket, RpcSpecification, Environment, Entrypoint, Trigger,
}
use void_orchestrator.Sys.{Call, History, Os, Nix, done, fail}
use void_orchestrator.Clone.{Addresses}
use void_orchestrator.Program.{
  M, Outcome, ok, err, panic, exit, exec, blocked, undefined, unwrapped, unwrap, or_nix, pure,
  ◌>>=◌, ◌>>◌,
}
use void_orchestrator.Program.Runs.{>>=-eq_ok}
use void_orchestrator.Program.Clones.{Clones, Clones-one, Clones-pure, clones_rules}
use void_orchestrator.Resources.SocketPair
use void_orchestrator.Rpc.{handle}
use void_orchestrator.Rpc.Loop.{handle-ne_ok}
use void_orchestrator.Void.{VoidBuilder}
use void_orchestrator.Void.Spawn.{spawn}
use void_orchestrator.Void.Spawning.{spawn-eq_ok}
use void_orchestrator.Spawner.State.{Spawner, World, OsPath}
use void_orchestrator.Spawner.Arguments.{
  take_pipe_read, take_pipe_write, take_socket_read, serve, fork_handler, prepare_rpc, write_socket,
  prepare_ambient_arg, prepare_other_arg, prepare_ambient_mut_arg, prepare_ambient_mut,
}
use void_orchestrator.Spawner.Environments.{mount_entrypoint, forward_files, prepare_spawner}
use void_orchestrator.Spawner.Start.{prepare_startup, spawn_entrypoint, spawn_entrypoints}

unwrapped-eq_ok : {A : Type 0} (r : Outcome A) {a : A} → unwrapped r ≡ ok a → r ≡ ok a
unwrapped-eq_ok (ok x) e = e
unwrapped-eq_ok (err x) e = cc
unwrapped-eq_ok panic e = cc
unwrapped-eq_ok (exit n) e = cc
unwrapped-eq_ok (exec p argv) e = cc
unwrapped-eq_ok blocked e = cc
unwrapped-eq_ok undefined e = cc

-- Only the parent goes on.
abbrev pub GoesOn : Os → History → History → Type 0
GoesOn os h h' = (pid : ℕ) × (os h Call.fork ≡ done pid) × (pid ≢ 0) × (h' ≡ Call.fork ∷ h)

module _ (w : World) (specs : List RpcSpecification) (ambient : Fd) where
  serve-ne_ok : (h h' : History) → serve w specs ambient h ≢ (ok tt, h')
  unfolding serve unwrap
  serve-ne_ok h h' e =
      let (r, h1) = handle w.os w.view specs ambient (w.requests h ambient) h in
      let returned : r ≡ ok tt = unwrapped-eq_ok r (ap (λ t. t.0) e) in
      handle-ne_ok w.os w.view specs ambient (w.requests h ambient) h h1 (λ i. (returned i, h1))

  forked-GoesOn :
      (h : History) (r : Nix ℕ) {h' : History}
      → w.os h Call.fork ≡ r
      → (or_nix "fork" r >>= λ pid. if pid == 0 then serve w specs ambient else pure tt)
          (Call.fork ∷ h)
        ≡ (ok tt, h')
      → GoesOn w.os h h'
  unfolding ◌>>=◌
  forked-GoesOn h (fail x) f e = cc
  forked-GoesOn h (done pid) {h'} f e = elim (Bool-cases (pid == 0)) [
    | inl zero_pid ↦ absurd (serve-ne_ok (Call.fork ∷ h) h' (rw zero_pid at e))
    | inr other ↦ (pid, f, ground arith, sym (ap (λ t. t.1) (rw other at e)))
  ]

  pub fork_handler-GoesOn :
      (h : History) {h' : History} → fork_handler w specs ambient h ≡ (ok tt, h') → GoesOn w.os h h'
  unfolding fork_handler ◌>>=◌
  fork_handler-GoesOn h e = forked-GoesOn h _ refl e

module _ (w : World) where
  paired-GoesOn :
      (specs : List RpcSpecification) (h : History) (r : Nix (Fd × Fd)) {h' : History} {fd : Fd}
      → w.os h Call.socketpair ≡ r
      → (or_nix "socketpair" r >>= λ ends. fork_handler w specs ends.0 >> pure ends.1)
          (Call.socketpair ∷ h)
        ≡ (ok fd, h')
      → (ambient : Fd) × (w.os h Call.socketpair ≡ done (ambient, fd))
        × GoesOn w.os (Call.socketpair ∷ h) h'
  unfolding ◌>>=◌
  paired-GoesOn specs h (fail x) s e = cc
  paired-GoesOn specs h (done (ambient, void)) {h'} {fd} s e =
      let (_, h1, forked, returned) =
        >>=-eq_ok (fork_handler w specs ambient) (λ _. pure void) _ e in
      let void_is : void ≡ fd = cc in
      let same : h1 ≡ h' = ap (λ t. t.1) returned in
      (
        ambient,
        rw (← void_is) s,
        rw (← same) (fork_handler-GoesOn w specs ambient (Call.socketpair ∷ h) forked),
      )

  -- The preparation of an RPC argument returns in the parent only, as fork(2) has not answered 0:
  -- the handler's process never goes on to prepare further arguments or to start entrypoints. It
  -- returns the second descriptor of a new socketpair(2), and has called nothing else.
  pub prepare_rpc-GoesOn :
      (specs : List RpcSpecification) (h : History) {h' : History} {fd : Fd}
      → prepare_rpc w specs h ≡ (ok fd, h')
      → (ambient : Fd) × (w.os h Call.socketpair ≡ done (ambient, fd))
        × GoesOn w.os (Call.socketpair ∷ h) h'
  unfolding prepare_rpc ◌>>=◌
  prepare_rpc-GoesOn specs h e = paired-GoesOn specs h _ refl e

  fork_handler-Clones :
      (specs : List RpcSpecification) (ambient : Fd) → Clones 0 (fork_handler w specs ambient)
  fork_handler-Clones specs ambient = record {
    at = λ h e.
        let (pid, _, _, same) = fork_handler-GoesOn w specs ambient h e in rw same (omega arith);
  }

  pub prepare_ambient_arg-Clones :
      (sp : Spawner) (b : VoidBuilder) (a : Arg) → Clones 0 (prepare_ambient_arg w sp b a)
  unfolding prepare_ambient_arg prepare_rpc write_socket SocketPair.write
  prepare_ambient_arg-Clones sp b (Arg.file_socket (FileSocket.rx s)) = search clones_rules
  prepare_ambient_arg-Clones sp b (Arg.file_socket (FileSocket.tx s)) = search clones_rules
  prepare_ambient_arg-Clones sp b (Arg.rpc specs) = search (clones_rules, fork_handler-Clones)
  prepare_ambient_arg-Clones sp b _ = search clones_rules

  prepare_ambient_mut_arg-Clones :
      (sp : Spawner) (b : VoidBuilder) (a : Arg) → Clones 0 (prepare_ambient_mut_arg w sp b a)
  unfolding prepare_ambient_mut_arg prepare_other_arg take_pipe_read take_pipe_write
      take_socket_read
  prepare_ambient_mut_arg-Clones sp b (Arg.pipe (Pipe.rx s)) = search clones_rules
  prepare_ambient_mut_arg-Clones sp b (Arg.pipe (Pipe.tx s)) = search clones_rules
  prepare_ambient_mut_arg-Clones sp b (Arg.file_socket (FileSocket.rx s)) = search clones_rules
  prepare_ambient_mut_arg-Clones sp b (Arg.file_socket (FileSocket.tx s)) =
      search (clones_rules, prepare_ambient_arg-Clones)
  prepare_ambient_mut_arg-Clones sp b a = search (clones_rules, prepare_ambient_arg-Clones)

  prepare_ambient_mut-Clones :
      (sp : Spawner) (b : VoidBuilder) (args : List Arg)
      → Clones 0 (prepare_ambient_mut w sp b args)
  unfolding prepare_ambient_mut
  prepare_ambient_mut-Clones sp b [] = search clones_rules
  prepare_ambient_mut-Clones sp b (a ∷ args) = search (
    clones_rules,
    prepare_ambient_mut_arg-Clones,
    λ (sp1 : Spawner) (b1 : VoidBuilder). prepare_ambient_mut-Clones sp1 b1 args,
  )

  mount_entrypoint-Clones :
      (binary : OsPath) (b : VoidBuilder) → Clones 0 (mount_entrypoint w.os binary b)
  unfolding mount_entrypoint
  mount_entrypoint-Clones binary b = search clones_rules

  forward_files-Clones :
      (sp : Spawner) (b : VoidBuilder) (args : List Arg) → Clones 0 (forward_files sp b args)
  unfolding forward_files
  forward_files-Clones sp b [] = search clones_rules
  forward_files-Clones sp b (Arg.file_socket socket ∷ args) =
      search (clones_rules, λ (b1 : VoidBuilder). forward_files-Clones sp b1 args)
  forward_files-Clones sp b (_ ∷ args) = forward_files-Clones sp b args

  prepare_spawner-Clones :
      (sp : Spawner) (b : VoidBuilder) (environment : List Environment) (args : List Arg)
      → Clones 0 (prepare_spawner w.os sp b environment args)
  unfolding prepare_spawner
  prepare_spawner-Clones sp b environment args =
      search (clones_rules, mount_entrypoint-Clones, forward_files-Clones)

  spawn-Clones :
      (at : Addresses) (b : VoidBuilder) (child_fn : M ℤ) → Clones 1 (spawn w.os at b child_fn)
  spawn-Clones at b child_fn = record {
    at = λ h e. let (_, same) = spawn-eq_ok w.os at b child_fn h e in rw same (omega arith);
  }

  -- It is spawned, and something else is returned.
  pub spawned-Clones :
      {A : Type 0} (at : Addresses) (b : VoidBuilder) (child_fn : M ℤ) (a : A)
      → Clones 1 (spawn w.os at b child_fn >> pure a)
  spawned-Clones at b child_fn a = Clones-one _ _ (spawn-Clones at b child_fn) λ _. Clones-pure a

  spawn_entrypoint-Clones :
      (sp : Spawner) (name : String) (entry : Entrypoint) (trigger : Trigger)
      → Clones 1 (spawn_entrypoint w sp name entry trigger)
  unfolding spawn_entrypoint prepare_startup take_pipe_read take_socket_read
  spawn_entrypoint-Clones sp name entry Trigger.startup =
      search (clones_rules, spawned-Clones, mount_entrypoint-Clones, prepare_ambient_mut-Clones)
  spawn_entrypoint-Clones sp name entry (Trigger.pipe s) =
      search (clones_rules, spawned-Clones, prepare_spawner-Clones)
  spawn_entrypoint-Clones sp name entry (Trigger.file_socket s) =
      search (clones_rules, spawned-Clones, prepare_spawner-Clones)

  -- One process is cloned for each entrypoint.
  pub spawn_entrypoints-Clones :
      (sp : Spawner) (entries : List (String × Entrypoint))
      → Clones (length entries) (spawn_entrypoints w sp entries)
  unfolding spawn_entrypoints
  spawn_entrypoints-Clones sp [] = Clones-pure tt
  spawn_entrypoints-Clones sp ((name, entry) ∷ entries) =
      Clones-one _ _ (spawn_entrypoint-Clones sp name entry entry.trigger)
        λ sp'. spawn_entrypoints-Clones sp' entries
