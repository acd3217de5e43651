-- ===== src/Orchestrator/Launch.antt =====
-- lib.rs: what a specification that `validate` accepts comes to in the process that runs it.
use void_orchestrator.Base.{
  ℕ, ◌+◌, ◌≤◌, ◌≡◌, refl, inl, inr, Bool, true, false, String, string_eq, some, List, [], ◌∷◌,
  arith,
}
use void_orchestrator.Base.Maps.{get, put}
use void_orchestrator.RpcMessage.{Fd}
use void_orchestrator.Failure.{Result}
use void_orchestrator.Sys.{Call, Os}
use void_orchestrator.Specification.{
  Trigger, Arg, Environment, Entrypoint, Specification, pipes, sockets,
}
use void_orchestrator.Specification.Counts.{
  sum_entries, pipe_trigger_reads, pipe_arg_reads, pipe_arg_writes, socket_trigger_reads,
  socket_arg_reads, socket_arg_writes, pipe_readers, pipe_writers, socket_readers, socket_writers,
}
use void_orchestrator.Specification.Validate.{validate}
use void_orchestrator.Specification.Soundness.{
  IsOrder, AllTriggered, IsWellFormed, validate-IsWellFormed,
}
use void_orchestrator.Program.{M}
use void_orchestrator.Program.Yields.{
  Yields, Anything, Yields-bind, Yields-Gives, Yields-any-call, Yields-any-or_nix, Yields-any-pure,
}
use void_orchestrator.Resources.{create_each, create_pipes, create_sockets}
use void_orchestrator.Resources.PipePair.{PipePair}
use void_orchestrator.Resources.PipePair
use void_orchestrator.Resources.SocketPair.{SocketPair}
use void_orchestrator.Resources.SocketPair
use void_orchestrator.Resources.Creation.{create_pipes-covers, create_sockets-covers}
use void_orchestrator.Spawner.State.{Spawner, World}
use void_orchestrator.Spawner.Supplies.{entries_needs, Supplies}
use void_orchestrator.Spawner.Supplies.Parent.{IsParent}
use void_orchestrator.Spawner.Supplies.Spawning.{spawn_entrypoints-Yields}
use void_orchestrator.Orchestrator.{
  RunArgs, forward_each, forward_if, forward_std, launch, is_stdout, is_stderr,
}

module _ (w : World) where
  module _ (test : Environment → Bool) (e : Environment) where
    sum_entries-forward_each :
        (g : Trigger → ℕ) (f : Arg → ℕ) (es : List (String × Entrypoint))
        → sum_entries g f (forward_each w test e es) ≡ sum_entries g f es
    unfolding forward_each
    sum_entries-forward_each g f [] = refl
    sum_entries-forward_each g f ((n, x) ∷ es) = omega (arith, sum_entries-forward_each g f es)

    AllTriggered-forward_each :
        (es : List (String × Entrypoint))
        → AllTriggered es
        → AllTriggered (forward_each w test e es)
    unfolding forward_each
    AllTriggered-forward_each [] t = tt
    AllTriggered-forward_each ((n, x) ∷ es) (t, ts) = (t, AllTriggered-forward_each es ts)

    IsWellFormed-forward_if :
        (b : Bool) (spec : Specification)
        → IsWellFormed spec
        → IsWellFormed (forward_if w b test e spec)
    unfolding forward_if
    IsWellFormed-forward_if false spec v = v
    IsWellFormed-forward_if true spec v = record {
      pipes_paired = λ n.
          rw
            (
              sum_entries-forward_each (pipe_trigger_reads n) (pipe_arg_reads n) spec.entrypoints,
              sum_entries-forward_each (λ _. 0) (pipe_arg_writes n) spec.entrypoints,
            )
            (v.pipes_paired n);
      sockets_served = λ n.
          rw
            (
              sum_entries-forward_each (socket_trigger_reads n) (socket_arg_reads n)
                  spec.entrypoints,
              sum_entries-forward_each (λ _. 0) (socket_arg_writes n) spec.entrypoints,
            )
            (v.sockets_served n);
      args_triggered = AllTriggered-forward_each spec.entrypoints v.args_triggered;
    }

  IsWellFormed-forward_std :
      (args : RunArgs) (spec : Specification)
      → IsWellFormed spec
      → IsWellFormed (forward_std w args spec)
  unfolding forward_std
  IsWellFormed-forward_std args spec v =
      IsWellFormed-forward_if is_stderr Environment.stderr args.stderr _
        (IsWellFormed-forward_if is_stdout Environment.stdout args.stdout spec v)

create_each-Yields :
    {A : Type 0} (new : String → M A) (map : List (String × A)) (names : List String)
    → ((n : String) → Yields Anything (new n))
    → Yields Anything (create_each new map names)
unfolding create_each
create_each-Yields new map [] k = Yields-any-pure map
create_each-Yields new map (n ∷ names) k =
    Yields-bind _ _ (k n) λ made _. create_each-Yields new (put n made map) names k

module _ (os : Os) where
  create_pipes-Yields : (names : List String) → Yields Anything (create_pipes os names)
  unfolding create_pipes PipePair.new
  create_pipes-Yields names = create_each-Yields (PipePair.new os) [] names λ n.
      Yields-bind _ _ (Yields-any-call os Call.pipe2)
        λ r _. Yields-bind _ _ (Yields-any-or_nix "pipe2" r) λ ends _. Yields-any-pure _

  create_sockets-Yields : (names : List String) → Yields Anything (create_sockets os names)
  unfolding create_sockets SocketPair.new
  create_sockets-Yields names = create_each-Yields (SocketPair.new os) [] names λ n.
      Yields-bind _ _ (Yields-any-call os Call.socketpair)
        λ r _. Yields-bind _ _ (Yields-any-or_nix "socketpair" r) λ ends _. Yields-any-pure _

  -- The map has every pipe of the specification, with both ends.
  abbrev PipesCover : Specification → List (String × PipePair) → Type 0
  PipesCover spec map =
      (n : String)
      → 1 ≤ pipe_readers n spec + pipe_writers n spec
      → (ends : Fd × Fd) × (get n map ≡ some (PipePair.fresh n ends))

  abbrev SocketsCover : Specification → List (String × SocketPair) → Type 0
  SocketsCover spec map =
      (n : String)
      → 1 ≤ socket_readers n spec + socket_writers n spec
      → (ends : Fd × Fd) × (get n map ≡ some (SocketPair.fresh n ends))

  module _ (spec : Specification) (v : IsWellFormed spec) where
    create_pipes-PipesCover : Yields (PipesCover spec) (create_pipes os (pipes spec).read)
    create_pipes-PipesCover =
        Yields-Gives _ (create_pipes-Yields (pipes spec).read)
          (record { at = λ h e n used. create_pipes-covers os spec h n v e used })

    create_sockets-SocketsCover : Yields (SocketsCover spec) (create_sockets os (sockets spec).read)
    create_sockets-SocketsCover =
        Yields-Gives _ (create_sockets-Yields (sockets spec).read)
          (record { at = λ h e n used. create_sockets-covers os spec h n v e used })

    -- The maps that are created for a well-formed specification supply its entrypoints.
    created-Supplies :
        (sp : Spawner)
        → PipesCover spec sp.pipes
        → SocketsCover spec sp.sockets
        → Supplies (entries_needs spec.entrypoints) sp
    created-Supplies sp ps ss = record {
      reads = λ n. elim (v.pipes_paired n) [
        | inl (r, _) ↦ inl r
        | inr (r, _) ↦ let (ends, there) = ps n (omega arith) in inr (r, (_, _, there, refl))
      ];
      writes = λ n. elim (v.pipes_paired n) [
        | inl (_, x) ↦ inl x
        | inr (_, x) ↦ let (ends, there) = ps n (omega arith) in inr (x, (_, _, there, refl))
      ];
      receives = λ n. elim (v.sockets_served n) [
        | inl (r, _) ↦ inl r
        | inr (r, _) ↦ let (ends, there) = ss n (omega arith) in inr (r, (_, _, there, refl))
      ];
      known = λ n. elim (v.sockets_served n) [
        | inl (r, x) ↦ inl (omega arith)
        | inr (r, x) ↦ let (ends, there) = ss n (omega arith) in inr (_, there)
      ];
    }

module _ (w : World) (parent : IsParent w.os) (order : IsOrder w.iter) (args : RunArgs) where
  launch_formed-Yields :
      (spec : Specification) → IsWellFormed spec → Yields Anything (launch w args spec)
  unfolding launch
  launch_formed-Yields spec v = Yields-bind _ _ (create_pipes-PipesCover w.os spec v) λ pipe_map ps.
      Yields-bind _ _ (create_sockets-SocketsCover w.os spec v) λ socket_map ss.
        spawn_entrypoints-Yields w parent _ spec.entrypoints (created-Supplies w.os spec v _ ps ss)

  -- In the parent, with a specification that `validate` accepts, and whatever stdout and stderr are
  -- forwarded, the creation of its pipes and sockets and the start of all its entrypoints either
  -- return or fail with the error of a call: no pair is missing where it is unwrapped, no end of a
  -- pipe or socket is taken twice, and the program neither panics nor fails with an error of its own.
  pub launch-Yields :
      (spec : Specification)
      → validate w.iter spec ≡ Result.ok tt
      → Yields Anything (launch w args (forward_std w args spec))
  launch-Yields spec accepted =
      launch_formed-Yields (forward_std w args spec) (
        IsWellFormed-forward_std w args spec ((validate-IsWellFormed w.iter order spec).0 accepted))
