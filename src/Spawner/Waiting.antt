-- ===== src/Spawner/Waiting.antt =====
-- spawner/mod.rs: how the two loops that wait for a trigger end.
use void_orchestrator.Base.{ℕ, ◌==◌, nat_eq, All, String, Option, List, [], ◌∷◌, length, take, ⊤}
use void_orchestrator.Specification.{Arg, Entrypoint}
use void_orchestrator.Sys.{Nix, Io, done, fail}
use void_orchestrator.Program.{M, give}
use void_orchestrator.Program.Yields.{Yields, Anything, Yields-bind, Yields-if, Yields-any-pure}
use void_orchestrator.Program.Clones.{Clones}
use void_orchestrator.Void.{VoidBuilder}
use void_orchestrator.Spawner.State.{Spawner, World, TriggerData, ControlMessage}
use void_orchestrator.Spawner.Arguments.{prepare_ambient}
use void_orchestrator.Spawner.Triggers.{
  buffer_size, triggered_builder, keep_fds, is_interrupted, eintr, prepare_triggered,
  start_triggered, pipe_loop, start_for_messages, socket_loop,
}
use void_orchestrator.Spawner.Supplies.Parent.{IsParent, spawn-Yields}
use void_orchestrator.Spawner.Supplies.Shared.{IsShared, prepare_ambient_arg-Yields}
use void_orchestrator.Spawner.Events.{
  pipe_events, socket_events, pipe_loop-Clones, socket_loop-Clones,
}

-- At last a read fails or brings nothing.
abbrev pub PipeEnds : List (Io (List ℕ)) → Type 0
PipeEnds [] = ⊥
PipeEnds (fail e ∷ _) = Unit
PipeEnds (done [] ∷ _) = Unit
PipeEnds (done (_ ∷ _) ∷ rest) = PipeEnds rest

abbrev pub HasFiles : ControlMessage → Type 0
HasFiles (ControlMessage.scm_rights fds) = Unit
HasFiles ControlMessage.unhandled = ⊥

-- All control messages are of files, and at last no message is received.
abbrev pub SocketEnds : List (Nix (List ControlMessage)) → Type 0
SocketEnds [] = ⊥
SocketEnds (fail e ∷ _) = Unit
SocketEnds (done cmsgs ∷ rest) = All HasFiles cmsgs × SocketEnds rest

-- In its parent, a run returns or fails by a call, and if it returns it has cloned `n` processes.
abbrev pub Starts : ℕ → M ⊤ → Type 0
Starts n m = Yields Anything m × Clones n m

module _ (w : World) (parent : IsParent w.os) (sp : Spawner) where
  prepare_ambient-Yields :
      (b : VoidBuilder) (args : List Arg)
      → All (IsShared sp) args
      → Yields Anything (prepare_ambient w sp b args)
  unfolding prepare_ambient
  prepare_ambient-Yields b [] shared = Yields-any-pure _
  prepare_ambient-Yields b (a ∷ args) (first, rest) =
      Yields-bind _ _ (prepare_ambient_arg-Yields w parent sp b a first) λ (p, b1) _.
        Yields-bind _ _ (prepare_ambient-Yields b1 args rest) λ (ps, b2) _. Yields-any-pure _

  module _ (entry : Entrypoint) (name : String) (shared : All (IsShared sp) entry.args) where
    start_triggered-Yields :
        (b : VoidBuilder) (trigger : Option TriggerData)
        → Yields Anything (start_triggered w sp entry name b trigger)
    unfolding start_triggered prepare_triggered
    start_triggered-Yields b trigger =
        Yields-bind _ _ (prepare_ambient-Yields _ entry.args shared) λ (args, b') _.
          Yields-bind _ _ (spawn-Yields w.os parent w.at b' _) λ pid _. Yields-any-pure tt

    pipe_loop-Yields :
        (reads : List (Io (List ℕ)))
        → PipeEnds reads
        → Yields Anything (pipe_loop w sp entry name reads)
    unfolding pipe_loop give
    pipe_loop-Yields [] ends = absurd ends
    pipe_loop-Yields (fail e ∷ rest) ends =
        Yields-if (is_interrupted e.raw_os_error) _ _ (Yields-any-pure tt) (record { at = λ h. tt })
    pipe_loop-Yields (done [] ∷ rest) ends = Yields-any-pure tt
    pipe_loop-Yields (done (x ∷ xs) ∷ rest) ends =
        Yields-if (length (take buffer_size (x ∷ xs)) == 0) _ _ (Yields-any-pure tt) (
          Yields-bind _ _ (start_triggered-Yields triggered_builder _)
            (λ _ _. pipe_loop-Yields rest ends))

    start_for_messages-Yields :
        (cmsgs : List ControlMessage)
        → All HasFiles cmsgs
        → Yields Anything (start_for_messages w sp entry name cmsgs)
    unfolding start_for_messages
    start_for_messages-Yields [] files = Yields-any-pure tt
    start_for_messages-Yields (ControlMessage.scm_rights fds ∷ cmsgs) (_, files) =
        Yields-bind _ _ (start_triggered-Yields (keep_fds fds triggered_builder) _)
          λ _ _. start_for_messages-Yields cmsgs files
    start_for_messages-Yields (ControlMessage.unhandled ∷ cmsgs) files = absurd files.0

    socket_loop-Yields :
        (messages : List (Nix (List ControlMessage)))
        → SocketEnds messages
        → Yields Anything (socket_loop w sp entry name messages)
    unfolding socket_loop give
    socket_loop-Yields [] ends = absurd ends
    socket_loop-Yields (fail e ∷ rest) ends =
        Yields-if (e == eintr) _ _ (Yields-any-pure tt) (record { at = λ h. tt })
    socket_loop-Yields (done cmsgs ∷ rest) (files, ends) =
        Yields-bind _ _ (start_for_messages-Yields cmsgs files) λ _ _. socket_loop-Yields rest ends

    -- In the parent of what it starts, and for an entrypoint whose arguments are no ends of pipes or
    -- reading ends of sockets and name only sockets that there are: if the reads of a pipe end with
    -- one that fails or brings nothing, then the loop of its trigger returns or fails with the error
    -- of a call, and if it returns, it has cloned one process for each read that brought data; and if
    -- the messages of a socket carry files only and end with a failure, then the loop of its trigger
    -- returns or fails with the error of a call, and if it returns, it has cloned one process for
    -- each control message.
    pub loops-Starts :
        (reads : List (Io (List ℕ))) (messages : List (Nix (List ControlMessage)))
        → PipeEnds reads
        → SocketEnds messages
        → Starts (pipe_events reads) (pipe_loop w sp entry name reads)
          × Starts (socket_events messages) (socket_loop w sp entry name messages)
    loops-Starts reads messages pipe_ends socket_ends = (
      (pipe_loop-Yields reads pipe_ends, pipe_loop-Clones w sp entry name reads),
      (socket_loop-Yields messages socket_ends, socket_loop-Clones w sp entry name messages),
    )
