-- ===== src/Spawner/Events.antt =====
-- spawner/mod.rs: how often the two loops that wait for a trigger start their entrypoint.
use void_orchestrator.Base.{
  ℕ, ◌+◌, ◌≡◌, suc, arith, Bool, true, false, ◌==◌, nat_eq, String, Option, List, [], ◌∷◌, length,
  take, if◌then◌else◌,
}
use void_orchestrator.Specification.{Arg, Entrypoint}
use void_orchestrator.Sys.{Nix, Io, done, fail}
use void_orchestrator.Program.{M, give}
use void_orchestrator.Program.Clones.{
  Clones, Clones-pure, Clones-give, Clones-bind, Clones-one, clones_rules,
}
use void_orchestrator.Void.{VoidBuilder}
use void_orchestrator.Spawner.State.{Spawner, World, TriggerData, ControlMessage}
use void_orchestrator.Spawner.Arguments.{prepare_ambient}
use void_orchestrator.Spawner.Triggers.{
  buffer_size, triggered_builder, keep_fds, pipe_data, is_interrupted, eintr, prepare_triggered,
  start_triggered, pipe_loop, start_for_messages, socket_loop,
}
use void_orchestrator.Spawner.Processes.{prepare_ambient_arg-Clones, spawned-Clones}

-- The reads that bring data, before the first that fails or brings none.
abbrev pub pipe_events : List (Io (List ℕ)) → ℕ
pipe_events [] = 0
pipe_events (fail e ∷ _) = 0
pipe_events (done [] ∷ _) = 0
pipe_events (done (_ ∷ _) ∷ rest) = suc (pipe_events rest)

-- The control messages with files.
abbrev pub file_messages : List ControlMessage → ℕ
file_messages [] = 0
file_messages (ControlMessage.scm_rights fds ∷ cmsgs) = suc (file_messages cmsgs)
file_messages (ControlMessage.unhandled ∷ cmsgs) = file_messages cmsgs

-- Those of all messages that are received before the first failure.
abbrev pub socket_events : List (Nix (List ControlMessage)) → ℕ
socket_events [] = 0
socket_events (fail e ∷ _) = 0
socket_events (done cmsgs ∷ rest) = file_messages cmsgs + socket_events rest

Clones-if :
    {n : ℕ} {A : Type 0} (test : Bool) (m k : M A)
    → Clones n m
    → Clones n k
    → Clones n (if test then m else k)
Clones-if true m k km kk = km
Clones-if false m k km kk = kk

module _ (w : World) (sp : Spawner) where
  prepare_ambient-Clones :
      (b : VoidBuilder) (args : List Arg) → Clones 0 (prepare_ambient w sp b args)
  unfolding prepare_ambient
  prepare_ambient-Clones b [] = search clones_rules
  prepare_ambient-Clones b (a ∷ args) = search (
    clones_rules,
    prepare_ambient_arg-Clones,
    λ (b1 : VoidBuilder). prepare_ambient-Clones b1 args,
  )

  module _ (entry : Entrypoint) (name : String) where
    start_triggered-Clones :
        (b : VoidBuilder) (trigger : Option TriggerData)
        → Clones 1 (start_triggered w sp entry name b trigger)
    unfolding start_triggered prepare_triggered
    start_triggered-Clones b trigger = search (clones_rules, prepare_ambient-Clones, spawned-Clones)

    pub pipe_loop-Clones :
        (reads : List (Io (List ℕ))) → Clones (pipe_events reads) (pipe_loop w sp entry name reads)
    unfolding pipe_loop
    pipe_loop-Clones [] = Clones-give _
    pipe_loop-Clones (fail e ∷ rest) =
        Clones-if (is_interrupted e.raw_os_error) _ _ (Clones-pure tt) (Clones-give _)
    pipe_loop-Clones (done [] ∷ rest) = Clones-pure tt
    pipe_loop-Clones (done (x ∷ xs) ∷ rest) =
        let received : (length (take buffer_size (x ∷ xs)) == 0) ≡ false = ground arith in
        rw received (
          Clones-one _ _
            (start_triggered-Clones triggered_builder (pipe_data w (take buffer_size (x ∷ xs))))
            (λ _. pipe_loop-Clones rest))

    start_for_messages-Clones :
        (cmsgs : List ControlMessage)
        → Clones (file_messages cmsgs) (start_for_messages w sp entry name cmsgs)
    unfolding start_for_messages give
    start_for_messages-Clones [] = Clones-pure tt
    start_for_messages-Clones (ControlMessage.scm_rights fds ∷ cmsgs) =
        Clones-one _ _ (start_triggered-Clones (keep_fds fds triggered_builder) _)
          λ _. start_for_messages-Clones cmsgs
    start_for_messages-Clones (ControlMessage.unhandled ∷ cmsgs) = record { at = λ h e. cc }

    pub socket_loop-Clones :
        (messages : List (Nix (List ControlMessage)))
        → Clones (socket_events messages) (socket_loop w sp entry name messages)
    unfolding socket_loop
    socket_loop-Clones [] = Clones-give _
    socket_loop-Clones (fail e ∷ rest) = Clones-if (e == eintr) _ _ (Clones-pure tt) (Clones-give _)
    socket_loop-Clones (done cmsgs ∷ rest) =
        Clones-bind _ _ (start_for_messages-Clones cmsgs) λ _. socket_loop-Clones rest
