-- ===== src/Spawner/Refused.antt =====
-- spawner/args.rs: the entrypoint of a trigger with an end of its own among its arguments.
use void_orchestrator.Base.{ℕ, String, Option, List, [], ◌∷◌, nat_eq}
use void_orchestrator.RpcMessage.{Fd, OpenSocket}
use void_orchestrator.Rpc.Loop.{IsHandlerCall, handle-IsHandlerCall}
use void_orchestrator.Resources.SocketPair
use void_orchestrator.Specification.{Arg, Pipe, FileSocket, RpcSpecification, Entrypoint}
use void_orchestrator.Sys.{Call}
use void_orchestrator.Program.{unwrap}
use void_orchestrator.Program.Runs.{
  Makes, Makes-mono, Makes-pure, Makes-or_panic, Makes-bind, Makes-bind_of, makes_rules, Gives,
  Gives-give, Gives-bind, Gives-bind_of,
}
use void_orchestrator.Void.{VoidBuilder}
use void_orchestrator.Spawner.State.{Spawner, World, TriggerData}
use void_orchestrator.Spawner.Arguments.{
  serve, fork_handler, prepare_rpc, write_socket, prepare_ambient_arg, prepare_ambient,
}
use void_orchestrator.Spawner.Environments.{prepare_env}
use void_orchestrator.Spawner.Triggers.{prepare_triggered, start_triggered}

-- The argument is an end that only one entrypoint can have: that of a pipe, or the one of a socket
-- that receives.
pub data IsOwnEnd : Arg → Type 0 where
  pipe : {p : Pipe} → IsOwnEnd (Arg.pipe p)
  receives : {s : String} → IsOwnEnd (Arg.file_socket (FileSocket.rx s))

pub data HasOwnEnd : List Arg → Type 0 where
  here : {a : Arg} {args : List Arg} → IsOwnEnd a → HasOwnEnd (a ∷ args)
  later : {a : Arg} {args : List Arg} → HasOwnEnd args → HasOwnEnd (a ∷ args)

-- The call starts no program and makes no process for one.
abbrev pub StartsNothing : Call → Type 0
StartsNothing (Call.clone3 _) = ⊥
StartsNothing (Call.execv _ _) = ⊥
StartsNothing _ = Unit {0}

handler-StartsNothing :
    (view : List ℕ → OpenSocket) (specs : List RpcSpecification) (ambient : Fd) (c : Call)
    → IsHandlerCall view specs ambient c
    → StartsNothing c
handler-StartsNothing view specs ambient (Call.clone3 _) h = absurd h.1
handler-StartsNothing view specs ambient (Call.execv _ _) h = absurd h.1
handler-StartsNothing view specs ambient _ h = tt

-- Nothing is returned.
abbrev pub Nothing : {A : Type 0} → A → Type 0
Nothing a = ⊥

module _ (w : World) (sp : Spawner) where
  prepare_own_end-Nothing :
      {a : Arg} (b : VoidBuilder) → IsOwnEnd a → Gives Nothing (prepare_ambient_arg w sp b a)
  unfolding prepare_ambient_arg
  prepare_own_end-Nothing b pipe = Gives-give _ (λ a e. cc)
  prepare_own_end-Nothing b receives = Gives-give _ (λ a e. cc)

  prepare_ambient-Nothing :
      {args : List Arg} (b : VoidBuilder)
      → HasOwnEnd args
      → Gives Nothing (prepare_ambient w sp b args)
  unfolding prepare_ambient
  prepare_ambient-Nothing b (here own) =
      Gives-bind_of _ _ (prepare_own_end-Nothing b own) λ a none_there. absurd none_there
  prepare_ambient-Nothing b (later rest) = Gives-bind _ _ λ (p, b1).
      Gives-bind_of _ _ (prepare_ambient-Nothing b1 rest) λ a none_there. absurd none_there

  unwrapped_handler-Makes :
      (specs : List RpcSpecification) (ambient : Fd) → Makes StartsNothing (serve w specs ambient)
  unfolding serve unwrap
  unwrapped_handler-Makes specs ambient = record {
    at = λ h.
        (Makes-mono _ (handler-StartsNothing w.view specs ambient)
            (handle-IsHandlerCall w.os w.view specs ambient (w.requests h ambient))).at
          h;
  }

  prepare_rpc-Makes : (specs : List RpcSpecification) → Makes StartsNothing (prepare_rpc w specs)
  unfolding prepare_rpc fork_handler
  prepare_rpc-Makes specs = search (makes_rules, tt, unwrapped_handler-Makes) depth 12

  write_socket-Makes : (s : String) → Makes StartsNothing (write_socket w sp s)
  unfolding write_socket SocketPair.write
  write_socket-Makes s = search (makes_rules, tt, Makes-or_panic) depth 12

  prepare_ambient_arg-Makes :
      (b : VoidBuilder) (a : Arg) → Makes StartsNothing (prepare_ambient_arg w sp b a)
  unfolding prepare_ambient_arg
  prepare_ambient_arg-Makes b (Arg.pipe p) = search makes_rules
  prepare_ambient_arg-Makes b (Arg.file_socket (FileSocket.rx s)) = search makes_rules
  prepare_ambient_arg-Makes b (Arg.file_socket (FileSocket.tx s)) =
      search (makes_rules, write_socket-Makes)
  prepare_ambient_arg-Makes b (Arg.file path) = search (makes_rules, tt)
  prepare_ambient_arg-Makes b (Arg.tcp_listener addr) = search (makes_rules, tt)
  prepare_ambient_arg-Makes b (Arg.rpc specs) = search (makes_rules, prepare_rpc-Makes)
  prepare_ambient_arg-Makes b Arg.binary_name = search makes_rules
  prepare_ambient_arg-Makes b Arg.entrypoint = search makes_rules
  prepare_ambient_arg-Makes b Arg.trigger = search makes_rules
  prepare_ambient_arg-Makes b Arg.trailing = search makes_rules

  prepare_ambient-Makes :
      (b : VoidBuilder) (args : List Arg) → Makes StartsNothing (prepare_ambient w sp b args)
  unfolding prepare_ambient
  prepare_ambient-Makes b [] = search makes_rules
  prepare_ambient-Makes b (a ∷ args) =
      Makes-bind _ _ (prepare_ambient_arg-Makes b a)
        λ (p, b1). Makes-bind _ _ (prepare_ambient-Makes b1 args) λ (ps, b2). Makes-pure _

  -- An entrypoint that is started by a trigger and has an end of a pipe, or the end of a socket that
  -- receives, among its arguments is never started: whatever the event, and whatever the operating
  -- system answers, the process that waits for the trigger does not get past the event, and no
  -- clone3(2) or execv(2) is called for it.
  pub start_triggered-StartsNothing :
      (entry : Entrypoint) (name : String) (b : VoidBuilder) (trigger : Option TriggerData)
      → HasOwnEnd entry.args
      → Gives Nothing (start_triggered w sp entry name b trigger)
        × Makes StartsNothing (start_triggered w sp entry name b trigger)
  unfolding start_triggered prepare_triggered
  start_triggered-StartsNothing entry name b trigger own =
      let base = prepare_env b entry.environment in
      let never = prepare_ambient-Nothing base own in
      (
        Gives-bind_of _ _ never λ a none_there. absurd none_there,
        Makes-bind_of _ _ (prepare_ambient-Makes base entry.args) never
            λ a none_there. absurd none_there,
      )
