-- ===== src/Tests/Entrypoints.antt =====
-- The theorems on what starts the entrypoints, at concrete inputs.
use void_orchestrator.Base.{ℕ, All, ◌≡◌, refl, false, some, List, [], ◌∷◌, arith, nat_eq}
use void_orchestrator.Paths.{path_eq}
use void_orchestrator.Sys.{fail, Nix, Io, Call, History, done}
use void_orchestrator.Specification.{Arg, Pipe, FileSocket, Trigger, Environment, Entrypoint}
use void_orchestrator.Program.{ok, ◌>>=◌}
use void_orchestrator.Program.Runs.{Makes, GivesFrom, Gives}
use void_orchestrator.Void.{VoidBuilder}
use void_orchestrator.Void.Namespaces.{void_file_descriptors}
use void_orchestrator.Spawner.State.{ControlMessage, Spawner, TriggerData}
use void_orchestrator.Spawner.Argv.{PreparedArg}
use void_orchestrator.Spawner.Triggers.{
  pipe_loop, socket_loop, triggered_builder, prepare_triggered, start_triggered, fork_for_trigger,
}
use void_orchestrator.Spawner.Start.{prepare_startup}
use void_orchestrator.Spawner.Declared.{GrantsTriggered, prepare_triggered-Grants}
use void_orchestrator.Spawner.Refused.{
  Nothing, StartsNothing, HasOwnEnd, IsOwnEnd, start_triggered-StartsNothing,
}
use void_orchestrator.Spawner.Closed.{IsClosedIn, others_closed}
use void_orchestrator.Spawner.Forking.{Forked, fork_for_trigger-Forked}
use void_orchestrator.RpcMessage.{Fd}
use void_orchestrator.Void
use void_orchestrator.Spawner.Arguments.{prepare_rpc}
use void_orchestrator.Spawner.Environments.{prepare_spawner}
use void_orchestrator.Spawner.Forwarded.{GrantsWaiting, prepare_spawner-Grants}
use void_orchestrator.Spawner.Processes.{GoesOn, prepare_rpc-GoesOn}
use void_orchestrator.Resources.SocketPair
use void_orchestrator.Spawner.Supplies.Shared.{IsShared}
use void_orchestrator.Spawner.Waiting.{Starts, loops-Starts}
use void_orchestrator.Tests.Requests.{https_only}
use void_orchestrator.Tests.Validation.{web}
use void_orchestrator.Tests.Ends.{request_pipe, log_socket}
use void_orchestrator.Tests.Launching.{parent_system, world, server, parent_system-IsParent}

abbrev pub spawner : Spawner
spawner = record {
  spec = web;
  binary = server;
  binary_args = [];
  debug = false;
  pipes = request_pipe;
  sockets = log_socket;
}

-- An entrypoint that takes the writing ends and asks for the standard output.
abbrev listener : Entrypoint
listener = record {
  trigger = Trigger.startup;
  args =
      Arg.binary_name ∷ Arg.pipe (Pipe.tx "requests") ∷ Arg.file_socket (FileSocket.tx "log") ∷ [];
  environment = Environment.stdout ∷ Environment.procfs ∷ [];
}

-- An entrypoint that is to connect to other hosts.
abbrev client : Entrypoint
client = record { trigger = Trigger.startup; args = Arg.rpc https_only ∷ []; environment = [] }

-- An entrypoint that is triggered and has an end of a pipe.
abbrev handler : Entrypoint
handler = record {
  trigger = Trigger.file_socket "log";
  args = Arg.trigger ∷ Arg.pipe (Pipe.tx "requests") ∷ [];
  environment = [];
}

prepare_triggered-Grants_example :
    Gives
      (GrantsTriggered client triggered_builder)
      (prepare_triggered world spawner client triggered_builder)
prepare_triggered-Grants_example = prepare_triggered-Grants world spawner client triggered_builder

handler-HasOwnEnd : HasOwnEnd handler.args
handler-HasOwnEnd = HasOwnEnd.later (HasOwnEnd.here IsOwnEnd.pipe)

start_triggered-StartsNothing_example :
    Gives Nothing (
      start_triggered world spawner handler "handler" triggered_builder
        (some (TriggerData.file_socket (7 ∷ []))))
    × Makes StartsNothing (
        start_triggered world spawner handler "handler" triggered_builder
          (some (TriggerData.file_socket (7 ∷ []))))
start_triggered-StartsNothing_example =
    start_triggered-StartsNothing world spawner handler "handler" triggered_builder
      (some (TriggerData.file_socket (7 ∷ []))) handler-HasOwnEnd

-- The builder and the calls of the client, whose socket is descriptor 10.
abbrev client_builder : VoidBuilder
unfolding prepare_startup ◌>>=◌
client_builder = elim (prepare_startup world spawner client []).0 [
  | ok (ps, sp, b) ↦ b
  | _ ↦ triggered_builder
]

abbrev client_calls : History
unfolding prepare_startup ◌>>=◌
client_calls = (prepare_startup world spawner client []).1

abbrev voided_calls : History
unfolding void_file_descriptors ◌>>=◌
voided_calls = (void_file_descriptors parent_system client_builder []).1

client_prepared :
    prepare_startup world spawner client []
    ≡ (ok (PreparedArg.rpc 10 ∷ [], spawner, client_builder), client_calls)
unfolding prepare_startup ◌>>=◌
client_prepared = refl

client_voided : void_file_descriptors parent_system client_builder [] ≡ (ok tt, voided_calls)
unfolding void_file_descriptors ◌>>=◌ client_builder
client_voided = refl

others_closed_example : IsClosedIn 10 voided_calls
others_closed_example =
    others_closed world spawner client [] [] client_prepared client_voided 10 (ground arith) refl

prepare_spawner-Grants_example :
    GivesFrom
      (GrantsWaiting parent_system spawner (Environment.stdin ∷ []) handler.args Void.new)
      (prepare_spawner parent_system spawner Void.new (Environment.stdin ∷ []) handler.args)
prepare_spawner-Grants_example =
    prepare_spawner-Grants parent_system spawner Void.new (Environment.stdin ∷ []) handler.args

rpc_prepared : prepare_rpc world https_only [] ≡ (ok 10, Call.fork ∷ Call.socketpair ∷ [])
unfolding prepare_rpc ◌>>=◌
rpc_prepared = refl

prepare_rpc-GoesOn_example :
    (ambient : Fd) × (parent_system [] Call.socketpair ≡ done (ambient, 10))
    × GoesOn parent_system (Call.socketpair ∷ []) (Call.fork ∷ Call.socketpair ∷ [])
prepare_rpc-GoesOn_example = prepare_rpc-GoesOn world https_only [] rpc_prepared

-- An entrypoint that is triggered and writes to the log.
abbrev worker : Entrypoint
worker = record {
  trigger = Trigger.pipe "requests";
  args = Arg.trigger ∷ Arg.file_socket (FileSocket.tx "log") ∷ [];
  environment = [];
}

worker-IsShared : All (IsShared spawner) worker.args
worker-IsShared = (tt, ((SocketPair.fresh "log" (9, 10), refl), tt))

-- Two reads that bring data, and a message with two files.
abbrev reads : List (Io (List ℕ))
reads = done (104 ∷ []) ∷ done (105 ∷ 33 ∷ []) ∷ done [] ∷ []

abbrev messages : List (Nix (List ControlMessage))
messages = done (ControlMessage.scm_rights (7 ∷ 8 ∷ []) ∷ []) ∷ fail 4 ∷ []

loops-Starts_example :
    Starts 2 (pipe_loop world spawner worker "worker" reads)
    × Starts 1 (socket_loop world spawner worker "worker" messages)
loops-Starts_example =
    loops-Starts world parent_system-IsParent spawner worker "worker" worker-IsShared reads messages
      tt ((tt, tt), tt)

fork_for_trigger-Forked_example : Forked world [] (fork_for_trigger world [])
fork_for_trigger-Forked_example = fork_for_trigger-Forked world []
