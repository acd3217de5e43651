-- ===== src/Tests/Launching.antt =====
-- The theorems on `run` and `main`, at concrete inputs.
use void_orchestrator.Base.{
  ◌≡◌, refl, true, false, some, none, [], ◌∷◌, arith, pos, nat_eq, string_eq, map, contains, ◌==◌,
  ◌&&◌, if◌then◌else◌,
}
use void_orchestrator.Paths.{absolute, path_eq}
use void_orchestrator.Failure.{ok as res_ok}
use void_orchestrator.Sys.{Call, History, Os, done, fail}
use void_orchestrator.Specification.{FilePath}
use void_orchestrator.Specification.Validate.{validate}
use void_orchestrator.Program.{ok, ◌>>=◌}
use void_orchestrator.Program.Yields.{Yields, Anything}
use void_orchestrator.Void.Spawn.{spawn}
use void_orchestrator.Run.ExitCode.{answers}
use void_orchestrator.Spawner.State.{OsPath, World}
use void_orchestrator.Spawner.Supplies.Parent.{IsParent}
use void_orchestrator.Orchestrator.{RunArgs, forward_std, launch, run}
use void_orchestrator.Orchestrator.Launch.{launch-Yields}
use void_orchestrator.Orchestrator.Outcomes.{Waited, Ended, run-Ended}
use void_orchestrator.Cli.{Matches, Clap, command, main}
use void_orchestrator.Cli.Exits.{Exits, main-Exits}
use void_orchestrator.Run.{exit_ok}
use void_orchestrator.Orchestrator.Processes.{Launched, run-Launched}
use void_orchestrator.Tests.{system, addresses}
use void_orchestrator.Tests.Requests.{host_only}
use void_orchestrator.Tests.Validation.{as_inserted, as_inserted-IsOrder, web}
use void_orchestrator.Tests.Ends.{ended}

-- A system on which every call succeeds and is answered in the parent.
abbrev pub parent_system : Os
parent_system h Call.fork = done 6
parent_system h c = system 5 h c

abbrev pub world : World
world = record {
  os = parent_system;
  at = addresses;
  view = host_only;
  requests = λ h fd. [];
  reads = λ h fd. [];
  messages = λ h fd. [];
  statuses = λ h. answers ended;
  from_reader = λ h fd. done web;
  iter = as_inserted;
  rehash = λ es. es;
}

pub parent_system-IsParent : IsParent parent_system
parent_system-IsParent = record { clones = λ h args. ground arith; forks = λ h. ground arith }

children : (h : History) → Waited world h
children h = record { statuses = ended; ended = (tt, (tt, (tt, tt))); told = refl }

abbrev spec_json : FilePath
spec_json = absolute ("spec.json" ∷ [])

abbrev pub server : OsPath
server = record { path = absolute ("server" ∷ []); bytes = 47 ∷ 115 ∷ [] }

abbrev with_stdout : RunArgs
with_stdout = record {
  spec = some spec_json;
  debug = false;
  daemon = false;
  stdout = true;
  stderr = false;
  binary = server;
  binary_args = [];
}

abbrev matches : Matches
matches = record {
  value_of =
      λ name. if name == "spec" then some (record { path = spec_json; bytes = [] }) else none;
  values_of = λ name. if name == "binary" then some (server ∷ []) else none;
  is_present = λ name. name == "stdout";
}

-- A clap that finds these, if the binary and the specification are declared.
abbrev clap : Clap
clap command argv =
    let names = map (λ a. a.name) command.args in
    if contains names "spec" && contains names "binary" then done matches else fail (pos 2)

web_accepted : validate world.iter web ≡ res_ok tt
unfolding validate
web_accepted = refl

launch-Yields_example :
    Yields Anything (launch world with_stdout (forward_std world with_stdout web))
launch-Yields_example =
    launch-Yields world parent_system-IsParent as_inserted-IsOrder with_stdout web web_accepted

run-Ended_example : Ended world spec_json [] false (run world with_stdout [])
run-Ended_example =
    run-Ended world parent_system-IsParent as_inserted-IsOrder children with_stdout spec_json []
      refl

-- The run of the launch, as a daemon.
abbrev as_daemon : RunArgs
as_daemon = record with_stdout { daemon = true }

abbrev daemon_calls : History
unfolding run
daemon_calls = (run world as_daemon []).1

daemon_returns : run world as_daemon [] ≡ (ok exit_ok, daemon_calls)
unfolding run daemon_calls ◌>>=◌ spawn
daemon_returns = refl

run-Launched_example : Launched world as_daemon spec_json [] daemon_calls
run-Launched_example = run-Launched world as_daemon spec_json [] refl daemon_returns

clap-matches : clap (command "5d4c") [] ≡ done matches
unfolding command
clap-matches = refl

main-Exits_example : Exits world with_stdout [] (main world clap "5d4c" [] [])
main-Exits_example =
    main-Exits world parent_system-IsParent as_inserted-IsOrder children clap "5d4c" [] matches
      (record { path = spec_json; bytes = [] }) server [] [] clap-matches refl refl
