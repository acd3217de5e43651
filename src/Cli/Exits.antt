-- ===== src/Cli/Exits.antt =====
-- main.rs: the exit code of the process that starts the entrypoints.
use void_orchestrator.Base.{ℤ, negsuc, ◌≡◌, true, false, refl, String, some, List, ◌∷◌, map, ⊤}
use void_orchestrator.Specification.{FilePath, Utf8}
use void_orchestrator.Specification.Soundness.{IsOrder}
use void_orchestrator.Sys.{Answer, done, fail, WaitStatus, History}
use void_orchestrator.Failure.{Error}
use void_orchestrator.Program.{Outcome, ok, err, exit}
use void_orchestrator.Run.{exit_ok}
use void_orchestrator.Run.ExitCode.{answers, IsLastFailure}
use void_orchestrator.Spawner.State.{World, OsPath}
use void_orchestrator.Spawner.Supplies.Parent.{IsParent}
use void_orchestrator.Orchestrator.{RunArgs, run}
use void_orchestrator.Orchestrator.Outcomes.{Waited, Ended, run-Ended}
use void_orchestrator.Cli.{
  Matches, Clap, command, launch_process, run_args, exit_with, exit_run, main,
}

-- The arguments of `run` that the command line asks for.
abbrev pub asked_args : Matches → OsPath → OsPath → List OsPath → RunArgs
asked_args matches path binary argv = record {
  spec = some path.path;
  debug = matches.is_present "debug";
  daemon = matches.is_present "daemon";
  stdout = matches.is_present "stdout";
  stderr = matches.is_present "stderr";
  binary = binary;
  binary_args = map (λ a. a.bytes) argv;
}

-- How the process exits, with the calls made then, by how `run` ended.
pub data Exits (w : World) (args : RunArgs) (h : History) : Outcome ⊤ × History → Type 0 where
  -- `run` failed
  failed :
      {e : Error} {h' : History} → run w args h ≡ (err e, h') → Exits w args h (exit (negsuc 0), h')
  -- `run` returned, as a daemon
  detached :
      {h' : History}
      → run w args h ≡ (ok exit_ok, h')
      → args.daemon ≡ true
      → Exits w args h (exit exit_ok, h')
  -- `run` returned, after all children had ended
  waited :
      (statuses : List WaitStatus) (code : ℤ) {h' : History}
      → run w args h ≡ (ok code, h')
      → args.daemon ≡ false
      → w.statuses h' ≡ answers statuses
      → IsLastFailure exit_ok statuses code
      → Exits w args h (exit code, h')

exit_with-Exits :
    (w : World) (args : RunArgs) (path : FilePath) (h : History) (r : Outcome ℤ × History)
    → run w args h ≡ r
    → Ended w path h args.daemon r
    → Exits w args h (exit_with r.0, r.1)
unfolding exit_with
exit_with-Exits w args path h _ same (Ended.by_call p) = failed same
exit_with-Exits w args path h _ same (Ended.not_json e) = failed same
exit_with-Exits w args path h _ same (Ended.not_parsed msg p) = failed same
exit_with-Exits w args path h _ same (Ended.refused spec p x) = failed same
exit_with-Exits w args path h _ same (Ended.detached spec p f d) = detached same d
exit_with-Exits w args path h _ same (Ended.waited spec ss code p f d told last) =
    waited ss code same d told last

module _ (w : World) (parent : IsParent w.os) (order : IsOrder w.iter)
    (children : (h : History) → Waited w h) (clap : Clap) (git_hash : String)
    (args : List Utf8) where
  run_args-asked_args :
      (matches : Matches) (path binary : OsPath) (argv : List OsPath)
      → matches.value_of "spec" ≡ some path
      → matches.values_of "binary" ≡ some (binary ∷ argv)
      → run_args matches (matches.values_of "binary") ≡ some (asked_args matches path binary argv)
  unfolding run_args
  run_args-asked_args matches path binary argv is_file given = rw (given, run_args, is_file) refl

  exit_run-Exits :
      (matches : Matches) (path binary : OsPath) (argv : List OsPath) (h : History)
      → matches.value_of "spec" ≡ some path
      → matches.values_of "binary" ≡ some (binary ∷ argv)
      → Exits w
          (asked_args matches path binary argv)
          h
          (exit_run w (run_args matches (matches.values_of "binary")) h)
  unfolding exit_run
  exit_run-Exits matches path binary argv h is_file given =
      let asked = asked_args matches path binary argv in
      rw (run_args-asked_args matches path binary argv is_file given, exit_run)
        (exit_with-Exits w asked path.path h _ refl
          (run-Ended w parent order children asked path.path h refl))

  launch_process-Exits :
      (r : Answer ℤ Matches) (matches : Matches) (path binary : OsPath) (argv : List OsPath)
      (h : History)
      → r ≡ done matches
      → matches.value_of "spec" ≡ some path
      → matches.values_of "binary" ≡ some (binary ∷ argv)
      → Exits w (asked_args matches path binary argv) h (launch_process w r h)
  unfolding launch_process
  launch_process-Exits (fail code) matches path binary argv h e is_file given = cc
  launch_process-Exits (done found) matches path binary argv h e is_file given =
      let same : matches ≡ found = cc in
      rw same (exit_run-Exits found path binary argv h (rw (← same) is_file) (rw (← same) given))

  -- In the parent, if clap finds a file for the specification and a binary on the command line, and if
  -- the children that are left end, `main` runs `run` with the arguments that the command line asks for,
  -- and exits: with -1 if that failed; with 0 if it returned as a daemon; and if it returned otherwise,
  -- with the exit code of the last child that failed of those that waitid(2) told of, which is 0 if
  -- none did.
  pub main-Exits :
      (matches : Matches) (path binary : OsPath) (argv : List OsPath) (h : History)
      → clap (command git_hash) args ≡ done matches
      → matches.value_of "spec" ≡ some path
      → matches.values_of "binary" ≡ some (binary ∷ argv)
      → Exits w (asked_args matches path binary argv) h (main w clap git_hash args h)
  unfolding main
  main-Exits matches path binary argv h found is_file given =
      launch_process-Exits _ matches path binary argv h found is_file given
