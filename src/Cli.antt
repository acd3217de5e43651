-- ===== src/Cli.antt =====
-- main.rs: the arguments of `run`, and the exit code of the process.
pub mod Exits
use void_orchestrator.Base.{
  ℕ, ℤ, negsuc, String, Bool, true, false, Option, none, some, List, [], ◌∷◌, map, ⊤,
}
use void_orchestrator.Specification.{FilePath, Utf8}
use void_orchestrator.Sys.{Answer, done, fail}
use void_orchestrator.Program.{M, Outcome, ok, err, panic, exit, exec, blocked, undefined, give}
use void_orchestrator.Spawner.State.{OsPath, World}
use void_orchestrator.Orchestrator.{RunArgs, run}

-- A `clap::Arg`, by the methods that the program calls: `none` or `false` stands for one that it does
-- not call.
pub record CliArg : Type 0 where
  pub name : String
  pub long : Option String
  pub short : Option ℕ
  pub index : Option ℕ
  pub help : String
  pub required : Bool
  pub takes_value : Bool
  pub multiple_values : Bool

-- A `clap::Command`
pub record Command : Type 0 where
  pub name : String
  pub version : String
  pub author : String
  pub about : String
  pub trailing_var_arg : Bool
  pub args : List CliArg

-- An option that is long, and also short if it has a letter.
abbrev cli_option : String → String → Option ℕ → Bool → String → CliArg
cli_option name long short takes_value help = record {
  name = name;
  long = some long;
  short = short;
  index = none;
  help = help;
  required = false;
  takes_value = takes_value;
  multiple_values = false;
}

abbrev cli_args : List CliArg
cli_args =
    cli_option "spec" "specification" (some b's') true
      "Provide the specification as an external JSON file."
    ∷ cli_option "verbose" "verbose" (some b'v') false "Use verbose logging."
    ∷ cli_option "debug" "debug" (some b'd') false
        "Stop each spawned application process so that it can be attached to."
    ∷ cli_option "daemon" "daemon" (some b'D') false
        "Detach the shim from all child processes and exit immediately."
    ∷ cli_option "stdout" "stdout" none false
        "Allow all spawned processes access to stdout (useful for debugging)."
    ∷ cli_option "stderr" "stderr" none false
        "Allow all spawned processes access to stderr (useful for debugging)."
    ∷ record {
      name = "binary";
      long = none;
      short = none;
      index = some 1;
      help = "Binary and arguments to launch with the shim";
      required = true;
      takes_value = false;
      multiple_values = true;
    }
    ∷ []

-- The command line, of a program that was built from this commit.
unfoldable pub command : String → Command
command git_hash = record {
  name = "clone-shim";
  version = git_hash;
  author = "Jake Hillion <jake@hillion.co.uk>";
  about = "Launch a void process application.";
  trailing_var_arg = true;
  args = cli_args;
}

-- The matches of clap, which is not part of the repository: by the name of an argument, its value,
-- its values, or whether it was given. A value is a text and the path that it is.
pub record Matches : Type 0 where
  pub value_of : String → Option OsPath
  pub values_of : String → Option (List OsPath)
  pub is_present : String → Bool

-- `get_matches`: the matches, or the code with which clap exits after it has explained why there are
-- none.
abbrev pub Clap : Type 0
Clap = Command → List Utf8 → Answer ℤ Matches

-- `matches.value_of("spec").map(Path::new)`
abbrev pub as_path : Option OsPath → Option FilePath
as_path none = none
as_path (some p) = some p.path

-- `RunArgs { … }`; it panics, as `none` says, where there is no binary.
unfoldable pub run_args : Matches → Option (List OsPath) → Option RunArgs
run_args matches none = none
run_args matches (some []) = none
run_args matches (some (binary ∷ argv)) = some (record {
  spec = as_path (matches.value_of "spec");
  debug = matches.is_present "debug";
  daemon = matches.is_present "daemon";
  stdout = matches.is_present "stdout";
  stderr = matches.is_present "stderr";
  binary = binary;
  binary_args = map (λ a. a.bytes) argv;
})

-- `std::process::exit(match run(&args) { Ok(code) => code, Err(e) => -1 })`
unfoldable pub exit_with : Outcome ℤ → Outcome ⊤
exit_with (ok code) = exit code
exit_with (err e) = exit (negsuc 0)
exit_with panic = panic
exit_with (exit code) = exit code
exit_with (exec path argv) = exec path argv
exit_with blocked = blocked
exit_with undefined = undefined

module _ (w : World) where
  unfoldable pub exit_run : Option RunArgs → M ⊤
  unfolding run exit_with
  exit_run none = give panic
  exit_run (some args) = λ h. let (r, h') = run w args h in (exit_with r, h')

  -- What follows `get_matches`.
  unfoldable pub launch_process : Answer ℤ Matches → M ⊤
  unfolding run_args exit_run
  launch_process (fail code) = give (exit code)
  launch_process (done matches) = exit_run (run_args matches (matches.values_of "binary"))

  -- `main`
  unfoldable pub main : Clap → String → List Utf8 → M ⊤
  unfolding launch_process command
  main clap git_hash argv = launch_process (clap (command git_hash) argv)
