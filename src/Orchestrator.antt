-- ===== src/Orchestrator.antt =====
-- lib.rs: `run`, from the arguments of the command line to the exit code.
pub mod Launch
pub mod Outcomes
pub mod Processes
use void_orchestrator.Base.{
  ℕ, String, ℤ, Bool, true, false, ◌||◌, ◌==◌, nat_eq, Option, none, some, List, [], ◌∷◌, ◌++◌, ⊤,
  if◌then◌else◌,
}
use void_orchestrator.Text.{codes, bytes_beq}
use void_orchestrator.Failure.{Result, json, bad_spec_type}
use void_orchestrator.Specification.{
  FilePath, Environment, Entrypoint, Specification, Utf8, pipes, sockets,
}
use void_orchestrator.Specification.Validate.{validate}
use void_orchestrator.Sys.{Answer, done, fail, Call}
use void_orchestrator.Program.{M, Outcome, err, panic, pure, give, or_io, or_err, call, ◌>>=◌, ◌>>◌}
use void_orchestrator.Resources.{create_pipes, create_sockets}
use void_orchestrator.Run.{exit_ok, await}
use void_orchestrator.Spawner.State.{OsPath, Spawner, World}
use void_orchestrator.Spawner.Start.{spawn_entrypoints}

-- `RunArgs`
pub record RunArgs : Type 0 where
  pub spec : Option FilePath
  pub debug : Bool
  pub daemon : Bool
  pub stdout : Bool
  pub stderr : Bool
  pub binary : OsPath
  pub binary_args : List Utf8

-- The bytes before and after the last dot.
unfoldable pub split_last_dot : List ℕ → Option (List ℕ × List ℕ)
split_last_dot [] = none
split_last_dot (c ∷ cs) = elim (split_last_dot cs) [
  | some (before, after) ↦ some (c ∷ before, after)
  | none ↦ if c == b'.' then some ([], cs) else none
]

-- The extension of a file's name: what follows its last dot, unless the name begins with that dot.
unfoldable pub extension_of : List ℕ → Option (List ℕ)
unfolding split_last_dot
extension_of name = elim (split_last_dot name) [
  | none ↦ none
  | some ([], after) ↦ none
  | some (c ∷ before, after) ↦ some after
]

-- `path.extension()`, of the last component.
unfoldable pub extension : List String → Option (List ℕ)
unfolding extension_of codes
extension [] = none
extension (name ∷ []) = extension_of (codes name)
extension (_ ∷ name ∷ components) = extension (name ∷ components)

-- `m.extension().map(|e| e == "json") == Some(true)`
unfoldable pub is_json : FilePath → Bool
unfolding extension
is_json path = elim (extension path.components) [
  | none ↦ false
  | some e ↦ bytes_beq e (codes "json")
]

abbrev pub is_stdout : Environment → Bool
is_stdout Environment.stdout = true
is_stdout _ = false

abbrev pub is_stderr : Environment → Bool
is_stderr Environment.stderr = true
is_stderr _ = false

abbrev pub any : (Environment → Bool) → List Environment → Bool
any test [] = false
any test (e ∷ environment) = test e || any test environment

-- What `serde_json::from_reader(f)?` comes to.
abbrev pub or_json : Answer String Specification → Result Specification
or_json (done spec) = Result.ok spec
or_json (fail msg) = Result.err (json msg)

module _ (w : World) where
  -- "parse the specification"
  unfoldable pub read_spec : Option FilePath → M Specification
  unfolding is_json
  read_spec none = give panic
  read_spec (some path) =
      if is_json path
      then (do
        f ← or_io (← call w.os (Call.open_read path))
        λ h. or_err (or_json (w.from_reader h f)) h)
      else give (err bad_spec_type)

  -- `environment.insert(e)`, where `test` recognises `e`.
  unfoldable pub insert_environment :
      (Environment → Bool) → Environment → List Environment → List Environment
  insert_environment test e environment =
      if any test environment then environment else w.rehash (environment ++ (e ∷ []))

  -- `for entrypoint in &mut spec.entrypoints.values_mut() { … }`
  unfoldable pub forward_each :
      (Environment → Bool) → Environment → List (String × Entrypoint) → List (String × Entrypoint)
  unfolding insert_environment
  forward_each test e [] = []
  forward_each test e ((name, entry) ∷ entries) =
      (name, record entry { environment = insert_environment test e entry.environment })
      ∷ forward_each test e entries

  -- `if flag { … }`, for stdout and for stderr.
  unfoldable pub forward_if :
      Bool → (Environment → Bool) → Environment → Specification → Specification
  unfolding forward_each
  forward_if false test e spec = spec
  forward_if true test e spec = record spec { entrypoints = forward_each test e spec.entrypoints }

  -- The specification as it is given to the spawner.
  unfoldable pub forward_std : RunArgs → Specification → Specification
  unfolding forward_if
  forward_std args spec =
      forward_if args.stderr is_stderr Environment.stderr
        (forward_if args.stdout is_stdout Environment.stdout spec)

  -- "create all the pipes" and "spawn all processes"
  unfoldable pub launch : RunArgs → Specification → M ⊤
  unfolding create_pipes create_sockets spawn_entrypoints pipes sockets
  launch args spec = do
    pipe_map ← create_pipes w.os (pipes spec).read
    socket_map ← create_sockets w.os (sockets spec).read
    spawn_entrypoints w
        (record {
          spec = spec;
          binary = args.binary;
          binary_args = args.binary_args;
          debug = args.debug;
          pipes = pipe_map;
          sockets = socket_map;
        })
        spec.entrypoints

  -- The end of `run`.
  unfoldable pub wait_unless : Bool → M ℤ
  unfolding await
  wait_unless true = pure exit_ok
  wait_unless false = λ h. (await exit_ok (w.statuses h), h)

  -- `run`
  unfoldable pub run : RunArgs → M ℤ
  unfolding read_spec validate forward_std launch wait_unless
  run args = do
    spec ← read_spec args.spec
    or_err (validate w.iter spec)
    launch args (forward_std args spec)
    wait_unless args.daemon
