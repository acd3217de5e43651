-- ===== src/Orchestrator/Processes.antt =====
-- lib.rs: how many processes `run` has cloned when it returns.
use void_orchestrator.Base.{
  ℤ, ◌+◌, ◌≡◌, refl, ap, ◌∙◌, suc, arith, Bool, true, false, String, some, List, [], ◌∷◌, ⊤, length,
}
use void_orchestrator.Failure.{Result}
use void_orchestrator.Sys.{done, Call, History, Os}
use void_orchestrator.Specification.{FilePath, Environment, Entrypoint, Specification}
use void_orchestrator.Specification.Validate.{validate}
use void_orchestrator.Program.{M, Outcome, ok, continue, or_err, ◌>>=◌, ◌>>◌}
use void_orchestrator.Program.Runs.{>>=-eq_ok}
use void_orchestrator.Program.Clones.{Clones, clone3s, clones_rules}
use void_orchestrator.Resources.{create_each, create_pipes, create_sockets}
use void_orchestrator.Resources.PipePair
use void_orchestrator.Resources.SocketPair
use void_orchestrator.Spawner.State.{World}
use void_orchestrator.Spawner.Processes.{spawn_entrypoints-Clones}
use void_orchestrator.Orchestrator.{
  RunArgs, forward_each, forward_if, forward_std, is_stdout, is_stderr, read_spec, launch,
  wait_unless, run,
}
use void_orchestrator.Orchestrator.Outcomes.{Holds, IsRead, read_spec-IsRead}

module _ {A : Type 0} (new : String → M A) (quiet : (name : String) → Clones 0 (new name)) where
  create_each-Clones :
      (map : List (String × A)) (names : List String) → Clones 0 (create_each new map names)
  unfolding create_each
  create_each-Clones map [] = search clones_rules
  create_each-Clones map (name ∷ names) =
      search (clones_rules, λ (m : List (String × A)). create_each-Clones m names)

module _ (os : Os) where
  pipe-Clones : (name : String) → Clones 0 (PipePair.new os name)
  unfolding PipePair.new
  pipe-Clones name = search clones_rules

  socket-Clones : (name : String) → Clones 0 (SocketPair.new os name)
  unfolding SocketPair.new
  socket-Clones name = search clones_rules

  create_pipes-Clones : (names : List String) → Clones 0 (create_pipes os names)
  unfolding create_pipes
  create_pipes-Clones names = create_each-Clones (PipePair.new os) pipe-Clones [] names

  create_sockets-Clones : (names : List String) → Clones 0 (create_sockets os names)
  unfolding create_sockets
  create_sockets-Clones names = create_each-Clones (SocketPair.new os) socket-Clones [] names

or_err-eq_ok :
    (r : Result ⊤) (h : History) {h' : History}
    → or_err r h ≡ (ok tt, h')
    → (r ≡ Result.ok tt) × (h ≡ h')
unfolding or_err
or_err-eq_ok (Result.ok tt) h e = (refl, ap (λ t. t.1) e)
or_err-eq_ok (Result.err x) h e = cc

module _ (w : World) where
  length-forward_each :
      (test : Environment → Bool) (e : Environment) (es : List (String × Entrypoint))
      → length (forward_each w test e es) ≡ length es
  unfolding forward_each
  length-forward_each test e [] = refl
  length-forward_each test e ((name, entry) ∷ es) = ap suc (length-forward_each test e es)

  length-forward_if :
      (flag : Bool) (test : Environment → Bool) (e : Environment) (spec : Specification)
      → length (forward_if w flag test e spec).entrypoints ≡ length spec.entrypoints
  unfolding forward_if
  length-forward_if false test e spec = refl
  length-forward_if true test e spec = length-forward_each test e spec.entrypoints

  length-forward_std :
      (args : RunArgs) (spec : Specification)
      → length (forward_std w args spec).entrypoints ≡ length spec.entrypoints
  unfolding forward_std
  length-forward_std args spec =
      length-forward_if args.stderr is_stderr Environment.stderr
        (forward_if w args.stdout is_stdout Environment.stdout spec)
      ∙ length-forward_if args.stdout is_stdout Environment.stdout spec

  launch-Clones :
      (args : RunArgs) (spec : Specification)
      → Clones (length spec.entrypoints) (launch w args spec)
  unfolding launch
  launch-Clones args spec =
      search (clones_rules, create_pipes-Clones, create_sockets-Clones, spawn_entrypoints-Clones)

  wait_unless-Clones : (daemon : Bool) → Clones 0 (wait_unless w daemon)
  unfolding wait_unless
  wait_unless-Clones true = search clones_rules
  wait_unless-Clones false = record {
    at = λ h e. let same : h ≡ _ = ap (λ t. t.1) e in rw (← same) (omega arith);
  }

module _ (w : World) (args : RunArgs) (path : FilePath) (h : History) where
  -- A specification has been read and accepted, and a process cloned for each of its entrypoints.
  pub record Launched (h' : History) : Type 0 where
    pub spec : Specification
    pub holds : Holds w path h (done spec)
    pub accepted : validate w.iter spec ≡ Result.ok tt
    pub cloned : clone3s h' ≡ length spec.entrypoints + clone3s h

  read-Launched :
      {r : Outcome Specification × History} {code : ℤ} {h' : History}
      → IsRead w path h r
      → continue r.0
          (λ spec.
            or_err (validate w.iter spec)
            >> (launch w args (forward_std w args spec) >> wait_unless w args.daemon))
          r.1
        ≡ (ok code, h')
      → Launched h'
  read-Launched (IsRead.by_call p) e = cc
  read-Launched (IsRead.not_json no_json) e = cc
  read-Launched (IsRead.not_parsed msg holds) e = cc
  read-Launched (IsRead.read spec holds) e =
      let rest = launch w args (forward_std w args spec) >> wait_unless w args.daemon in
      let (_, h1, v, e1) = >>=-eq_ok (or_err (validate w.iter spec)) (λ _. rest) _ e in
      let (accepted, same) = or_err-eq_ok _ _ v in
      let (_, h2, l, e2) = >>=-eq_ok (launch w args (forward_std w args spec)) _ h1 e1 in
      record {
        spec = spec;
        holds = holds;
        accepted = accepted;
        cloned =
            let opened : clone3s (Call.open_read path ∷ h) ≡ clone3s h1 = ap clone3s same in
            omega (
              arith,
              opened,
              (launch-Clones w args (forward_std w args spec)).at h1 l,
              length-forward_std w args spec,
              (wait_unless-Clones w args.daemon).at h2 e2,
            );
      }

  -- If `run` on a file returns an exit code, then it has read a specification from the file that
  -- `validate` accepts, and clone3(2) has been called exactly as often as that specification has
  -- entrypoints, whatever the operating system answers.
  pub run-Launched :
      {code : ℤ} {h' : History} → args.spec ≡ some path → run w args h ≡ (ok code, h') → Launched h'
  unfolding run ◌>>=◌
  run-Launched is_file e =
      read-Launched (read_spec-IsRead w path h) (rw (ap (λ s. read_spec w s h) is_file) at e)
