-- ===== src/Orchestrator/Outcomes.antt =====
-- lib.rs: every way in which `run` ends.
use void_orchestrator.Base.{
  ℤ, ◌≡◌, inl, inr, refl, ap, true, false, Bool, Bool-cases, String, some, List, ◌∷◌, All, ⊤,
}
use void_orchestrator.Failure.{Error, Result, json, bad_spec_type}
use void_orchestrator.Sys.{Answer, done, fail, Io, Call, WaitStatus, History}
use void_orchestrator.RpcMessage.{Fd}
use void_orchestrator.Specification.{FilePath, Specification}
use void_orchestrator.Specification.Validate.{validate}
use void_orchestrator.Specification.Soundness.{
  IsOrder, IsWellFormed, Explains, validate-Explains, validate-IsWellFormed,
}
use void_orchestrator.Program.{
  Outcome, ok, err, panic, exit, exec, blocked, undefined, continue, pure, or_err, or_io, give,
  ◌>>=◌, ◌>>◌,
}
use void_orchestrator.Program.Yields.{IsCallError, IsYield, Anything}
use void_orchestrator.Run.{exit_ok}
use void_orchestrator.Run.ExitCode.{answers, IsEnded, IsLastFailure, await-IsLastFailure}
use void_orchestrator.Spawner.State.{World}
use void_orchestrator.Spawner.Supplies.Parent.{IsParent}
use void_orchestrator.Orchestrator.{
  RunArgs, or_json, is_json, read_spec, forward_std, launch, wait_unless, run,
}
use void_orchestrator.Orchestrator.Launch.{launch-Yields}

-- The children that are left when `run` waits: each has ended when waitid(2) tells of it, and then
-- there are no more.
pub record Waited (w : World) (h : History) : Type 0 where
  pub statuses : List WaitStatus
  pub ended : All IsEnded statuses
  pub told : w.statuses h ≡ answers statuses

-- Reading the file at `path`, from the history `h`.
module _ (w : World) (path : FilePath) (h : History) where
  abbrev opened : History
  opened = Call.open_read path ∷ h

  -- The file has the extension of a specification, it can be opened, and this is what serde reads.
  pub record Holds (a : Answer String Specification) : Type 0 where
    pub named : is_json path ≡ true
    pub file : Fd
    pub opens : w.os h (Call.open_read path) ≡ done file
    pub reads : w.from_reader opened file ≡ a

  -- How the reading of the specification ends.
  pub data IsRead : Outcome Specification × History → Type 0 where
    read : (spec : Specification) → Holds (done spec) → IsRead (ok spec, opened)
    by_call : {e : Error} → IsCallError e → IsRead (err e, opened)
    not_json : is_json path ≡ false → IsRead (err bad_spec_type, h)
    not_parsed : (msg : String) → Holds (fail msg) → IsRead (err (json msg), opened)

  parsed-IsRead : (a : Answer String Specification) → Holds a → IsRead (or_err (or_json a) opened)
  unfolding or_err
  parsed-IsRead (done spec) holds = read spec holds
  parsed-IsRead (fail msg) holds = not_parsed msg holds

  opened-IsRead :
      (r : Io Fd)
      → is_json path ≡ true
      → w.os h (Call.open_read path) ≡ r
      → IsRead ((or_io r >>= λ f. λ h. or_err (or_json (w.from_reader h f)) h) opened)
  unfolding ◌>>=◌
  opened-IsRead (done f) named e =
      parsed-IsRead _ (record { named = named; file = f; opens = e; reads = refl })
  opened-IsRead (fail x) named e = by_call tt

  pub read_spec-IsRead : IsRead (read_spec w (some path) h)
  unfolding read_spec ◌>>=◌ give
  read_spec-IsRead = elim (Bool-cases (is_json path)) [
    | inl yes_json ↦ rw yes_json (opened-IsRead _ yes_json refl)
    | inr no_json ↦ rw no_json (not_json no_json)
  ]

  -- The ways in which `run` ends, with the calls made then.
  pub data Ended (daemon : Bool) : Outcome ℤ × History → Type 0 where
    -- a call failed
    by_call : {e : Error} {h' : History} → IsCallError e → Ended daemon (err e, h')
    -- the name of the file has not the extension, and nothing has been called
    not_json : is_json path ≡ false → Ended daemon (err bad_spec_type, h)
    -- the file holds no specification
    not_parsed : (msg : String) → Holds (fail msg) → Ended daemon (err (json msg), opened)
    -- the specification is at fault, and nothing has been called but to open the file
    refused :
        (spec : Specification) {e : Error}
        → Holds (done spec)
        → Explains spec e
        → Ended daemon (err e, opened)
    -- a well-formed specification has been launched, and nothing is waited for
    detached :
        (spec : Specification) {h' : History}
        → Holds (done spec)
        → IsWellFormed spec
        → daemon ≡ true
        → Ended daemon (ok exit_ok, h')
    -- a well-formed specification has been launched, and then all children have ended
    waited :
        (spec : Specification) (statuses : List WaitStatus) (code : ℤ) {h' : History}
        → Holds (done spec)
        → IsWellFormed spec
        → daemon ≡ false
        → w.statuses h' ≡ answers statuses
        → IsLastFailure exit_ok statuses code
        → Ended daemon (ok code, h')

module _ (w : World) (parent : IsParent w.os) (order : IsOrder w.iter)
    (children : (h : History) → Waited w h) (args : RunArgs) (path : FilePath) (h : History) where
  wait-Ended :
      (spec : Specification) (daemon : Bool) (h1 : History)
      → Holds w path h (done spec)
      → IsWellFormed spec
      → Ended w path h daemon (wait_unless w daemon h1)
  unfolding wait_unless pure
  wait-Ended spec true h1 holds formed = detached spec holds formed refl
  wait-Ended spec false h1 holds formed =
      let c = children h1 in
      let (code, ends, last) = await-IsLastFailure c.statuses c.ended in
      rw c.told (rw ends (waited spec c.statuses code holds formed refl c.told last))

  launched-Ended :
      (spec : Specification) (r : Outcome ⊤) (h1 : History)
      → Holds w path h (done spec)
      → IsWellFormed spec
      → IsYield Anything r
      → Ended w path h args.daemon (continue r (λ _. wait_unless w args.daemon) h1)
  launched-Ended spec (ok _) h1 holds formed p = wait-Ended spec args.daemon h1 holds formed
  launched-Ended spec (err e) h1 holds formed p = Ended.by_call p
  launched-Ended spec panic h1 holds formed p = absurd p
  launched-Ended spec (exit n) h1 holds formed p = absurd p
  launched-Ended spec (exec x argv) h1 holds formed p = absurd p
  launched-Ended spec blocked h1 holds formed p = absurd p
  launched-Ended spec undefined h1 holds formed p = absurd p

  validated-Ended :
      (spec : Specification) (r : Result ⊤)
      → Holds w path h (done spec)
      → validate w.iter spec ≡ r
      → Ended w path h args.daemon (
          (or_err r >> (launch w args (forward_std w args spec) >> wait_unless w args.daemon))
            (opened w path h))
  unfolding ◌>>=◌
  validated-Ended spec (Result.ok tt) holds e =
      let (r, h1) = launch w args (forward_std w args spec) (opened w path h) in
      launched-Ended spec r h1 holds ((validate-IsWellFormed w.iter order spec).0 e)
        ((launch-Yields w parent order args spec e).at _)
  validated-Ended spec (Result.err x) holds e =
      refused spec holds (validate-Explains w.iter order spec x e)

  read-Ended :
      {r : Outcome Specification × History}
      → IsRead w path h r
      → Ended w path h args.daemon (
          continue r.0
            (λ spec.
              or_err (validate w.iter spec)
              >> (launch w args (forward_std w args spec) >> wait_unless w args.daemon))
            r.1)
  read-Ended (read spec holds) = validated-Ended spec _ holds refl
  read-Ended (IsRead.by_call p) = Ended.by_call p
  read-Ended (IsRead.not_json no_json) = Ended.not_json no_json
  read-Ended (IsRead.not_parsed msg holds) = Ended.not_parsed msg holds

  -- In the parent, if the children that are left end, `run` on a file ends, and it ends in one of
  -- these ways: it fails with the error of a call; or as the file's name has no extension of a
  -- specification or its content is none, or with an error of `validate` that explains what is wrong
  -- with the specification that was read, and then nothing has been called but to open the file; or
  -- the specification that was read is well formed, and `run` returns 0 as a daemon, or else the exit
  -- code of the last child that failed of those that waitid(2) told of, which is 0 if none did.
  pub run-Ended : args.spec ≡ some path → Ended w path h args.daemon (run w args h)
  unfolding run ◌>>=◌
  run-Ended e = rw (ap (λ s. read_spec w s h) e) (read-Ended (read_spec-IsRead w path h))
