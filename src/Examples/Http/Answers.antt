-- ===== src/Examples/Http/Answers.antt =====
-- examples/tls/http.rs: what is answered to a request, in however many pieces it arrives.
use void_orchestrator.Base.{
  ℕ, ℤ, ◌≡◌, refl, Bool, true, false, Option, none, some, List, [], ◌∷◌, ◌++◌, ◌==◌, nat_eq, ⊤,
  length, take, if◌then◌else◌,
}
use void_orchestrator.Failure.{Error}
use void_orchestrator.Text.{codes}
use void_orchestrator.RpcMessage.{Fd}
use void_orchestrator.Specification.{Utf8}
use void_orchestrator.Sys.{Call, Os, Io, IoError, History, done, fail}
use void_orchestrator.Program.{
  Outcome, ok, err, panic, pure, unwrap, continue, unwrapped, ◌>>=◌, ◌>>◌,
}
use void_orchestrator.Run.{exit_ok}
use void_orchestrator.Examples.Argv.{unwrap_answer, println}
use void_orchestrator.Examples.Http.{
  Parsed, partial, complete, requested, try_serve_file, answer_not_found, answer, parsed_step,
  padded, http_loop, serve_http,
}
use void_orchestrator.Examples.Http.Serving.{
  not_found_text, entered, after_open, Served, absent, sent, unopened, unmeasured, unheaded,
  uncopied, opened-Served,
}

module _ (parse : List ℕ → Parsed) where
  -- A request arrives: each read but the last brings a piece, and the last one completes it.
  pub data Arrives : List ℕ → List (Io (List ℕ)) → Option Utf8 → Option Utf8 → Type 0 where
    whole :
        {before bytes : List ℕ} {reads : List (Io (List ℕ))} {method path : Option Utf8}
        → (length (take 4096 bytes) == 0) ≡ false
        → parse (padded before (take 4096 bytes)) ≡ complete method path
        → Arrives before (done bytes ∷ reads) method path
    piece :
        {before bytes : List ℕ} {reads : List (Io (List ℕ))} {method path : Option Utf8}
        → (length (take 4096 bytes) == 0) ≡ false
        → parse (padded before (take 4096 bytes)) ≡ partial
        → Arrives (before ++ take 4096 bytes) reads method path
        → Arrives before (done bytes ∷ reads) method path

module _ (os : Os) (stream : Fd) where
  abbrev pub refuse_call : Call
  refuse_call = Call.write_all stream not_found_text

  -- The answer that there is no file: it is written, or it could not be.
  pub data Refused (h : History) : Outcome ℤ × History → Type 0 where
    written : os h refuse_call ≡ done tt → Refused h (ok exit_ok, refuse_call ∷ h)
    unwritten : (e : IoError) → os h refuse_call ≡ fail e → Refused h (panic, refuse_call ∷ h)

  -- How a request for a file, or for none, is answered, with the calls made then.
  pub data Answered (h : History) : Option Utf8 → Outcome ℤ × History → Type 0 where
    -- the file has been sent, after its length
    found :
        {filename : Utf8} {h' : History}
        → Served os stream filename h (ok true, h')
        → Answered h (some filename) (ok exit_ok, h')
    -- there is no such file, and this has been answered, or could not be
    missing :
        {filename : Utf8} {h' : History} {r : Outcome ℤ × History}
        → Served os stream filename h (ok false, h')
        → Refused h' r
        → Answered h (some filename) r
    -- a call failed while the file was served
    broken :
        {filename : Utf8} {e : Error} {h' : History}
        → Served os stream filename h (err e, h')
        → Answered h (some filename) (panic, h')
    -- no file has been asked for, and this has been answered, or could not be
    no_file : {r : Outcome ℤ × History} → Refused h r → Answered h none r

  -- The same after the message that the program begins with.
  pub data Responds (h : History) (name : Option Utf8) (r : Outcome ℤ × History) : Type 0 where
    unprinted :
        (e : IoError)
        → os h (Call.print entered) ≡ fail e
        → ◌≡◌ {A = Outcome ℤ × History} r (panic, Call.print entered ∷ h)
        → Responds h name r
    printed :
        os h (Call.print entered) ≡ done tt
        → Answered (Call.print entered ∷ h) name r
        → Responds h name r

  written-Refused :
      (r : Io ⊤) (h : History)
      → os h refuse_call ≡ r
      → Refused h ((unwrap_answer r >> pure exit_ok) (refuse_call ∷ h))
  unfolding unwrap_answer ◌>>=◌
  written-Refused (done tt) h answers = written answers
  written-Refused (fail e) h answers = unwritten e answers

  answer_not_found-Refused : (h : History) → Refused h (answer_not_found os stream h)
  unfolding answer_not_found ◌>>=◌
  answer_not_found-Refused h = written-Refused _ h refl

  served-Answered :
      (filename : Utf8) (h : History) {r : Outcome Bool × History}
      → Served os stream filename h r
      → Answered h (some filename) (
          continue
            (unwrapped r.0)
            (λ served. if served then pure exit_ok else answer_not_found os stream)
            r.1)
  unfolding pure
  served-Answered filename h (absent e opens gone) =
      missing (absent e opens gone) (answer_not_found-Refused (after_open os stream filename h))
  served-Answered filename h (sent fd len opens measures heads copies) =
      found (sent fd len opens measures heads copies)
  served-Answered filename h (unopened e opens other) = broken (unopened e opens other)
  served-Answered filename h (unmeasured fd e opens fails) = broken (unmeasured fd e opens fails)
  served-Answered filename h (unheaded fd len e opens measures fails) =
      broken (unheaded fd len e opens measures fails)
  served-Answered filename h (uncopied fd len e opens measures heads fails) =
      broken (uncopied fd len e opens measures heads fails)

  answer-Answered : (name : Option Utf8) (h : History) → Answered h name (answer os stream name h)
  unfolding answer try_serve_file unwrap ◌>>=◌
  answer-Answered none h = no_file (answer_not_found-Refused h)
  answer-Answered (some filename) h =
      served-Answered filename h (opened-Served os stream filename h _ refl)

  module _ (parse : List ℕ → Parsed) where
    http_loop-Answered :
        {before : List ℕ} {reads : List (Io (List ℕ))} {method path : Option Utf8} (h : History)
        → Arrives parse before reads method path
        → Answered h (requested method path) (http_loop os parse stream before reads h)
    unfolding http_loop parsed_step
    http_loop-Answered h (whole some_bytes completes) =
        rw (some_bytes, completes) (answer-Answered _ h)
    http_loop-Answered h (piece some_bytes is_partial rest) =
        rw (some_bytes, is_partial) (http_loop-Answered h rest)

    printed-Responds :
        (r : Io ⊤) {reads : List (Io (List ℕ))} {method path : Option Utf8} (h : History)
        → os h (Call.print entered) ≡ r
        → Arrives parse [] reads method path
        → Responds h
            (requested method path)
            ((unwrap_answer r >> http_loop os parse stream [] reads) (Call.print entered ∷ h))
    unfolding unwrap_answer ◌>>=◌
    printed-Responds (done tt) h answers arrives = printed answers (http_loop-Answered _ arrives)
    printed-Responds (fail e) h answers arrives = unprinted e answers refl

    -- In however many pieces a request arrives, if the parser completes it at last, it is answered
    -- once: if it is a GET of a path, the file that the path stands for is opened, and either its
    -- length is sent in a header and then the file, or if there is no such file, the text that says
    -- so; if it is any other request, only that text; and the exit code is 0 if all these calls have
    -- succeeded. Otherwise the first call that fails, but for the opening of a file that is not there,
    -- is the last call, and the program panics.
    pub serve_http-Answered :
        (reads : List (Io (List ℕ))) (method path : Option Utf8) (h : History)
        → Arrives parse [] reads method path
        → Responds h (requested method path) (serve_http os parse stream reads h)
    unfolding serve_http println ◌>>=◌ codes
    serve_http-Answered reads method path h arrives = printed-Responds _ h refl arrives
