-- ===== src/Examples/Argv/Calls.antt =====
-- The calls of what the example programs share.
use void_orchestrator.Specification.{Utf8}
use void_orchestrator.Sys.{Answer, Call, ReplyOf, Os, done, fail}
use void_orchestrator.Program.{call, ◌>>=◌}
use void_orchestrator.Program.Runs.{Makes, Makes-bind, Makes-call, makes_rules}
use void_orchestrator.Examples.Argv.{unwrap_answer, println}

module _ {P : Call → Type 0} where
  pub unwrap_answer-Makes : {E A : Type 0} (r : Answer E A) → Makes P (unwrap_answer r)
  unfolding unwrap_answer
  unwrap_answer-Makes (done a) = search makes_rules
  unwrap_answer-Makes (fail e) = search makes_rules

  -- A call whose answer is unwrapped.
  pub call_unwrapped-Makes :
      {E A : Type 0} (os : Os) (c : Call) (answer : ReplyOf c → Answer E A)
      → P c
      → Makes P (call os c >>= λ r. unwrap_answer (answer r))
  call_unwrapped-Makes os c answer p =
      Makes-bind _ _ (Makes-call os c p) (λ r. unwrap_answer-Makes (answer r))

  pub println-Makes : (os : Os) (text : Utf8) → P (Call.print text) → Makes P (println os text)
  unfolding println
  println-Makes os text p = call_unwrapped-Makes os (Call.print text) (λ r. r) p
