-- ===== src/Tests/Validation.antt =====
-- The theorems on specifications at concrete inputs.
use void_orchestrator.Base.{String, ◌≡◌, refl, List, [], ◌∷◌, count, string_eq}
use void_orchestrator.Failure.{bad_pipe, ok, err}
use void_orchestrator.Specification.{Trigger, Pipe, FileSocket, Arg, Specification, pipes, sockets}
use void_orchestrator.Specification.Counts.{ends_counted}
use void_orchestrator.Specification.Validate.{validate}
use void_orchestrator.Specification.Soundness.{
  IsOrder, IsWellFormed, Explains, validate-IsWellFormed, validate-Explains,
}

abbrev pub as_inserted : List String → List String
as_inserted xs = xs

pub as_inserted-IsOrder : IsOrder as_inserted
as_inserted-IsOrder xs a = refl

-- A listener writes to a pipe and to a socket; the pipe starts a handler, which also writes to the
-- socket, and the socket starts a logger.
abbrev pub web : Specification
web = record {
  entrypoints =
      (
        "listen",
        record {
          trigger = Trigger.startup;
          args =
              Arg.binary_name
              ∷ Arg.pipe (Pipe.tx "requests")
              ∷ Arg.file_socket (FileSocket.tx "log")
              ∷ [];
          environment = [];
        },
      )
      ∷ (
        "handle",
        record {
          trigger = Trigger.pipe "requests";
          args = Arg.trigger ∷ Arg.file_socket (FileSocket.tx "log") ∷ [];
          environment = [];
        },
      )
      ∷ (
        "log",
        record { trigger = Trigger.file_socket "log"; args = Arg.trigger ∷ []; environment = [] },
      )
      ∷ [];
}

-- A listener whose pipe nobody reads.
abbrev unread : Specification
unread = record {
  entrypoints =
      (
        "listen",
        record {
          trigger = Trigger.startup;
          args = Arg.pipe (Pipe.tx "requests") ∷ [];
          environment = [];
        },
      )
      ∷ [];
}

web_accepted : validate as_inserted web ≡ ok tt
unfolding validate
web_accepted = refl

unread_refused : validate as_inserted unread ≡ err (bad_pipe "requests")
unfolding validate
unread_refused = refl

pub web-IsWellFormed : IsWellFormed web
web-IsWellFormed = (validate-IsWellFormed as_inserted as_inserted-IsOrder web).0 web_accepted

validate-IsWellFormed_example : IsWellFormed web
validate-IsWellFormed_example =
    (validate-IsWellFormed as_inserted as_inserted-IsOrder web).0 web_accepted

validate-Explains_example : Explains unread (bad_pipe "requests")
validate-Explains_example =
    validate-Explains as_inserted as_inserted-IsOrder unread (bad_pipe "requests") unread_refused

ends_counted_example :
    (count "log" (pipes web).read ≡ 0)
    × (count "log" (pipes web).write ≡ 0)
    × (count "log" (sockets web).read ≡ 1)
    × (count "log" (sockets web).write ≡ 2)
ends_counted_example = ends_counted "log" web
