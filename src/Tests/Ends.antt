-- ===== src/Tests/Ends.antt =====
-- The theorems on the pipes and sockets that are created, and on the exit code, at concrete inputs.
use void_orchestrator.Base.{ℤ, pos, String, string_eq, ◌≡◌, List, [], ◌∷◌}
use void_orchestrator.Sys.{WaitStatus}
use void_orchestrator.Program.{ok}
use void_orchestrator.Resources.PipePair.{PipePair, take_read, take_write}
use void_orchestrator.Resources.PipePair
use void_orchestrator.Resources.SocketPair.{SocketPair}
use void_orchestrator.Resources.SocketPair
use void_orchestrator.Run.{exit_ok, await}
use void_orchestrator.Run.ExitCode.{answers, IsLastFailure, await-IsLastFailure}

-- What the system answers for one name.
abbrev pub request_pipe : List (String × PipePair)
request_pipe = ("requests", PipePair.fresh "requests" (9, 10)) ∷ []

abbrev pub log_socket : List (String × SocketPair)
log_socket = ("log", SocketPair.fresh "log" (9, 10)) ∷ []

-- A child that fails between two that do not.
abbrev pub ended : List WaitStatus
ended = WaitStatus.exited 2 (pos 0) ∷ WaitStatus.exited 3 (pos 7) ∷ WaitStatus.signaled 4 9 ∷ []

await-IsLastFailure_example :
    (code : ℤ) × (await exit_ok (answers ended) ≡ ok code) × IsLastFailure exit_ok ended code
await-IsLastFailure_example = await-IsLastFailure ended (tt, (tt, (tt, tt)))
