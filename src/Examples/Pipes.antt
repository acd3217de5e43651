-- ===== src/Examples/Pipes.antt =====
-- examples/pipes/main.rs: an entrypoint that writes to a pipe, and one that the pipe starts.
pub mod Given
use void_orchestrator.Base.{
  ℕ, Bool, true, false, Option, none, some, List, [], ◌∷◌, ◌++◌, ⊤, length, ◌==◌, nat_eq,
  if◌then◌else◌,
}
use void_orchestrator.Text.{codes, decimal, bytes_beq}
use void_orchestrator.RpcMessage.{Fd}
use void_orchestrator.Specification.{Utf8}
use void_orchestrator.Sys.{Call, Os}
use void_orchestrator.Program.{M, Outcome, panic, pure, give, or_panic, call, ◌>>=◌, ◌>>◌}
use void_orchestrator.Examples.Argv.{unwrap_answer, println, next_arg, fd_argument}

-- `assert!`
abbrev pub assert : Bool → M ⊤
assert true = pure tt
assert false = give panic

module _ (os : Os) where
  -- `let bytes_written = tx_pipe.write(&data[..]).unwrap(); assert!(bytes_written == data.len());`
  unfoldable pub write_whole : Fd → Utf8 → M ⊤
  unfolding unwrap_answer
  write_whole tx_pipe text = do
    bytes_written ← unwrap_answer (← call os (Call.write tx_pipe text))
    assert (bytes_written == length text)

  -- `pipe_sender`
  unfoldable pub pipe_sender : Fd → M ⊤
  unfolding println write_whole codes
  pipe_sender tx_pipe = do
    println os (codes "hello from pipe_sender!")
    write_whole tx_pipe (codes "some data")
    write_whole tx_pipe (codes "some more data")

  -- `pipe_receiver`
  unfoldable pub pipe_receiver : ℕ → Utf8 → M ⊤
  unfolding println codes decimal
  pipe_receiver pid rx_data = do
    println os (codes "hello from pid: " ++ decimal pid)
    println os (codes "received data: " ++ rx_data)

  -- `match args.next() { … }`; `pid` is what `std::process::id()` gives.
  unfoldable pub pipes_entrypoint : ℕ → List Utf8 → Option Utf8 → M ⊤
  unfolding pipe_sender pipe_receiver codes fd_argument
  pipes_entrypoint pid argv none = give panic
  pipes_entrypoint pid argv (some s) =
      if bytes_beq s (codes "pipe_sender")
      then (do tx_pipe ← fd_argument argv 2; pipe_sender tx_pipe)
      else if bytes_beq s (codes "pipe_receiver")
      then (do pipe_data ← or_panic (← next_arg argv 2); pipe_receiver pid pipe_data)
      else give panic

  -- `main`
  unfoldable pub pipes_main : ℕ → List Utf8 → M ⊤
  unfolding pipes_entrypoint next_arg
  pipes_main pid argv = do bin ← next_arg argv 0; s ← next_arg argv 1; pipes_entrypoint pid argv s
