-- ===== src/Examples/Listener.antt =====
-- examples/tls/listener.rs: the entrypoint that accepts connections and hands them on, and
-- `tls_handler` of examples/tls/main.rs, by which it does.
pub mod Relay
use void_orchestrator.Base.{
  ℕ, ℤ, pos, Bool, true, false, not, ◌&&◌, Option, none, some, List, [], ◌∷◌, ◌==◌, nat_eq, leb, ⊤,
  if◌then◌else◌,
}
use void_orchestrator.Failure.{Errno}
use void_orchestrator.Text.{codes}
use void_orchestrator.RpcMessage.{Fd}
use void_orchestrator.Sys.{Call, Os, Nix, Io, IoError, Events, done, fail}
use void_orchestrator.Program.{M, Outcome, panic, blocked, pure, give, call, ◌>>=◌, ◌>>◌}
use void_orchestrator.Run.{exit_ok}
use void_orchestrator.Spawner.Triggers.{eintr}
use void_orchestrator.Examples.Argv.{unwrap_answer, println}

-- EAGAIN
abbrev pub eagain : Errno
eagain = 11

-- `e.kind() == ErrorKind::WouldBlock`
abbrev pub would_block : Option Errno → Bool
would_block none = false
would_block (some e) = e == eagain

-- SIGINT
abbrev pub sigint : ℕ
sigint = 2

-- `handle_sigint`: the value that `RUNNING` is given, or a panic where there is no such signal.
unfoldable pub handle_sigint : ℕ → Option Bool
handle_sigint signal = if leb 1 signal && leb signal 31 then some (not (signal == sigint)) else none

module _ (os : Os) where
  -- `tls_handler`: it sends the connection over the socket of the trigger.
  unfoldable pub tls_handler : Fd → Fd → M ⊤
  unfolding unwrap_answer
  tls_handler trigger_socket stream = do
    unwrap_answer (← call os (Call.send_rights trigger_socket (stream ∷ [])))

  -- What follows `listener.accept()`, before the rest of the loop.
  unfoldable pub accepted_step : Fd → Io Fd → M ℤ → M ℤ
  unfolding tls_handler println codes
  accepted_step trigger (fail e) next = if would_block e.raw_os_error then next else give panic
  accepted_step trigger (done stream) next = do
    println os (codes "received a new connection")
    tls_handler trigger stream
    next

  -- What follows `poll`, before the rest of the loop.
  unfoldable pub polled_step : Fd → Fd → Nix (List (Option Events)) → M ℤ → M ℤ
  unfolding accepted_step
  polled_step trigger listener (fail e) next = if e == eintr then next else give panic
  polled_step trigger listener (done _) next = do
    r ← call os (Call.accept listener)
    accepted_step trigger r next

  -- `while RUNNING.load(…) { … }`, from the values that `RUNNING` will be found to have. Where they
  -- end, the program waits.
  unfoldable pub listen_loop : Fd → Fd → List Bool → M ℤ
  unfolding polled_step
  listen_loop trigger listener [] = give blocked
  listen_loop trigger listener (false ∷ _) = pure exit_ok
  listen_loop trigger listener (true ∷ running) = do
    polled ← call os (Call.poll (listener ∷ []) (pos 1000))
    polled_step trigger listener polled (listen_loop trigger listener running)

  -- `handler`
  unfoldable pub listen : Fd → Fd → List Bool → M ℤ
  unfolding listen_loop unwrap_answer println codes
  listen trigger listener running = do
    println os (codes "connection_listener entered")
    unwrap_answer (← call os Call.handle_sigint)
    unwrap_answer (← call os (Call.set_nonblocking listener))
    listen_loop trigger listener running
