-- ===== src/Examples/Tls.antt =====
-- examples/tls/main.rs: the three entrypoints, which read the descriptors that they are given.
pub mod Given
use void_orchestrator.Base.{ℕ, ℤ, Bool, Option, none, some, List, ⊤, if◌then◌else◌}
use void_orchestrator.Text.{codes, bytes_beq}
use void_orchestrator.RpcMessage.{Fd}
use void_orchestrator.Specification.{Utf8}
use void_orchestrator.Sys.{Io, Os}
use void_orchestrator.Program.{M, Outcome, panic, exit, give, ◌>>=◌, ◌>>◌}
use void_orchestrator.Examples.Argv.{next_arg, fd_argument}
use void_orchestrator.Examples.Listener.{listen}
use void_orchestrator.Examples.Http.{Parsed, serve_http}
use void_orchestrator.Examples.TlsHandler.Connection.{Rustls, Pem}
use void_orchestrator.Examples.TlsHandler.{Turn, serve_tls}

-- What lies outside the programs: the system, httparse and rustls, what two files hold, and what the
-- loops will find.
pub record Outside : Type 1 where
  pub os : Os
  pub parse : List ℕ → Parsed
  pub tls : Rustls
  pub pem : Fd → Fd → Pem
  pub turns : Fd → List Turn
  pub reads : Fd → List (Io (List ℕ))
  pub running : List Bool

-- `std::process::exit(…)`
unfoldable pub exiting : M ℤ → M ⊤
exiting m = do code ← m; give (exit code)

module _ (o : Outside) where
  unfoldable pub connection_listener_entrypoint : List Utf8 → M ⊤
  unfolding fd_argument listen exiting
  connection_listener_entrypoint argv = do
    tls_handler_trigger ← fd_argument argv 1
    tcp_listener ← fd_argument argv 2
    exiting (listen o.os tls_handler_trigger tcp_listener o.running)

  unfoldable pub tls_handler_entrypoint : List Utf8 → M ⊤
  unfolding fd_argument serve_tls exiting
  tls_handler_entrypoint argv = do
    http_handler_trigger ← fd_argument argv 1
    tls_cert_file ← fd_argument argv 2
    tls_key_file ← fd_argument argv 3
    stream ← fd_argument argv 4
    exiting (
        serve_tls o.os o.tls http_handler_trigger (o.pem tls_cert_file tls_key_file) stream
          (o.turns stream))

  unfoldable pub http_handler_entrypoint : List Utf8 → M ⊤
  unfolding fd_argument serve_http exiting
  http_handler_entrypoint argv = do
    stream ← fd_argument argv 1
    exiting (serve_http o.os o.parse stream (o.reads stream))

  -- `match std::env::args().next() { … }`
  unfoldable pub tls_entrypoint : List Utf8 → Option Utf8 → M ⊤
  unfolding connection_listener_entrypoint tls_handler_entrypoint http_handler_entrypoint codes
  tls_entrypoint argv none = give panic
  tls_entrypoint argv (some s) =
      if bytes_beq s (codes "connection_listener")
      then connection_listener_entrypoint argv
      else if bytes_beq s (codes "tls_handler")
      then tls_handler_entrypoint argv
      else if bytes_beq s (codes "http_handler")
      then http_handler_entrypoint argv
      else give panic

  -- `main`
  unfoldable pub tls_main : List Utf8 → M ⊤
  unfolding tls_entrypoint next_arg
  tls_main argv = do s ← next_arg argv 0; tls_entrypoint argv s
