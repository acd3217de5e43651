-- ===== src/Resources/SocketPair.antt =====
-- lib.rs: a socket whose reading end is handed out once, and whose writing end is duplicated.
use void_orchestrator.Base.{String, Option, none, some}
use void_orchestrator.Failure.{Result, bad_file_socket}
use void_orchestrator.RpcMessage.{Fd}
use void_orchestrator.Sys.{Call, Os}
use void_orchestrator.Program.{M, pure, or_nix, call, ◌>>=◌}

-- `SocketPair`
pub record SocketPair : Type 0 where
  pub name : String
  pub read : Option Fd
  pub write : Fd

-- `SocketPair::new`, from the two descriptors of socketpair(2).
abbrev pub fresh : String → Fd × Fd → SocketPair
fresh name (read, write) = record { name = name; read = some read; write = write }

-- `SocketPair::new`
unfoldable pub new : Os → String → M SocketPair
new os name = do ends ← or_nix "socketpair" (← call os Call.socketpair); pure (fresh name ends)

abbrev pub ok_or_bad_file_socket : String → Option Fd → Result Fd
ok_or_bad_file_socket name none = Result.err (bad_file_socket name)
ok_or_bad_file_socket name (some fd) = Result.ok fd

-- `SocketPair::take_read`: the result, and the pair afterwards.
unfoldable pub take_read : SocketPair → Result Fd × SocketPair
take_read s = (ok_or_bad_file_socket s.name s.read, record s { read = none })

-- `SocketPair::write`
unfoldable pub write : Os → SocketPair → M Fd
write os s = do or_nix "dup" (← call os (Call.dup s.write))
