-- ===== src/Resources/PipePair.antt =====
-- lib.rs: a pipe whose ends are handed out once.
use void_orchestrator.Base.{String, Option, none, some}
use void_orchestrator.Failure.{Result, bad_pipe}
use void_orchestrator.RpcMessage.{Fd}
use void_orchestrator.Sys.{Call, Os}
use void_orchestrator.Program.{M, pure, or_nix, call, ◌>>=◌}

-- `PipePair`
pub record PipePair : Type 0 where
  pub name : String
  pub read : Option Fd
  pub write : Option Fd

-- `PipePair::new`, from the two descriptors of pipe2(2).
abbrev pub fresh : String → Fd × Fd → PipePair
fresh name (read, write) = record { name = name; read = some read; write = some write }

-- `PipePair::new`
unfoldable pub new : Os → String → M PipePair
new os name = do ends ← or_nix "pipe2" (← call os Call.pipe2); pure (fresh name ends)

-- `self.name` in an error, unless the end is there.
abbrev pub ok_or_bad_pipe : String → Option Fd → Result Fd
ok_or_bad_pipe name none = Result.err (bad_pipe name)
ok_or_bad_pipe name (some fd) = Result.ok fd

-- `PipePair::take_read`: the result, and the pair afterwards.
unfoldable pub take_read : PipePair → Result Fd × PipePair
take_read p = (ok_or_bad_pipe p.name p.read, record p { read = none })

-- `PipePair::take_write`
unfoldable pub take_write : PipePair → Result Fd × PipePair
take_write p = (ok_or_bad_pipe p.name p.write, record p { write = none })
