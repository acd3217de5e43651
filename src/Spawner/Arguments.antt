-- ===== src/Spawner/Arguments.antt =====
-- spawner/args.rs: the two phases that prepare arguments with ambient authority.
use void_orchestrator.Base.{String, string_eq, ◌==◌, nat_eq, List, [], ◌∷◌, ⊤, if◌then◌else◌}
use void_orchestrator.Base.Maps.{get, put}
use void_orchestrator.Failure.{bad_pipe, bad_file_socket}
use void_orchestrator.RpcMessage.{Fd}
use void_orchestrator.Specification.{Arg, Pipe, FileSocket, RpcSpecification, pipe_name}
use void_orchestrator.Sys.{Call}
use void_orchestrator.Program.{
  M, err, pure, give, or_nix, or_io, or_err, or_panic, unwrap, call, ◌>>=◌, ◌>>◌,
}
use void_orchestrator.Resources.PipePair.{PipePair}
use void_orchestrator.Resources.PipePair
use void_orchestrator.Resources.SocketPair.{SocketPair, write as write_end}
use void_orchestrator.Resources.SocketPair
use void_orchestrator.Void.{VoidBuilder, keep_fd}
use void_orchestrator.Rpc.{handle}
use void_orchestrator.Spawner.State.{Spawner, World}
use void_orchestrator.Spawner.Argv.{PreparedArg}

-- `spawner.pipes.get_mut(s).unwrap().take_read()?`
unfoldable pub take_pipe_read : Spawner → String → M (Fd × Spawner)
unfolding PipePair.take_read
take_pipe_read sp s = do
  p ← or_panic (get s sp.pipes)
  let (r, p') = PipePair.take_read p
  fd ← or_err r
  pure (fd, record sp { pipes = put s p' sp.pipes })

-- `spawner.pipes.get_mut(s).unwrap().take_write()?`
unfoldable pub take_pipe_write : Spawner → String → M (Fd × Spawner)
unfolding PipePair.take_write
take_pipe_write sp s = do
  p ← or_panic (get s sp.pipes)
  let (r, p') = PipePair.take_write p
  fd ← or_err r
  pure (fd, record sp { pipes = put s p' sp.pipes })

-- `spawner.sockets.get_mut(s).unwrap().take_read()?`
unfoldable pub take_socket_read : Spawner → String → M (Fd × Spawner)
unfolding SocketPair.take_read
take_socket_read sp s = do
  p ← or_panic (get s sp.sockets)
  let (r, p') = SocketPair.take_read p
  fd ← or_err r
  pure (fd, record sp { sockets = put s p' sp.sockets })

-- What the arguments that only need a new descriptor have in common: keep it and prepare it.
abbrev pub kept : (Fd → PreparedArg) → VoidBuilder → Fd → PreparedArg × VoidBuilder
kept prepared b fd = (prepared fd, keep_fd fd b)

module _ (w : World) where
  -- The handler's process: `handler.handle(ambient).unwrap()`.
  unfoldable pub serve : List RpcSpecification → Fd → M ⊤
  unfolding handle
  serve specs ambient h = unwrap (handle w.os w.view specs ambient (w.requests h ambient)) h

  -- `match child { … }`: fork(2) returns 0 in the child.
  unfoldable pub fork_handler : List RpcSpecification → Fd → M ⊤
  unfolding serve
  fork_handler specs ambient = do
    pid ← or_nix "fork" (← call w.os Call.fork)
    if pid == 0 then serve specs ambient else pure tt

  -- `Arg::Rpc`: the socket of the void.
  unfoldable pub prepare_rpc : List RpcSpecification → M Fd
  unfolding fork_handler
  prepare_rpc specs = do
    (ambient, void) ← or_nix "socketpair" (← call w.os Call.socketpair)
    fork_handler specs ambient
    pure void

  -- `spawner.sockets.get(s).unwrap().write()?`
  unfoldable pub write_socket : Spawner → String → M Fd
  unfolding write_end
  write_socket sp s = do p ← or_panic (get s sp.sockets); write_end w.os p

  -- `PreparedArg::prepare_ambient`
  unfoldable pub prepare_ambient_arg : Spawner → VoidBuilder → Arg → M (PreparedArg × VoidBuilder)
  unfolding write_socket prepare_rpc pipe_name keep_fd
  prepare_ambient_arg sp b (Arg.pipe p) = give (err (bad_pipe (pipe_name p)))
  prepare_ambient_arg sp b (Arg.file_socket (FileSocket.rx s)) = give (err (bad_file_socket s))
  prepare_ambient_arg sp b (Arg.file_socket (FileSocket.tx s)) = do
    fd ← write_socket sp s
    pure (kept PreparedArg.file_socket b fd)
  prepare_ambient_arg sp b (Arg.file path) = do
    fd ← or_io (← call w.os (Call.open_read path))
    pure (kept PreparedArg.file b fd)
  prepare_ambient_arg sp b (Arg.tcp_listener addr) = do
    fd ← or_io (← call w.os (Call.bind_listener addr))
    pure (kept PreparedArg.tcp_listener b fd)
  prepare_ambient_arg sp b (Arg.rpc specs) = do fd ← prepare_rpc specs; pure (PreparedArg.rpc fd, b)
  prepare_ambient_arg sp b Arg.binary_name = pure (PreparedArg.binary_name, b)
  prepare_ambient_arg sp b Arg.entrypoint = pure (PreparedArg.entrypoint, b)
  prepare_ambient_arg sp b Arg.trigger = pure (PreparedArg.trigger, b)
  prepare_ambient_arg sp b Arg.trailing = pure (PreparedArg.trailing, b)

  -- `PreparedArgs::prepare_ambient`
  unfoldable pub prepare_ambient :
      Spawner → VoidBuilder → List Arg → M (List PreparedArg × VoidBuilder)
  unfolding prepare_ambient_arg
  prepare_ambient sp b [] = pure ([], b)
  prepare_ambient sp b (a ∷ args) = do
    (p, b1) ← prepare_ambient_arg sp b a
    (ps, b2) ← prepare_ambient sp b1 args
    pure (p ∷ ps, b2)

  -- The last case of `PreparedArg::prepare_ambient_mut`.
  unfoldable pub prepare_other_arg :
      Spawner → VoidBuilder → Arg → M (PreparedArg × Spawner × VoidBuilder)
  unfolding prepare_ambient_arg
  prepare_other_arg sp b a = do (p, b') ← prepare_ambient_arg sp b a; pure (p, sp, b')

  -- `PreparedArg::prepare_ambient_mut`, with the spawner and the builder afterwards.
  unfoldable pub prepare_ambient_mut_arg :
      Spawner → VoidBuilder → Arg → M (PreparedArg × Spawner × VoidBuilder)
  unfolding take_pipe_read take_pipe_write take_socket_read prepare_other_arg keep_fd
  prepare_ambient_mut_arg sp b (Arg.pipe (Pipe.rx s)) = do
    (fd, sp') ← take_pipe_read sp s
    pure (PreparedArg.pipe fd, sp', keep_fd fd b)
  prepare_ambient_mut_arg sp b (Arg.pipe (Pipe.tx s)) = do
    (fd, sp') ← take_pipe_write sp s
    pure (PreparedArg.pipe fd, sp', keep_fd fd b)
  prepare_ambient_mut_arg sp b (Arg.file_socket (FileSocket.rx s)) = do
    (fd, sp') ← take_socket_read sp s
    pure (PreparedArg.file_socket fd, sp', keep_fd fd b)
  prepare_ambient_mut_arg sp b a = prepare_other_arg sp b a

  -- `PreparedArgs::prepare_ambient_mut`
  unfoldable pub prepare_ambient_mut :
      Spawner → VoidBuilder → List Arg → M (List PreparedArg × Spawner × VoidBuilder)
  unfolding prepare_ambient_mut_arg
  prepare_ambient_mut sp b [] = pure ([], sp, b)
  prepare_ambient_mut sp b (a ∷ args) = do
    (p, sp1, b1) ← prepare_ambient_mut_arg sp b a
    (ps, sp2, b2) ← prepare_ambient_mut sp1 b1 args
    pure (p ∷ ps, sp2, b2)
