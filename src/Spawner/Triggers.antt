-- ===== src/Spawner/Triggers.antt =====
-- spawner/mod.rs: the process of an entrypoint, and the two processes that wait for a trigger.
use void_orchestrator.Base.{
  ℕ, String, ℤ, pos, negsuc, Bool, true, false, ◌==◌, nat_eq, Option, none, some, List, [], ◌∷◌, ⊤,
  length, take, if◌then◌else◌,
}
use void_orchestrator.Failure.{Errno, nix, io}
use void_orchestrator.RpcMessage.{Fd}
use void_orchestrator.Utf8.{from_utf8}
use void_orchestrator.Specification.{Entrypoint, Utf8}
use void_orchestrator.Sys.{Call, WaitStatus, Nix, Io, done, fail}
use void_orchestrator.Program.{
  M, Outcome, ok, err, panic, exit, exec, blocked, undefined, pure, give, or_nix, or_panic, unwrap,
  call, ◌>>=◌, ◌>>◌,
}
use void_orchestrator.Void.{VoidBuilder, mount, keep_fd}
use void_orchestrator.Void
use void_orchestrator.Void.Spawn.{spawn}
use void_orchestrator.Spawner.State.{Spawner, World, TriggerData, ControlMessage}
use void_orchestrator.Spawner.Argv.{PreparedArg, prepare_void}
use void_orchestrator.Spawner.Arguments.{prepare_ambient}
use void_orchestrator.Spawner.Environments.{entrypoint_path, prepare_env}

-- `BUFFER_SIZE`
abbrev pub buffer_size : ℕ
buffer_size = 1024

-- EINTR
abbrev pub eintr : Errno
eintr = 4

-- What follows `execv`: only a failure returns, with the exit code 1.
unfoldable pub exec_result : List Utf8 → Nix ⊤ → M ℤ
exec_result argv (fail e) = pure (pos 1)
exec_result argv (done _) = give (exec entrypoint_path argv)

-- `match self.…_trigger(…) { Ok(()) => exitcode::OK, Err(e) => 1 }`
unfoldable pub trigger_code : Outcome ⊤ → Outcome ℤ
trigger_code (ok _) = ok (pos 0)
trigger_code (err e) = ok (pos 1)
trigger_code panic = panic
trigger_code (exit code) = exit code
trigger_code (exec path argv) = exec path argv
trigger_code blocked = blocked
trigger_code undefined = undefined

-- The closure that runs a trigger in its void.
unfoldable pub trigger_closure : M ⊤ → M ℤ
unfolding trigger_code
trigger_closure m h = let (r, h') = m h in (trigger_code r, h')

-- `builder.mount("/entrypoint", "/entrypoint")` on a new builder.
unfoldable pub triggered_builder : VoidBuilder
unfolding mount Void.new
triggered_builder = mount entrypoint_path entrypoint_path Void.new

-- `for fd in &fds { builder.keep_fd(fd); }`
unfoldable pub keep_fds : List Fd → VoidBuilder → VoidBuilder
unfolding keep_fd
keep_fds [] b = b
keep_fds (fd ∷ fds) b = keep_fds fds (keep_fd fd b)

-- `e.kind() == ErrorKind::Interrupted`
abbrev pub is_interrupted : Option Errno → Bool
is_interrupted none = false
is_interrupted (some e) = e == eintr

-- The status of the forked process, in the parent of `fork_for_trigger`.
unfoldable pub exit_as : WaitStatus → M ⊤
exit_as (WaitStatus.exited _ code) = give (exit code)
exit_as (WaitStatus.signaled _ _) = give (exit (negsuc 0))
exit_as WaitStatus.other = give panic

module _ (w : World) where
  -- `stop_self`
  unfoldable pub stop_self : M ⊤
  stop_self = do or_nix "kill" (← call w.os Call.stop_self); pure tt

  -- `if self.debug { Self::stop_self(name).unwrap() }`
  unfoldable pub stop_if : Bool → M ⊤
  unfolding stop_self
  stop_if false = pure tt
  stop_if true = unwrap stop_self

  -- The closure that the child of an entrypoint runs in its void; `trigger` is what it computes of
  -- the trigger's data.
  unfoldable pub entry_closure : Spawner → String → List PreparedArg → Option TriggerData → M ℤ
  unfolding stop_if prepare_void exec_result
  entry_closure sp name args trigger = do
    stop_if sp.debug
    data' ← or_panic trigger
    argv ← or_panic (prepare_void sp name data' args)
    r ← call w.os (Call.execv entrypoint_path argv)
    exec_result argv r

  -- `fork_for_trigger`: it returns in the child only.
  unfoldable pub fork_for_trigger : M ⊤
  unfolding exit_as
  fork_for_trigger = do
    pid ← or_nix "fork" (← call w.os Call.fork)
    if pid == 0
        then pure tt
        else do status ← or_nix "waitpid" (← call w.os Call.waitid); exit_as status

  -- The arguments and the builder of a void for an event, from a builder that knows the event's files.
  unfoldable pub prepare_triggered :
      Spawner → Entrypoint → VoidBuilder → M (List PreparedArg × VoidBuilder)
  unfolding prepare_env prepare_ambient
  prepare_triggered sp entry b = prepare_ambient w sp (prepare_env b entry.environment) entry.args

  -- What both triggers do for each event: a void for the entrypoint, from a builder that knows the
  -- files of the event.
  unfoldable pub start_triggered :
      Spawner → Entrypoint → String → VoidBuilder → Option TriggerData → M ⊤
  unfolding prepare_triggered entry_closure
  start_triggered sp entry name b trigger = do
    (args, b') ← prepare_triggered sp entry b
    spawn w.os w.at b' (entry_closure sp name args trigger)
    pure tt

  -- `TriggerData::Pipe(from_utf8(&buf[0..read_bytes]).unwrap())`
  abbrev pub pipe_data : List ℕ → Option TriggerData
  pipe_data bytes = elim (from_utf8 bytes) [ none ↦ none | some s ↦ some (TriggerData.pipe s) ]

  -- The loop of `pipe_trigger`, from the results that read(2) will give. Where they end, the process
  -- waits for data.
  unfoldable pub pipe_loop : Spawner → Entrypoint → String → List (Io (List ℕ)) → M ⊤
  unfolding start_triggered triggered_builder
  pipe_loop sp entry name [] = give blocked
  pipe_loop sp entry name (fail e ∷ _) =
      if is_interrupted e.raw_os_error then pure tt else give (err (io e.raw_os_error))
  pipe_loop sp entry name (done bytes ∷ rest) =
      let received = take buffer_size bytes in
      if length received == 0 then pure tt else do
        start_triggered sp entry name triggered_builder (pipe_data received)
        pipe_loop sp entry name rest

  -- `pipe_trigger`
  unfoldable pub pipe_trigger : Spawner → Fd → Entrypoint → String → M ⊤
  unfolding fork_for_trigger pipe_loop
  pipe_trigger sp pipe entry name = do
    fork_for_trigger
    λ h. pipe_loop sp entry name (w.reads h pipe) h

  -- `for cmsg in msg.cmsgs() { … }`
  unfoldable pub start_for_messages : Spawner → Entrypoint → String → List ControlMessage → M ⊤
  unfolding start_triggered triggered_builder keep_fds
  start_for_messages sp entry name [] = pure tt
  start_for_messages sp entry name (ControlMessage.scm_rights fds ∷ cmsgs) = do
    start_triggered sp entry name (keep_fds fds triggered_builder)
        (some (TriggerData.file_socket fds))
    start_for_messages sp entry name cmsgs
  start_for_messages sp entry name (ControlMessage.unhandled ∷ _) = give panic

  -- The loop of `file_socket_trigger`, from the results that recvmsg(2) will give.
  unfoldable pub socket_loop :
      Spawner → Entrypoint → String → List (Nix (List ControlMessage)) → M ⊤
  unfolding start_for_messages
  socket_loop sp entry name [] = give blocked
  socket_loop sp entry name (fail e ∷ _) =
      if e == eintr then pure tt else give (err (nix "recvmsg" e))
  socket_loop sp entry name (done cmsgs ∷ rest) = do
    start_for_messages sp entry name cmsgs
    socket_loop sp entry name rest

  -- `file_socket_trigger`
  unfoldable pub file_socket_trigger : Spawner → Fd → Entrypoint → String → M ⊤
  unfolding fork_for_trigger socket_loop
  file_socket_trigger sp socket entry name = do
    fork_for_trigger
    λ h. socket_loop sp entry name (w.messages h socket) h
