-- ===== src/Spawner/Start.antt =====
-- spawner/mod.rs: `Spawner::spawn`, which starts every entrypoint or the process that waits for its
-- trigger.
use void_orchestrator.Base.{String, some, List, [], ◌∷◌, ⊤}
use void_orchestrator.Specification.{Entrypoint, Trigger}
use void_orchestrator.Program.{M, pure, ◌>>=◌, ◌>>◌}
use void_orchestrator.Void.{VoidBuilder, keep_fd}
use void_orchestrator.Void
use void_orchestrator.Void.Spawn.{spawn}
use void_orchestrator.Spawner.State.{Spawner, World, TriggerData}
use void_orchestrator.Spawner.Argv.{PreparedArg}
use void_orchestrator.Spawner.Arguments.{take_pipe_read, take_socket_read, prepare_ambient_mut}
use void_orchestrator.Spawner.Environments.{mount_entrypoint, prepare_env, prepare_spawner}
use void_orchestrator.Spawner.Triggers.{
  entry_closure, trigger_closure, pipe_trigger, file_socket_trigger,
}

module _ (w : World) where
  -- An entrypoint that is started at once: its arguments, and the builder of its void.
  unfoldable pub prepare_startup :
      Spawner → Entrypoint → M (List PreparedArg × Spawner × VoidBuilder)
  unfolding mount_entrypoint prepare_env prepare_ambient_mut Void.new
  prepare_startup sp entry = do
    b ← mount_entrypoint w.os sp.binary Void.new
    prepare_ambient_mut w sp (prepare_env b entry.environment) entry.args

  -- The body of the loop, by the trigger of the entrypoint; the result is the spawner afterwards.
  unfoldable pub spawn_entrypoint : Spawner → String → Entrypoint → Trigger → M Spawner
  unfolding prepare_startup prepare_spawner take_pipe_read take_socket_read entry_closure
      trigger_closure pipe_trigger file_socket_trigger keep_fd Void.new
  spawn_entrypoint sp name entry Trigger.startup = do
    (args, sp', b') ← prepare_startup sp entry
    spawn w.os w.at b' (entry_closure w sp' name args (some TriggerData.nothing))
    pure sp'
  spawn_entrypoint sp name entry (Trigger.pipe s) = do
    b ← prepare_spawner w.os sp Void.new entry.environment entry.args
    (pipe, sp') ← take_pipe_read sp s
    spawn w.os w.at (keep_fd pipe b) (trigger_closure (pipe_trigger w sp' pipe entry name))
    pure sp'
  spawn_entrypoint sp name entry (Trigger.file_socket s) = do
    b ← prepare_spawner w.os sp Void.new entry.environment entry.args
    (socket, sp') ← take_socket_read sp s
    spawn w.os w.at (keep_fd socket b)
        (trigger_closure (file_socket_trigger w sp' socket entry name))
    pure sp'

  -- `Spawner::spawn`, over the entrypoints in the order in which the map is iterated.
  unfoldable pub spawn_entrypoints : Spawner → List (String × Entrypoint) → M ⊤
  unfolding spawn_entrypoint
  spawn_entrypoints sp [] = pure tt
  spawn_entrypoints sp ((name, entry) ∷ entries) = do
    sp' ← spawn_entrypoint sp name entry entry.trigger
    spawn_entrypoints sp' entries
