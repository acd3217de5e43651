-- ===== src/Spawner/Executes.antt =====
-- spawner/mod.rs: the closure that the child of an entrypoint runs in its void.
use void_orchestrator.Base.{◌≡◌, refl, false, String, some, List, ◌∷◌}
use void_orchestrator.Specification.{Utf8}
use void_orchestrator.Sys.{Call, History}
use void_orchestrator.Program.{◌>>=◌}
use void_orchestrator.Spawner.State.{World, Spawner, TriggerData}
use void_orchestrator.Spawner.Environments.{entrypoint_path}
use void_orchestrator.Spawner.Argv.{PreparedArg, prepare_void}
use void_orchestrator.Spawner.Triggers.{exec_result, stop_if, entry_closure}

module _ (w : World) (sp : Spawner) (name : String) (t : TriggerData) (ps : List PreparedArg)
    (argv : List Utf8) where
  -- The closure calls execv(2) with these texts, and nothing before it.
  abbrev pub Executes : Type 0
  Executes =
      (h : History)
      → entry_closure w sp name ps (some t) h
        ≡ exec_result argv (w.os h (Call.execv entrypoint_path argv))
            (Call.execv entrypoint_path argv ∷ h)

  -- With the texts that are made, where the process does not stop for debugging.
  pub prepare_void-Executes : sp.debug ≡ false → prepare_void sp name t ps ≡ some argv → Executes
  unfolding entry_closure stop_if ◌>>=◌
  prepare_void-Executes not_debug made h = rw (not_debug, made) refl
