-- ===== src/Spawner/Closed.antt =====
-- spawner/mod.rs and void.rs: which descriptors the void of an entrypoint closes.
use mathlib.Core.List.{Memᴰ}
use void_orchestrator.Base.{
  ◌≤◌, ◌≡◌, false, nat_eq, List, [], ◌∷◌, arith, contains, contains-append,
}
use void_orchestrator.RpcMessage.{Fd}
use void_orchestrator.Specification.{Environment, Entrypoint}
use void_orchestrator.Sys.{Call, History}
use void_orchestrator.Program.{ok}
use void_orchestrator.Void.{VoidBuilder}
use void_orchestrator.Void
use void_orchestrator.Void.Namespaces.{void_file_descriptors}
use void_orchestrator.Void.Descriptors.{void_file_descriptors-IsClosed}
use void_orchestrator.Spawner.State.{Spawner, World}
use void_orchestrator.Spawner.Argv.{PreparedArg}
use void_orchestrator.Spawner.Start.{prepare_startup}
use void_orchestrator.Spawner.Confinement.{kept_fds}
use void_orchestrator.Spawner.Declared.{declared_fd, declared_fds, prepare_startup-Grants}

-- Among the calls is one that closes all descriptors from 3 but some, which are not this one.
pub record IsClosedIn (k : Fd) (h : History) : Type 0 where
  pub spared : List Fd
  pub called : Memᴰ (Call.close_from spared 3) h
  pub from_3 : 3 ≤ k
  pub not_spared : contains spared k ≡ false

declared_fd-std : (e : Environment) (k : Fd) → 3 ≤ k → contains (declared_fd e) k ≡ false
declared_fd-std (Environment.filesystem src dst) k ge = ground arith
declared_fd-std (Environment.hostname name) k ge = ground arith
declared_fd-std (Environment.domain_name name) k ge = ground arith
declared_fd-std Environment.procfs k ge = ground arith
declared_fd-std Environment.stdin k ge = ground arith
declared_fd-std Environment.stdout k ge = ground arith
declared_fd-std Environment.stderr k ge = ground arith

declared_fds-std : (es : List Environment) (k : Fd) → 3 ≤ k → contains (declared_fds es) k ≡ false
declared_fds-std [] k ge = ground arith
declared_fds-std (e ∷ es) k ge = ground (
  arith,
  contains-append (declared_fd e) (declared_fds es) k,
  declared_fd-std e k ge,
  declared_fds-std es k ge,
)

-- In the void of an entrypoint that is started at once, every descriptor from 3 on that is not one
-- of a file, pipe, file socket or listener among its arguments has been closed when the void's
-- descriptors have been prepared, whatever its environment names. So the socket of an RPC argument,
-- whose number the entrypoint is given, is closed before the entrypoint runs.
pub others_closed :
    (w : World) (sp : Spawner) (entry : Entrypoint) (h h2 : History)
    → {ps : List PreparedArg} {sp' : Spawner} {b : VoidBuilder} {h1 h3 : History}
    → prepare_startup w sp entry h ≡ (ok (ps, sp', b), h1)
    → void_file_descriptors w.os b h2 ≡ (ok tt, h3)
    → (k : Fd) → 3 ≤ k
    → contains (kept_fds ps) k ≡ false
    → IsClosedIn k h3
unfolding Void.new
others_closed w sp entry h h2 {ps} {b} prepared voided k ge passed =
    let (binary, found, grants) = (prepare_startup-Grants w sp entry).at h prepared in
    record {
      spared = b.fds;
      called = (void_file_descriptors-IsClosed w.os b h2 voided).closed;
      from_3 = ge;
      not_spared = ground (
        arith,
        grants.fds_are k,
        contains-append (declared_fds entry.environment) (kept_fds ps) k,
        declared_fds-std entry.environment k ge,
      );
    }
