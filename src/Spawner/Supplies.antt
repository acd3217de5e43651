-- ===== src/Spawner/Supplies.antt =====
-- What the maps of a spawner must still hold for the entrypoints that are yet to be started.
pub mod Ends
pub mod Parent
pub mod Shared
pub mod Preparation
pub mod Spawning
use void_orchestrator.Base.{ℕ, ◌+◌, ◌≡◌, ◌⊎◌, String, string_eq, Option, some, List}
use void_orchestrator.Base.Maps.{get}
use void_orchestrator.RpcMessage.{Fd}
use void_orchestrator.Specification.{Arg, Entrypoint, Trigger}
use void_orchestrator.Specification.Counts.{
  sum_args, sum_entries, pipe_trigger_reads, pipe_arg_reads, pipe_arg_writes, socket_trigger_reads,
  socket_arg_reads, socket_arg_writes,
}
use void_orchestrator.Resources.PipePair.{PipePair}
use void_orchestrator.Resources.SocketPair.{SocketPair}
use void_orchestrator.Spawner.State.{Spawner}

module _ {A : Type 0} where
  -- The map holds the end of the pair of this name.
  abbrev pub HasEnd : (A → Option Fd) → List (String × A) → String → Type 0
  HasEnd end map n = (a : A) × (fd : Fd) × (get n map ≡ some a) × (end a ≡ some fd)

  abbrev pub HasPair : List (String × A) → String → Type 0
  HasPair map n = (a : A) × (get n map ≡ some a)

-- The end of a name is needed once at most, and if it is needed it is there.
abbrev pub Provides : (String → Type 0) → (String → ℕ) → Type 0
Provides Has need = (n : String) → (need n ≡ 0) ⊎ ((need n ≡ 1) × Has n)

-- The pair of a name that is needed is there.
abbrev pub Knows : (String → Type 0) → (String → ℕ) → Type 0
Knows Has need = (n : String) → (need n ≡ 0) ⊎ Has n

-- How often the ends of each name are needed.
pub record Needs : Type 0 where
  pub pipe_reads : String → ℕ
  pub pipe_writes : String → ℕ
  pub socket_reads : String → ℕ
  pub sockets : String → ℕ

infixl 65 ◌⊕◌
abbrev pub ◌⊕◌ : Needs → Needs → Needs
c ⊕ d = record {
  pipe_reads = λ n. c.pipe_reads n + d.pipe_reads n;
  pipe_writes = λ n. c.pipe_writes n + d.pipe_writes n;
  socket_reads = λ n. c.socket_reads n + d.socket_reads n;
  sockets = λ n. c.sockets n + d.sockets n;
}

abbrev pub trigger_needs : Trigger → Needs
trigger_needs t = record {
  pipe_reads = λ n. pipe_trigger_reads n t;
  pipe_writes = λ n. 0;
  socket_reads = λ n. socket_trigger_reads n t;
  sockets = λ n. socket_trigger_reads n t;
}

abbrev pub arg_needs : Arg → Needs
arg_needs a = record {
  pipe_reads = λ n. pipe_arg_reads n a;
  pipe_writes = λ n. pipe_arg_writes n a;
  socket_reads = λ n. socket_arg_reads n a;
  sockets = λ n. socket_arg_reads n a + socket_arg_writes n a;
}

abbrev pub args_needs : List Arg → Needs
args_needs args = record {
  pipe_reads = λ n. sum_args (pipe_arg_reads n) args;
  pipe_writes = λ n. sum_args (pipe_arg_writes n) args;
  socket_reads = λ n. sum_args (socket_arg_reads n) args;
  sockets = λ n. sum_args (socket_arg_reads n) args + sum_args (socket_arg_writes n) args;
}

abbrev pub entries_needs : List (String × Entrypoint) → Needs
entries_needs es = record {
  pipe_reads = λ n. sum_entries (pipe_trigger_reads n) (pipe_arg_reads n) es;
  pipe_writes = λ n. sum_entries (λ _. 0) (pipe_arg_writes n) es;
  socket_reads = λ n. sum_entries (socket_trigger_reads n) (socket_arg_reads n) es;
  sockets = λ n.
      sum_entries (socket_trigger_reads n) (socket_arg_reads n) es
      + sum_entries (λ _. 0) (socket_arg_writes n) es;
}

-- The spawner's maps hold what is needed.
pub record Supplies (needs : Needs) (sp : Spawner) : Type 0 where
  pub reads : Provides (HasEnd (λ (p : PipePair). p.read) sp.pipes) needs.pipe_reads
  pub writes : Provides (HasEnd (λ (p : PipePair). p.write) sp.pipes) needs.pipe_writes
  pub receives : Provides (HasEnd (λ (s : SocketPair). s.read) sp.sockets) needs.socket_reads
  pub known : Knows (HasPair sp.sockets) needs.sockets
