-- ===== src/Spawner/State.antt =====
-- spawner/mod.rs: the spawner, the data of a trigger, and what lies outside the program.
use void_orchestrator.Base.Options.{◌>>=◌}
use void_orchestrator.Base.{ℕ, String, Bool, Option, some, List, [], ◌∷◌}
use void_orchestrator.Text.{decimal}
use void_orchestrator.Utf8.{c_string}
use void_orchestrator.RpcMessage.{Fd, OpenSocket}
use void_orchestrator.Specification.{FilePath, Environment, Specification, Utf8}
use void_orchestrator.Sys.{Os, History, WaitStatus, Answer, Nix, Io}
use void_orchestrator.Clone.{Addresses}
use void_orchestrator.Resources.PipePair.{PipePair}
use void_orchestrator.Resources.SocketPair.{SocketPair}

-- A `Path` where the program also needs its bytes: as `std::path` reads it, and as it was written.
pub record OsPath : Type 0 where
  pub path : FilePath
  pub bytes : Utf8

-- `Spawner`
pub record Spawner : Type 0 where
  pub spec : Specification
  pub binary : OsPath
  pub binary_args : List Utf8
  pub debug : Bool
  pub pipes : List (String × PipePair)
  pub sockets : List (String × SocketPair)

-- `nix::sys::socket::ControlMessageOwned`, where `unhandled` is any case but `ScmRights`.
pub data ControlMessage : Type 0 where
  scm_rights : List Fd → ControlMessage
  unhandled : ControlMessage

-- What lies outside the program: the operating system, the addresses of the variables of `clone3`,
-- the layout of an `OpenSocket`, and what a loop on a descriptor will receive, from the history in
-- which it begins: requests, bytes from a pipe, and the control messages of a socket; then the
-- statuses of the children that `run` will wait for, what serde reads from a file, the order in
-- which a set of names is iterated, and that of a set of environments after an insertion.
pub record World : Type 0 where
  pub os : Os
  pub at : Addresses
  pub view : List ℕ → OpenSocket
  pub requests : History → Fd → List (Nix (List ℕ))
  pub reads : History → Fd → List (Io (List ℕ))
  pub messages : History → Fd → List (Nix (List ControlMessage))
  pub statuses : History → List (Nix WaitStatus)
  pub from_reader : History → Fd → Answer String Specification
  pub iter : List String → List String
  pub rehash : List Environment → List Environment

-- `TriggerData`
pub data TriggerData : Type 0 where
  nothing : TriggerData
  pipe : Utf8 → TriggerData
  file_socket : List Fd → TriggerData

-- `CString::new(fd.to_string())`
unfoldable pub fd_arg : Fd → Option Utf8
unfolding c_string decimal
fd_arg fd = c_string (decimal fd)

-- `fs.drain(..).map(…).collect()`
unfoldable pub fd_args : List Fd → Option (List Utf8)
unfolding fd_arg
fd_args [] = some []
fd_args (fd ∷ fds) = do text ← fd_arg fd; texts ← fd_args fds; some (text ∷ texts)

-- `TriggerData::args`, and the data afterwards: the files of a socket are handed out once. It
-- panics, as `none` says, where the text of a pipe holds a zero.
unfoldable pub trigger_args : TriggerData → Option (List Utf8 × TriggerData)
unfolding c_string fd_args
trigger_args nothing = some ([], nothing)
trigger_args (pipe s) = do text ← c_string s; some (text ∷ [], pipe s)
trigger_args (file_socket fds) = do texts ← fd_args fds; some (texts, file_socket [])
