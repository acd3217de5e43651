-- ===== src/Specification.antt =====
-- specification.rs: the data of a specification, and the collection of its pipes and sockets.
pub mod Validate
pub mod Counts
pub mod Soundness
use void_orchestrator.Base.{ℕ, String, Bool, true, false, Option, none, some, List, [], ◌∷◌, ◌++◌}

-- A `PathBuf`: whether it begins with `/`, and its components.
pub record FilePath : Type 0 where
  pub is_absolute : Bool
  pub components : List String

-- A `std::net::SocketAddr`, by its text.
abbrev pub SocketAddr : Type 0
SocketAddr = String

-- The UTF-8 bytes of a Rust string, where the program compares it with bytes.
abbrev pub Utf8 : Type 0
Utf8 = List ℕ

pub data Trigger : Type 0 where
  startup : Trigger
  pipe : String → Trigger
  file_socket : String → Trigger

-- `impl Default for Trigger`
abbrev pub default_trigger : Trigger
default_trigger = Trigger.startup

-- `Network`, over the two types of the crate ipnetwork; nothing uses it.
pub data Network (Ipv4Network Ipv6Network : Type 0) : Type 0 where
  internet_v4 internet_v6 : Network Ipv4Network Ipv6Network
  private_v4 : Ipv4Network → Network Ipv4Network Ipv6Network
  private_v6 : Ipv6Network → Network Ipv4Network Ipv6Network

pub data AddressFamily : Type 0 where
  inet inet6 : AddressFamily

pub data RpcSpecification : Type 0 where
  open_tcp_socket : Option AddressFamily → Option ℕ → Option Utf8 → RpcSpecification
  open_udp_socket : Option AddressFamily → Option ℕ → Option Utf8 → RpcSpecification

pub data Pipe : Type 0 where
  rx : String → Pipe
  tx : String → Pipe

pub data FileSocket : Type 0 where
  rx : String → FileSocket
  tx : String → FileSocket

pub data Arg : Type 0 where
  binary_name : Arg
  entrypoint : Arg
  file : FilePath → Arg
  pipe : Pipe → Arg
  file_socket : FileSocket → Arg
  trigger : Arg
  tcp_listener : SocketAddr → Arg
  rpc : List RpcSpecification → Arg
  trailing : Arg

-- `Arg::default_vec`
abbrev pub default_vec : List Arg
default_vec = Arg.binary_name ∷ []

pub data Environment : Type 0 where
  filesystem : FilePath → FilePath → Environment
  hostname : String → Environment
  domain_name : String → Environment
  procfs : Environment
  stdin stdout stderr : Environment

-- `environment` is a `HashSet`: the list is the order in which it is iterated.
pub record Entrypoint : Type 0 where
  pub trigger : Trigger
  pub args : List Arg
  pub environment : List Environment

-- `entrypoints` is a `HashMap`: the list is the order in which it is iterated.
pub record Specification : Type 0 where
  pub entrypoints : List (String × Entrypoint)

-- `Pipe::get_name`
unfoldable pub pipe_name : Pipe → String
pipe_name (Pipe.rx n) = n
pipe_name (Pipe.tx n) = n

-- `FileSocket::get_name`
unfoldable pub file_socket_name : FileSocket → String
file_socket_name (FileSocket.rx n) = n
file_socket_name (FileSocket.tx n) = n

-- The two vectors that `pipes` and `sockets` fill.
pub record Ends : Type 0 where
  pub read : List String
  pub write : List String

abbrev pub no_ends : Ends
no_ends = record { read = []; write = [] }

abbrev pub push_read : Ends → String → Ends
push_read e s = record e { read = e.read ++ (s ∷ []) }

abbrev pub push_write : Ends → String → Ends
push_write e s = record e { write = e.write ++ (s ∷ []) }

-- `if let Trigger::Pipe(s) = &entry.trigger`
unfoldable pub push_pipe_trigger : Ends → Trigger → Ends
push_pipe_trigger e (Trigger.pipe s) = push_read e s
push_pipe_trigger e _ = e

-- `if let Arg::Pipe(p) = arg`
unfoldable pub push_pipe_arg : Ends → Arg → Ends
push_pipe_arg e (Arg.pipe (Pipe.rx s)) = push_read e s
push_pipe_arg e (Arg.pipe (Pipe.tx s)) = push_write e s
push_pipe_arg e _ = e

-- `if let Trigger::FileSocket(s) = &entry.trigger`
unfoldable pub push_socket_trigger : Ends → Trigger → Ends
push_socket_trigger e (Trigger.file_socket s) = push_read e s
push_socket_trigger e _ = e

-- `if let Arg::FileSocket(p) = arg`
unfoldable pub push_socket_arg : Ends → Arg → Ends
push_socket_arg e (Arg.file_socket (FileSocket.rx s)) = push_read e s
push_socket_arg e (Arg.file_socket (FileSocket.tx s)) = push_write e s
push_socket_arg e _ = e

-- The two loops, which `pipes` and `sockets` share but for what they push.
module _ (on_trigger : Ends → Trigger → Ends) (on_arg : Ends → Arg → Ends) where
  unfoldable pub push_args : Ends → List Arg → Ends
  push_args e [] = e
  push_args e (a ∷ args) = push_args (on_arg e a) args

  unfoldable pub push_entries : Ends → List (String × Entrypoint) → Ends
  unfolding push_args
  push_entries e [] = e
  push_entries e ((_, entry) ∷ rest) =
      push_entries (push_args (on_trigger e entry.trigger) entry.args) rest

-- `Specification::pipes`
unfoldable pub pipes : Specification → Ends
unfolding push_entries push_pipe_trigger push_pipe_arg
pipes spec = push_entries push_pipe_trigger push_pipe_arg no_ends spec.entrypoints

-- `Specification::sockets`
unfoldable pub sockets : Specification → Ends
unfolding push_entries push_socket_trigger push_socket_arg
sockets spec = push_entries push_socket_trigger push_socket_arg no_ends spec.entrypoints
