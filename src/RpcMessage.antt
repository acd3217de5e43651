-- ===== src/RpcMessage.antt =====
-- spawner/rpc.rs: the data that an RPC carries. A socket is known by its file descriptor.
use void_orchestrator.Base.{ℕ, List}

abbrev pub Fd : Type 0
Fd = ℕ

-- `RpcKind`
pub data RpcKind : Type 0 where
  open_tcp_socket open_udp_socket : RpcKind

-- `nix::sys::socket::AddressFamily`
pub data SocketFamily : Type 0 where
  inet inet6 : SocketFamily
  other : ℕ → SocketFamily

-- `OpenSocket`
pub record OpenSocket : Type 0 where
  pub family : SocketFamily
  pub port : ℕ
  pub host : List ℕ

-- `RpcError`
pub data RpcError : Type 0 where
  badly_formed_request : RpcError
  operation_not_permitted : RpcError
  io : ℕ → RpcError

-- `RpcResult`
pub data RpcResult : Type 0 where
  open_tcp_socket : Fd → RpcResult
  open_udp_socket : Fd → RpcResult
  error : RpcError → RpcResult

-- `RpcResultSend`
pub data RpcResultSend : Type 0 where
  open_tcp_socket : RpcResultSend
  open_udp_socket : RpcResultSend
  error : RpcError → RpcResultSend
