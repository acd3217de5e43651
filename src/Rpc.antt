-- ===== src/Rpc.antt =====
-- spawner/rpc.rs: the process that opens sockets for a void, where it is permitted to.
pub mod Strings
pub mod Permits
pub mod Safety
pub mod Loop
pub mod Requests
use Prim.Native.Nat.{min}
use void_orchestrator.Base.{
  ℕ, ◌+◌, ◌*◌, ◌<◌, Bool, true, false, ◌&&◌, Option, none, some, List, [], ◌∷◌, ◌++◌, ltb, ◌==◌,
  nat_eq, length, replicate, take, drop, if◌then◌else◌, ⊤,
}
use void_orchestrator.Text.{codes, bytes_beq}
use void_orchestrator.Utf8.{from_bytes_with_nul, from_utf8, to_string_lossy}
use void_orchestrator.Specification.{AddressFamily, RpcSpecification, Utf8}
use void_orchestrator.RpcMessage.{
  Fd, RpcKind, SocketFamily, OpenSocket, RpcError, RpcResult, RpcResultSend,
}
use void_orchestrator.Sys.{Answer, done, fail, Nix, Io, IoError, Call, Os}
use void_orchestrator.Program.{M, Outcome, err, pure, give, or_nix, call, ◌>>=◌, ◌>>◌}
use void_orchestrator.Failure.{nix}

-- `Result<A, RpcError>`
abbrev pub RpcTry : Type 0 → Type 0
RpcTry = Answer RpcError

-- `match family { … }` in the two functions that validate a request.
unfoldable pub family_allowed : Option AddressFamily → SocketFamily → Bool
family_allowed none _ = true
family_allowed (some AddressFamily.inet) SocketFamily.inet = true
family_allowed (some AddressFamily.inet6) SocketFamily.inet = false
family_allowed (some AddressFamily.inet) SocketFamily.inet6 = false
family_allowed (some AddressFamily.inet6) SocketFamily.inet6 = true
family_allowed (some _) (SocketFamily.other _) = false

-- `match port { … }`
unfoldable pub port_allowed : Option ℕ → ℕ → Bool
port_allowed none _ = true
port_allowed (some p) port = port == p

-- `match host { … }`
unfoldable pub host_allowed : Option Utf8 → List ℕ → RpcTry Bool
host_allowed none _ = done true
host_allowed (some h) host = elim (from_bytes_with_nul host) [
  | none ↦ fail RpcError.badly_formed_request
  | some s ↦ done (bytes_beq (to_string_lossy s) h)
]

-- The body of the loop, which the two functions share: whether the specification allows the
-- request.
unfoldable pub allowed : Option AddressFamily → Option ℕ → Option Utf8 → OpenSocket → RpcTry Bool
unfolding family_allowed port_allowed host_allowed
allowed family port host req = elim (host_allowed host req.host) [
  | fail e ↦ fail e
  | done host_matches ↦
      done (family_allowed family req.family && port_allowed port req.port && host_matches)
]

-- `if allowed { return Ok(true); }`, or the rest of the loop.
unfoldable pub or_else_try : RpcTry Bool → RpcTry Bool → RpcTry Bool
or_else_try (fail e) rest = fail e
or_else_try (done true) rest = done true
or_else_try (done false) rest = rest

unfoldable pub validate_open_tcp_socket : List RpcSpecification → OpenSocket → RpcTry Bool
unfolding allowed or_else_try
validate_open_tcp_socket [] req = done false
validate_open_tcp_socket (RpcSpecification.open_tcp_socket family port host ∷ rest) req =
    or_else_try (allowed family port host req) (validate_open_tcp_socket rest req)
validate_open_tcp_socket (RpcSpecification.open_udp_socket _ _ _ ∷ rest) req =
    validate_open_tcp_socket rest req

unfoldable pub validate_open_udp_socket : List RpcSpecification → OpenSocket → RpcTry Bool
unfolding allowed or_else_try
validate_open_udp_socket [] req = done false
validate_open_udp_socket (RpcSpecification.open_udp_socket family port host ∷ rest) req =
    or_else_try (allowed family port host req) (validate_open_udp_socket rest req)
validate_open_udp_socket (RpcSpecification.open_tcp_socket _ _ _ ∷ rest) req =
    validate_open_udp_socket rest req

-- The host of a request, as the text that is handed to `connect`.
unfoldable pub host_text : OpenSocket → RpcTry Utf8
host_text req = elim (from_bytes_with_nul req.host) [
  | none ↦ fail RpcError.badly_formed_request
  | some s ↦ elim (from_utf8 s) [ none ↦ fail RpcError.badly_formed_request | some t ↦ done t ]
]

-- `RpcError::Io { errno: e.raw_os_error().unwrap() }`
unfoldable pub io_error : {A : Type 0} → IoError → M (RpcTry A)
io_error e = elim e.raw_os_error [
  | none ↦ give Outcome.panic
  | some errno ↦ pure (fail (RpcError.io errno))
]

-- What follows `TcpStream::connect`.
unfoldable pub finish_tcp : Io Fd → M (RpcTry RpcResult)
unfolding io_error
finish_tcp (fail e) = io_error e
finish_tcp (done socket) = pure (done (RpcResult.open_tcp_socket socket))

-- What follows `socket.connect`.
unfoldable pub finish_udp : Fd → Io ⊤ → M (RpcTry RpcResult)
unfolding io_error
finish_udp socket (fail e) = io_error e
finish_udp socket (done _) = pure (done (RpcResult.open_udp_socket socket))

-- The address of `UdpSocket::bind`.
abbrev pub any_address : Utf8
any_address = codes "0.0.0.0:0"

-- `match inner(…) { Ok(o) => o, Err(e) => RpcResult::Error { error: e } }`
abbrev pub to_result : RpcTry RpcResult → RpcResult
to_result (fail e) = RpcResult.error e
to_result (done r) = r

-- `RpcKind::num_fds`
unfoldable pub num_fds : RpcKind → ℕ
num_fds RpcKind.open_tcp_socket = 0
num_fds RpcKind.open_udp_socket = 0

-- `RpcResultSend::new`
unfoldable pub new_send : RpcResult → RpcResultSend × List Fd
new_send (RpcResult.open_tcp_socket socket) = (RpcResultSend.open_tcp_socket, socket ∷ [])
new_send (RpcResult.open_udp_socket socket) = (RpcResultSend.open_udp_socket, socket ∷ [])
new_send (RpcResult.error e) = (RpcResultSend.error e, [])

-- `MAX_MSG_LENGTH`
abbrev pub max_msg_length : ℕ
max_msg_length = 4096

-- The buffer after recv(2) of a datagram: what does not fit is cut off, and what the datagram does
-- not reach stays.
unfoldable pub receive : List ℕ → List ℕ → List ℕ
receive buf msg = take (length buf) msg ++ drop (length msg) buf

-- `*(buf.as_ptr() as *const RpcKind)` on a little-endian machine. Where the number is that of no
-- `RpcKind`, Rust leaves the behaviour undefined.
unfoldable pub kind_of : List ℕ → Option RpcKind
kind_of (b0 ∷ b1 ∷ b2 ∷ b3 ∷ _) =
    let kind = b0 + 256 * (b1 + 256 * (b2 + 256 * b3)) in
    if kind == 0
    then some RpcKind.open_tcp_socket
    else if kind == 1
    then some RpcKind.open_udp_socket
    else none
kind_of _ = none

-- `if !validate(…)? { Ok(RpcResult::Error { … }) } else { handle(…) }`
unfoldable pub if_permitted : RpcTry Bool → M (RpcTry RpcResult) → M (RpcTry RpcResult)
if_permitted (fail e) handler = pure (fail e)
if_permitted (done false) handler = pure (done (RpcResult.error RpcError.operation_not_permitted))
if_permitted (done true) handler = handler

module _ (os : Os) where
  -- `if !fds.is_empty() { sendmsg(…) }`
  unfoldable pub send_fds : Fd → List Fd → M ⊤
  send_fds socket [] = pure tt
  send_fds socket (fd ∷ fds) = do or_nix "sendmsg" (← call os (Call.send_rights socket (fd ∷ fds)))

  -- `sendmsg` if there is a descriptor to send, then `send`.
  unfoldable pub reply : Fd → RpcResult → M ⊤
  unfolding new_send send_fds
  reply socket resp = do
    let (msg, fds) = new_send resp
    send_fds socket fds
    or_nix "send" (← call os (Call.send socket msg))

  unfoldable pub connect_tcp : RpcTry Utf8 → M (RpcTry RpcResult)
  unfolding finish_tcp
  connect_tcp (fail e) = pure (fail e)
  connect_tcp (done host) = do r ← call os (Call.connect_tcp host); finish_tcp r

  unfoldable pub handle_open_tcp_socket : OpenSocket → M (RpcTry RpcResult)
  unfolding host_text connect_tcp
  handle_open_tcp_socket req = connect_tcp (host_text req)

  -- What follows `UdpSocket::bind`.
  unfoldable pub connect_bound_udp : Utf8 → Io Fd → M (RpcTry RpcResult)
  unfolding io_error finish_udp
  connect_bound_udp host (fail e) = io_error e
  connect_bound_udp host (done socket) = do
    r ← call os (Call.connect_udp socket host)
    finish_udp socket r

  unfoldable pub connect_udp : RpcTry Utf8 → M (RpcTry RpcResult)
  unfolding connect_bound_udp
  connect_udp (fail e) = pure (fail e)
  connect_udp (done host) = do r ← call os (Call.bind_udp any_address); connect_bound_udp host r

  unfoldable pub handle_open_udp_socket : OpenSocket → M (RpcTry RpcResult)
  unfolding host_text connect_udp
  handle_open_udp_socket req = connect_udp (host_text req)

  -- How the compiler lays an `OpenSocket` over bytes is not in the source: `view` reads it.
  module _ (view : List ℕ → OpenSocket) (permitted : List RpcSpecification) where
    -- `inner` of `handle_rpc`
    unfoldable pub inner : RpcKind → List ℕ → M (RpcTry RpcResult)
    unfolding if_permitted validate_open_tcp_socket validate_open_udp_socket handle_open_tcp_socket
        handle_open_udp_socket
    inner RpcKind.open_tcp_socket bytes =
        if_permitted (validate_open_tcp_socket permitted (view bytes))
          (handle_open_tcp_socket (view bytes))
    inner RpcKind.open_udp_socket bytes =
        if_permitted (validate_open_udp_socket permitted (view bytes))
          (handle_open_udp_socket (view bytes))

    unfoldable pub handle_rpc : RpcKind → List ℕ → M RpcResult
    unfolding inner
    handle_rpc kind bytes = do r ← inner kind bytes; pure (to_result r)

    -- The handling of a request whose kind is known, with `buf[4..]`.
    unfoldable pub serve_kind : Fd → Option RpcKind → List ℕ → M ⊤
    unfolding num_fds handle_rpc reply
    serve_kind socket none bytes = give Outcome.undefined
    serve_kind socket (some kind) bytes =
        if ltb 0 (num_fds kind)
        then give Outcome.panic
        else do resp ← handle_rpc kind bytes; reply socket resp

    -- The body of the loop of `handle`, from the buffer and the length of what was received.
    unfoldable pub handle_message : Fd → List ℕ → ℕ → M ⊤
    unfolding serve_kind kind_of
    handle_message socket buf read_bytes =
        if ltb read_bytes 4 then pure tt else serve_kind socket (kind_of buf) (drop 4 buf)

    -- The loop of `handle`, from the buffer and the results of the calls of recv(2) to come. Where
    -- they end, the process waits for a message.
    unfoldable pub handle_loop : Fd → List ℕ → List (Nix (List ℕ)) → M ⊤
    unfolding handle_message receive
    handle_loop socket buf [] = give Outcome.blocked
    handle_loop socket buf (fail e ∷ _) = give (err (nix "recvmsg" e))
    handle_loop socket buf (done msg ∷ rest) = do
      let buf' = receive buf msg
      handle_message socket buf' (min (length msg) (length buf))
      handle_loop socket buf' rest

    -- `RpcHandler::handle`
    unfoldable pub handle : Fd → List (Nix (List ℕ)) → M ⊤
    unfolding handle_loop
    handle socket = handle_loop socket (replicate max_msg_length 0)
