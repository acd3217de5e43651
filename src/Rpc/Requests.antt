-- ===== src/Rpc/Requests.antt =====
-- spawner/rpc.rs: what single requests come to.
use void_orchestrator.Base.{
  ℕ, ◌≡◌, refl, ap, Bool, true, false, Option, none, some, List, [], ◌∷◌, ◌++◌, arith,
}
use void_orchestrator.Specification.{RpcSpecification, Utf8}
use void_orchestrator.RpcMessage.{Fd, RpcKind, SocketFamily, OpenSocket, RpcError, RpcResult}
use void_orchestrator.Sys.{Io, IoError, done, fail, Call, Os, History}
use void_orchestrator.Program.{M, ok, pure, ◌>>=◌}
use void_orchestrator.Utf8.{from_utf8}
use void_orchestrator.Rpc.{
  RpcTry, finish_tcp, io_error, validate_open_tcp_socket, host_text, to_result,
  handle_open_tcp_socket, handle_open_udp_socket, connect_tcp, connect_udp, if_permitted,
  handle_rpc,
}
use void_orchestrator.Rpc.Strings.{
  HasNoNul, from_bytes_with_nul-early, IsCString-from_bytes_with_nul,
}

-- What follows the connection makes no call.
io_error_history :
    (e : IoError) (errno : Option ℕ)
    → e.raw_os_error ≡ errno
    → (h : History) → ((io_error e >>= λ t. pure (to_result t)) h).1 ≡ h
unfolding io_error ◌>>=◌
io_error_history e none p h = rw (p) refl
io_error_history e (some n) p h = rw (p) refl

finish_tcp_history :
    (r : Io Fd) (h : History) → ((finish_tcp r >>= λ t. pure (to_result t)) h).1 ≡ h
unfolding finish_tcp ◌>>=◌
finish_tcp_history (fail e) h = io_error_history e e.raw_os_error refl h
finish_tcp_history (done socket) h = refl

any_host_permitted :
    (port : ℕ) (req : OpenSocket)
    → req.port ≡ port
    → validate_open_tcp_socket (RpcSpecification.open_tcp_socket none (some port) none ∷ []) req
      ≡ done true
unfolding validate_open_tcp_socket
any_host_permitted port req e = ground arith

host_text-done :
    (req : OpenSocket) (host : Utf8)
    → req.host ≡ host ++ (0 ∷ [])
    → HasNoNul host
    → from_utf8 host ≡ some host
    → host_text req ≡ done host
unfolding host_text
host_text-done req host e clean valid =
    rw (host_text, e, IsCString-from_bytes_with_nul host clean, valid) refl

host_text-early :
    (req : OpenSocket) (s rest : List ℕ) (b : ℕ)
    → req.host ≡ s ++ (0 ∷ b ∷ rest)
    → host_text req ≡ fail RpcError.badly_formed_request
unfolding host_text
host_text-early req s rest b e = rw (host_text, e, from_bytes_with_nul-early s b rest) refl

-- Where the host is no text, the handler answers with an error at once, if it is called.
if_permitted_refuses :
    (r : RpcTry Bool) (handler : M (RpcTry RpcResult)) (h : History)
    → handler ≡ pure (fail RpcError.badly_formed_request)
    → (e : RpcError) × ((if_permitted r handler >>= λ t. pure (to_result t)) h
        ≡ (ok (RpcResult.error e), h))
unfolding if_permitted ◌>>=◌
if_permitted_refuses (fail e) handler h p = (e, refl)
if_permitted_refuses (done false) handler h p = (RpcError.operation_not_permitted, refl)
if_permitted_refuses (done true) handler h p = (RpcError.badly_formed_request, rw p refl)

module _ (os : Os) (view : List ℕ → OpenSocket) where
  -- A request for a TCP socket with the one port that is permitted connects to whatever its host
  -- says, and that is the only call: `host` is any UTF-8 text without a zero, such as
  -- "example.com:22", and the port that was checked is not used.
  pub port_not_enforced :
      (family : SocketFamily) (port : ℕ) (host : Utf8) (bytes : List ℕ) (h : History)
      → HasNoNul host
      → from_utf8 host ≡ some host
      → view bytes ≡ record { family = family; port = port; host = host ++ (0 ∷ []) }
      → (handle_rpc os view
          (RpcSpecification.open_tcp_socket none (some port) none ∷ [])
          RpcKind.open_tcp_socket
          bytes
          h).1
        ≡ Call.connect_tcp host ∷ h
  unfolding handle_rpc handle_open_tcp_socket ◌>>=◌
  port_not_enforced family port host bytes h clean valid e =
      let req : OpenSocket = record { family = family; port = port; host = host ++ (0 ∷ []) } in
      rw (e, any_host_permitted port req refl, host_text-done req host refl clean valid)
        (finish_tcp_history (os h (Call.connect_tcp host)) (Call.connect_tcp host ∷ h))

  -- A request whose host has a zero before its last byte is answered with an error, with no call,
  -- whatever is permitted.
  pub early_nul_refused :
      (specs : List RpcSpecification) (kind : RpcKind) (bytes s rest : List ℕ) (b : ℕ) (h : History)
      → (view bytes).host ≡ s ++ (0 ∷ b ∷ rest)
      → (e : RpcError) × (handle_rpc os view specs kind bytes h ≡ (ok (RpcResult.error e), h))
  unfolding handle_rpc handle_open_tcp_socket handle_open_udp_socket
  early_nul_refused specs RpcKind.open_tcp_socket bytes s rest b h early =
      if_permitted_refuses _ _ h (ap (connect_tcp os) (host_text-early (view bytes) s rest b early))
  early_nul_refused specs RpcKind.open_udp_socket bytes s rest b h early =
      if_permitted_refuses _ _ h (ap (connect_udp os) (host_text-early (view bytes) s rest b early))
