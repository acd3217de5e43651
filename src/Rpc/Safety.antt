-- ===== src/Rpc/Safety.antt =====
-- spawner/rpc.rs: the calls that the handling of requests makes.
use void_orchestrator.Base.{
  ℕ, ◌≡◌, inl, inr, refl, Bool, true, false, Option, none, some, List, Option-cases, ⊤,
}
use void_orchestrator.Specification.{RpcSpecification, Utf8}
use void_orchestrator.RpcMessage.{Fd, RpcKind, OpenSocket, RpcResult}
use void_orchestrator.Sys.{done, fail, Io, Call, Os}
use void_orchestrator.Program.{M}
use void_orchestrator.Program.Runs.{Makes, Makes-pure, Makes-bind, Makes-call, makes_rules}
use void_orchestrator.Utf8.{from_bytes_with_nul, from_utf8}
use void_orchestrator.Rpc.{
  RpcTry, host_text, io_error, finish_tcp, finish_udp, any_address, connect_tcp,
  handle_open_tcp_socket, connect_bound_udp, connect_udp, handle_open_udp_socket, if_permitted,
  inner, handle_rpc,
}
use void_orchestrator.Rpc.Strings.{
  IsCString, from_bytes_with_nul-IsCString, to_string_lossy-from_utf8,
}
use void_orchestrator.Rpc.Permits.{
  PermitsTcp, PermitsUdp, validate_open_tcp_socket→PermitsTcp, validate_open_udp_socket→PermitsUdp,
}

-- What the handling of a request may call: it connects to the host of the request, over TCP or UDP
-- as some specification permits.
abbrev pub IsPermittedCall : List RpcSpecification → OpenSocket → Call → Type 0
IsPermittedCall specs req (Call.connect_tcp host) = PermitsTcp req specs × IsCString req.host host
IsPermittedCall specs req (Call.bind_udp address) = PermitsUdp req specs × (address ≡ any_address)
IsPermittedCall specs req (Call.connect_udp _ host) = PermitsUdp req specs × IsCString req.host host
IsPermittedCall specs req _ = ⊥

host_text-IsCString : (req : OpenSocket) (t : Utf8) → host_text req ≡ done t → IsCString req.host t
unfolding host_text
host_text-IsCString req t e = elim (Option-cases (from_bytes_with_nul req.host)) [
  | inl bad ↦ absurd (cc (rw (host_text, bad) at e))
  | inr (s, good) ↦ elim (Option-cases (from_utf8 s)) [
    | inl bad ↦ absurd (cc (rw (host_text, good, bad) at e))
    | inr (u, valid) ↦
        let same : u ≡ t = cc (rw (host_text, good, valid) at e) in
        let (as_it_is, _) = to_string_lossy-from_utf8 s u valid in
        let whole : t ≡ s = cc in rw whole (from_bytes_with_nul-IsCString req.host s good)
  ]
]

module _ {P : Call → Type 0} where
  io_error-Makes :
      {A : Type 0} (e : Option ℕ) → Makes P (io_error {A = A} (record { raw_os_error = e }))
  unfolding io_error
  io_error-Makes none = search makes_rules
  io_error-Makes (some errno) = search makes_rules

  finish_tcp-Makes : (r : Io Fd) → Makes P (finish_tcp r)
  unfolding finish_tcp
  finish_tcp-Makes (fail e) = io_error-Makes e.raw_os_error
  finish_tcp-Makes (done socket) = search makes_rules

  finish_udp-Makes : (socket : Fd) (r : Io ⊤) → Makes P (finish_udp socket r)
  unfolding finish_udp
  finish_udp-Makes socket (fail e) = io_error-Makes e.raw_os_error
  finish_udp-Makes socket (done _) = search makes_rules

  if_permitted-Makes :
      (r : RpcTry Bool) (handler : M (RpcTry RpcResult))
      → (r ≡ done true → Makes P handler)
      → Makes P (if_permitted r handler)
  unfolding if_permitted
  if_permitted-Makes (fail e) handler k = search makes_rules
  if_permitted-Makes (done false) handler k = search makes_rules
  if_permitted-Makes (done true) handler k = k refl

  connect_tcp-Makes :
      (os : Os) (r : RpcTry Utf8)
      → ((t : Utf8) → r ≡ done t → P (Call.connect_tcp t))
      → Makes P (connect_tcp os r)
  unfolding connect_tcp
  connect_tcp-Makes os (fail e) k = search makes_rules
  connect_tcp-Makes os (done t) k =
      Makes-bind _ _ (Makes-call os (Call.connect_tcp t) (k t refl)) finish_tcp-Makes

  connect_bound_udp-Makes :
      (os : Os) (t : Utf8) (r : Io Fd)
      → ((socket : Fd) → P (Call.connect_udp socket t))
      → Makes P (connect_bound_udp os t r)
  unfolding connect_bound_udp
  connect_bound_udp-Makes os t (fail e) k = io_error-Makes e.raw_os_error
  connect_bound_udp-Makes os t (done socket) k =
      Makes-bind _ _ (Makes-call os (Call.connect_udp socket t) (k socket))
        (finish_udp-Makes socket)

  connect_udp-Makes :
      (os : Os) (r : RpcTry Utf8)
      → P (Call.bind_udp any_address)
      → ((t : Utf8) (socket : Fd) → r ≡ done t → P (Call.connect_udp socket t))
      → Makes P (connect_udp os r)
  unfolding connect_udp
  connect_udp-Makes os (fail e) b k = search makes_rules
  connect_udp-Makes os (done t) b k =
      Makes-bind _ _ (Makes-call os (Call.bind_udp any_address) b)
        (λ r. connect_bound_udp-Makes os t r (λ socket. k t socket refl))

module _ (os : Os) (view : List ℕ → OpenSocket) (specs : List RpcSpecification) where
  inner-Makes :
      (kind : RpcKind) (bytes : List ℕ)
      → Makes (IsPermittedCall specs (view bytes)) (inner os view specs kind bytes)
  unfolding inner handle_open_tcp_socket handle_open_udp_socket
  inner-Makes RpcKind.open_tcp_socket bytes =
      let req = view bytes in
      if_permitted-Makes _ _ λ allowed.
        let permits = validate_open_tcp_socket→PermitsTcp req specs allowed in
        connect_tcp-Makes os (host_text req) (λ t e. (permits, host_text-IsCString req t e))
  inner-Makes RpcKind.open_udp_socket bytes =
      let req = view bytes in
      if_permitted-Makes _ _ λ allowed.
        let permits = validate_open_udp_socket→PermitsUdp req specs allowed in
        connect_udp-Makes os (host_text req) (permits, refl)
          (λ t socket e. (permits, host_text-IsCString req t e))

  -- Whatever the operating system answers, `handle_rpc` makes no call but the connection to the host
  -- of its request and, for UDP, the binding of the socket to 0.0.0.0:0, and these only if some
  -- specification for the kind of socket permits the request.
  pub handle_rpc-IsPermittedCall :
      (kind : RpcKind) (bytes : List ℕ)
      → Makes (IsPermittedCall specs (view bytes)) (handle_rpc os view specs kind bytes)
  unfolding handle_rpc
  handle_rpc-IsPermittedCall kind bytes = Makes-bind _ _ (inner-Makes kind bytes) λ r. Makes-pure _
