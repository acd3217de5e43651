-- ===== src/Rpc/Permits.antt =====
-- spawner/rpc.rs: which requests a list of specifications permits, and the two functions that
-- validate a request.
use void_orchestrator.Base.{
  ℕ, ◌≡◌, ◌↔◌, ◌⊎◌, inl, inr, refl, ap, ◌∙◌, Bool, true, false, Option, none, some, List, [], ◌∷◌,
  arith, Option-cases, nat_eq,
}
use void_orchestrator.Specification.{AddressFamily, RpcSpecification, Utf8}
use void_orchestrator.Text.{bytes_beq}
use void_orchestrator.RpcMessage.{SocketFamily, OpenSocket}
use void_orchestrator.Sys.{done, fail}
use void_orchestrator.Utf8.{from_bytes_with_nul, to_string_lossy}
use void_orchestrator.Rpc.{
  RpcTry, family_allowed, port_allowed, host_allowed, allowed, or_else_try,
  validate_open_tcp_socket, validate_open_udp_socket,
}
use void_orchestrator.Rpc.Strings.{
  IsCString, from_bytes_with_nul-IsCString, IsCString-from_bytes_with_nul, bytes_beq_iff,
}

-- The two families are the same.
abbrev pub IsFamily : AddressFamily → SocketFamily → Type 0
IsFamily AddressFamily.inet f = f ≡ SocketFamily.inet
IsFamily AddressFamily.inet6 f = f ≡ SocketFamily.inet6

-- "None for each value means that any value is allowed in the call. A specified value restricts to
-- exactly that."
pub record Fits (family : Option AddressFamily) (port : Option ℕ) (host : Option Utf8)
    (req : OpenSocket) : Type 0 where
  pub family_fits : (f : AddressFamily) → family ≡ some f → IsFamily f req.family
  pub port_fits : (p : ℕ) → port ≡ some p → req.port ≡ p
  pub host_fits :
      (t : Utf8) → host ≡ some t → (s : List ℕ) × IsCString req.host s × (to_string_lossy s ≡ t)

-- Some specification of the list permits the TCP request.
pub data PermitsTcp (req : OpenSocket) : List RpcSpecification → Type 0 where
  here :
      {family : Option AddressFamily} {port : Option ℕ} {host : Option Utf8}
      {rest : List RpcSpecification}
      → Fits family port host req
      → PermitsTcp req (RpcSpecification.open_tcp_socket family port host ∷ rest)
  later :
      {spec : RpcSpecification} {rest : List RpcSpecification}
      → PermitsTcp req rest
      → PermitsTcp req (spec ∷ rest)

-- Some specification of the list permits the UDP request.
pub data PermitsUdp (req : OpenSocket) : List RpcSpecification → Type 0 where
  here :
      {family : Option AddressFamily} {port : Option ℕ} {host : Option Utf8}
      {rest : List RpcSpecification}
      → Fits family port host req
      → PermitsUdp req (RpcSpecification.open_udp_socket family port host ∷ rest)
  later :
      {spec : RpcSpecification} {rest : List RpcSpecification}
      → PermitsUdp req rest
      → PermitsUdp req (spec ∷ rest)

family_allowed_iff :
    (family : Option AddressFamily) (f : SocketFamily)
    → (family_allowed family f ≡ true) ↔ ((g : AddressFamily) → family ≡ some g → IsFamily g f)
unfolding family_allowed
family_allowed_iff none f = (λ _ g e. cc, λ _. refl)
family_allowed_iff (some AddressFamily.inet) SocketFamily.inet =
    (λ _ g e. let same : AddressFamily.inet ≡ g = cc in rw (← same) refl, λ _. refl)
family_allowed_iff (some AddressFamily.inet6) SocketFamily.inet =
    (λ h. cc, λ h. cc (h AddressFamily.inet6 refl))
family_allowed_iff (some AddressFamily.inet) SocketFamily.inet6 =
    (λ h. cc, λ h. cc (h AddressFamily.inet refl))
family_allowed_iff (some AddressFamily.inet6) SocketFamily.inet6 =
    (λ _ g e. let same : AddressFamily.inet6 ≡ g = cc in rw (← same) refl, λ _. refl)
family_allowed_iff (some AddressFamily.inet) (SocketFamily.other n) =
    (λ h. cc, λ h. cc (h AddressFamily.inet refl))
family_allowed_iff (some AddressFamily.inet6) (SocketFamily.other n) =
    (λ h. cc, λ h. cc (h AddressFamily.inet6 refl))

port_allowed_iff :
    (port : Option ℕ) (p : ℕ) → (port_allowed port p ≡ true) ↔ ((q : ℕ) → port ≡ some q → p ≡ q)
unfolding port_allowed
port_allowed_iff none p = (λ _ q e. cc, λ _. refl)
port_allowed_iff (some q) p = (λ h r e. ground arith, λ h. ground (arith, h q refl))

-- The text of the host is one that the specification allows.
abbrev HostFits : Option Utf8 → List ℕ → Type 0
HostFits host bytes =
    (t : Utf8) → host ≡ some t → (s : List ℕ) × IsCString bytes s × (to_string_lossy s ≡ t)

host_allowed→HostFits :
    (host : Option Utf8) (bytes : List ℕ)
    → host_allowed host bytes ≡ done true
    → HostFits host bytes
unfolding host_allowed
host_allowed→HostFits none bytes e t p = cc
host_allowed→HostFits (some u) bytes e t p = elim (Option-cases (from_bytes_with_nul bytes)) [
  | inl bad ↦ absurd (cc (rw (host_allowed, bad) at e))
  | inr (s, good) ↦
      let matches : bytes_beq (to_string_lossy s) u ≡ true = cc (rw (host_allowed, good) at e) in
      let same : u ≡ t = cc in
      (s, from_bytes_with_nul-IsCString bytes s good, (bytes_beq_iff _ _).0 matches ∙ same)
]

HostFits→host_allowed :
    (host : Option Utf8) (bytes : List ℕ)
    → HostFits host bytes
    → host_allowed host bytes ≡ done true
unfolding host_allowed
HostFits→host_allowed none bytes h = refl
HostFits→host_allowed (some u) bytes h =
    let (s, (whole, clean), same) = h u refl in
    rw (whole, host_allowed, IsCString-from_bytes_with_nul s clean)
      (ap done ((bytes_beq_iff _ _).1 same))

host_allowed-done :
    (host : Option Utf8) (bytes s : List ℕ)
    → from_bytes_with_nul bytes ≡ some s
    → (b : Bool) × (host_allowed host bytes ≡ done b)
unfolding host_allowed
host_allowed-done none bytes s e = (true, refl)
host_allowed-done (some u) bytes s e = rw (host_allowed, e) (bytes_beq (to_string_lossy s) u, refl)

module _ (family : Option AddressFamily) (port : Option ℕ) (host : Option Utf8)
    (req : OpenSocket) where
  allowed→Fits : allowed family port host req ≡ done true → Fits family port host req
  unfolding allowed
  allowed→Fits e =
      let (f, p, h) : (family_allowed family req.family ≡ true)
          × (port_allowed port req.port ≡ true)
          × (host_allowed host req.host ≡ done true) =
        ground arith in
      record {
        family_fits = (family_allowed_iff family req.family).0 f;
        port_fits = (port_allowed_iff port req.port).0 p;
        host_fits = host_allowed→HostFits host req.host h;
      }

  Fits→allowed : Fits family port host req → allowed family port host req ≡ done true
  unfolding allowed
  Fits→allowed fits = ground (
    arith,
    (family_allowed_iff family req.family).1 fits.family_fits,
    (port_allowed_iff port req.port).1 fits.port_fits,
    HostFits→host_allowed host req.host fits.host_fits,
  )

  allowed-done :
      (s : List ℕ)
      → from_bytes_with_nul req.host ≡ some s
      → (b : Bool) × (allowed family port host req ≡ done b)
  unfolding allowed
  allowed-done s e = let (b, p) = host_allowed-done host req.host s e in rw (allowed, p) (_, refl)

-- How a step of the loop ended if the loop ended with `Ok(true)`.
or_else_try-eq_true :
    (a rest : RpcTry Bool) → or_else_try a rest ≡ done true → (a ≡ done true) ⊎ (rest ≡ done true)
unfolding or_else_try
or_else_try-eq_true (fail e) rest p = cc
or_else_try-eq_true (done true) rest p = inl refl
or_else_try-eq_true (done false) rest p = inr p

or_else_try_left : (a rest : RpcTry Bool) → a ≡ done true → or_else_try a rest ≡ done true
unfolding or_else_try
or_else_try_left a rest e = rw e

or_else_try_right :
    (a rest : RpcTry Bool) (b : Bool)
    → a ≡ done b
    → rest ≡ done true
    → or_else_try a rest ≡ done true
unfolding or_else_try
or_else_try_right a rest true e p = rw e
or_else_try_right a rest false e p = rw e p

module _ (req : OpenSocket) where
  -- `validate_open_tcp_socket` answers `Ok(true)` only to a request that some specification of a
  -- TCP socket permits.
  pub validate_open_tcp_socket→PermitsTcp :
      (specs : List RpcSpecification)
      → validate_open_tcp_socket specs req ≡ done true
      → PermitsTcp req specs
  unfolding validate_open_tcp_socket
  validate_open_tcp_socket→PermitsTcp [] e = cc
  validate_open_tcp_socket→PermitsTcp (RpcSpecification.open_tcp_socket f p h ∷ rest) e =
      elim (or_else_try-eq_true _ _ e) [
        | inl this ↦ PermitsTcp.here (allowed→Fits f p h req this)
        | inr others ↦ PermitsTcp.later (validate_open_tcp_socket→PermitsTcp rest others)
      ]
  validate_open_tcp_socket→PermitsTcp (RpcSpecification.open_udp_socket f p h ∷ rest) e =
      PermitsTcp.later (validate_open_tcp_socket→PermitsTcp rest e)

  -- The same of a UDP socket.
  pub validate_open_udp_socket→PermitsUdp :
      (specs : List RpcSpecification)
      → validate_open_udp_socket specs req ≡ done true
      → PermitsUdp req specs
  unfolding validate_open_udp_socket
  validate_open_udp_socket→PermitsUdp [] e = cc
  validate_open_udp_socket→PermitsUdp (RpcSpecification.open_udp_socket f p h ∷ rest) e =
      elim (or_else_try-eq_true _ _ e) [
        | inl this ↦ PermitsUdp.here (allowed→Fits f p h req this)
        | inr others ↦ PermitsUdp.later (validate_open_udp_socket→PermitsUdp rest others)
      ]
  validate_open_udp_socket→PermitsUdp (RpcSpecification.open_tcp_socket f p h ∷ rest) e =
      PermitsUdp.later (validate_open_udp_socket→PermitsUdp rest e)

module _ (req : OpenSocket) (s : List ℕ) (text : IsCString req.host s) where
  read_host : from_bytes_with_nul req.host ≡ some s
  read_host = rw text.0 (IsCString-from_bytes_with_nul s text.1)

  PermitsTcp→validate :
      {specs : List RpcSpecification}
      → PermitsTcp req specs
      → validate_open_tcp_socket specs req ≡ done true
  unfolding validate_open_tcp_socket
  PermitsTcp→validate (PermitsTcp.here {family} {port} {host} fits) =
      or_else_try_left _ _ (Fits→allowed family port host req fits)
  PermitsTcp→validate (PermitsTcp.later {spec = RpcSpecification.open_tcp_socket f p h} rest) =
      let (b, e) = allowed-done f p h req s read_host in
      or_else_try_right _ _ b e (PermitsTcp→validate rest)
  PermitsTcp→validate (PermitsTcp.later {spec = RpcSpecification.open_udp_socket f p h} rest) =
      PermitsTcp→validate rest

  PermitsUdp→validate :
      {specs : List RpcSpecification}
      → PermitsUdp req specs
      → validate_open_udp_socket specs req ≡ done true
  unfolding validate_open_udp_socket
  PermitsUdp→validate (PermitsUdp.here {family} {port} {host} fits) =
      or_else_try_left _ _ (Fits→allowed family port host req fits)
  PermitsUdp→validate (PermitsUdp.later {spec = RpcSpecification.open_udp_socket f p h} rest) =
      let (b, e) = allowed-done f p h req s read_host in
      or_else_try_right _ _ b e (PermitsUdp→validate rest)
  PermitsUdp→validate (PermitsUdp.later {spec = RpcSpecification.open_tcp_socket f p h} rest) =
      PermitsUdp→validate rest

  -- For a request whose host is a C string, `validate_open_tcp_socket` answers `Ok(true)` exactly
  -- if some specification of a TCP socket permits the request, in its family, its port and its
  -- host; and `validate_open_udp_socket` does so for those of a UDP socket.
  pub validate-Permits :
      (specs : List RpcSpecification)
      → ((validate_open_tcp_socket specs req ≡ done true) ↔ PermitsTcp req specs)
        × ((validate_open_udp_socket specs req ≡ done true) ↔ PermitsUdp req specs)
  validate-Permits specs = (
    (validate_open_tcp_socket→PermitsTcp req specs, PermitsTcp→validate),
    (validate_open_udp_socket→PermitsUdp req specs, PermitsUdp→validate),
  )
