-- ===== src/Tests/Requests.antt =====
-- The theorems on RPCs at concrete inputs.
use void_orchestrator.Base.{
  ℕ, ◌≤◌, ◌≡◌, ◌↔◌, refl, true, some, none, List, [], ◌∷◌, ◌++◌, arith, nat_eq,
}
use void_orchestrator.Utf8.{from_utf8}
use void_orchestrator.Specification.{RpcSpecification}
use void_orchestrator.RpcMessage.{RpcKind, SocketFamily, OpenSocket, RpcResultSend}
use void_orchestrator.Sys.{Call, History, done}
use void_orchestrator.Program.Runs.{Makes}
use void_orchestrator.Rpc.{
  validate_open_tcp_socket, validate_open_udp_socket, handle_rpc, handle_message, handle, receive,
}
use void_orchestrator.Rpc.Strings.{HasNoNul}
use void_orchestrator.Rpc.Permits.{PermitsTcp, PermitsUdp, validate-Permits}
use void_orchestrator.Rpc.Loop.{IsHandlerCall, handle-IsHandlerCall, header_replays}
use void_orchestrator.Rpc.Requests.{port_not_enforced}
use void_orchestrator.Tests.{system}

-- A layout in which the bytes are the host.
abbrev pub host_only : List ℕ → OpenSocket
host_only bytes = record { family = SocketFamily.inet; port = 443; host = bytes }

-- "a:22": a host with a port that is not the one of the request.
abbrev shell_host : List ℕ
shell_host = 97 ∷ 58 ∷ 50 ∷ 50 ∷ []

abbrev pub https_only : List RpcSpecification
https_only = RpcSpecification.open_tcp_socket none (some 443) none ∷ []

abbrev shell_bytes : List ℕ
shell_bytes = shell_host ++ (0 ∷ [])

shell_host-HasNoNul : HasNoNul shell_host
shell_host-HasNoNul = ground arith

shell_host_valid : from_utf8 shell_host ≡ some shell_host
unfolding from_utf8
shell_host_valid = refl

validate-Permits_example :
    ((validate_open_tcp_socket https_only (host_only shell_bytes) ≡ done true)
      ↔ PermitsTcp (host_only shell_bytes) https_only)
    × ((validate_open_udp_socket https_only (host_only shell_bytes) ≡ done true)
        ↔ PermitsUdp (host_only shell_bytes) https_only)
validate-Permits_example =
    validate-Permits (host_only shell_bytes) shell_host (refl, shell_host-HasNoNul) https_only

-- A request for a TCP socket.
abbrev message : List ℕ
message = 0 ∷ 0 ∷ 0 ∷ 0 ∷ shell_bytes

handle-IsHandlerCall_example :
    Makes
      (IsHandlerCall host_only https_only 4)
      (handle (system 0) host_only https_only 4 (done message ∷ []))
handle-IsHandlerCall_example =
    handle-IsHandlerCall (system 0) host_only https_only 4 (done message ∷ [])

-- The calls that answer the request.
abbrev answered : History
answered =
    Call.send 4 RpcResultSend.open_tcp_socket
    ∷ Call.send_rights 4 (9 ∷ [])
    ∷ Call.connect_tcp shell_host
    ∷ []

long_message : 4 ≤ 9
long_message = omega arith

header_replays_example :
    handle_message
      (system 0)
      host_only
      https_only
      4
      (receive (receive (0 ∷ 0 ∷ 0 ∷ 0 ∷ 0 ∷ 0 ∷ 0 ∷ 0 ∷ 0 ∷ []) message) (0 ∷ 0 ∷ 0 ∷ 0 ∷ []))
      4
    ≡ handle_message
        (system 0)
        host_only
        https_only
        4
        (receive (0 ∷ 0 ∷ 0 ∷ 0 ∷ 0 ∷ 0 ∷ 0 ∷ 0 ∷ 0 ∷ []) message)
        9
header_replays_example =
    header_replays (system 0) host_only https_only 4 (0 ∷ 0 ∷ 0 ∷ 0 ∷ 0 ∷ 0 ∷ 0 ∷ 0 ∷ 0 ∷ [])
      message 9 long_message

port_not_enforced_example :
    (handle_rpc (system 0) host_only https_only RpcKind.open_tcp_socket shell_bytes []).1
    ≡ Call.connect_tcp shell_host ∷ []
port_not_enforced_example =
    port_not_enforced (system 0) host_only SocketFamily.inet 443 shell_host shell_bytes []
      shell_host-HasNoNul shell_host_valid refl
