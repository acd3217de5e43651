-- ===== src/Examples/TlsHandler/Serving.antt =====
-- examples/tls/tls.rs: how the entrypoint that faces the network runs.
use void_orchestrator.Base.{ℤ, ◌≡◌, refl, Option, none, some, List, [], ◌∷◌, ◌++◌, All, ⊤}
use void_orchestrator.Failure.{Errno}
use void_orchestrator.RpcMessage.{Fd}
use void_orchestrator.Specification.{Utf8}
use void_orchestrator.Sys.{Call, Os, Nix, Io, IoError, History, done, fail}
use void_orchestrator.Program.{M, Outcome, panic, pure, give, or_panic, ◌>>=◌, ◌>>◌}
use void_orchestrator.Examples.Argv.{unwrap_answer}
use void_orchestrator.Examples.TlsHandler.Connection.{
  Rustls, PemItem, rsa_key, pkcs8_key, ec_key, other, Pem, load_certs, load_private_key,
  make_config,
}
use void_orchestrator.Examples.TlsHandler.{
  Turn, http_handler, serve_handed_on, serve_pair, serve_tls,
}
use void_orchestrator.Examples.TlsHandler.Calls.{IsTlsCall, handed_on-Makes}

-- The first item that is a key, if no reading fails before it.
abbrev pub key_of : List (Io PemItem) → Option Utf8
key_of [] = none
key_of (fail e ∷ _) = none
key_of (done (rsa_key key) ∷ _) = some key
key_of (done (pkcs8_key key) ∷ _) = some key
key_of (done (ec_key key) ∷ _) = some key
key_of (done other ∷ items) = key_of items

-- The connection that the certificates and the key give, if rustls accepts them.
module _ (tls : Rustls) where
  abbrev pub with_config : Option tls.Config → Option tls.Conn
  with_config none = none
  with_config (some config) = tls.new config

  abbrev pub with_key : List Utf8 → Option Utf8 → Option tls.Conn
  with_key certs none = none
  with_key certs (some key) = with_config (tls.with_single_cert certs key)

  abbrev pub with_certs : Io (List Utf8) → Option Utf8 → Option tls.Conn
  with_certs (fail e) key = none
  with_certs (done certs) key = with_key certs key

  abbrev pub connection_of : Pem → Option tls.Conn
  connection_of pem = with_certs pem.certs (key_of pem.items)

module _ (os : Os) (tls : Rustls) (trigger stream : Fd) (pem : Pem) (h : History) where
  abbrev pub paired : History
  paired = Call.stream_pair ∷ h

  -- How the program runs, with the calls made then.
  pub data Serves : Outcome ℤ × History → Type 0 where
    -- there is no pair of sockets
    no_pair : (e : IoError) → os h Call.stream_pair ≡ fail e → Serves (panic, paired)
    -- the files give no connection
    no_config : connection_of tls pem ≡ none → Serves (panic, paired)
    -- the far end could not be handed on
    not_handed_on :
        (socket far : Fd) (e : Errno)
        → os h Call.stream_pair ≡ done (socket, far)
        → os paired (Call.send_rights trigger (far ∷ [])) ≡ fail e
        → Serves (panic, Call.send_rights trigger (far ∷ []) ∷ paired)
    -- the far end has been handed on, and these calls follow
    serves :
        (socket far : Fd) (conn : tls.Conn) (calls : List Call) {r : Outcome ℤ} {h' : History}
        → os h Call.stream_pair ≡ done (socket, far)
        → connection_of tls pem ≡ some conn
        → os paired (Call.send_rights trigger (far ∷ [])) ≡ done tt
        → h' ≡ calls ++ (Call.send_rights trigger (far ∷ []) ∷ paired)
        → All (IsTlsCall tls stream socket) calls
        → Serves (r, h')

load_private_key_lem :
    (items : List (Io PemItem)) (h : History) → load_private_key items h ≡ or_panic (key_of items) h
unfolding load_private_key or_panic pure give
load_private_key_lem [] h = refl
load_private_key_lem (fail e ∷ _) h = refl
load_private_key_lem (done (rsa_key key) ∷ _) h = refl
load_private_key_lem (done (pkcs8_key key) ∷ _) h = refl
load_private_key_lem (done (ec_key key) ∷ _) h = refl
load_private_key_lem (done other ∷ items) h = load_private_key_lem items h

module _ {A : Type 0} (tls : Rustls) (next : tls.Conn → M A) (h : History) where
  config_lem :
      (config : Option tls.Config)
      → (or_panic config >>= λ c. or_panic (tls.new c) >>= next) h
        ≡ (or_panic (with_config tls config) >>= next) h
  unfolding or_panic ◌>>=◌
  config_lem none = refl
  config_lem (some config) = refl

  key_lem :
      (certs : List Utf8) (key : Option Utf8)
      → ((or_panic key >>= λ k. or_panic (tls.with_single_cert certs k)) >>= λ c.
            or_panic (tls.new c) >>= next)
          h
        ≡ (or_panic (with_key tls certs key) >>= next) h
  unfolding ◌>>=◌
  key_lem certs none = refl
  key_lem certs (some key) = config_lem (tls.with_single_cert certs key)

  certs_lem :
      (certs : Io (List Utf8)) (items : List (Io PemItem))
      → ((unwrap_answer certs >>= λ cs.
              load_private_key items >>= λ k. or_panic (tls.with_single_cert cs k))
            >>= λ c. or_panic (tls.new c) >>= next)
          h
        ≡ (or_panic (with_certs tls certs (key_of items)) >>= next) h
  unfolding unwrap_answer ◌>>=◌
  certs_lem (fail e) items = refl
  certs_lem (done certs) items = rw (load_private_key_lem items h) (key_lem certs (key_of items))

  connected_lem :
      (pem : Pem)
      → (make_config tls pem >>= λ c. or_panic (tls.new c) >>= next) h
        ≡ (or_panic (connection_of tls pem) >>= next) h
  unfolding make_config load_certs
  connected_lem pem = certs_lem pem.certs pem.items

module _ (os : Os) (tls : Rustls) (trigger stream : Fd) (pem : Pem) (turns : List Turn)
    (h : History) where
  module _ (socket far : Fd) (is_pair : os h Call.stream_pair ≡ done (socket, far)) where
    sent-Serves :
        (conn : tls.Conn) (r : Nix ⊤)
        → connection_of tls pem ≡ some conn
        → os (Call.stream_pair ∷ h) (Call.send_rights trigger (far ∷ [])) ≡ r
        → Serves os tls trigger stream pem h (
            (unwrap_answer r >> serve_handed_on os tls stream turns socket conn)
              (Call.send_rights trigger (far ∷ []) ∷ Call.stream_pair ∷ h))
    unfolding unwrap_answer ◌>>=◌
    sent-Serves conn (fail e) configured answers = not_handed_on socket far e is_pair answers
    sent-Serves conn (done _) configured answers =
        let (calls, made, all_are) =
          (handed_on-Makes os tls stream socket turns conn).at
            (Call.send_rights trigger (far ∷ []) ∷ Call.stream_pair ∷ h) in
        serves socket far conn calls is_pair configured answers made all_are

    connected-Serves :
        (conn : Option tls.Conn)
        → connection_of tls pem ≡ conn
        → Serves os tls trigger stream pem h (
            (or_panic conn >>= λ c.
            http_handler os trigger far >> serve_handed_on os tls stream turns socket c)
              (Call.stream_pair ∷ h))
    unfolding or_panic http_handler ◌>>=◌
    connected-Serves none configured = no_config configured
    connected-Serves (some conn) configured = sent-Serves conn _ configured refl

  paired-Serves :
      (r : Io (Fd × Fd))
      → os h Call.stream_pair ≡ r
      → Serves os tls trigger stream pem h (
          (unwrap_answer r >>= λ ends. serve_pair os tls trigger pem stream turns ends.0 ends.1)
            (Call.stream_pair ∷ h))
  unfolding unwrap_answer serve_pair ◌>>=◌
  paired-Serves (fail e) answers = no_pair e answers
  paired-Serves (done (socket, far)) answers =
      let next = λ (c : tls.Conn).
        http_handler os trigger far >> serve_handed_on os tls stream turns socket c in
      rw (connected_lem tls next (Call.stream_pair ∷ h) pem)
        (connected-Serves socket far answers (connection_of tls pem) refl)

  -- Whatever it reads, whatever rustls does and whatever the operating system answers, the program
  -- that decrypts first makes a pair of sockets. It panics with no further call if there is none or if
  -- the certificates and the key give no connection, and it panics if it cannot hand on the far end.
  -- Otherwise the far end has been sent over the trigger's socket before any other call; and from then
  -- on it writes to the network only what the connection holds encrypted, and to its own end of the
  -- pair only what the connection has decrypted; it polls these two; and it makes no other call but to
  -- print and to set these two to not block.
  pub serve_tls-Serves :
      Serves os tls trigger stream pem h (serve_tls os tls trigger pem stream turns h)
  unfolding serve_tls ◌>>=◌
  serve_tls-Serves = paired-Serves _ refl
