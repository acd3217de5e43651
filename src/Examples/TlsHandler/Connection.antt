-- ===== src/Examples/TlsHandler/Connection.antt =====
-- examples/tls/tls.rs: the connection, what is relied on of rustls, and its configuration.
use void_orchestrator.Base.{ℕ, Option, String, List, [], ◌∷◌, ⊤}
use void_orchestrator.Specification.{Utf8}
use void_orchestrator.Sys.{Answer, Io, done, fail}
use void_orchestrator.Program.{M, panic, pure, give, or_panic, ◌>>=◌}
use void_orchestrator.Examples.Argv.{unwrap_answer}

-- `rustls_pemfile::Item`, by its bytes; `other` is any item that is not a key.
pub data PemItem : Type 0 where
  rsa_key : Utf8 → PemItem
  pkcs8_key : Utf8 → PemItem
  ec_key : Utf8 → PemItem
  other : PemItem

-- A `rustls::ServerConnection`, which is not part of the repository. Reading takes the result of one
-- read(2), and writing asks for one write(2) of bytes that wait. Of the plaintext that has been given
-- to the connection it is relied on that it is kept in order.
pub record Rustls : Type 1 where
  pub Config : Type 0
  pub with_single_cert : List Utf8 → Utf8 → Option Config
  pub Conn : Type 0
  pub new : Config → Option Conn
  pub read_tls : Conn → Io (List ℕ) → Io ℕ × Conn
  pub process_new_packets : Conn → Answer String ℕ × Conn
  pub waiting : Conn → List ℕ
  pub written : Conn → ℕ → Conn
  pub read_plaintext : Conn → ℕ → List ℕ × Conn
  pub write_plaintext : Conn → List ℕ → Io ⊤ × Conn
  pub send_close_notify : Conn → Conn

-- What a certificate file and a key file hold.
pub record Pem : Type 0 where
  pub certs : Io (List Utf8)
  pub items : List (Io PemItem)

-- `load_certs`, from the result of `rustls_pemfile::certs`.
unfoldable pub load_certs : Io (List Utf8) → M (List Utf8)
unfolding unwrap_answer
load_certs certs = unwrap_answer certs

-- `load_private_key`, from the results that `read_one` will give; at their end there is no item left.
unfoldable pub load_private_key : List (Io PemItem) → M Utf8
load_private_key [] = give panic
load_private_key (fail e ∷ _) = give panic
load_private_key (done (rsa_key key) ∷ _) = pure key
load_private_key (done (pkcs8_key key) ∷ _) = pure key
load_private_key (done (ec_key key) ∷ _) = pure key
load_private_key (done other ∷ items) = load_private_key items

-- `make_config`: `none` stands for an error of any of the builder's steps.
unfoldable pub make_config : (tls : Rustls) → Pem → M tls.Config
unfolding load_certs load_private_key
make_config tls pem = do
  certs ← load_certs pem.certs
  privkey ← load_private_key pem.items
  or_panic (tls.with_single_cert certs privkey)
