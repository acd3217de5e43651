-- ===== src/Examples/TlsHandler.antt =====
-- examples/tls/tls.rs: the entrypoint that decrypts a connection for the HTTP entrypoint and encrypts
-- its answer, and `http_handler` of examples/tls/main.rs, by which the other end is handed on.
pub mod Connection
pub mod Forwarding
pub mod Calls
pub mod Serving
use void_orchestrator.Base.{
  ℕ, zero, suc, ℤ, pos, negsuc, Bool, true, false, Option, none, some, String, List, [], ◌∷◌, ◌==◌,
  ltb, nat_eq, ⊤, length, take, if◌then◌else◌,
}
use void_orchestrator.Text.{codes}
use void_orchestrator.RpcMessage.{Fd}
use void_orchestrator.Specification.{Utf8}
use void_orchestrator.Sys.{Call, Os, Answer, Nix, Io, IoError, Events, done, fail}
use void_orchestrator.Program.{M, Outcome, panic, blocked, pure, give, or_panic, call, ◌>>=◌, ◌>>◌}
use void_orchestrator.Run.{exit_ok}
use void_orchestrator.Examples.Argv.{unwrap_answer, println}
use void_orchestrator.Examples.Listener.{would_block}
use void_orchestrator.Examples.TlsHandler.Connection.{Rustls, Pem, make_config}

-- `BUFFER_SIZE`
abbrev pub tls_buffer_size : ℕ
tls_buffer_size = 4096

-- `non_blocking_read`, from the result of read(2): the bytes that were read.
unfoldable pub non_blocking_read : Io (List ℕ) → Io (List ℕ)
non_blocking_read (done bytes) = done (take tls_buffer_size bytes)
non_blocking_read (fail e) = if would_block e.raw_os_error then done [] else fail e

-- What will be read while a turn of the loop is handled: from the stream and from the socket, as long
-- as there is anything to read.
pub record Turn : Type 0 where
  pub from_stream : List (Io (List ℕ))
  pub from_socket : List (Io (List ℕ))

-- `events.contains(…)`, of events that may not be known.
abbrev pub is_readable : Option Events → Bool
is_readable none = false
is_readable (some e) = e.readable

abbrev pub has_hung_up : Option Events → Bool
has_hung_up none = false
has_hung_up (some e) = e.hung_up

-- `to_poll[0].revents()` and `to_poll[1].revents()`
abbrev pub first_events : List (Option Events) → Option Events
first_events [] = none
first_events (e ∷ _) = e

abbrev pub second_events : List (Option Events) → Option Events
second_events (_ ∷ e ∷ _) = e
second_events _ = none

module _ (os : Os) where
  -- `http_handler`
  unfoldable pub http_handler : Fd → Fd → M ⊤
  unfolding unwrap_answer
  http_handler trigger_socket stream = do
    unwrap_answer (← call os (Call.send_rights trigger_socket (stream ∷ [])))

module _ (os : Os) (tls : Rustls) where
  open tls use {Conn}

  -- `tls_conn.write_tls(stream)`: nothing is written where nothing waits.
  unfoldable pub write_bytes : Conn → Fd → List ℕ → M (Io ℕ × Conn)
  write_bytes conn stream [] = pure (done 0, conn)
  write_bytes conn stream (b ∷ bytes) = do
    r ← call os (Call.write stream (b ∷ bytes))
    pure (r, elim r [ done n ↦ tls.written conn n | fail e ↦ conn ])

  unfoldable pub write_tls : Conn → Fd → M (Io ℕ × Conn)
  unfolding write_bytes
  write_tls conn stream = write_bytes conn stream (tls.waiting conn)

  -- `if io_state.plaintext_bytes_to_read() > 0 { … }`
  unfoldable pub copy_plaintext : Conn → Fd → ℕ → M Conn
  unfolding unwrap_answer
  copy_plaintext conn socket zero = pure conn
  copy_plaintext conn socket (suc n) = do
    let (bytes, conn') = tls.read_plaintext conn (suc n)
    unwrap_answer (← call os (Call.write_all socket bytes))
    pure conn'

  -- What follows a read of some bytes. The caller unwraps every error.
  unfoldable pub process_packets : Conn → Fd → Fd → M Conn
  unfolding write_tls copy_plaintext unwrap_answer
  process_packets conn stream socket = do
    let (processed, conn1) = tls.process_new_packets conn
    (r, conn2) ← write_tls conn1 stream
    plaintext ← unwrap_answer processed
    unwrap_answer r
    copy_plaintext conn2 socket plaintext

  -- What follows `read_tls`, before the next round.
  unfoldable pub encrypted_step : Io ℕ → Conn → Fd → Fd → (Conn → M Conn) → M Conn
  unfolding process_packets
  encrypted_step (fail e) conn stream socket next =
      if would_block e.raw_os_error then pure conn else give panic
  encrypted_step (done zero) conn stream socket next = pure conn
  encrypted_step (done (suc n)) conn stream socket next = do
    conn' ← process_packets conn stream socket
    next conn'

  -- The loop of `handle_encrypted_data`, from the results that reading from the stream will give until
  -- there is nothing to read.
  unfoldable pub encrypted_loop : Fd → Fd → List (Io (List ℕ)) → Conn → M Conn
  unfolding encrypted_step
  encrypted_loop stream socket [] conn = pure conn
  encrypted_loop stream socket (r ∷ reads) conn =
      let (n, conn') = tls.read_tls conn r in
      encrypted_step n conn' stream socket (encrypted_loop stream socket reads)

  -- `handle_encrypted_data`
  unfoldable pub handle_encrypted_data : Fd → Fd → List (Io (List ℕ)) → Conn → M Conn
  unfolding encrypted_loop println codes
  handle_encrypted_data stream socket reads conn = do
    println os (codes "handling newly received encrypted data")
    encrypted_loop stream socket reads conn

  -- What follows `non_blocking_read`, before the next round.
  unfoldable pub new_data_step : Io (List ℕ) → Conn → Fd → (Conn → M Conn) → M Conn
  unfolding write_tls unwrap_answer
  new_data_step (fail e) conn stream next = give panic
  new_data_step (done []) conn stream next = pure conn
  new_data_step (done (b ∷ bytes)) conn stream next = do
    let (accepted, conn1) = tls.write_plaintext conn (b ∷ bytes)
    unwrap_answer accepted
    (r, conn2) ← write_tls conn1 stream
    unwrap_answer r
    next conn2

  -- The loop of `handle_new_data`, from the results that reading from the socket will give until there
  -- is nothing to read.
  unfoldable pub new_data_loop : Fd → List (Io (List ℕ)) → Conn → M Conn
  unfolding new_data_step non_blocking_read
  new_data_loop stream [] conn = pure conn
  new_data_loop stream (r ∷ reads) conn =
      new_data_step (non_blocking_read r) conn stream (new_data_loop stream reads)

  -- `handle_new_data`
  unfoldable pub handle_new_data : Fd → List (Io (List ℕ)) → Conn → M Conn
  unfolding new_data_loop println codes
  handle_new_data stream reads conn = do
    println os (codes "handling new data to encrypt")
    new_data_loop stream reads conn

  abbrev pub if_readable : Bool → M Conn → Conn → M Conn
  if_readable true m conn = m
  if_readable false m conn = pure conn

  -- The end of the loop, once the other end has been closed.
  unfoldable pub hang_up : Conn → M Conn
  unfolding println codes
  hang_up conn = do println os (codes "response writer hung up, exiting"); pure conn

  -- The loop of `handler`, by the turns that it will take. Where they end, the program waits.
  unfoldable pub poll_loop : Fd → Fd → List Turn → Conn → M Conn
  unfolding handle_encrypted_data handle_new_data hang_up println codes unwrap_answer
  poll_loop stream socket [] conn = give blocked
  poll_loop stream socket (turn ∷ turns) conn = do
    println os (codes "starting polling")
    events ← unwrap_answer (← call os (Call.poll (stream ∷ socket ∷ []) (negsuc 0)))
    conn1 ←
        if_readable (is_readable (first_events events))
          (handle_encrypted_data stream socket turn.from_stream conn) conn
    conn2 ←
        if_readable (is_readable (second_events events))
          (handle_new_data stream turn.from_socket conn1) conn1
    let rest = poll_loop stream socket turns conn2
    if has_hung_up (second_events events) then hang_up conn2 else rest

  -- What `handler` does once the far end of its pair of sockets has been handed on.
  unfoldable pub serve_handed_on : Fd → List Turn → Fd → Conn → M ℤ
  unfolding poll_loop write_tls unwrap_answer
  serve_handed_on stream turns socket conn = do
    unwrap_answer (← call os (Call.set_nonblocking stream))
    unwrap_answer (← call os (Call.set_nonblocking socket))
    conn1 ← poll_loop stream socket turns conn
    (r, conn2) ← write_tls (tls.send_close_notify conn1) stream
    unwrap_answer r
    pure exit_ok

  -- What `handler` does with its pair of sockets.
  unfoldable pub serve_pair : Fd → Pem → Fd → List Turn → Fd → Fd → M ℤ
  unfolding make_config http_handler serve_handed_on
  serve_pair http_trigger_socket pem stream turns socket far_socket = do
    config ← make_config tls pem
    conn ← or_panic (tls.new config)
    http_handler os http_trigger_socket far_socket
    serve_handed_on stream turns socket conn

  -- `handler`
  unfoldable pub serve_tls : Fd → Pem → Fd → List Turn → M ℤ
  unfolding serve_pair unwrap_answer
  serve_tls http_trigger_socket pem stream turns = do
    ends ← unwrap_answer (← call os Call.stream_pair)
    serve_pair http_trigger_socket pem stream turns ends.0 ends.1
