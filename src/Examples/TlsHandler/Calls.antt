-- ===== src/Examples/TlsHandler/Calls.antt =====
-- examples/tls/tls.rs: what the entrypoint that faces the network writes, and where.
use void_orchestrator.Base.{
  ℕ, zero, suc, ◌≡◌, refl, ◌⊎◌, inl, inr, Bool, true, false, List, [], ◌∷◌,
}
use void_orchestrator.RpcMessage.{Fd}
use void_orchestrator.Sys.{Call, Os, Io, done, fail}
use void_orchestrator.Program.{M}
use void_orchestrator.Program.Runs.{
  Makes, Makes-give, Makes-pure, Makes-if, Makes-bind, Makes-call, makes_rules,
}
use void_orchestrator.Examples.Argv.Calls.{unwrap_answer-Makes, println-Makes}
use void_orchestrator.Examples.TlsHandler.Connection.{Rustls}
use void_orchestrator.Examples.TlsHandler.{
  Turn, write_bytes, write_tls, copy_plaintext, process_packets, encrypted_step, encrypted_loop,
  handle_encrypted_data, new_data_step, new_data_loop, handle_new_data, hang_up, if_readable,
  poll_loop, serve_handed_on,
}

module _ (tls : Rustls) (stream socket : Fd) where
  -- What the program may call once it has handed on the far end of its pair of sockets.
  abbrev pub IsTlsCall : Call → Type 0
  IsTlsCall (Call.print text) = Unit {0}
  IsTlsCall (Call.set_nonblocking fd) = (fd ≡ stream) ⊎ (fd ≡ socket)
  IsTlsCall (Call.poll fds timeout) = fds ≡ stream ∷ socket ∷ []
  -- to the network, what the connection has encrypted
  IsTlsCall (Call.write fd bytes) = (fd ≡ stream) × (conn : tls.Conn) × (bytes ≡ tls.waiting conn)
  -- to the program that answers, what the connection has decrypted
  IsTlsCall (Call.write_all fd bytes) =
      (fd ≡ socket) × (conn : tls.Conn) × (n : ℕ) × (bytes ≡ (tls.read_plaintext conn n).0)
  IsTlsCall _ = ⊥

module _ (os : Os) (tls : Rustls) (stream socket : Fd) where
  abbrev P : Call → Type 0
  P = IsTlsCall tls stream socket

  write_bytes-Makes :
      (conn from : tls.Conn) (bytes : List ℕ)
      → bytes ≡ tls.waiting from
      → Makes P (write_bytes os tls conn stream bytes)
  unfolding write_bytes
  write_bytes-Makes conn from [] e = search makes_rules
  write_bytes-Makes conn from (b ∷ bytes) e =
      Makes-bind _ _ (Makes-call os (Call.write stream (b ∷ bytes)) (refl, from, e))
        (λ r. Makes-pure _)

  write_tls-Makes : (conn : tls.Conn) → Makes P (write_tls os tls conn stream)
  unfolding write_tls
  write_tls-Makes conn = write_bytes-Makes conn conn (tls.waiting conn) refl

  copy_plaintext-Makes : (conn : tls.Conn) (n : ℕ) → Makes P (copy_plaintext os tls conn socket n)
  unfolding copy_plaintext
  copy_plaintext-Makes conn zero = search makes_rules
  copy_plaintext-Makes conn (suc n) =
      Makes-bind _ _ (Makes-call os (Call.write_all socket _) (refl, conn, suc n, refl))
        λ r. Makes-bind _ _ (unwrap_answer-Makes r) λ _. Makes-pure _

  process_packets-Makes : (conn : tls.Conn) → Makes P (process_packets os tls conn stream socket)
  unfolding process_packets
  process_packets-Makes conn =
      let (processed, conn1) = tls.process_new_packets conn in
      Makes-bind _ _ (write_tls-Makes conn1) λ written.
        Makes-bind _ _ (unwrap_answer-Makes processed) λ plaintext.
          Makes-bind _ _ (unwrap_answer-Makes written.0)
            λ _. copy_plaintext-Makes written.1 plaintext

  encrypted_step-Makes :
      (r : Io ℕ) (conn : tls.Conn) (next : tls.Conn → M tls.Conn)
      → ((c : tls.Conn) → Makes P (next c))
      → Makes P (encrypted_step os tls r conn stream socket next)
  unfolding encrypted_step
  encrypted_step-Makes (fail e) conn next k = Makes-if _ _ _ (Makes-pure _) (Makes-give _)
  encrypted_step-Makes (done zero) conn next k = search makes_rules
  encrypted_step-Makes (done (suc n)) conn next k = Makes-bind _ _ (process_packets-Makes conn) k

  encrypted_loop-Makes :
      (reads : List (Io (List ℕ))) (conn : tls.Conn)
      → Makes P (encrypted_loop os tls stream socket reads conn)
  unfolding encrypted_loop
  encrypted_loop-Makes [] conn = search makes_rules
  encrypted_loop-Makes (r ∷ reads) conn =
      let (n, conn') = tls.read_tls conn r in
      encrypted_step-Makes n conn' _ (encrypted_loop-Makes reads)

  handle_encrypted_data-Makes :
      (reads : List (Io (List ℕ))) (conn : tls.Conn)
      → Makes P (handle_encrypted_data os tls stream socket reads conn)
  unfolding handle_encrypted_data
  handle_encrypted_data-Makes reads conn =
      Makes-bind _ _ (println-Makes os _ tt) (λ _. encrypted_loop-Makes reads conn)

  new_data_step-Makes :
      (r : Io (List ℕ)) (conn : tls.Conn) (next : tls.Conn → M tls.Conn)
      → ((c : tls.Conn) → Makes P (next c))
      → Makes P (new_data_step os tls r conn stream next)
  unfolding new_data_step
  new_data_step-Makes (fail e) conn next k = search makes_rules
  new_data_step-Makes (done []) conn next k = search makes_rules
  new_data_step-Makes (done (b ∷ bytes)) conn next k =
      let (accepted, conn1) = tls.write_plaintext conn (b ∷ bytes) in
      Makes-bind _ _ (unwrap_answer-Makes accepted) λ _.
        Makes-bind _ _ (write_tls-Makes conn1)
          λ written. Makes-bind _ _ (unwrap_answer-Makes written.0) λ _. k written.1

  new_data_loop-Makes :
      (reads : List (Io (List ℕ))) (conn : tls.Conn)
      → Makes P (new_data_loop os tls stream reads conn)
  unfolding new_data_loop
  new_data_loop-Makes [] conn = search makes_rules
  new_data_loop-Makes (r ∷ reads) conn = new_data_step-Makes _ conn _ (new_data_loop-Makes reads)

  handle_new_data-Makes :
      (reads : List (Io (List ℕ))) (conn : tls.Conn)
      → Makes P (handle_new_data os tls stream reads conn)
  unfolding handle_new_data
  handle_new_data-Makes reads conn =
      Makes-bind _ _ (println-Makes os _ tt) (λ _. new_data_loop-Makes reads conn)

  if_readable-Makes :
      (b : Bool) (m : M tls.Conn) (conn : tls.Conn)
      → Makes P m
      → Makes P (if_readable os tls b m conn)
  if_readable-Makes true m conn k = k
  if_readable-Makes false m conn k = search makes_rules

  hang_up-Makes : (conn : tls.Conn) → Makes P (hang_up os tls conn)
  unfolding hang_up
  hang_up-Makes conn = Makes-bind _ _ (println-Makes os _ tt) (λ _. Makes-pure _)

  poll_loop-Makes :
      (turns : List Turn) (conn : tls.Conn) → Makes P (poll_loop os tls stream socket turns conn)
  unfolding poll_loop
  poll_loop-Makes [] conn = search makes_rules
  poll_loop-Makes (turn ∷ turns) conn = Makes-bind _ _ (println-Makes os _ tt) λ _.
      Makes-bind _ _ (Makes-call os (Call.poll _ _) refl) λ r.
        Makes-bind _ _ (unwrap_answer-Makes r) λ events.
          Makes-bind _ _
            (if_readable-Makes _ _ conn (handle_encrypted_data-Makes turn.from_stream conn))
            λ conn1.
              Makes-bind _ _
                (if_readable-Makes _ _ conn1 (handle_new_data-Makes turn.from_socket conn1))
                λ conn2. Makes-if _ _ _ (hang_up-Makes conn2) (poll_loop-Makes turns conn2)

  -- What follows the handing on.
  pub handed_on-Makes :
      (turns : List Turn) (conn : tls.Conn)
      → Makes P (serve_handed_on os tls stream turns socket conn)
  unfolding serve_handed_on
  handed_on-Makes turns conn =
      Makes-bind _ _ (Makes-call os (Call.set_nonblocking stream) (inl refl)) λ r.
        Makes-bind _ _ (unwrap_answer-Makes r) λ _.
          Makes-bind _ _ (Makes-call os (Call.set_nonblocking socket) (inr refl)) λ r'.
            Makes-bind _ _ (unwrap_answer-Makes r') λ _.
              Makes-bind _ _ (poll_loop-Makes turns conn) λ conn1.
                Makes-bind _ _ (write_tls-Makes (tls.send_close_notify conn1))
                  λ written. Makes-bind _ _ (unwrap_answer-Makes written.0) λ _. Makes-pure _
