-- ===== src/Examples/TlsHandler/Forwarding.antt =====
-- examples/tls/tls.rs: what `handle_new_data` gives the connection, and how it ends.
use mathlib.Core.List.{append-nil, append_assoc}
use void_orchestrator.Base.{
  true, ℕ, ◌≡◌, refl, sym, ap, ◌∙◌, inl, inr, false, Bool-cases, List, [], ◌∷◌, ◌++◌, take, ⊤,
}
use void_orchestrator.Specification.{Utf8}
use void_orchestrator.RpcMessage.{Fd}
use void_orchestrator.Sys.{Answer, Call, Os, Io, IoError, History, done, fail}
use void_orchestrator.Program.{M, Outcome, ok, panic, pure, give, ◌>>=◌, ◌>>◌}
use void_orchestrator.Examples.Argv.{unwrap_answer, println}
use void_orchestrator.Examples.Listener.{would_block}
use void_orchestrator.Examples.TlsHandler.Connection.{Rustls}
use void_orchestrator.Examples.TlsHandler.{
  new_data_loop, tls_buffer_size, non_blocking_read, write_bytes, write_tls, new_data_step,
  handle_new_data,
}

-- What is relied on of rustls: the connection keeps the plaintext that it has accepted, in order, and
-- writing ciphertext takes nothing from it.
pub record KeepsPlaintext (tls : Rustls) : Type 0 where
  pub given : tls.Conn → List ℕ
  pub given-write :
      (c : tls.Conn) (bytes : List ℕ) (c' : tls.Conn)
      → ◌≡◌ {A = Io ⊤ × tls.Conn} (tls.write_plaintext c bytes) (done tt, c')
      → given c' ≡ given c ++ bytes
  pub given-written : (c : tls.Conn) (n : ℕ) → given (tls.written c n) ≡ given c

-- What is read, one buffer at a time, until a read fails or brings nothing.
abbrev pub read_bytes : List (Io (List ℕ)) → List ℕ
read_bytes [] = []
read_bytes (fail e ∷ _) = []
read_bytes (done [] ∷ _) = []
read_bytes (done (b ∷ bytes) ∷ reads) = take tls_buffer_size (b ∷ bytes) ++ read_bytes reads

-- The reads end, without a failure: at one that would block or brings nothing, or as there is nothing
-- left to read.
abbrev pub EndsQuietly : List (Io (List ℕ)) → Type 0
EndsQuietly [] = Unit {0}
EndsQuietly (fail e ∷ _) = would_block e.raw_os_error ≡ true
EndsQuietly (done [] ∷ _) = Unit {0}
EndsQuietly (done (b ∷ bytes) ∷ reads) = EndsQuietly reads

-- A read fails by something else than that it would block.
abbrev pub HasFailure : List (Io (List ℕ)) → Type 0
HasFailure [] = ⊥
HasFailure (fail e ∷ _) = would_block e.raw_os_error ≡ false
HasFailure (done [] ∷ _) = ⊥
HasFailure (done (b ∷ bytes) ∷ reads) = HasFailure reads

abbrev pub Succeeds : {E A : Type 0} → Answer E A → Type 0
Succeeds (done _) = Unit {0}
Succeeds (fail _) = ⊥

-- Every message has been printed, and every write has succeeded.
abbrev pub NoneFailed : Os → History → Type 0
NoneFailed os [] = Unit {0}
NoneFailed os (Call.print text ∷ h) = Succeeds (os h (Call.print text)) × NoneFailed os h
NoneFailed os (Call.write fd bytes ∷ h) = Succeeds (os h (Call.write fd bytes)) × NoneFailed os h
NoneFailed os (_ ∷ h) = NoneFailed os h

module _ (os : Os) (tls : Rustls) (keeps : KeepsPlaintext tls) (stream : Fd) where
  -- How the forwarding ends, from a connection that was given `before` and with `reads` to come.
  pub data Forwarded (before : List ℕ) (reads : List (Io (List ℕ)))
      : Outcome tls.Conn × History → Type 0 where
    -- the connection has been given all that was read, and no read, write or print failed
    forwarded :
        (c : tls.Conn) {h : History}
        → keeps.given c ≡ before ++ read_bytes reads
        → EndsQuietly reads
        → NoneFailed os h
        → Forwarded before reads (ok c, h)
    -- the last call was to print the message, and it failed
    unprinted :
        (text : Utf8) (e : IoError) {h : History}
        → os h (Call.print text) ≡ fail e
        → Forwarded before reads (panic, Call.print text ∷ h)
    -- a read failed
    unread : {h : History} → HasFailure reads → Forwarded before reads (panic, h)
    -- the connection did not accept the plaintext
    unaccepted :
        (c : tls.Conn) (bytes : List ℕ) (e : IoError) {h : History}
        → (tls.write_plaintext c bytes).0 ≡ fail e
        → Forwarded before reads (panic, h)
    -- the last call was to write ciphertext to the stream, and it failed
    unwritten :
        (bytes : List ℕ) (e : IoError) {h : History}
        → os h (Call.write stream bytes) ≡ fail e
        → Forwarded before reads (panic, Call.write stream bytes ∷ h)

  module _ (b : ℕ) (bytes : List ℕ) (before : List ℕ) (reads : List (Io (List ℕ))) where
    abbrev this_read : List ℕ
    this_read = take tls_buffer_size (b ∷ bytes)

    -- After a buffer that was forwarded.
    Forwarded-next :
        {r : Outcome tls.Conn × History}
        → Forwarded (before ++ this_read) reads r
        → Forwarded before (done (b ∷ bytes) ∷ reads) r
    Forwarded-next (forwarded c e quiet none_failed) =
        forwarded c (e ∙ append_assoc before this_read (read_bytes reads)) quiet none_failed
    Forwarded-next (unprinted text e f) = unprinted text e f
    Forwarded-next (unread f) = unread f
    Forwarded-next (unaccepted c bs e f) = unaccepted c bs e f
    Forwarded-next (unwritten bs e f) = unwritten bs e f

  module _ (before : List ℕ) (reads : List (Io (List ℕ))) (next : tls.Conn → M tls.Conn)
      (goes_on : (c : tls.Conn) (h : History)
        → keeps.given c ≡ before
        → NoneFailed os h
        → Forwarded before reads (next c h)) where
    answered-Forwarded :
        (c : tls.Conn) (bytes : List ℕ) (r : Io ℕ) (h : History)
        → keeps.given c ≡ before
        → NoneFailed os h
        → os h (Call.write stream bytes) ≡ r
        → Forwarded before reads (
            (unwrap_answer r >> next (elim r [ done n ↦ tls.written c n | fail e ↦ c ]))
              (Call.write stream bytes ∷ h))
    unfolding unwrap_answer ◌>>=◌
    answered-Forwarded c bytes (done m) h e n answers =
        goes_on (tls.written c m) _ (keeps.given-written c m ∙ e) (rw answers tt, n)
    answered-Forwarded c bytes (fail x) h e n answers = unwritten bytes x answers

    written-Forwarded :
        (c : tls.Conn) (bytes : List ℕ) (h : History)
        → keeps.given c ≡ before
        → NoneFailed os h
        → Forwarded before reads
            ((write_bytes os tls c stream bytes >>= λ p. unwrap_answer p.0 >> next p.1) h)
    unfolding write_bytes unwrap_answer ◌>>=◌
    written-Forwarded c [] h e n = goes_on c h e n
    written-Forwarded c (b ∷ bytes) h e n =
        answered-Forwarded c (b ∷ bytes) (os h (Call.write stream (b ∷ bytes))) h e n refl

    -- After the connection has been given a buffer.
    given-Forwarded :
        (c : tls.Conn) (bytes : List ℕ) (r : Io ⊤) (c' : tls.Conn) (h : History)
        → ◌≡◌ {A = Io ⊤ × tls.Conn} (tls.write_plaintext c bytes) (r, c')
        → keeps.given c ++ bytes ≡ before
        → NoneFailed os h
        → Forwarded before reads (
            (unwrap_answer r >> (write_tls os tls c' stream >>= λ p. unwrap_answer p.0 >> next p.1))
              h)
    unfolding unwrap_answer write_tls ◌>>=◌
    given-Forwarded c bytes (done tt) c' h accepted e n =
        written-Forwarded c' (tls.waiting c') h (keeps.given-write c bytes c' accepted ∙ e) n
    given-Forwarded c bytes (fail x) c' h accepted e n =
        unaccepted c bytes x (ap (λ t. t.0) accepted)

  new_data_loop-Forwarded_from :
      (reads : List (Io (List ℕ))) (c : tls.Conn) (before : List ℕ) (h : History)
      → keeps.given c ≡ before
      → NoneFailed os h
      → Forwarded before reads (new_data_loop os tls stream reads c h)
  unfolding new_data_loop new_data_step non_blocking_read pure give
  new_data_loop-Forwarded_from [] c before h e n = forwarded c (e ∙ sym (append-nil before)) tt n
  new_data_loop-Forwarded_from (fail x ∷ reads) c before h e n =
      elim (Bool-cases (would_block x.raw_os_error)) [
        | inl blocks ↦
            rw (blocks, new_data_step) (forwarded c (e ∙ sym (append-nil before)) blocks n)
        | inr fails ↦ rw (fails, new_data_step) (unread fails)
      ]
  new_data_loop-Forwarded_from (done [] ∷ reads) c before h e n =
      forwarded c (e ∙ sym (append-nil before)) tt n
  new_data_loop-Forwarded_from (done (b ∷ bytes) ∷ reads) c before h e n =
      let this = take tls_buffer_size (b ∷ bytes) in
      let (r, c') = tls.write_plaintext c this in
      Forwarded-next b bytes before reads (
        given-Forwarded (before ++ this) reads (new_data_loop os tls stream reads)
          (λ c1 h1 e1 n1. new_data_loop-Forwarded_from reads c1 (before ++ this) h1 e1 n1) c this r
          c' h refl (ap (λ given. given ++ this) e) n)

  printed-Forwarded :
      (text : Utf8) (r : Io ⊤) (reads : List (Io (List ℕ))) (c : tls.Conn) (h : History)
      → os h (Call.print text) ≡ r
      → NoneFailed os h
      → Forwarded
          (keeps.given c)
          reads
          ((unwrap_answer r >> new_data_loop os tls stream reads c) (Call.print text ∷ h))
  unfolding unwrap_answer ◌>>=◌
  printed-Forwarded text (done _) reads c h answers n =
      new_data_loop-Forwarded_from reads c _ _ refl (rw answers tt, n)
  printed-Forwarded text (fail e) reads c h answers n = unprinted text e answers

  -- If rustls keeps the plaintext that it accepts, then `handle_new_data` gives the connection
  -- exactly the bytes that it reads from the socket, in order and one buffer at a time, up to the
  -- read that would block or brings nothing, after what it was given before, and returns, with no
  -- read, write or print having failed since a history in which none had; or else it panics (the
  -- caller unwraps its error) because a read failed otherwise, because the connection did not accept
  -- the plaintext, or because the last call was to print a message or to write ciphertext to the
  -- stream and failed.
  pub handle_new_data-Forwarded :
      (reads : List (Io (List ℕ))) (c : tls.Conn) (h : History)
      → NoneFailed os h
      → Forwarded (keeps.given c) reads (handle_new_data os tls stream reads c h)
  unfolding handle_new_data println ◌>>=◌
  handle_new_data-Forwarded reads c h n = printed-Forwarded _ _ reads c h refl n
