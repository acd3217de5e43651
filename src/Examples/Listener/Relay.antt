-- ===== src/Examples/Listener/Relay.antt =====
-- examples/tls/listener.rs: which of the connections that are accepted have been handed on.
use void_orchestrator.Base.{
  ℤ, pos, Option, ◌≡◌, refl, sym, ap, ⊤, Bool, true, false, List, [], ◌∷◌, ◌++◌, ◌==◌, nat_eq,
  arith, if◌then◌else◌,
}
use void_orchestrator.Failure.{Errno}
use void_orchestrator.Text.{codes}
use void_orchestrator.Specification.{Utf8}
use void_orchestrator.RpcMessage.{Fd}
use void_orchestrator.Sys.{Call, Os, Nix, Io, IoError, Events, History, Answer, done, fail}
use void_orchestrator.Program.{M, Outcome, panic, give, ◌>>=◌, ◌>>◌}
use void_orchestrator.Examples.Argv.{unwrap_answer, println}
use void_orchestrator.Spawner.Triggers.{eintr}
use void_orchestrator.Examples.Listener.{
  tls_handler, would_block, accepted_step, polled_step, listen_loop, listen,
}

module _ (os : Os) (trigger listener : Fd) where
  -- The connection that an accept(2) has answered.
  abbrev pub answered : Io Fd → List Fd → List Fd
  answered (done stream) streams = stream ∷ streams
  answered (fail e) streams = streams

  -- The descriptors that a sendmsg(2) has sent, and the rest.
  abbrev pub delivered : Nix ⊤ → List Fd → List Fd → List Fd
  delivered (done _) streams rest = streams ++ rest
  delivered (fail e) streams rest = rest

  -- The connections that the listener has given, and those that have been sent with success over the
  -- trigger's socket, the latest first.
  abbrev pub accepted : History → List Fd
  accepted [] = []
  accepted (Call.accept l ∷ h) =
      if l == listener then answered (os h (Call.accept l)) (accepted h) else accepted h
  accepted (_ ∷ h) = accepted h

  abbrev pub sent : History → List Fd
  sent [] = []
  sent (Call.send_rights socket streams ∷ h) =
      if socket == trigger
      then delivered (os h (Call.send_rights socket streams)) streams (sent h)
      else sent h
  sent (_ ∷ h) = sent h

  -- What has been accepted has been sent.
  abbrev pub Relayed : History → Type 0
  Relayed h = sent h ≡ accepted h

  -- It is so, or the last call was to print a message or to send a connection, it failed, and the
  -- latest connection alone has not been sent.
  pub data RelayedButLast : History → Type 0 where
    relayed : {h : History} → Relayed h → RelayedButLast h
    unprinted :
        {h : History} {text : Utf8} (stream : Fd) (e : IoError)
        → os h (Call.print text) ≡ fail e
        → accepted h ≡ stream ∷ sent h
        → RelayedButLast (Call.print text ∷ h)
    unsent :
        {h : History} (stream : Fd) (e : Errno)
        → os h (Call.send_rights trigger (stream ∷ [])) ≡ fail e
        → accepted h ≡ stream ∷ sent h
        → RelayedButLast (Call.send_rights trigger (stream ∷ []) ∷ h)

  -- Runs that keep it so, however they end.
  record Relays {A : Type 0} (m : M A) : Type 0 where
    at : (h : History) → Relayed h → RelayedButLast (m h).1

  Relays-give : {A : Type 0} (r : Outcome A) → Relays (give r)
  unfolding give
  Relays-give r = record { at = λ h e. relayed e }

  Relays-if :
      {A : Type 0} (test : Bool) (m k : M A) → Relays m → Relays k → Relays (if test then m else k)
  Relays-if true m k km kk = km
  Relays-if false m k km kk = kk

  -- A step that returns or ends, with no call, and what follows.
  unwrapped-Relays :
      {E A B : Type 0} (a : Answer E A) (next : A → M B) (h : History)
      → Relayed h
      → ((x : A) → Relays (next x))
      → RelayedButLast ((unwrap_answer a >>= next) h).1
  unfolding unwrap_answer ◌>>=◌
  unwrapped-Relays (done x) next h e k = (k x).at h e
  unwrapped-Relays (fail x) next h e k = relayed e

  -- A message that is printed, and what follows.
  printed-Relayed :
      {B : Type 0} (text : Utf8) (next : M B) (h : History)
      → Relayed h
      → Relays next
      → RelayedButLast ((println os text >> next) h).1
  unfolding println ◌>>=◌
  printed-Relayed text next h e k =
      unwrapped-Relays (os h (Call.print text)) (λ _. next) (Call.print text ∷ h) e (λ _. k)

  same_listener : (listener == listener) ≡ true
  same_listener = ground arith

  same_trigger : (trigger == trigger) ≡ true
  same_trigger = ground arith

  -- From where a connection has been sent, or could not be.
  sent-Relayed :
      (stream : Fd) (r : Nix ⊤) (next : M ℤ) (h : History)
      → os h (Call.send_rights trigger (stream ∷ [])) ≡ r
      → accepted h ≡ stream ∷ sent h
      → Relays next
      → RelayedButLast ((unwrap_answer r >> next) (Call.send_rights trigger (stream ∷ []) ∷ h)).1
  unfolding unwrap_answer ◌>>=◌
  sent-Relayed stream (fail x) next h answer latest k = unsent stream x answer latest
  sent-Relayed stream (done _) next h answer latest k =
      k.at _ (rw (same_trigger, answer) (sym latest))

  -- From where a connection is accepted and not sent yet.
  handed_on-Relayed :
      (text : Utf8) (stream : Fd) (r : Io ⊤) (next : M ℤ) (h : History)
      → os h (Call.print text) ≡ r
      → accepted h ≡ stream ∷ sent h
      → Relays next
      → RelayedButLast
          ((unwrap_answer r >> (tls_handler os trigger stream >> next)) (Call.print text ∷ h)).1
  unfolding unwrap_answer tls_handler ◌>>=◌
  handed_on-Relayed text stream (fail x) next h answer latest k = unprinted stream x answer latest
  handed_on-Relayed text stream (done _) next h answer latest k =
      sent-Relayed stream _ next (Call.print text ∷ h) refl latest k

  accepted_step-Relayed :
      (r : Io Fd) (next : M ℤ) (h : History)
      → os h (Call.accept listener) ≡ r
      → Relays next
      → Relayed h
      → RelayedButLast (accepted_step os trigger r next (Call.accept listener ∷ h)).1
  unfolding accepted_step println ◌>>=◌
  accepted_step-Relayed (fail x) next h answer k e =
      let still : Relayed (Call.accept listener ∷ h) = rw (same_listener, answer) e in
      (Relays-if (would_block x.raw_os_error) next (give panic) k (Relays-give panic)).at _ still
  accepted_step-Relayed (done stream) next h answer k e =
      let latest : accepted (Call.accept listener ∷ h) ≡ stream ∷ sent (Call.accept listener ∷ h) =
        rw (same_listener, answer) (ap (λ streams. stream ∷ streams) (sym e)) in
      handed_on-Relayed (codes "received a new connection") stream _ next (Call.accept listener ∷ h)
        refl latest k

  polled_step-Relayed :
      (r : Nix (List (Option Events))) (next : M ℤ) (h : History)
      → Relays next
      → Relayed h
      → RelayedButLast (polled_step os trigger listener r next h).1
  unfolding polled_step ◌>>=◌
  polled_step-Relayed (fail x) next h k e =
      (Relays-if (x == eintr) next (give panic) k (Relays-give panic)).at h e
  polled_step-Relayed (done _) next h k e = accepted_step-Relayed _ next h refl k e

  listen_loop-Relays : (running : List Bool) → Relays (listen_loop os trigger listener running)
  unfolding listen_loop ◌>>=◌
  listen_loop-Relays [] = Relays-give _
  listen_loop-Relays (false ∷ _) = record { at = λ h e. relayed e }
  listen_loop-Relays (true ∷ running) = record {
    at = λ h e.
        polled_step-Relayed (os h (Call.poll (listener ∷ []) (pos 1000))) _
          (Call.poll (listener ∷ []) (pos 1000) ∷ h) (listen_loop-Relays running) e;
  }

  -- However the listener's program ends or waits, and whatever the operating system answers, every
  -- connection that has been accepted from the listener has been sent with success over the socket of
  -- the trigger, once and in the order in which they were accepted, and nothing else has; but if the
  -- last call was to print a message or to send the latest connection, and it failed, that connection
  -- may be the only one not sent.
  pub listen-Relayed :
      (running : List Bool) (h : History)
      → Relayed h
      → RelayedButLast (listen os trigger listener running h).1
  unfolding listen ◌>>=◌
  listen-Relayed running h e = printed-Relayed (codes "connection_listener entered") _ h e record {
    at = λ h1 e1. unwrapped-Relays (os h1 Call.handle_sigint) _ (Call.handle_sigint ∷ h1) e1 λ _.
        record {
          at = λ h2 e2.
              unwrapped-Relays (os h2 (Call.set_nonblocking listener)) _
                (Call.set_nonblocking listener ∷ h2) e2 λ _. listen_loop-Relays running;
        };
  }
