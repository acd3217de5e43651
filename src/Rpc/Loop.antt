-- ===== src/Rpc/Loop.antt =====
-- spawner/rpc.rs: the loop that receives requests and answers them.
use Prim.Native.Nat.{min}
use void_orchestrator.Base.{
  ℕ, zero, suc, ◌≤◌, ◌≡◌, ◌≢◌, refl, ap, false, Option, none, some, List, [], ◌∷◌, arith, ⊤, ltb,
  length, take, drop,
}
use void_orchestrator.Specification.{RpcSpecification}
use void_orchestrator.RpcMessage.{Fd, RpcKind, OpenSocket, RpcResult}
use void_orchestrator.Sys.{done, fail, Nix, Call, Os, History}
use void_orchestrator.Program.{
  M, Outcome, ok, err, panic, exit, exec, blocked, undefined, continue, ◌>>=◌,
}
use void_orchestrator.Program.Runs.{
  Makes, Makes-mono, Makes-pure, Makes-give, Makes-bind, Makes-call, Makes-if, Makes-or_nix,
  makes_rules,
}
use void_orchestrator.Rpc.{
  new_send, kind_of, receive, send_fds, reply, serve_kind, handle_message, handle_loop, handle,
}
use void_orchestrator.Rpc.Safety.{IsPermittedCall, handle_rpc-IsPermittedCall}

-- What the handler may call: it sends on its own socket, and connects as some request that it read
-- is permitted to.
abbrev pub IsHandlerCall : (List ℕ → OpenSocket) → List RpcSpecification → Fd → Call → Type 0
IsHandlerCall view specs socket (Call.send fd _) = fd ≡ socket
IsHandlerCall view specs socket (Call.send_rights fd _) = fd ≡ socket
IsHandlerCall view specs socket c = (bytes : List ℕ) × IsPermittedCall specs (view bytes) c

module _ (os : Os) (view : List ℕ → OpenSocket) (specs : List RpcSpecification) (socket : Fd) where
  send_fds-Makes :
      (fds : List Fd) → Makes (IsHandlerCall view specs socket) (send_fds os socket fds)
  unfolding send_fds
  send_fds-Makes [] = search makes_rules
  send_fds-Makes (fd ∷ fds) =
      Makes-bind _ _ (Makes-call os (Call.send_rights socket (fd ∷ fds)) refl)
        (Makes-or_nix "sendmsg")

  reply-Makes : (resp : RpcResult) → Makes (IsHandlerCall view specs socket) (reply os socket resp)
  unfolding reply
  reply-Makes resp = Makes-bind _ _ (send_fds-Makes (new_send resp).1) λ _.
      Makes-bind _ _ (Makes-call os (Call.send socket (new_send resp).0) refl) (Makes-or_nix "send")

  weaken :
      (bytes : List ℕ) (c : Call)
      → IsPermittedCall specs (view bytes) c
      → IsHandlerCall view specs socket c
  weaken bytes (Call.send fd msg) h = absurd h
  weaken bytes (Call.send_rights fd fds) h = absurd h
  weaken bytes _ h = (bytes, h)

  serve_kind-Makes :
      (kind : Option RpcKind) (bytes : List ℕ)
      → Makes (IsHandlerCall view specs socket) (serve_kind os view specs socket kind bytes)
  unfolding serve_kind
  serve_kind-Makes none bytes = search makes_rules
  serve_kind-Makes (some kind) bytes = Makes-if _ _ _ (Makes-give _) (
      Makes-bind _ _
        (Makes-mono _ (weaken bytes) (handle_rpc-IsPermittedCall os view specs kind bytes))
        reply-Makes)

  handle_message-Makes :
      (buf : List ℕ) (n : ℕ)
      → Makes (IsHandlerCall view specs socket) (handle_message os view specs socket buf n)
  unfolding handle_message
  handle_message-Makes buf n =
      Makes-if _ _ _ (Makes-pure _) (serve_kind-Makes (kind_of buf) (drop 4 buf))

  handle_loop-Makes :
      (buf : List ℕ) (messages : List (Nix (List ℕ)))
      → Makes (IsHandlerCall view specs socket) (handle_loop os view specs socket buf messages)
  unfolding handle_loop
  handle_loop-Makes buf [] = search makes_rules
  handle_loop-Makes buf (fail e ∷ rest) = search makes_rules
  handle_loop-Makes buf (done msg ∷ rest) =
      Makes-bind _ _ (handle_message-Makes (receive buf msg) (min (length msg) (length buf)))
        (λ _. handle_loop-Makes (receive buf msg) rest)

  -- Whatever messages arrive and whatever the operating system answers, every call of the handler
  -- sends on its own socket, or connects to the host of a request that some specification for that
  -- kind of socket permits, or binds the UDP socket for such a request to 0.0.0.0:0.
  pub handle-IsHandlerCall :
      (messages : List (Nix (List ℕ)))
      → Makes (IsHandlerCall view specs socket) (handle os view specs socket messages)
  unfolding handle
  handle-IsHandlerCall messages = handle_loop-Makes _ messages

  continue-ne_ok :
      (r : Outcome ⊤) (k : M ⊤) (h : History) {h' : History}
      → ((h1 h2 : History) → k h1 ≢ (ok tt, h2))
      → continue r (λ _. k) h ≢ (ok tt, h')
  continue-ne_ok (ok a) k h never e = never h _ e
  continue-ne_ok (err x) k h never e = cc
  continue-ne_ok panic k h never e = cc
  continue-ne_ok (exit n) k h never e = cc
  continue-ne_ok (exec p args) k h never e = cc
  continue-ne_ok blocked k h never e = cc
  continue-ne_ok undefined k h never e = cc

  handle_loop-ne_ok :
      (buf : List ℕ) (messages : List (Nix (List ℕ))) (h h' : History)
      → handle_loop os view specs socket buf messages h ≢ (ok tt, h')
  unfolding handle_loop ◌>>=◌
  handle_loop-ne_ok buf [] h h' e = cc
  handle_loop-ne_ok buf (fail x ∷ rest) h h' e = cc
  handle_loop-ne_ok buf (done msg ∷ rest) h h' e =
      let (r, h1) =
        handle_message os view specs socket (receive buf msg) (min (length msg) (length buf)) h in
      continue-ne_ok r _ h1 (handle_loop-ne_ok (receive buf msg) rest) e

  -- Whatever messages arrive and whatever the operating system answers, the handler never returns:
  -- the child that `Arg::Rpc` forks does not go on to run what follows.
  pub handle-ne_ok :
      (messages : List (Nix (List ℕ))) (h h' : History)
      → handle os view specs socket messages h ≢ (ok tt, h')
  unfolding handle
  handle-ne_ok messages = handle_loop-ne_ok _ messages

-- The buffer keeps its length, whatever is received.
length-receive : (buf msg : List ℕ) → length (receive buf msg) ≡ length buf
unfolding receive
length-receive [] [] = refl
length-receive [] (m ∷ msg) = refl
length-receive (b ∷ buf) [] = omega (arith, length-receive buf [])
length-receive (b ∷ buf) (m ∷ msg) = omega (arith, length-receive buf msg)

receive-nil : (buf : List ℕ) → receive buf [] ≡ buf
unfolding receive
receive-nil [] = refl
receive-nil (b ∷ buf) = refl

receive_prefix :
    (buf msg : List ℕ) (n : ℕ) → receive (receive buf msg) (take n msg) ≡ receive buf msg
unfolding receive
receive_prefix [] [] zero = refl
receive_prefix [] [] (suc n) = refl
receive_prefix [] (m ∷ msg) zero = refl
receive_prefix [] (m ∷ msg) (suc n) = refl
receive_prefix (b ∷ buf) [] zero = refl
receive_prefix (b ∷ buf) [] (suc n) = refl
receive_prefix (b ∷ buf) (m ∷ msg) zero = receive-nil (m ∷ receive buf msg)
receive_prefix (b ∷ buf) (m ∷ msg) (suc n) = ap (λ t. m ∷ t) (receive_prefix buf msg n)

module _ (os : Os) (view : List ℕ → OpenSocket) (specs : List RpcSpecification) (socket : Fd) where
  -- After a message of 4 bytes or more, a message that is only its first 4 bytes is handled exactly
  -- as the whole message was: the bytes behind the end of a message are those of earlier ones, and
  -- they are read as part of it.
  pub header_replays :
      (buf msg : List ℕ) (n : ℕ)
      → 4 ≤ n
      → handle_message os view specs socket (receive (receive buf msg) (take 4 msg)) 4
        ≡ handle_message os view specs socket (receive buf msg) n
  unfolding handle_message
  header_replays buf msg n long =
      let enough : ltb n 4 ≡ false = ground arith in rw (receive_prefix buf msg 4, enough) refl
