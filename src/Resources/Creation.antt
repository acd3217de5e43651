-- ===== src/Resources/Creation.antt =====
-- lib.rs: what the maps of pipes and sockets hold when they are created.
use void_orchestrator.Base.{
  ℕ, zero, suc, ◌+◌, ◌≤◌, String, string_eq, ◌==◌, ◌≡◌, ◌⊎◌, inl, inr, refl, ap, sym, ◌∙◌,
  Bool-cases, true, false, Option, none, some, List, [], ◌∷◌, ◌++◌, arith, length, replicate,
  contains, count, contains_iff,
}
use void_orchestrator.Base.Maps.{get, put, get-put}
use void_orchestrator.RpcMessage.{Fd}
use void_orchestrator.Sys.{Call, Os, History}
use void_orchestrator.Program.{M, ok, pure}
use void_orchestrator.Program.Runs.{>>=-eq_ok, call_nix-eq_ok}
use void_orchestrator.Specification.{Specification, pipes, sockets}
use void_orchestrator.Specification.Counts.{
  pipe_readers, pipe_writers, socket_readers, socket_writers, count-pipes, count-sockets,
}
use void_orchestrator.Specification.Soundness.{IsWellFormed}
use void_orchestrator.Resources.{create_each, create_pipes, create_sockets}
use void_orchestrator.Resources.PipePair.{PipePair}
use void_orchestrator.Resources.PipePair
use void_orchestrator.Resources.SocketPair.{SocketPair}
use void_orchestrator.Resources.SocketPair

-- The name has been given a new value in the map, or is none of those created and as it was before.
abbrev pub IsCreated :
    {A : Type 0} → (String → Fd × Fd → A) → List String → String → Option A → Option A → Type 0
IsCreated fresh names n before after =
    ((contains names n ≡ true) × (ends : Fd × Fd) × (after ≡ some (fresh n ends)))
    ⊎ ((contains names n ≡ false) × (after ≡ before))

replicate-cons :
    {A : Type 0} (n : ℕ) (x : A) (xs : List A)
    → replicate n x ++ (x ∷ xs) ≡ x ∷ (replicate n x ++ xs)
replicate-cons zero x xs = refl
replicate-cons (suc n) x xs = ap (λ t. x ∷ t) (replicate-cons n x xs)

module _ {A : Type 0} (new : String → M A) (fresh : String → Fd × Fd → A) (c : Call)
    (new-eq_ok : (name : String) (h h' : History) (a : A)
      → new name h ≡ (ok a, h')
      → (ends : Fd × Fd) × (a ≡ fresh name ends) × (h' ≡ c ∷ h)) where
  IsCreated-cons :
      (name n : String) (names : List String) (ends : Fd × Fd) (map : List (String × A))
      (after : Option A)
      → IsCreated fresh names n (get n (put name (fresh name ends) map)) after
      → IsCreated fresh (name ∷ names) n (get n map) after
  IsCreated-cons name n names ends map after (inl (there, last, e)) = inl (ground arith, last, e)
  IsCreated-cons name n names ends map after (inr (absent, same)) = elim (Bool-cases (name == n)) [
    | inl this ↦
        let e : name ≡ n = (string_eq.beq_iff name n).0 this in
        inl (ground arith, ends, same ∙ rw (get-put, this) (ap (λ k. some (fresh k ends)) e))
    | inr other ↦ inr (ground arith, same ∙ rw (get-put, other) refl)
  ]

  create_each-IsCreated :
      (map : List (String × A)) (names : List String) (h : History) {h' : History}
      {result : List (String × A)}
      → create_each new map names h ≡ (ok result, h')
      → ((n : String) → IsCreated fresh names n (get n map) (get n result))
        × (h' ≡ replicate (length names) c ++ h)
  unfolding create_each pure
  create_each-IsCreated map [] h {result} e =
      (λ n. inr (refl, let same : result ≡ map = cc in ap (get n) same), ap (λ p. p.1) (sym e))
  create_each-IsCreated map (name ∷ names) h e =
      let (a, h1, p, e1) = >>=-eq_ok (new name) _ h e in
      let (ends, made, called) = new-eq_ok name h h1 a p in
      let (rest, calls) = create_each-IsCreated (put name a map) names h1 e1 in
      (
        λ n. IsCreated-cons name n names ends map _ (rw made at rest n),
        calls ∙ rw called (replicate-cons (length names) c h),
      )

module _ (os : Os) where
  pipe-eq_ok :
      (name : String) (h h' : History) (a : PipePair)
      → PipePair.new os name h ≡ (ok a, h')
      → (ends : Fd × Fd) × (a ≡ PipePair.fresh name ends) × (h' ≡ Call.pipe2 ∷ h)
  unfolding PipePair.new pure
  pipe-eq_ok name h h' a e =
      let (ends, e1) = call_nix-eq_ok os _ h Call.pipe2 "pipe2" (λ r. r) e in (ends, cc, cc)

  socket-eq_ok :
      (name : String) (h h' : History) (a : SocketPair)
      → SocketPair.new os name h ≡ (ok a, h')
      → (ends : Fd × Fd) × (a ≡ SocketPair.fresh name ends) × (h' ≡ Call.socketpair ∷ h)
  unfolding SocketPair.new pure
  socket-eq_ok name h h' a e =
      let (ends, e1) = call_nix-eq_ok os _ h Call.socketpair "socketpair" (λ r. r) e in
      (ends, cc, cc)

  -- If `create_pipes` returns, then pipe2(2) has been called once for each of the names and nothing
  -- else has been called, and the map holds for exactly these names a pipe of that name with both
  -- of its ends.
  pub create_pipes-IsCreated :
      (names : List String) (h : History) {h' : History} {result : List (String × PipePair)}
      → create_pipes os names h ≡ (ok result, h')
      → ((n : String) → IsCreated PipePair.fresh names n none (get n result))
        × (h' ≡ replicate (length names) Call.pipe2 ++ h)
  unfolding create_pipes
  create_pipes-IsCreated names h e =
      create_each-IsCreated (PipePair.new os) PipePair.fresh Call.pipe2 pipe-eq_ok [] names h e

  -- If `create_sockets` returns, then socketpair(2) has been called once for each of the names and
  -- nothing else has been called, and the map holds for exactly these names a pair of that name
  -- with both of its ends.
  pub create_sockets-IsCreated :
      (names : List String) (h : History) {h' : History} {result : List (String × SocketPair)}
      → create_sockets os names h ≡ (ok result, h')
      → ((n : String) → IsCreated SocketPair.fresh names n none (get n result))
        × (h' ≡ replicate (length names) Call.socketpair ++ h)
  unfolding create_sockets
  create_sockets-IsCreated names h e =
      create_each-IsCreated (SocketPair.new os) SocketPair.fresh Call.socketpair socket-eq_ok []
        names h e

  named-IsCreated :
      {A : Type 0} (fresh : String → Fd × Fd → A) (names : List String) (n : String)
      (after : Option A)
      → 1 ≤ count n names
      → IsCreated fresh names n none after
      → (ends : Fd × Fd) × (after ≡ some (fresh n ends))
  named-IsCreated fresh names n after some_name (inl (_, ends, made)) = (ends, made)
  named-IsCreated fresh names n after some_name (inr (absent, _)) =
      absurd (ground (arith, contains_iff names n))

  -- In a well-formed specification, every pipe that an entrypoint reads, writes or is triggered by
  -- is in the map that `create_pipes` returns for the specification, with both of its ends.
  pub create_pipes-covers :
      (spec : Specification) (h : History) {h' : History} {result : List (String × PipePair)}
      (n : String)
      → IsWellFormed spec
      → create_pipes os (pipes spec).read h ≡ (ok result, h')
      → 1 ≤ pipe_readers n spec + pipe_writers n spec
      → (ends : Fd × Fd) × (get n result ≡ some (PipePair.fresh n ends))
  create_pipes-covers spec h n formed e used =
      let (made, _) = create_pipes-IsCreated (pipes spec).read h e in
      let paired = formed.pipes_paired n in
      named-IsCreated PipePair.fresh (pipes spec).read n _
        (ground (arith, count-pipes n spec, paired)) (made n)

  -- In a well-formed specification, every socket that an entrypoint reads, writes or is triggered
  -- by is in the map that `create_sockets` returns for the specification, with both of its ends.
  pub create_sockets-covers :
      (spec : Specification) (h : History) {h' : History} {result : List (String × SocketPair)}
      (n : String)
      → IsWellFormed spec
      → create_sockets os (sockets spec).read h ≡ (ok result, h')
      → 1 ≤ socket_readers n spec + socket_writers n spec
      → (ends : Fd × Fd) × (get n result ≡ some (SocketPair.fresh n ends))
  create_sockets-covers spec h n formed e used =
      let (made, _) = create_sockets-IsCreated (sockets spec).read h e in
      let served = formed.sockets_served n in
      named-IsCreated SocketPair.fresh (sockets spec).read n _
        (ground (arith, count-sockets n spec, served)) (made n)
