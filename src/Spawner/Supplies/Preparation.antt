-- ===== src/Spawner/Supplies/Preparation.antt =====
-- spawner/args.rs: how the preparation of arguments can end whose ends the spawner still holds.
use void_orchestrator.Base.{◌≤◌, ◌≡◌, refl, inl, inr, String, string_eq, none, List, [], ◌∷◌, arith}
use void_orchestrator.Base.Maps.{get}
use void_orchestrator.RpcMessage.{Fd}
use void_orchestrator.Specification.{Arg, Pipe, FileSocket}
use void_orchestrator.Specification.Counts.{bit}
use void_orchestrator.Program.Yields.{
  Yields, Anything, Yields-pure, Yields-bind, Yields-or_err, Yields-or_panic,
}
use void_orchestrator.Resources.PipePair.{PipePair}
use void_orchestrator.Resources.PipePair
use void_orchestrator.Resources.SocketPair.{SocketPair, write as write_end}
use void_orchestrator.Resources.SocketPair
use void_orchestrator.Void.{VoidBuilder}
use void_orchestrator.Spawner.State.{Spawner, World}
use void_orchestrator.Spawner.Arguments.{
  take_pipe_read, take_pipe_write, take_socket_read, prepare_other_arg, prepare_ambient_mut_arg,
  prepare_ambient_mut,
}
use void_orchestrator.Spawner.Supplies.{HasPair, Needs, ◌⊕◌, arg_needs, args_needs, Supplies}
use void_orchestrator.Spawner.Supplies.Ends.{
  Provides-mono, Knows-mono, Provides-found, Provides-taken, Provides-kept, Knows-kept,
}
use void_orchestrator.Spawner.Supplies.Parent.{IsParent}
use void_orchestrator.Spawner.Supplies.Shared.{IsShared, prepare_ambient_arg-Yields}

-- What supplies more supplies less.
pub Supplies-mono :
    {sp : Spawner} (c d : Needs)
    → ((n : String) → d.pipe_reads n ≤ c.pipe_reads n)
    → ((n : String) → d.pipe_writes n ≤ c.pipe_writes n)
    → ((n : String) → d.socket_reads n ≤ c.socket_reads n)
    → ((n : String) → d.sockets n ≤ c.sockets n)
    → Supplies c sp
    → Supplies d sp
Supplies-mono c d pr pw sr sk s = record {
  reads = Provides-mono c.pipe_reads d.pipe_reads pr s.reads;
  writes = Provides-mono c.pipe_writes d.pipe_writes pw s.writes;
  receives = Provides-mono c.socket_reads d.socket_reads sr s.receives;
  known = Knows-mono c.sockets d.sockets sk s.known;
}

Supplies-rest : {sp : Spawner} (c d : Needs) → Supplies (c ⊕ d) sp → Supplies d sp
Supplies-rest c d =
    Supplies-mono (c ⊕ d) d (λ n. omega arith) (λ n. omega arith) (λ n. omega arith)
      (λ n. omega arith)

-- What is needed when one reading end of a pipe is.
abbrev pub one_read : String → Needs
one_read s = record {
  pipe_reads = λ n. bit s n;
  pipe_writes = λ n. 0;
  socket_reads = λ n. 0;
  sockets = λ n. 0;
}

abbrev pub one_write : String → Needs
one_write s = record {
  pipe_reads = λ n. 0;
  pipe_writes = λ n. bit s n;
  socket_reads = λ n. 0;
  sockets = λ n. 0;
}

abbrev pub one_receive : String → Needs
one_receive s = record {
  pipe_reads = λ n. 0;
  pipe_writes = λ n. 0;
  socket_reads = λ n. bit s n;
  sockets = λ n. bit s n;
}

-- A descriptor, and a spawner that supplies what is still needed.
abbrev pub Took : Needs → Fd × Spawner → Type 0
Took d (fd, sp) = Supplies d sp

module _ (d : Needs) (sp : Spawner) (s : String) where
  pub take_pipe_read-Yields : Supplies (one_read s ⊕ d) sp → Yields (Took d) (take_pipe_read sp s)
  unfolding take_pipe_read PipePair.take_read
  take_pipe_read-Yields supplied =
      let needs = one_read s ⊕ d in
      let rest = Supplies-rest (one_read s) d supplied in
      let (p, fd, there, open_end) =
        Provides-found (λ (p : PipePair). p.read) sp.pipes s needs.pipe_reads d.pipe_reads
          (λ n. refl) supplied.reads in
      Yields-bind _ _ (Yields-or_panic {R = λ q. q ≡ p} (get s sp.pipes) p there refl) λ q is_p.
        rw is_p (
          Yields-bind _ _ (Yields-or_err {R = Anything} _ fd (rw open_end refl) tt) λ fd' _.
            Yields-pure _ (record {
              reads =
                  Provides-taken (λ (p : PipePair). p.read) sp.pipes s needs.pipe_reads d.pipe_reads
                    (λ n. refl) supplied.reads (record p { read = none });
              writes =
                  Provides-kept sp.pipes s p (record p { read = none }) there
                    (λ (p : PipePair). p.write) d.pipe_writes refl rest.writes;
              receives = rest.receives;
              known = rest.known;
            }))

  pub take_pipe_write-Yields :
      Supplies (one_write s ⊕ d) sp → Yields (Took d) (take_pipe_write sp s)
  unfolding take_pipe_write PipePair.take_write
  take_pipe_write-Yields supplied =
      let needs = one_write s ⊕ d in
      let rest = Supplies-rest (one_write s) d supplied in
      let (p, fd, there, open_end) =
        Provides-found (λ (p : PipePair). p.write) sp.pipes s needs.pipe_writes d.pipe_writes
          (λ n. refl) supplied.writes in
      Yields-bind _ _ (Yields-or_panic {R = λ q. q ≡ p} (get s sp.pipes) p there refl) λ q is_p.
        rw is_p (
          Yields-bind _ _ (Yields-or_err {R = Anything} _ fd (rw open_end refl) tt) λ fd' _.
            Yields-pure _ (record {
              reads =
                  Provides-kept sp.pipes s p (record p { write = none }) there
                    (λ (p : PipePair). p.read) d.pipe_reads refl rest.reads;
              writes =
                  Provides-taken (λ (p : PipePair). p.write) sp.pipes s needs.pipe_writes
                    d.pipe_writes (λ n. refl) supplied.writes (record p { write = none });
              receives = rest.receives;
              known = rest.known;
            }))

  pub take_socket_read-Yields :
      Supplies (one_receive s ⊕ d) sp → Yields (Took d) (take_socket_read sp s)
  unfolding take_socket_read SocketPair.take_read
  take_socket_read-Yields supplied =
      let needs = one_receive s ⊕ d in
      let rest = Supplies-rest (one_receive s) d supplied in
      let (p, fd, there, open_end) =
        Provides-found (λ (p : SocketPair). p.read) sp.sockets s needs.socket_reads d.socket_reads
          (λ n. refl) supplied.receives in
      Yields-bind _ _ (Yields-or_panic {R = λ q. q ≡ p} (get s sp.sockets) p there refl) λ q is_p.
        rw is_p (
          Yields-bind _ _ (Yields-or_err {R = Anything} _ fd (rw open_end refl) tt) λ fd' _.
            Yields-pure _ (record {
              reads = rest.reads;
              writes = rest.writes;
              receives =
                  Provides-taken (λ (p : SocketPair). p.read) sp.sockets s needs.socket_reads
                    d.socket_reads (λ n. refl) supplied.receives (record p { read = none });
              known = Knows-kept sp.sockets s (record p { read = none }) d.sockets rest.known;
            }))

-- An argument that has been prepared, and a spawner that supplies what is still needed.
abbrev pub Prepared : {A : Type 0} → Needs → A × Spawner × VoidBuilder → Type 0
Prepared d (p, sp, b) = Supplies d sp

module _ (w : World) (parent : IsParent w.os) where
  module _ (d : Needs) (sp : Spawner) (b : VoidBuilder) where
    socket_known :
        (s : String)
        → Supplies (arg_needs (Arg.file_socket (FileSocket.tx s)) ⊕ d) sp
        → HasPair sp.sockets s
    socket_known s supplied = elim (supplied.known s) [
      | inl none_left ↦ absurd (ground (arith, string_eq.beq_iff s s))
      | inr has ↦ has
    ]

    prepare_other_arg-Yields :
        (a : Arg)
        → Supplies (arg_needs a ⊕ d) sp
        → IsShared sp a
        → Yields (Prepared d) (prepare_other_arg w sp b a)
    unfolding prepare_other_arg
    prepare_other_arg-Yields a supplied shared =
        let rest = Supplies-rest (arg_needs a) d supplied in
        Yields-bind _ _ (prepare_ambient_arg-Yields w parent sp b a shared)
          λ (p, b') _. Yields-pure _ rest

    prepare_ambient_mut_arg-Yields :
        (a : Arg)
        → Supplies (arg_needs a ⊕ d) sp
        → Yields (Prepared d) (prepare_ambient_mut_arg w sp b a)
    unfolding prepare_ambient_mut_arg
    prepare_ambient_mut_arg-Yields (Arg.pipe (Pipe.rx s)) supplied =
        Yields-bind _ _ (take_pipe_read-Yields d sp s supplied) λ (fd, sp') t. Yields-pure _ t
    prepare_ambient_mut_arg-Yields (Arg.pipe (Pipe.tx s)) supplied =
        Yields-bind _ _ (take_pipe_write-Yields d sp s supplied) λ (fd, sp') t. Yields-pure _ t
    prepare_ambient_mut_arg-Yields (Arg.file_socket (FileSocket.rx s)) supplied =
        let a = Arg.file_socket (FileSocket.rx s) in
        let one =
          Supplies-mono (arg_needs a ⊕ d) (one_receive s ⊕ d) (λ n. omega arith) (λ n. omega arith)
            (λ n. omega arith) (λ n. omega arith) supplied in
        Yields-bind _ _ (take_socket_read-Yields d sp s one) λ (fd, sp') t. Yields-pure _ t
    prepare_ambient_mut_arg-Yields (Arg.file_socket (FileSocket.tx s)) supplied =
        prepare_other_arg-Yields (Arg.file_socket (FileSocket.tx s)) supplied
          (socket_known s supplied)
    prepare_ambient_mut_arg-Yields (Arg.file path) supplied =
        prepare_other_arg-Yields (Arg.file path) supplied tt
    prepare_ambient_mut_arg-Yields (Arg.tcp_listener addr) supplied =
        prepare_other_arg-Yields (Arg.tcp_listener addr) supplied tt
    prepare_ambient_mut_arg-Yields (Arg.rpc specs) supplied =
        prepare_other_arg-Yields (Arg.rpc specs) supplied tt
    prepare_ambient_mut_arg-Yields Arg.binary_name supplied =
        prepare_other_arg-Yields Arg.binary_name supplied tt
    prepare_ambient_mut_arg-Yields Arg.entrypoint supplied =
        prepare_other_arg-Yields Arg.entrypoint supplied tt
    prepare_ambient_mut_arg-Yields Arg.trigger supplied =
        prepare_other_arg-Yields Arg.trigger supplied tt
    prepare_ambient_mut_arg-Yields Arg.trailing supplied =
        prepare_other_arg-Yields Arg.trailing supplied tt

  pub prepare_ambient_mut-Yields :
      (d : Needs) (sp : Spawner) (b : VoidBuilder) (args : List Arg)
      → Supplies (args_needs args ⊕ d) sp
      → Yields (Prepared d) (prepare_ambient_mut w sp b args)
  unfolding prepare_ambient_mut
  prepare_ambient_mut-Yields d sp b [] supplied =
      Yields-pure _ (Supplies-rest (args_needs []) d supplied)
  prepare_ambient_mut-Yields d sp b (a ∷ args) supplied =
      let later = args_needs args ⊕ d in
      let first =
        Supplies-mono (args_needs (a ∷ args) ⊕ d) (arg_needs a ⊕ later) (λ n. omega arith)
          (λ n. omega arith) (λ n. omega arith) (λ n. omega arith) supplied in
      Yields-bind _ _ (prepare_ambient_mut_arg-Yields later sp b a first) λ (p, sp1, b1) s1.
        Yields-bind _ _ (prepare_ambient_mut-Yields d sp1 b1 args s1)
          λ (ps, sp2, b2) s2. Yields-pure _ s2
