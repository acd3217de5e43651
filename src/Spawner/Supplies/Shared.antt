-- ===== src/Spawner/Supplies/Shared.antt =====
-- spawner/args.rs: how the preparation of arguments can end that any number of entrypoints can have.
use void_orchestrator.Base.{String, string_eq}
use void_orchestrator.Base.Maps.{get}
use void_orchestrator.Specification.{Arg, FileSocket}
use void_orchestrator.Sys.{Call}
use void_orchestrator.Program.Yields.{
  Yields, Anything, Yields-bind, Yields-or_panic, Yields-any-call, Yields-any-or_nix,
  Yields-any-or_io, Yields-any-pure,
}
use void_orchestrator.Resources.SocketPair.{write as write_end}
use void_orchestrator.Void.{VoidBuilder}
use void_orchestrator.Spawner.State.{Spawner, World}
use void_orchestrator.Spawner.Arguments.{write_socket, prepare_ambient_arg}
use void_orchestrator.Spawner.Supplies.{HasPair}
use void_orchestrator.Spawner.Supplies.Parent.{IsParent, prepare_rpc-Yields}

-- An argument that any number of entrypoints can have: no end that only one entrypoint can have, and of
-- the sockets only those that there are.
abbrev pub IsShared : Spawner → Arg → Type 0
IsShared sp (Arg.pipe p) = ⊥
IsShared sp (Arg.file_socket (FileSocket.rx s)) = ⊥
IsShared sp (Arg.file_socket (FileSocket.tx s)) = HasPair sp.sockets s
IsShared sp _ = Unit

module _ (w : World) (parent : IsParent w.os) where
  write_socket-Yields :
      (sp : Spawner) (s : String) → HasPair sp.sockets s → Yields Anything (write_socket w sp s)
  unfolding write_socket write_end
  write_socket-Yields sp s (p, there) =
      Yields-bind _ _ (Yields-or_panic {R = Anything} (get s sp.sockets) p there tt) λ q _.
        Yields-bind _ _ (Yields-any-call w.os (Call.dup q.write)) λ r _. Yields-any-or_nix "dup" r

  pub prepare_ambient_arg-Yields :
      (sp : Spawner) (b : VoidBuilder) (a : Arg)
      → IsShared sp a
      → Yields Anything (prepare_ambient_arg w sp b a)
  unfolding prepare_ambient_arg
  prepare_ambient_arg-Yields sp b (Arg.pipe p) shared = absurd shared
  prepare_ambient_arg-Yields sp b (Arg.file_socket (FileSocket.rx s)) shared = absurd shared
  prepare_ambient_arg-Yields sp b (Arg.file_socket (FileSocket.tx s)) has =
      Yields-bind _ _ (write_socket-Yields sp s has) λ fd _. Yields-any-pure _
  prepare_ambient_arg-Yields sp b (Arg.file path) shared =
      Yields-bind _ _ (Yields-any-call w.os (Call.open_read path))
        λ r _. Yields-bind _ _ (Yields-any-or_io r) λ fd _. Yields-any-pure _
  prepare_ambient_arg-Yields sp b (Arg.tcp_listener addr) shared =
      Yields-bind _ _ (Yields-any-call w.os (Call.bind_listener addr))
        λ r _. Yields-bind _ _ (Yields-any-or_io r) λ fd _. Yields-any-pure _
  prepare_ambient_arg-Yields sp b (Arg.rpc specs) shared =
      Yields-bind _ _ (prepare_rpc-Yields w parent specs) λ fd _. Yields-any-pure _
  prepare_ambient_arg-Yields sp b Arg.binary_name shared = Yields-any-pure _
  prepare_ambient_arg-Yields sp b Arg.entrypoint shared = Yields-any-pure _
  prepare_ambient_arg-Yields sp b Arg.trigger shared = Yields-any-pure _
  prepare_ambient_arg-Yields sp b Arg.trailing shared = Yields-any-pure _
