-- ===== src/Spawner/Argv.antt =====
-- spawner/args.rs: the arguments that have been prepared, and the phase that turns them into the
-- texts of `execv` in the void.
use void_orchestrator.Base.{String, Option, some, List, [], ◌∷◌, ◌++◌}
use void_orchestrator.Base.Options.{◌>>=◌}
use void_orchestrator.Text.{as_bytes}
use void_orchestrator.Utf8.{c_string}
use void_orchestrator.RpcMessage.{Fd}
use void_orchestrator.Specification.{Utf8}
use void_orchestrator.Spawner.State.{Spawner, TriggerData, fd_arg, trigger_args}

-- `PreparedArg`
pub data PreparedArg : Type 0 where
  binary_name : PreparedArg
  entrypoint : PreparedArg
  file : Fd → PreparedArg
  pipe : Fd → PreparedArg
  file_socket : Fd → PreparedArg
  trigger : PreparedArg
  tcp_listener : Fd → PreparedArg
  rpc : Fd → PreparedArg
  trailing : PreparedArg

-- `vec![CString::new(text).unwrap()]`, beside the trigger's data.
abbrev pub one_text : TriggerData → Option Utf8 → Option (List Utf8 × TriggerData)
one_text t text = do s ← text; some (s ∷ [], t)

-- `texts.map(|s| CString::new(s).unwrap()).collect()`
unfoldable pub c_strings : List Utf8 → Option (List Utf8)
unfolding c_string
c_strings [] = some []
c_strings (s ∷ texts) = do c ← c_string s; cs ← c_strings texts; some (c ∷ cs)

-- `PreparedArg::prepare_void`, and the trigger's data afterwards. It panics, as `none` says, where a
-- text holds a zero.
unfoldable pub prepare_void_arg :
    Spawner → String → TriggerData → PreparedArg → Option (List Utf8 × TriggerData)
unfolding c_string c_strings fd_arg trigger_args as_bytes
prepare_void_arg sp name t PreparedArg.binary_name = one_text t (c_string sp.binary.bytes)
prepare_void_arg sp name t PreparedArg.entrypoint = one_text t (c_string (as_bytes name))
prepare_void_arg sp name t (PreparedArg.pipe fd) = one_text t (fd_arg fd)
prepare_void_arg sp name t (PreparedArg.file_socket fd) = one_text t (fd_arg fd)
prepare_void_arg sp name t (PreparedArg.file fd) = one_text t (fd_arg fd)
prepare_void_arg sp name t PreparedArg.trigger = trigger_args t
prepare_void_arg sp name t (PreparedArg.tcp_listener fd) = one_text t (fd_arg fd)
prepare_void_arg sp name t (PreparedArg.rpc fd) = one_text t (fd_arg fd)
prepare_void_arg sp name t PreparedArg.trailing = do cs ← c_strings sp.binary_args; some (cs, t)

-- `PreparedArgs::prepare_void`
unfoldable pub prepare_void : Spawner → String → TriggerData → List PreparedArg → Option (List Utf8)
unfolding prepare_void_arg
prepare_void sp name t [] = some []
prepare_void sp name t (a ∷ args) = do
  (texts, t') ← prepare_void_arg sp name t a
  rest ← prepare_void sp name t' args
  some (texts ++ rest)
