-- ===== src/Examples/Tls/Given.antt =====
-- examples/tls/main.rs and spawner/args.rs: the descriptors on which the entrypoints run.
use void_orchestrator.Base.{false, ◌<◌, ◌^◌, ◌≡◌, refl, ◌∙◌, String, List, [], ◌∷◌, nat_eq, ⊤}
use void_orchestrator.Text.{codes, as_bytes, decimal}
use void_orchestrator.Utf8.{c_string, from_utf8}
use void_orchestrator.RpcMessage.{Fd}
use void_orchestrator.Specification.{Utf8}
use void_orchestrator.Sys.{History}
use void_orchestrator.Program.{M, ◌>>=◌}
use void_orchestrator.Spawner.Executes.{Executes, prepare_void-Executes}
use void_orchestrator.Spawner.State.{World, Spawner, TriggerData, fd_args, trigger_args}
use void_orchestrator.Spawner.Argv.{PreparedArg, prepare_void_arg, prepare_void}
use void_orchestrator.Spawner.Texts.{fd_arg-decimal}
use void_orchestrator.Examples.Argv.Numbers.{reads_fd}
use void_orchestrator.Examples.Listener.{listen}
use void_orchestrator.Examples.Http.{serve_http}
use void_orchestrator.Examples.TlsHandler.{serve_tls}
use void_orchestrator.Examples.Tls.{
  Outside, exiting, connection_listener_entrypoint, tls_handler_entrypoint, http_handler_entrypoint,
  tls_entrypoint, tls_main,
}

-- The descriptor fits an `i32`, as every descriptor does.
abbrev pub IsRawFd : Fd → Type 0
IsRawFd fd = fd < 2 ^ 31

-- The closure that the child of an entrypoint runs in its void calls execv(2) with some texts, and
-- nothing else before; and a program that is started with them comes to this run.
abbrev pub StartsAs :
    Outside → World → Spawner → String → TriggerData → List PreparedArg → M ⊤ → Type 0
StartsAs o w sp name t ps m =
    (argv : List Utf8) × Executes w sp name t ps argv × ((h : History) → tls_main o argv h ≡ m h)

module _ (o : Outside) (w : World) (sp : Spawner) (not_debug : sp.debug ≡ false) where
  listener-StartsAs :
      (trigger listener : Fd)
      → IsRawFd trigger
      → IsRawFd listener
      → StartsAs o w sp "connection_listener" TriggerData.nothing
          (PreparedArg.entrypoint
            ∷ PreparedArg.file_socket trigger
            ∷ PreparedArg.tcp_listener listener
            ∷ [])
          (exiting (listen o.os trigger listener o.running))
  unfolding prepare_void prepare_void_arg c_string as_bytes tls_main tls_entrypoint ◌>>=◌ codes
      connection_listener_entrypoint from_utf8
  listener-StartsAs trigger listener t l =
      let argv = as_bytes "connection_listener" ∷ decimal trigger ∷ decimal listener ∷ [] in
      (
        argv,
        prepare_void-Executes w sp _ _ _ argv not_debug
            (rw (fd_arg-decimal trigger, fd_arg-decimal listener) refl),
        λ h. reads_fd argv 1 trigger _ h refl t ∙ reads_fd argv 2 listener _ h refl l,
      )

  tls_handler-StartsAs :
      (trigger cert key stream : Fd)
      → IsRawFd trigger
      → IsRawFd cert
      → IsRawFd key
      → IsRawFd stream
      → StartsAs o w sp "tls_handler"
          (TriggerData.file_socket (stream ∷ []))
          (PreparedArg.entrypoint
            ∷ PreparedArg.file_socket trigger
            ∷ PreparedArg.file cert
            ∷ PreparedArg.file key
            ∷ PreparedArg.trigger
            ∷ [])
          (exiting (serve_tls o.os o.tls trigger (o.pem cert key) stream (o.turns stream)))
  unfolding prepare_void prepare_void_arg c_string as_bytes trigger_args fd_args tls_main
      tls_entrypoint ◌>>=◌ codes tls_handler_entrypoint from_utf8
  tls_handler-StartsAs trigger cert key stream t c k s =
      let argv =
        as_bytes "tls_handler"
        ∷ decimal trigger
        ∷ decimal cert
        ∷ decimal key
        ∷ decimal stream
        ∷ [] in
      (
        argv,
        prepare_void-Executes w sp _ _ _ argv not_debug (
            rw
              (
                fd_arg-decimal trigger,
                fd_arg-decimal cert,
                fd_arg-decimal key,
                fd_arg-decimal stream,
              )
              refl),
        λ h.
            reads_fd argv 1 trigger _ h refl t
            ∙ (reads_fd argv 2 cert _ h refl c
                ∙ (reads_fd argv 3 key _ h refl k ∙ reads_fd argv 4 stream _ h refl s)),
      )

  http_handler-StartsAs :
      (stream : Fd)
      → IsRawFd stream
      → StartsAs o w sp "http_handler"
          (TriggerData.file_socket (stream ∷ []))
          (PreparedArg.entrypoint ∷ PreparedArg.trigger ∷ [])
          (exiting (serve_http o.os o.parse stream (o.reads stream)))
  unfolding prepare_void prepare_void_arg c_string as_bytes trigger_args fd_args tls_main
      tls_entrypoint ◌>>=◌ codes http_handler_entrypoint from_utf8
  http_handler-StartsAs stream s =
      let argv = as_bytes "http_handler" ∷ decimal stream ∷ [] in
      (
        argv,
        prepare_void-Executes w sp _ _ _ argv not_debug (rw (fd_arg-decimal stream) refl),
        λ h. reads_fd argv 1 stream _ h refl s,
      )

  -- Where the spawner does not stop for debugging: for each of the three entrypoints, the closure that
  -- is run in its void calls execv(2) and nothing before it, with texts that it makes of the arguments
  -- of the specification; and the program that is started with these texts runs on exactly the descriptors that the spawner prepared, each in
  -- its role: the listener on the socket of its trigger and the listening socket; the decryption on
  -- the socket of its trigger, the two files and the connection that triggered it; and the server on
  -- the connection that triggered it. It exits with the code that this comes to.
  pub entrypoints-StartAs :
      (trigger listener cert key stream : Fd)
      → IsRawFd trigger
      → IsRawFd listener
      → IsRawFd cert
      → IsRawFd key
      → IsRawFd stream
      → StartsAs o w sp "connection_listener" TriggerData.nothing
          (PreparedArg.entrypoint
            ∷ PreparedArg.file_socket trigger
            ∷ PreparedArg.tcp_listener listener
            ∷ [])
          (exiting (listen o.os trigger listener o.running))
        × StartsAs o w sp "tls_handler"
            (TriggerData.file_socket (stream ∷ []))
            (PreparedArg.entrypoint
              ∷ PreparedArg.file_socket trigger
              ∷ PreparedArg.file cert
              ∷ PreparedArg.file key
              ∷ PreparedArg.trigger
              ∷ [])
            (exiting (serve_tls o.os o.tls trigger (o.pem cert key) stream (o.turns stream)))
        × StartsAs o w sp "http_handler"
            (TriggerData.file_socket (stream ∷ []))
            (PreparedArg.entrypoint ∷ PreparedArg.trigger ∷ [])
            (exiting (serve_http o.os o.parse stream (o.reads stream)))
  entrypoints-StartAs trigger listener cert key stream t l c k s = (
    listener-StartsAs trigger listener t l,
    tls_handler-StartsAs trigger cert key stream t c k s,
    http_handler-StartsAs stream s,
  )
