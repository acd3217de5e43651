-- ===== src/Tests/Programs.antt =====
-- The theorems on the example programs, and on the texts that they are started with, at concrete
-- inputs.
use void_orchestrator.Base.{
  ℕ, ◌^◌, ◌%◌, ◌≡◌, refl, sym, ap, true, false, Option, some, none, List, [], ◌∷◌, ◌++◌, arith, ltb,
  length, nat_eq, if◌then◌else◌,
}
use void_orchestrator.Text.{as_bytes}
use void_orchestrator.Utf8.{from_utf8}
use void_orchestrator.Sys.{History, Io, done}
use void_orchestrator.Spawner.State.{TriggerData}
use void_orchestrator.Spawner.Argv.{PreparedArg}
use void_orchestrator.Spawner.Triggers.{pipe_data}
use void_orchestrator.Spawner.Passes.{AreClean, MadeAndPasses, prepare_void-Passes}
use void_orchestrator.Examples.Fib.{fib}
use void_orchestrator.Examples.Fib.Fibonacci.{fibonacci, fib-fibonacci}
use void_orchestrator.Examples.Pipes.{pipe_sender, pipe_receiver}
use void_orchestrator.Examples.Pipes.Given.{
  Prints, IsArgument, PipesStartAs, entrypoints-PipesStartAs,
}
use void_orchestrator.Examples.Listener.{listen}
use void_orchestrator.Examples.Listener.Relay.{RelayedButLast, listen-Relayed}
use void_orchestrator.Examples.Http.{Parsed, partial, complete, padded, requested, serve_http}
use void_orchestrator.Examples.Http.Answers.{Arrives, whole, piece, Responds, serve_http-Answered}
use void_orchestrator.Examples.TlsHandler.Connection.{Pem, Rustls, rsa_key}
use void_orchestrator.Examples.TlsHandler.{Turn, handle_new_data, serve_tls}
use void_orchestrator.Examples.TlsHandler.Forwarding.{
  KeepsPlaintext, Forwarded, handle_new_data-Forwarded,
}
use void_orchestrator.Examples.Tls.{Outside, exiting}
use void_orchestrator.Examples.Tls.Given.{StartsAs, entrypoints-StartAs}
use void_orchestrator.Program.Runs.{Makes}
use void_orchestrator.Examples.Http.Root.{IsHttpCall, serve_http-IsHttpCall}
use void_orchestrator.Examples.TlsHandler.Serving.{Serves, serve_tls-Serves}
use void_orchestrator.Tests.{system}
use void_orchestrator.Tests.Launching.{world}
use void_orchestrator.Tests.Entrypoints.{spawner}

spawner-AreClean : AreClean spawner "worker"
unfolding as_bytes
spawner-AreClean = record { binary = refl; entrypoint = refl; trailing = tt }

-- "hi"
abbrev hi : List ℕ
hi = 104 ∷ 105 ∷ []

prepare_void-Passes_example :
    MadeAndPasses spawner "worker"
      (TriggerData.pipe hi)
      (PreparedArg.binary_name ∷ PreparedArg.pipe 7 ∷ PreparedArg.trigger ∷ [])
prepare_void-Passes_example =
    prepare_void-Passes spawner "worker" spawner-AreClean (TriggerData.pipe hi)
      (PreparedArg.binary_name ∷ PreparedArg.pipe 7 ∷ PreparedArg.trigger ∷ []) refl

fib-fibonacci_example : (fib false 93 ≡ some (fibonacci 93 % 2 ^ 64)) × (fib true 93 ≡ none)
fib-fibonacci_example = fib-fibonacci 93

binary-IsArgument : IsArgument spawner.binary.bytes
unfolding from_utf8
binary-IsArgument = record { unicode = refl; clean = refl }

hi-IsArgument : IsArgument hi
unfolding from_utf8
hi-IsArgument = record { unicode = refl; clean = refl }

entrypoints-PipesStartAs_example :
    PipesStartAs world spawner 12 refl binary-IsArgument "pipe_sender" TriggerData.nothing
      (PreparedArg.binary_name ∷ PreparedArg.entrypoint ∷ PreparedArg.pipe 7 ∷ [])
      (pipe_sender world.os 7)
    × (pipe_data world hi ≡ some (TriggerData.pipe hi))
    × PipesStartAs world spawner 12 refl binary-IsArgument "pipe_receiver"
        (TriggerData.pipe hi)
        (PreparedArg.binary_name ∷ PreparedArg.entrypoint ∷ PreparedArg.trigger ∷ [])
        (pipe_receiver world.os 12 hi)
    × ((h : History) → Prints world.os 12 hi h (pipe_receiver world.os 12 hi h))
entrypoints-PipesStartAs_example =
    entrypoints-PipesStartAs world spawner 12 refl binary-IsArgument 7 hi (omega arith)
      hi-IsArgument

listen-Relayed_example :
    RelayedButLast (system 0) 3 4 (listen (system 0) 3 4 (true ∷ true ∷ false ∷ []) []).1
listen-Relayed_example = listen-Relayed (system 0) 3 4 (true ∷ true ∷ false ∷ []) [] refl

-- "GET" and "/a"
abbrev get_method : Option (List ℕ)
get_method = some (71 ∷ 69 ∷ 84 ∷ [])

abbrev some_path : Option (List ℕ)
some_path = some (47 ∷ 97 ∷ [])

-- A parser that wants more than 4096 bytes.
abbrev parse : List ℕ → Parsed
parse bytes = if ltb 4096 (length bytes) then complete get_method some_path else partial

abbrev two_reads : List (Io (List ℕ))
two_reads = done (71 ∷ []) ∷ done (69 ∷ []) ∷ []

two_reads-Arrives : Arrives parse [] two_reads get_method some_path
unfolding padded
two_reads-Arrives = piece refl refl (whole refl refl)

serve_http-Answered_example :
    Responds
      (system 0)
      7
      []
      (requested get_method some_path)
      (serve_http (system 0) parse 7 two_reads [])
serve_http-Answered_example =
    serve_http-Answered (system 0) 7 parse two_reads get_method some_path [] two_reads-Arrives

-- A connection that keeps its plaintext and always has a byte to write.
abbrev plain : Rustls
plain = record {
  Config = List ℕ;
  with_single_cert = λ certs key. some key;
  Conn = List ℕ;
  new = λ config. some [];
  read_tls = λ c r. (done 0, c);
  process_new_packets = λ c. (done 0, c);
  waiting = λ c. 1 ∷ [];
  written = λ c n. c;
  read_plaintext = λ c n. ([], c);
  write_plaintext = λ c bytes. (done tt, c ++ bytes);
  send_close_notify = λ c. c;
}

abbrev plain-KeepsPlaintext : KeepsPlaintext plain
plain-KeepsPlaintext = record {
  given = λ c. c;
  given-write = λ c bytes c' e. sym (ap (λ t. t.1) e);
  given-written = λ c n. refl;
}

handle_new_data-Forwarded_example :
    Forwarded
      (system 0)
      plain
      plain-KeepsPlaintext
      7
      (1 ∷ [])
      two_reads
      (handle_new_data (system 0) plain 7 two_reads (1 ∷ []) [])
handle_new_data-Forwarded_example =
    handle_new_data-Forwarded (system 0) plain plain-KeepsPlaintext 7 two_reads (1 ∷ []) [] tt

-- A key, and a turn in which there is something to send.
abbrev key_file : Pem
key_file = record { certs = done []; items = done (rsa_key (1 ∷ [])) ∷ [] }

abbrev one_turn : List Turn
one_turn = record { from_stream = []; from_socket = two_reads } ∷ []

serve_tls-Serves_example :
    Serves (system 0) plain 3 7 key_file [] (serve_tls (system 0) plain 3 key_file 7 one_turn [])
serve_tls-Serves_example = serve_tls-Serves (system 0) plain 3 7 key_file one_turn []

serve_http-IsHttpCall_example : Makes (IsHttpCall parse 7) (serve_http (system 0) parse 7 two_reads)
serve_http-IsHttpCall_example = serve_http-IsHttpCall (system 0) parse 7 two_reads

abbrev outside : Outside
outside = record {
  os = system 0;
  parse = parse;
  tls = plain;
  pem = λ cert key. record { certs = done []; items = [] };
  turns = λ stream. [];
  reads = λ stream. two_reads;
  running = true ∷ false ∷ [];
}

entrypoints-StartAs_example :
    StartsAs outside world spawner "connection_listener" TriggerData.nothing
      (PreparedArg.entrypoint ∷ PreparedArg.file_socket 3 ∷ PreparedArg.tcp_listener 4 ∷ [])
      (exiting (listen outside.os 3 4 outside.running))
    × StartsAs outside world spawner "tls_handler"
        (TriggerData.file_socket (7 ∷ []))
        (PreparedArg.entrypoint
          ∷ PreparedArg.file_socket 3
          ∷ PreparedArg.file 5
          ∷ PreparedArg.file 6
          ∷ PreparedArg.trigger
          ∷ [])
        (exiting (serve_tls outside.os outside.tls 3 (outside.pem 5 6) 7 (outside.turns 7)))
    × StartsAs outside world spawner "http_handler"
        (TriggerData.file_socket (7 ∷ []))
        (PreparedArg.entrypoint ∷ PreparedArg.trigger ∷ [])
        (exiting (serve_http outside.os outside.parse 7 (outside.reads 7)))
entrypoints-StartAs_example =
    entrypoints-StartAs outside world spawner refl 3 4 5 6 7 (omega arith) (omega arith)
      (omega arith) (omega arith) (omega arith)
