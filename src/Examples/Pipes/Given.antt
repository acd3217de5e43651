-- ===== src/Examples/Pipes/Given.antt =====
-- examples/pipes/main.rs, spawner/mod.rs and spawner/args.rs: what the two entrypoints are started
-- with, and what they do with it.
use void_orchestrator.Base.{
  ◌++◌, false, ℕ, ◌<◌, ◌^◌, ◌≡◌, refl, String, some, List, [], ◌∷◌, nat_eq, ⊤,
}
use void_orchestrator.Text.{codes, as_bytes, decimal}
use void_orchestrator.Utf8.{c_string, from_utf8}
use void_orchestrator.RpcMessage.{Fd}
use void_orchestrator.Specification.{Utf8}
use void_orchestrator.Sys.{Call, Os, Io, IoError, History, done, fail}
use void_orchestrator.Program.{M, Outcome, ok, panic, pure, give, call, ◌>>=◌, ◌>>◌}
use void_orchestrator.Spawner.State.{Spawner, TriggerData, World, trigger_args}
use void_orchestrator.Spawner.Argv.{PreparedArg, prepare_void_arg, prepare_void}
use void_orchestrator.Spawner.Triggers.{pipe_data}
use void_orchestrator.Spawner.Executes.{Executes, prepare_void-Executes}
use void_orchestrator.Spawner.Passes.{HasNoZero}
use void_orchestrator.Spawner.Texts.{fd_arg-decimal}
use void_orchestrator.Examples.Argv.{unwrap_answer, println, next_arg}
use void_orchestrator.Examples.Argv.Numbers.{reads_fd}
use void_orchestrator.Examples.Pipes.{pipe_sender, pipe_receiver, pipes_entrypoint, pipes_main}

-- A text that can be an argument: it is valid UTF-8 and holds no zero.
pub record IsArgument (s : Utf8) : Type 0 where
  pub unicode : from_utf8 s ≡ some s
  pub clean : HasNoZero s

-- The messages of the receiver.
abbrev pub pid_call : ℕ → Call
pid_call pid = Call.print (codes "hello from pid: " ++ decimal pid)

abbrev pub received_call : Utf8 → Call
received_call received = Call.print (codes "received data: " ++ received)

-- How the receiver ends, with the calls made then: it prints its process id and then what it has
-- received, or printing fails.
pub data Prints (os : Os) (pid : ℕ) (received : Utf8) (h : History)
    : Outcome ⊤ × History → Type 0 where
  prints :
      os h (pid_call pid) ≡ done tt
      → os (pid_call pid ∷ h) (received_call received) ≡ done tt
      → Prints os pid received h (ok tt, received_call received ∷ pid_call pid ∷ h)
  no_pid :
      (e : IoError)
      → os h (pid_call pid) ≡ fail e
      → Prints os pid received h (panic, pid_call pid ∷ h)
  no_data :
      (e : IoError)
      → os h (pid_call pid) ≡ done tt
      → os (pid_call pid ∷ h) (received_call received) ≡ fail e
      → Prints os pid received h (panic, received_call received ∷ pid_call pid ∷ h)

module _ (os : Os) (pid : ℕ) (received : Utf8) (h : History) where
  data-Prints :
      (r : Io ⊤)
      → os h (pid_call pid) ≡ done tt
      → os (pid_call pid ∷ h) (received_call received) ≡ r
      → Prints os pid received h (unwrap_answer r (received_call received ∷ pid_call pid ∷ h))
  unfolding unwrap_answer pure give
  data-Prints (done tt) first answers = prints first answers
  data-Prints (fail e) first answers = no_data e first answers

  pid-Prints :
      (r : Io ⊤)
      → os h (pid_call pid) ≡ r
      → Prints os pid received h (
          (unwrap_answer r >> (call os (received_call received) >>= λ r'. unwrap_answer r'))
            (pid_call pid ∷ h))
  unfolding unwrap_answer ◌>>=◌
  pid-Prints (done tt) answers = data-Prints _ answers refl
  pid-Prints (fail e) answers = no_pid e answers

  pipe_receiver-Prints : Prints os pid received h (pipe_receiver os pid received h)
  unfolding pipe_receiver println ◌>>=◌ codes
  pipe_receiver-Prints = pid-Prints _ refl

module _ (w : World) (sp : Spawner) (pid : ℕ) (not_debug : sp.debug ≡ false)
    (binary : IsArgument sp.binary.bytes) where
  -- The closure that is run in the void calls execv(2) with some texts, and nothing else before; and
  -- the program that is started with them comes to this run.
  abbrev pub PipesStartAs : String → TriggerData → List PreparedArg → M ⊤ → Type 0
  PipesStartAs name t ps m =
      (argv : List Utf8) × Executes w sp name t ps argv
      × ((h : History) → pipes_main w.os pid argv h ≡ m h)

  pub receiver-StartsAs :
      (received : Utf8)
      → IsArgument received
      → PipesStartAs "pipe_receiver"
          (TriggerData.pipe received)
          (PreparedArg.binary_name ∷ PreparedArg.entrypoint ∷ PreparedArg.trigger ∷ [])
          (pipe_receiver w.os pid received)
  unfolding prepare_void prepare_void_arg c_string as_bytes trigger_args pipes_main pipes_entrypoint
      ◌>>=◌ codes next_arg
  receiver-StartsAs received text = (
    sp.binary.bytes ∷ as_bytes "pipe_receiver" ∷ received ∷ [],
    prepare_void-Executes w sp _ _ _ _ not_debug (rw (binary.clean, text.clean) refl),
    λ h. rw (binary.unicode, text.unicode) refl,
  )

  sender-StartsAs :
      (tx_pipe : Fd)
      → tx_pipe < 2 ^ 31
      → PipesStartAs "pipe_sender" TriggerData.nothing
          (PreparedArg.binary_name ∷ PreparedArg.entrypoint ∷ PreparedArg.pipe tx_pipe ∷ [])
          (pipe_sender w.os tx_pipe)
  unfolding prepare_void prepare_void_arg c_string as_bytes trigger_args pipes_main pipes_entrypoint
      ◌>>=◌ codes next_arg
  sender-StartsAs tx_pipe small =
      let argv = sp.binary.bytes ∷ as_bytes "pipe_sender" ∷ decimal tx_pipe ∷ [] in
      (
        argv,
        prepare_void-Executes w sp _ _ _ argv not_debug
            (rw (binary.clean, fd_arg-decimal tx_pipe) refl),
        λ h. rw binary.unicode (reads_fd argv 2 tx_pipe (pipe_sender w.os) h refl small),
      )

  data_is_text :
      (received : Utf8)
      → IsArgument received
      → pipe_data w received ≡ some (TriggerData.pipe received)
  data_is_text received text = rw (text.unicode, pipe_data) refl

  -- Where the path of the binary can be an argument and the spawner does not stop for debugging, the
  -- closure of each void calls execv(2) and nothing before it, and of the programs that are started
  -- with its texts, the sender runs on exactly the descriptor of the
  -- pipe that the spawner prepared; and what a read from a pipe brings, if it can be an argument,
  -- becomes the data of the trigger as it is, and the receiver that is started for it runs on exactly
  -- those bytes: it prints its process id and then, unless that failed, those bytes.
  pub entrypoints-PipesStartAs :
      (tx_pipe : Fd) (received : Utf8)
      → tx_pipe < 2 ^ 31
      → IsArgument received
      → PipesStartAs "pipe_sender" TriggerData.nothing
          (PreparedArg.binary_name ∷ PreparedArg.entrypoint ∷ PreparedArg.pipe tx_pipe ∷ [])
          (pipe_sender w.os tx_pipe)
        × (pipe_data w received ≡ some (TriggerData.pipe received))
        × PipesStartAs "pipe_receiver"
            (TriggerData.pipe received)
            (PreparedArg.binary_name ∷ PreparedArg.entrypoint ∷ PreparedArg.trigger ∷ [])
            (pipe_receiver w.os pid received)
        × ((h : History) → Prints w.os pid received h (pipe_receiver w.os pid received h))
  entrypoints-PipesStartAs tx_pipe received small text = (
    sender-StartsAs tx_pipe small,
    data_is_text received text,
    receiver-StartsAs received text,
    pipe_receiver-Prints w.os pid received,
  )
