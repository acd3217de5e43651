-- ===== src/Examples/Basic.antt =====
-- examples/basic/main.rs: a program with two entrypoints.
use void_orchestrator.Base.{Option, none, some, List, ⊤, if◌then◌else◌}
use void_orchestrator.Text.{codes, bytes_beq}
use void_orchestrator.Specification.{Utf8}
use void_orchestrator.Sys.{Os}
use void_orchestrator.Program.{M, panic, give, ◌>>=◌}
use void_orchestrator.Examples.Argv.{println, next_arg}

module _ (os : Os) where
  unfoldable pub main1 : M ⊤
  unfolding println codes
  main1 = println os (codes "hello from main1!")

  unfoldable pub main2 : M ⊤
  unfolding println codes
  main2 = println os (codes "hello from main2!")

  -- `match args.next() { … }`
  unfoldable pub basic_entrypoint : Option Utf8 → M ⊤
  unfolding main1 main2 codes
  basic_entrypoint none = give panic
  basic_entrypoint (some s) =
      if bytes_beq s (codes "main1")
      then main1
      else if bytes_beq s (codes "main2")
      then main2
      else give panic

  -- `main`
  unfoldable pub basic_main : List Utf8 → M ⊤
  unfolding basic_entrypoint next_arg
  basic_main argv = do bin ← next_arg argv 0; s ← next_arg argv 1; basic_entrypoint s
