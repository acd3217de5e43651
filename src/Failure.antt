-- ===== src/Failure.antt =====
-- error.rs: the errors of the program, and how they propagate.
use void_orchestrator.Base.{ℕ, String, Option}

-- The `errno` of a failed system call, `nix::Error`.
abbrev pub Errno : Type 0
Errno = ℕ

-- `Error`. An `io::Error` is known by its `raw_os_error`, `serde_json::Error` by its message.
pub data Error : Type 0 where
  nix : String → Errno → Error
  io : Option Errno → Error
  json : String → Error
  bad_pipe : String → Error
  bad_file_socket : String → Error
  bad_spec_type : Error
  bad_trigger_argument : Error

-- `Result<T>`
pub data Result {ℓ} (A : Type ℓ) : Type ℓ where
  ok : A → Result A
  err : Error → Result A

-- `?`
infixl 5 ◌>>=◌ ◌>>◌
abbrev pub ◌>>=◌ {ℓ κ} : {A : Type ℓ} {B : Type κ} → Result A → (A → Result B) → Result B
ok a >>= next = next a
err e >>= next = err e

abbrev pub ◌>>◌ {ℓ} : {B : Type ℓ} → Result (Unit {0}) → Result B → Result B
m >> k = m >>= λ _. k
