-- ===== src/Spawner/Texts.antt =====
-- spawner/args.rs and spawner/mod.rs: the texts of descriptors.
use void_orchestrator.Base.{ℕ, ◌≡◌, refl, Option, none, some, List, [], ◌∷◌, nat_eq}
use void_orchestrator.Text.{decimal}
use void_orchestrator.Text.Decimal.{read_decimal, read_decimal-decimal, contains-decimal}
use void_orchestrator.Utf8.{c_string}
use void_orchestrator.RpcMessage.{Fd}
use void_orchestrator.Specification.{Utf8}
use void_orchestrator.Spawner.State.{TriggerData, fd_arg, fd_args, trigger_args}

pub fd_arg-decimal : (fd : Fd) → fd_arg fd ≡ some (decimal fd)
unfolding fd_arg c_string
fd_arg-decimal fd = rw (contains-decimal fd) refl

abbrev cons_read : Option ℕ → Option (List ℕ) → Option (List ℕ)
cons_read none ns = none
cons_read (some n) none = none
cons_read (some n) (some ns) = some (n ∷ ns)

-- The numbers that texts stand for.
abbrev pub read_all : List Utf8 → Option (List ℕ)
read_all [] = some []
read_all (t ∷ ts) = cons_read (read_decimal t) (read_all ts)

pub fd_args-read_all :
    (fds : List Fd) → (ts : List Utf8) × (fd_args fds ≡ some ts) × (read_all ts ≡ some fds)
unfolding fd_args
fd_args-read_all [] = ([], refl, refl)
fd_args-read_all (fd ∷ fds) =
    let (ts, made, read) = fd_args-read_all fds in
    (decimal fd ∷ ts, rw (fd_arg-decimal fd, made) refl, rw (read_decimal-decimal fd, read) refl)

-- The texts that an entrypoint is given for the files of a socket's message are made without a panic
-- and read back, as decimal numbers, as exactly the descriptors of the message, in their order; and
-- the files are handed out once: of what is left, there are no texts.
pub trigger_args-read_all :
    (fds : List Fd)
    → (ts : List Utf8) × (rest : TriggerData) × (trigger_args (TriggerData.file_socket fds)
        ≡ some (ts, rest))
      × (read_all ts ≡ some fds)
      × (trigger_args rest ≡ some ([], rest))
unfolding trigger_args fd_args
trigger_args-read_all fds =
    let (ts, made, read) = fd_args-read_all fds in
    (ts, TriggerData.file_socket [], rw made refl, read, refl)
