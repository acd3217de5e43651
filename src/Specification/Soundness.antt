-- ===== src/Specification/Soundness.antt =====
-- What `validate` accepts and refuses, against the counts of the ends.
mod Loops
mod Sections
mod Triggers
pub use Sections.{IsOrder, IsPaired, IsServed}
pub use Triggers.{HasTriggerArg, IsTriggered, AllTriggered}
use Sections.{
  PipesChecked, paired, unpaired, validate_pipes-PipesChecked, SocketsChecked, served, unserved,
  validate_sockets-SocketsChecked,
}
use Triggers.{TriggersChecked, triggered, untriggered, validate_triggers-TriggersChecked}
use void_orchestrator.Base.{String, ◌≡◌, ◌↔◌, refl, List, ⊤}
use void_orchestrator.Failure.{
  Error, nix, io, json, bad_pipe, bad_file_socket, bad_spec_type, bad_trigger_argument, Result, ok,
  err, ◌>>=◌, ◌>>◌,
}
use void_orchestrator.Specification.{Specification, pipes, sockets}
use void_orchestrator.Specification.Counts.{
  pipe_readers, pipe_writers, socket_readers, socket_writers, count-pipes, count-sockets,
}
use void_orchestrator.Specification.Validate.{
  validate_pipes, validate_sockets, validate_triggers, validate,
}

abbrev pub PipesPaired : Specification → Type 0
PipesPaired spec = (n : String) → IsPaired (pipe_readers n spec) (pipe_writers n spec)

abbrev pub SocketsServed : Specification → Type 0
SocketsServed spec = (n : String) → IsServed (socket_readers n spec) (socket_writers n spec)

-- What the messages of the errors ask of a specification.
pub record IsWellFormed (spec : Specification) : Type 0 where
  pub pipes_paired : PipesPaired spec
  pub sockets_served : SocketsServed spec
  pub args_triggered : AllTriggered spec.entrypoints

-- The fault that an error of `validate` reports; the sections before it have passed.
abbrev pub Explains : Specification → Error → Type 0
Explains spec (bad_pipe n) = ¬ IsPaired (pipe_readers n spec) (pipe_writers n spec)
Explains spec (bad_file_socket n) =
    PipesPaired spec × (¬ IsServed (socket_readers n spec) (socket_writers n spec))
Explains spec bad_trigger_argument =
    PipesPaired spec × SocketsServed spec × (¬ AllTriggered spec.entrypoints)
Explains spec _ = ⊥

data Checked (spec : Specification) : Result ⊤ → Type 0 where
  accepted : IsWellFormed spec → Checked spec (ok tt)
  refused : {e : Error} → Explains spec e → Checked spec (err e)

module _ (iter : List String → List String) (order : IsOrder iter) (spec : Specification) where
  triggers_last :
      {r : Result ⊤}
      → PipesPaired spec
      → SocketsServed spec
      → TriggersChecked spec.entrypoints r
      → Checked spec r
  triggers_last p s (triggered t) =
      accepted (record { pipes_paired = p; sockets_served = s; args_triggered = t })
  triggers_last p s (untriggered u) = refused (p, s, u)

  sockets_next :
      {r : Result ⊤}
      → PipesPaired spec
      → SocketsChecked (sockets spec) r
      → Checked spec (r >> validate_triggers spec.entrypoints)
  sockets_next p (served s) =
      triggers_last p (λ n. let c = count-sockets n spec in rw (← c.0, ← c.1) (s n))
        (validate_triggers-TriggersChecked spec.entrypoints)
  sockets_next p (unserved n h) = refused (p, let c = count-sockets n spec in rw (← c.0, ← c.1) h)

  pipes_first :
      {r : Result ⊤}
      → PipesChecked (pipes spec) r
      → Checked spec
          (r >> (validate_sockets iter (sockets spec) >> validate_triggers spec.entrypoints))
  pipes_first (paired p) =
      sockets_next (λ n. let c = count-pipes n spec in rw (← c.0, ← c.1) (p n))
        (validate_sockets-SocketsChecked iter order (sockets spec))
  pipes_first (unpaired n h) = refused (let c = count-pipes n spec in rw (← c.0, ← c.1) h)

  validate-Checked : Checked spec (validate iter spec)
  unfolding validate
  validate-Checked = pipes_first (validate_pipes-PipesChecked iter order (pipes spec))

Checked→IsWellFormed :
    (spec : Specification) {r : Result ⊤} → Checked spec r → r ≡ ok tt → IsWellFormed spec
Checked→IsWellFormed spec (accepted w) e = w
Checked→IsWellFormed spec (refused x) e = cc

IsWellFormed-not_explained :
    (spec : Specification) (e : Error) → IsWellFormed spec → ¬ Explains spec e
IsWellFormed-not_explained spec (bad_pipe n) w x = x (w.pipes_paired n)
IsWellFormed-not_explained spec (bad_file_socket n) w x = x.1 (w.sockets_served n)
IsWellFormed-not_explained spec bad_trigger_argument w x = x.2 w.args_triggered
IsWellFormed-not_explained spec _ w x = x

IsWellFormed→ok :
    (spec : Specification) {r : Result ⊤} → Checked spec r → IsWellFormed spec → r ≡ ok tt
IsWellFormed→ok spec (accepted w) _ = refl
IsWellFormed→ok spec (refused {e} x) w = absurd (IsWellFormed-not_explained spec e w x)

Checked→Explains :
    (spec : Specification) {r : Result ⊤} (e : Error) → Checked spec r → r ≡ err e → Explains spec e
Checked→Explains spec e (accepted w) p = cc
Checked→Explains spec e (refused {e = found} x) p = let same : found ≡ e = cc in rw same at x

module _ (iter : List String → List String) (order : IsOrder iter) (spec : Specification) where
  -- In whatever order the hash sets are iterated, `validate` accepts exactly the specifications in
  -- which every pipe that is named has one reader and one writer, every socket that is named has
  -- one reader and one or more writers, and no entrypoint started at startup takes a value from
  -- its trigger.
  pub validate-IsWellFormed : (validate iter spec ≡ ok tt) ↔ IsWellFormed spec
  validate-IsWellFormed = (
    Checked→IsWellFormed spec (validate-Checked iter order spec),
    IsWellFormed→ok spec (validate-Checked iter order spec),
  )

  -- In whatever order the hash sets are iterated, an error of `validate` names a pipe or a socket
  -- that breaks its rule, or is the one on trigger arguments and some entrypoint started at startup
  -- takes a value from its trigger. The rules that are checked earlier hold then, and no other
  -- error is returned.
  pub validate-Explains : (e : Error) → validate iter spec ≡ err e → Explains spec e
  validate-Explains e = Checked→Explains spec e (validate-Checked iter order spec)
