-- ===== src/Resources/Taking.antt =====
-- lib.rs: what is left of a pipe when an end has been taken.
use void_orchestrator.Base.{◌≡◌, refl}
use void_orchestrator.Failure.{Result, bad_pipe}
use void_orchestrator.Resources.PipePair.{PipePair, take_read, take_write}

-- An end of a pipe is handed out once: after either end has been taken, taking it again fails with
-- BadPipe and the pipe's name, and taking the other end has the result that it would have had.
pub take_read-take_write :
    (p : PipePair)
    → ((take_read (take_read p).1).0 ≡ Result.err (bad_pipe p.name))
      × ((take_write (take_read p).1).0 ≡ (take_write p).0)
      × ((take_write (take_write p).1).0 ≡ Result.err (bad_pipe p.name))
      × ((take_read (take_write p).1).0 ≡ (take_read p).0)
unfolding take_read take_write
take_read-take_write p = (refl, refl, refl, refl)
