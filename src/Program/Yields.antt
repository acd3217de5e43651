-- ===== src/Program/Yields.antt =====
-- Rules for programs that return a value of a kind, or fail with an error of a call, and do nothing
-- else: they do not panic, end their process, wait or fail by a check of their own.
use void_orchestrator.Base.{String, ◌≡◌, refl, Bool, true, false, Option, some, if◌then◌else◌}
use void_orchestrator.Failure.{Error, nix, io, Result}
use void_orchestrator.Sys.{Answer, done, fail, Nix, Io, Call, ReplyOf, History, Os}
use void_orchestrator.Program.Runs.{Gives}
use void_orchestrator.Program.{
  Outcome, ok, err, panic, exit, exec, blocked, undefined, M, pure, or_nix, or_io, or_err, or_panic,
  continue, ◌>>=◌, call,
}

-- An error that reports the failure of a call.
abbrev pub IsCallError : Error → Type 0
IsCallError (nix msg e) = Unit
IsCallError (io e) = Unit
IsCallError _ = ⊥

abbrev pub IsYield : {A : Type 0} → (A → Type 0) → Outcome A → Type 0
IsYield R (ok a) = R a
IsYield R (err e) = IsCallError e
IsYield R _ = ⊥

pub record Yields {A : Type 0} (R : A → Type 0) (m : M A) : Type 0 where
  pub at : (h : History) → IsYield R (m h).0

-- Whatever is returned.
abbrev pub Anything : {A : Type 0} → A → Type 0
Anything a = Unit

module _ {A : Type 0} {R : A → Type 0} where
  pub Yields-pure : (a : A) → R a → Yields R (pure a)
  unfolding pure
  Yields-pure a r = record { at = λ h. r }

  pub Yields-or_err : (r : Result A) (a : A) → r ≡ Result.ok a → R a → Yields R (or_err r)
  unfolding or_err
  Yields-or_err r a e ra = rw e (record { at = λ h. ra })

  pub Yields-or_panic : (o : Option A) (a : A) → o ≡ some a → R a → Yields R (or_panic o)
  unfolding or_panic
  Yields-or_panic o a e ra = rw e (record { at = λ h. ra })

  pub Yields-if : (b : Bool) (m n : M A) → Yields R m → Yields R n → Yields R (if b then m else n)
  Yields-if true m n km kn = km
  Yields-if false m n km kn = kn

-- What holds of the value of an answer, if it is a success.
abbrev pub IsDone : {E A : Type 0} → (A → Type 0) → Answer E A → Type 0
IsDone R (done a) = R a
IsDone R (fail e) = Unit

module _ {A : Type 0} {R : A → Type 0} where
  pub Yields-or_nix : (msg : String) (r : Nix A) → IsDone R r → Yields R (or_nix msg r)
  unfolding or_nix
  Yields-or_nix msg (done a) p = record { at = λ h. p }
  Yields-or_nix msg (fail e) p = record { at = λ h. tt }

  pub Yields-or_io : (r : Io A) → IsDone R r → Yields R (or_io r)
  unfolding or_io
  Yields-or_io (done a) p = record { at = λ h. p }
  Yields-or_io (fail e) p = record { at = λ h. tt }

module _ {A : Type 0} where
  pub Yields-any-or_nix : (msg : String) (r : Nix A) → Yields Anything (or_nix msg r)
  Yields-any-or_nix msg (done a) = Yields-or_nix msg (done a) tt
  Yields-any-or_nix msg (fail e) = Yields-or_nix msg (fail e) tt

  pub Yields-any-or_io : (r : Io A) → Yields Anything (or_io r)
  Yields-any-or_io (done a) = Yields-or_io (done a) tt
  Yields-any-or_io (fail e) = Yields-or_io (fail e) tt

  pub Yields-any-pure : (a : A) → Yields Anything (pure a)
  Yields-any-pure a = Yields-pure a tt

module _ {A B : Type 0} {R : A → Type 0} {S : B → Type 0} where
  Yields-continue :
      (r : Outcome A) (f : A → M B) (h : History)
      → IsYield R r
      → ((a : A) → R a → Yields S (f a))
      → IsYield S (continue r f h).0
  Yields-continue (ok a) f h p k = (k a p).at h
  Yields-continue (err e) f h p k = p
  Yields-continue panic f h p k = absurd p
  Yields-continue (exit n) f h p k = absurd p
  Yields-continue (exec x args) f h p k = absurd p
  Yields-continue blocked f h p k = absurd p
  Yields-continue undefined f h p k = absurd p

  pub Yields-bind :
      (m : M A) (f : A → M B) → Yields R m → ((a : A) → R a → Yields S (f a)) → Yields S (m >>= f)
  unfolding ◌>>=◌
  Yields-bind m f km kf = record {
    at = λ h. let (r, h1) = m h in Yields-continue r f h1 (km.at h) kf;
  }

pub Yields-mono :
    {A : Type 0} {R S : A → Type 0} (m : M A) → ((a : A) → R a → S a) → Yields R m → Yields S m
Yields-mono {R} {S} m weaken k = record { at = λ h. let (r, h1) = m h in step r (k.at h) }
  where
    step : (r : Outcome _) → IsYield R r → IsYield S r
    step (ok a) p = weaken a p
    step (err e) p = p
    step panic p = p
    step (exit n) p = p
    step (exec x args) p = p
    step blocked p = p
    step undefined p = p

pub Yields-call :
    (os : Os) (c : Call) (R : ReplyOf c → Type 0)
    → ((h : History) → R (os h c))
    → Yields R (call os c)
unfolding call
Yields-call os c R answers = record { at = λ h. answers h }

pub Yields-any-call : (os : Os) (c : Call) → Yields Anything (call os c)
Yields-any-call os c = Yields-call os c Anything (λ h. tt)

-- What is known of every value that is returned.
pub Yields-Gives :
    {A : Type 0} {R : A → Type 0} (m : M A) → Yields Anything m → Gives R m → Yields R m
Yields-Gives {A} {R} m k g = record { at = λ h. step h (m h).0 (m h).1 refl (k.at h) }
  where
    step :
        (h : History) (r : Outcome A) (h' : History)
        → m h ≡ (r, h')
        → IsYield Anything r
        → IsYield R r
    step h (ok a) h' e p = g.at h e
    step h (err x) h' e p = p
    step h panic h' e p = p
    step h (exit n) h' e p = p
    step h (exec x args) h' e p = p
    step h blocked h' e p = p
    step h undefined h' e p = p
