-- ===== src/Program/Plain.antt =====
-- Rules for programs that return or fail, and neither panic nor end their process.
use void_orchestrator.Base.{String, Bool, true, false, if◌then◌else◌}
use void_orchestrator.Sys.{done, fail, Nix, Io, Call, History, Os}
use void_orchestrator.Program.{
  Outcome, ok, err, panic, exit, exec, blocked, undefined, M, pure, or_nix, or_io, continue, ◌>>=◌,
  call,
}

abbrev pub IsResult : {A : Type 0} → Outcome A → Type 0
IsResult (ok a) = Unit
IsResult (err e) = Unit
IsResult _ = ⊥

pub record IsPlain {A : Type 0} (m : M A) : Type 0 where
  pub at : (h : History) → IsResult (m h).0

module _ {A : Type 0} where
  pub IsPlain-pure : (a : A) → IsPlain (pure a)
  unfolding pure
  IsPlain-pure a = record { at = λ h. tt }

  pub IsPlain-or_nix : (msg : String) (r : Nix A) → IsPlain (or_nix msg r)
  unfolding or_nix
  IsPlain-or_nix msg (done a) = record { at = λ h. tt }
  IsPlain-or_nix msg (fail e) = record { at = λ h. tt }

  pub IsPlain-or_io : (r : Io A) → IsPlain (or_io r)
  unfolding or_io
  IsPlain-or_io (done a) = record { at = λ h. tt }
  IsPlain-or_io (fail e) = record { at = λ h. tt }

  pub IsPlain-if : (b : Bool) (m n : M A) → IsPlain m → IsPlain n → IsPlain (if b then m else n)
  IsPlain-if true m n km kn = km
  IsPlain-if false m n km kn = kn

module _ {A B : Type 0} where
  IsPlain-continue :
      (r : Outcome A) (f : A → M B) (h : History)
      → IsResult r
      → ((a : A) → IsPlain (f a))
      → IsResult (continue r f h).0
  IsPlain-continue (ok a) f h p k = (k a).at h
  IsPlain-continue (err e) f h p k = tt
  IsPlain-continue panic f h p k = p
  IsPlain-continue (exit n) f h p k = p
  IsPlain-continue (exec x args) f h p k = p
  IsPlain-continue blocked f h p k = p
  IsPlain-continue undefined f h p k = p

  pub IsPlain-bind :
      (m : M A) (f : A → M B) → IsPlain m → ((a : A) → IsPlain (f a)) → IsPlain (m >>= f)
  unfolding ◌>>=◌
  IsPlain-bind m f km kf = record {
    at = λ h. let (r, h1) = m h in IsPlain-continue r f h1 (km.at h) kf;
  }

pub IsPlain-call : (os : Os) (c : Call) → IsPlain (call os c)
unfolding call
IsPlain-call os c = record { at = λ h. tt }

pub ruleset plain_rules =
    (IsPlain-pure, IsPlain-or_nix, IsPlain-or_io, IsPlain-if, IsPlain-bind, IsPlain-call)
