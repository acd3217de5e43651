-- ===== src/Program/Clones.antt =====
-- Rules for how many processes a run has cloned when it returns.
use void_orchestrator.Base.{ℕ, suc, ◌+◌, ◌≡◌, arith, Option, none, some, [], ◌∷◌, ap, String}
use void_orchestrator.Failure.{Result}
use void_orchestrator.Sys.{done, fail, Nix, Io, Call, History, Os}
use void_orchestrator.Program.{
  Outcome, ok, M, pure, give, or_nix, or_io, or_err, or_panic, call, ◌>>=◌,
}
use void_orchestrator.Program.Runs.{>>=-eq_ok}

abbrev pub is_clone3 : Call → ℕ
is_clone3 (Call.clone3 _) = 1
is_clone3 _ = 0

-- The number of clone3(2)s among the calls.
abbrev pub clone3s : History → ℕ
clone3s [] = 0
clone3s (c ∷ h) = is_clone3 c + clone3s h

-- If `m` returns, it has cloned this many processes.
pub record Clones (n : ℕ) {A : Type 0} (m : M A) : Type 0 where
  pub at : (h : History) {h' : History} {a : A} → m h ≡ (ok a, h') → clone3s h' ≡ n + clone3s h

module _ {A : Type 0} where
  same_history :
      (r : Outcome A) (h : History) {h' : History} {a : A}
      → ◌≡◌ {A = Outcome A × History} (r, h) (ok a, h')
      → clone3s h' ≡ 0 + clone3s h
  same_history r h e = let same : h ≡ _ = ap (λ t. t.1) e in rw (← same) (omega arith)

  pub Clones-pure : (a : A) → Clones 0 (pure a)
  unfolding pure
  Clones-pure a = record { at = λ h e. same_history (ok a) h e }

  pub Clones-give : (r : Outcome A) → Clones 0 (give r)
  unfolding give
  Clones-give r = record { at = λ h e. same_history r h e }

  pub Clones-or_nix : (msg : String) (r : Nix A) → Clones 0 (or_nix msg r)
  unfolding or_nix
  Clones-or_nix msg (done a) = record { at = λ h e. same_history _ h e }
  Clones-or_nix msg (fail x) = record { at = λ h e. same_history _ h e }

  pub Clones-or_io : (r : Io A) → Clones 0 (or_io r)
  unfolding or_io
  Clones-or_io (done a) = record { at = λ h e. same_history _ h e }
  Clones-or_io (fail x) = record { at = λ h e. same_history _ h e }

  pub Clones-or_err : (r : Result A) → Clones 0 (or_err r)
  unfolding or_err
  Clones-or_err (Result.ok a) = record { at = λ h e. same_history _ h e }
  Clones-or_err (Result.err x) = record { at = λ h e. same_history _ h e }

  pub Clones-or_panic : (o : Option A) → Clones 0 (or_panic o)
  unfolding or_panic
  Clones-or_panic (some a) = record { at = λ h e. same_history _ h e }
  Clones-or_panic none = record { at = λ h e. same_history _ h e }

-- A call that clones none.
pub Clones-call : (os : Os) (c : Call) → is_clone3 c ≡ 0 → Clones 0 (call os c)
unfolding call
Clones-call os c other = record {
  at = λ h e. let same : c ∷ h ≡ _ = ap (λ t. t.1) e in rw (← same) (omega (arith, other));
}

module _ {A B : Type 0} {n : ℕ} where
  -- After a step that clones one.
  pub Clones-one :
      (m : M A) (f : A → M B) → Clones 1 m → ((a : A) → Clones n (f a)) → Clones (suc n) (m >>= f)
  Clones-one m f first rest = record {
    at = λ h e.
        let (a, h1, p, q) = >>=-eq_ok m f h e in omega (arith, first.at h p, (rest a).at h1 q);
  }

  pub Clones-bind :
      {k : ℕ} (m : M A) (f : A → M B)
      → Clones k m
      → ((a : A) → Clones n (f a))
      → Clones (k + n) (m >>= f)
  Clones-bind m f first rest = record {
    at = λ h e.
        let (a, h1, p, q) = >>=-eq_ok m f h e in omega (arith, first.at h p, (rest a).at h1 q);
  }

  -- After a step that clones none.
  pub Clones-next :
      (m : M A) (f : A → M B) → Clones 0 m → ((a : A) → Clones n (f a)) → Clones n (m >>= f)
  Clones-next m f first rest = record {
    at = λ h e.
        let (a, h1, p, q) = >>=-eq_ok m f h e in omega (arith, first.at h p, (rest a).at h1 q);
  }

pub ruleset clones_rules = (
  Clones-pure, Clones-give, Clones-or_nix, Clones-or_io, Clones-or_err, Clones-or_panic,
  Clones-next, Clones-call,
)
