-- ===== src/Program/Ensures.antt =====
-- Rules for what a program has called whenever it returns.
use mathlib.Core.List.{Memᴰ}
use void_orchestrator.Base.{◌≡◌, refl, ◌∷◌, ap}
use void_orchestrator.Sys.{Call, History, Os}
use void_orchestrator.Program.{ok, M, ◌>>=◌, call}
use void_orchestrator.Program.Runs.{Makes, AnyCall, Makes-Mem, >>=-eq_ok}

-- Whenever `m` returns, the history has the property.
pub record Ensures {A : Type 0} (Q : History → Type 0) (m : M A) : Type 0 where
  pub at : (h : History) {h' : History} {a : A} → m h ≡ (ok a, h') → Q h'

-- The property is kept by further calls.
abbrev pub IsKept : (History → Type 0) → Type 0
IsKept Q = (h h' : History) → ((c : Call) → Memᴰ c h → Memᴰ c h') → Q h → Q h'

module _ {A B : Type 0} {Q : History → Type 0} (m : M A) (f : A → M B) where
  pub Ensures-last : ((a : A) → Ensures Q (f a)) → Ensures Q (m >>= f)
  Ensures-last k = record { at = λ h e. let (a, h1, p, q) = >>=-eq_ok m f h e in (k a).at h1 q }

  pub Ensures-first : IsKept Q → Ensures Q m → ((a : A) → Makes AnyCall (f a)) → Ensures Q (m >>= f)
  Ensures-first kept k grows = record {
    at = λ h e.
        let (a, h1, p, q) = >>=-eq_ok m f h e in
        kept h1 _ (λ c. Makes-Mem h1 (grows a) q) (k.at h p);
  }

pub Ensures-call : (os : Os) (c : Call) → Ensures (λ h. Memᴰ c h) (call os c)
unfolding call
Ensures-call os c = record {
  at = λ h e.
      let made : Memᴰ c (c ∷ h) = Memᴰ.head refl in
      let grown : c ∷ h ≡ _ = ap (λ p. p.1) e in rw grown at made;
}

pub Ensures-mono :
    {A : Type 0} {Q R : History → Type 0} (m : M A)
    → ((h : History) → Q h → R h)
    → Ensures Q m
    → Ensures R m
Ensures-mono m weaken k = record { at = λ h e. weaken _ (k.at h e) }

pub Ensures-both :
    {A : Type 0} {Q R : History → Type 0} (m : M A)
    → Ensures Q m
    → Ensures R m
    → Ensures (λ h. Q h × R h) m
Ensures-both m k l = record { at = λ h e. (k.at h e, l.at h e) }
