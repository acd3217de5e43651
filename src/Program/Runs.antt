-- ===== src/Program/Runs.antt =====
-- Rules for the calls that a run makes: inversion of a run that returned, and properties that hold
-- of every call that a program makes.
use mathlib.Core.List.{Memᴰ, append_assoc}
use mathlib.Core.List.Memᴰ as MemD
use void_orchestrator.Base.{
  Option, none, some, String, ◌≡◌, ◌≢◌, refl, List, [], ◌∷◌, ◌++◌, ap, sym, ◌∙◌, All, Bool, true,
  false, if◌then◌else◌,
}
use void_orchestrator.Sys.{done, fail, Nix, Io, Call, ReplyOf, History, Os}
use void_orchestrator.Program.{
  Outcome, ok, err, panic, exit, exec, blocked, undefined, M, pure, give, or_nix, or_io, or_panic,
  unwrap, continue, ◌>>=◌, call,
}

-- A sequence that returned: its first step returned, and the rest ran from there.
abbrev pub Steps : {A B : Type 0} → M A → (A → M B) → B → History → History → Type 0
Steps {A} m f b h h' = (a : A) × (h1 : History) × (m h ≡ (ok a, h1)) × (f a h1 ≡ (ok b, h'))

module _ {A B : Type 0} (f : A → M B) where
  continue-eq_ok :
      (r : Outcome A) (h : History) {h' : History} {b : B}
      → continue r f h ≡ (ok b, h')
      → (a : A) × (r ≡ ok a) × (f a h ≡ (ok b, h'))
  continue-eq_ok (ok a) h e = (a, refl, e)
  continue-eq_ok (err x) h e = cc
  continue-eq_ok panic h e = cc
  continue-eq_ok (exit n) h e = cc
  continue-eq_ok (exec p args) h e = cc
  continue-eq_ok blocked h e = cc
  continue-eq_ok undefined h e = cc

pub >>=-eq_ok :
    {A B : Type 0} (m : M A) (f : A → M B) (h : History) {h' : History} {b : B}
    → (m >>= f) h ≡ (ok b, h')
    → Steps m f b h h'
unfolding ◌>>=◌
>>=-eq_ok m f h e =
    let (r, h1) = m h in let (a, p, q) = continue-eq_ok f r h1 e in (a, h1, (λ i. (p i, h1)), q)

-- Whatever `m` returns has the property, by the history from which it ran.
pub record GivesFrom {A : Type 0} (R : History → A → Type 0) (m : M A) : Type 0 where
  pub at : (h : History) {h' : History} {a : A} → m h ≡ (ok a, h') → R h a

-- Whatever `m` returns has the property.
pub record Gives {A : Type 0} (R : A → Type 0) (m : M A) : Type 0 where
  pub at : (h : History) {h' : History} {a : A} → m h ≡ (ok a, h') → R a

pub Gives-pure : {A : Type 0} {R : A → Type 0} (a : A) → R a → Gives R (pure a)
unfolding pure
Gives-pure {R} a r = record { at = λ h e. let same : a ≡ _ = cc in rw same at r }

pub Gives-bind :
    {A B : Type 0} {R : B → Type 0} (m : M A) (f : A → M B)
    → ((a : A) → Gives R (f a))
    → Gives R (m >>= f)
Gives-bind m f k = record { at = λ h e. let (a, h1, p, q) = >>=-eq_ok m f h e in (k a).at h1 q }

-- The rest may use what is known of the value that the first step returns.
pub Gives-bind_of :
    {A B : Type 0} {S : A → Type 0} {R : B → Type 0} (m : M A) (f : A → M B)
    → Gives S m
    → ((a : A) → S a → Gives R (f a))
    → Gives R (m >>= f)
Gives-bind_of m f g k = record {
  at = λ h e. let (a, h1, p, q) = >>=-eq_ok m f h e in (k a (g.at h p)).at h1 q;
}

pub Gives-mono :
    {A : Type 0} {R S : A → Type 0} (m : M A) → ((a : A) → R a → S a) → Gives R m → Gives S m
Gives-mono m weaken g = record { at = λ h e. weaken _ (g.at h e) }

-- Nothing is returned.
pub Gives-give :
    {A : Type 0} {R : A → Type 0} (r : Outcome A) → ((a : A) → r ≢ ok a) → Gives R (give r)
unfolding give
Gives-give r never = record { at = λ h e. absurd (never _ (ap (λ p. p.0) e)) }

-- Every call that `m` makes has the property.
pub record Makes {A : Type 0} (P : Call → Type 0) (m : M A) : Type 0 where
  pub at : (h : History) → (calls : List Call) × ((m h).1 ≡ calls ++ h) × All P calls

All-append : (P : Call → Type 0) (xs ys : List Call) → All P xs → All P ys → All P (xs ++ ys)
All-append P [] ys hx hy = hy
All-append P (x ∷ xs) ys hx hy = (hx.0, All-append P xs ys hx.1 hy)

All-mono : {P Q : Call → Type 0} → ((c : Call) → P c → Q c) → (xs : List Call) → All P xs → All Q xs
All-mono weaken [] h = tt
All-mono weaken (x ∷ xs) h = (weaken x h.0, All-mono weaken xs h.1)

module _ {P : Call → Type 0} where
  module _ {A : Type 0} where
    pub Makes-give : (r : Outcome A) → Makes P (give r)
    unfolding give
    Makes-give r = record { at = λ h. ([], refl, tt) }

    pub Makes-pure : (a : A) → Makes P (pure a)
    unfolding pure
    Makes-pure a = record { at = λ h. ([], refl, tt) }

    pub Makes-or_nix : (msg : String) (r : Nix A) → Makes P (or_nix msg r)
    unfolding or_nix
    Makes-or_nix msg (done a) = record { at = λ h. ([], refl, tt) }
    Makes-or_nix msg (fail e) = record { at = λ h. ([], refl, tt) }

    pub Makes-or_io : (r : Io A) → Makes P (or_io r)
    unfolding or_io
    Makes-or_io (done a) = record { at = λ h. ([], refl, tt) }
    Makes-or_io (fail e) = record { at = λ h. ([], refl, tt) }

    pub Makes-if : (b : Bool) (m n : M A) → Makes P m → Makes P n → Makes P (if b then m else n)
    Makes-if true m n km kn = km
    Makes-if false m n km kn = kn

    pub Makes-or_panic : (r : Option A) → Makes P (or_panic r)
    unfolding or_panic
    Makes-or_panic none = record { at = λ h. ([], refl, tt) }
    Makes-or_panic (some a) = record { at = λ h. ([], refl, tt) }

    pub Makes-unwrap : (m : M A) → Makes P m → Makes P (unwrap m)
    unfolding unwrap
    Makes-unwrap m k = record { at = λ h. k.at h }

  module _ {A B : Type 0} where
    Makes-continue :
        (r : Outcome A) (f : A → M B)
        → ((a : A) → r ≡ ok a → Makes P (f a))
        → Makes P (continue r f)
    Makes-continue (ok a) f kf = kf a refl
    Makes-continue (err x) f kf = record { at = λ h. ([], refl, tt) }
    Makes-continue panic f kf = record { at = λ h. ([], refl, tt) }
    Makes-continue (exit n) f kf = record { at = λ h. ([], refl, tt) }
    Makes-continue (exec p args) f kf = record { at = λ h. ([], refl, tt) }
    Makes-continue blocked f kf = record { at = λ h. ([], refl, tt) }
    Makes-continue undefined f kf = record { at = λ h. ([], refl, tt) }

    -- The rest may use what is known of the value that the first step returns.
    pub Makes-bind_of :
        {R : A → Type 0} (m : M A) (f : A → M B)
        → Makes P m
        → Gives R m
        → ((a : A) → R a → Makes P (f a))
        → Makes P (m >>= f)
    unfolding ◌>>=◌
    Makes-bind_of m f km g kf = record {
      at = λ h.
          let (r, h1) = m h in
          let (xs, p, px) = km.at h in
          let rest = Makes-continue r f (λ a e. kf a (g.at h (λ i. (e i, h1)))) in
          let (ys, q, py) = rest.at h1 in
          (
            ys ++ xs,
            q ∙ ap (λ t. ys ++ t) p ∙ sym (append_assoc ys xs h),
            All-append P ys xs py px,
          );
    }

    pub Makes-bind :
        (m : M A) (f : A → M B) → Makes P m → ((a : A) → Makes P (f a)) → Makes P (m >>= f)
    Makes-bind m f km kf =
        Makes-bind_of {R = λ _. Unit} m f km (record { at = λ h e. tt }) (λ a _. kf a)

  pub Makes-call : (os : Os) (c : Call) → P c → Makes P (call os c)
  unfolding call
  Makes-call os c p = record { at = λ h. (c ∷ [], refl, (p, tt)) }

pub Makes-mono :
    {A : Type 0} {P Q : Call → Type 0} (m : M A) → ((c : Call) → P c → Q c) → Makes P m → Makes Q m
Makes-mono m weaken k = record {
  at = λ h. let (xs, p, px) = k.at h in (xs, p, All-mono weaken xs px);
}

-- Any program that is a sequence of calls.
abbrev pub AnyCall : Call → Type 0
AnyCall c = Unit

-- What was called stays in the history.
pub Makes-Mem :
    {A : Type 0} {P : Call → Type 0} {m : M A} {c : Call} {r : Outcome A} (h : History)
    {h' : History}
    → Makes P m
    → m h ≡ (r, h')
    → Memᴰ c h
    → Memᴰ c h'
Makes-Mem {m} {c} h k e mem =
    let (xs, p, _) = k.at h in rw (← (sym p ∙ ap (λ t. t.1) e)) (MemD.append_right xs mem)

pub ruleset makes_rules =
    (Makes-give, Makes-pure, Makes-or_nix, Makes-or_io, Makes-if, Makes-bind, Makes-call)

-- A call whose answer is awaited: if what follows returned, the answer was a success.
module _ {A B : Type 0} (k : A → M B) (h : History) where
  or_nix-eq_ok :
      (msg : String) (r : Nix A) {h' : History} {b : B}
      → (or_nix msg r >>= k) h ≡ (ok b, h')
      → (a : A) × (k a h ≡ (ok b, h'))
  unfolding ◌>>=◌
  or_nix-eq_ok msg (done a) e = (a, e)
  or_nix-eq_ok msg (fail x) e = cc

  or_io-eq_ok :
      (r : Io A) {h' : History} {b : B}
      → (or_io r >>= k) h ≡ (ok b, h')
      → (a : A) × (k a h ≡ (ok b, h'))
  unfolding ◌>>=◌
  or_io-eq_ok (done a) e = (a, e)
  or_io-eq_ok (fail x) e = cc

module _ {A B : Type 0} (os : Os) (k : A → M B) (h : History) (c : Call) where
  -- The same with the call in front.
  pub call_nix-eq_ok :
      (msg : String) (answer : ReplyOf c → Nix A) {h' : History} {b : B}
      → (call os c >>= λ r. or_nix msg (answer r) >>= k) h ≡ (ok b, h')
      → (a : A) × (k a (c ∷ h) ≡ (ok b, h'))
  unfolding ◌>>=◌
  call_nix-eq_ok msg answer e = or_nix-eq_ok k (c ∷ h) msg (answer (os h c)) e

  pub call_io-eq_ok :
      (answer : ReplyOf c → Io A) {h' : History} {b : B}
      → (call os c >>= λ r. or_io (answer r) >>= k) h ≡ (ok b, h')
      → (a : A) × (k a (c ∷ h) ≡ (ok b, h'))
  unfolding ◌>>=◌
  call_io-eq_ok answer e = or_io-eq_ok k (c ∷ h) (answer (os h c)) e

or_nix_last-eq_ok :
    {A : Type 0} (msg : String) (r : Nix A) (h : History) {h' : History} {a : A}
    → or_nix msg r h ≡ (ok a, h')
    → h' ≡ h
unfolding or_nix
or_nix_last-eq_ok msg (done a) h e = ap (λ p. p.1) (sym e)
or_nix_last-eq_ok msg (fail x) h e = cc

module _ {A : Type 0} (os : Os) (h : History) (c : Call) where
  -- A last call whose answer is awaited is the last of the history.
  pub call_nix_last-eq_ok :
      (msg : String) (answer : ReplyOf c → Nix A) {h' : History} {a : A}
      → (call os c >>= λ r. or_nix msg (answer r)) h ≡ (ok a, h')
      → h' ≡ c ∷ h
  unfolding ◌>>=◌
  call_nix_last-eq_ok msg answer e = or_nix_last-eq_ok msg (answer (os h c)) (c ∷ h) e

or_nix_done :
    {A B : Type 0} (k : A → M B) (h : History) (msg : String) (r : Nix A) {h' : History} {b : B}
    → (or_nix msg r >>= k) h ≡ (ok b, h')
    → (a : A) × (r ≡ done a) × (k a h ≡ (ok b, h'))
unfolding ◌>>=◌
or_nix_done k h msg (done a) e = (a, refl, e)
or_nix_done k h msg (fail x) e = cc

or_io_done :
    {A B : Type 0} (k : A → M B) (h : History) (r : Io A) {h' : History} {b : B}
    → (or_io r >>= k) h ≡ (ok b, h')
    → (a : A) × (r ≡ done a) × (k a h ≡ (ok b, h'))
unfolding ◌>>=◌
or_io_done k h (done a) e = (a, refl, e)
or_io_done k h (fail x) e = cc

or_nix_last_done :
    {A : Type 0} (msg : String) (r : Nix A) (h : History) {h' : History} {a : A}
    → or_nix msg r h ≡ (ok a, h')
    → (r ≡ done a) × (h' ≡ h)
unfolding or_nix
or_nix_last_done msg (done a) h e = (cc, ap (λ p. p.1) (sym e))
or_nix_last_done msg (fail x) h e = cc

or_io_last_done :
    {A : Type 0} (r : Io A) (h : History) {h' : History} {a : A}
    → or_io r h ≡ (ok a, h')
    → (r ≡ done a) × (h' ≡ h)
unfolding or_io
or_io_last_done (done a) h e = (cc, ap (λ p. p.1) (sym e))
or_io_last_done (fail x) h e = cc

-- If what follows a call returned, this is the success that the call was answered with.
module _ {A B : Type 0} (os : Os) (k : A → M B) (h : History) (c : Call) where
  pub call_nix_done :
      (msg : String) (answer : ReplyOf c → Nix A) {h' : History} {b : B}
      → (call os c >>= λ r. or_nix msg (answer r) >>= k) h ≡ (ok b, h')
      → (a : A) × (answer (os h c) ≡ done a) × (k a (c ∷ h) ≡ (ok b, h'))
  unfolding ◌>>=◌
  call_nix_done msg answer e = or_nix_done k (c ∷ h) msg (answer (os h c)) e

  pub call_io_done :
      (answer : ReplyOf c → Io A) {h' : History} {b : B}
      → (call os c >>= λ r. or_io (answer r) >>= k) h ≡ (ok b, h')
      → (a : A) × (answer (os h c) ≡ done a) × (k a (c ∷ h) ≡ (ok b, h'))
  unfolding ◌>>=◌
  call_io_done answer e = or_io_done k (c ∷ h) (answer (os h c)) e

module _ {A : Type 0} (os : Os) (h : History) (c : Call) where
  pub call_nix_last_done :
      (msg : String) (answer : ReplyOf c → Nix A) {h' : History} {a : A}
      → (call os c >>= λ r. or_nix msg (answer r)) h ≡ (ok a, h')
      → (answer (os h c) ≡ done a) × (h' ≡ c ∷ h)
  unfolding ◌>>=◌
  call_nix_last_done msg answer e = or_nix_last_done msg (answer (os h c)) (c ∷ h) e

  pub call_io_last_done :
      (answer : ReplyOf c → Io A) {h' : History} {a : A}
      → (call os c >>= λ r. or_io (answer r)) h ≡ (ok a, h')
      → (answer (os h c) ≡ done a) × (h' ≡ c ∷ h)
  unfolding ◌>>=◌
  call_io_last_done answer e = or_io_last_done (answer (os h c)) (c ∷ h) e
