-- ===== src/Specification/Soundness/Triggers.antt =====
-- How the section of `validate` on trigger arguments ends.
use void_orchestrator.Base.{
  String, ◌≡◌, ◌≢◌, inl, inr, refl, true, List, [], ◌∷◌, arith, Bool-cases, ⊤,
}
use void_orchestrator.Failure.{bad_trigger_argument, Result, ok, err, ◌>>◌}
use void_orchestrator.Specification.{Trigger, Arg, Environment, Entrypoint}
use void_orchestrator.Specification.Validate.{contains_trigger, check_trigger, validate_triggers}

-- The arguments take a value from the trigger.
pub data HasTriggerArg : List Arg → Type 0 where
  here : {args : List Arg} → HasTriggerArg (Arg.trigger ∷ args)
  later : {a : Arg} {args : List Arg} → HasTriggerArg args → HasTriggerArg (a ∷ args)

HasTriggerArg→contains_trigger :
    {args : List Arg} → HasTriggerArg args → contains_trigger args ≡ true
unfolding contains_trigger
HasTriggerArg→contains_trigger here = refl
HasTriggerArg→contains_trigger (later {a} h) = ground (arith, HasTriggerArg→contains_trigger h)

contains_trigger→HasTriggerArg :
    (args : List Arg) → contains_trigger args ≡ true → HasTriggerArg args
unfolding contains_trigger
contains_trigger→HasTriggerArg [] h = cc
contains_trigger→HasTriggerArg (Arg.trigger ∷ args) h = here
contains_trigger→HasTriggerArg (_ ∷ args) h = later (contains_trigger→HasTriggerArg args h)

-- An entrypoint that takes a value from its trigger is not started at startup.
abbrev pub IsTriggered : Entrypoint → Type 0
IsTriggered e = HasTriggerArg e.args → e.trigger ≢ Trigger.startup

abbrev pub AllTriggered : List (String × Entrypoint) → Type 0
AllTriggered [] = Unit
AllTriggered ((_, e) ∷ es) = IsTriggered e × AllTriggered es

pub data TriggersChecked (es : List (String × Entrypoint)) : Result ⊤ → Type 0 where
  triggered : AllTriggered es → TriggersChecked es (ok tt)
  untriggered : ¬ AllTriggered es → TriggersChecked es (err bad_trigger_argument)

TriggersChecked-cons :
    (n : String) (e : Entrypoint) {es : List (String × Entrypoint)} {r : Result ⊤}
    → IsTriggered e
    → TriggersChecked es r
    → TriggersChecked ((n, e) ∷ es) r
TriggersChecked-cons n e h (triggered t) = triggered (h, t)
TriggersChecked-cons n e h (untriggered u) = untriggered (λ t. u t.1)

check_trigger-TriggersChecked :
    (n : String) (t : Trigger) (args : List Arg) (environment : List Environment)
    {es : List (String × Entrypoint)} {r : Result ⊤}
    → HasTriggerArg args
    → TriggersChecked es r
    → TriggersChecked
        ((n, record { trigger = t; args = args; environment = environment }) ∷ es)
        (check_trigger t >> r)
unfolding check_trigger
check_trigger-TriggersChecked n Trigger.startup args env has h = untriggered (λ t. t.0 has refl)
check_trigger-TriggersChecked n (Trigger.pipe s) args env has h =
    TriggersChecked-cons n _ (λ _ e. cc) h
check_trigger-TriggersChecked n (Trigger.file_socket s) args env has h =
    TriggersChecked-cons n _ (λ _ e. cc) h

pub validate_triggers-TriggersChecked :
    (es : List (String × Entrypoint)) → TriggersChecked es (validate_triggers es)
unfolding validate_triggers
validate_triggers-TriggersChecked [] = triggered tt
validate_triggers-TriggersChecked ((n, e) ∷ es) = elim (Bool-cases (contains_trigger e.args)) [
  | inl has ↦ rw has (
      check_trigger-TriggersChecked n e.trigger e.args e.environment
        (contains_trigger→HasTriggerArg e.args has) (validate_triggers-TriggersChecked es))
  | inr lacks ↦ rw lacks (
      TriggersChecked-cons n e (λ has. absurd (cc (HasTriggerArg→contains_trigger has)))
        (validate_triggers-TriggersChecked es))
]
