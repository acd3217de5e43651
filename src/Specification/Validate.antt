-- ===== src/Specification/Validate.antt =====
-- `Specification::validate`. A `HashSet` is iterated in an order of its own: `iter` turns the
-- elements of a set, in the order of their insertion, into that order.
use void_orchestrator.Base.{
  ⊤, String, Bool, true, false, List, [], ◌∷◌, string_eq, contains, if◌then◌else◌,
}
use void_orchestrator.Base.Sets.{insert, remove, difference}
use void_orchestrator.Failure.{
  Error, bad_pipe, bad_file_socket, bad_trigger_argument, Result, ok, err, ◌>>=◌, ◌>>◌,
}
use void_orchestrator.Specification.{Trigger, Arg, Entrypoint, Specification, Ends, pipes, sockets}

-- `for x in xs { if !set.insert(x) { return Err(fail(x)) } }`
unfoldable pub insert_unique : (String → Error) → List String → List String → Result (List String)
insert_unique fail set [] = ok set
insert_unique fail set (x ∷ xs) =
    let rest = insert_unique fail (insert x set) xs in if contains set x then err (fail x) else rest

-- `for x in xs { set.insert(x); }`
unfoldable pub insert_all : List String → List String → List String
insert_all set [] = set
insert_all set (x ∷ xs) = insert_all (insert x set) xs

-- `for x in xs { if !set.remove(x) { return Err(fail(x)) } }`
unfoldable pub remove_all : (String → Error) → List String → List String → Result (List String)
remove_all fail set [] = ok set
remove_all fail set (x ∷ xs) =
    let rest = remove_all fail (remove x set) xs in if contains set x then rest else err (fail x)

-- `for x in xs { if !set.contains(x) { return Err(fail(x)) } }`
unfoldable pub require_all : (String → Error) → List String → List String → Result ⊤
require_all fail set [] = ok tt
require_all fail set (x ∷ xs) =
    let rest = require_all fail set xs in if contains set x then rest else err (fail x)

-- `if let Some(x) = iterator.next() { return Err(fail(x)) }`
unfoldable pub require_none : (String → Error) → List String → Result ⊤
require_none fail [] = ok tt
require_none fail (x ∷ _) = err (fail x)

-- `args.contains(&Arg::Trigger)`
unfoldable pub contains_trigger : List Arg → Bool
contains_trigger [] = false
contains_trigger (Arg.trigger ∷ args) = true
contains_trigger (_ ∷ args) = contains_trigger args

-- `match entrypoint.trigger { … }`
unfoldable pub check_trigger : Trigger → Result ⊤
check_trigger (Trigger.pipe _) = ok tt
check_trigger (Trigger.file_socket _) = ok tt
check_trigger Trigger.startup = err bad_trigger_argument

-- `for entrypoint in self.entrypoints.values() { … }`
unfoldable pub validate_triggers : List (String × Entrypoint) → Result ⊤
unfolding contains_trigger check_trigger
validate_triggers [] = ok tt
validate_triggers ((_, entry) ∷ rest) =
    let others = validate_triggers rest in
    if contains_trigger entry.args then check_trigger entry.trigger >> others else others

module _ (iter : List String → List String) where
  -- "validate pipes match"
  unfoldable pub validate_pipes : Ends → Result ⊤
  unfolding insert_unique remove_all require_none
  validate_pipes ends = do
    read_set ← insert_unique bad_pipe [] ends.read
    write_set ← insert_unique bad_pipe [] ends.write
    left ← remove_all bad_pipe write_set (iter read_set)
    require_none bad_pipe (iter left)

  -- "validate sockets match"
  unfoldable pub validate_sockets : Ends → Result ⊤
  unfolding insert_unique insert_all require_all require_none
  validate_sockets ends = do
    read_set ← insert_unique bad_file_socket [] ends.read
    let write_set = insert_all [] ends.write
    require_all bad_file_socket write_set (iter read_set)
    require_none bad_file_socket (iter (difference write_set read_set))

  -- `Specification::validate`
  unfoldable pub validate : Specification → Result ⊤
  unfolding validate_pipes validate_sockets validate_triggers pipes sockets
  validate spec = do
    validate_pipes (pipes spec)
    validate_sockets (sockets spec)
    validate_triggers spec.entrypoints
