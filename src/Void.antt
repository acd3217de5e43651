-- ===== src/Void.antt =====
-- void.rs: the builder of a void, and the start of a process in it.
pub mod Builder
pub mod Namespaces
pub mod Spawn
pub mod Isolation
pub mod Preparation
pub mod Spawning
pub mod Mounted
pub mod Mounts
pub mod Descriptors
use void_orchestrator.Base.{
  ℕ, String, Bool, true, false, Option, none, some, List, [], ◌∷◌, ◌==◌, nat_eq, if◌then◌else◌,
}
use void_orchestrator.Base.Sets.{insert}
use void_orchestrator.RpcMessage.{Fd}
use void_orchestrator.Paths.{path_eq}
use void_orchestrator.Specification.{FilePath}

-- `VoidBuilder`. `mounts` is a `HashMap` and `fds` a `HashSet`: each list is the order in which it
-- is iterated.
pub record VoidBuilder : Type 0 where
  pub hostname : Option String
  pub domain_name : Option String
  pub mounts : List (FilePath × FilePath)
  pub fds : List Fd
  pub remounts_proc : Bool

-- `VoidBuilder::new`
unfoldable pub new : VoidBuilder
new = record { hostname = none; domain_name = none; mounts = []; fds = []; remounts_proc = false }

unfoldable pub set_hostname : String → VoidBuilder → VoidBuilder
set_hostname hostname b = record b { hostname = some hostname }

unfoldable pub set_domain_name : String → VoidBuilder → VoidBuilder
set_domain_name domain_name b = record b { domain_name = some domain_name }

-- `HashMap::insert`: the value of a key that is present is replaced.
unfoldable pub insert_mount :
    FilePath → FilePath → List (FilePath × FilePath) → List (FilePath × FilePath)
insert_mount src dst [] = (src, dst) ∷ []
insert_mount src dst ((s, d) ∷ rest) =
    if s == src then (src, dst) ∷ rest else (s, d) ∷ insert_mount src dst rest

unfoldable pub mount : FilePath → FilePath → VoidBuilder → VoidBuilder
unfolding insert_mount
mount src dst b = record b { mounts = insert_mount src dst b.mounts }

unfoldable pub keep_fd : Fd → VoidBuilder → VoidBuilder
keep_fd fd b = record b { fds = insert fd b.fds }

unfoldable pub remount_proc : VoidBuilder → VoidBuilder
remount_proc b = record b { remounts_proc = true }

-- `HashMap::contains_key`
unfoldable pub contains_key : FilePath → List (FilePath × FilePath) → Bool
contains_key k [] = false
contains_key k ((s, _) ∷ rest) = let found = contains_key k rest in if s == k then true else found
