-- ===== src/Void/Builder.antt =====
-- void.rs: what the builder of a void knows after its operations.
use void_orchestrator.Base.{
  ◌≡◌, ◌≢◌, ◌↔◌, ◌++◌, refl, true, Option, none, some, List, [], ◌∷◌, arith, Bool-cases, inl, inr,
  ◌==◌, nat_eq, if◌then◌else◌,
}
use void_orchestrator.Paths.{path_eq, path_beq_iff}
use void_orchestrator.Specification.{FilePath}
use void_orchestrator.Void.{VoidBuilder, insert_mount, mount, contains_key}
use void_orchestrator.Void.Namespaces.{dev_null, all_mounts}

-- Where the source is mounted.
abbrev pub target_of : FilePath → List (FilePath × FilePath) → Option FilePath
target_of src [] = none
target_of src ((s, dst) ∷ rest) =
    let others = target_of src rest in if s == src then some dst else others

target_of-insert_mount :
    (k src dst : FilePath) (ms : List (FilePath × FilePath))
    → target_of k (insert_mount src dst ms) ≡ (if src == k then some dst else target_of k ms)
unfolding insert_mount
target_of-insert_mount k src dst [] = refl
target_of-insert_mount k src dst ((s, d) ∷ rest) = ground (
  arith,
  target_of-insert_mount k src dst rest,
  path_beq_iff s src,
  path_beq_iff src k,
  path_beq_iff s k,
)

-- After `mount` of a source, that source is mounted at the given target only, whatever it was
-- mounted at before, and every other source is mounted as it was. The descriptors to keep are the
-- same.
pub target_of-mount :
    (k src dst : FilePath) (b : VoidBuilder)
    → (target_of k (mount src dst b).mounts ≡ (if src == k then some dst else target_of k b.mounts))
      × ((mount src dst b).fds ≡ b.fds)
unfolding mount
target_of-mount k src dst b = (target_of-insert_mount k src dst b.mounts, refl)

-- The key of a map is one that has a target.
pub contains_key_iff :
    (k : FilePath) (ms : List (FilePath × FilePath))
    → (contains_key k ms ≡ true) ↔ (target_of k ms ≢ none)
unfolding contains_key
contains_key_iff k [] = ground arith
contains_key_iff k ((s, d) ∷ rest) = ground (arith, contains_key_iff k rest, path_beq_iff s k)

target_of-append :
    (k src dst : FilePath) (ms : List (FilePath × FilePath))
    → target_of k (ms ++ ((src, dst) ∷ []))
      ≡ elim (target_of k ms) [ none ↦ (if src == k then some dst else none) | some d ↦ some d ]
target_of-append k src dst [] = ground arith
target_of-append k src dst ((s, d) ∷ rest) =
    ground (arith, target_of-append k src dst rest, path_beq_iff s k, path_beq_iff src k)

-- What the new root is given: every source that the builder mounts is mounted where the builder
-- mounts it, /dev/null is mounted at /dev/null unless the builder mounts it elsewhere, and nothing
-- else is mounted.
pub target_of-all_mounts :
    (k : FilePath) (ms : List (FilePath × FilePath))
    → target_of k (all_mounts ms) ≡ elim (target_of k ms) [
      | none ↦ (if dev_null == k then some dev_null else none)
      | some d ↦ some d
    ]
unfolding all_mounts
target_of-all_mounts k ms = elim (Bool-cases (contains_key dev_null ms)) [
  | inl there ↦ ground (arith, contains_key_iff dev_null ms, path_beq_iff dev_null k)
  | inr absent ↦ rw absent (target_of-append k dev_null dev_null ms)
]
