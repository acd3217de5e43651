-- ===== src/Void/Mounted.antt =====
-- void.rs: the calls of a `void_mount_namespace` that returns, as a relation between histories.
use void_orchestrator.Base.{
  ◌≡◌, ◌≢◌, ◌++◌, Bool, true, false, Option, none, some, List, [], ◌∷◌, if◌then◌else◌,
}
use void_orchestrator.Specification.{FilePath}
use void_orchestrator.Sys.{
  Call, Os, FileKind, symlink, directory, other, ms_bind, ms_rec, ms_private, History, done,
}
use void_orchestrator.Paths.{absolute, relative, join, parent}
use void_orchestrator.Void.{VoidBuilder}
use void_orchestrator.Void.Builder.{target_of}
use void_orchestrator.Void.Namespaces.{root, old_root, dev_null, proc}

-- Where a path of the host is found below the old root, and where one of the void is in the new root.
abbrev pub in_old_root : FilePath → FilePath
in_old_root p = absolute ("old_root" ∷ p.components)

abbrev pub in_root : FilePath → FilePath
in_root p = absolute p.components

-- The mounts to make: those of the builder, and that of /dev/null if the builder has none of it.
pub data Wanted (ms : List (FilePath × FilePath)) : List (FilePath × FilePath) → Type 0 where
  as_given : target_of dev_null ms ≢ none → Wanted ms ms
  with_null : target_of dev_null ms ≡ none → Wanted ms (ms ++ ((dev_null, dev_null) ∷ []))

-- The call that binds a source where a mount wants it.
abbrev pub bind_call : FilePath → FilePath → Call
bind_call source dst = Call.mount (some source) (in_root dst) none (ms_bind ∷ ms_rec ∷ [])

-- The calls that make a target: a directory, or an empty file in its directory.
abbrev pub parent_created : Option FilePath → History → History
parent_created none h = h
parent_created (some p) h = Call.create_dir_all p ∷ h

abbrev pub created : FileKind → FilePath → History → History
created directory target h = Call.create_dir_all target ∷ h
created symlink target h = Call.write_empty target ∷ parent_created (parent target) h
created other target h = Call.write_empty target ∷ parent_created (parent target) h

abbrev pub private_call : Call
private_call = Call.mount none root none (ms_private ∷ [])

abbrev pub tmpfs_call : FilePath → Call
tmpfs_call new_root = Call.mount (some (relative ("tmpfs" ∷ []))) new_root (some "tmpfs") []

abbrev pub proc_call : Call
proc_call = Call.mount (some (relative ("proc" ∷ []))) proc (some "proc") []

abbrev pub put_old : FilePath → FilePath
put_old new_root = join new_root (relative ("old_root" ∷ []))

module _ (os : Os) where
  -- The directory for temporary files, as it is found after `h`, if it is there, or else `/`.
  abbrev pub env_dir : History → FilePath
  env_dir h = os (private_call ∷ h) Call.temp_dir

  abbrev pub based : History → History
  based h = Call.exists (env_dir h) ∷ Call.temp_dir ∷ private_call ∷ h

  abbrev pub base_of : History → FilePath
  base_of h =
      if os (Call.temp_dir ∷ private_call ∷ h) (Call.exists (env_dir h)) then env_dir h else root

  -- The new root is made and entered: all mounts are made private; a file system is mounted on a new
  -- directory, and it becomes the root, with the old one below it. These are all the calls.
  pub record IsPivoted (h h' : History) : Type 0 where
    pub new_root : FilePath
    pub private : os h private_call ≡ done tt
    pub made : os (based h) (Call.tempdir_in (base_of h)) ≡ done new_root
    pub mounted : os (Call.tempdir_in (base_of h) ∷ based h) (tmpfs_call new_root) ≡ done tt
    pub pivoted :
        os
          (Call.create_dir_all (put_old new_root)
            ∷ tmpfs_call new_root
            ∷ Call.tempdir_in (base_of h)
            ∷ based h)
          (Call.pivot_root new_root (put_old new_root))
        ≡ done tt
    pub entered :
        h'
        ≡ Call.set_current_dir root
          ∷ Call.pivot_root new_root (put_old new_root)
          ∷ Call.create_dir_all (put_old new_root)
          ∷ tmpfs_call new_root
          ∷ Call.tempdir_in (base_of h)
          ∷ based h

  -- The source of a mount: the path below the old root, or if that is a symbolic link, the path that
  -- it holds, also below the old root; its kind; and the history after it was looked up.
  pub data IsResolved (p : FilePath) (h : History) (source : FilePath) (kind : FileKind)
      (h' : History) : Type 0 where
    plain :
        os h (Call.symlink_metadata p) ≡ done kind
        → kind ≢ symlink
        → source ≡ p
        → h' ≡ Call.symlink_metadata p ∷ h
        → IsResolved p h source kind h'
    link :
        (held : FilePath)
        → os h (Call.symlink_metadata p) ≡ done symlink
        → os (Call.symlink_metadata p ∷ h) (Call.read_link p) ≡ done held
        → os (Call.read_link p ∷ Call.symlink_metadata p ∷ h) (Call.metadata (in_old_root held))
          ≡ done kind
        → source ≡ in_old_root held
        → h' ≡ Call.metadata (in_old_root held) ∷ Call.read_link p ∷ Call.symlink_metadata p ∷ h
        → IsResolved p h source kind h'

  -- One mount is made: its source is looked up, its target is made, and the source is bound to it.
  pub record IsBound (src dst : FilePath) (h h' : History) : Type 0 where
    pub source : FilePath
    pub kind : FileKind
    pub looked_up : History
    pub resolved : IsResolved (in_old_root src) h source kind looked_up
    pub succeeded : os (created kind (in_root dst) looked_up) (bind_call source dst) ≡ done tt
    pub bound : h' ≡ bind_call source dst ∷ created kind (in_root dst) looked_up

  -- The mounts of the list are made, one after the other.
  abbrev pub AllBound : List (FilePath × FilePath) → History → History → Type 0
  AllBound [] h h' = h' ≡ h
  AllBound ((src, dst) ∷ mounts) h h' =
      (h1 : History) × IsBound src dst h h1 × AllBound mounts h1 h'

  -- A new /proc is mounted, if it is asked for.
  abbrev pub IsRemounted : Bool → History → History → Type 0
  IsRemounted true h h' = (os h proc_call ≡ done tt) × (h' ≡ proc_call ∷ h)
  IsRemounted false h h' = h' ≡ h

  -- The old root is detached, and then its mount point is deleted.
  abbrev pub IsDropped : History → History → Type 0
  IsDropped h h' =
      (os h (Call.umount_detach old_root) ≡ done tt)
      × (os (Call.umount_detach old_root ∷ h) (Call.remove_dir old_root) ≡ done tt)
      × (h' ≡ Call.remove_dir old_root ∷ Call.umount_detach old_root ∷ h)

  -- All the calls of `void_mount_namespace` that returned, from one history to another.
  pub record IsMounted (b : VoidBuilder) (h h' : History) : Type 0 where
    pub pivoted : History
    pub filled : History
    pub remounted : History
    pub mounts : List (FilePath × FilePath)
    pub wanted : Wanted b.mounts mounts
    pub pivots : IsPivoted h pivoted
    pub fills : AllBound mounts pivoted filled
    pub remounts : IsRemounted b.remounts_proc filled remounted
    pub drops : IsDropped remounted h'
