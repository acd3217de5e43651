-- ===== src/Void/Mounts.antt =====
-- void.rs: how `void_mount_namespace` fills the new root, call by call.
use void_orchestrator.Base.{
  ◌≡◌, refl, ap, sym, ◌∙◌, Bool, true, false, Bool-cases, Option-cases, inl, inr, Option, none,
  some, List, [], ◌∷◌, arith,
}
use void_orchestrator.Specification.{FilePath}
use void_orchestrator.Sys.{
  Call, Os, FileKind, symlink, directory, other, ms_bind, ms_rec, History, done,
}
use void_orchestrator.Program.{M, ok, pure, or_io, call, ◌>>=◌, ◌>>◌}
use void_orchestrator.Program.Runs.{
  >>=-eq_ok, call_nix_done, call_io_done, call_nix_last_done, call_io_last_done,
}
use void_orchestrator.Paths.{join, strip_root_or_self, parent}
use void_orchestrator.Void.{VoidBuilder, contains_key}
use void_orchestrator.Void.Builder.{target_of, contains_key_iff}
use void_orchestrator.Void.Namespaces.{
  root, old_root, dev_null, follow, resolve_source, create_parent, create_target, bind_mount,
  bind_mounts, all_mounts, tmp_base, pivot, remount_proc_if, drop_old_root, void_mount_namespace,
}
use void_orchestrator.Void.Mounted.{
  in_old_root, in_root, Wanted, parent_created, created, private_call, tmpfs_call, proc_call,
  put_old, based, base_of, IsPivoted, IsResolved, IsBound, AllBound, IsRemounted, IsDropped,
  IsMounted, as_given, with_null, plain, link,
}

module _ (os : Os) where
  tmp_base_lem : (h : History) → tmp_base os (private_call ∷ h) ≡ (ok (base_of os h), based os h)
  unfolding tmp_base ◌>>=◌ pure
  tmp_base_lem h = refl

  after_base :
      {A : Type 0} (k : FilePath → M A) (h : History) {h' : History} {a : A}
      → (tmp_base os >>= k) (private_call ∷ h) ≡ (ok a, h')
      → k (base_of os h) (based os h) ≡ (ok a, h')
  unfolding ◌>>=◌
  after_base k h e = rw (tmp_base_lem h) at e

  pivot-IsPivoted : (h : History) {h' : History} → pivot os h ≡ (ok tt, h') → IsPivoted os h h'
  unfolding pivot
  pivot-IsPivoted h {h'} e =
      let (_, private, e1) = call_nix_done os _ h private_call "mount" (λ r. r) e in
      let (new_root, made, e2) =
        call_io_done os _ _ (Call.tempdir_in (base_of os h)) (λ r. r) (after_base _ h e1) in
      let (_, mounted, e3) = call_nix_done os _ _ (tmpfs_call new_root) "mount" (λ r. r) e2 in
      let (_, _, e4) = call_io_done os _ _ (Call.create_dir_all (put_old new_root)) (λ r. r) e3 in
      let (_, pivoted, e5) =
        call_nix_done os _ _ (Call.pivot_root new_root (put_old new_root)) "pivot_root" (λ r. r)
          e4 in
      let (_, entered) = call_io_last_done os _ (Call.set_current_dir root) (λ r. r) e5 in
      record {
        new_root = new_root;
        private = private;
        made = made;
        mounted = mounted;
        pivoted = pivoted;
        entered = entered;
      }

  resolved_as :
      (source source_found : FilePath) (kind found : FileKind) (h : History) {h' : History}
      → pure {A = FilePath × FileKind} (source, kind) h ≡ (ok (source_found, found), h')
      → (source_found ≡ source) × (found ≡ kind) × (h' ≡ h)
  unfolding pure
  resolved_as source source_found kind found h e =
      let same : ◌≡◌ {A = FilePath × FileKind} (source, kind) (source_found, found) = cc in
      (ap (λ p. p.0) (sym same), ap (λ p. p.1) (sym same), ap (λ p. p.1) (sym e))

  followed :
      (p : FilePath) (found : FileKind) (h : History) {h' : History} {source : FilePath}
      {kind : FileKind}
      → os h (Call.symlink_metadata p) ≡ done found
      → follow os p found (Call.symlink_metadata p ∷ h) ≡ (ok (source, kind), h')
      → IsResolved os p h source kind h'
  unfolding follow
  followed p symlink h looked e =
      let (held, is_held, e1) = call_io_done os _ _ (Call.read_link p) (λ r. r) e in
      let target = join old_root (strip_root_or_self held) in
      let (kind, is_kind, e2) = call_io_done os _ _ (Call.metadata target) (λ r. r) e1 in
      let (is_source, is_found, grown) = resolved_as _ _ _ _ _ e2 in
      let below : target ≡ in_old_root held = ground arith in
      link held looked is_held (rw (← below, is_found) is_kind) (is_source ∙ below)
        (rw (← below) grown)
  followed p directory h looked e =
      let (is_source, is_found, grown) = resolved_as _ _ _ _ _ e in
      plain (rw is_found looked) (rw is_found (λ x. cc)) is_source grown
  followed p other h looked e =
      let (is_source, is_found, grown) = resolved_as _ _ _ _ _ e in
      plain (rw is_found looked) (rw is_found (λ x. cc)) is_source grown

  resolve_source-IsResolved :
      (p : FilePath) (h : History) {h' : History} {source : FilePath} {kind : FileKind}
      → resolve_source os p h ≡ (ok (source, kind), h')
      → IsResolved os p h source kind h'
  unfolding resolve_source
  resolve_source-IsResolved p h e =
      let (found, looked, e1) = call_io_done os _ h (Call.symlink_metadata p) (λ r. r) e in
      followed p found h looked e1

  parent_created_lem :
      (p : Option FilePath) (h : History) {h' : History}
      → create_parent os p h ≡ (ok tt, h')
      → h' ≡ parent_created p h
  unfolding create_parent pure
  parent_created_lem none h e = ap (λ p. p.1) (sym e)
  parent_created_lem (some p) h e = (call_io_last_done os h (Call.create_dir_all p) (λ r. r) e).1

  file_created :
      (target : FilePath) (h : History) {h' : History}
      → (create_parent os (parent target) >> (call os (Call.write_empty target) >>= λ r. or_io r)) h
        ≡ (ok tt, h')
      → h' ≡ Call.write_empty target ∷ parent_created (parent target) h
  file_created target h e =
      let (_, h1, p, e1) = >>=-eq_ok (create_parent os (parent target)) _ h e in
      (call_io_last_done os h1 (Call.write_empty target) (λ r. r) e1).1
      ∙ ap (λ t. Call.write_empty target ∷ t) (parent_created_lem (parent target) h p)

  created_lem :
      (kind : FileKind) (target : FilePath) (h : History) {h' : History}
      → create_target os kind target h ≡ (ok tt, h')
      → h' ≡ created kind target h
  unfolding create_target
  created_lem directory target h e =
      (call_io_last_done os h (Call.create_dir_all target) (λ r. r) e).1
  created_lem symlink target h e = file_created target h e
  created_lem other target h e = file_created target h e

  bind_mount-IsBound :
      (src dst : FilePath) (h : History) {h' : History}
      → bind_mount os (src, dst) h ≡ (ok tt, h')
      → IsBound os src dst h h'
  unfolding bind_mount
  bind_mount-IsBound src dst h e =
      let below : join old_root (strip_root_or_self src) ≡ in_old_root src = ground arith in
      let inside : join root (strip_root_or_self dst) ≡ in_root dst = ground arith in
      let ((source, kind), h1, p1, e1) =
        >>=-eq_ok (resolve_source os (join old_root (strip_root_or_self src))) _ h e in
      let (_, h2, p2, e2) =
        >>=-eq_ok (create_target os kind (join root (strip_root_or_self dst))) _ h1 e1 in
      let (succeeded, bound) =
        call_nix_last_done os h2
          (Call.mount (some source) (join root (strip_root_or_self dst)) none
            (ms_bind ∷ ms_rec ∷ []))
          "mount" (λ r. r) e2 in
      let made : h2 ≡ created kind (in_root dst) h1 = rw inside at (created_lem kind _ h1 p2) in
      record {
        source = source;
        kind = kind;
        looked_up = h1;
        resolved = resolve_source-IsResolved _ h (rw below at p1);
        succeeded = rw (← made) (rw inside at succeeded);
        bound = rw (← made) (rw inside at bound);
      }

  bind_mounts-AllBound :
      (mounts : List (FilePath × FilePath)) (h : History) {h' : History}
      → bind_mounts os mounts h ≡ (ok tt, h')
      → AllBound os mounts h h'
  unfolding bind_mounts pure
  bind_mounts-AllBound [] h e = ap (λ p. p.1) (sym e)
  bind_mounts-AllBound ((src, dst) ∷ mounts) h e =
      let (_, h1, p, e1) = >>=-eq_ok (bind_mount os (src, dst)) _ h e in
      (h1, bind_mount-IsBound src dst h p, bind_mounts-AllBound mounts h1 e1)

  remount_proc_if-IsRemounted :
      (b : Bool) (h : History) {h' : History}
      → remount_proc_if os b h ≡ (ok tt, h')
      → IsRemounted os b h h'
  unfolding remount_proc_if pure
  remount_proc_if-IsRemounted true h e = call_nix_last_done os h proc_call "mount" (λ r. r) e
  remount_proc_if-IsRemounted false h e = ap (λ p. p.1) (sym e)

  drop_old_root-IsDropped :
      (h : History) {h' : History} → drop_old_root os h ≡ (ok tt, h') → IsDropped os h h'
  unfolding drop_old_root
  drop_old_root-IsDropped h e =
      let (_, detached, e1) =
        call_nix_done os _ h (Call.umount_detach old_root) "umount2" (λ r. r) e in
      let (deleted, grown) =
        call_io_last_done os (Call.umount_detach old_root ∷ h) (Call.remove_dir old_root) (λ r. r)
          e1 in
      (detached, deleted, grown)

  absent_key :
      (k : FilePath) (ms : List (FilePath × FilePath))
      → contains_key k ms ≡ false
      → target_of k ms ≡ none
  absent_key k ms absent = elim (Option-cases (target_of k ms)) [
    | inl e ↦ e
    | inr (dst, e) ↦
        let there : contains_key k ms ≡ true = (contains_key_iff k ms).1 (λ x. cc) in cc
  ]

  all_mounts-Wanted : (ms : List (FilePath × FilePath)) → Wanted ms (all_mounts ms)
  unfolding all_mounts
  all_mounts-Wanted ms = elim (Bool-cases (contains_key dev_null ms)) [
    | inl there ↦ rw there (as_given ((contains_key_iff dev_null ms).0 there))
    | inr absent ↦ rw absent (with_null (absent_key dev_null ms absent))
  ]

  -- If `void_mount_namespace` returns, then these are all its calls, in this order, and those that
  -- mount, pivot or delete have succeeded: a file system is mounted on a new directory that becomes
  -- the root; each mount of the builder, and that of /dev/null if the builder has none of it, is bound
  -- to its target in the new root, from its path below the old root or, if that is a symbolic link,
  -- from what the link holds, also below the old root, after its target was made; /proc is mounted
  -- anew if the builder asks for it; and at last the old root is detached and its mount point deleted.
  pub void_mount_namespace-IsMounted :
      (b : VoidBuilder) (h : History) {h' : History}
      → void_mount_namespace os b h ≡ (ok tt, h')
      → IsMounted os b h h'
  unfolding void_mount_namespace
  void_mount_namespace-IsMounted b h e =
      let (_, h1, p1, e1) = >>=-eq_ok (pivot os) _ h e in
      let (_, h2, p2, e2) = >>=-eq_ok (bind_mounts os (all_mounts b.mounts)) _ h1 e1 in
      let (_, h3, p3, e3) = >>=-eq_ok (remount_proc_if os b.remounts_proc) _ h2 e2 in
      record {
        pivoted = h1;
        filled = h2;
        remounted = h3;
        mounts = all_mounts b.mounts;
        wanted = all_mounts-Wanted b.mounts;
        pivots = pivot-IsPivoted h p1;
        fills = bind_mounts-AllBound (all_mounts b.mounts) h1 p2;
        remounts = remount_proc_if-IsRemounted b.remounts_proc h2 p3;
        drops = drop_old_root-IsDropped h3 e3;
      }
