-- ===== src/Void/Isolation.antt =====
-- void.rs: what the preparation of a void has done when it returns.
use mathlib.Core.Option.{get_or}
use void_orchestrator.Base.{ℕ, String, ◌≡◌, ap, sym, ◌∙◌, List, ◌∷◌, nat_eq}
use void_orchestrator.Text.{codes}
use void_orchestrator.RpcMessage.{Fd}
use void_orchestrator.Sys.{Call, Os, History}
use void_orchestrator.Clone.{Addresses}
use void_orchestrator.Program.{ok, pure, ◌>>=◌, ◌>>◌}
use void_orchestrator.Program.Runs.{>>=-eq_ok, call_nix-eq_ok, call_io-eq_ok, call_nix_last-eq_ok}
use void_orchestrator.Void.{VoidBuilder}
use void_orchestrator.Void.Namespaces.{
  proc_self, id_map, write_proc_file, void_user_namespace, void_mount_namespace,
  void_file_descriptors, void_ipc_namespace, void_uts_namespace, void_network_namespace,
  void_pid_namespace, void_cgroup_namespace,
}
use void_orchestrator.Void.Mounted.{IsMounted}
use void_orchestrator.Void.Mounts.{void_mount_namespace-IsMounted}
use void_orchestrator.Void.Descriptors.{IsClosed, void_file_descriptors-IsClosed}
use void_orchestrator.Void.Spawn.{prepare}

-- The three calls that write a text to a file of /proc/self, on a history.
abbrev pub written : String → List ℕ → Fd → History → History
written name text fd h =
    Call.close fd ∷ Call.write_all fd text ∷ Call.open_write (proc_self name) ∷ h

-- The calls that name the host and the domain as the builder has them, or "void" and "(none)".
abbrev pub named_calls : VoidBuilder → History → History
named_calls b h =
    Call.setdomainname (get_or b.domain_name "(none)")
    ∷ Call.sethostname (get_or b.hostname "void")
    ∷ h

module _ (os : Os) where
  write_proc_file-eq_ok :
      (name : String) (text : List ℕ) (h : History) {h' : History}
      → write_proc_file os name text h ≡ (ok tt, h')
      → (fd : Fd) × (h' ≡ written name text fd h)
  unfolding write_proc_file
  write_proc_file-eq_ok name text h e =
      let (fd, e1) = call_io-eq_ok os _ h (Call.open_write (proc_self name)) (λ r. r) e in
      let (_, e2) = call_io-eq_ok os _ _ (Call.write_all fd text) (λ r. r) e1 in
      (fd, call_nix_last-eq_ok os _ (Call.close fd) "close" (λ r. r) e2)

  -- The user namespace has the one user and the one group of the parent as its root, and
  -- setgroups(2) has been denied before the group was mapped. These are all the calls since `h`.
  abbrev pub IsMapped : ℕ → ℕ → History → History → Type 0
  IsMapped uid gid h h' =
      (a b c : Fd) × (h'
        ≡ written "gid_map" (id_map gid) c
            (written "setgroups" (codes "deny\n") b (written "uid_map" (id_map uid) a h)))

  void_user_namespace-IsMapped :
      (uid gid : ℕ) (h : History) {h' : History}
      → void_user_namespace os uid gid h ≡ (ok tt, h')
      → IsMapped uid gid h h'
  unfolding void_user_namespace
  void_user_namespace-IsMapped uid gid h e =
      let (_, h1, p1, e1) = >>=-eq_ok (write_proc_file os "uid_map" (id_map uid)) _ h e in
      let (_, h2, p2, e2) = >>=-eq_ok (write_proc_file os "setgroups" (codes "deny\n")) _ h1 e1 in
      let (a, q1) = write_proc_file-eq_ok "uid_map" (id_map uid) h p1 in
      let (b, q2) = write_proc_file-eq_ok "setgroups" (codes "deny\n") h1 p2 in
      let (c, q3) = write_proc_file-eq_ok "gid_map" (id_map gid) h2 e2 in
      (a, b, c, q3 ∙ ap (written "gid_map" _ c) (q2 ∙ ap (written "setgroups" _ b) q1))

  void_uts_namespace-eq_ok :
      (b : VoidBuilder) (h : History) {h' : History}
      → void_uts_namespace os b h ≡ (ok tt, h')
      → h' ≡ named_calls b h
  unfolding void_uts_namespace
  void_uts_namespace-eq_ok b h e =
      let (_, e1) =
        call_nix-eq_ok os _ h (Call.sethostname (get_or b.hostname "void")) "sethostname" (λ r. r)
          e in
      call_nix_last-eq_ok os _ (Call.setdomainname (get_or b.domain_name "(none)")) "setdomainname"
        (λ r. r) e1

-- The preparation of a void for a builder, from one history to another: the user namespace is
-- mapped first; then the new root is mounted; then the descriptors are closed; and the last two
-- calls name the host and the domain.
pub record IsPrepared (os : Os) (b : VoidBuilder) (uid gid : ℕ) (h h' : History) : Type 0 where
  pub mapped : History
  pub mounted : History
  pub closed : History
  pub user : IsMapped os uid gid h mapped
  pub mounts : IsMounted os b mapped mounted
  pub descriptors : IsClosed os b closed
  pub descriptors_ran : void_file_descriptors os b mounted ≡ (ok tt, closed)
  pub named : h' ≡ named_calls b closed

void_ipc_namespace-eq_ok :
    (h : History) {h' : History} → void_ipc_namespace h ≡ (ok tt, h') → h' ≡ h
unfolding void_ipc_namespace pure
void_ipc_namespace-eq_ok h e = ap (λ p. p.1) (sym e)

last_namespaces-eq_ok :
    (h : History) {h' : History}
    → (void_network_namespace >> (void_pid_namespace >> void_cgroup_namespace)) h ≡ (ok tt, h')
    → h' ≡ h
unfolding void_network_namespace void_pid_namespace void_cgroup_namespace ◌>>=◌
last_namespaces-eq_ok h e = ap (λ p. p.1) (sym e)

module _ (os : Os) (at : Addresses) (b : VoidBuilder) (uid gid : ℕ) where
  -- If the preparation of a void returns, then these calls have been made, in this order: those
  -- that map the one user and the one group of the parent, with setgroups(2) denied between the
  -- two; those that make a new root and enter it, bind in it each mount of the builder, and
  -- /dev/null if it has none of that, from the old one, mount /proc anew if the builder asks for
  -- it, and drop the old one; those that close, overwrite and keep the descriptors; and at last
  -- those that name the host and the domain.
  pub prepare-IsPrepared :
      (h : History) {h' : History}
      → prepare os at b uid gid h ≡ (ok tt, h')
      → IsPrepared os b uid gid h h'
  unfolding prepare
  prepare-IsPrepared h e =
      let (_, h1, p1, e1) = >>=-eq_ok (void_user_namespace os uid gid) _ h e in
      let (_, h2, p2, e2) = >>=-eq_ok (void_mount_namespace os b) _ h1 e1 in
      let (_, h3, p3, e3) = >>=-eq_ok (void_file_descriptors os b) _ h2 e2 in
      let (_, h4, p4, e4) = >>=-eq_ok void_ipc_namespace _ h3 e3 in
      let (_, h5, p5, e5) = >>=-eq_ok (void_uts_namespace os b) _ h4 e4 in
      record {
        mapped = h1;
        mounted = h2;
        closed = h3;
        user = void_user_namespace-IsMapped os uid gid h p1;
        mounts = void_mount_namespace-IsMounted os b h1 p2;
        descriptors = void_file_descriptors-IsClosed os b h2 p3;
        descriptors_ran = p3;
        named =
            last_namespaces-eq_ok h5 e5
            ∙ void_uts_namespace-eq_ok os b h4 p5
            ∙ ap (named_calls b) (void_ipc_namespace-eq_ok h3 p4);
      }
