-- ===== src/Void/Descriptors.antt =====
-- void.rs: what `void_file_descriptors` closes, overwrites and keeps.
use mathlib.Core.List.{Memᴰ}
use void_orchestrator.Base.{
  ℕ, ◌≡◌, refl, false, Option, none, some, List, [], ◌∷◌, arith, contains, nat_eq, Bool-cases, inl,
  inr,
}
use void_orchestrator.RpcMessage.{Fd}
use void_orchestrator.Specification.{FilePath}
use void_orchestrator.Sys.{Call, Os, History}
use void_orchestrator.Program.{M, ok, call, ◌>>◌}
use void_orchestrator.Program.Runs.{
  Makes, Makes-mono, Makes-bind, Makes-call, Makes-or_nix, makes_rules, AnyCall,
}
use void_orchestrator.Program.Ensures.{
  Ensures, IsKept, Ensures-last, Ensures-first, Ensures-call, Ensures-mono, Ensures-both,
}
use void_orchestrator.Void.{VoidBuilder}
use void_orchestrator.Void.Namespaces.{
  from_bits_truncate, remove_cloexec, take_or_open, overwrite_std, drop_dev_null, keep_on_exec,
  void_file_descriptors,
}

-- Every descriptor of the list has been given the empty flags, without close-on-exec.
abbrev pub AllKeptOpen : List Fd → History → Type 0
AllKeptOpen [] h = Unit
AllKeptOpen (fd ∷ fds) h = Memᴰ (Call.set_fd_flags fd 0) h × AllKeptOpen fds h

-- Every descriptor of the list that is not to be kept has been overwritten by another one.
abbrev pub AllOverwritten : List Fd → List Fd → History → Type 0
AllOverwritten keep [] h = Unit
AllOverwritten keep (fd ∷ fds) h =
    (contains keep fd ≡ false → (from : Fd) × Memᴰ (Call.dup2 from fd) h)
    × AllOverwritten keep fds h

-- The call overwrites no descriptor that is to be kept, and closes them by number only from 3 on and
-- without those to be kept.
abbrev pub Spares : List Fd → Call → Type 0
Spares keep (Call.dup2 from to) = contains keep to ≡ false
Spares keep (Call.close_from kept least) = (kept ≡ keep) × (least ≡ 3)
Spares keep _ = Unit

AllKeptOpen-IsKept : (fds : List Fd) → IsKept (AllKeptOpen fds)
AllKeptOpen-IsKept [] h h' keep _ = tt
AllKeptOpen-IsKept (fd ∷ fds) h h' keep (m, rest) =
    (keep _ m, AllKeptOpen-IsKept fds h h' keep rest)

AllOverwritten-IsKept : (kept fds : List Fd) → IsKept (AllOverwritten kept fds)
AllOverwritten-IsKept kept [] h h' keep _ = tt
AllOverwritten-IsKept kept (fd ∷ fds) h h' keep (m, rest) = (
  λ free. let (from, mem) = m free in (from, keep _ mem),
  AllOverwritten-IsKept kept fds h h' keep rest,
)

no_flags : (bits : ℕ) → remove_cloexec (from_bits_truncate bits) ≡ 0
no_flags bits = omega arith

module _ (os : Os) where
  grows : {A : Type 0} {keep : List Fd} (m : M A) → Makes (Spares keep) m → Makes AnyCall m
  grows m = Makes-mono m (λ _ _. tt)

  take_or_open-Makes : (keep : List Fd) (o : Option Fd) → Makes (Spares keep) (take_or_open os o)
  unfolding take_or_open
  take_or_open-Makes keep none = search (makes_rules, tt)
  take_or_open-Makes keep (some fd) = search makes_rules

  overwrite_std-Makes :
      (keep stdfds : List Fd) (o : Option Fd) → Makes (Spares keep) (overwrite_std os keep stdfds o)
  unfolding overwrite_std
  overwrite_std-Makes keep [] o = search makes_rules
  overwrite_std-Makes keep (stdfd ∷ stdfds) o = elim (Bool-cases (contains keep stdfd)) [
    | inl kept ↦ rw kept (overwrite_std-Makes keep stdfds o)
    | inr free ↦ rw free (
        Makes-bind _ _ (take_or_open-Makes keep o) λ fd.
          Makes-bind _ _ (Makes-call os (Call.dup2 fd stdfd) free) λ r.
            Makes-bind _ _ (Makes-or_nix "dup2" r) λ _. overwrite_std-Makes keep stdfds (some fd))
  ]

  drop_dev_null-Makes :
      (keep : List Fd) (mounts : List (FilePath × FilePath))
      → Makes (Spares keep) (drop_dev_null os mounts)
  unfolding drop_dev_null
  drop_dev_null-Makes keep mounts = search (makes_rules, tt)

  keep_on_exec-Makes : (keep fds : List Fd) → Makes (Spares keep) (keep_on_exec os fds)
  unfolding keep_on_exec
  keep_on_exec-Makes keep [] = search makes_rules
  keep_on_exec-Makes keep (fd ∷ fds) = Makes-bind _ _ (Makes-call os (Call.get_fd_flags fd) tt) λ r.
      Makes-bind _ _ (Makes-or_nix "fcntl" r) λ bits.
        Makes-bind _ _ (Makes-call os (Call.set_fd_flags fd _) tt)
          λ r'. Makes-bind _ _ (Makes-or_nix "fcntl" r') λ _. keep_on_exec-Makes keep fds

  -- What follows the overwriting, and what follows the closing.
  after_std :
      (b : VoidBuilder) → Makes (Spares b.fds) (drop_dev_null os b.mounts >> keep_on_exec os b.fds)
  after_std b =
      Makes-bind _ _ (drop_dev_null-Makes b.fds b.mounts) λ _. keep_on_exec-Makes b.fds b.fds

  after_close :
      (b : VoidBuilder)
      → Makes (Spares b.fds) (
          overwrite_std os b.fds (0 ∷ 1 ∷ 2 ∷ []) none
          >> (drop_dev_null os b.mounts >> keep_on_exec os b.fds))
  after_close b = Makes-bind _ _ (overwrite_std-Makes b.fds (0 ∷ 1 ∷ 2 ∷ []) none) λ _. after_std b

  -- Whether it succeeds or not, `void_file_descriptors` never overwrites a descriptor that the
  -- builder keeps, and every closing of a range that it asks for begins at 3 and leaves out exactly
  -- the descriptors that the builder keeps.
  pub void_file_descriptors-Spares :
      (b : VoidBuilder) → Makes (Spares b.fds) (void_file_descriptors os b)
  unfolding void_file_descriptors
  void_file_descriptors-Spares b =
      Makes-bind _ _ (Makes-call os (Call.close_from b.fds 3) (refl, refl)) λ _. after_close b

  keep_on_exec-AllKeptOpen : (fds : List Fd) → Ensures (AllKeptOpen fds) (keep_on_exec os fds)
  unfolding keep_on_exec
  keep_on_exec-AllKeptOpen [] = record { at = λ h e. tt }
  keep_on_exec-AllKeptOpen (fd ∷ fds) = Ensures-last _ _ λ r. Ensures-last _ _ λ bits.
      Ensures-both _
        (Ensures-first _ _ (λ _ _ keep m. keep _ m)
          (rw no_flags (Ensures-call os (Call.set_fd_flags fd 0)))
          λ r'. grows _ (Makes-bind _ _ (Makes-or_nix "fcntl" r') λ _. keep_on_exec-Makes [] fds))
        (Ensures-last _ _ λ r'. Ensures-last _ _ λ _. keep_on_exec-AllKeptOpen fds)

  overwrite_std-AllOverwritten :
      (keep stdfds : List Fd) (o : Option Fd)
      → Ensures (AllOverwritten keep stdfds) (overwrite_std os keep stdfds o)
  unfolding overwrite_std
  overwrite_std-AllOverwritten keep [] o = record { at = λ h e. tt }
  overwrite_std-AllOverwritten keep (stdfd ∷ stdfds) o = elim (Bool-cases (contains keep stdfd)) [
    | inl kept ↦ rw kept (
        Ensures-mono _ (λ h rest. (λ free. absurd (cc), rest))
          (overwrite_std-AllOverwritten keep stdfds o))
    | inr free ↦ rw free (
        Ensures-last _ _ λ fd.
          Ensures-both _
            (Ensures-first _ _
              (λ _ _ keep' m free'. let (from, mem) = m free' in (from, keep' _ mem))
              (Ensures-mono _ (λ h mem _. (fd, mem)) (Ensures-call os (Call.dup2 fd stdfd)))
              λ r. grows _ (
                Makes-bind _ _ (Makes-or_nix "dup2" r)
                  λ _. overwrite_std-Makes keep stdfds (some fd)))
            (Ensures-last _ _
              λ r. Ensures-last _ _ λ _. overwrite_std-AllOverwritten keep stdfds (some fd)))
  ]

  -- Where `void_file_descriptors` has returned.
  pub record IsClosed (b : VoidBuilder) (h : History) : Type 0 where
    pub closed : Memᴰ (Call.close_from b.fds 3) h
    pub overwritten : AllOverwritten b.fds (0 ∷ 1 ∷ 2 ∷ []) h
    pub kept : AllKeptOpen b.fds h

  pub void_file_descriptors-IsClosed :
      (b : VoidBuilder) (h : History) {h' : History}
      → void_file_descriptors os b h ≡ (ok tt, h')
      → IsClosed b h'
  unfolding void_file_descriptors
  void_file_descriptors-IsClosed b h e =
      let fds = b.fds in
      let stds = 0 ∷ 1 ∷ 2 ∷ [] in
      record {
        closed =
            (Ensures-first _ _ (λ _ _ keep m. keep _ m) (Ensures-call os (Call.close_from fds 3))
                (λ _. grows _ (after_close b))).at
              h e;
        overwritten =
            (Ensures-last (call os (Call.close_from fds 3)) _ λ _.
                Ensures-first (overwrite_std os fds stds none) _ (AllOverwritten-IsKept fds stds)
                  (overwrite_std-AllOverwritten fds stds none) (λ _. grows _ (after_std b))).at
              h e;
        kept =
            (Ensures-last (call os (Call.close_from fds 3)) _
                λ _. Ensures-last _ _ λ _. Ensures-last _ _ λ _. keep_on_exec-AllKeptOpen fds).at
              h e;
      }
