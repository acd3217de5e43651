-- ===== src/Spawner/Passes.antt =====
-- spawner/args.rs: the texts that an entrypoint is started with, and what they stand for.
use void_orchestrator.Base.{
  ◌≡◌, refl, false, All, String, Option, none, some, List, [], ◌∷◌, ◌++◌, contains, nat_eq,
}
use void_orchestrator.Text.{as_bytes, decimal}
use void_orchestrator.Text.Decimal.{read_decimal, read_decimal-decimal}
use void_orchestrator.Utf8.{c_string}
use void_orchestrator.RpcMessage.{Fd}
use void_orchestrator.Specification.{Utf8}
use void_orchestrator.Spawner.State.{Spawner, TriggerData, fd_arg, trigger_args}
use void_orchestrator.Spawner.Argv.{PreparedArg, c_strings, prepare_void_arg, prepare_void}
use void_orchestrator.Spawner.Texts.{read_all, fd_arg-decimal, fd_args-read_all}

-- The descriptor that an argument passes.
abbrev pub descriptor : PreparedArg → Option Fd
descriptor (PreparedArg.file fd) = some fd
descriptor (PreparedArg.pipe fd) = some fd
descriptor (PreparedArg.file_socket fd) = some fd
descriptor (PreparedArg.tcp_listener fd) = some fd
descriptor (PreparedArg.rpc fd) = some fd
descriptor _ = none

abbrev pub HasNoZero : Utf8 → Type 0
HasNoZero s = contains s 0 ≡ false

-- The text of a pipe's trigger.
abbrev pub IsClean : TriggerData → Type 0
IsClean (TriggerData.pipe s) = HasNoZero s
IsClean _ = Unit {0}

module _ (sp : Spawner) (name : String) where
  -- No text that an argument can name holds a zero.
  pub record AreClean : Type 0 where
    pub binary : HasNoZero sp.binary.bytes
    pub entrypoint : HasNoZero (as_bytes name)
    pub trailing : All HasNoZero sp.binary_args

  -- What the texts pass, argument by argument, with the trigger's data before. A descriptor is passed
  -- as its decimal number; a trigger's text as it is; the files of a trigger at its first argument.
  pub data Passes : TriggerData → List PreparedArg → List Utf8 → Type 0 where
    nothing_left : {t : TriggerData} → Passes t [] []
    by_descriptor :
        {t : TriggerData} {p : PreparedArg} {fd : Fd} {text : Utf8} {ps : List PreparedArg}
        {texts : List Utf8}
        → descriptor p ≡ some fd
        → read_decimal text ≡ some fd
        → Passes t ps texts
        → Passes t (p ∷ ps) (text ∷ texts)
    by_binary :
        {t : TriggerData} {ps : List PreparedArg} {texts : List Utf8}
        → Passes t ps texts
        → Passes t (PreparedArg.binary_name ∷ ps) (sp.binary.bytes ∷ texts)
    by_name :
        {t : TriggerData} {ps : List PreparedArg} {texts : List Utf8}
        → Passes t ps texts
        → Passes t (PreparedArg.entrypoint ∷ ps) (as_bytes name ∷ texts)
    by_trailing :
        {t : TriggerData} {ps : List PreparedArg} {texts : List Utf8}
        → Passes t ps texts
        → Passes t (PreparedArg.trailing ∷ ps) (sp.binary_args ++ texts)
    by_nothing :
        {ps : List PreparedArg} {texts : List Utf8}
        → Passes TriggerData.nothing ps texts
        → Passes TriggerData.nothing (PreparedArg.trigger ∷ ps) texts
    by_text :
        {s : Utf8} {ps : List PreparedArg} {texts : List Utf8}
        → Passes (TriggerData.pipe s) ps texts
        → Passes (TriggerData.pipe s) (PreparedArg.trigger ∷ ps) (s ∷ texts)
    by_files :
        {fds : List Fd} (these : List Utf8) {ps : List PreparedArg} {texts : List Utf8}
        → read_all these ≡ some fds
        → Passes (TriggerData.file_socket []) ps texts
        → Passes (TriggerData.file_socket fds) (PreparedArg.trigger ∷ ps) (these ++ texts)

  -- The texts are made, and they pass what they should.
  abbrev pub MadeAndPasses : TriggerData → List PreparedArg → Type 0
  MadeAndPasses t ps =
      (texts : List Utf8) × (prepare_void sp name t ps ≡ some texts) × Passes t ps texts

pub c_string-clean : (s : Utf8) → HasNoZero s → c_string s ≡ some s
unfolding c_string
c_string-clean s clean = rw clean refl

c_strings-clean : (ss : List Utf8) → All HasNoZero ss → c_strings ss ≡ some ss
unfolding c_strings
c_strings-clean [] clean = refl
c_strings-clean (s ∷ ss) (first, rest) = rw (c_string-clean s first, c_strings-clean ss rest) refl

module _ (sp : Spawner) (name : String) (clean : AreClean sp name) where
  descriptor-Passes :
      (t : TriggerData) (p : PreparedArg) (ps : List PreparedArg) (fd : Fd)
      → descriptor p ≡ some fd
      → prepare_void_arg sp name t p ≡ some (decimal fd ∷ [], t)
      → MadeAndPasses sp name t ps
      → MadeAndPasses sp name t (p ∷ ps)
  unfolding prepare_void
  descriptor-Passes t p ps fd is_fd one (texts, made, passes) = (
    decimal fd ∷ texts,
    rw (one, made) refl,
    by_descriptor is_fd (read_decimal-decimal fd) passes,
  )

  -- If neither the path of the binary, the entrypoint's name and the trailing arguments, nor a text
  -- that a pipe brought holds a zero, then the texts of the arguments are made without a panic, and
  -- they pass, in the order of the arguments, each descriptor as the decimal number that reads back
  -- as it, the path and the name and the trailing arguments as they are, and what the trigger brought:
  -- its text at each trigger argument, or all its files, in order, at the first one.
  pub prepare_void-Passes :
      (t : TriggerData) (ps : List PreparedArg) → IsClean t → MadeAndPasses sp name t ps
  unfolding prepare_void prepare_void_arg fd_arg trigger_args
  prepare_void-Passes t [] text = ([], refl, nothing_left)
  prepare_void-Passes t (PreparedArg.file fd ∷ ps) text =
      descriptor-Passes t (PreparedArg.file fd) ps fd refl (rw (fd_arg-decimal fd) refl)
        (prepare_void-Passes t ps text)
  prepare_void-Passes t (PreparedArg.pipe fd ∷ ps) text =
      descriptor-Passes t (PreparedArg.pipe fd) ps fd refl (rw (fd_arg-decimal fd) refl)
        (prepare_void-Passes t ps text)
  prepare_void-Passes t (PreparedArg.file_socket fd ∷ ps) text =
      descriptor-Passes t (PreparedArg.file_socket fd) ps fd refl (rw (fd_arg-decimal fd) refl)
        (prepare_void-Passes t ps text)
  prepare_void-Passes t (PreparedArg.tcp_listener fd ∷ ps) text =
      descriptor-Passes t (PreparedArg.tcp_listener fd) ps fd refl (rw (fd_arg-decimal fd) refl)
        (prepare_void-Passes t ps text)
  prepare_void-Passes t (PreparedArg.rpc fd ∷ ps) text =
      descriptor-Passes t (PreparedArg.rpc fd) ps fd refl (rw (fd_arg-decimal fd) refl)
        (prepare_void-Passes t ps text)
  prepare_void-Passes t (PreparedArg.binary_name ∷ ps) text =
      let (texts, made, passes) = prepare_void-Passes t ps text in
      (sp.binary.bytes ∷ texts, rw (c_string-clean _ clean.binary, made) refl, by_binary passes)
  prepare_void-Passes t (PreparedArg.entrypoint ∷ ps) text =
      let (texts, made, passes) = prepare_void-Passes t ps text in
      (as_bytes name ∷ texts, rw (c_string-clean _ clean.entrypoint, made) refl, by_name passes)
  prepare_void-Passes t (PreparedArg.trailing ∷ ps) text =
      let (texts, made, passes) = prepare_void-Passes t ps text in
      (
        sp.binary_args ++ texts,
        rw (c_strings-clean _ clean.trailing, made) refl,
        by_trailing passes,
      )
  prepare_void-Passes TriggerData.nothing (PreparedArg.trigger ∷ ps) text =
      let (texts, made, passes) = prepare_void-Passes TriggerData.nothing ps text in
      (texts, rw made refl, by_nothing passes)
  prepare_void-Passes (TriggerData.pipe s) (PreparedArg.trigger ∷ ps) text =
      let (texts, made, passes) = prepare_void-Passes (TriggerData.pipe s) ps text in
      (s ∷ texts, rw (c_string-clean s text, made) refl, by_text passes)
  prepare_void-Passes (TriggerData.file_socket fds) (PreparedArg.trigger ∷ ps) text =
      let (these, given, read) = fd_args-read_all fds in
      let (texts, made, passes) = prepare_void-Passes (TriggerData.file_socket []) ps tt in
      (these ++ texts, rw (given, made) refl, by_files these read passes)
