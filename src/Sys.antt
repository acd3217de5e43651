-- ===== src/Sys.antt =====
-- The operating system, which is not part of the repository: the calls that the program makes and
-- the answers that they can have. An `Os` answers each call, and may answer by all that was called
-- before. Nothing is assumed of its answers.
use void_orchestrator.Base.{ℕ, ℤ, String, Bool, Option, List, ⊤}
use void_orchestrator.Failure.{Errno}
use void_orchestrator.Specification.{FilePath, SocketAddr, Utf8}
use void_orchestrator.RpcMessage.{Fd, RpcResultSend}

pub data MsFlag : Type 0 where
  ms_private ms_bind ms_rec : MsFlag

-- `CloneArgsFfi` of clone.rs, the structure that clone3(2) is given: each field is a `u64`.
pub record CloneArgsFfi : Type 0 where
  pub flags : ℕ
  pub pidfd : ℕ
  pub child_tid : ℕ
  pub parent_tid : ℕ
  pub exit_signal : ℕ
  pub stack : ℕ
  pub stack_size : ℕ
  pub tls : ℕ
  pub set_tid : ℕ
  pub set_tid_size : ℕ
  pub cgroup : ℕ

-- What a successful clone3(2) returns, and what the variables `pidfd`, `child_tid` and `parent_tid`
-- hold afterwards.
pub record Cloned : Type 0 where
  pub pid : ℕ
  pub pidfd : Fd
  pub child_tid : ℕ
  pub parent_tid : ℕ

-- The kinds that `Metadata::is_symlink` and `Metadata::is_dir` tell apart.
pub data FileKind : Type 0 where
  symlink directory other : FileKind

-- A `std::io::Error`: what its `raw_os_error` gives.
pub record IoError : Type 0 where
  pub raw_os_error : Option Errno

-- The cases of `nix::sys::wait::WaitStatus` that the program tells apart.
pub data WaitStatus : Type 0 where
  exited : ℕ → ℤ → WaitStatus
  signaled : ℕ → ℕ → WaitStatus
  other : WaitStatus

-- What poll(2) reports of a descriptor, where it reports no other event.
pub record Events : Type 0 where
  pub readable : Bool
  pub hung_up : Bool

pub data Call : Type 0 where
  -- processes
  clone3 : CloneArgsFfi → Call
  fork : Call
  ignore_sighup : Call
  stop_self : Call
  waitid : Call
  execv : FilePath → List Utf8 → Call
  getuid getgid : Call
  -- the file system
  mount : Option FilePath → FilePath → Option String → List MsFlag → Call
  umount_detach : FilePath → Call
  pivot_root : FilePath → FilePath → Call
  temp_dir : Call
  exists : FilePath → Call
  tempdir_in : FilePath → Call
  create_dir_all : FilePath → Call
  set_current_dir : FilePath → Call
  symlink_metadata : FilePath → Call
  metadata : FilePath → Call
  read_link : FilePath → Call
  canonicalize : FilePath → Call
  write_empty : FilePath → Call
  remove_dir : FilePath → Call
  -- descriptors
  open_read : FilePath → Call
  open_write : FilePath → Call
  write_all : Fd → Utf8 → Call
  close : Fd → Call
  close_from : List Fd → ℕ → Call
  dup : Fd → Call
  dup2 : Fd → Fd → Call
  get_fd_flags : Fd → Call
  set_fd_flags : Fd → ℕ → Call
  pipe2 : Call
  socketpair : Call
  bind_listener : SocketAddr → Call
  -- names of the host
  sethostname : String → Call
  setdomainname : String → Call
  -- the sockets of an RPC
  connect_tcp : Utf8 → Call
  bind_udp : Utf8 → Call
  connect_udp : Fd → Utf8 → Call
  send_rights : Fd → List Fd → Call
  send : Fd → RpcResultSend → Call
  -- those of the example programs
  print : Utf8 → Call
  write : Fd → Utf8 → Call
  open_text : Utf8 → Call
  file_len : Fd → Call
  copy : Fd → Fd → Call
  handle_sigint : Call
  set_nonblocking : Fd → Call
  poll : List Fd → ℤ → Call
  accept : Fd → Call
  stream_pair : Call

pub data Answer (E A : Type 0) : Type 0 where
  done : A → Answer E A
  fail : E → Answer E A

-- The result of a call through `nix`, and of one through `std`.
abbrev pub Nix : Type 0 → Type 0
Nix = Answer Errno

abbrev pub Io : Type 0 → Type 0
Io = Answer IoError

abbrev pub ReplyOf : Call → Type 0
ReplyOf (Call.clone3 _) = Nix Cloned
ReplyOf Call.fork = Nix ℕ
ReplyOf Call.ignore_sighup = Nix ⊤
ReplyOf Call.stop_self = Nix ⊤
ReplyOf Call.waitid = Nix WaitStatus
ReplyOf (Call.execv _ _) = Nix ⊤
ReplyOf Call.getuid = ℕ
ReplyOf Call.getgid = ℕ
ReplyOf (Call.mount _ _ _ _) = Nix ⊤
ReplyOf (Call.umount_detach _) = Nix ⊤
ReplyOf (Call.pivot_root _ _) = Nix ⊤
ReplyOf Call.temp_dir = FilePath
ReplyOf (Call.exists _) = Bool
ReplyOf (Call.tempdir_in _) = Io FilePath
ReplyOf (Call.create_dir_all _) = Io ⊤
ReplyOf (Call.set_current_dir _) = Io ⊤
ReplyOf (Call.symlink_metadata _) = Io FileKind
ReplyOf (Call.metadata _) = Io FileKind
ReplyOf (Call.read_link _) = Io FilePath
ReplyOf (Call.canonicalize _) = Io FilePath
ReplyOf (Call.write_empty _) = Io ⊤
ReplyOf (Call.remove_dir _) = Io ⊤
ReplyOf (Call.open_read _) = Io Fd
ReplyOf (Call.open_write _) = Io Fd
ReplyOf (Call.write_all _ _) = Io ⊤
ReplyOf (Call.close _) = Nix ⊤
ReplyOf (Call.close_from _ _) = ⊤
ReplyOf (Call.dup _) = Nix Fd
ReplyOf (Call.dup2 _ _) = Nix ⊤
ReplyOf (Call.get_fd_flags _) = Nix ℕ
ReplyOf (Call.set_fd_flags _ _) = Nix ⊤
ReplyOf Call.pipe2 = Nix (Fd × Fd)
ReplyOf Call.socketpair = Nix (Fd × Fd)
ReplyOf (Call.bind_listener _) = Io Fd
ReplyOf (Call.sethostname _) = Nix ⊤
ReplyOf (Call.setdomainname _) = Nix ⊤
ReplyOf (Call.connect_tcp _) = Io Fd
ReplyOf (Call.bind_udp _) = Io Fd
ReplyOf (Call.connect_udp _ _) = Io ⊤
ReplyOf (Call.send_rights _ _) = Nix ⊤
ReplyOf (Call.send _ _) = Nix ⊤
ReplyOf (Call.print _) = Io ⊤
ReplyOf (Call.write _ _) = Io ℕ
ReplyOf (Call.open_text _) = Io Fd
ReplyOf (Call.file_len _) = Io ℕ
ReplyOf (Call.copy _ _) = Io ⊤
ReplyOf Call.handle_sigint = Nix ⊤
ReplyOf (Call.set_nonblocking _) = Io ⊤
ReplyOf (Call.poll _ _) = Nix (List (Option Events))
ReplyOf (Call.accept _) = Io Fd
ReplyOf Call.stream_pair = Io (Fd × Fd)

-- The calls made so far, the latest first.
abbrev pub History : Type 0
History = List Call

abbrev pub Os : Type 0
Os = History → (c : Call) → ReplyOf c
