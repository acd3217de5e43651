-- ===== src/Clone.antt =====
-- clone.rs: the arguments of clone3(2), for the kernel and back.
pub mod Laws
use void_orchestrator.Base.{ℕ, ◌+◌, ◌-◌, ◌^◌, Option, none, some, List, [], ◌∷◌, ltb, if◌then◌else◌}
use void_orchestrator.RpcMessage.{Fd}
use void_orchestrator.Sys.{CloneArgsFfi, Cloned, Answer, done, fail, Nix, Call, Os}
use void_orchestrator.Program.{M, pure, call, ◌>>=◌}

-- A slice that the kernel reads: its address and its length.
pub record Slice : Type 0 where
  pub address : ℕ
  pub len : ℕ

-- `CloneArgs`. A `&mut Option<T>` is the value that it points to. `flags` has the 32 bits of the
-- flags, and the cgroup is the descriptor of its file.
pub record CloneArgs : Type 0 where
  pub flags : ℕ
  pub pidfd : Option (Option Fd)
  pub child_tid : Option (Option ℕ)
  pub parent_tid : Option (Option ℕ)
  pub exit_signal : Option ℕ
  pub stack : Option Slice
  pub set_tid : Option Slice
  pub cgroup : Option Fd

-- The addresses of the three variables of `clone3`.
pub record Addresses : Type 0 where
  pub pidfd : ℕ
  pub child_tid : ℕ
  pub parent_tid : ℕ

-- `CloneArgs::new`
unfoldable pub new : ℕ → CloneArgs
new flags = record {
  flags = flags;
  pidfd = none;
  child_tid = none;
  parent_tid = none;
  exit_signal = none;
  stack = none;
  set_tid = none;
  cgroup = none;
}

-- `x as u64` for an `i32` given by its 32 bits: the sign is extended.
unfoldable pub as_u64 : ℕ → ℕ
as_u64 bits = if ltb bits (2 ^ 31) then bits else bits + (2 ^ 64 - 2 ^ 32)

-- `o.map(f).unwrap_or(0)`
abbrev pub map_or_zero {ℓ} : {A : Type ℓ} → (A → ℕ) → Option A → ℕ
map_or_zero f none = 0
map_or_zero f (some a) = f a

-- `CloneArgs::process`
unfoldable pub process : CloneArgs → Addresses → CloneArgsFfi
unfolding as_u64
process args at = record {
  flags = as_u64 args.flags;
  pidfd = map_or_zero (λ _. at.pidfd) args.pidfd;
  child_tid = map_or_zero (λ _. at.child_tid) args.child_tid;
  parent_tid = map_or_zero (λ _. at.parent_tid) args.parent_tid;
  exit_signal = map_or_zero as_u64 args.exit_signal;
  stack = map_or_zero (λ s. s.address) args.stack;
  stack_size = map_or_zero (λ s. s.len) args.stack;
  tls = 0;
  set_tid = map_or_zero (λ s. s.address) args.set_tid;
  set_tid_size = map_or_zero (λ s. s.len) args.set_tid;
  cgroup = map_or_zero as_u64 args.cgroup;
}

-- `if let Some(r) = &mut slot { **r = Some(value) }`
abbrev pub fill : Option (Option ℕ) → ℕ → Option (Option ℕ)
fill none value = none
fill (some _) value = some (some value)

-- `CloneArgs::finalise`
unfoldable pub finalise : CloneArgs → Fd → ℕ → ℕ → CloneArgs
finalise args pidfd child_tid parent_tid = record args {
  pidfd = fill args.pidfd pidfd;
  child_tid = fill args.child_tid child_tid;
  parent_tid = fill args.parent_tid parent_tid;
}

-- `Errno::result(result).map(…)?` and what follows it.
unfoldable pub clone3_result : CloneArgs → Nix Cloned → Nix (ℕ × CloneArgs)
unfolding finalise
clone3_result args (fail e) = fail e
clone3_result args (done c) = done (c.pid, finalise args c.pidfd c.child_tid c.parent_tid)

module _ (os : Os) where
  -- `clone3`: the process id, and the arguments with what their references now hold.
  unfoldable pub clone3 : CloneArgs → Addresses → M (Nix (ℕ × CloneArgs))
  unfolding process clone3_result
  clone3 args at = do r ← call os (Call.clone3 (process args at)); pure (clone3_result args r)
