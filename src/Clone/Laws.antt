-- ===== src/Clone/Laws.antt =====
-- clone.rs: what is asked of the kernel, and what is handed back.
use void_orchestrator.Base.{ℕ, ◌^◌, ◌<◌, ◌%◌, ◌≡◌, Option, none, some, arith}
use void_orchestrator.Clone.{as_u64}

-- A slot that the caller did not ask for is given to the kernel as address 0 and stays absent; one
-- that it asked for is given as the address of its variable and holds the value that the kernel wrote:
-- of the slot that was asked for, what the kernel is given, the address of the variable, the value
-- written and the slot handed back.
unfoldable pub IsReturned : Option (Option ℕ) → ℕ → ℕ → ℕ → Option (Option ℕ) → Type 0
IsReturned none given address value slot = given ≡ 0 × slot ≡ none
IsReturned (some _) given address value slot = given ≡ address × slot ≡ some (some value)

-- The conversion of 32 bits with a sign to 64 keeps them as the low bits and stays below 2 ^ 64.
pub as_u64-bounds : (bits : ℕ) → bits < 2 ^ 32 → as_u64 bits < 2 ^ 64 × as_u64 bits % 2 ^ 32 ≡ bits
unfolding as_u64
as_u64-bounds bits bound = ground arith
