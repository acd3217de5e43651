-- ===== src/Spawner.antt =====
-- spawner/mod.rs and spawner/args.rs: what starts the entrypoints, each in a void of its own.
pub mod State
pub mod Argv
pub mod Arguments
pub mod Environments
pub mod Triggers
pub mod Start
pub mod Supplies
pub mod Confinement
pub mod Declared
pub mod Forwarded
pub mod Refused
pub mod Closed
pub mod Processes
pub mod Events
pub mod Waiting
pub mod Forking
pub mod Texts
pub mod Passes
pub mod Executes
