-- ===== src/Examples.antt =====
-- examples/: the programs that are started as entrypoints.
pub mod Argv
pub mod Fib
pub mod Basic
pub mod Pipes
pub mod Listener
pub mod Http
pub mod TlsHandler
pub mod Tls
