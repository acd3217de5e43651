-- ===== src/Lib.antt =====
-- The void orchestrator: a program that starts the entrypoints of an application each in a void, a
-- process with new namespaces that hold nothing but what its specification gives it. This library
-- models the program, from the values of its command line to its exit code:
--
--   Specification  src/specification.rs   the specification, the ends of its pipes and sockets
--                                         (`pipes`, `sockets`) and their validation (`validate`)
--   Failure        src/error.rs           `Error`, `Result` and `?`
--   Void           src/void.rs            `VoidBuilder`; `spawn` (Void/Spawn) clones a process, and
--                                         the child prepares its void by the functions named
--                                         `void_*_namespace` and `void_file_descriptors`
--                                         (Void/Namespaces), then runs its function and exits
--   Clone          src/clone.rs           the arguments of clone3(2), for the kernel and back
--   RpcMessage,    src/spawner/rpc.rs     the handler that opens sockets for a void, where its
--   Rpc                                   specification permits it: `handle` and what it calls
--   Resources      src/lib.rs             the pipes and sockets made for a specification
--                                         (`create_pipes`, `create_sockets`), and `PipePair` and
--                                         `SocketPair`, which hand out their ends
--   Run            src/lib.rs             the loop of `run` that waits for the children (`await`)
--   Spawner        src/spawner/mod.rs,    `Spawner::spawn` (Spawner/Start), what a void is granted
--                  src/spawner/args.rs    for its environment (Spawner/Environments) and its arguments
--                                         (Spawner/Arguments), the texts it is started with
--                                         (Spawner/Argv), and the processes that wait for a pipe or
--                                         a socket and start an entrypoint for what they receive
--                                         (Spawner/Triggers)
--   Orchestrator   src/lib.rs             `run`: it reads the specification (`read_spec`), validates
--                                         it, forwards stdout and stderr, creates the pipes and
--                                         sockets, starts the entrypoints (`launch`) and waits
--   Cli            src/main.rs            the command line (`command`), the arguments of `run`, and the
--                                         exit of the process
--   Examples       examples               programs that are started as entrypoints: two that print
--                                         (Examples/Basic, Examples/Fib), a writer and a reader of a
--                                         pipe (Examples/Pipes), and the three entrypoints of an
--                                         HTTPS server, examples/tls: main.rs (Examples/Tls),
--                                         listener.rs (Examples/Listener), tls.rs
--                                         (Examples/TlsHandler; its configuration is in
--                                         TlsHandler/Connection) and http.rs (Examples/Http)
--
-- They stand on these:
--
--   Base      names of the libraries, Boolean tests, lists over the native numbers, sets and maps as
--             lists
--   Sys       the calls that leave the program, and the type of their answers
--   Program   a run: a function from the calls made so far to an outcome and the calls made then,
--             with rules for what a run calls (Runs), what it has called when it returns (Ensures),
--             how many processes it has cloned then (Clones), and for runs that only return or fail
--             (Plain, Yields)
--   Text, Paths, Utf8   what the code uses of formatting, `std::path`, `CStr` and `str`
--   Tests     the theorems at concrete inputs
--
-- How the parts interact: `main` calls `run`, which runs `validate` on the specification before
-- anything is created; then `create_pipes` and `create_sockets` are given the names that `pipes` and
-- `sockets` collect from it for reading, and `spawn_entrypoints` is given what they created. For an
-- entrypoint that is started at once, a `VoidBuilder` is given what the environment and the
-- arguments need, and its `spawn` calls `clone3`; in the child, the void is prepared and the closure
-- makes the texts and calls execv(2). An entrypoint with a trigger has a void in which a process
-- waits for the trigger, and each event is a further `spawn`, from within that void. An argument of
-- the kind `Rpc` leaves a forked process behind that runs `handle` on one end of a socket. What is
-- taken from a `PipePair` or `SocketPair` is gone from the spawner that the next entrypoint is given.
--
-- The operating system is a parameter `os`, which answers each call and may answer by all calls
-- made before; nothing is assumed of its answers but where it is said. A history lists the calls, the
-- latest first. The theorems speak of these calls: what a call does in the kernel is not modelled.
--
-- The operating system is a part of a `World`, which holds all that lies outside the program: also
-- what a loop will receive from a descriptor, what serde reads from a file and the orders of sets.
-- Where a theorem is on the process that starts the entrypoints, it assumes that clone3(2) and
-- fork(2) do not return 0 there (`IsParent`); where a theorem says that `run` ends, it assumes that
-- waitid(2) tells of the end of each child that is left, and then that there are none (`Waited`).
--
-- The examples use httparse, rustls and rustls_pemfile, which are parameters: the parser is a function
-- from the bytes of a buffer (`Parsed`), a TLS connection is a record of operations (`Rustls`), and a
-- file of certificates or keys is what is read from it (`Pem`). Where it matters that rustls keeps
-- the plaintext that it accepts, that is a hypothesis (`KeepsPlaintext`). Whether a program is built
-- with checks for overflow is a parameter of `fib`.
--
-- A `HashMap` and a `HashSet` are lists in the order in which they are iterated. Where `validate`
-- iterates a set that it has built, the order is a parameter `iter`, of which it is assumed only
-- that every element is visited once; the order of a set of environments after an insertion is a
-- parameter `rehash`, of which nothing is assumed. Descriptors, process ids and errno values are
-- natural numbers; the 64-bit fields of clone3(2) keep their sign extension written out. A socket and
-- a file are known by their descriptors. No loop needs fuel: those over collections are structural;
-- the endless loops of the handler, of the two triggers and of `run` go over the list of the results
-- that recv(2), read(2), recvmsg(2) and waitid(2) will give, at whose end the process waits. So
-- do the loops of the examples, over what read(2) will give, over the values that the flag `RUNNING`
-- will be found to have, and over the turns that poll(2) will start; the reads of a turn end where
-- there is nothing left to read. The receive buffer of the handler has the 4096 bytes of `MAX_MSG_LENGTH`, that of a pipe's trigger the
-- 1024 of `BUFFER_SIZE`.
--
-- Not modelled: the log; the closing of files that go out of scope, such as that of the null device
-- after it has been duplicated; the memory layout of `OpenSocket` over the bytes of a message, which
-- is a parameter `view`; the bytes of an answer; the deserialisation of specifications by serde; the
-- parsing of the command line by clap, which is a parameter of `main` and is given the declaration of
-- the arguments; and the setting up of the log. Of the examples: the fixed choices that `make_config`
-- passes to rustls, and examples/echo, which is C. build.rs and benches are no part of the program.

pub mod Base
pub mod Failure
pub mod Specification
pub mod RpcMessage
pub mod Sys
pub mod Program
pub mod Text
pub mod Paths
pub mod Clone
pub mod Void
pub mod Utf8
pub mod Rpc
pub mod Resources
pub mod Run
pub mod Spawner
pub mod Orchestrator
pub mod Cli
pub mod Examples
pub mod Tests
