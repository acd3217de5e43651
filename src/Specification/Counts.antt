-- ===== src/Specification/Counts.antt =====
-- How often a specification names the ends of a pipe or of a socket, counted on the entrypoints
-- themselves, and the vectors that `pipes` and `sockets` collect.
use void_orchestrator.Base.{
  ℕ, ◌+◌, String, ◌≡◌, List, [], ◌∷◌, ◌++◌, arith, count, count-append, string_eq, ◌==◌,
  if◌then◌else◌,
}
use void_orchestrator.Specification.{
  Trigger, Pipe, FileSocket, Arg, Entrypoint, Specification, Ends, no_ends, push_args, push_entries,
  push_pipe_trigger, push_pipe_arg, push_socket_trigger, push_socket_arg, pipes, sockets,
}

abbrev pub bit : String → String → ℕ
bit s n = if s == n then 1 else 0

module _ (n : String) where
  abbrev pub pipe_trigger_reads : Trigger → ℕ
  pipe_trigger_reads (Trigger.pipe s) = bit s n
  pipe_trigger_reads _ = 0

  abbrev pub pipe_arg_reads : Arg → ℕ
  pipe_arg_reads (Arg.pipe (Pipe.rx s)) = bit s n
  pipe_arg_reads _ = 0

  abbrev pub pipe_arg_writes : Arg → ℕ
  pipe_arg_writes (Arg.pipe (Pipe.tx s)) = bit s n
  pipe_arg_writes _ = 0

  abbrev pub socket_trigger_reads : Trigger → ℕ
  socket_trigger_reads (Trigger.file_socket s) = bit s n
  socket_trigger_reads _ = 0

  abbrev pub socket_arg_reads : Arg → ℕ
  socket_arg_reads (Arg.file_socket (FileSocket.rx s)) = bit s n
  socket_arg_reads _ = 0

  abbrev pub socket_arg_writes : Arg → ℕ
  socket_arg_writes (Arg.file_socket (FileSocket.tx s)) = bit s n
  socket_arg_writes _ = 0

abbrev pub sum_args : (Arg → ℕ) → List Arg → ℕ
sum_args f [] = 0
sum_args f (a ∷ args) = f a + sum_args f args

abbrev pub sum_entries : (Trigger → ℕ) → (Arg → ℕ) → List (String × Entrypoint) → ℕ
sum_entries g f [] = 0
sum_entries g f ((_, e) ∷ rest) = g e.trigger + sum_args f e.args + sum_entries g f rest

-- The readers of a pipe: the entrypoints it triggers and the arguments that pass its reading end.
abbrev pub pipe_readers : String → Specification → ℕ
pipe_readers n spec = sum_entries (pipe_trigger_reads n) (pipe_arg_reads n) spec.entrypoints

abbrev pub pipe_writers : String → Specification → ℕ
pipe_writers n spec = sum_entries (λ _. 0) (pipe_arg_writes n) spec.entrypoints

abbrev pub socket_readers : String → Specification → ℕ
socket_readers n spec = sum_entries (socket_trigger_reads n) (socket_arg_reads n) spec.entrypoints

abbrev pub socket_writers : String → Specification → ℕ
socket_writers n spec = sum_entries (λ _. 0) (socket_arg_writes n) spec.entrypoints

-- A number that each push raises by a known amount is raised by their sum.
module _ (on_trigger : Ends → Trigger → Ends) (on_arg : Ends → Arg → Ends) (g : Trigger → ℕ)
    (f : Arg → ℕ) (m : Ends → ℕ)
    (trigger_adds : (e : Ends) (t : Trigger) → m (on_trigger e t) ≡ m e + g t)
    (arg_adds : (e : Ends) (a : Arg) → m (on_arg e a) ≡ m e + f a) where
  measure-push_args :
      (e : Ends) (args : List Arg) → m (push_args on_trigger on_arg e args) ≡ m e + sum_args f args
  unfolding push_args
  measure-push_args e [] = omega arith
  measure-push_args e (a ∷ args) = omega (arith, measure-push_args (on_arg e a) args, arg_adds e a)

  measure-push_entries :
      (e : Ends) (es : List (String × Entrypoint))
      → m (push_entries on_trigger on_arg e es) ≡ m e + sum_entries g f es
  unfolding push_entries
  measure-push_entries e [] = omega arith
  measure-push_entries e ((_, x) ∷ es) = omega (
    arith,
    measure-push_entries (push_args on_trigger on_arg (on_trigger e x.trigger) x.args) es,
    measure-push_args (on_trigger e x.trigger) x.args,
    trigger_adds e x.trigger,
  )

count-push : (n s : String) (xs : List String) → count n (xs ++ (s ∷ [])) ≡ count n xs + bit s n
count-push n s xs = omega (arith, count-append n xs (s ∷ []))

module _ (n : String) where
  read-pipe_trigger :
      (e : Ends) (t : Trigger)
      → count n (push_pipe_trigger e t).read ≡ count n e.read + pipe_trigger_reads n t
  unfolding push_pipe_trigger
  read-pipe_trigger e (Trigger.pipe s) = count-push n s e.read
  read-pipe_trigger e _ = omega arith

  read-pipe_arg :
      (e : Ends) (a : Arg) → count n (push_pipe_arg e a).read ≡ count n e.read + pipe_arg_reads n a
  unfolding push_pipe_arg
  read-pipe_arg e (Arg.pipe (Pipe.rx s)) = count-push n s e.read
  read-pipe_arg e _ = omega arith

  write-pipe_trigger :
      (e : Ends) (t : Trigger) → count n (push_pipe_trigger e t).write ≡ count n e.write + 0
  unfolding push_pipe_trigger
  write-pipe_trigger e (Trigger.pipe s) = omega arith
  write-pipe_trigger e _ = omega arith

  write-pipe_arg :
      (e : Ends) (a : Arg)
      → count n (push_pipe_arg e a).write ≡ count n e.write + pipe_arg_writes n a
  unfolding push_pipe_arg
  write-pipe_arg e (Arg.pipe (Pipe.tx s)) = count-push n s e.write
  write-pipe_arg e _ = omega arith

  read-socket_trigger :
      (e : Ends) (t : Trigger)
      → count n (push_socket_trigger e t).read ≡ count n e.read + socket_trigger_reads n t
  unfolding push_socket_trigger
  read-socket_trigger e (Trigger.file_socket s) = count-push n s e.read
  read-socket_trigger e _ = omega arith

  read-socket_arg :
      (e : Ends) (a : Arg)
      → count n (push_socket_arg e a).read ≡ count n e.read + socket_arg_reads n a
  unfolding push_socket_arg
  read-socket_arg e (Arg.file_socket (FileSocket.rx s)) = count-push n s e.read
  read-socket_arg e _ = omega arith

  write-socket_trigger :
      (e : Ends) (t : Trigger) → count n (push_socket_trigger e t).write ≡ count n e.write + 0
  unfolding push_socket_trigger
  write-socket_trigger e (Trigger.file_socket s) = omega arith
  write-socket_trigger e _ = omega arith

  write-socket_arg :
      (e : Ends) (a : Arg)
      → count n (push_socket_arg e a).write ≡ count n e.write + socket_arg_writes n a
  unfolding push_socket_arg
  write-socket_arg e (Arg.file_socket (FileSocket.tx s)) = count-push n s e.write
  write-socket_arg e _ = omega arith

module _ (n : String) (spec : Specification) where
  -- The names that `pipes` lists.
  pub count-pipes :
      (count n (pipes spec).read ≡ pipe_readers n spec)
      × (count n (pipes spec).write ≡ pipe_writers n spec)
  unfolding pipes
  count-pipes = omega (
    arith,
    measure-push_entries push_pipe_trigger push_pipe_arg (pipe_trigger_reads n) (pipe_arg_reads n)
        (λ e. count n e.read) (read-pipe_trigger n) (read-pipe_arg n) no_ends spec.entrypoints,
    measure-push_entries push_pipe_trigger push_pipe_arg (λ _. 0) (pipe_arg_writes n)
        (λ e. count n e.write) (write-pipe_trigger n) (write-pipe_arg n) no_ends spec.entrypoints,
  )

  -- The names that `sockets` lists.
  pub count-sockets :
      (count n (sockets spec).read ≡ socket_readers n spec)
      × (count n (sockets spec).write ≡ socket_writers n spec)
  unfolding sockets
  count-sockets = omega (
    arith,
    measure-push_entries push_socket_trigger push_socket_arg (socket_trigger_reads n)
        (socket_arg_reads n) (λ e. count n e.read) (read-socket_trigger n) (read-socket_arg n)
        no_ends spec.entrypoints,
    measure-push_entries push_socket_trigger push_socket_arg (λ _. 0) (socket_arg_writes n)
        (λ e. count n e.write) (write-socket_trigger n) (write-socket_arg n) no_ends
        spec.entrypoints,
  )

  -- For every name, `pipes` and `sockets` list exactly the reading and the writing ends of pipes and
  -- of sockets that the triggers and arguments of the entrypoints name, as often as they name them.
  pub ends_counted :
      (count n (pipes spec).read ≡ pipe_readers n spec)
      × (count n (pipes spec).write ≡ pipe_writers n spec)
      × (count n (sockets spec).read ≡ socket_readers n spec)
      × (count n (sockets spec).write ≡ socket_writers n spec)
  ends_counted = (count-pipes.0, count-pipes.1, count-sockets.0, count-sockets.1)
