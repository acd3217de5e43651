-- ===== src/Specification/Soundness/Sections.antt =====
-- How the sections of `validate` on pipes and on sockets end.
use void_orchestrator.Base.{
  ℕ, ◌+◌, ◌≤◌, String, ◌≡◌, ◌⊎◌, List, [], arith, count, contains_iff, string_eq, ⊤,
}
use void_orchestrator.Base.Sets.{difference, contains-difference}
use void_orchestrator.Failure.{bad_pipe, bad_file_socket, Result, ok, err, ◌>>=◌}
use void_orchestrator.Specification.{Ends}
use void_orchestrator.Specification.Validate.{
  insert_unique, insert_all, remove_all, require_all, require_none, validate_pipes,
  validate_sockets,
}
use void_orchestrator.Specification.Soundness.Loops.{
  held, held-insert_all, Unique, unique, repeated, insert_unique-Unique, Removed, removed, missing,
  remove_all-Removed, Required, required, absent, require_all-Required, Empty, empty, first,
  require_none-Empty,
}

-- `iter` visits every element of a set exactly once.
abbrev pub IsOrder : (List String → List String) → Type 0
IsOrder iter = (xs : List String) (a : String) → count a (iter xs) ≡ count a xs

-- Nothing uses the pipe, or it has exactly one reader and exactly one writer.
abbrev pub IsPaired : ℕ → ℕ → Type 0
IsPaired readers writers = (readers ≡ 0) × (writers ≡ 0) ⊎ (readers ≡ 1) × (writers ≡ 1)

-- Nothing uses the socket, or it has exactly one reader and one or more writers.
abbrev pub IsServed : ℕ → ℕ → Type 0
IsServed readers writers = (readers ≡ 0) × (writers ≡ 0) ⊎ (readers ≡ 1) × (1 ≤ writers)

-- A name is held exactly when it occurs.
held_bounds : (xs : List String) (a : String) → (held xs a ≤ 1) × (held xs a ≤ count a xs)
held_bounds xs a = ground (arith, contains_iff xs a)

count-le_held : (xs : List String) (a : String) → count a xs ≤ 1 → count a xs ≡ held xs a
count-le_held xs a h = ground (arith, contains_iff xs a)

held-eq_zero : (xs : List String) (a : String) → count a xs ≡ 0 → held xs a ≡ 0
held-eq_zero xs a h = ground (arith, contains_iff xs a)

held-eq_one : (xs : List String) (a : String) → 1 ≤ count a xs → held xs a ≡ 1
held-eq_one xs a h = ground (arith, contains_iff xs a)

pub data PipesChecked (ends : Ends) : Result ⊤ → Type 0 where
  paired :
      ((n : String) → IsPaired (count n ends.read) (count n ends.write)) → PipesChecked ends (ok tt)
  unpaired :
      (n : String)
      → ¬ IsPaired (count n ends.read) (count n ends.write)
      → PipesChecked ends (err (bad_pipe n))

module _ (iter : List String → List String) (order : IsOrder iter) (ends : Ends) where
  module _ (rs ws : List String)
      (hr : (a : String) → (held rs a ≡ count a ends.read) × (count a rs ≡ count a ends.read))
      (hw : (a : String)
        → (held ws a ≡ count a ends.write) × (count a ws ≡ count a ends.write)) where
    leftover :
        (left : List String) {r : Result ⊤}
        → ((a : String) → held left a + count a (iter rs) ≡ held ws a)
        → Empty bad_pipe (iter left) r
        → PipesChecked ends r
    leftover left hl (empty h) = paired (λ n. omega (
      arith,
      hr n,
      hw n,
      hl n,
      order rs n,
      order left n,
      h n,
      held-eq_zero left n,
      count-le_held rs n,
      held_bounds ws n,
    ))
    leftover left hl (first n h) = unpaired n (λ p. omega (
      arith,
      hr n,
      hw n,
      hl n,
      order rs n,
      order left n,
      held-eq_one left n,
      count-le_held rs n,
      held_bounds ws n,
      p,
    ))

    unwritten :
        {r : Result (List String)}
        → Removed bad_pipe ws (iter rs) r
        → PipesChecked ends (r >>= λ left. require_none bad_pipe (iter left))
    unwritten (removed {r = left} hl) = leftover left hl (require_none-Empty bad_pipe (iter left))
    unwritten (missing n h) =
        unpaired n
          (λ p. omega (arith, hr n, hw n, order rs n, held-eq_zero rs n, h, p, held_bounds rs n))

  writers :
      (rs : List String) {r : Result (List String)}
      → ((a : String) → (held rs a ≡ count a ends.read) × (count a rs ≡ count a ends.read))
      → Unique bad_pipe [] ends.write r
      → PipesChecked ends (
          r >>= λ ws.
          remove_all bad_pipe ws (iter rs) >>= λ left. require_none bad_pipe (iter left))
  writers rs hr (unique {r = ws} hw) =
      unwritten rs ws hr (λ a. omega (arith, hw a)) (remove_all-Removed bad_pipe ws (iter rs))
  writers rs hr (repeated n h) = unpaired n (λ p. omega arith)

  readers :
      {r : Result (List String)}
      → Unique bad_pipe [] ends.read r
      → PipesChecked ends (
          r >>= λ rs. insert_unique bad_pipe [] ends.write >>= λ ws.
          remove_all bad_pipe ws (iter rs) >>= λ left. require_none bad_pipe (iter left))
  readers (unique {r = rs} hr) =
      writers rs (λ a. omega (arith, hr a)) (insert_unique-Unique bad_pipe [] ends.write)
  readers (repeated n h) = unpaired n (λ p. omega arith)

  pub validate_pipes-PipesChecked : PipesChecked ends (validate_pipes iter ends)
  unfolding validate_pipes
  validate_pipes-PipesChecked = readers (insert_unique-Unique bad_pipe [] ends.read)

pub data SocketsChecked (ends : Ends) : Result ⊤ → Type 0 where
  served :
      ((n : String) → IsServed (count n ends.read) (count n ends.write))
      → SocketsChecked ends (ok tt)
  unserved :
      (n : String)
      → ¬ IsServed (count n ends.read) (count n ends.write)
      → SocketsChecked ends (err (bad_file_socket n))

held-difference : (s t : List String) (a : String) → held s a ≤ held (difference s t) a + held t a
held-difference s t a = ground (arith, contains-difference s t a)

difference-le_held : (s t : List String) (a : String) → held (difference s t) a + held t a ≤ 1
difference-le_held s t a = ground (arith, contains-difference s t a)

difference-le : (s t : List String) (a : String) → held (difference s t) a ≤ held s a
difference-le s t a = ground (arith, contains-difference s t a)

module _ (iter : List String → List String) (order : IsOrder iter) (ends : Ends) where
  module _ (rs ws : List String)
      (hr : (a : String) → (held rs a ≡ count a ends.read) × (count a rs ≡ count a ends.read))
      (hw : (a : String) → held ws a ≡ held ends.write a) where
    unread :
        {r : Result ⊤}
        → ((a : String) → held (iter rs) a ≤ held ws a)
        → Empty bad_file_socket (iter (difference ws rs)) r
        → SocketsChecked ends r
    unread hl (empty h) = served (λ n. omega (
      arith,
      hr n,
      hw n,
      hl n,
      order rs n,
      order (difference ws rs) n,
      h n,
      held-eq_zero (difference ws rs) n,
      held-difference ws rs n,
      held_bounds ends.write n,
      held_bounds rs n,
      held-eq_one (iter rs) n,
      held-eq_one ends.write n,
    ))
    unread hl (first n h) = unserved n (λ p. omega (
      arith,
      p,
      hr n,
      hw n,
      order (difference ws rs) n,
      held-eq_one (difference ws rs) n,
      difference-le_held ws rs n,
      difference-le ws rs n,
      held_bounds ends.write n,
    ))

    unwritten_socket :
        {r : Result ⊤}
        → Required bad_file_socket ws (iter rs) r
        → SocketsChecked ends (r >>= λ _. require_none bad_file_socket (iter (difference ws rs)))
    unwritten_socket (required hl) =
        unread hl (require_none-Empty bad_file_socket (iter (difference ws rs)))
    unwritten_socket (absent n one zero_held) = unserved n (λ p. omega (
      arith,
      p,
      hr n,
      hw n,
      order rs n,
      held_bounds (iter rs) n,
      held-eq_one ends.write n,
      one,
      zero_held,
    ))

  socket_readers :
      {r : Result (List String)}
      → Unique bad_file_socket [] ends.read r
      → SocketsChecked ends (
          r >>= λ rs.
          let ws = insert_all [] ends.write in
          require_all bad_file_socket ws (iter rs) >>= λ _.
          require_none bad_file_socket (iter (difference ws rs)))
  socket_readers (unique {r = rs} hr) =
      let ws = insert_all [] ends.write in
      unwritten_socket rs ws (λ a. omega (arith, hr a)) (held-insert_all [] ends.write)
        (require_all-Required bad_file_socket ws (iter rs))
  socket_readers (repeated n h) = unserved n (λ p. omega arith)

  pub validate_sockets-SocketsChecked : SocketsChecked ends (validate_sockets iter ends)
  unfolding validate_sockets
  validate_sockets-SocketsChecked =
      socket_readers (insert_unique-Unique bad_file_socket [] ends.read)
