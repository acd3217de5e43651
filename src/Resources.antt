-- ===== src/Resources.antt =====
-- lib.rs: the pipes and the sockets that are created before anything is started.
pub mod PipePair
pub mod SocketPair
pub mod Creation
pub mod Taking
use void_orchestrator.Base.{String, string_eq, List, [], ◌∷◌}
use void_orchestrator.Base.Maps.{put}
use void_orchestrator.Sys.{Os}
use void_orchestrator.Program.{M, pure, ◌>>=◌}

-- `for name in names { map.insert(name.to_string(), new(name)?); }`
module _ {A : Type 0} (new : String → M A) where
  unfoldable pub create_each : List (String × A) → List String → M (List (String × A))
  create_each map [] = pure map
  create_each map (name ∷ names) = do made ← new name; create_each (put name made map) names

module _ (os : Os) where
  -- `create_pipes`
  unfoldable pub create_pipes : List String → M (List (String × PipePair.PipePair))
  unfolding create_each PipePair.new
  create_pipes = create_each (PipePair.new os) []

  -- `create_sockets`
  unfoldable pub create_sockets : List String → M (List (String × SocketPair.SocketPair))
  unfolding create_each SocketPair.new
  create_sockets = create_each (SocketPair.new os) []
