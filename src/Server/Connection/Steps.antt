-- ===== src/Server/Connection/Steps.antt =====
-- What may happen next, as a relation: the environment chooses which operation ends, and how.
use redis_cpp.Prelude.{ℕ, ◌<◌, ◌≤◌, ◌≡◌, Bool, true, [], ◌∷◌, ◌++◌, List, length, if◌then◌else◌}
use redis_cpp.Prelude.Bytes.{Bytes}
use redis_cpp.Prelude.Outcome.{ok}
use redis_cpp.Database
use redis_cpp.Database.{Database, Floating, ServerConfig}
use redis_cpp.Server.Request.{max_read}
use redis_cpp.Server.Connection.{
  World, listening, handle_accept, on_read, on_write, on_waiter_timer,
}

-- A step, with the connection that fails in it, if any. A step that throws, or whose behaviour is
-- undefined, is none: no state is left of it.
pub data Step (F : Floating) : World → World → List ℕ → Type 0 where
  accepted :
      (w : World) (err : Bool)
      → Step F w (handle_accept err w) (if err then w.accepting ∷ [] else [])
  read :
      (w w' : World) (s : ℕ) (ec : Bool) (req : Bytes)
      → 0 < (w.connections s).reads
      → length req ≤ max_read
      → on_read F s ec req w ≡ ok w'
      → Step F w w' (if ec then s ∷ [] else [])
  written :
      (w : World) (s : ℕ) (ec : Bool)
      → (w.connections s).writing ≡ true
      → Step F w (on_write s ec w) (if ec then s ∷ [] else [])
  key_timer :
      (w : World) (key : Bytes) (ec : Bool)
      → Step F w (record w { db = Database.on_expire key ec w.db }) []
  waiter_timer :
      (w w' : World) (key : Bytes) (id : ℕ) (ec : Bool)
      → on_waiter_timer key id ec w ≡ ok w'
      → Step F w w' []

-- The states that a server comes to, with the connections that have failed.
pub data Reach (F : Floating) (config : ServerConfig) : World → List ℕ → Type 0 where
  start : Reach F config (listening config) []
  later :
      {w w' : World} {failed more : List ℕ}
      → Reach F config w failed
      → Step F w w' more
      → Reach F config w' (more ++ failed)
