-- ===== src/Server/Loop.antt =====
-- The event loop `ctx_.run()`: asio calls one completion handler after another. No handler is run
-- under a `try`, so that an exception leaves `main` and ends the process, as undefined behaviour
-- may; no state is left of either.
pub mod Ordered
pub mod Stops
pub mod Store
pub mod Fair
use redis_cpp.Prelude.{ℕ, [], ◌∷◌, ◌++◌, List, map, take, Bool, true, false}
use redis_cpp.Prelude.Bytes.{Bytes}
use redis_cpp.Prelude.Outcome.{Outcome, ok, throws, undefined, ◌>>=◌}
use redis_cpp.Database
use redis_cpp.Database.{Database, Floating}
use redis_cpp.Commands.{BlpopHandler, Replies, Result, answer}
use redis_cpp.Server.Request.{handle_request, max_read}

-- A completion handler that asio runs: a read of a connection, the timer of a key, and the timer of
-- a waiter. `ec` is true if the operation failed or was cancelled. A read takes from the bytes that
-- are there no more than `data_` has room for.
pub data Event : Type 0 where
  read : ℕ → Bool → Bytes → Event
  key_timer : Bytes → Bool → Event
  waiter_timer : Bytes → ℕ → Bool → Event

module _ (F : Floating) where
  unfoldable pub step : Database BlpopHandler → Event → Result
  step db (read session true req) = ok (db, [])
  step db (read session false req) = handle_request F db session (take max_read req)
  step db (key_timer key ec) = ok (Database.on_expire key ec db, [])
  step db (waiter_timer key id ec) =
      let (db', calls) = Database.on_timeout key id ec db in ok (db', map answer calls)

  -- The events in order, with all replies.
  unfoldable pub run : Database BlpopHandler → List Event → Result
  run db [] = ok (db, [])
  run db (e ∷ es) =
      step db e >>= λ (db', replies). run db' es >>= λ (db'', more). ok (db'', replies ++ more)
