-- ===== src/Server/Connection.antt =====
-- The class `tcp_connection` and the acceptor, of src/server/server.cc: which asynchronous operations
-- are under way on each connection, and what is done when one of them ends.
pub mod Steps
pub mod Deliver
pub mod Alone
pub mod Reached
pub mod Safe
pub mod Timeout
pub mod Push
pub mod Projection
use redis_cpp.Prelude.{
  ℕ, zero, suc, ◌+◌, ◌-◌, ◌==◌, Bool, true, false, [], ◌∷◌, List, map, if◌then◌else◌,
}
use redis_cpp.Prelude.Bytes.{Bytes}
use redis_cpp.Prelude.Outcome.{Outcome, ok, undefined, ◌>>=◌}
use redis_cpp.Database
use redis_cpp.Database.{Database, Floating, ServerConfig}
use redis_cpp.Commands.{BlpopHandler, Replies, Result, answer}
use redis_cpp.Server.Request.{handle_request}

-- `reads` is the number of reads under way, `message` the member `message_`, and `writing` is true
-- while it is being written.
pub record Connection : Type 0 where
  pub reads : ℕ
  pub message : Bytes
  pub writing : Bool

abbrev pub new_connection : Connection
new_connection = record { reads = 0; message = []; writing = false }

-- The connections are numbered in the order in which they are made; `accepting` is the number of the
-- one that waits to be accepted.
pub record World : Type 0 where
  pub db : Database BlpopHandler
  pub connections : ℕ → Connection
  pub accepting : ℕ

unfoldable pub update : World → ℕ → Connection → World
update w s c = record w { connections = λ t. if s == t then c else w.connections t }

unfoldable pub do_read : ℕ → World → World
unfolding update
do_read s w = let c = w.connections s in update w s (record c { reads = suc c.reads })

-- Two writes at once on one connection are undefined, and so is a change of the text that is being
-- written.
unfoldable pub do_write : ℕ → World → Outcome World
unfolding update
do_write s w =
    let c = w.connections s in
    if c.writing then undefined else ok (update w s (record c { writing = true }))

unfoldable pub send_response : ℕ → Bytes → World → Outcome World
unfolding update
send_response s resp w =
    let c = w.connections s in
    if c.writing then undefined else ok (update w s (record c { message = resp; writing = true }))

-- The calls of `respond` that a handler makes. They change no database, and none of what they start
-- ends before the handler does.
unfoldable pub deliver : Replies → World → Outcome World
deliver [] w = ok w
deliver ((s, resp) ∷ replies) w = send_response s resp w >>= deliver replies

-- `accept` of either kind of server: the next connection is made.
unfoldable pub accept : World → World
unfolding update
accept w = let s = suc w.accepting in record (update w s new_connection) { accepting = s }

unfoldable pub handle_accept : Bool → World → World
unfolding accept do_read
handle_accept err w = accept (if err then w else do_read w.accepting w)

-- A server whose first `accept` was made.
abbrev pub listening : ServerConfig → World
listening config = record {
  db = Database.create config;
  connections = λ s. new_connection;
  accepting = 0;
}

-- The completion of a write.
unfoldable pub on_write : ℕ → Bool → World → World
unfolding update do_read
on_write s ec w =
    let c = w.connections s in
    let w' = update w s (record c { writing = false }) in if ec then w' else do_read s w'

unfoldable pub settle : World → Result → Outcome World
settle w r = r >>= λ (db, replies). deliver replies (record w { db = db })

-- The completion of a read.
unfoldable pub on_read : (F : Floating) → ℕ → Bool → Bytes → World → Outcome World
unfolding update settle
on_read F s ec req w =
    let c = w.connections s in
    let w' = update w s (record c { reads = c.reads - 1 }) in
    if ec then ok w' else settle w' (handle_request F w'.db s req)

-- The completion of a waiter's timer.
unfoldable pub on_waiter_timer : Bytes → ℕ → Bool → World → Outcome World
unfolding settle
on_waiter_timer key id ec w =
    let (db', calls) = Database.on_timeout key id ec w.db in settle w (ok (db', map answer calls))
