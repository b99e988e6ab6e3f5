-- ===== src/Commands.antt =====
-- The classes under src/commands: one constructor for each class, `serve_request` for their virtual
-- `serveRequest`, and the router.
pub mod Classes
pub mod Stoll
pub mod Router
pub mod Ordered
pub mod Settled
pub mod Delivery
pub mod ListStore
pub mod Store
use redis_cpp.Prelude.{ℕ, [], ◌∷◌, ◌++◌, List, map, Option, none, some, Bool, if◌then◌else◌}
use redis_cpp.Prelude.Int.{ℤ, pos, leb_ℤ, to_int}
use redis_cpp.Prelude.Bytes.{Bytes, codes, bytes_eq}
use redis_cpp.Prelude.Outcome.{Outcome, ok, ◌>>=◌}
use redis_cpp.Resp.BulkString
use redis_cpp.Resp.Integer
use redis_cpp.Resp.Array
use redis_cpp.Database
use redis_cpp.Database.{Database, Floating, Calls}
pub use Classes.{
  PingCommand, EchoCommand, SetCommand, GetCommand, RpushCommand, LpushCommand, LrangeCommand,
  LlenCommand, LpopCommand, BlpopCommand, InfoCommand, ReplconfCommand, Command, ping, echo, set,
  get, rpush, lpush, lrange, llen, lpop, blpop, info, replconf, make_ping, make_echo, make_set,
  make_get, make_rpush, make_lpush, make_lrange, make_llen, make_lpop, make_blpop, make_info,
  make_replconf, make_rpush_one, make_lpush_one,
}
use Stoll.{stoll}

-- The lambda of `BlpopCommand`: the session that `respond` answers, and the key.
pub record BlpopHandler : Type 0 where
  pub session : ℕ
  pub key : Bytes

-- What `respond` was called with, in order, with the session that it answers.
abbrev pub Replies : Type 0
Replies = List (ℕ × Bytes)

-- The body of the lambda of `BlpopCommand`.
unfoldable pub answer : BlpopHandler × Option Bytes → ℕ × Bytes
answer (h, none) = (h.session, codes "*-1\r\n")
answer (h, some v) = (h.session, Array.to_resp (h.key ∷ v ∷ []))

abbrev pub Result : Type 0
Result = Outcome (Database BlpopHandler × Replies)

abbrev pub ok_reply : Bytes
ok_reply = codes "+OK\r\n"

abbrev pub null_bulk : Bytes
null_bulk = codes "$-1\r\n"

abbrev pub info_master : Bytes
info_master =
    codes
      "role:master\nmaster_replid:8371b4fb1155b71f4a04d3e1bc3e18c4a990aeeb\nmaster_repl_offset:0"

abbrev pub info_slave : Bytes
info_slave =
    codes "role:slave\nmaster_replid:8371b4fb1155b71f4a04d3e1bc3e18c4a990aeeb\nmaster_repl_offset:0"

serve_ping : Option Bytes → Bytes
serve_ping (some message) = message
serve_ping none = codes "+PONG\r\n"

unfoldable pub serve_get : Bytes → Bytes
serve_get [] = null_bulk
serve_get (c ∷ val) = BulkString.to_resp (c ∷ val)

serve_info : Bytes → Bytes
serve_info master_address =
    if bytes_eq master_address (codes "master")
    then BulkString.to_resp info_master
    else BulkString.to_resp info_slave

serve_set :
    (F : Floating)
    → Database BlpopHandler
    → Bytes
    → Bytes
    → Option Bytes
    → Outcome (Database BlpopHandler)
serve_set F db key value none = Database.set_value_timed F db key value (pos 0)
serve_set F db key value (some expiration) =
    stoll expiration >>= λ time. Database.set_value_timed F db key value time

-- The reply to the pusher, and then the handler that `notifyListPush` calls.
serve_push : ℕ → Bytes → Database BlpopHandler × ℤ → Result
serve_push session key (db, size) = Database.notify_list_push db key >>= λ (db', calls).
    ok (db', (session, Integer.to_resp size) ∷ map answer calls)

abbrev serve_echo : ℕ → Bytes → Replies
serve_echo session message = (session, BulkString.to_resp message) ∷ []

abbrev serve_rpush : Database BlpopHandler → ℕ → Bytes → List Bytes → Result
serve_rpush db session key elements = serve_push session key (Database.set_list db key elements)

abbrev serve_lpush : Database BlpopHandler → ℕ → Bytes → List Bytes → Result
serve_lpush db session key elements =
    serve_push session key (Database.set_list_left db key elements)

-- `getListRange` takes its positions as `int`.
abbrev serve_lrange : Database BlpopHandler → ℕ → Bytes → ℤ → ℤ → Replies
serve_lrange db session key start stop =
    let vals = Database.get_list_range db key (to_int start) (to_int stop) in
    (session, Array.to_resp vals) ∷ []

abbrev serve_llen : Database BlpopHandler → ℕ → Bytes → Replies
serve_llen db session key = (session, Integer.to_resp (pos (Database.get_list_length db key))) ∷ []

lpop_one : Database BlpopHandler → ℕ → Bytes → Result
lpop_one db session key = Database.remove_list_value db key >>= λ (db', val).
    ok (db', (session, BulkString.to_resp val) ∷ [])

lpop_many : Database BlpopHandler → ℕ → Bytes → ℤ → Result
lpop_many db session key count =
    Database.remove_list_values db key (to_int count) >>= λ (db', vals).
    ok (db', (session, Array.to_resp vals) ∷ [])

serve_lpop : Database BlpopHandler → ℕ → Bytes → Option ℤ → Result
unfolding lpop_one lpop_many
serve_lpop db session key none = lpop_one db session key
serve_lpop db session key (some count) =
    if leb_ℤ count (pos 1) then lpop_one db session key else lpop_many db session key count

module _ (F : Floating) where
  open F use {Double}

  abbrev serve_blpop : Database BlpopHandler → ℕ → Bytes → Double → Result
  serve_blpop db session key timeout =
      Database.async_blpop F db key timeout (record { session = session; key = key })
      >>= λ (db', calls). ok (db', map answer calls)

  -- `cmd->serveRequest(respond)`, where `respond` answers `session`.
  unfoldable pub serve_request : Database BlpopHandler → ℕ → Command Double → Result
  unfolding serve_ping serve_get serve_info serve_set serve_push serve_lpop Database.set_value_timed
  serve_request db session (ping c) = ok (db, (session, serve_ping c.message) ∷ [])
  serve_request db session (echo c) = ok (db, serve_echo session c.message)
  serve_request db session (set c) =
      serve_set F db c.key c.value c.expiration >>= λ db'. ok (db', (session, ok_reply) ∷ [])
  serve_request db session (get c) =
      ok (db, (session, serve_get (Database.get_value db c.key)) ∷ [])
  serve_request db session (rpush c) = serve_rpush db session c.key c.element
  serve_request db session (lpush c) = serve_lpush db session c.key c.element
  serve_request db session (lrange c) = ok (db, serve_lrange db session c.key c.start c.stop)
  serve_request db session (llen c) = ok (db, serve_llen db session c.key)
  serve_request db session (lpop c) = serve_lpop db session c.key c.count
  serve_request db session (blpop c) = serve_blpop db session c.key c.timeout
  serve_request db session (info c) = ok (db, (session, serve_info db.config.master_address) ∷ [])
  serve_request db session (replconf c) = ok (db, (session, ok_reply) ∷ [])
