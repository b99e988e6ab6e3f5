-- ===== src/Tests/Connection.antt =====
-- The connections of a server, at concrete steps.
use redis_cpp.Prelude.{
  ◌≡◌, ◌∙◌, refl, false, true, Option, some, ◌+◌, ◌≤◌, [], ◌∷◌, ◌++◌, length, arith,
}
use redis_cpp.Prelude.Int.{pos}
use redis_cpp.Prelude.Bytes.{Bytes, codes, bytes_eq, to_upper}
use redis_cpp.Prelude.Outcome.{ok}
use redis_cpp.Resp.Array
use redis_cpp.Resp.Integer
use redis_cpp.Resp.BulkString
use redis_cpp.Resp.Decimal.{parse_digits, to_string}
use redis_cpp.Database
use redis_cpp.Database.{Database, Waiter, queue, enqueue, take_id}
use redis_cpp.Database.Table.{assign}
use redis_cpp.Database.Waiters.Held.{Held, tokens}
use redis_cpp.Commands.{BlpopHandler, serve_request}
use redis_cpp.Commands.Settled.{of_session}
use redis_cpp.Commands.Router.{get_command, to_command}
use redis_cpp.Server.Request.{handle_request, max_read}
use redis_cpp.Server.Request.RoundTrip.{handle_request-to_resp}
use redis_cpp.Server.Connection.{
  World, update, do_read, accept, handle_accept, listening, deliver, settle, on_read,
  on_waiter_timer,
}
use redis_cpp.Server.Connection.Deliver.{busy}
use redis_cpp.Server.Connection.Steps.{accepted, read, Reach, start, later}
use redis_cpp.Server.Connection.Safe
use redis_cpp.Server.Connection.Safe.{Answered}
use redis_cpp.Server.Connection.Projection
use redis_cpp.Server.Connection.Timeout
use redis_cpp.Server.Connection.Push
use redis_cpp.Server.Connection.Push.{Sends}
use redis_cpp.Tests.Database.{master}
use redis_cpp.Tests.Server.{seconds}

abbrev key : Bytes
key = codes "k"

-- One client has come.
abbrev one_client : World
one_client = handle_accept false (listening master)

one_client-Reach : Reach seconds master one_client []
one_client-Reach = later start (accepted (listening master) false)

abbrev handler : BlpopHandler
handler = record { session = 0; key = key }

-- It waits for an element of a list.
abbrev blocked : Database BlpopHandler
blocked = enqueue one_client.db key handler (some (pos 5000))

abbrev request : Bytes
request = Array.to_resp (codes "BLPOP" ∷ key ∷ codes "5" ∷ []) ++ []

request_served : handle_request seconds one_client.db 0 request ≡ ok (blocked, [])
unfolding get_command to_command serve_request Database.async_blpop bytes_eq to_upper parse_digits
    handle_accept accept do_read update Database.create
request_served =
    handle_request-to_resp seconds one_client.db 0 (codes "BLPOP") (key ∷ codes "5" ∷ []) []
      (omega arith) (omega arith)
    ∙ refl

abbrev waits : World
waits = record (update one_client 0 (record (one_client.connections 0) { reads = 0 })) {
  db = blocked;
}

request_read : on_read seconds 0 false request one_client ≡ ok waits
unfolding on_read settle deliver handle_accept accept do_read update
request_read = rw request_served refl

request_fits : length request ≤ max_read
unfolding Array.to_resp BulkString.to_resp to_string
request_fits = omega arith

waits-Reach : Reach seconds master waits []
unfolding handle_accept accept do_read update
waits-Reach =
    later one_client-Reach
      (read one_client waits 0 false request (omega arith) request_fits request_read)

reached_alone_example :
    (place : Option Bytes) × Held (of_session 0) waits.db place
    × (busy (waits.connections 0) + tokens place ≡ 1)
unfolding handle_accept accept do_read update
reached_alone_example = Safe.reached_alone 0 waits-Reach (omega arith) tt

request_answered_or_queued_example :
    (w' : World) × (on_read seconds 0 false request one_client ≡ ok w')
    × (w'.db ≡ blocked)
    × Answered w' 0
unfolding handle_accept accept do_read update
request_answered_or_queued_example =
    Safe.request_answered_or_queued 0 request blocked [] one_client-Reach (omega arith)
      request_served

abbrev waiter : Waiter BlpopHandler
waiter = record { id = 0; handler = handler; timer = some (pos 5000) }

timeout_answers_example :
    (w' : World) × (on_waiter_timer key 0 false waits ≡ ok w')
    × ((w'.connections 0).writing ≡ true)
    × ((w'.connections 0).message ≡ codes "*-1\r\n")
    × (queue w'.db key ≡ [])
unfolding enqueue assign bytes_eq handle_accept accept do_read Database.create
timeout_answers_example = Timeout.timeout_answers key [] [] waiter waits-Reach refl

-- Another client comes.
abbrev two_clients : World
two_clients = handle_accept false waits

two_clients-Reach : Reach seconds master two_clients []
two_clients-Reach = later waits-Reach (accepted waits false)

push_fits : length (Array.to_resp (codes "RPUSH" ∷ key ∷ codes "v" ∷ [])) ≤ max_read
unfolding Array.to_resp BulkString.to_resp to_string
push_fits = omega arith

push_answers_example :
    (w' : World) × (on_read seconds 1 false
        (Array.to_resp (codes "RPUSH" ∷ key ∷ codes "v" ∷ []))
        two_clients
      ≡ ok w')
    × Sends w' 1 (Integer.to_resp (pos 1))
    × Sends w' 0 (Array.to_resp (key ∷ codes "v" ∷ []))
    × (queue w'.db key ≡ [])
unfolding enqueue assign bytes_eq handle_accept accept do_read update Database.create
push_answers_example =
    Push.push_answers 1 key (codes "v") waiter [] two_clients-Reach (omega arith) refl refl
      push_fits
