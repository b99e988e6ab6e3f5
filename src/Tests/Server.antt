-- ===== src/Tests/Server.antt =====
-- Commands and the server, at concrete inputs.
use redis_cpp.Prelude.{
  ℕ, ◌+◌, ◌*◌, ◌≡◌, inl, inr, refl, false, none, [], ◌∷◌, ◌++◌, List, arith, ltb,
}
use redis_cpp.Prelude.Int.{leb_ℤ, pos, int_max}
use redis_cpp.Prelude.Bytes.{Bytes, codes, bytes_eq, crlf, to_upper}
use redis_cpp.Prelude.Outcome.{
  ok, throws, undefined, ◌>>=◌, missing_star, non_digit_character, Ensures,
}
use redis_cpp.Resp.Decimal.{parse_digits}
use redis_cpp.Resp.Integer
use redis_cpp.Resp.Array
use redis_cpp.Database
use redis_cpp.Database.{Database, Floating, Waiter, queue}
use redis_cpp.Database.Table.{assign, empty}
use redis_cpp.Database.Lists.{list_at}
use redis_cpp.Database.Waiters.{InOrder}
use redis_cpp.Commands.{make_rpush, BlpopHandler, Replies, serve_request}
use redis_cpp.Commands.Delivery
use redis_cpp.Commands.Delivery.{Idle}
use redis_cpp.Commands.Router.{get_command}
use redis_cpp.Commands.Router.Arguments
use redis_cpp.Server.Request.{handle_request}
use redis_cpp.Server.Request.RoundTrip
use redis_cpp.Server.Exchange
use redis_cpp.Server.Exchange.{found}
use redis_cpp.Server.Loop.{Event, read, waiter_timer, run}
use redis_cpp.Server.Loop.Ordered
use redis_cpp.Server.Loop.Stops
use redis_cpp.Tests.Database.{master}

-- Doubles as whole seconds.
abbrev pub seconds : Floating
seconds = record {
  Double = ℕ;
  stod = λ s. parse_digits int_max non_digit_character s 0;
  is_positive = λ d. ltb 0 d;
  to_millis = λ d. ok (pos (d * 1000));
  on_clock = λ time. leb_ℤ time (pos 1000000000000);
}

abbrev key : Bytes
key = codes "k"

abbrev pub fresh : Database BlpopHandler
fresh = record {
  config = master;
  kv_store = empty;
  list_store = empty;
  waiters = empty;
  waiter_count = 0;
  timers = [];
  cancelled = [];
}

get_after_set_example :
    (db' : Database BlpopHandler) × (handle_request seconds fresh 1
        (Array.to_resp (codes "SET" ∷ key ∷ codes "v" ∷ []) ++ codes "junk")
      ≡ ok (db', (1, codes "+OK\r\n") ∷ []))
    × (handle_request seconds db' 2 (Array.to_resp (codes "GET" ∷ key ∷ []) ++ [])
        ≡ ok (db', (2, found (codes "v")) ∷ []))
get_after_set_example =
    Exchange.get_after_set seconds fresh 1 2 key (codes "v") (codes "junk") [] refl (omega arith)
      (omega arith)

handle_request-to_resp_example :
    handle_request seconds fresh 1 (Array.to_resp (codes "echo" ∷ codes "hi" ∷ []) ++ codes "*1")
    ≡ (get_command seconds (codes "echo") (codes "hi" ∷ []) >>= serve_request seconds fresh 1)
handle_request-to_resp_example =
    RoundTrip.handle_request-to_resp seconds fresh 1 (codes "echo") (codes "hi" ∷ []) (codes "*1")
      (omega arith) (omega arith)

handle_request_overflow_example :
    handle_request seconds fresh 1 (b'*' ∷ (codes "99999999999" ++ (crlf ++ codes "$"))) ≡ undefined
handle_request_overflow_example =
    RoundTrip.handle_request_overflow seconds fresh 1 (codes "99999999999") (codes "$")
      (omega arith) (omega arith)

abbrev history : List Event
history =
    read 1 false (codes "*3\r\n$5\r\nBLPOP\r\n$1\r\nk\r\n$1\r\n1\r\n")
    ∷ read 2 false (codes "*3\r\n$5\r\nBLPOP\r\n$1\r\nk\r\n$1\r\n0\r\n")
    ∷ waiter_timer key 0 false
    ∷ []

run-create_example : Ensures (λ r. InOrder r.0) (run seconds (Database.create master) history)
run-create_example = Ordered.run-create seconds master history

run_no_request_example :
    run seconds fresh ([] ++ read 3 false (codes "PING\r\n") ∷ history) ≡ throws missing_star
unfolding run
run_no_request_example =
    Stops.run_no_request seconds fresh fresh [] [] 3 (codes "PING\r\n") history refl
      (inr (λ e. ground arith))

abbrev handler : ℕ → BlpopHandler
handler session = record { session = session; key = key }

abbrev waiter : ℕ → Waiter BlpopHandler
waiter id = record { id = id; handler = handler (id + 1); timer = none }

-- Sessions 1 and 2 wait for the list of the key.
abbrev blocked : Database BlpopHandler
blocked = record fresh { waiters = assign empty key (waiter 0 ∷ waiter 1 ∷ []); waiter_count = 2 }

rpush_serves_oldest_example :
    (db' : Database BlpopHandler) × (serve_request seconds blocked 3
        (make_rpush key (codes "a" ∷ codes "b" ∷ []))
      ≡ ok (db', (3, Integer.to_resp (pos 2)) ∷ (1, Array.to_resp (key ∷ codes "a" ∷ [])) ∷ []))
    × (queue db' key ≡ waiter 1 ∷ [])
    × (list_at db' key ≡ codes "b" ∷ [])
unfolding assign bytes_eq
rpush_serves_oldest_example =
    Delivery.rpush_serves_oldest seconds blocked 3 key (codes "a") (codes "b" ∷ []) (waiter 0)
      (waiter 1 ∷ []) refl refl (omega arith)

rpush_one-Idle_example :
    (r : Database BlpopHandler × Replies) × (serve_request seconds blocked 3
        (make_rpush key (codes "a" ∷ []))
      ≡ ok r)
    × Idle r.0 key
unfolding assign bytes_eq
rpush_one-Idle_example =
    Delivery.rpush_one-Idle seconds blocked 3 key (codes "a") (inr refl) (omega arith)

rpush_nothing_example : serve_request seconds blocked 3 (make_rpush key []) ≡ undefined
unfolding assign bytes_eq
rpush_nothing_example =
    Delivery.rpush_nothing seconds blocked 3 key (waiter 0) (waiter 1 ∷ []) refl refl

get_command_case_example :
    get_command seconds (codes "eChO") (codes "hi" ∷ [])
    ≡ get_command seconds (codes "ECHO") (codes "hi" ∷ [])
get_command_case_example =
    Arguments.get_command_case seconds (codes "eChO") (codes "ECHO") (codes "hi" ∷ []) (
      inr (inl (omega arith, omega arith, refl)),
      (inl refl, (inr (inl (omega arith, omega arith, refl)), (inl refl, tt))),
    )

get_command_key_only_example : get_command seconds (codes "set") (key ∷ []) ≡ undefined
unfolding to_upper
get_command_key_only_example = Arguments.get_command_key_only seconds (codes "set") key (inl refl)
