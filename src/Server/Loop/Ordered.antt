-- ===== src/Server/Loop/Ordered.antt =====
-- The queues of blocked clients in every history of the server.
use redis_cpp.Prelude.{ℕ, take, List, [], ◌∷◌, true, false, arith}
use redis_cpp.Prelude.Bytes.{Bytes}
use redis_cpp.Prelude.Outcome.{Ensures, Ensures-bind, anything}
use redis_cpp.Database
use redis_cpp.Database.{Database, Floating, ServerConfig}
use redis_cpp.Database.Waiters.{InOrder, on_timeout-InOrder}
use redis_cpp.Commands.{BlpopHandler}
use redis_cpp.Commands.Router.{get_command}
use redis_cpp.Commands.Ordered.{serve_request-InOrder}
use redis_cpp.Server.Request.{get_num_commands, parse_command, handle_request, after_star, max_read}
use redis_cpp.Server.Loop.{Event, read, key_timer, waiter_timer, step, run}

create-InOrder : (config : ServerConfig) → InOrder (Database.create {H = BlpopHandler} config)
unfolding Database.create
create-InOrder config key = omega arith

module _ (F : Floating) where
  handle_request-InOrder :
      (db : Database BlpopHandler) (session : ℕ) (req : Bytes)
      → InOrder db
      → Ensures (λ r. InOrder r.0) (handle_request F db session req)
  unfolding handle_request
  handle_request-InOrder db session req v =
      Ensures-bind _ _ (get_num_commands req) _ (anything (get_num_commands req)) λ n _.
        Ensures-bind _ _ (after_star req) _ (anything (after_star req)) λ cursor _.
          Ensures-bind _ _ (parse_command req) _ (anything (parse_command req)) λ p _.
            Ensures-bind _ _ (get_command F p.0 p.1) _ (anything (get_command F p.0 p.1))
              λ cmd _. serve_request-InOrder F db session cmd v

  step-InOrder :
      (db : Database BlpopHandler) (e : Event)
      → InOrder db
      → Ensures (λ r. InOrder r.0) (step F db e)
  unfolding step Database.on_expire
  step-InOrder db (read session true req) v = v
  step-InOrder db (read session false req) v =
      handle_request-InOrder db session (take max_read req) v
  step-InOrder db (key_timer key true) v = v
  step-InOrder db (key_timer key false) v = v
  step-InOrder db (waiter_timer key id ec) v = on_timeout-InOrder db key id ec v

  run-InOrder :
      (db : Database BlpopHandler) (es : List Event)
      → InOrder db
      → Ensures (λ r. InOrder r.0) (run F db es)
  unfolding run
  run-InOrder db [] v = v
  run-InOrder db (e ∷ es) v =
      Ensures-bind (λ r. InOrder r.0) _ (step F db e) _ (step-InOrder db e v)
        λ r h. Ensures-bind (λ r. InOrder r.0) _ (run F r.0 es) _ (run-InOrder r.0 es h) λ r' h'. h'

  -- After any events from the start that leave the server running, in every queue the ids of the blocked clients rise and were given out.
  pub run-create :
      (config : ServerConfig) (es : List Event)
      → Ensures (λ r. InOrder r.0) (run F (Database.create config) es)
  run-create config es = run-InOrder (Database.create config) es (create-InOrder config)
