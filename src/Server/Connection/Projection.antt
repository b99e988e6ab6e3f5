-- ===== src/Server/Connection/Projection.antt =====
-- The database of a server with connections is that of the event loop, after some events.
use mathlib.Core.Path.{subst}
use redis_cpp.Prelude.{
  ℕ, ◌≡◌, ◌-◌, arith, refl, sym, ◌∙◌, ap, true, false, List, [], ◌∷◌, ◌++◌, map, take_short,
  append_assoc,
}
use redis_cpp.Prelude.Bytes.{Bytes}
use redis_cpp.Prelude.Outcome.{Outcome, ok, ◌>>=◌, >>=-ok, Ensures-at}
use redis_cpp.Database
use redis_cpp.Database.{Database, Floating, ServerConfig}
use redis_cpp.Database.Waiters.{InOrder}
use redis_cpp.Commands.{BlpopHandler, Replies, Result, answer}
use redis_cpp.Server.Request.{handle_request, max_read}
use redis_cpp.Server.Loop
use redis_cpp.Server.Loop.{Event, run}
use redis_cpp.Server.Loop.Ordered.{run-create}
use redis_cpp.Server.Connection.{
  World, deliver, send_response, settle, on_read, on_write, on_waiter_timer, handle_accept, accept,
  do_read, update,
}
use redis_cpp.Server.Connection.Steps.{
  Step, accepted, read, written, key_timer, waiter_timer, Reach, start, later,
}

send_response-db :
    (s : ℕ) (resp : Bytes) (w w' : World) → send_response s resp w ≡ ok w' → w'.db ≡ w.db
unfolding send_response update
send_response-db s resp w w' h = ground arith

deliver-db : (replies : Replies) (w w' : World) → deliver replies w ≡ ok w' → w'.db ≡ w.db
unfolding deliver
deliver-db [] w w' h = cc
deliver-db ((s, resp) ∷ replies) w w' h =
    let (w1, e, rest) = >>=-ok (send_response s resp w) (deliver replies) h in
    deliver-db replies w1 w' rest ∙ send_response-db s resp w w1 e

-- What is left of the database behind a handler.
settle-db :
    (w w' : World) (m : Result)
    → settle w m ≡ ok w'
    → (replies : Replies) × (m ≡ ok (w'.db, replies))
unfolding settle
settle-db w w' m h =
    let ((db, replies), e, ran) = >>=-ok m after h in
    let same : w'.db ≡ db = deliver-db replies (record w { db = db }) w' ran in
    (replies, rw (e, same) refl)
  where
    after : Database BlpopHandler × Replies → Outcome World
    after (db, replies) = deliver replies (record w { db = db })

module _ (F : Floating) where
  run_one :
      (db d : Database BlpopHandler) (e : Event) (replies : Replies)
      → Loop.step F db e ≡ ok (d, replies)
      → run F db (e ∷ []) ≡ ok (d, replies ++ [])
  unfolding run
  run_one db d e replies h = rw h refl

  run-append :
      (db d d' : Database BlpopHandler) (es es' : List Event) (replies more : Replies)
      → run F db es ≡ ok (d, replies)
      → run F d es' ≡ ok (d', more)
      → run F db (es ++ es') ≡ ok (d', replies ++ more)
  unfolding run
  run-append db d d' [] es' replies more h h' = ground arith
  run-append db d d' (e ∷ es) es' replies more h h' =
      let (r, stepped, ran) = >>=-ok (Loop.step F db e) (rest es) h in
      let (r', ran', whole) = >>=-ok (run F r.0 es) (λ r'. ok (r'.0, r.1 ++ r'.1)) ran in
      let db_is : r'.0 ≡ d = cc in
      let all : r.1 ++ r'.1 ≡ replies = cc in
      rw
        (
          stepped,
          run-append r.0 d d' es es' r'.1 more
              (subst (λ (x : Database BlpopHandler). run F r.0 es ≡ ok (x, r'.1)) db_is ran') h',
        )
        (ap (λ l. ok (d', l)) (sym (append_assoc r.1 r'.1 more) ∙ ap (λ l. l ++ more) all))
    where
      rest : List Event → Database BlpopHandler × Replies → Result
      rest es (d, replies) = run F d es >>= λ (d', more). ok (d', replies ++ more)

module _ {F : Floating} where
  -- The event of the loop that a step is; the end of a write and a connection that is accepted are
  -- none.
  unfoldable pub events_of_step : {w w' : World} {failed : List ℕ} → Step F w w' failed → List Event
  events_of_step (accepted w err) = []
  events_of_step (read w w' s ec req h fits ran) = Event.read s ec req ∷ []
  events_of_step (written w s ec h) = []
  events_of_step (key_timer w key ec) = Event.key_timer key ec ∷ []
  events_of_step (waiter_timer w w' key id ec ran) = Event.waiter_timer key id ec ∷ []

  -- The events behind a state, the first one first.
  unfoldable pub events_of :
      {config : ServerConfig} {w : World} {failed : List ℕ} → Reach F config w failed → List Event
  unfolding events_of_step
  events_of start = []
  events_of (later r st) = events_of r ++ events_of_step st

  Step-run :
      {w w' : World} {failed : List ℕ} (st : Step F w w' failed)
      → (replies : Replies) × (run F w.db (events_of_step st) ≡ ok (w'.db, replies))
  unfolding run Loop.step on_read on_write on_waiter_timer handle_accept accept do_read update
      events_of_step
  Step-run (accepted w true) = ([], refl)
  Step-run (accepted w false) = ([], refl)
  Step-run (read w w' s true req h fits ran) = ([], ground arith)
  Step-run (read w w' s false req h fits ran) =
      let w1 = update w s (record (w.connections s) { reads = (w.connections s).reads - 1 }) in
      let (replies, e) = settle-db w1 w' (handle_request F w.db s req) ran in
      (
        replies ++ [],
        run_one F w.db w'.db (Event.read s false req) replies (rw (take_short max_read req fits) e),
      )
  Step-run (written w s true h) = ([], refl)
  Step-run (written w s false h) = ([], refl)
  Step-run (key_timer w key ec) = ([], refl)
  Step-run (waiter_timer w w' key id ec ran) =
      let (db', calls) = Database.on_timeout key id ec w.db in
      let (replies, e) = settle-db w w' (ok (db', map answer calls)) ran in
      (replies ++ [], run_one F w.db w'.db (Event.waiter_timer key id ec) replies e)

  pub reached_run :
      {config : ServerConfig} {w : World} {failed : List ℕ} (r : Reach F config w failed)
      → (replies : Replies) × (run F (Database.create config) (events_of r) ≡ ok (w.db, replies))
  unfolding run events_of
  reached_run start = ([], refl)
  reached_run {config} (later {w = w} {w' = w'} r st) =
      let (replies, ran) = reached_run r in
      let (more, ran') = Step-run st in
      (
        replies ++ more,
        run-append F (Database.create config) w.db w'.db (events_of r) (events_of_step st) replies
            more ran ran',
      )

  -- In every state that a server comes to, the ids rise along each queue.
  pub reached-InOrder :
      {config : ServerConfig} {w : World} {failed : List ℕ} → Reach F config w failed → InOrder w.db
  reached-InOrder {config} {w} r =
      let (replies, ran) = reached_run r in
      Ensures-at (λ r. InOrder r.0) (run F (Database.create config) (events_of r)) (w.db, replies)
        ran (run-create F config (events_of r))
