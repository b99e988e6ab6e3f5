-- ===== src/Commands/Delivery.antt =====
-- Pushes and the clients that are blocked on the list.
use redis_cpp.Prelude.{
  ℕ, ◌≤◌, ◌≡◌, refl, ap, ◌∙◌, ◌⊎◌, inl, inr, none, some, List, [], ◌∷◌, ◌++◌, length, arith,
}
use redis_cpp.Prelude.Int.{pos, int_max}
use redis_cpp.Prelude.Bytes.{Bytes, bytes_eq_refl}
use redis_cpp.Prelude.Outcome.{ok, undefined}
use redis_cpp.Resp.Integer
use redis_cpp.Resp.Array
use redis_cpp.Database
use redis_cpp.Database.{Database, Waiter, Floating, queue}
use redis_cpp.Database.Table.{assign}
use redis_cpp.Database.Lists.{list_at, set_list_lem, set_list-store}
use redis_cpp.Database.Quiet.{set_list-waiters}
use redis_cpp.Database.Waiters.{notify_list_push-serves}
use redis_cpp.Commands.{make_rpush, Replies, BlpopHandler, serve_request, serve_push, answer}

-- Nobody waits for a list that has elements.
abbrev pub Idle : Database BlpopHandler → Bytes → Type 0
Idle db key = (queue db key ≡ []) ⊎ (list_at db key ≡ [])

pub queue-some :
    (db : Database BlpopHandler) (key : Bytes) (w : Waiter BlpopHandler)
    (rest : List (Waiter BlpopHandler))
    → queue db key ≡ w ∷ rest
    → db.waiters key ≡ some (w ∷ rest)
queue-some db key w rest h = ground arith

pub notify_nobody :
    (db : Database BlpopHandler) (key : Bytes)
    → queue db key ≡ []
    → Database.notify_list_push db key ≡ ok (db, [])
unfolding Database.notify_list_push
notify_nobody db key h = ground arith

module _ (F : Floating) where
  -- RPUSH on an empty or absent list for which clients wait: the oldest waiter gets the first value,
  -- after the pusher has got the length, and leaves the queue; the other values stay in the list.
  pub rpush_serves_oldest :
      (db : Database BlpopHandler) (session : ℕ) (key v : Bytes) (vs : List Bytes)
      (w : Waiter BlpopHandler) (rest : List (Waiter BlpopHandler))
      → queue db key ≡ w ∷ rest
      → list_at db key ≡ []
      → length (v ∷ vs) ≤ int_max
      → (db' : Database BlpopHandler) × (serve_request F db session (make_rpush key (v ∷ vs))
          ≡ ok (
            db',
            (session, Integer.to_resp (pos (length (v ∷ vs))))
                ∷ (w.handler.session, Array.to_resp (w.handler.key ∷ v ∷ []))
                ∷ [],
          ))
        × (queue db' key ≡ rest)
        × (list_at db' key ≡ vs)
  unfolding serve_request serve_push assign answer
  rpush_serves_oldest db session key v vs w rest q l fits =
      let (pushed, size) = Database.set_list db key (v ∷ vs) in
      let waiting = rw (← set_list-waiters db key (v ∷ vs)) at (queue-some db key w rest q) in
      let stored = set_list-store db key (v ∷ vs) l in
      let served = notify_list_push-serves pushed key w rest v vs waiting stored in
      let (_, total) = set_list_lem db key (v ∷ vs) (rw l fits) in
      let size_is = total ∙ ap (λ xs. pos (length (xs ++ v ∷ vs))) l in
      (
        record pushed {
          list_store = assign pushed.list_store key vs;
          waiters = assign pushed.waiters key rest;
          cancelled = elim w.timer [
            | none ↦ pushed.cancelled
            | some delay ↦ w.id ∷ pushed.cancelled
          ];
        },
        rw (served, size_is),
        ground (arith, bytes_eq_refl key),
        ground (arith, bytes_eq_refl key),
      )

  -- RPUSH on a list for which nobody waits appends its values, and answers only the pusher.
  pub rpush_appends :
      (db : Database BlpopHandler) (session : ℕ) (key : Bytes) (values : List Bytes)
      → queue db key ≡ []
      → length (list_at db key ++ values) ≤ int_max
      → (db' : Database BlpopHandler) × (serve_request F db session (make_rpush key values)
          ≡ ok (db', (session, Integer.to_resp (pos (length (list_at db key ++ values)))) ∷ []))
        × (queue db' key ≡ [])
        × (list_at db' key ≡ list_at db key ++ values)
  unfolding serve_request serve_push
  rpush_appends db session key values q fits =
      let (pushed, size) = Database.set_list db key values in
      let still : queue pushed key ≡ [] = rw (set_list-waiters db key values) q in
      let (lists, total) = set_list_lem db key values fits in
      (
        pushed,
        rw (notify_nobody pushed key still, total),
        still,
        rw (bytes_eq_refl key) at (lists key),
      )

  one :
      (db : Database BlpopHandler) (session : ℕ) (key v : Bytes) (ws : List (Waiter BlpopHandler))
      → queue db key ≡ ws
      → Idle db key
      → length (list_at db key ++ v ∷ []) ≤ int_max
      → (r : Database BlpopHandler × Replies) × (serve_request F db session
            (make_rpush key (v ∷ []))
          ≡ ok r)
        × Idle r.0 key
  one db session key v [] q idle fits =
      let (db', served, left, more) = rpush_appends db session key (v ∷ []) q fits in
      ((db', _), served, inl left)
  one db session key v (w ∷ rest) q (inl e) fits = absurd (cc)
  one db session key v (w ∷ rest) q (inr l) fits =
      let (db', served, left, more) =
        rpush_serves_oldest db session key v [] w rest q l (omega arith) in
      ((db', _), served, inr more)

  -- RPUSH of one value leaves nobody waiting for a list with elements, if nobody did before.
  pub rpush_one-Idle :
      (db : Database BlpopHandler) (session : ℕ) (key v : Bytes)
      → Idle db key
      → length (list_at db key ++ v ∷ []) ≤ int_max
      → (r : Database BlpopHandler × Replies) × (serve_request F db session
            (make_rpush key (v ∷ []))
          ≡ ok r)
        × Idle r.0 key
  rpush_one-Idle db session key v idle fits = one db session key v (queue db key) refl idle fits

  -- RPUSH without a value, for a list that is empty or absent and for which a client waits, reads the
  -- front of an empty vector.
  pub rpush_nothing :
      (db : Database BlpopHandler) (session : ℕ) (key : Bytes) (w : Waiter BlpopHandler)
      (rest : List (Waiter BlpopHandler))
      → queue db key ≡ w ∷ rest
      → list_at db key ≡ []
      → serve_request F db session (make_rpush key []) ≡ undefined
  unfolding serve_request serve_push Database.notify_list_push
  rpush_nothing db session key w rest q l =
      let (pushed, size) = Database.set_list db key [] in
      let waiting = rw (← set_list-waiters db key []) at (queue-some db key w rest q) in
      let stored = set_list-store db key [] l in ground arith
