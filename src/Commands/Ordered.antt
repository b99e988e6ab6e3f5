-- ===== src/Commands/Ordered.antt =====
-- Every command keeps the queues of blocked clients in order.
use redis_cpp.Prelude.{ℕ, ◌≡◌, refl, Option, none, some, List, arith, Bool-cases, inl, inr}
use redis_cpp.Prelude.Int.{ℤ, pos, leb_ℤ, to_int}
use redis_cpp.Prelude.Bytes.{Bytes}
use redis_cpp.Prelude.Outcome.{ok, Ensures, Ensures-of_ok, Ensures-bind}
use redis_cpp.Database
use redis_cpp.Database.{Database, Floating, Calls}
use redis_cpp.Database.Values.{set_value_timed-Ensures}
use redis_cpp.Database.Waiters.{InOrder, async_blpop-InOrder, notify_list_push-InOrder}
use redis_cpp.Commands.{
  Command, ping, echo, set, get, rpush, lpush, lrange, llen, lpop, blpop, info, replconf,
  BlpopHandler, serve_request, serve_push, serve_set, serve_lpop,
}
use redis_cpp.Commands.Stoll.{stoll}

-- The same queues, and the same count of waiters.
SameQueues : Database BlpopHandler → Database BlpopHandler → Type 0
SameQueues db db' = (db'.waiters ≡ db.waiters) × (db'.waiter_count ≡ db.waiter_count)

SameQueues-InOrder : (db db' : Database BlpopHandler) → SameQueues db db' → InOrder db → InOrder db'
unfolding SameQueues
SameQueues-InOrder db db' (e, e') v k = rw (e, e') (v k)

set_value-SameQueues :
    (db : Database BlpopHandler) (key value : Bytes) (time : ℤ)
    → SameQueues db (Database.set_value db key value time)
unfolding SameQueues Database.set_value
set_value-SameQueues db key value time = ground arith

set_list-SameQueues :
    (db : Database BlpopHandler) (key : Bytes) (values : List Bytes)
    → SameQueues db (Database.set_list db key values).0
unfolding SameQueues Database.set_list
set_list-SameQueues db key values = ground arith

set_list_left-SameQueues :
    (db : Database BlpopHandler) (key : Bytes) (values : List Bytes)
    → SameQueues db (Database.set_list_left db key values).0
unfolding SameQueues Database.set_list_left
set_list_left-SameQueues db key values = (refl, refl)

remove-InOrder :
    (db : Database BlpopHandler) (key : Bytes)
    → InOrder db
    → Ensures (λ r. InOrder r.0) (Database.remove_list_value db key)
remove-InOrder db key v =
    Ensures-of_ok _ (Database.remove_list_value db key)
      λ r e. SameQueues-InOrder db r.0 (same r e) v
  where
    same :
        (r : Database BlpopHandler × Bytes)
        → Database.remove_list_value db key ≡ ok r
        → SameQueues db r.0
    same r e = unfold SameQueues Database.remove_list_value in ground arith

remove_many-InOrder :
    (db : Database BlpopHandler) (key : Bytes) (count : ℤ)
    → InOrder db
    → Ensures (λ r. InOrder r.0) (Database.remove_list_values db key count)
remove_many-InOrder db key count v =
    Ensures-of_ok _ (Database.remove_list_values db key count)
      λ r e. SameQueues-InOrder db r.0 (same r e) v
  where
    same :
        (r : Database BlpopHandler × List Bytes)
        → Database.remove_list_values db key count ≡ ok r
        → SameQueues db r.0
    same r e = unfold SameQueues Database.remove_list_values in ground arith

push-InOrder :
    (db : Database BlpopHandler) (session : ℕ) (key : Bytes) (size : ℤ)
    → InOrder db
    → Ensures (λ r. InOrder r.0) (serve_push session key (db, size))
unfolding serve_push
push-InOrder db session key size v =
    Ensures-bind (λ r. InOrder r.0) _ (Database.notify_list_push db key) _
      (Ensures-of_ok _ (Database.notify_list_push db key)
        λ r e. notify_list_push-InOrder db r.0 key r.1 v e)
      (λ r h. h)

lpop-InOrder :
    (db : Database BlpopHandler) (session : ℕ) (key : Bytes) (count : Option ℤ)
    → InOrder db
    → Ensures (λ r. InOrder r.0) (serve_lpop db session key count)
unfolding serve_lpop
lpop-InOrder db session key none v =
    Ensures-bind (λ r. InOrder r.0) _ (Database.remove_list_value db key) _
      (remove-InOrder db key v) (λ r h. h)
lpop-InOrder db session key (some count) v = elim (Bool-cases (leb_ℤ count (pos 1))) [
  | inl e ↦ rw e (
      Ensures-bind (λ r. InOrder r.0) _ (Database.remove_list_value db key) _
        (remove-InOrder db key v) (λ r h. h))
  | inr e ↦ rw e (
      Ensures-bind (λ r. InOrder r.0) _ (Database.remove_list_values db key (to_int count)) _
        (remove_many-InOrder db key (to_int count) v) (λ r h. h))
]

set-InOrder :
    (F : Floating) (db : Database BlpopHandler) (key value : Bytes) (expiration : Option Bytes)
    → InOrder db
    → Ensures InOrder (serve_set F db key value expiration)
unfolding serve_set
set-InOrder F db key value none v =
    set_value_timed-Ensures F InOrder db key value (pos 0)
      (SameQueues-InOrder db _ (set_value-SameQueues db key value (pos 0)) v)
set-InOrder F db key value (some expiration) v =
    Ensures-bind (λ _. Unit {0}) _ (stoll expiration) _
      (Ensures-of_ok _ (stoll expiration) (λ time e. tt))
      (λ time h.
        set_value_timed-Ensures F InOrder db key value time
          (SameQueues-InOrder db _ (set_value-SameQueues db key value time) v))

module _ (F : Floating) where
  open F use {Double}

  -- A command that is served keeps the queues in order.
  pub serve_request-InOrder :
      (db : Database BlpopHandler) (session : ℕ) (cmd : Command Double)
      → InOrder db
      → Ensures (λ r. InOrder r.0) (serve_request F db session cmd)
  unfolding serve_request
  serve_request-InOrder db session (ping c) v = v
  serve_request-InOrder db session (echo c) v = v
  serve_request-InOrder db session (set c) v =
      Ensures-bind InOrder _ (serve_set F db c.key c.value c.expiration) _
        (set-InOrder F db c.key c.value c.expiration v) (λ db' h. h)
  serve_request-InOrder db session (get c) v = v
  serve_request-InOrder db session (rpush c) v =
      let (db', size) = Database.set_list db c.key c.element in
      push-InOrder db' session c.key size
        (SameQueues-InOrder db db' (set_list-SameQueues db c.key c.element) v)
  serve_request-InOrder db session (lpush c) v =
      let (db', size) = Database.set_list_left db c.key c.element in
      push-InOrder db' session c.key size
        (SameQueues-InOrder db db' (set_list_left-SameQueues db c.key c.element) v)
  serve_request-InOrder db session (lrange c) v = v
  serve_request-InOrder db session (llen c) v = v
  serve_request-InOrder db session (lpop c) v = lpop-InOrder db session c.key c.count v
  serve_request-InOrder db session (blpop c) v =
      let handler : BlpopHandler = record { session = session; key = c.key } in
      Ensures-bind (λ r. InOrder r.0) _ (Database.async_blpop F db c.key c.timeout handler) _
        (Ensures-of_ok _ (Database.async_blpop F db c.key c.timeout handler)
          λ r e. async_blpop-InOrder F db r.0 c.key c.timeout handler r.1 v e)
        (λ r h. h)
  serve_request-InOrder db session (info c) v = v
  serve_request-InOrder db session (replconf c) v = v
