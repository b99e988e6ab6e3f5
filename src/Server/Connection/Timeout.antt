-- ===== src/Server/Connection/Timeout.antt =====
-- The end of a wait.
use mathlib.Core.Path.{subst}
use redis_cpp.Prelude.{
  ℕ, suc, ◌<◌, ◌++◌, ◌∷◌, [], ==_ne, ◌≤◌, ◌≡◌, ==_self, refl, true, false, none, some, List, arith,
}
use redis_cpp.Prelude.Bytes.{Bytes, codes, bytes_eq_refl}
use redis_cpp.Prelude.Outcome.{ok}
use redis_cpp.Database
use redis_cpp.Database.{Waiter, Floating, ServerConfig, queue, take_id}
use redis_cpp.Database.Table.{assign}
use redis_cpp.Database.Waiters.{Rising}
use redis_cpp.Database.Waiters.Conserved.{one, waiting, waiting-take_id}
use redis_cpp.Commands.{BlpopHandler, answer}
use redis_cpp.Commands.Settled.{of_session}
use redis_cpp.Server.Connection.{World, update, send_response, deliver, settle, on_waiter_timer}
use redis_cpp.Server.Connection.Deliver.{Load}
use redis_cpp.Server.Connection.Steps.{Reach}
use redis_cpp.Server.Connection.Projection.{reached-InOrder}
use redis_cpp.Server.Connection.Reached.{Reach-AllAlone}

-- A connection whose client waits is not being written.
waiting-writing :
    (w : World) (t n : ℕ) (key : Bytes)
    → Load w t n
    → n ≤ 1
    → 1 ≤ waiting (of_session t) (queue w.db key)
    → (w.connections t).writing ≡ false
waiting-writing w t n key (none, held, total) le some_wait = absurd (omega (arith, held key))
waiting-writing w t n key (some j, held, total) le some_wait = ground arith

-- The ids rise along a queue, so that one who waits is found under its own.
Rising-middle :
    (lo hi : ℕ) (before behind : List (Waiter BlpopHandler)) (waiter : Waiter BlpopHandler)
    → Rising lo (before ++ waiter ∷ behind) hi
    → lo ≤ waiter.id
Rising-middle lo hi [] behind waiter r = r.0
Rising-middle lo hi (v ∷ before) behind waiter r =
    omega (arith, r.0, Rising-middle (suc v.id) hi before behind waiter r.1)

take_id-middle :
    (lo hi : ℕ) (before behind : List (Waiter BlpopHandler)) (waiter : Waiter BlpopHandler)
    → Rising lo (before ++ waiter ∷ behind) hi
    → take_id waiter.id (before ++ waiter ∷ behind) ≡ some (waiter, before ++ behind)
unfolding take_id
take_id-middle lo hi [] behind waiter r = rw (==_self waiter.id) refl
take_id-middle lo hi (v ∷ before) behind waiter r =
    let less : v.id < waiter.id = Rising-middle (suc v.id) hi before behind waiter r.1 in
    rw
      (
        ==_ne v.id waiter.id (λ e. absurd (omega arith)),
        take_id-middle (suc v.id) hi before behind waiter r.1,
      )
      refl

module _ {F : Floating} {config : ServerConfig} {w : World} {failed : List ℕ} where
  -- The waiter that the callback takes out of the queue.
  taken_answers :
      (key : Bytes) (id : ℕ) (waiter : Waiter BlpopHandler) (rest : List (Waiter BlpopHandler))
      → Reach F config w failed
      → take_id id (queue w.db key) ≡ some (waiter, rest)
      → (w' : World) × (on_waiter_timer key id false w ≡ ok w')
        × ((w'.connections waiter.handler.session).writing ≡ true)
        × ((w'.connections waiter.handler.session).message ≡ codes "*-1\r\n")
        × (queue w'.db key ≡ rest)
  unfolding on_waiter_timer settle deliver send_response update Database.on_timeout answer assign
      one
  taken_answers key id waiter rest r h =
      let s = waiter.handler.session in
      let (n, (load, le, _, _)) = Reach-AllAlone r s in
      let count = waiting-take_id (of_session s) id (queue w.db key) waiter rest h in
      let free = waiting-writing w s n key load le (ground (arith, count, ==_self s)) in
      let c = w.connections s in
      (
        update (record w { db = record w.db { waiters = assign w.db.waiters key rest } }) s
            (record c { message = codes "*-1\r\n"; writing = true }),
        rw (h, free) refl,
        rw (==_self s) refl,
        rw (==_self s) refl,
        rw (bytes_eq_refl key) refl,
      )

  -- In every state that the server comes to, when the timer of a client that waits runs out, wherever
  -- it stands in the queue of its key, the null array is being written to that client, and it is out of
  -- the queue; those before and behind it stay there in their order.
  pub timeout_answers :
      (key : Bytes) (before behind : List (Waiter BlpopHandler)) (waiter : Waiter BlpopHandler)
      → Reach F config w failed
      → queue w.db key ≡ before ++ waiter ∷ behind
      → (w' : World) × (on_waiter_timer key waiter.id false w ≡ ok w')
        × ((w'.connections waiter.handler.session).writing ≡ true)
        × ((w'.connections waiter.handler.session).message ≡ codes "*-1\r\n")
        × (queue w'.db key ≡ before ++ behind)
  timeout_answers key before behind waiter r e =
      let rising = subst (λ q. Rising 0 q w.db.waiter_count) e (reached-InOrder r key) in
      taken_answers key waiter.id waiter (before ++ behind) r
        (rw e (take_id-middle 0 w.db.waiter_count before behind waiter rising))
