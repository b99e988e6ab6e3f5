-- ===== src/Server/Connection/Safe.antt =====
-- What holds of the connections in every state that a server comes to.
use redis_cpp.Prelude.{
  ℕ, ◌+◌, ◌<◌, ◌≡◌, Bool, true, false, Option, none, some, List, ◌⊎◌, inl, inr, arith,
}
use redis_cpp.Prelude.Bytes.{Bytes, Lacks}
use redis_cpp.Prelude.Outcome.{ok}
use redis_cpp.Database.{Database, Floating, ServerConfig}
use redis_cpp.Database.Waiters.Held.{Held, tokens}
use redis_cpp.Commands.{BlpopHandler, Replies}
use redis_cpp.Commands.Settled.{of_session}
use redis_cpp.Server.Request.{handle_request}
use redis_cpp.Server.Connection.{World, on_read, on_waiter_timer}
use redis_cpp.Server.Connection.Deliver.{busy, Load}
use redis_cpp.Server.Connection.Steps.{Reach}
use redis_cpp.Server.Connection.Reached.{Reach-AllAlone, on_read-AllAlone, on_waiter_timer-AllAlone}

-- The reply to a client is being written and it waits nowhere, or nothing is under way on its
-- connection and it waits under one key, once.
abbrev pub Answered : World → ℕ → Type 0
Answered w s =
    (((w.connections s).reads ≡ 0)
      × ((w.connections s).writing ≡ true)
      × Held (of_session s) w.db none)
    ⊎ (((w.connections s).reads ≡ 0)
        × ((w.connections s).writing ≡ false)
        × ((key : Bytes) × Held (of_session s) w.db (some key)))

answered : (w : World) (s : ℕ) → Load w s 1 → (w.connections s).reads ≡ 0 → Answered w s
answered w s (none, held, total) e = inl (e, ground arith, held)
answered w s (some key, held, total) e = inr (e, ground arith, (key, held))

module _ {F : Floating} {config : ServerConfig} {w : World} {failed : List ℕ} where
  -- In every state that the server comes to, a connection that was accepted and has not failed has
  -- exactly one operation under way, a read or a write, or its client waits in exactly one queue, and
  -- there once: no client is forgotten, and no operation overlaps another.
  pub reached_alone :
      (t : ℕ)
      → Reach F config w failed
      → t < w.accepting
      → Lacks t failed
      → (place : Option Bytes) × Held (of_session t) w.db place
        × (busy (w.connections t) + tokens place ≡ 1)
  reached_alone t r accepted alive =
      let (n, ((place, held, total), le, fresh, old)) = Reach-AllAlone r t in
      (place, held, omega (arith, old accepted alive))

  -- In every state that the server comes to, a request that the commands serve can be answered: no
  -- reply is written on a connection that is still being written, which would be undefined.
  pub replies_never_overlap :
      (s : ℕ) (req : Bytes) (db' : Database BlpopHandler) (replies : Replies)
      → Reach F config w failed
      → 0 < (w.connections s).reads
      → handle_request F w.db s req ≡ ok (db', replies)
      → (w' : World) × (on_read F s false req w ≡ ok w') × (w'.db ≡ db')
  replies_never_overlap s req db' replies r h e =
      let (w', ran, d, _, _, _) =
        on_read-AllAlone F w failed (Reach-AllAlone r) s req db' replies h e in
      (w', ran, d)

  -- In every state that the server comes to, a client whose request is served is answered, or waits in
  -- exactly one queue: behind the handler either its reply is being written and it waits nowhere, or
  -- nothing is under way on its connection and it waits under one key, once.
  pub request_answered_or_queued :
      (s : ℕ) (req : Bytes) (db' : Database BlpopHandler) (replies : Replies)
      → Reach F config w failed
      → 0 < (w.connections s).reads
      → handle_request F w.db s req ≡ ok (db', replies)
      → (w' : World) × (on_read F s false req w ≡ ok w') × (w'.db ≡ db') × Answered w' s
  request_answered_or_queued s req db' replies r h e =
      let alone = Reach-AllAlone r in
      let (w', ran, d, reads, load, _) = on_read-AllAlone F w failed alone s req db' replies h e in
      let (n, ((place, held, total), le, _, _)) = alone s in
      let one : n ≡ 1 = omega (arith, total, le) in
      (w', ran, d, answered w' s (rw one at load) (omega (arith, reads, total, le)))

  -- The callback of a waiter's timer always succeeds.
  pub timeout_never_overlaps :
      (key : Bytes) (id : ℕ) (ec : Bool)
      → Reach F config w failed
      → (w' : World) × (on_waiter_timer key id ec w ≡ ok w')
  timeout_never_overlaps key id ec r =
      let (w', ran, _) = on_waiter_timer-AllAlone F w failed (Reach-AllAlone r) key id ec in
      (w', ran)
