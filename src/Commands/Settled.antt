-- ===== src/Commands/Settled.antt =====
-- Every command answers its client once, or leaves it in one queue; and of the clients in the queues
-- it answers only such as it takes out.
use redis_cpp.Prelude.{
  ℕ, ◌+◌, ◌≤◌, ◌≡◌, ◌==◌, refl, Bool, Option, none, some, [], ◌∷◌, map, arith, Bool-cases, inl, inr,
  if◌then◌else◌,
}
use redis_cpp.Prelude.Int.{ℤ, pos, leb_ℤ, to_int}
use redis_cpp.Prelude.Bytes.{Bytes}
use redis_cpp.Prelude.Outcome.{Ensures, Ensures-of_ok, Ensures-bind}
use redis_cpp.Database
use redis_cpp.Database.{Database, Floating, Calls}
use redis_cpp.Database.Values.{set_value_timed-Ensures}
use redis_cpp.Database.Waiters.{async_blpop-Queued}
use redis_cpp.Database.Waiters.Conserved.{
  one, answered, notify-conserves, timeout-conserves, blpop-conserves,
}
use redis_cpp.Database.Waiters.Held.{
  Held, Held-same, Settled, Balanced-Settled, calls-Settled, tokens,
}
use redis_cpp.Database.Quiet.{
  set_value-waiters, set_list-waiters, set_list_left-waiters, remove_list_value-waiters,
  remove_list_values-waiters,
}
use redis_cpp.Commands.{
  Command, ping, echo, set, get, rpush, lpush, lrange, llen, lpop, blpop, info, replconf,
  BlpopHandler, Replies, answer, serve_blpop, serve_request, serve_push, serve_set, serve_lpop,
  lpop_one, lpop_many,
}
use redis_cpp.Commands.Stoll.{stoll}

-- The handlers that answer the session `t`.
abbrev pub of_session : ℕ → BlpopHandler → Bool
of_session t h = h.session == t

abbrev pub bit : Bool → ℕ
bit b = if b then 1 else 0

-- How many of the replies are for `t`.
abbrev pub count : ℕ → Replies → ℕ
count t [] = 0
count t ((session, reply) ∷ replies) = bit (session == t) + count t replies

-- The clients `t` that are answered or wait behind a command are those that asked or waited
-- before it.
abbrev pub Served : ℕ → ℕ → Option Bytes → Database BlpopHandler × Replies → Type 0
Served t asked place (db, replies) = Settled (of_session t) db place asked (count t replies)

module _ (t : ℕ) where
  count-answer :
      (calls : Calls BlpopHandler) → count t (map answer calls) ≡ answered (of_session t) calls
  unfolding answer answered one
  count-answer [] = refl
  count-answer ((h, none) ∷ calls) = ground (arith, count-answer calls)
  count-answer ((h, some v) ∷ calls) = ground (arith, count-answer calls)

  module _ (db : Database BlpopHandler) (place : Option Bytes)
      (held : Held (of_session t) db place) where
    -- A command that answers its client and leaves the queues as they were.
    once-Served :
        (db' : Database BlpopHandler) (session : ℕ)
        → db'.waiters ≡ db.waiters
        → Settled (of_session t) db' place (bit (session == t)) (bit (session == t) + 0)
    once-Served db' session e = (place, Held-same (of_session t) db db' place e held, omega arith)

    -- The callback of a waiter's timer.
    pub on_timeout-Served :
        (key : Bytes) (id : ℕ) (ec : Bool)
        → (let (db', calls) = Database.on_timeout key id ec db in
            Served t 0 place (db', map answer calls))
    on_timeout-Served key id ec =
        let (db', calls) = Database.on_timeout key id ec db in
        let (place', held', total) =
          calls-Settled (of_session t) db db' key place (answered (of_session t) calls) held
            (λ k. timeout-conserves (of_session t) db key k id ec) in
        (place', held', omega (arith, count-answer calls))

    push-Served :
        (pushed : Database BlpopHandler) (session : ℕ) (key : Bytes) (size : ℤ)
        → pushed.waiters ≡ db.waiters
        → Ensures (Served t (bit (session == t)) place) (serve_push session key (pushed, size))
    unfolding serve_push
    push-Served pushed session key size e =
        Ensures-bind (λ r. Settled (of_session t) r.0 place 0 (answered (of_session t) r.1)) _
          (Database.notify_list_push pushed key) _
          (Ensures-of_ok _ (Database.notify_list_push pushed key) λ r h.
            calls-Settled (of_session t) pushed r.0 key place (answered (of_session t) r.1)
              (Held-same (of_session t) db pushed place e held)
              (λ k.
                notify-conserves (of_session t) pushed r.0 key k r.1 (pushed.waiters key) refl h))
          (λ r h. (h.0, h.1, omega (arith, h.2, count-answer r.1)))

    lpop_one-Served :
        (session : ℕ) (key : Bytes)
        → Ensures (Served t (bit (session == t)) place) (lpop_one db session key)
    unfolding lpop_one
    lpop_one-Served session key =
        Ensures-bind _ _ (Database.remove_list_value db key) _
          (remove_list_value-waiters db key (db.list_store key) refl)
          (λ r e. once-Served r.0 session e)

    lpop_many-Served :
        (session : ℕ) (key : Bytes) (count : ℤ)
        → Ensures (Served t (bit (session == t)) place) (lpop_many db session key count)
    unfolding lpop_many
    lpop_many-Served session key count =
        Ensures-bind _ _ (Database.remove_list_values db key (to_int count)) _
          (remove_list_values-waiters db key (to_int count) (db.list_store key) refl)
          (λ r e. once-Served r.0 session e)

    lpop-Served :
        (session : ℕ) (key : Bytes) (count : Option ℤ)
        → Ensures (Served t (bit (session == t)) place) (serve_lpop db session key count)
    unfolding serve_lpop
    lpop-Served session key none = lpop_one-Served session key
    lpop-Served session key (some count) = elim (Bool-cases (leb_ℤ count (pos 1))) [
      | inl e ↦ rw e (lpop_one-Served session key)
      | inr e ↦ rw e (lpop_many-Served session key count)
    ]

    set-waiters :
        (F : Floating) (key value : Bytes) (expiration : Option Bytes)
        → Ensures (λ db'. db'.waiters ≡ db.waiters) (serve_set F db key value expiration)
    unfolding serve_set
    set-waiters F key value none =
        set_value_timed-Ensures F (λ db'. db'.waiters ≡ db.waiters) db key value (pos 0)
          (set_value-waiters db key value (pos 0))
    set-waiters F key value (some expiration) =
        Ensures-bind (λ _. Unit {0}) _ (stoll expiration) _
          (Ensures-of_ok _ (stoll expiration) (λ time e. tt))
          (λ time h.
            set_value_timed-Ensures F (λ db'. db'.waiters ≡ db.waiters) db key value time
              (set_value-waiters db key value time))

    blpop-Served :
        (F : Floating) (session : ℕ) (key : Bytes) (timeout : F.Double)
        → bit (session == t) + tokens place ≤ 1
        → Ensures (Served t (bit (session == t)) place) (serve_blpop F db session key timeout)
    unfolding one
    blpop-Served F session key timeout le =
        let mine = of_session t in
        let handler : BlpopHandler = record { session = session; key = key } in
        Ensures-bind (λ r. Settled mine r.0 place (bit (session == t)) (answered mine r.1)) _
          (Database.async_blpop F db key timeout handler) _
          (Ensures-of_ok _ (Database.async_blpop F db key timeout handler) λ r h.
            Balanced-Settled mine db r.0 key place (bit (session == t)) (answered mine r.1) le held
              (λ k.
                blpop-conserves mine db r.0 key k handler r.1
                  (async_blpop-Queued F db r.0 key timeout handler r.1 (db.list_store key) refl h)))
          (λ r h. (h.0, h.1, omega (arith, h.2, count-answer r.1)))

    -- A client that waits nowhere, or another client than the command's, waits at most once after
    -- it.
    pub serve_request-Served :
        (F : Floating) (session : ℕ) (cmd : Command F.Double)
        → bit (session == t) + tokens place ≤ 1
        → Ensures (Served t (bit (session == t)) place) (serve_request F db session cmd)
    unfolding serve_request
    serve_request-Served F session (ping c) le = once-Served db session refl
    serve_request-Served F session (echo c) le = once-Served db session refl
    serve_request-Served F session (set c) le =
        Ensures-bind _ _ (serve_set F db c.key c.value c.expiration) _
          (set-waiters F c.key c.value c.expiration) (λ db' e. once-Served db' session e)
    serve_request-Served F session (get c) le = once-Served db session refl
    serve_request-Served F session (rpush c) le =
        let (pushed, size) = Database.set_list db c.key c.element in
        push-Served pushed session c.key size (set_list-waiters db c.key c.element)
    serve_request-Served F session (lpush c) le =
        let (pushed, size) = Database.set_list_left db c.key c.element in
        push-Served pushed session c.key size (set_list_left-waiters db c.key c.element)
    serve_request-Served F session (lrange c) le = once-Served db session refl
    serve_request-Served F session (llen c) le = once-Served db session refl
    serve_request-Served F session (lpop c) le = lpop-Served session c.key c.count
    serve_request-Served F session (blpop c) le = blpop-Served F session c.key c.timeout le
    serve_request-Served F session (info c) le = once-Served db session refl
    serve_request-Served F session (replconf c) le = once-Served db session refl
