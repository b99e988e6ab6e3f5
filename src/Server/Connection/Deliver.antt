-- ===== src/Server/Connection/Deliver.antt =====
-- What a handler's replies do to the connections that they are for.
use redis_cpp.Prelude.{ℕ, ◌+◌, ◌≤◌, ◌≡◌, ◌==◌, refl, ◌∙◌, true, false, Option, [], ◌∷◌, arith}
use redis_cpp.Prelude.Bytes.{Bytes}
use redis_cpp.Prelude.Outcome.{ok, throws, undefined, never, Ensures}
use redis_cpp.Database.Waiters.Held.{Held, tokens}
use redis_cpp.Commands.{Replies, Result}
use redis_cpp.Commands.Settled.{bit, count, of_session, Served}
use redis_cpp.Server.Connection.{Connection, World, update, send_response, deliver, settle}

-- How many operations are under way on a connection.
abbrev pub busy : Connection → ℕ
busy c = c.reads + bit c.writing

-- Each connection gets one reply at most, and that if it is not being written.
abbrev Fits : World → Replies → Type 0
Fits w replies = (t : ℕ) → count t replies + bit (w.connections t).writing ≤ 1

abbrev Delivered : World → Replies → World → Type 0
Delivered w replies w' =
    (w'.db ≡ w.db)
    × (w'.accepting ≡ w.accepting)
    × ((t : ℕ)
        → ((w'.connections t).reads ≡ (w.connections t).reads)
          × (bit (w'.connections t).writing ≡ bit (w.connections t).writing + count t replies))

-- A connection that is being written.
abbrev sent : ℕ → Bytes → World → World
sent s resp w = update w s (record (w.connections s) { message = resp; writing = true })

send_response-free :
    (s : ℕ) (resp : Bytes) (w : World)
    → (w.connections s).writing ≡ false
    → send_response s resp w ≡ ok (sent s resp w)
unfolding send_response
send_response-free s resp w h = rw h

sent-Fits :
    (s : ℕ) (resp : Bytes) (replies : Replies) (w : World)
    → Fits w ((s, resp) ∷ replies)
    → Fits (sent s resp w) replies
unfolding update
sent-Fits s resp replies w fits t = ground (arith, fits t)

sent-writing :
    (s : ℕ) (resp : Bytes) (w : World)
    → (w.connections s).writing ≡ false
    → (t : ℕ)
    → ((sent s resp w).connections t).reads ≡ (w.connections t).reads
      × (bit ((sent s resp w).connections t).writing ≡ bit (w.connections t).writing + bit (s == t))
unfolding update
sent-writing s resp w h t = (ground arith, ground arith)

deliver_lem :
    (replies : Replies) (w : World)
    → Fits w replies
    → (w' : World) × (deliver replies w ≡ ok w') × Delivered w replies w'
unfolding deliver update
deliver_lem [] w fits = (w, refl, (refl, refl, λ t. (refl, omega arith)))
deliver_lem ((s, resp) ∷ replies) w fits =
    let free : (w.connections s).writing ≡ false = ground (arith, fits s) in
    let (w', e, (db, accepting, loads)) =
      deliver_lem replies (sent s resp w) (sent-Fits s resp replies w fits) in
    (
      w',
      rw (send_response-free s resp w free) e,
      (
        db,
        accepting,
        λ t.
            let (reads, writing) = sent-writing s resp w free t in
            ((loads t).0 ∙ reads, omega (arith, (loads t).1, writing)),
      ),
    )

-- So many operations are under way for a connection: its reads and writes, and its place in the one
-- queue in which it waits.
abbrev pub Load : World → ℕ → ℕ → Type 0
Load w t n =
    (place : Option Bytes) × Held (of_session t) w.db place
    × (busy (w.connections t) + tokens place ≡ n)

-- A handler that answers `asked` of the clients, if the database serves them.
pub settle-Load :
    (w : World) (load asked : ℕ → ℕ) (m : Result)
    → ((t : ℕ) → Load w t (load t))
    → ((t : ℕ) → load t + asked t ≤ 1)
    → ((t : ℕ) (place : Option Bytes)
        → Held (of_session t) w.db place
        → asked t + tokens place ≤ 1
        → Ensures (Served t (asked t) place) m)
    → Ensures
        (λ r.
          (w' : World) × (settle w m ≡ ok w')
          × (w'.db ≡ r.0)
          × (w'.accepting ≡ w.accepting)
          × ((t : ℕ) → (w'.connections t).reads ≡ (w.connections t).reads)
          × ((t : ℕ) → Load w' t (load t + asked t)))
        m
unfolding settle
settle-Load w load asked undefined held le served = tt
settle-Load w load asked never held le served = tt
settle-Load w load asked (throws e) held le served = tt
settle-Load w load asked (ok (db, replies)) held le served =
    let after : (t : ℕ) → Served t (asked t) (held t).0 (db, replies) =
      λ t. served t (held t).0 (held t).1 (omega (arith, le t, (held t).2)) in
    let (w', e, (d, a, loads)) =
      deliver_lem replies (record w { db = db })
        (λ t. omega (arith, (after t).2, (held t).2, le t)) in
    (
      w',
      e,
      d,
      a,
      (λ t. (loads t).0),
      λ t. (
        (after t).0,
        rw d ((after t).1),
        omega (arith, (loads t).0, (loads t).1, (after t).2, (held t).2),
      ),
    )
